-- ===== src/Publisher/Steps.antt =====
-- What a call that succeeds went through.
use atmoq.Common.{
  ℕ, ◌+◌, ◌≡◌, refl, sym, ap, Bool, true, false, Option, none, some, ok, err, Bool-cases, inl, inr,
  ◌⊎◌, leb, Bytes,
}
use atmoq.Moq.{Moq}
use atmoq.Publisher.{
  Env, Published, PublishError, Lite, store_group, note_group, finished, replaced, rotate_group,
  buffered, written_frame, write,
}

module _ (m : Moq) where
  -- `b` is in the live group, whose handle is now `g`.
  abbrev pub extended : Lite m → Bytes → m.Group → Lite m
  extended p b g = record p {
    group = g;
    group_frames = buffered p.store b p.group_frames;
    count = p.count + 1;
  }

  -- The live group of `p` is finished and `next` takes its place.
  abbrev pub rotated : Env → Lite m → m.Track → m.Group → Lite m
  rotated env p track next = note_group m env (
      store_group m env (m.sequence p.group) p.store
        (record p { track = track; group = next; count = 0 }))

  pub record Rotates (env : Env) (p p' : Lite m) : Type 0 where
    pub track : m.Track
    pub next : m.Group
    pub appended : m.append_group p.track ≡ (track, some next)
    pub after : p' ≡ rotated env p track next

  pub record Writes (env : Env) (b : Bytes) (group_size : ℕ) (p p' : Lite m) : Type 0 where
    pub group : m.Group
    pub taken : m.write_frame b p.group ≡ (group, true)
    pub then :
        ((leb group_size (p.count + 1) ≡ false) × (p' ≡ extended p b group))
        ⊎ ((leb group_size (p.count + 1) ≡ true) × Rotates env (extended p b group) p')

  abbrev answer : Lite m → Lite m × Published (Unit {0})
  answer p = (p, ok tt)

  ok_state : (p p' : Lite m) → answer p ≡ answer p' → p' ≡ p
  ok_state p p' e = sym (ap (λ (t : Lite m × Published (Unit {0})). t.0) e)

  not_ok :
      (p p' : Lite m) (e : PublishError)
      → ◌≡◌ {A = Lite m × Published (Unit {0})} (p, err e) (p', ok tt)
      → ⊥
  not_ok p p' e h = no (ap (λ (t : Lite m × Published (Unit {0})). t.1) h)
    where
      no : ◌≡◌ {A = Published (Unit {0})} (err e) (ok tt) → ⊥
      no h = cc

  finished-Rotates :
      (env : Env) (p p' : Lite m) (track : m.Track) (next : m.Group) (o : Bool)
      → m.append_group p.track ≡ (track, some next)
      → finished m env (m.sequence p.group) (record p { track = track; group = next }) o ≡ answer p'
      → Rotates env p p'
  finished-Rotates env p p' track next false a h = absurd (not_ok _ p' _ h)
  finished-Rotates env p p' track next true a h = record {
    track = track;
    next = next;
    appended = a;
    after = ok_state (rotated env p track next) p' h;
  }

  replaced-Rotates :
      (env : Env) (p p' : Lite m) (o : m.Track × Option m.Group)
      → m.append_group p.track ≡ o
      → replaced m env p o ≡ answer p'
      → Rotates env p p'
  replaced-Rotates env p p' (track, none) a h = absurd (not_ok _ p' _ h)
  replaced-Rotates env p p' (track, some next) a h =
      finished-Rotates env p p' track next (m.finish_group p.group).1 a h

  rotate_group-Rotates :
      (env : Env) (p p' : Lite m) → rotate_group m env p ≡ answer p' → Rotates env p p'
  unfolding rotate_group
  rotate_group-Rotates env p p' h = replaced-Rotates env p p' (m.append_group p.track) refl h

  written_frame-Writes :
      (env : Env) (b : Bytes) (group_size : ℕ) (p p' : Lite m) (o : m.Group × Bool)
      → m.write_frame b p.group ≡ o
      → written_frame m env b group_size p o ≡ answer p'
      → Writes env b group_size p p'
  written_frame-Writes env b group_size p p' (g, false) w h = absurd (not_ok _ p' _ h)
  written_frame-Writes env b group_size p p' (g, true) w h =
      elim (Bool-cases (leb group_size (p.count + 1))) [
        | inl e ↦ record {
          group = g;
          taken = w;
          then = inr (e, rotate_group-Rotates env (extended p b g) p' (rw e at h));
        }
        | inr e ↦ record {
          group = g;
          taken = w;
          then = inl (e, ok_state (extended p b g) p' (rw e at h));
        }
      ]

  pub write-Writes :
      (env : Env) (b : Bytes) (group_size : ℕ) (p p' : Lite m)
      → write m env b group_size p ≡ answer p'
      → Writes env b group_size p p'
  unfolding write
  write-Writes env b group_size p p' h =
      written_frame-Writes env b group_size p p' (m.write_frame b p.group) refl h
