-- ===== src/Publisher/Stream.antt =====
-- What the live group, the buffer and the store say of each other.
use atmoq.Common.{
  ℕ, suc, ◌+◌, ◌-◌, ◌≤◌, ◌≡◌, refl, sym, ap, subst, ◌∙◌, true, false, Option, none, some, List, [],
  ◌∷◌, ◌++◌, ok, inl, inr, ◌⊎◌, leb, leb→lt, Bytes, length, length-append, arith,
}
use mathlib.Core.Option.{none-ne-some, some-injective}
use atmoq.Moq.{Moq, IsMoq, next_of}
use atmoq.Store.{GroupStore, done, append, read}
use atmoq.Store.Append.{IsSynced, IsFresh}
use atmoq.Store.Keeps.{Fits, append-read}
use atmoq.Publisher.{Env, Lite, store_group, buffered, write}
use atmoq.Publisher.Steps.{extended, rotated, Rotates, Writes, write-Writes}

module _ (m : Moq) (l : IsMoq m) where
  open l use {written, last}

  pub record IsStreaming (group_size : ℕ) (p : Lite m) : Type 0 where
    pub counted : p.count ≡ length (written p.group)
    pub room : p.count ≤ group_size - 1
    pub kept : (s : GroupStore) → p.store ≡ some s → p.group_frames ≡ written p.group
    pub known : last p.track ≡ some (m.sequence p.group)

  -- What a successful call has done to the live group: `b` is behind its frames, or it was full with
  -- `b` and an empty group of the next sequence has taken its place.
  abbrev pub Advances : Bytes → Lite m → Lite m → Type 0
  Advances b p p' =
      ((m.sequence p'.group ≡ m.sequence p.group)
        × (written p'.group ≡ written p.group ++ (b ∷ [])))
      ⊎ ((m.sequence p'.group ≡ suc (m.sequence p.group)) × (written p'.group ≡ []))

  store_group-live :
      (env : Env) (seq : ℕ) (o : Option GroupStore) (p : Lite m)
      → let q = store_group m env seq o p in
        (q.group ≡ p.group) × (q.track ≡ p.track) × (q.count ≡ p.count)
  store_group-live env seq none p = (refl, refl, refl)
  store_group-live env seq (some s) p = (refl, refl, refl)

  store_group-buffer :
      (env : Env) (seq : ℕ) (o : Option GroupStore) (p : Lite m)
      → p.store ≡ o
      → (s : GroupStore) → (store_group m env seq o p).store ≡ some s
      → (store_group m env seq o p).group_frames ≡ []
  store_group-buffer env seq none p e s h = absurd (none-ne-some s (sym e ∙ h))
  store_group-buffer env seq (some t) p e s h = refl

  rotated-IsStreaming :
      (env : Env) (group_size : ℕ) (p : Lite m) (track : m.Track) (next : m.Group)
      → m.append_group p.track ≡ (track, some next)
      → IsStreaming group_size (rotated m env p track next)
  rotated-IsStreaming env group_size p track next a =
      let (number, empty, above) = l.append_law p.track track next a in
      let start = record p { track = track; group = next; count = 0 } in
      let (same_group, same_track, same_count) =
        store_group-live env (m.sequence p.group) p.store start in
      record {
        counted =
            same_count
            ∙ sym (
                ap (λ (g : m.Group). length (written g)) same_group
                ∙ ap (λ (t : List Bytes). length t) empty);
        room = omega (arith, same_count);
        kept = λ s e.
            store_group-buffer env (m.sequence p.group) p.store start refl s e
            ∙ sym (ap written same_group ∙ empty);
        known =
            ap last same_track ∙ above ∙ ap (λ (g : m.Group). some (m.sequence g)) (sym same_group);
      }

  buffered-written :
      (b : Bytes) (o : Option GroupStore) (frames ws : List Bytes) (s : GroupStore)
      → o ≡ some s
      → frames ≡ ws
      → buffered o b frames ≡ ws ++ (b ∷ [])
  buffered-written b none frames ws s e h = absurd (none-ne-some s e)
  buffered-written b (some t) frames ws s e h = ap (λ (x : List Bytes). x ++ (b ∷ [])) h

  extended-IsStreaming :
      (group_size : ℕ) (b : Bytes) (p : Lite m) (g : m.Group)
      → m.write_frame b p.group ≡ (g, true)
      → leb group_size (p.count + 1) ≡ false
      → IsStreaming group_size p
      → IsStreaming group_size (extended m p b g)
  extended-IsStreaming group_size b p g w small i =
      let (same, more) = l.write_law b p.group g w in
      record {
        counted = omega (
          arith,
          i.counted,
          ap (λ (t : List Bytes). length t) more,
          length-append (written p.group) (b ∷ []),
        );
        room = omega (arith, leb→lt group_size (p.count + 1) small);
        kept = λ s e.
            buffered-written b p.store p.group_frames (written p.group) s e (i.kept s e) ∙ sym more;
        known = i.known ∙ ap some (sym same);
      }

  rotated-Advances :
      (env : Env) (group_size : ℕ) (b : Bytes) (p : Lite m) (g : m.Group) (track : m.Track)
      (next : m.Group)
      → m.write_frame b p.group ≡ (g, true)
      → m.append_group p.track ≡ (track, some next)
      → IsStreaming group_size p
      → Advances b p (rotated m env (extended m p b g) track next)
  rotated-Advances env group_size b p g track next w a i =
      let (number, empty, above) = l.append_law p.track track next a in
      let start = record (extended m p b g) { track = track; group = next; count = 0 } in
      let (same_group, same_track, same_count) =
        store_group-live env (m.sequence g) p.store start in
      inr (ap m.sequence same_group ∙ number ∙ ap next_of i.known, ap written same_group ∙ empty)

  pub write-IsStreaming :
      (env : Env) (b : Bytes) (group_size : ℕ) (p p' : Lite m)
      → IsStreaming group_size p
      → write m env b group_size p ≡ (p', ok tt)
      → IsStreaming group_size p' × Advances b p p'
  write-IsStreaming env b group_size p p' i h =
      let w = write-Writes m env b group_size p p' h in go w w.then
    where
      go :
          (w : Writes m env b group_size p p')
          → ((leb group_size (p.count + 1) ≡ false) × (p' ≡ extended m p b w.group))
            ⊎ ((leb group_size (p.count + 1) ≡ true) × Rotates m env (extended m p b w.group) p')
          → IsStreaming group_size p' × Advances b p p'
      go w (inl (small, e)) =
          subst (λ x. IsStreaming group_size x × Advances b p x) (sym e)
            (
              extended-IsStreaming group_size b p w.group w.taken small i,
              inl (l.write_law b p.group w.group w.taken),
            )
      go w (inr (full, r)) =
          subst (λ x. IsStreaming group_size x × Advances b p x) (sym r.after)
            (
              rotated-IsStreaming env group_size (extended m p b w.group) r.track r.next r.appended,
              rotated-Advances env group_size b p w.group r.track r.next w.taken r.appended i,
            )

  store_group-stored :
      (env : Env) (seq : ℕ) (o : Option GroupStore) (p : Lite m) (s : GroupStore)
      (frames : List Bytes)
      → o ≡ some s
      → p.group_frames ≡ frames
      → (store_group m env seq o p).store
        ≡ some (append s seq env.now_ms frames env.store_outcome).0
  store_group-stored env seq none p s frames e h = absurd (none-ne-some s e)
  store_group-stored env seq (some t) p s frames e h =
      ap (λ (x : GroupStore). some (append x seq env.now_ms p.group_frames env.store_outcome).0)
        (some-injective t s e)
      ∙ ap (λ (fs : List Bytes). some (append s seq env.now_ms fs env.store_outcome).0) h

  -- A full group goes to disk as it was streamed: on a store that is ready for it, if its
  -- lengths fit the record and the store's write succeeds, reading the group's sequence gives the frames that its subscribers got, in
  -- order, and the store is ready again.
  pub write-read :
      (env : Env) (b : Bytes) (group_size : ℕ) (p p' : Lite m) (s : GroupStore)
      → IsStreaming group_size p
      → p.store ≡ some s
      → group_size ≤ p.count + 1
      → IsSynced s
      → IsFresh s (m.sequence p.group)
      → Fits (m.sequence p.group) env.now_ms (written p.group ++ (b ∷ []))
      → env.store_outcome ≡ done
      → write m env b group_size p ≡ (p', ok tt)
      → (s' : GroupStore) × (p'.store ≡ some s')
        × (read s' (m.sequence p.group) ≡ ok (some (written p.group ++ (b ∷ []))))
        × IsSynced s'
  write-read env b group_size p p' s i e full synced fresh fits outcome h =
      let w = write-Writes m env b group_size p p' h in go w w.then
    where
      seq : ℕ
      seq = m.sequence p.group

      frames : List Bytes
      frames = written p.group ++ (b ∷ [])

      after : GroupStore
      after = (append s seq env.now_ms frames done).0

      stored :
          (w : Writes m env b group_size p p')
          → Rotates m env (extended m p b w.group) p'
          → p'.store ≡ some after
      stored w r =
          let q = extended m p b w.group in
          let same = (l.write_law b p.group w.group w.taken).0 in
          ap (λ (x : Lite m). x.store) r.after
          ∙ store_group-stored env (m.sequence w.group) p.store
              (record q { track = r.track; group = r.next; count = 0 }) s frames e
              (buffered-written b p.store p.group_frames (written p.group) s e (i.kept s e))
          ∙ ap (λ n. some (append s n env.now_ms frames env.store_outcome).0) same
          ∙ ap (λ o. some (append s seq env.now_ms frames o).0) outcome

      go :
          (w : Writes m env b group_size p p')
          → ((leb group_size (p.count + 1) ≡ false) × (p' ≡ extended m p b w.group))
            ⊎ ((leb group_size (p.count + 1) ≡ true) × Rotates m env (extended m p b w.group) p')
          → (s' : GroupStore) × (p'.store ≡ some s')
            × (read s' seq ≡ ok (some frames))
            × IsSynced s'
      go w (inl (small, x)) = absurd (omega (arith, full, leb→lt group_size (p.count + 1) small))
      go w (inr (x, r)) =
          let (result, back, ready) = append-read s seq env.now_ms frames synced fresh fits in
          (after, stored w r, back, ready)
