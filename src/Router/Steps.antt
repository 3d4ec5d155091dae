-- ===== src/Router/Steps.antt =====
-- The router and its watchers as a transition system: a request, the end of a watcher's wait, and a
-- frame come in any order.
use atmoq.Common.{
  ℕ, ◌+◌, ◌%◌, ◌^◌, ◌≤◌, ◌<◌, ◌≡◌, ◌≢◌, refl, sym, ap, subst, ◌∙◌, Bool, true, false, Option, none,
  some, List, ◌∷◌, ◌++◌, if◌then◌else◌, leb, Bytes, length, inl, inr, leb→lt, eq→==, arith,
}
use mathlib.Core.Option.{none-ne-some, some-injective}
use mathlib.Core.List.{Memᴰ}
use mathlib.Core.List.Memᴰ
use atmoq.Moq.{Moq}
use atmoq.Metrics.{Metrics}
use atmoq.Frame.{Cbor}
use atmoq.Router.{
  track_limit, is_did, get, remove, insert, RouterConfig, Answer, served, aborted, unopened,
  DidTrack, DidRouter, aged, registered, count_refused, add_track, remove_track, opened, request,
  is_current, unused, route,
}
use atmoq.Router.Entries.{
  same_or_other, get-remove, get-remove_other, get-insert, get-insert_other, length-remove,
  length-insert,
}

-- The account and the generation for which a watcher waits.
abbrev pub Watcher : Type 0
Watcher = Bytes × ℕ

-- A served request starts its watcher.
abbrev pub watch : Bytes → Answer → List Watcher → List Watcher
watch did (served generation) watchers = (did, generation) ∷ watchers
watch did aborted watchers = watchers
watch did unopened watchers = watchers

module _ (m : Moq) where
  pub record System : Type 0 where
    pub router : DidRouter m
    pub watchers : List Watcher

  abbrev pub answered : Bytes → List Watcher → DidRouter m × Answer → System
  answered did watchers (r, answer) = record { router = r; watchers = watch did answer watchers }

  unfoldable pub requested : RouterConfig → Bytes → m.Track → System → System
  unfolding request
  requested cfg did producer s = answered did s.watchers (request m cfg did producer s.router)

module _ (m : Moq) (c : Cbor) (cfg : RouterConfig) where
  pub data Step : System m → System m → Type 0 where
    asked :
        (s : System m) (did : Bytes) (producer : m.Track)
        → s.router.next_generation + 1 < 2 ^ 64
        → Step s (requested m cfg did producer s)
    left :
        (s : System m) (did : Bytes) (generation : ℕ) (before after : List Watcher)
        → s.watchers ≡ before ++ ((did, generation) ∷ after)
        → Step s (record { router = unused m did generation s.router; watchers = before ++ after })
    routed :
        (s : System m) (raw : Bytes)
        → Step s (record s {
          router = record s.router { active = route m c cfg.group_size raw s.router.active };
        })

  pub data Reachable (start : System m) : System m → Type 0 where
    here : Reachable start start
    go_on : {s s' : System m} → Reachable start s → Step s s' → Reachable start s'

  pub record IsSound (s : System m) : Type 0 where
    pub size : length s.router.active ≤ track_limit cfg.max_tracks
    pub watched :
        (did : Bytes) (t : DidTrack m)
        → get did s.router.active ≡ some t
        → Memᴰ (did, t.generation) s.watchers
    pub young : (w : Watcher) → Memᴰ w s.watchers → w.1 < s.router.next_generation

  older :
      (s : System m) (next : ℕ)
      → IsSound s
      → s.router.next_generation ≤ next
      → (x : Metrics)
      → IsSound (record s { router = record s.router { next_generation = next; metrics = x } })
  older s next i h x = record {
    size = i.size;
    watched = i.watched;
    young = λ w e. omega (arith, i.young w e, h);
  }

  -- The entry of a new track, in the map.
  abbrev new_track : m.Track → m.Group → ℕ → DidTrack m
  new_track track group generation = record {
    track = track;
    group = group;
    count = 0;
    generation = generation;
  }

  inserted-watched :
      (s : System m) (did : Bytes) (new : DidTrack m)
      → IsSound s
      → (other : Bytes) (t : DidTrack m) → get other (insert did new s.router.active) ≡ some t
      → Memᴰ (other, t.generation) ((did, new.generation) ∷ s.watchers)
  inserted-watched s did new i other t e = elim (same_or_other other did) [
    | inl same ↦
        let here : new ≡ t = some-injective new t (
          sym (get-insert did new s.router.active)
          ∙ ap (λ k. get k (insert did new s.router.active)) (sym same)
          ∙ e) in
        Memᴰ.head (
          ap (λ (k : Bytes). (k, t.generation)) same
          ∙ ap (λ (x : DidTrack m). (did, x.generation)) (sym here))
    | inr differs ↦
        Memᴰ.tail
          (i.watched other t (sym (get-insert_other other did new s.router.active differs) ∙ e))
  ]

  registered-IsSound :
      (s : System m) (did : Bytes) (track : m.Track) (group : m.Group) (next : ℕ)
      → IsSound s
      → s.router.next_generation < next
      → IsSound (
          answered m did s.watchers (
            registered m cfg did track group s.router.next_generation
              (record s.router { next_generation = next })))
  registered-IsSound s did track group next i h =
      go (leb (track_limit cfg.max_tracks) (length s.router.active)) refl
    where
      r : DidRouter m
      r = record s.router { next_generation = next }

      new : DidTrack m
      new = new_track track group s.router.next_generation

      go :
          (b : Bool)
          → leb (track_limit cfg.max_tracks) (length s.router.active) ≡ b
          → IsSound (
              answered m did s.watchers (
                if b
                then (count_refused m r, aborted)
                else (add_track m did new r, served s.router.next_generation)))
      go true e = older s next i (omega (arith, h)) (count_refused m r).metrics
      go false e = record {
        size = omega (arith, length-insert did new s.router.active, leb→lt _ _ e);
        watched = inserted-watched s did new i;
        young = λ w x. elim (Memᴰ.cases_cons x) [
          | inl same ↦ omega (arith, h, ap (λ (y : Watcher). y.1) same)
          | inr old ↦ omega (arith, h, i.young w old)
        ];
      }

  pub request-IsSound :
      (s : System m) (did : Bytes) (producer : m.Track)
      → s.router.next_generation + 1 < 2 ^ 64
      → IsSound s
      → IsSound (requested m cfg did producer s)
  unfolding requested request
  request-IsSound s did producer small i = go (is_did did) (m.append_group (aged m cfg producer))
    where
      go :
          (b : Bool) (o : m.Track × Option m.Group)
          → IsSound (
              answered m did s.watchers
                (if b then opened m cfg did s.router o else (s.router, aborted)))
      go false o = i
      go true (track, none) = i
      go true (track, some group) =
          registered-IsSound s did track group ((s.router.next_generation + 1) % 2 ^ 64) i
            (omega (arith, small))

  -- What is left of the watchers without one of them.
  without :
      (w v : Watcher) (before after : List Watcher)
      → Memᴰ w (before ++ (v ∷ after))
      → w ≢ v
      → Memᴰ w (before ++ after)
  without w v before after x differs = elim (Memᴰ.append_cases before x) [
    | inl y ↦ Memᴰ.append_left after y
    | inr y ↦ elim (Memᴰ.cases_cons y) [
      | inl same ↦ absurd (differs same)
      | inr z ↦ Memᴰ.append_right before z
    ]
  ]

  pub with_one :
      (w v : Watcher) (before after : List Watcher)
      → Memᴰ w (before ++ after)
      → Memᴰ w (before ++ (v ∷ after))
  with_one w v before after x = elim (Memᴰ.append_cases before x) [
    | inl y ↦ Memᴰ.append_left (v ∷ after) y
    | inr y ↦ Memᴰ.append_right before (Memᴰ.tail y)
  ]

  pub is_current-some :
      (generation : ℕ) (o : Option (DidTrack m)) (t : DidTrack m)
      → o ≡ some t
      → is_current m generation o ≡ false
      → t.generation ≢ generation
  is_current-some generation none t e h = cc
  is_current-some generation (some u) t e h = λ same. no (
      sym (
        eq→== u.generation generation
          (ap (λ (x : DidTrack m). x.generation) (some-injective u t e) ∙ same))
      ∙ h)
    where
      no : true ≡ false → ⊥
      no x = cc

  pub unused-IsSound :
      (s : System m) (did : Bytes) (generation : ℕ) (before after : List Watcher)
      → s.watchers ≡ before ++ ((did, generation) ∷ after)
      → IsSound s
      → IsSound (record { router = unused m did generation s.router; watchers = before ++ after })
  unfolding unused
  unused-IsSound s did generation before after e i =
      go (is_current m generation (get did s.router.active)) refl
    where
      stays :
          (other : Bytes) (t : DidTrack m)
          → get other s.router.active ≡ some t
          → ◌≢◌ {A = Watcher} (other, t.generation) (did, generation)
          → Memᴰ (other, t.generation) (before ++ after)
      stays other t x differs =
          without (other, t.generation) (did, generation) before after
            (subst (λ ws. Memᴰ (other, t.generation) ws) e (i.watched other t x)) differs

      youth : (w : Watcher) → Memᴰ w (before ++ after) → w.1 < s.router.next_generation
      youth w x =
          i.young w (subst (λ ws. Memᴰ w ws) (sym e) (with_one w (did, generation) before after x))

      go :
          (b : Bool)
          → is_current m generation (get did s.router.active) ≡ b
          → IsSound (record {
            router = if b then remove_track m did s.router else s.router;
            watchers = before ++ after;
          })
      go true h = record {
        size = omega (arith, i.size, length-remove did s.router.active);
        watched = λ other t x. elim (same_or_other other did) [
          | inl same ↦ absurd (
              none-ne-some t (
                sym (get-remove did s.router.active)
                ∙ ap (λ k. get k (remove did s.router.active)) (sym same)
                ∙ x))
          | inr differs ↦
              stays other t (sym (get-remove_other other did s.router.active differs) ∙ x)
                (λ y. differs (ap (λ (z : Watcher). z.0) y))
        ];
        young = youth;
      }
      go false h = record {
        size = i.size;
        watched = λ other t x. stays other t x (λ y.
            is_current-some generation (get did s.router.active) t
              (ap (λ k. get k s.router.active) (sym (ap (λ (z : Watcher). z.0) y)) ∙ x) h
              (ap (λ (z : Watcher). z.1) y));
        young = youth;
      }
