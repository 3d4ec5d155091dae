-- ===== src/Router/Fresh.antt =====
-- Every order of requests, departures and frames.
use atmoq.Common.{
  ℕ, ◌+◌, ◌%◌, ◌^◌, ◌≡◌, ◌≢◌, refl, sym, ap, subst, ◌∙◌, Bool, true, false, Option, none, some,
  List, [], if◌then◌else◌, leb, Bytes, length, inl, inr, ◌⊎◌, ne→==, arith,
}
use mathlib.Core.Option.{none-ne-some, some-injective}
use mathlib.Core.List.{Memᴰ}
use atmoq.Moq.{Moq}
use atmoq.Frame.{Cbor}
use atmoq.Router.{
  track_limit, is_did, event_did, get, RouterConfig, Answer, served, aborted, unopened, DidTrack,
  DidRouter, aged, opened, request, is_current, count_refused, add_track, remove_track, unused,
  feed, route,
}
use atmoq.Router.Entries.{same_or_other, get-remove_other, get-insert, map_option}
use atmoq.Router.Steps.{
  Watcher, System, Step, asked, left, routed, Reachable, here, go_on, IsSound, request-IsSound,
  unused-IsSound,
}
use atmoq.Router.Route.{feed-generation, get-route}

module _ (m : Moq) (c : Cbor) (cfg : RouterConfig) where
  fed_from :
      (f : DidTrack m → DidTrack m) (o : Option (DidTrack m)) (t : DidTrack m)
      → map_option f o ≡ some t
      → (u : DidTrack m) × (o ≡ some u) × (f u ≡ t)
  fed_from f none t e = absurd (none-ne-some t e)
  fed_from f (some u) t e = (u, refl, some-injective (f u) t e)

  -- The track that is in the map behind a frame was there before, in the same generation.
  route-generation :
      (raw did : Bytes) (active : List (Bytes × DidTrack m)) (t : DidTrack m)
      → get did (route m c cfg.group_size raw active) ≡ some t
      → (u : DidTrack m) × (get did active ≡ some u) × (u.generation ≡ t.generation)
  route-generation raw did active t e = elim (own_or_other (event_did c raw)) [
    | inl same ↦
        let (u, found, after) =
          fed_from (feed m cfg.group_size raw) (get did active) t
            (sym ((get-route m c cfg raw did active).0 same) ∙ e) in
        (
          u,
          found,
          sym (feed-generation m c cfg raw u) ∙ ap (λ (x : DidTrack m). x.generation) after,
        )
    | inr differs ↦ (t, sym ((get-route m c cfg raw did active).1 differs) ∙ e, refl)
  ]
    where
      own_or_other : (o : Option Bytes) → (o ≡ some did) ⊎ (o ≢ some did)
      own_or_other none = inr (λ x. none-ne-some did x)
      own_or_other (some account) = elim (same_or_other account did) [
        | inl same ↦ inl (ap some same)
        | inr differs ↦ inr (λ x. differs (some-injective account did x))
      ]

  Step-IsSound : {s s' : System m} → Step m c cfg s s' → IsSound m c cfg s → IsSound m c cfg s'
  Step-IsSound (asked s did producer small) i = request-IsSound m c cfg s did producer small i
  Step-IsSound (left s did generation before after e) i =
      unused-IsSound m c cfg s did generation before after e i
  Step-IsSound (routed s raw) i = record {
    size = omega (arith, i.size, (get-route m c cfg raw [] s.router.active).2);
    watched = λ did t e.
        let (u, found, same) = route-generation raw did s.router.active t e in
        subst (λ g. Memᴰ {A = Watcher} (did, g) s.watchers) same (i.watched did u found);
    young = i.young;
  }

  -- From a sound start, in every order of requests, departures and frames, with fewer than 2 ^ 64 requests, the router
  -- serves no more tracks than its limit, every track that it serves has its own watcher still
  -- waiting, and every watcher's generation is below the next.
  pub Reachable-IsSound :
      (start s : System m) → IsSound m c cfg start → Reachable m c cfg start s → IsSound m c cfg s
  Reachable-IsSound start s i here = i
  Reachable-IsSound start s i (go_on r step) = Step-IsSound step (Reachable-IsSound start _ i r)

  -- What a request that is served leaves.
  abbrev IsServed : Bytes → ℕ → DidRouter m × Answer → Type 0
  IsServed did next (r, served g) =
      (t : DidTrack m) × (get did r.active ≡ some t) × (t.generation ≡ g) × (g ≡ next)
  IsServed did next (r, aborted) = Unit
  IsServed did next (r, unopened) = Unit

  request-IsServed :
      (did : Bytes) (producer : m.Track) (r : DidRouter m)
      → IsServed did r.next_generation (request m cfg did producer r)
  unfolding request
  request-IsServed did producer r = go (is_did did) (m.append_group (aged m cfg producer))
    where
      kept :
          (track : m.Track) (group : m.Group) (b : Bool)
          → IsServed did r.next_generation (
              if b
              then (
                count_refused m (record r { next_generation = (r.next_generation + 1) % 2 ^ 64 }),
                aborted,
              )
              else (
                add_track m did
                    (record {
                      track = track;
                      group = group;
                      count = 0;
                      generation = r.next_generation;
                    })
                    (record r { next_generation = (r.next_generation + 1) % 2 ^ 64 }),
                served r.next_generation,
              ))
      kept track group true = tt
      kept track group false = (
        record { track = track; group = group; count = 0; generation = r.next_generation },
        get-insert did _ r.active,
        refl,
        refl,
      )

      go :
          (b : Bool) (o : m.Track × Option m.Group)
          → IsServed did r.next_generation (if b then opened m cfg did r o else (r, aborted))
      go false o = tt
      go true (track, none) = tt
      go true (track, some group) =
          kept track group (leb (track_limit cfg.max_tracks) (length r.active))

  unused-other :
      (did other : Bytes) (generation : ℕ) (r : DidRouter m)
      → did ≢ other
      → get did (unused m other generation r).active ≡ get did r.active
  unfolding unused
  unused-other did other generation r differs = go (is_current m generation (get other r.active))
    where
      go : (b : Bool) → get did (if b then remove_track m other r else r).active ≡ get did r.active
      go true = get-remove_other did other r.active differs
      go false = refl

  unused-stale :
      (did : Bytes) (generation : ℕ) (r : DidRouter m) (t : DidTrack m)
      → get did r.active ≡ some t
      → t.generation ≢ generation
      → unused m did generation r ≡ r
  unfolding unused
  unused-stale did generation r t e differs =
      ap (λ b. if b then remove_track m did r else r)
        (ap (is_current m generation) e ∙ ne→== t.generation generation differs)

  -- In every state that is reachable from a sound one, a request that is served leaves a track that none of the watchers
  -- started before it can remove, whatever account and generation they wait for.
  pub unused-request :
      (start s : System m) (did : Bytes) (producer : m.Track) (r : DidRouter m) (generation : ℕ)
      (w : Watcher)
      → IsSound m c cfg start
      → Reachable m c cfg start s
      → request m cfg did producer s.router ≡ (r, served generation)
      → Memᴰ w s.watchers
      → (t : DidTrack m) × (t.generation ≡ generation)
        × (get did r.active ≡ some t)
        × (get did (unused m w.0 w.1 r).active ≡ some t)
  unused-request start s did producer r generation w i reach h old =
      let (t, found, same, number) =
        subst (IsServed did s.router.next_generation) h (request-IsServed did producer s.router) in
      let young = (Reachable-IsSound start s i reach).young w old in
      (
        t,
        same,
        found,
        elim (same_or_other did w.0) [
          | inl own ↦
              ap (λ k. get did (unused m k w.1 r).active) (sym own)
              ∙ ap (λ (x : DidRouter m). get did x.active)
                  (unused-stale did w.1 r t found (λ x. omega (arith, x, same, number, young)))
              ∙ found
          | inr differs ↦ unused-other did w.0 w.1 r differs ∙ found
        ],
      )
