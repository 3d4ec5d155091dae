-- ===== src/Router/Route.antt =====
-- A frame on its way to the track of its account.
use atmoq.Common.{
  ◌+◌, ◌≡◌, ◌≢◌, refl, sym, ap, ◌∙◌, Bool, true, false, Option, none, some, List, [], ◌∷◌,
  if◌then◌else◌, leb, Bytes, length, ◌<◌, ◌≤◌, ◌++◌, ◌⊎◌,
}
use mathlib.Core.Option.{none-ne-some, some-injective}
use atmoq.Moq.{Moq, IsMoq}
use atmoq.Frame.{Cbor}
use atmoq.Router.{
  event_did, get, update, RouterConfig, DidTrack, next_group, fed, feed, route_to, route,
}
use atmoq.Router.Entries.{map_option, get-update, get-update_other, length-update}

module _ (m : Moq) (c : Cbor) (cfg : RouterConfig) where
  -- A frame changes no generation.
  pub feed-generation :
      (raw : Bytes) (t : DidTrack m) → (feed m cfg.group_size raw t).generation ≡ t.generation
  unfolding feed
  feed-generation raw t = go (m.write_frame raw t.group)
    where
      next :
          (u : DidTrack m) (o : m.Track × Option m.Group)
          → (next_group m u o).generation ≡ u.generation
      next u (track, none) = refl
      next u (track, some g) = refl

      go : (o : m.Group × Bool) → (fed m cfg.group_size t o).generation ≡ t.generation
      go (g, false) = refl
      go (g, true) =
          elim (leb cfg.group_size (t.count + 1))
            as (λ b.
              (if b
                then next_group m (record t { group = g; count = t.count + 1 })
                    (m.append_group t.track)
                else record t { group = g; count = t.count + 1 }).generation
              ≡ t.generation) [
                | true ↦ next (record t { group = g; count = t.count + 1 }) (m.append_group t.track)
                | false ↦ refl
              ]

  -- The map behind a frame: the track of the frame's account is fed, no other is touched.
  pub get-route :
      (raw did : Bytes) (active : List (Bytes × DidTrack m))
      → ((event_did c raw ≡ some did)
          → get did (route m c cfg.group_size raw active)
            ≡ map_option (feed m cfg.group_size raw) (get did active))
        × (event_did c raw ≢ some did
            → get did (route m c cfg.group_size raw active) ≡ get did active)
        × (length (route m c cfg.group_size raw active) ≡ length active)
  unfolding route get
  get-route raw did [] = (λ e. refl, λ e. refl, refl)
  get-route raw did (entry ∷ rest) = go (event_did c raw)
    where
      all : List (Bytes × DidTrack m)
      all = entry ∷ rest

      go :
          (o : Option Bytes)
          → ((o ≡ some did)
              → get did (route_to m c cfg.group_size raw o all)
                ≡ map_option (feed m cfg.group_size raw) (get did all))
            × (o ≢ some did → get did (route_to m c cfg.group_size raw o all) ≡ get did all)
            × (length (route_to m c cfg.group_size raw o all) ≡ length all)
      go none = (λ e. absurd (none-ne-some did e), λ e. refl, refl)
      go (some account) = (
        λ e.
            ap (λ k. get did (update k (feed m cfg.group_size raw) all))
              (some-injective account did e)
            ∙ get-update did (feed m cfg.group_size raw) all,
        λ e.
            get-update_other did account (feed m cfg.group_size raw) all
              (λ same. e (ap some (sym same))),
        length-update account (feed m cfg.group_size raw) all,
      )

module _ (m : Moq) (c : Cbor) (cfg : RouterConfig) (l : IsMoq m) where
  -- The group goes on behind a frame: it has room, or the library has no next one.
  pub record IsKept (t t' : DidTrack m) (g : m.Group) : Type 0 where
    pub group : t'.group ≡ g
    pub count : t'.count ≡ t.count + 1
    pub reason :
        ((t.count + 1 < cfg.group_size) × (t'.track ≡ t.track))
        ⊎ ((cfg.group_size ≤ t.count + 1) × (m.append_group t.track ≡ (t'.track, none)))

  -- The full group gives way to the next, which is empty.
  pub record IsRolled (t t' : DidTrack m) : Type 0 where
    pub full : cfg.group_size ≤ t.count + 1
    pub next : m.append_group t.track ≡ (t'.track, some t'.group)
    pub empty : l.written t'.group ≡ []
    pub count : t'.count ≡ 0

  -- A frame has been written to the group of `t`, which is then `g`.
  pub record IsFed (raw : Bytes) (t t' : DidTrack m) (g : m.Group) : Type 0 where
    pub written : l.written g ≡ l.written t.group ++ (raw ∷ [])
    pub generation : t'.generation ≡ t.generation
    pub behind : IsKept t t' g ⊎ IsRolled t t'
