-- ===== src/Router.antt =====
-- rust/crates/atmoq/src/router.rs: a track for each account that a consumer asks for by name, made at
-- the request and dropped when its last subscriber goes. A text is the list of its bytes. The map of
-- the tracks is an association list; every critical section of its mutex is one operation.
pub mod Entries
pub mod Steps
pub mod Route
pub mod Fresh
mod Examples
use atmoq.Common.{
  ℕ, zero, suc, ◌+◌, ◌*◌, ◌%◌, ◌^◌, Bool, true, false, ◌&&◌, Option, none, some, List, [], ◌∷◌,
  Result, ok, err, panic, if◌then◌else◌, ltb, leb, ◌==◌, Bytes, length, take, eq_bytes,
}
use atmoq.Moq.{Moq}
use atmoq.Metrics.{Metrics, add_u64}
use atmoq.Frame.{Cbor, FrameError, decode, field, and_then}

-- `MAX_DID_TRACKS`.
abbrev pub max_did_tracks : ℕ
max_did_tracks = 10000

abbrev pub track_limit : ℕ → ℕ
track_limit max_tracks = if max_tracks == 0 then max_did_tracks else max_tracks

abbrev pub did_prefix : Bytes
did_prefix = b'd' ∷ b'i' ∷ b'd' ∷ b':' ∷ []

unfoldable pub is_did : Bytes → Bool
is_did name = eq_bytes (take 4 name) did_prefix && leb 7 (length name) && leb (length name) 256

module _ (c : Cbor) where
  abbrev pub decoded_payload : Result FrameError (c.Value × c.Value) → Option c.Value
  decoded_payload (ok (header, payload)) = some payload
  decoded_payload (err e) = none
  decoded_payload panic = none

  abbrev pub or_else : Option c.Value → Option c.Value → Option c.Value
  or_else none other = other
  or_else (some v) other = some v

  abbrev pub repo_key : Bytes
  repo_key = b'r' ∷ b'e' ∷ b'p' ∷ b'o' ∷ []

  abbrev pub did_key : Bytes
  did_key = b'd' ∷ b'i' ∷ b'd' ∷ []

  unfoldable pub event_did : Bytes → Option Bytes
  event_did raw =
      and_then (decoded_payload (decode c raw))
        λ payload. and_then (or_else (field c payload repo_key) (field c payload did_key)) c.as_text

module _ {ℓ} {A : Type ℓ} where
  -- `HashMap::get`, `remove` and `insert`.
  unfoldable pub get : Bytes → List (Bytes × A) → Option A
  get key [] = none
  get key ((k, a) ∷ rest) = let other = get key rest in if eq_bytes k key then some a else other

  unfoldable pub remove : Bytes → List (Bytes × A) → List (Bytes × A)
  remove key [] = []
  remove key ((k, a) ∷ rest) =
      let others = remove key rest in if eq_bytes k key then others else (k, a) ∷ others

  unfoldable pub insert : Bytes → A → List (Bytes × A) → List (Bytes × A)
  unfolding remove
  insert key a entries = (key, a) ∷ remove key entries

  -- What is done through `get_mut`.
  unfoldable pub update : Bytes → (A → A) → List (Bytes × A) → List (Bytes × A)
  update key f [] = []
  update key f ((k, a) ∷ rest) =
      let others = update key f rest in
      if eq_bytes k key then (k, f a) ∷ others else (k, a) ∷ others

pub record RouterConfig : Type 0 where
  pub group_size : ℕ
  pub replay_window_secs : ℕ
  pub max_tracks : ℕ

-- What becomes of the producer of a request.
pub data Answer : Type 0 where
  served : ℕ → Answer
  aborted unopened : Answer

module _ (m : Moq) where
  open m use {Track, Group, append_group, write_frame, finish_group, set_max_group_age}

  pub record DidTrack : Type 0 where
    pub track : Track
    pub group : Group
    pub count : ℕ
    pub generation : ℕ

  -- The map, the counter of the request loop, and the process's metrics.
  pub record DidRouter : Type 0 where
    pub active : List (Bytes × DidTrack)
    pub next_generation : ℕ
    pub metrics : Metrics

  abbrev pub aged : RouterConfig → Track → Track
  aged cfg t =
      if ltb 0 cfg.replay_window_secs then (set_max_group_age cfg.replay_window_secs t).0 else t

  abbrev pub count_refused : DidRouter → DidRouter
  count_refused r = record r {
    metrics = record r.metrics {
      did_tracks_refused_total = add_u64 r.metrics.did_tracks_refused_total 1;
    };
  }

  abbrev pub add_track : Bytes → DidTrack → DidRouter → DidRouter
  add_track did t r = record r {
    active = insert did t r.active;
    metrics = record r.metrics {
      did_tracks_opened_total = add_u64 r.metrics.did_tracks_opened_total 1;
    };
  }

  -- Under the lock, with the request's own `generation`.
  abbrev pub registered : RouterConfig → Bytes → Track → Group → ℕ → DidRouter → DidRouter × Answer
  registered cfg did track group generation r =
      if leb (track_limit cfg.max_tracks) (length r.active) then (count_refused r, aborted) else (
        add_track did (record { track = track; group = group; count = 0; generation = generation })
            r,
        served generation,
      )

  -- Behind `producer.append_group()`.
  abbrev pub opened : RouterConfig → Bytes → DidRouter → Track × Option Group → DidRouter × Answer
  opened cfg did r (track, none) = (r, unopened)
  opened cfg did r (track, some group) =
      registered cfg did track group r.next_generation
        (record r { next_generation = (r.next_generation + 1) % 2 ^ 64 })

  -- One turn of the request loop.
  unfoldable pub request : RouterConfig → Bytes → Track → DidRouter → DidRouter × Answer
  unfolding is_did
  request cfg did producer r =
      if is_did did then opened cfg did r (append_group (aged cfg producer)) else (r, aborted)

  abbrev pub is_current : ℕ → Option DidTrack → Bool
  is_current generation none = false
  is_current generation (some t) = t.generation == generation

  abbrev pub remove_track : Bytes → DidRouter → DidRouter
  remove_track did r = record r {
    active = remove did r.active;
    metrics = record r.metrics {
      did_tracks_closed_total = add_u64 r.metrics.did_tracks_closed_total 1;
    };
  }

  -- The watcher of a served request, when `unused()` comes back.
  unfoldable pub unused : Bytes → ℕ → DidRouter → DidRouter
  unfolding get remove
  unused did generation r =
      if is_current generation (get did r.active) then remove_track did r else r

  -- A full group gives way to the next, if there is one. The `finish().ok()` of the old goes to the
  -- library, with the last handle of that group.
  abbrev pub next_group : DidTrack → Track × Option Group → DidTrack
  next_group t (track, none) = record t { track = track }
  next_group t (track, some next) = record t { track = track; group = next; count = 0 }

  abbrev pub fed : ℕ → DidTrack → Group × Bool → DidTrack
  fed group_size t (g, false) = record t { group = g }
  fed group_size t (g, true) =
      let t' = record t { group = g; count = t.count + 1 } in
      if leb group_size (t.count + 1) then next_group t' (append_group t.track) else t'

  unfoldable pub feed : ℕ → Bytes → DidTrack → DidTrack
  feed group_size raw t = fed group_size t (write_frame raw t.group)

module _ (m : Moq) (c : Cbor) where
  abbrev pub route_to :
      ℕ → Bytes → Option Bytes → List (Bytes × DidTrack m) → List (Bytes × DidTrack m)
  route_to group_size raw none active = active
  route_to group_size raw (some did) active = update did (feed m group_size raw) active

  unfoldable pub route : ℕ → Bytes → List (Bytes × DidTrack m) → List (Bytes × DidTrack m)
  unfolding event_did
  route group_size raw [] = []
  route group_size raw (entry ∷ rest) = route_to group_size raw (event_did c raw) (entry ∷ rest)
