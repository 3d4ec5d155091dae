-- ===== src/Router/Examples.antt =====
-- A router with one track.
use atmoq.Common.{◌≡◌, refl, none, some, [], ◌∷◌, List, Bytes, arith, eq_bytes}
use mathlib.Core.Option.{none-ne-some}
use mathlib.Core.List.{Memᴰ}
use mathlib.Core.List.Memᴰ
use atmoq.Moq.Examples.{toy}
use atmoq.Metrics.{no_metrics}
use atmoq.Frame.Docs.{account, account_docs}
use atmoq.Router.{
  RouterConfig, served, DidTrack, DidRouter, request, unused, is_did, get, insert, remove,
}
use atmoq.Router.Steps.{Watcher, System, asked, Reachable, here, go_on, IsSound, requested}
use atmoq.Router.Fresh.{Reachable-IsSound, unused-request}

abbrev cfg : RouterConfig
cfg = record { group_size = 2; replay_window_secs = 10; max_tracks = 3 }

abbrev start : System toy
start = record {
  router = record { active = []; next_generation = 0; metrics = no_metrics };
  watchers = [];
}

start-IsSound : IsSound toy account_docs cfg start
unfolding get
start-IsSound = record {
  size = omega arith;
  watched = λ did t e. absurd (none-ne-some t e);
  young = λ w h. absurd (Memᴰ.not-nil h);
}

abbrev one : System toy
one = requested toy cfg account none start

one_step : Reachable toy account_docs cfg start one
one_step = go_on here (asked start account none (omega arith))

Reachable-IsSound_example : IsSound toy account_docs cfg one
Reachable-IsSound_example = Reachable-IsSound toy account_docs cfg start one start-IsSound one_step

abbrev again : DidRouter toy
again = (request toy cfg account none one.router).0

again_served : request toy cfg account none one.router ≡ (again, served 1)
unfolding requested request is_did insert remove eq_bytes
again_served = refl

old_watcher : Memᴰ {A = Watcher} (account, 0) one.watchers
unfolding requested request is_did insert remove eq_bytes
old_watcher = Memᴰ.head refl

unused-request_example :
    (t : DidTrack toy) × (t.generation ≡ 1)
    × (get account again.active ≡ some t)
    × (get account (unused toy account 0 again).active ≡ some t)
unused-request_example =
    unused-request toy account_docs cfg start one account none again 1 (account, 0) start-IsSound
      one_step again_served old_watcher

-- The track behind the request, its group with one frame.
abbrev held : DidTrack toy
held = record { track = some 0; group = (0, (1 ∷ []) ∷ []); count = 1; generation = 0 }

abbrev active : List (Bytes × DidTrack toy)
active = (account, held) ∷ []
