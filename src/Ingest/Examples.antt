-- ===== src/Ingest/Examples.antt =====
-- A connection that is up, and one that falls silent.
use atmoq.Common.{◌≡◌, refl, none, some, List, [], ◌∷◌}
use atmoq.Metrics.{no_metrics}
use atmoq.Drisl.Examples.{runs}
use atmoq.Frame.{parse, decode, boundary}
use atmoq.Frame.Docs.{account_docs}
use atmoq.Ingest.{
  binary, pong, Turn, next, idle, ping_tick, sent, went_idle, Ingest, start_ingest, on_message,
  on_turn, relay_frames,
}
use atmoq.Ingest.Laws.{Adds, valid_frames, rejected, last_message, relay_frames-Adds}
use atmoq.Ingest.Idle.{WasQuiet, relay_frames-WasQuiet}

-- A message that is no frame, a pong, and an idle timer that fires too early.
abbrev busy : List Turn
busy = next 1000 (binary []) ∷ ping_tick sent ∷ next 20000 pong ∷ idle 45000 ∷ []

abbrev begun : Ingest
begun = start_ingest 0 5 no_metrics

abbrev still_up : Ingest
still_up = (relay_frames account_docs busy begun).0

busy_runs : relay_frames account_docs busy begun ≡ (still_up, none)
unfolding relay_frames on_turn on_message parse decode boundary runs
busy_runs = refl

relay_frames-Adds_example :
    Adds account_docs
      (valid_frames account_docs busy)
      (rejected account_docs busy)
      (last_message account_docs 0 busy)
      begun
      still_up
relay_frames-Adds_example = relay_frames-Adds account_docs busy begun still_up busy_runs

abbrev silent : List Turn
silent = next 1000 pong ∷ idle 46000 ∷ []

abbrev dead : Ingest
dead = (relay_frames account_docs silent begun).0

silent_runs : relay_frames account_docs silent begun ≡ (dead, some went_idle)
unfolding relay_frames on_turn on_message
silent_runs = refl

relay_frames-WasQuiet_example : WasQuiet account_docs 0 silent
relay_frames-WasQuiet_example = relay_frames-WasQuiet account_docs silent begun dead silent_runs
