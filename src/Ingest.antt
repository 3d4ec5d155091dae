-- ===== src/Ingest.antt =====
-- rust/crates/atmoq/src/ingest.rs, `relay_frames`, and the reconnects of `spawn_ingest` in
-- rust/crates/atmoq/src/main.rs. Each turn is what one `select!` takes, with the clock in milliseconds
-- where the code reads it. The receiver takes some number of frames and is then gone.
pub mod Laws
pub mod Idle
mod Examples
use atmoq.Common.{
  ℕ, zero, suc, ◌+◌, ◌-◌, ◌*◌, ◌%◌, ◌^◌, min, Bool, true, false, Option, none, some, List, [], ◌∷◌,
  ◌++◌, Result, ok, err, panic, if◌then◌else◌, ltb, Bytes,
}
use atmoq.Common.Int.{ℤ, negsuc, eq_ℤ}
use atmoq.Metrics.{Metrics, add_u64}
use atmoq.Frame.{Cbor, Frame, FrameError, parse}

-- `PING_INTERVAL` and `IDLE_TIMEOUT` in milliseconds.
abbrev pub ping_interval : ℕ
ping_interval = 15 * 1000

abbrev pub idle_timeout : ℕ
idle_timeout = 45 * 1000

pub data Message : Type 0 where
  binary : Bytes → Message
  ping pong close other : Message

pub data PingOutcome : Type 0 where
  sent timed_out failed : PingOutcome

-- `next now x`: the stream gave `x`, and `now` is the time at the end of the turn.
pub data Turn : Type 0 where
  next : ℕ → Message → Turn
  read_error stream_end : Turn
  idle : ℕ → Turn
  ping_tick : PingOutcome → Turn

pub data Relayed : Type 0 where
  upstream_ended receiver_gone went_idle ping_timed_out ping_failed read_failed panicked : Relayed

pub record Ingest : Type 0 where
  pub last_rx : ℕ
  -- When the idle timer fires next.
  pub idle_at : ℕ
  -- How many frames the receiver still takes.
  pub takes : ℕ
  pub frames : List Frame
  pub metrics : Metrics

abbrev pub start_ingest : ℕ → ℕ → Metrics → Ingest
start_ingest now takes metrics = record {
  last_rx = now;
  idle_at = now + idle_timeout;
  takes = takes;
  frames = [];
  metrics = metrics;
}

-- `tx.send(frame)`: whether the receiver was still there.
abbrev pub taken : Frame → Ingest → ℕ → Ingest × Bool
taken f s zero = (s, false)
taken f s (suc n) = (record s { takes = n; frames = s.frames ++ (f ∷ []) }, true)

abbrev pub on_parsed : Result FrameError Frame → Ingest → Ingest × Option Relayed
on_parsed (ok f) s =
    let (s', there) = taken f s s.takes in
    elim there [ true ↦ (s', none) | false ↦ (s', some receiver_gone) ]
on_parsed (err e) s = (
  record s {
    metrics = record s.metrics {
      frames_rejected_total = add_u64 s.metrics.frames_rejected_total 1;
    };
  },
  none,
)
on_parsed panic s = (s, some panicked)

-- `last_rx = Instant::now()` at the end of the turn.
abbrev pub stamped : ℕ → Ingest × Option Relayed → Ingest × Option Relayed
stamped now (s, none) = (record s { last_rx = now }, none)
stamped now (s, some end) = (s, some end)

module _ (c : Cbor) where
  unfoldable pub on_message : ℕ → Message → Ingest → Ingest × Option Relayed
  on_message now (binary raw) s = stamped now (on_parsed (parse c raw) s)
  on_message now ping s = stamped now (s, none)
  on_message now pong s = stamped now (s, none)
  on_message now close s = (s, some upstream_ended)
  on_message now other s = stamped now (s, none)

  unfoldable pub on_turn : Turn → Ingest → Ingest × Option Relayed
  unfolding on_message
  on_turn (next now message) s = on_message now message s
  on_turn read_error s = (s, some read_failed)
  on_turn stream_end s = (s, some upstream_ended)
  on_turn (idle now) s =
      if ltb now (s.last_rx + idle_timeout)
      then (record s { idle_at = s.last_rx + idle_timeout }, none)
      else (s, some went_idle)
  on_turn (ping_tick sent) s = (s, none)
  on_turn (ping_tick timed_out) s = (s, some ping_timed_out)
  on_turn (ping_tick failed) s = (s, some ping_failed)

  -- `none` while the connection is up.
  unfoldable pub relay_frames : List Turn → Ingest → Ingest × Option Relayed
  unfolding on_turn
  relay_frames [] s = (s, none)
  relay_frames (t ∷ ts) s =
      let (s', end) = on_turn t s in elim end [ none ↦ relay_frames ts s' | some e ↦ (s', some e) ]

-- The query of a connection.
unfoldable pub cursor_of : ℤ → Option ℤ
cursor_of last_seq = if eq_ℤ last_seq (negsuc 0) then none else some last_seq

-- One connection: the mark when it begins, how long it lasts, whether the receiver is gone behind it.
pub record Attempt : Type 0 where
  pub last_seq : ℤ
  pub elapsed_ms : ℕ
  pub is_closed : Bool

-- What the loop does with it: the cursor that it asks for, and the pause behind it.
pub record Connect : Type 0 where
  pub cursor : Option ℤ
  pub pause : Option ℕ

abbrev pub pause_of : ℕ → ℕ → ℕ
pause_of elapsed_ms backoff = if ltb (60 * 1000) elapsed_ms then 1 else backoff

-- Behind `tx.is_closed()`: `x` are the metrics there, and the last argument is the rest of the loop.
abbrev pub reconnected :
    Bool → Option ℤ → ℕ → Metrics → List Connect × Metrics → List Connect × Metrics
reconnected true cursor pause x rest = (record { cursor = cursor; pause = none } ∷ [], x)
reconnected false cursor pause x (more, y) =
    (record { cursor = cursor; pause = some pause } ∷ more, y)

abbrev pub count_connect : Metrics → Metrics
count_connect x = record x { upstream_connects_total = add_u64 x.upstream_connects_total 1 }

unfoldable pub spawn_ingest : ℕ → List Attempt → Metrics → List Connect × Metrics
unfolding cursor_of
spawn_ingest backoff [] x = ([], x)
spawn_ingest backoff (a ∷ rest) x =
    let pause = pause_of a.elapsed_ms backoff in
    reconnected a.is_closed (cursor_of a.last_seq) pause (count_connect x)
      (spawn_ingest (min (pause * 2) 60) rest (count_connect x))
