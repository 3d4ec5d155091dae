-- ===== src/Ingest/Idle.antt =====
-- When a connection is given up as dead.
use atmoq.Common.{
  ℕ, ◌+◌, ◌≤◌, ◌≡◌, refl, ap, subst, Bool, true, false, Option, none, some, List, [], ◌∷◌, ◌++◌,
  if◌then◌else◌, ltb, ltb→le, Result, ok, err, panic, arith, zero, suc,
}
use atmoq.Frame.{Cbor, Frame, FrameError, parse}
use atmoq.Ingest.{
  idle_timeout, binary, ping, pong, close, other, sent, timed_out, failed, Turn, next, read_error,
  stream_end, idle, ping_tick, Relayed, went_idle, receiver_gone, Ingest, taken, on_parsed, stamped,
  on_message, on_turn, relay_frames,
}
use atmoq.Ingest.Laws.{last_message, last_message_cons, valid_frames, rejected, AddsIfUp, turn-Adds}

module _ (c : Cbor) where
  -- Where the idle timer ended the turns, no message had come for the whole timeout before it.
  pub record WasQuiet (start : ℕ) (ts : List Turn) : Type 0 where
    pub before : List Turn
    pub now : ℕ
    pub after : List Turn
    pub split : ts ≡ before ++ (idle now ∷ after)
    pub quiet : last_message c start before + idle_timeout ≤ now

  abbrev QuietIfIdle : ℕ → List Turn → Option Relayed → Type 0
  QuietIfIdle start ts (some went_idle) = WasQuiet start ts
  QuietIfIdle start ts o = Unit

  abbrev QuietTurn : Turn → Ingest → Option Relayed → Type 0
  QuietTurn t s (some went_idle) = (now : ℕ) × (t ≡ idle now) × (s.last_rx + idle_timeout ≤ now)
  QuietTurn t s o = Unit

  turn-Quiet : (t : Turn) (s : Ingest) → QuietTurn t s (on_turn c t s).1
  unfolding on_turn on_message
  turn-Quiet (next now (binary raw)) s = go (parse c raw)
    where
      send :
          (f : Frame) (n : ℕ)
          → QuietTurn
              (next now (binary raw))
              s
              (stamped now (
                let (s', there) = taken f s n in
                elim there as (λ _. Ingest × Option Relayed) [
                  | true ↦ (s', none)
                  | false ↦ (s', some receiver_gone)
                ])).1
      send f zero = tt
      send f (suc n) = tt

      go :
          (o : Result FrameError Frame)
          → QuietTurn (next now (binary raw)) s (stamped now (on_parsed o s)).1
      go (ok f) = send f s.takes
      go (err e) = tt
      go panic = tt
  turn-Quiet (next now ping) s = tt
  turn-Quiet (next now pong) s = tt
  turn-Quiet (next now close) s = tt
  turn-Quiet (next now other) s = tt
  turn-Quiet read_error s = tt
  turn-Quiet stream_end s = tt
  turn-Quiet (idle now) s = go (ltb now (s.last_rx + idle_timeout)) refl
    where
      go :
          (b : Bool)
          → ltb now (s.last_rx + idle_timeout) ≡ b
          → QuietTurn
              (idle now)
              s
              (if◌then◌else◌ {A = Ingest × Option Relayed} b
                (record s { idle_at = s.last_rx + idle_timeout }, none)
                (s, some went_idle)).1
      go true h = tt
      go false h = (now, refl, ltb→le now (s.last_rx + idle_timeout) h)
  turn-Quiet (ping_tick sent) s = tt
  turn-Quiet (ping_tick timed_out) s = tt
  turn-Quiet (ping_tick failed) s = tt

  ended_now :
      (t : Turn) (ts : List Turn) (s : Ingest) (o : Option Relayed)
      → QuietTurn t s o
      → QuietIfIdle s.last_rx (t ∷ ts) o
  ended_now t ts s none h = tt
  ended_now t ts s (some went_idle) (now, same, quiet) = record {
    before = [];
    now = now;
    after = ts;
    split = ap (λ x. x ∷ ts) same;
    quiet = quiet;
  }
  ended_now t ts s (some Relayed.upstream_ended) h = tt
  ended_now t ts s (some receiver_gone) h = tt
  ended_now t ts s (some Relayed.ping_timed_out) h = tt
  ended_now t ts s (some Relayed.ping_failed) h = tt
  ended_now t ts s (some Relayed.read_failed) h = tt
  ended_now t ts s (some Relayed.panicked) h = tt

  later :
      (start : ℕ) (t : Turn) (ts : List Turn) (o : Option Relayed)
      → QuietIfIdle (last_message c start (t ∷ [])) ts o
      → QuietIfIdle start (t ∷ ts) o
  later start t ts none h = tt
  later start t ts (some went_idle) w = record {
    before = t ∷ w.before;
    now = w.now;
    after = w.after;
    split = ap (λ x. t ∷ x) w.split;
    quiet = omega (arith, w.quiet, last_message_cons c start t w.before);
  }
  later start t ts (some Relayed.upstream_ended) h = tt
  later start t ts (some receiver_gone) h = tt
  later start t ts (some Relayed.ping_timed_out) h = tt
  later start t ts (some Relayed.ping_failed) h = tt
  later start t ts (some Relayed.read_failed) h = tt
  later start t ts (some Relayed.panicked) h = tt

  then_Quiet :
      (t : Turn) (ts : List Turn) (s : Ingest) (o : Ingest × Option Relayed)
      → AddsIfUp c
          (valid_frames c (t ∷ []))
          (rejected c (t ∷ []))
          (last_message c s.last_rx (t ∷ []))
          s
          o
      → QuietTurn t s o.1
      → ((q : Ingest) → QuietIfIdle q.last_rx ts (relay_frames c ts q).1)
      → QuietIfIdle s.last_rx
          (t ∷ ts)
          (let (s', end) = o in
            elim end as (λ _. Ingest × Option Relayed) [
              | none ↦ relay_frames c ts s'
              | some e ↦ (s', some e)
            ]).1
  then_Quiet t ts s (s', some e) one quiet below = ended_now t ts s (some e) quiet
  then_Quiet t ts s (q, none) one quiet below =
      later s.last_rx t ts (relay_frames c ts q).1
        (subst (λ n. QuietIfIdle n ts (relay_frames c ts q).1) one.2 (below q))

  relay-Quiet : (ts : List Turn) (s : Ingest) → QuietIfIdle s.last_rx ts (relay_frames c ts s).1
  unfolding relay_frames
  relay-Quiet [] s = tt
  relay-Quiet (t ∷ ts) s =
      then_Quiet t ts s (on_turn c t s) (turn-Adds c t s) (turn-Quiet t s) (relay-Quiet ts)

  -- A connection that is given up as dead had been silent for the whole timeout when its idle timer
  -- fired: since the last message of any kind, or since the start.
  pub relay_frames-WasQuiet :
      (ts : List Turn) (s s' : Ingest)
      → relay_frames c ts s ≡ (s', some went_idle)
      → WasQuiet s.last_rx ts
  relay_frames-WasQuiet ts s s' h =
      subst (λ (o : Ingest × Option Relayed). QuietIfIdle s.last_rx ts o.1) h (relay-Quiet ts s)
