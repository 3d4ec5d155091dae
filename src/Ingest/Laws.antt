-- ===== src/Ingest/Laws.antt =====
-- What a connection hands on, when it is given up, and how fast it is made again.
use atmoq.Common.{
  ℕ, zero, suc, ◌+◌, ◌*◌, ◌%◌, ◌^◌, min, ◌≤◌, ◌≡◌, refl, sym, ap, subst, ◌∙◌, Bool, true, false,
  Option, none, some, List, [], ◌∷◌, ◌++◌, append_assoc, append-nil, Result, ok, err, panic,
  if◌then◌else◌, ltb, All, arith,
}
use mathlib.Core.Option.{none-ne-some, some-injective}
use atmoq.Common.Int.{ℤ}
use atmoq.Metrics.{Metrics}
use atmoq.Frame.{Cbor, Frame, FrameError, parse}
use atmoq.Ingest.{
  idle_timeout, binary, ping, pong, close, other, sent, timed_out, failed, Turn, next, read_error,
  stream_end, idle, ping_tick, Relayed, went_idle, receiver_gone, Ingest, taken, on_parsed, stamped,
  on_message, on_turn, relay_frames, cursor_of, Attempt, Connect, pause_of, reconnected,
  spawn_ingest,
}

-- A pause between one second and a minute.
abbrev pub IsShort : Connect → Type 0
IsShort k = (n : ℕ) → k.pause ≡ some n → (1 ≤ n) × (n ≤ 60)

reconnected-IsShort :
    (b : Bool) (cursor : Option ℤ) (pause : ℕ) (x : Metrics) (rest : List Connect × Metrics)
    → 1 ≤ pause
    → pause ≤ 60
    → All IsShort rest.0
    → All IsShort (reconnected b cursor pause x rest).0
reconnected-IsShort true cursor pause x rest low high more = (λ n e. absurd (none-ne-some n e), tt)
reconnected-IsShort false cursor pause x rest low high more = (
  λ n e.
      (omega (arith, low, some-injective pause n e), omega (arith, high, some-injective pause n e)),
  more,
)

pause_of-bounds :
    (elapsed_ms backoff : ℕ)
    → 1 ≤ backoff
    → backoff ≤ 60
    → (1 ≤ pause_of elapsed_ms backoff) × (pause_of elapsed_ms backoff ≤ 60)
pause_of-bounds elapsed_ms backoff low high = ground (arith, low, high)

-- However the connections end, the pauses stay between one second and a minute, if the first one
-- does.
pub spawn_ingest-pauses :
    (backoff : ℕ) (attempts : List Attempt) (x : Metrics)
    → 1 ≤ backoff
    → backoff ≤ 60
    → All IsShort (spawn_ingest backoff attempts x).0
unfolding spawn_ingest
spawn_ingest-pauses backoff [] x low high = tt
spawn_ingest-pauses backoff (a ∷ rest) x low high =
    let (above, below) = pause_of-bounds a.elapsed_ms backoff low high in
    reconnected-IsShort a.is_closed (cursor_of a.last_seq) _ _
      (spawn_ingest (min (pause_of a.elapsed_ms backoff * 2) 60) rest _) above below
      (spawn_ingest-pauses (min (pause_of a.elapsed_ms backoff * 2) 60) rest _
        (omega (arith, above)) (omega arith))

-- The frames of the messages that are valid, and the number of those that are not.
abbrev pub valid_frame : Result FrameError Frame → List Frame
valid_frame (ok f) = f ∷ []
valid_frame (err e) = []
valid_frame panic = []

abbrev pub invalid_count : Result FrameError Frame → ℕ
invalid_count (ok f) = 0
invalid_count (err e) = 1
invalid_count panic = 0

module _ (c : Cbor) where
  abbrev pub valid_frames : List Turn → List Frame
  valid_frames [] = []
  valid_frames (next now (binary raw) ∷ ts) = valid_frame (parse c raw) ++ valid_frames ts
  valid_frames (t ∷ ts) = valid_frames ts

  abbrev pub rejected : List Turn → ℕ
  rejected [] = 0
  rejected (next now (binary raw) ∷ ts) = invalid_count (parse c raw) + rejected ts
  rejected (t ∷ ts) = rejected ts

  -- When the last message came.
  abbrev pub last_message : ℕ → List Turn → ℕ
  last_message start [] = start
  last_message start (next now message ∷ ts) = last_message now ts
  last_message start (t ∷ ts) = last_message start ts

  -- What is added: frames, refusals, and the time of the last message.
  abbrev pub Adds : List Frame → ℕ → ℕ → Ingest → Ingest → Type 0
  Adds fs n rx s s' =
      (s'.frames ≡ s.frames ++ fs)
      × (s'.metrics.frames_rejected_total % 2 ^ 64 ≡ (s.metrics.frames_rejected_total + n) % 2 ^ 64)
      × (s'.last_rx ≡ rx)

  abbrev pub AddsIfUp : List Frame → ℕ → ℕ → Ingest → Ingest × Option Relayed → Type 0
  AddsIfUp fs n rx s (s', none) = Adds fs n rx s s'
  AddsIfUp fs n rx s (s', some end) = Unit

  nothing : (s : Ingest) (rx : ℕ) → s.last_rx ≡ rx → Adds [] 0 rx s s
  nothing s rx e = (sym (append-nil s.frames), omega arith, e)

  parsed-Adds :
      (now : ℕ) (o : Result FrameError Frame) (s : Ingest)
      → AddsIfUp (valid_frame o) (invalid_count o) now s (stamped now (on_parsed o s))
  parsed-Adds now (ok f) s = go s.takes
    where
      go :
          (n : ℕ)
          → AddsIfUp (f ∷ []) 0 now s (
              stamped now (
                let (s', there) = taken f s n in
                elim there as (λ _. Ingest × Option Relayed) [
                  | true ↦ (s', none)
                  | false ↦ (s', some receiver_gone)
                ]))
      go zero = tt
      go (suc n) = (refl, omega arith, refl)
  parsed-Adds now (err e) s = (sym (append-nil s.frames), omega arith, refl)
  parsed-Adds now panic s = tt

  pub turn-Adds :
      (t : Turn) (s : Ingest)
      → AddsIfUp
          (valid_frames (t ∷ []))
          (rejected (t ∷ []))
          (last_message s.last_rx (t ∷ []))
          s
          (on_turn c t s)
  unfolding on_turn on_message
  turn-Adds (next now (binary raw)) s =
      widen (parse c raw) (stamped now (on_parsed (parse c raw) s))
        (parsed-Adds now (parse c raw) s)
    where
      widen :
          (o : Result FrameError Frame) (r : Ingest × Option Relayed)
          → AddsIfUp (valid_frame o) (invalid_count o) now s r
          → AddsIfUp (valid_frame o ++ []) (invalid_count o + 0) now s r
      widen o (s', none) (frames, counted, rx) = (
        frames ∙ ap (λ t. s.frames ++ t) (sym (append-nil (valid_frame o))),
        omega (arith, counted),
        rx,
      )
      widen o (s', some end) x = tt
  turn-Adds (next now ping) s = nothing (record s { last_rx = now }) now refl
  turn-Adds (next now pong) s = nothing (record s { last_rx = now }) now refl
  turn-Adds (next now close) s = tt
  turn-Adds (next now other) s = nothing (record s { last_rx = now }) now refl
  turn-Adds read_error s = tt
  turn-Adds stream_end s = tt
  turn-Adds (idle now) s = go (ltb now (s.last_rx + idle_timeout))
    where
      go :
          (b : Bool)
          → AddsIfUp [] 0 s.last_rx s (
              if b
              then (record s { idle_at = s.last_rx + idle_timeout }, none)
              else (s, some went_idle))
      go true = nothing s s.last_rx refl
      go false = tt
  turn-Adds (ping_tick sent) s = nothing s s.last_rx refl
  turn-Adds (ping_tick timed_out) s = tt
  turn-Adds (ping_tick failed) s = tt

  -- One turn, then the rest.
  valid_frames_cons :
      (t : Turn) (ts : List Turn) → valid_frames (t ∷ ts) ≡ valid_frames (t ∷ []) ++ valid_frames ts
  valid_frames_cons (next now (binary raw)) ts =
      ap (λ x. x ++ valid_frames ts) (sym (append-nil (valid_frame (parse c raw))))
  valid_frames_cons (next now ping) ts = refl
  valid_frames_cons (next now pong) ts = refl
  valid_frames_cons (next now close) ts = refl
  valid_frames_cons (next now other) ts = refl
  valid_frames_cons read_error ts = refl
  valid_frames_cons stream_end ts = refl
  valid_frames_cons (idle now) ts = refl
  valid_frames_cons (ping_tick o) ts = refl

  rejected_cons : (t : Turn) (ts : List Turn) → rejected (t ∷ ts) ≡ rejected (t ∷ []) + rejected ts
  rejected_cons (next now (binary raw)) ts = omega arith
  rejected_cons (next now ping) ts = omega arith
  rejected_cons (next now pong) ts = omega arith
  rejected_cons (next now close) ts = omega arith
  rejected_cons (next now other) ts = omega arith
  rejected_cons read_error ts = omega arith
  rejected_cons stream_end ts = omega arith
  rejected_cons (idle now) ts = omega arith
  rejected_cons (ping_tick o) ts = omega arith

  pub last_message_cons :
      (start : ℕ) (t : Turn) (ts : List Turn)
      → last_message start (t ∷ ts) ≡ last_message (last_message start (t ∷ [])) ts
  last_message_cons start (next now message) ts = refl
  last_message_cons start read_error ts = refl
  last_message_cons start stream_end ts = refl
  last_message_cons start (idle now) ts = refl
  last_message_cons start (ping_tick o) ts = refl

  then_Adds :
      (t : Turn) (ts : List Turn) (s : Ingest) (o : Ingest × Option Relayed)
      → AddsIfUp (valid_frames (t ∷ [])) (rejected (t ∷ [])) (last_message s.last_rx (t ∷ [])) s o
      → ((q : Ingest)
          → AddsIfUp
              (valid_frames ts)
              (rejected ts)
              (last_message q.last_rx ts)
              q
              (relay_frames c ts q))
      → AddsIfUp (valid_frames (t ∷ ts)) (rejected (t ∷ ts)) (last_message s.last_rx (t ∷ ts)) s (
          let (s', end) = o in
          elim end as (λ _. Ingest × Option Relayed) [
            | none ↦ relay_frames c ts s'
            | some e ↦ (s', some e)
          ])
  then_Adds t ts s (s', some e) one below = tt
  then_Adds t ts s (q, none) (frames, counted, rx) below = go (relay_frames c ts q) (below q)
    where
      go :
          (o : Ingest × Option Relayed)
          → AddsIfUp (valid_frames ts) (rejected ts) (last_message q.last_rx ts) q o
          → AddsIfUp
              (valid_frames (t ∷ ts))
              (rejected (t ∷ ts))
              (last_message s.last_rx (t ∷ ts))
              s
              o
      go (s', some e) x = tt
      go (s', none) (frames', counted', rx') = (
        frames'
            ∙ ap (λ x. x ++ valid_frames ts) frames
            ∙ append_assoc s.frames (valid_frames (t ∷ [])) (valid_frames ts)
            ∙ ap (λ x. s.frames ++ x) (sym (valid_frames_cons t ts)),
        omega (arith, counted, counted', rejected_cons t ts),
        rx' ∙ ap (λ x. last_message x ts) rx ∙ sym (last_message_cons s.last_rx t ts),
      )

  relay-Adds :
      (ts : List Turn) (s : Ingest)
      → AddsIfUp (valid_frames ts) (rejected ts) (last_message s.last_rx ts) s (relay_frames c ts s)
  unfolding relay_frames
  relay-Adds [] s = nothing s s.last_rx refl
  relay-Adds (t ∷ ts) s = then_Adds t ts s (on_turn c t s) (turn-Adds t s) (relay-Adds ts)

  -- While the connection is up, every valid frame has gone to the receiver, once and in order, every
  -- invalid one is counted, and the idle clock runs from the last message of any kind.
  pub relay_frames-Adds :
      (ts : List Turn) (s s' : Ingest)
      → relay_frames c ts s ≡ (s', none)
      → Adds (valid_frames ts) (rejected ts) (last_message s.last_rx ts) s s'
  relay_frames-Adds ts s s' h =
      subst (AddsIfUp (valid_frames ts) (rejected ts) (last_message s.last_rx ts) s) h
        (relay-Adds ts s)
