-- ===== src/Pump/Effects.antt =====
-- What the pump does to its publisher and to its high-water mark, against a plan made from the events
-- alone.
use atmoq.Common.{
  ℕ, ◌≡◌, refl, sym, ap, ◌∙◌, Bool, true, false, Option, none, some, List, [], ◌∷◌, ok, err, panic,
  if◌then◌else◌,
}
use atmoq.Common.Int.{ℤ, negsuc, eq_ℤ}
use atmoq.Dedupe.{admit, fresh}
use atmoq.Moq.{Moq}
use atmoq.Frame.{Cbor, Frame}
use atmoq.Publisher.{Env, Published}
use atmoq.Pump.{
  FramePublisher, Event, received, cursor_tick, gc_tick, shutdown, PumpConfig, Pump, count_error,
  passed, relayed, on_frame, pump_loop,
}

-- A call of the publisher.
pub data Call : Type 0 where
  publish : Env → Frame → Call
  collect : Env → Call

-- The calls that the events ask for, before the test on the sequence numbers.
abbrev pub calls : List Event → List Call
calls [] = []
calls (shutdown ∷ es) = []
calls (received env f ∷ es) = if eq_ℤ f.op (negsuc 0) then calls es else publish env f ∷ calls es
calls (cursor_tick outcome ∷ es) = calls es
calls (gc_tick env ∷ es) = collect env ∷ calls es

abbrev pub seq_of : Call → Option ℤ
seq_of (publish env f) = f.seq
seq_of (collect env) = none

module _ (w : FramePublisher) where
  -- The calls one after another, up to the first failure.
  unfoldable pub play : PumpConfig → List Call → w.State → w.State × Published (Unit {0})
  play cfg [] s = (s, ok tt)
  play cfg (collect env ∷ rest) s = play cfg rest (w.collect env cfg.retention s)
  play cfg (publish env f ∷ rest) s =
      let (s', result) = w.write_bytes env f.raw cfg.group_size s in
      elim result [ ok u ↦ play cfg rest s' | err e ↦ (s', err e) | panic ↦ (s', panic) ]

module _ (m : Moq) (c : Cbor) (w : FramePublisher) where
  abbrev of_publisher : Pump m c w × Published (Unit {0}) → w.State × Published (Unit {0})
  of_publisher (p, result) = (p.publisher, result)

  -- The rest of the loop behind one frame.
  unfoldable pub then_loop :
      PumpConfig
      → List Event
      → Pump m c w × Published (Unit {0})
      → Pump m c w × Published (Unit {0})
  unfolding pump_loop
  then_loop cfg es (p, ok u) = pump_loop m c w cfg es p
  then_loop cfg es (p, err e) = (p, err e)
  then_loop cfg es (p, panic) = (p, panic)

  abbrev then_play :
      PumpConfig → List Call → w.State × Published (Unit {0}) → w.State × Published (Unit {0})
  unfolding play
  then_play cfg rest (s, ok u) = play w cfg rest s
  then_play cfg rest (s, err e) = (s, err e)
  then_play cfg rest (s, panic) = (s, panic)

  -- What is to be shown of the events `es`.
  abbrev Plays : PumpConfig → List Event → Type 0
  Plays cfg es =
      (p : Pump m c w)
      → of_publisher (pump_loop m c w cfg es p)
        ≡ play w cfg (fresh seq_of p.last_seq (calls es)) p.publisher

  relayed-play :
      (cfg : PumpConfig) (es : List Event)
      → Plays cfg es
      → (now : ℕ) (f : Frame) (p : Pump m c w) (r : w.State × Published (Unit {0}))
      → of_publisher (then_loop cfg es (relayed m c w now f p r))
        ≡ then_play cfg (fresh seq_of p.last_seq (calls es)) r
  unfolding then_loop pump_loop then_play play relayed
  relayed-play cfg es below now f p (s, ok u) = below _
  relayed-play cfg es below now f p (s, err e) = refl
  relayed-play cfg es below now f p (s, panic) = refl

  pub loop_step :
      (cfg : PumpConfig) (env : Env) (f : Frame) (es : List Event) (p : Pump m c w)
      → pump_loop m c w cfg (received env f ∷ es) p ≡ then_loop cfg es (on_frame m c w cfg env f p)
  unfolding pump_loop then_loop
  loop_step cfg env f es p =
      let (p', result) = on_frame m c w cfg env f p in
      elim result [ ok u ↦ refl | err e ↦ refl | panic ↦ refl ]

  play_step :
      (cfg : PumpConfig) (env : Env) (f : Frame) (rest : List Call) (s : w.State)
      → play w cfg (publish env f ∷ rest) s
        ≡ then_play cfg rest (w.write_bytes env f.raw cfg.group_size s)
  unfolding play then_play
  play_step cfg env f rest s =
      let (s', result) = w.write_bytes env f.raw cfg.group_size s in
      elim result [ ok u ↦ refl | err e ↦ refl | panic ↦ refl ]

  passed-play :
      (cfg : PumpConfig) (env : Env) (f : Frame) (es : List Event)
      → Plays cfg es
      → (p : Pump m c w) (o : Option ℤ)
      → of_publisher (then_loop cfg es (passed m c w cfg env f p o))
        ≡ play w cfg
            (elim o [
              | none ↦ fresh seq_of p.last_seq (calls es)
              | some mark ↦ publish env f ∷ fresh seq_of mark (calls es)
            ])
            p.publisher
  unfolding then_loop pump_loop fresh
  passed-play cfg env f es below p none = below _
  passed-play cfg env f es below p (some mark) =
      relayed-play cfg es below _ f _ _ ∙ sym (play_step cfg env f _ p.publisher)

  frame-play :
      (cfg : PumpConfig) (env : Env) (f : Frame) (es : List Event)
      → Plays cfg es
      → Plays cfg (received env f ∷ es)
  unfolding fresh on_frame then_loop pump_loop
  frame-play cfg env f es below p =
      ap of_publisher (loop_step cfg env f es p) ∙ go (eq_ℤ f.op (negsuc 0))
    where
      go :
          (is_error : Bool)
          → of_publisher (
              then_loop cfg es (
                if is_error
                then (record p { metrics = count_error m c w p.metrics }, ok tt)
                else passed m c w cfg env f p (admit f.seq p.last_seq)))
            ≡ play w cfg
                (fresh seq_of p.last_seq (if is_error then calls es else publish env f ∷ calls es))
                p.publisher
      go true = below _
      go false = passed-play cfg env f es below p (admit f.seq p.last_seq)

  -- For every sequence of events, the publisher ends where the calls that the test lets pass take it,
  -- with the same success or failure: error frames, frames at or below the high-water mark and all
  -- behind a failure or the shutdown are never published, every other frame is, in order.
  pub pump_loop-play :
      (cfg : PumpConfig) (es : List Event) (p : Pump m c w)
      → of_publisher (pump_loop m c w cfg es p)
        ≡ play w cfg (fresh seq_of p.last_seq (calls es)) p.publisher
  unfolding pump_loop play fresh
  pump_loop-play cfg [] p = refl
  pump_loop-play cfg (shutdown ∷ es) p = refl
  pump_loop-play cfg (cursor_tick outcome ∷ es) p = pump_loop-play cfg es _
  pump_loop-play cfg (gc_tick env ∷ es) p = pump_loop-play cfg es _
  pump_loop-play cfg (received env f ∷ es) p = frame-play cfg env f es (pump_loop-play cfg es) p
