-- ===== src/Pump.antt =====
-- rust/crates/atmoq/src/main.rs, `pump`: the frames of the upstream go through the test on their
-- sequence numbers to the tracks of the accounts and to the publisher, which is the parameter `w`.
-- Each event is what one turn of the `select!` takes; the end of the list is the end of the upstream.
-- The counters of the pump and those of the publisher are different fields of the one `Metrics`.
pub mod Effects
pub mod Cursor
mod Examples
use atmoq.Common.{
  ℕ, ◌+◌, ◌%◌, ◌^◌, Bool, true, false, Option, none, some, List, [], ◌∷◌, Result, ok, err, panic,
  if◌then◌else◌, Bytes,
}
use atmoq.Common.Int.{ℤ, negsuc, eq_ℤ}
use atmoq.Dedupe.{admit}
use atmoq.Moq.{Moq}
use atmoq.Metrics.{Metrics, add_u64, record_frame}
use atmoq.StateFile.{StateFile, WriteOutcome, persist_cursor}
use atmoq.Frame.{Cbor, Frame}
use atmoq.Publisher.{Env, Published, PublishError, Retention, Lite, write, gc_publisher, finish}
use atmoq.Router.{DidTrack, route}

-- The publisher's calls.
pub record FramePublisher : Type 1 where
  pub State : Type 0
  pub write_bytes : Env → Bytes → ℕ → State → State × Published (Unit {0})
  pub collect : Env → Retention → State → State
  pub close : Env → State → State × Published (Unit {0})

abbrev pub lite : Moq → FramePublisher
lite m = record {
  State = Lite m;
  write_bytes = write m;
  collect = gc_publisher m;
  close = λ env p. let (store, result) = finish m env p in (record p { store = store }, result);
}

pub data Event : Type 0 where
  received : Env → Frame → Event
  cursor_tick : WriteOutcome → Event
  gc_tick : Env → Event
  shutdown : Event

pub record PumpConfig : Type 0 where
  pub group_size : ℕ
  pub retention : Retention

module _ (m : Moq) (c : Cbor) (w : FramePublisher) where
  pub record Pump : Type 0 where
    pub publisher : w.State
    pub cursor_file : Option StateFile
    pub last_seq : ℤ
    pub did_router : Option (List (Bytes × DidTrack m))
    pub metrics : Metrics
    pub total : ℕ
    pub dropped_below_cursor : ℕ

  abbrev pub route_frame :
      ℕ → Bytes → Option (List (Bytes × DidTrack m)) → Option (List (Bytes × DidTrack m))
  route_frame group_size raw none = none
  route_frame group_size raw (some active) = some (route m c group_size raw active)

  -- Behind `publisher.write(..).await?`.
  unfoldable pub relayed :
      ℕ → Frame → Pump → w.State × Published (Unit {0}) → Pump × Published (Unit {0})
  unfolding record_frame
  relayed now f p (s, ok u) = (
    record p {
      publisher = s;
      metrics = record_frame f.seq now p.metrics;
      total = (p.total + 1) % 2 ^ 64;
    },
    ok tt,
  )
  relayed now f p (s, err e) = (record p { publisher = s }, err e)
  relayed now f p (s, panic) = (record p { publisher = s }, panic)

  abbrev pub relay : PumpConfig → Env → Frame → Pump → Pump × Published (Unit {0})
  relay cfg env f p =
      relayed env.now_ms f (record p { did_router = route_frame cfg.group_size f.raw p.did_router })
        (w.write_bytes env f.raw cfg.group_size p.publisher)

  abbrev pub count_error : Metrics → Metrics
  count_error x = record x { upstream_error_frames_total = add_u64 x.upstream_error_frames_total 1 }

  abbrev pub drop_frame : Pump → Pump
  drop_frame p = record p {
    dropped_below_cursor = (p.dropped_below_cursor + 1) % 2 ^ 64;
    metrics = record p.metrics {
      frames_dropped_below_cursor_total = add_u64 p.metrics.frames_dropped_below_cursor_total 1;
    };
  }

  abbrev pub reset_if : Option ℤ → ℕ → ℕ
  reset_if none dropped = dropped
  reset_if (some seq) dropped = 0

  -- Behind the test on the sequence number.
  abbrev pub passed : PumpConfig → Env → Frame → Pump → Option ℤ → Pump × Published (Unit {0})
  passed cfg env f p none = (drop_frame p, ok tt)
  passed cfg env f p (some mark) =
      relay cfg env f
        (record p { last_seq = mark; dropped_below_cursor = reset_if f.seq p.dropped_below_cursor })

  unfoldable pub on_frame : PumpConfig → Env → Frame → Pump → Pump × Published (Unit {0})
  unfolding admit
  on_frame cfg env f p =
      if eq_ℤ f.op (negsuc 0)
      then (record p { metrics = count_error p.metrics }, ok tt)
      else passed cfg env f p (admit f.seq p.last_seq)

  -- The loop, up to the `break` or the first failure.
  unfoldable pub pump_loop : PumpConfig → List Event → Pump → Pump × Published (Unit {0})
  unfolding on_frame persist_cursor
  pump_loop cfg [] p = (p, ok tt)
  pump_loop cfg (shutdown ∷ es) p = (p, ok tt)
  pump_loop cfg (cursor_tick outcome ∷ es) p =
      pump_loop cfg es (record p { cursor_file = persist_cursor p.cursor_file p.last_seq outcome })
  pump_loop cfg (gc_tick env ∷ es) p =
      pump_loop cfg es (record p { publisher = w.collect env cfg.retention p.publisher })
  pump_loop cfg (received env f ∷ es) p =
      let (p', result) = on_frame cfg env f p in
      elim result [ ok u ↦ pump_loop cfg es p' | err e ↦ (p', err e) | panic ↦ (p', panic) ]

  -- Behind `publisher.finish()?`.
  abbrev pub closed :
      WriteOutcome → Pump → w.State × Published (Unit {0}) → Pump × Published (Unit {0})
  closed outcome p (s, ok u) = (
    record p { publisher = s; cursor_file = persist_cursor p.cursor_file p.last_seq outcome },
    ok tt,
  )
  closed outcome p (s, err e) = (record p { publisher = s }, err e)
  closed outcome p (s, panic) = (record p { publisher = s }, panic)

  abbrev pub ended : Env → Pump × Published (Unit {0}) → Pump × Published (Unit {0})
  ended env (p, ok u) = closed env.file_outcome p (w.close env p.publisher)
  ended env (p, err e) = (p, err e)
  ended env (p, panic) = (p, panic)

  unfoldable pub pump : PumpConfig → Env → List Event → Pump → Pump × Published (Unit {0})
  unfolding pump_loop
  pump cfg env es p = ended env (pump_loop cfg es p)
