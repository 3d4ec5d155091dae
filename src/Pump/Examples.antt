-- ===== src/Pump/Examples.antt =====
-- A run of the pump with a publisher that keeps what it is given.
use atmoq.Common.{ℕ, ◌≡◌, refl, none, some, List, [], ◌∷◌, ◌++◌, ok, Bytes, arith}
use atmoq.Common.Int.{pos, negsuc}
use atmoq.Dedupe.{admit, fresh, mark_of}
use atmoq.Moq.Examples.{toy}
use atmoq.Metrics.{no_metrics}
use atmoq.StateFile.{wrote, load_initial_cursor}
use atmoq.Store.{done}
use atmoq.Frame.Docs.{account_docs}
use atmoq.Publisher.{Env}
use atmoq.Pump.{
  FramePublisher, Event, received, cursor_tick, gc_tick, shutdown, PumpConfig, Pump, relayed,
  on_frame, pump_loop, pump,
}
use atmoq.Pump.Effects.{calls, seq_of, play, pump_loop-play}
use atmoq.Pump.Cursor.{pump-resumes}

-- The bytes in order.
abbrev tape : FramePublisher
tape = record {
  State = List Bytes;
  write_bytes = λ env raw group_size s. (s ++ (raw ∷ []), ok tt);
  collect = λ env retention s. s;
  close = λ env s. (s, ok tt);
}

abbrev calm : Env
calm = record { now_ms = 1000; store_outcome = done; file_outcome = wrote }

abbrev frame_at : ℕ → Event
frame_at n = received calm (record { op = pos 1; t = none; seq = some (pos n); raw = n ∷ [] })

abbrev error_frame : Event
error_frame = received calm (record { op = negsuc 0; t = none; seq = none; raw = 255 ∷ [] })

-- A duplicate, an error frame, ticks and a frame behind the shutdown.
abbrev events : List Event
events =
    frame_at 3
    ∷ cursor_tick wrote
    ∷ frame_at 3
    ∷ error_frame
    ∷ gc_tick calm
    ∷ frame_at 7
    ∷ shutdown
    ∷ frame_at 9
    ∷ []

abbrev cfg : PumpConfig
cfg = record { group_size = 2; retention = record { window_secs = 0; max_bytes = 0 } }

abbrev idle_pump : Pump toy account_docs tape
idle_pump = record {
  publisher = [];
  cursor_file = some none;
  last_seq = pos 2;
  did_router = none;
  metrics = no_metrics;
  total = 0;
  dropped_below_cursor = 0;
}

published :
    (pump_loop toy account_docs tape cfg events idle_pump).0.publisher ≡ (3 ∷ []) ∷ (7 ∷ []) ∷ []
unfolding pump_loop on_frame admit relayed
published = refl

pump_loop-play_example :
    let (p, result) = pump_loop toy account_docs tape cfg events idle_pump in
    (p.publisher, result) ≡ play tape cfg (fresh seq_of (pos 2) (calls events)) []
pump_loop-play_example = pump_loop-play toy account_docs tape cfg events idle_pump

abbrev after : Pump toy account_docs tape
after = (pump toy account_docs tape cfg calm events idle_pump).0

run_ends : pump toy account_docs tape cfg calm events idle_pump ≡ (after, ok tt)
unfolding pump pump_loop on_frame admit relayed
run_ends = refl

mark_seven : mark_of seq_of (pos 2) (calls events) ≡ pos 7
unfolding mark_of admit
mark_seven = refl

pump-resumes_example :
    (load_initial_cursor after.cursor_file none ≡ pos 7)
    × (fresh seq_of (pos 2) (calls events ++ calls (frame_at 7 ∷ frame_at 8 ∷ []))
        ≡ fresh seq_of (pos 2) (calls events)
          ++ fresh seq_of
              (load_initial_cursor after.cursor_file none)
              (calls (frame_at 7 ∷ frame_at 8 ∷ [])))
pump-resumes_example =
    pump-resumes toy account_docs tape cfg calm events idle_pump after none 7 none
      (frame_at 7 ∷ frame_at 8 ∷ []) refl refl mark_seven (omega arith) run_ends
