-- ===== src/Publisher/Examples.antt =====
-- A publisher with a small library of tracks, and the theorems at its first calls.
use atmoq.Common.{ℕ, ◌-◌, ◌^◌, ◌≤◌, ◌<◌, ◌≡◌, refl, none, some, [], ◌∷◌, ok, Bytes, arith}
use mathlib.Core.Option.{none-ne-some, some-injective}
use atmoq.Moq.Examples.{toy, toy-IsMoq}
use atmoq.Metrics.{no_metrics}
use atmoq.StateFile.{
  wrote, persist_group_seq, load_group_seq, parse_u64, trim, trim_start, trim_end, parse_digits,
  show_u64, digits_of, write_state_file,
}
use atmoq.Store.{GroupStore, done, read, contents, last?}
use atmoq.Store.Append.{IsSynced, IsFresh}
use atmoq.Store.Keeps.{Fits}
use atmoq.Publisher.{
  Env, Lite, write, rotate_group, build_lite_publisher, reload_window, make_first_group, seed_of,
}
use atmoq.Publisher.Stream.{IsStreaming, write-read}
use atmoq.Publisher.Restart.{IsAbove, in_progress, build_lite_publisher-IsAbove}
use atmoq.Publisher.Sequences.{IsSaved, Runs, here, next, Runs-above}

abbrev calm : Env
calm = record { now_ms = 1000; store_outcome = done; file_outcome = wrote }

abbrev empty_store : GroupStore
empty_store = record {
  segments = [];
  index = [];
  writer = none;
  pending = [];
  max_seq = none;
  segment_target = 1024;
  files = [];
}

empty-IsSynced : IsSynced empty_store
unfolding last?
empty-IsSynced = record {
  idle = refl;
  last_file = λ seg e. absurd (none-ne-some seg e);
  last_writer = λ seg p e h. absurd (none-ne-some seg e);
}

abbrev first_frame : Bytes
first_frame = 1 ∷ []

-- The live group is 5 and has one frame.
abbrev live : Lite toy
live = record {
  track = some 5;
  group = (5, first_frame ∷ []);
  count = 1;
  group_seq_file = some (some (b'5' ∷ 10 ∷ []));
  store = some empty_store;
  group_frames = first_frame ∷ [];
  metrics = no_metrics;
}

live-IsStreaming : IsStreaming toy toy-IsMoq 2 live
unfolding toy-IsMoq
live-IsStreaming = record { counted = refl; room = omega arith; kept = λ s e. refl; known = refl }

abbrev after : Lite toy
after = (write toy calm (2 ∷ []) 2 live).0

write_runs : write toy calm (2 ∷ []) 2 live ≡ (after, ok tt)
unfolding write rotate_group
write_runs = refl

IsFresh-5 : IsFresh empty_store 5
unfolding contents
IsFresh-5 = refl

Fits-5 : Fits 5 1000 (first_frame ∷ (2 ∷ []) ∷ [])
Fits-5 = record {
  seq_u64 = omega arith;
  ms_u64 = omega arith;
  count_u32 = omega arith;
  frames_u32 = (omega arith, (omega arith, tt));
}

write-read_example :
    (s' : GroupStore) × (after.store ≡ some s')
    × (read s' 5 ≡ ok (some (first_frame ∷ (2 ∷ []) ∷ [])))
    × IsSynced s'
unfolding toy-IsMoq
write-read_example =
    write-read toy toy-IsMoq calm (2 ∷ []) 2 live after empty_store live-IsStreaming refl
      (omega arith) empty-IsSynced IsFresh-5 Fits-5 refl write_runs

unfoldable runs : Unit {0}
unfolding load_group_seq parse_u64 trim trim_start trim_end parse_digits persist_group_seq
    write_state_file show_u64 digits_of build_lite_publisher reload_window make_first_group seed_of
runs = tt

saved : IsSaved toy toy-IsMoq live
unfolding runs
saved = refl

saved_five : (f : ℕ) → load_group_seq (some (some (b'5' ∷ 10 ∷ []))) ≡ some f → f < 2 ^ 64 - 2
unfolding runs
saved_five f e = omega (arith, some-injective 5 f e)

abbrev restarted : Lite toy
unfolding runs
restarted = record live {
  group = (6, []);
  count = 0;
  track = some 6;
  group_frames = [];
  group_seq_file = some (some (b'6' ∷ 10 ∷ []));
}

build_runs :
    build_lite_publisher toy none (some (some (b'5' ∷ 10 ∷ []))) empty_store 0 calm no_metrics
    ≡ ok restarted
unfolding runs
build_runs = refl

no_max : (k : ℕ) → empty_store.max_seq ≡ some k → k < 2 ^ 64 - 2
no_max k e = absurd (none-ne-some k e)

build_lite_publisher-IsAbove_example :
    IsAbove toy toy-IsMoq (load_group_seq (some (some (b'5' ∷ 10 ∷ [])))) 6
    × Unit {0}
    × IsAbove toy toy-IsMoq
        (in_progress toy toy-IsMoq (load_group_seq (some (some (b'5' ∷ 10 ∷ [])))) none)
        6
unfolding restarted
build_lite_publisher-IsAbove_example =
    build_lite_publisher-IsAbove toy toy-IsMoq none (some (some (b'5' ∷ 10 ∷ []))) empty_store 0
      calm no_metrics restarted saved_five no_max build_runs

-- Two writes: the first fills the group, the second begins the next.
abbrev two_behind : Lite toy
two_behind = (write toy calm (3 ∷ []) 2 after).0

two_behind_runs : write toy calm (3 ∷ []) 2 after ≡ (two_behind, ok tt)
unfolding write rotate_group
two_behind_runs = refl

after_small : after.group.0 < 2 ^ 64
unfolding write rotate_group
after_small = omega arith

two_behind_small : two_behind.group.0 < 2 ^ 64 - 2
unfolding write rotate_group
two_behind_small = omega arith

two_writes : Runs toy toy-IsMoq 2 live two_behind
two_writes =
    next (next here calm (2 ∷ []) refl after_small write_runs) calm (3 ∷ []) refl
      (omega (arith, two_behind_small)) two_behind_runs

-- The run behind them, with the sequence of its first group.
abbrev next_run : Lite toy
next_run = record live {
  group = (7, []);
  count = 0;
  track = some 7;
  group_frames = [];
  group_seq_file = some (some (b'7' ∷ 10 ∷ []));
}

next_run_built :
    build_lite_publisher toy none two_behind.group_seq_file empty_store 0 calm no_metrics
    ≡ ok next_run
unfolding runs write rotate_group
next_run_built = refl

Runs-above_example : (5 ≤ two_behind.group.0) × (two_behind.group.0 < 7)
Runs-above_example =
    Runs-above toy toy-IsMoq 2 live two_behind next_run none empty_store 0 calm no_metrics
      live-IsStreaming saved two_writes two_behind_small no_max next_run_built
