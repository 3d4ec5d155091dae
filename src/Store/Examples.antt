-- ===== src/Store/Examples.antt =====
-- Runs of the store, and its theorems at small stores.
use atmoq.Common.{
  ℕ, ◌==◌, Bool-cases, ==→eq, subst, ◌≡◌, ◌∷◌, [], ◌++◌, ◌*◌, refl, true, none, some, List, ok, err,
  Bytes, arith, inl, inr, length, ◌≤◌, ◌+◌,
}
use mathlib.Core.Option.{none-ne-some, some-injective}
use atmoq.Store.{
  Segment, Location, GroupStore, done, failed, append, read, new_path, ensure_writer, append_record,
  insert, get, append_to, contents, update_last, last?, last_bytes, gc, gc_loop, rotate, locate,
  read_group_at, mismatch, retain, shift_down, remove_file,
}
use atmoq.Store.Scan.{next_record, open_with_segment_target}
use atmoq.Store.Scan.Synced.{open_with_segment_target-IsSynced}
use atmoq.Store.Scan.Records.{IsStored, all_bytes}
use atmoq.Store.Scan.Recover.{open-read, Lacks}
use atmoq.Store.{Files}
use atmoq.Store.Codec.{
  Record, record_bytes, read_record, read_record-record_bytes, read_frames, read_full, to_le,
  from_le, body_length, body_bytes,
}
use atmoq.Store.Append.{IsSynced, IsFresh}
use atmoq.Store.Keeps.{append-read, append_keeps, Fits}
use atmoq.Store.Failure.{IsOpen, append-after_failure}
use atmoq.Store.Order.{IsOldest, RisesIndex}
use atmoq.Store.Indexed.{append-IsIndexed, IsIndexed}
use atmoq.Store.{oldest_seq}
use atmoq.Store.Limits.{gc-Collected, Collected}
use atmoq.Store.Retention.{IsPlaced, gc-survivor, survivor, gc-empty_segment, Covers}

-- What `GroupStore::open` gives on an empty directory.
abbrev empty_store : GroupStore
empty_store = record {
  segments = [];
  index = [];
  writer = none;
  pending = [];
  max_seq = none;
  segment_target = 64 * 1024 * 1024;
  files = [];
}

abbrev one_frame : List Bytes
one_frame = (0xa0 ∷ 0xa1 ∷ []) ∷ []

abbrev other_frames : List Bytes
other_frames = (0xb0 ∷ []) ∷ [] ∷ []

empty-IsSynced : IsSynced empty_store
unfolding last?
empty-IsSynced = record {
  idle = refl;
  last_file = λ seg e. absurd (none-ne-some seg e);
  last_writer = λ seg p e h. absurd (none-ne-some seg e);
}

Fits-5 : Fits 5 1000 one_frame
Fits-5 = record {
  seq_u64 = omega arith;
  ms_u64 = omega arith;
  count_u32 = omega arith;
  frames_u32 = (omega arith, tt);
}

unfoldable runs : Unit {0}
unfolding append read ensure_writer append_record insert get append_to contents update_last last?
    last_bytes rotate locate read_group_at record_bytes read_record read_frames read_full to_le
    from_le body_length body_bytes
runs = tt

read_back_5 : read (append empty_store 5 1000 one_frame done).0 5 ≡ ok (some one_frame)
unfolding runs
read_back_5 = refl

abbrev store_5 : GroupStore
store_5 = (append empty_store 5 1000 one_frame done).0

Fits-6 : Fits 6 2000 other_frames
Fits-6 = record {
  seq_u64 = omega arith;
  ms_u64 = omega arith;
  count_u32 = omega arith;
  frames_u32 = (omega arith, (omega arith, tt));
}

IsFresh-5 : IsFresh empty_store 5
unfolding contents
IsFresh-5 = refl

IsSynced-5 : IsSynced store_5
IsSynced-5 = (append-read empty_store 5 1000 one_frame empty-IsSynced IsFresh-5 Fits-5).2

IsFresh-6 : IsFresh store_5 6
unfolding runs
IsFresh-6 = refl

IsOpen-5 : IsOpen empty_store 5
unfolding runs
IsOpen-5 = refl

read_record-record_bytes_example :
    read_record true (record_bytes 5 1000 one_frame ++ (0xff ∷ []))
    ≡ some (record { seq = 5; ms = 1000; frames = one_frame })
read_record-record_bytes_example =
    read_record-record_bytes 5 1000 one_frame (0xff ∷ []) (omega arith) (omega arith) (omega arith)
      (omega arith, tt)

append-read_example :
    let (s', result) = append store_5 6 2000 other_frames done in
    (result ≡ ok tt) × (read s' 6 ≡ ok (some other_frames)) × IsSynced s'
append-read_example = append-read store_5 6 2000 other_frames IsSynced-5 IsFresh-6 Fits-6

append_keeps_example :
    read (append store_5 6 2000 other_frames (failed 9 4)).0 5 ≡ ok (some one_frame)
append_keeps_example =
    append_keeps store_5 6 2000 other_frames (failed 9 4) 5 one_frame IsSynced-5 IsFresh-6
      (omega arith) read_back_5

small_record : length (record_bytes 5 1000 one_frame) ≤ 3 + 64
unfolding runs
small_record = omega arith

append-after_failure_example :
    let torn = (append empty_store 5 1000 one_frame (failed 3 64)).0 in
    let (after, result) = append torn 6 2000 other_frames done in
    (result ≡ ok tt) × (read after 6 ≡ err (mismatch 5 6))
append-after_failure_example =
    append-after_failure empty_store 5 1000 6 2000 one_frame other_frames 3 64 small_record
      empty-IsSynced IsFresh-5 IsOpen-5 Fits-5 (omega arith)

-- A segment per group: 5, 6 and 7.
abbrev segment_of : ℕ → ℕ → Segment
segment_of seq ms = record {
  path = new_path seq;
  first_seq = seq;
  newest_ms = ms;
  bytes = 30;
  v2 = true;
}

abbrev location_in : ℕ → ℕ → Location
location_in i ms = record { segment = i; offset = 0; created_ms = ms }

abbrev three_segments : GroupStore
three_segments = record {
  segments = segment_of 5 1000 ∷ segment_of 6 2000 ∷ segment_of 7 3000 ∷ [];
  index = (5, location_in 0 1000) ∷ (6, location_in 1 2000) ∷ (7, location_in 2 3000) ∷ [];
  writer = some (new_path 7);
  pending = [];
  max_seq = some 7;
  segment_target = 30;
  files = [];
}

gc_count : (gc three_segments 1500 40).1 ≡ 2
unfolding gc gc_loop retain shift_down remove_file
gc_count = refl

three-IsPlaced : IsPlaced three_segments.segments three_segments.index
unfolding get Covers
three-IsPlaced seq l e = elim (Bool-cases (5 == seq)) [
  | inl a ↦
      at (location_in 0 1000) (omega (arith, ==→eq 5 seq a), omega (arith, ==→eq 5 seq a))
        (rw a at e)
  | inr a ↦ elim (Bool-cases (6 == seq)) [
    | inl b ↦
        at (location_in 1 2000) (omega (arith, ==→eq 6 seq b), omega (arith, ==→eq 6 seq b))
          (rw b at (rw a at e))
    | inr b ↦ elim (Bool-cases (7 == seq)) [
      | inl c ↦
          at (location_in 2 3000) (omega (arith, ==→eq 7 seq c)) (rw c at (rw b at (rw a at e)))
      | inr c ↦ absurd (none-ne-some l (rw c at (rw b at (rw a at e))))
    ]
  ]
]
  where
    at :
        (m : Location)
        → Covers three_segments.segments m.segment seq
        → some m ≡ some l
        → Covers three_segments.segments l.segment seq
    at m c e = subst (λ x. Covers three_segments.segments x.segment seq) (some-injective m l e) c

gc-Collected_example :
    Collected 1500 40 three_segments.segments
      (gc three_segments 1500 40).0.segments
      (gc three_segments 1500 40).1
gc-Collected_example = gc-Collected three_segments 1500 40

gc-survivor_example :
    get 7 (gc three_segments 1500 40).0.index
    ≡ survivor (gc three_segments 1500 40).1 (get 7 three_segments.index)
gc-survivor_example =
    gc-survivor three_segments 1500 40 7 (omega arith, (omega arith, tt)) three-IsPlaced

-- The second segment is a file that was empty when the store was opened.
abbrev empty_segment : Segment
empty_segment = record { path = new_path 6; first_seq = 0; newest_ms = 0; bytes = 0; v2 = true }

abbrev after_crash : GroupStore
after_crash = record three_segments {
  segments = segment_of 5 1000 ∷ empty_segment ∷ [];
  index = (5, location_in 0 1000) ∷ [];
  files = (new_path 5, record_bytes 5 1000 one_frame) ∷ (new_path 6, []) ∷ [];
}

indexed_5 : get 5 after_crash.index ≡ some (location_in 0 1000)
unfolding get
indexed_5 = refl

gc-empty_segment_example :
    (contents (new_path 5) (gc after_crash 1500 0).0.files ≡ none)
    × (locate (gc after_crash 1500 0).0 5
        ≡ ok (some (record { path = new_path 6; offset = 0; v2 = true })))
gc-empty_segment_example =
    gc-empty_segment after_crash (segment_of 5 1000) empty_segment 1500 0 5 (location_in 0 1000)
      refl refl (omega arith) indexed_5 refl

rises_5 : RisesIndex store_5.index
unfolding runs
rises_5 = tt

IsFresh-3 : IsFresh store_5 3
unfolding runs
IsFresh-3 = refl

append-IsIndexed_example :
    let s' = (append store_5 3 2000 other_frames done).0 in
    IsIndexed store_5 s' 3 2000 (record_bytes 3 2000 other_frames) 5 done
    × RisesIndex s'.index
    × IsOldest s'
append-IsIndexed_example =
    append-IsIndexed store_5 3 2000 other_frames done 5 IsSynced-5 IsFresh-3 rises_5 (omega arith)

oldest_3 : oldest_seq (append store_5 3 2000 other_frames done).0 ≡ some 3
unfolding runs oldest_seq
oldest_3 = refl

-- A file with two whole records and the first bytes of a third.
abbrev record_5 : Record
record_5 = record { seq = 5; ms = 1000; frames = one_frame }

abbrev record_6 : Record
record_6 = record { seq = 6; ms = 2000; frames = other_frames }

IsStored-5 : IsStored record_5
IsStored-5 = record {
  seq_u64 = omega arith;
  ms_u64 = omega arith;
  count_u32 = omega arith;
  frames_u32 = (omega arith, tt);
  body_u32 = unfold body_length in omega arith;
}

IsStored-6 : IsStored record_6
IsStored-6 = record {
  seq_u64 = omega arith;
  ms_u64 = omega arith;
  count_u32 = omega arith;
  frames_u32 = (omega arith, (omega arith, tt));
  body_u32 = unfold body_length in omega arith;
}

Lacks-5 : Lacks 5 (record_6 ∷ [])
Lacks-5 = (λ e. omega (arith, e), tt)

torn_tail : next_record true (7 ∷ 0 ∷ []) 0 ≡ none
unfolding next_record
torn_tail = refl

abbrev torn_files : Files
torn_files = (new_path 5, all_bytes (record_5 ∷ record_6 ∷ []) ++ (7 ∷ 0 ∷ [])) ∷ []

open-read_example :
    (s : GroupStore) × (open_with_segment_target torn_files 1024 ≡ ok s)
    × (contents (new_path 5) s.files ≡ some (all_bytes (record_5 ∷ record_6 ∷ [])))
    × (read s 5 ≡ ok (some one_frame))
open-read_example =
    open-read 5 1024 [] (record_6 ∷ []) record_5 (7 ∷ 0 ∷ []) (IsStored-5, (IsStored-6, tt)) Lacks-5
      torn_tail

open_with_segment_target-IsSynced_example :
    (s : GroupStore) × (open_with_segment_target torn_files 1024 ≡ ok s) × IsSynced s
open_with_segment_target-IsSynced_example = open_with_segment_target-IsSynced torn_files 1024
