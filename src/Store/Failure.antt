-- ===== src/Store/Failure.antt =====
-- A failed append, and the one behind it.
use atmoq.Common.{
  ℕ, ◌-◌, ◌≡◌, ◌≢◌, refl, sym, ap, ◌∙◌, false, some, List, ◌++◌, append_assoc, ok, err, ne→==,
  Bytes, length, take, drop, drop-append, take-drop, get_elem?, take_past, ◌≤◌, ◌+◌, arith,
  length-drop,
}
use atmoq.Store.Codec.{record_bytes, read_record-record_bytes}
use atmoq.Store.{
  SegmentPath, contents, append_to, get, GroupStore, done, failed, last?, reopen, must_rotate,
  ensure_writer, append_record, append, locate, read_group_at, read, last_bytes, mismatch,
}
use atmoq.Store.Files.{contents-append_to}
use atmoq.Store.Append.{
  IsReady, IsSynced, IsFresh, ensure_writer-IsReady, grown, after_last, after_location,
  offset_of_end,
}
use atmoq.Store.Keeps.{append_step, Fits}

-- Two appends to a segment that neither fills, the first of which fails with its text left in the
-- writer's buffer.
module _ (s : GroupStore) (p : SegmentPath) (r : IsReady s p) (seq ms seq' ms' : ℕ)
    (frames frames' : List Bytes) (landed kept : ℕ)
    (whole : length (record_bytes seq ms frames) ≤ landed + kept) where
  abbrev first : Bytes
  first = record_bytes seq ms frames

  abbrev torn : GroupStore
  torn = (append_record s p seq ms first (failed landed kept)).0

  torn_segments : torn.segments ≡ s.segments
  unfolding append_record
  torn_segments = refl

  torn_file : contents p torn.files ≡ some (r.file ++ take landed first)
  unfolding append_record
  torn_file = rw r.idle (contents-append_to p (take landed first) r.file s.files r.there)

  abbrev second : GroupStore
  second = (append_record torn p seq' ms' (record_bytes seq' ms' frames') done).0

  abbrev rec' : Bytes
  rec' = record_bytes seq' ms' frames'

  joined : (r.file ++ take landed first) ++ (drop landed first ++ rec') ≡ r.file ++ (first ++ rec')
  joined =
      append_assoc r.file (take landed first) (drop landed first ++ rec')
      ∙ ap (λ (t : Bytes). r.file ++ t)
          (sym (append_assoc (take landed first) (drop landed first) rec')
            ∙ ap (λ (t : Bytes). t ++ rec') (sym (take-drop landed first)))

  torn_pending : torn.pending ≡ drop landed first
  unfolding append_record
  torn_pending =
      rw r.idle
        (take_past (drop landed first) kept (omega (arith, whole, length-drop landed first)))

  second_file : contents p second.files ≡ some (r.file ++ (first ++ rec'))
  second_file =
      second_files
      ∙ contents-append_to p (torn.pending ++ rec') (r.file ++ take landed first) torn.files
          torn_file
      ∙ ap (λ (t : Bytes). some ((r.file ++ take landed first) ++ (t ++ rec'))) torn_pending
      ∙ ap some joined
    where
      second_files :
          contents p second.files ≡ contents p (append_to p (torn.pending ++ rec') torn.files)
      second_files = unfold append_record in refl

  second_last :
      get_elem? second.segments (length s.segments - 1) ≡ some (grown (length rec') ms' r.seg)
  second_last = unfold append_record in after_last s p r seq' ms' rec'

  second_location :
      get seq' second.index
      ≡ some (record {
        segment = length s.segments - 1;
        offset = last_bytes s.segments;
        created_ms = ms';
      })
  second_location = unfold append_record in after_location s p r seq' ms' rec'

  second-read : Fits seq ms frames → seq ≢ seq' → read second seq' ≡ err (mismatch seq seq')
  unfolding read locate read_group_at
  second-read f apart =
      rw (second_location, read, locate)
        (rw (second_last, locate)
          (rw (r.path, second_file, read_group_at)
            (rw (offset_of_end s p r seq' ms' rec') (
              rw (drop-append r.file (first ++ rec'), r.v2)
                (rw
                  (read_record-record_bytes seq ms frames rec' f.seq_u64 f.ms_u64 f.count_u32
                    f.frames_u32)
                  (rw (ne→== seq seq' apart)))))))

-- The segment that is written to is not full.
abbrev pub IsOpen : GroupStore → ℕ → Type 0
IsOpen s seq =
    must_rotate (ensure_writer s seq).segment_target (last? (ensure_writer s seq).segments) ≡ false

same_writer :
    (s : GroupStore) (p : SegmentPath) (seq' : ℕ)
    → s.writer ≡ some p
    → must_rotate s.segment_target (last? s.segments) ≡ false
    → ensure_writer s seq' ≡ s
unfolding ensure_writer
same_writer s p seq' w o = rw o (ap (λ x. reopen s x (last? s.segments)) w)

torn_open :
    (s : GroupStore) (p : SegmentPath) (seq ms : ℕ) (rec : Bytes) (landed kept : ℕ)
    → s.writer ≡ some p
    → must_rotate s.segment_target (last? s.segments) ≡ false
    → (seq' : ℕ)
    → ensure_writer (append_record s p seq ms rec (failed landed kept)).0 seq'
      ≡ (append_record s p seq ms rec (failed landed kept)).0
unfolding append_record
torn_open s p seq ms rec landed kept w o seq' = same_writer _ p seq' w o

torn_writer :
    (s : GroupStore) (p : SegmentPath) (seq ms : ℕ) (rec : Bytes) (landed kept : ℕ)
    → s.writer ≡ some p
    → (append_record s p seq ms rec (failed landed kept)).0.writer ≡ some p
unfolding append_record
torn_writer s p seq ms rec landed kept w = w

-- A write that fails, after which the writer keeps in its buffer all that did not reach the disk, is
-- written by the next append, and the index does not count it: on a store whose table agrees with
-- its files, and whose current segment is not full, the append behind the failed one reports
-- success, and its group cannot be read, since its recorded offset holds the record of the failed
-- one.
pub append-after_failure :
    (s : GroupStore) (seq ms seq' ms' : ℕ) (frames frames' : List Bytes) (landed kept : ℕ)
    → length (record_bytes seq ms frames) ≤ landed + kept
    → IsSynced s
    → IsFresh s seq
    → IsOpen s seq
    → Fits seq ms frames
    → seq ≢ seq'
    → let torn = (append s seq ms frames (failed landed kept)).0 in
      let (after, result) = append torn seq' ms' frames' done in
      (result ≡ ok tt) × (read after seq' ≡ err (mismatch seq seq'))
append-after_failure s seq ms seq' ms' frames frames' landed kept whole i fresh o f apart =
    let (p, r) = ensure_writer-IsReady s seq i fresh in
    let s1 = ensure_writer s seq in
    let rec = record_bytes seq ms frames in
    let same = torn_open s1 p seq ms rec landed kept r.writes o seq' in
    let torn = (append_record s1 p seq ms rec (failed landed kept)).0 in
    let second =
      append_step torn seq' ms' frames' done p
        (ap (λ (x : GroupStore). x.writer) same ∙ torn_writer s1 p seq ms rec landed kept r.writes)
      ∙ ap (λ x. append_record x p seq' ms' (record_bytes seq' ms' frames') done) same in
    rw (append_step s seq ms frames (failed landed kept) p r.writes) (
      rw second (
        unfold append_record in refl,
        second-read s1 p r seq ms seq' ms' frames frames' landed kept whole f apart,
      ))
