-- ===== src/Store.antt =====
-- rust/crates/atmoq/src/store.rs: the disk-backed group store. A path is the number that its
-- twenty-digit stem shows and whether its extension is `seg2`; the directory is a list of files.
-- `BTreeMap` is a list of entries that rises with the key. Opening, reading and deleting a file
-- succeed where the file is there; what a write does is an argument, `Outcome`.
pub mod Codec
pub mod Files
pub mod Append
pub mod Keeps
pub mod Order
pub mod Indexed
pub mod Failure
pub mod Limits
pub mod Retention
pub mod Scan
mod Examples
use atmoq.Common.{
  ℕ, zero, suc, ◌+◌, ◌-◌, ◌*◌, ◌%◌, ◌^◌, max, Bool, true, false, not, ◌&&◌, ◌||◌, Option, none,
  some, List, [], ◌∷◌, ◌++◌, map, Result, ok, err, panic, ◌>>=◌, if◌then◌else◌, ltb, leb, ◌==◌,
  Bytes, length, get_elem?, take, drop,
}
use Codec.{record_bytes, Record, read_record}

pub record SegmentPath : Type 0 where
  pub stem : ℕ
  pub v2 : Bool

abbrev pub same_path : SegmentPath → SegmentPath → Bool
same_path p q = p.stem == q.stem && (if p.v2 then q.v2 else not q.v2)

pub record Location : Type 0 where
  pub segment : ℕ
  pub offset : ℕ
  pub created_ms : ℕ

pub record Segment : Type 0 where
  pub path : SegmentPath
  pub first_seq : ℕ
  pub newest_ms : ℕ
  pub bytes : ℕ
  pub v2 : Bool

pub record GroupLocation : Type 0 where
  pub path : SegmentPath
  pub offset : ℕ
  pub v2 : Bool

abbrev pub Files : Type 0
Files = List (SegmentPath × Bytes)

unfoldable pub contents : SegmentPath → Files → Option Bytes
contents p [] = none
contents p ((q, bs) ∷ fs) = if same_path q p then some bs else contents p fs

-- A write in append mode, which creates the file.
pub append_to : SegmentPath → Bytes → Files → Files
append_to p new [] = (p, new) ∷ []
append_to p new ((q, bs) ∷ fs) =
    if same_path q p then (q, bs ++ new) ∷ fs else (q, bs) ∷ append_to p new fs

pub remove_file : SegmentPath → Files → Files
remove_file p [] = []
remove_file p ((q, bs) ∷ fs) =
    if same_path q p then remove_file p fs else (q, bs) ∷ remove_file p fs

abbrev pub Index : Type 0
Index = List (ℕ × Location)

pub get : ℕ → Index → Option Location
get seq [] = none
get seq ((k, l) ∷ is) = if k == seq then some l else get seq is

pub insert : ℕ → Location → Index → Index
insert seq l [] = (seq, l) ∷ []
insert seq l ((k, m) ∷ is) =
    if k == seq
    then (seq, l) ∷ is
    else if ltb seq k
    then (seq, l) ∷ (k, m) ∷ is
    else (k, m) ∷ insert seq l is

pub retain : (ℕ → Bool) → Index → Index
retain p [] = []
retain p ((k, l) ∷ is) = if p k then (k, l) ∷ retain p is else retain p is

-- `for loc in index.values_mut()`.
pub shift_down : Index → Index
shift_down [] = []
shift_down ((k, l) ∷ is) = (k, record l { segment = l.segment - 1 }) ∷ shift_down is

-- `pending` is what the `BufWriter` holds that has not reached its file; `writer` is its file.
pub record GroupStore : Type 0 where
  pub segments : List Segment
  pub index : Index
  pub writer : Option SegmentPath
  pub pending : Bytes
  pub max_seq : Option ℕ
  pub segment_target : ℕ
  pub files : Files

-- `write_all` and `flush`: all that is pending reaches the file, or the first `landed` bytes of it do
-- and the write fails. Of the others the `BufWriter` keeps the first `kept`: all, or those that it
-- held before, or none where the record went past the buffer.
pub data Outcome : Type 0 where
  done : Outcome
  failed : (landed : ℕ) (kept : ℕ) → Outcome

pub data StoreError : Type 0 where
  not_found write_failed truncated : StoreError
  mismatch : ℕ → ℕ → StoreError

abbrev pub Stored : Type 0 → Type 0
Stored A = Result StoreError A

pub oldest_seq : GroupStore → Option ℕ
oldest_seq s = elim s.index [ [] ↦ none | i ∷ is ↦ some i.0 ]

pub indexed_groups : GroupStore → ℕ
indexed_groups s = length s.index

abbrev pub sum_bytes : List Segment → ℕ
sum_bytes [] = 0
sum_bytes (s ∷ ss) = s.bytes + sum_bytes ss

pub total_bytes : GroupStore → ℕ
total_bytes s = sum_bytes s.segments

unfoldable pub last? : List Segment → Option Segment
last? [] = none
last? (s ∷ []) = some s
last? (s ∷ t ∷ ss) = last? (t ∷ ss)

pub update_last : (Segment → Segment) → List Segment → List Segment
update_last f [] = []
update_last f (s ∷ []) = f s ∷ []
update_last f (s ∷ t ∷ ss) = s ∷ update_last f (t ∷ ss)

pub last_bytes : List Segment → ℕ
last_bytes [] = 0
last_bytes (s ∷ []) = s.bytes
last_bytes (s ∷ t ∷ ss) = last_bytes (t ∷ ss)

abbrev pub must_rotate : ℕ → Option Segment → Bool
must_rotate target none = true
must_rotate target (some seg) = leb target seg.bytes || not seg.v2

abbrev pub new_path : ℕ → SegmentPath
new_path seq = record { stem = seq; v2 = true }

abbrev pub new_segment : ℕ → Segment
new_segment seq = record {
  path = new_path seq;
  first_seq = seq;
  newest_ms = 0;
  bytes = 0;
  v2 = true;
}

abbrev pub flushed : Option SegmentPath → Bytes → Files → Files
flushed none pending files = files
flushed (some p) pending files = append_to p pending files

-- A rotation flushes the writer that it replaces.
pub rotate : GroupStore → ℕ → GroupStore
rotate s seq = record s {
  segments = s.segments ++ (new_segment seq ∷ []);
  writer = some (new_path seq);
  pending = [];
  files = append_to (new_path seq) [] (flushed s.writer s.pending s.files);
}

abbrev pub reopen : GroupStore → Option SegmentPath → Option Segment → GroupStore
reopen s (some p) last = s
reopen s none none = s
reopen s none (some seg) = record s { writer = some seg.path; pending = [] }

pub ensure_writer : GroupStore → ℕ → GroupStore
ensure_writer s seq =
    if must_rotate s.segment_target (last? s.segments)
    then rotate s seq
    else reopen s s.writer (last? s.segments)

abbrev pub higher : Option ℕ → ℕ → ℕ
higher none seq = seq
higher (some m) seq = max m seq

-- `append` behind `ensure_writer`, with the path of the writer.
pub append_record :
    GroupStore → SegmentPath → ℕ → ℕ → Bytes → Outcome → GroupStore × Stored (Unit {0})
append_record s p seq ms rec done = (
  record s {
    segments =
        update_last (λ seg. record seg { bytes = seg.bytes + length rec; newest_ms = ms })
          s.segments;
    index =
        insert seq
          (record {
            segment = length s.segments - 1;
            offset = last_bytes s.segments;
            created_ms = ms;
          })
          s.index;
    pending = [];
    max_seq = some (higher s.max_seq seq);
    files = append_to p (s.pending ++ rec) s.files;
  },
  ok tt,
)
append_record s p seq ms rec (failed landed kept) = (
  record s {
    pending = take kept (drop landed (s.pending ++ rec));
    files = append_to p (take landed (s.pending ++ rec)) s.files;
  },
  err write_failed,
)

-- `self.writer.as_mut().expect(..)`.
abbrev pub append_by :
    GroupStore → Option SegmentPath → ℕ → ℕ → Bytes → Outcome → GroupStore × Stored (Unit {0})
append_by s none seq ms rec outcome = (s, panic)
append_by s (some p) seq ms rec outcome = append_record s p seq ms rec outcome

pub append : GroupStore → ℕ → ℕ → List Bytes → Outcome → GroupStore × Stored (Unit {0})
append s seq ms frames outcome =
    append_by (ensure_writer s seq) (ensure_writer s seq).writer seq ms (record_bytes seq ms frames)
      outcome

pub locate : GroupStore → ℕ → Stored (Option GroupLocation)
locate s seq = elim (get seq s.index) [
  | none ↦ ok none
  | some loc ↦ elim (get_elem? s.segments loc.segment) [
    | none ↦ panic
    | some seg ↦ ok (some (record { path = seg.path; offset = loc.offset; v2 = seg.v2 }))
  ]
]

abbrev pub check_record : ℕ → Option Record → Stored (List Bytes)
check_record seq none = err truncated
check_record seq (some r) = if r.seq == seq then ok r.frames else err (mismatch r.seq seq)

pub read_group_at : Files → GroupLocation → ℕ → Stored (List Bytes)
read_group_at files loc seq = elim (contents loc.path files) [
  | none ↦ err not_found
  | some bs ↦ check_record seq (read_record loc.v2 (drop loc.offset bs))
]

pub read : GroupStore → ℕ → Stored (Option (List Bytes))
read s seq = do
  place ← locate s seq
  elim place [ none ↦ ok none | some loc ↦ (read_group_at s.files loc seq >>= λ fs. ok (some fs)) ]

pub groups_since : ℕ → Index → List ℕ
groups_since cutoff [] = []
groups_since cutoff ((k, l) ∷ is) =
    if leb cutoff l.created_ms then k ∷ groups_since cutoff is else groups_since cutoff is

abbrev pub outside : ℕ → ℕ → ℕ → Bool
outside first next_first seq = ltb seq first || leb next_first seq

-- The loop of `gc`: the segments, the index, the files, the running total and the count.
pub gc_loop : ℕ → ℕ → List Segment → Index → Files → ℕ → ℕ → List Segment × Index × Files × ℕ
gc_loop cutoff max_bytes [] index files total removed = ([], index, files, removed)
gc_loop cutoff max_bytes (seg ∷ []) index files total removed = (seg ∷ [], index, files, removed)
gc_loop cutoff max_bytes (seg ∷ next ∷ others) index files total removed =
    let rest =
      gc_loop cutoff max_bytes (next ∷ others)
        (shift_down (retain (outside seg.first_seq next.first_seq) index))
        (remove_file seg.path files) (total - seg.bytes) (removed + 1) in
    if ltb seg.newest_ms cutoff || (ltb 0 max_bytes && ltb max_bytes total)
    then rest
    else (seg ∷ next ∷ others, index, files, removed)

pub gc : GroupStore → ℕ → ℕ → GroupStore × ℕ
gc s cutoff max_bytes =
    let (segments, index, files, removed) =
      gc_loop cutoff max_bytes s.segments s.index s.files (sum_bytes s.segments) 0 in
    (record s { segments = segments; index = index; files = files }, removed)
