-- ===== src/Store/Scan.antt =====
-- `open` and `scan` of rust/crates/atmoq/src/store.rs: the index rebuilt from the segment files. The
-- directory is the list of its segment files, in the order of `read_dir`.
pub mod Records
pub mod Total
pub mod Synced
pub mod Recover
use atmoq.Common.{
  ℕ, zero, suc, ◌+◌, ◌-◌, ◌*◌, Bool, true, false, Option, none, some, ok, err, List, [], ◌∷◌, ◌++◌,
  if◌then◌else◌, ltb, leb, Bytes, length, take, drop,
}
use atmoq.Store.{
  SegmentPath, same_path, Segment, Location, Files, contents, Index, insert, GroupStore, Stored,
  not_found, higher,
}
use atmoq.Store.Codec.{from_le, header_length}

-- A path of the directory: stems of twenty digits sort as their numbers; the sort is stable.
unfoldable pub insert_path : SegmentPath → List SegmentPath → List SegmentPath
insert_path p [] = p ∷ []
insert_path p (q ∷ qs) =
    let rest = insert_path p qs in if leb p.stem q.stem then p ∷ q ∷ qs else q ∷ rest

unfoldable pub sort_paths : Files → List SegmentPath
unfolding insert_path
sort_paths [] = []
sort_paths ((p, bs) ∷ fs) = insert_path p (sort_paths fs)

-- The loop of `walk_v1_body`: the end of the record's frames, none where they run past the file.
unfoldable pub walk_v1_frames : ℕ → Bytes → ℕ → Option ℕ
walk_v1_frames zero bs cursor = some cursor
walk_v1_frames (suc count) bs cursor =
    let n = from_le (take 4 (drop cursor bs)) in
    let onward = walk_v1_frames count bs (cursor + 4 + n) in
    if ltb (length bs) (cursor + 4)
    then none
    else if ltb (length bs) (cursor + 4 + n)
    then none
    else onward

abbrev pub from_start : ℕ → Option ℕ → Option ℕ
from_start body_start none = none
from_start body_start (some cursor) = some (cursor - body_start)

unfoldable pub walk_v1_body : Bytes → ℕ → ℕ → Option ℕ
unfolding walk_v1_frames
walk_v1_body bs body_start count = from_start body_start (walk_v1_frames count bs body_start)

-- The `v2` branch: the length that the header claims, none where the body is torn.
unfoldable pub claimed_body : Bytes → Bytes → ℕ → Option ℕ
claimed_body bs hdr body_start =
    let claimed = from_le (take 4 (drop 20 hdr)) in
    if ltb (length bs) (body_start + claimed) then none else some claimed

pub record Header : Type 0 where
  pub seq : ℕ
  pub ms : ℕ
  pub record_length : ℕ

abbrev pub with_body : ℕ → Bytes → Option ℕ → Option Header
with_body header_len hdr none = none
with_body header_len hdr (some body_len) = some (record {
  seq = from_le (take 8 hdr);
  ms = from_le (take 8 (drop 8 hdr));
  record_length = header_len + body_len;
})

abbrev pub read_header : Bool → Bytes → ℕ → Bytes → Option Header
read_header true bs offset hdr = with_body 24 hdr (claimed_body bs hdr (offset + 24))
read_header false bs offset hdr =
    with_body 20 hdr (walk_v1_body bs (offset + 20) (from_le (take 4 (drop 16 hdr))))

-- One round of the loop up to its breaks: the record at `offset`.
unfoldable pub next_record : Bool → Bytes → ℕ → Option Header
next_record v2 bs offset =
    if ltb (length bs) (offset + header_length v2)
    then none
    else read_header v2 bs offset (take (header_length v2) (drop offset bs))

-- What the loop over a file's records keeps.
pub record Progress : Type 0 where
  pub offset : ℕ
  pub first_seq : Option ℕ
  pub newest_ms : ℕ
  pub index : Index
  pub max_seq : Option ℕ

abbrev pub get_or_insert : Option ℕ → ℕ → Option ℕ
get_or_insert none seq = some seq
get_or_insert (some first) seq = some first

unfoldable pub advance : ℕ → Header → Progress → Progress
advance segment h p = record {
  offset = p.offset + h.record_length;
  first_seq = get_or_insert p.first_seq h.seq;
  newest_ms = h.ms;
  index = insert h.seq (record { segment = segment; offset = p.offset; created_ms = h.ms }) p.index;
  max_seq = some (higher p.max_seq h.seq);
}

abbrev pub one_record : (Progress → Progress) → ℕ → Progress → Option Header → Progress
one_record onward segment p none = p
one_record onward segment p (some h) = onward (advance segment h p)

-- The loop over a file's records, of at most `fuel` rounds.
unfoldable pub scan_records : ℕ → Bool → Bytes → ℕ → Progress → Progress
scan_records zero v2 bs segment p = p
scan_records (suc fuel) v2 bs segment p =
    one_record (scan_records fuel v2 bs segment) segment p (next_record v2 bs p.offset)

-- `set_len`.
unfoldable pub truncate : SegmentPath → ℕ → Files → Files
truncate p n [] = []
truncate p n ((q, bs) ∷ fs) =
    let rest = truncate p n fs in if same_path q p then (q, take n bs) ∷ fs else (q, bs) ∷ rest

abbrev pub or_zero : Option ℕ → ℕ
or_zero none = 0
or_zero (some n) = n

-- Behind the loop: the torn tail goes and the segment is pushed.
unfoldable pub finish_file : SegmentPath → Bytes → GroupStore → Progress → GroupStore
finish_file path bs s p = record s {
  segments =
      s.segments
      ++ (record {
        path = path;
        first_seq = or_zero p.first_seq;
        newest_ms = p.newest_ms;
        bytes = p.offset;
        v2 = path.v2;
      }
          ∷ []);
  index = p.index;
  max_seq = p.max_seq;
  files = if ltb p.offset (length bs) then truncate path p.offset s.files else s.files;
}

abbrev pub start_file : GroupStore → Progress
start_file s = record {
  offset = 0;
  first_seq = none;
  newest_ms = 0;
  index = s.index;
  max_seq = s.max_seq;
}

unfoldable pub scan_file : GroupStore → SegmentPath → Bytes → GroupStore
scan_file s path bs =
    finish_file path bs s
      (scan_records (length bs + 1) path.v2 bs (length s.segments) (start_file s))

-- `for path in paths`; `File::open(..)?`.
unfoldable pub scan_paths : GroupStore → List SegmentPath → Stored GroupStore
unfolding scan_file
scan_paths s [] = ok s
scan_paths s (path ∷ paths) = elim (contents path s.files) [
  | none ↦ err not_found
  | some bs ↦ scan_paths (scan_file s path bs) paths
]

abbrev pub new_store : Files → ℕ → GroupStore
new_store files segment_target = record {
  segments = [];
  index = [];
  writer = none;
  pending = [];
  max_seq = none;
  segment_target = segment_target;
  files = files;
}

unfoldable pub open_with_segment_target : Files → ℕ → Stored GroupStore
unfolding scan_paths sort_paths
open_with_segment_target files segment_target =
    scan_paths (new_store files segment_target) (sort_paths files)

abbrev pub segment_target_bytes : ℕ
segment_target_bytes = 64 * 1024 * 1024

unfoldable pub open_store : Files → Stored GroupStore
open_store files = open_with_segment_target files segment_target_bytes
