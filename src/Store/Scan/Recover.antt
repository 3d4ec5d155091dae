-- ===== src/Store/Scan/Recover.antt =====
-- What `open` recovers from a file that `append` wrote, cut off anywhere in its last record.
use atmoq.Common.{
  ℕ, ◌+◌, ◌≡◌, ◌≢◌, refl, sym, ap, ◌∙◌, true, false, none, some, ok, List, [], ◌∷◌, ◌++◌,
  append_assoc, append-nil, ltb, ltb→le, Bool-cases, inl, inr, if◌then◌else◌, Bytes, length, drop,
  get_elem?, All, arith, length-append, take-append, drop-append, ◌==◌, ne→==, eq→==,
}
use atmoq.Store.{new_path, SegmentPath, Files, contents, get, GroupStore, read, read_group_at}
use atmoq.Store.Files.{same_path_self, get-insert}
use atmoq.Store.Codec.{Record, read_record, read_record-record_bytes}
use atmoq.Store.Keeps.{Trace-read}
use atmoq.Store.Scan.{
  Progress, advance, finish_file, start_file, scan_file, scan_paths, new_store, sort_paths,
  open_with_segment_target, next_record,
}
use atmoq.Store.Scan.Synced.{pushed, scan_paths_step, contents-truncate}
use atmoq.Store.Scan.Records.{
  bytes_of, all_bytes, advance_all, scan_records-advance_all, header_of, IsStored,
}

all_bytes-append : (rs qs : List Record) → all_bytes (rs ++ qs) ≡ all_bytes rs ++ all_bytes qs
all_bytes-append [] qs = refl
all_bytes-append (r ∷ rs) qs =
    ap (λ (t : Bytes). bytes_of r ++ t) (all_bytes-append rs qs)
    ∙ sym (append_assoc (bytes_of r) (all_bytes rs) (all_bytes qs))

advance_all-append :
    (segment : ℕ) (rs qs : List Record) (p : Progress)
    → advance_all segment (rs ++ qs) p ≡ advance_all segment qs (advance_all segment rs p)
advance_all-append segment [] qs p = refl
advance_all-append segment (r ∷ rs) qs p =
    advance_all-append segment rs qs (advance segment (header_of r) p)

advance_all-offset :
    (segment : ℕ) (rs : List Record) (p : Progress)
    → (advance_all segment rs p).offset ≡ p.offset + length (all_bytes rs)
advance_all-offset segment [] p = omega arith
advance_all-offset segment (r ∷ rs) p =
    advance_all-offset segment rs (advance segment (header_of r) p)
    ∙ unfold advance in omega (arith, length-append (bytes_of r) (all_bytes rs))

no_length : (xs : Bytes) → length xs ≡ 0 → xs ≡ []
no_length [] h = refl
no_length (x ∷ xs) h = absurd (omega (arith, h))

-- No record of the list has the sequence.
abbrev pub Lacks : ℕ → List Record → Type 0
Lacks seq = All (λ r. r.seq ≢ seq)

get-advance :
    (segment seq : ℕ) (r : Record) (p : Progress)
    → get seq (advance segment (header_of r) p).index ≡ (
        if r.seq == seq
        then some (record { segment = segment; offset = p.offset; created_ms = r.ms })
        else get seq p.index)
unfolding advance
get-advance segment seq r p = get-insert r.seq seq _ p.index

others_stay :
    (segment seq : ℕ) (rs : List Record) (p : Progress)
    → Lacks seq rs
    → get seq (advance_all segment rs p).index ≡ get seq p.index
others_stay segment seq [] p h = refl
others_stay segment seq (r ∷ rs) p (apart, h) =
    others_stay segment seq rs (advance segment (header_of r) p) h
    ∙ get-advance segment seq r p
    ∙ rw (ne→== r.seq seq apart) refl

indexed_at :
    (segment : ℕ) (before after : List Record) (r : Record) (p : Progress)
    → Lacks r.seq after
    → get r.seq (advance_all segment (before ++ (r ∷ after)) p).index
      ≡ some (record {
        segment = segment;
        offset = p.offset + length (all_bytes before);
        created_ms = r.ms;
      })
indexed_at segment before after r p h =
    let q = advance_all segment before p in
    ap (λ (x : Progress). get r.seq x.index) (advance_all-append segment before (r ∷ after) p)
    ∙ others_stay segment r.seq after (advance segment (header_of r) q) h
    ∙ get-advance segment r.seq r q
    ∙ rw (eq→== r.seq r.seq refl) (
        ap (λ n. some (record { segment = segment; offset = n; created_ms = r.ms }))
          (advance_all-offset segment before p))

module _ (stem target : ℕ) (rs : List Record) (torn : Bytes) (stored : All IsStored rs)
    (cut : next_record true torn 0 ≡ none) where
  abbrev path : SegmentPath
  path = new_path stem

  abbrev file : Bytes
  file = all_bytes rs ++ torn

  abbrev directory : Files
  directory = (path, file) ∷ []

  abbrev opening : GroupStore
  opening = new_store directory target

  abbrev recovered : GroupStore
  recovered = finish_file path file opening (advance_all 0 rs (start_file opening))

  there : contents path directory ≡ some file
  unfolding contents
  there = rw (same_path_self path) refl

  scanned_file : scan_file opening path file ≡ recovered
  unfolding scan_file
  scanned_file = ap (finish_file path file opening) (
      scan_records-advance_all rs (length file + 1) 0 file [] torn (start_file opening) refl refl
        (omega arith) stored cut)

  opens_recovered : open_with_segment_target directory target ≡ ok recovered
  unfolding open_with_segment_target scan_paths sort_paths
  opens_recovered = sym (scan_paths_step opening path [] file there) ∙ ap ok scanned_file

  segment_first :
      get_elem? recovered.segments 0 ≡ some (pushed path (advance_all 0 rs (start_file opening)))
  unfolding finish_file
  segment_first = refl

  index_all : recovered.index ≡ (advance_all 0 rs (start_file opening)).index
  unfolding finish_file
  index_all = refl

  offset_all : (advance_all 0 rs (start_file opening)).offset ≡ length (all_bytes rs)
  offset_all = advance_all-offset 0 rs (start_file opening) ∙ omega arith

  file_cut : contents path recovered.files ≡ some (all_bytes rs)
  unfolding finish_file
  file_cut = rw offset_all (elim (Bool-cases (ltb (length (all_bytes rs)) (length file))) [
    | inl e ↦ rw e (
        contents-truncate path path (length (all_bytes rs)) file directory there
        ∙ rw (same_path_self path) (ap some (take-append (all_bytes rs) torn)))
    | inr e ↦ rw e (there ∙ ap some (no_tail e))
  ])
    where
      no_tail : ltb (length (all_bytes rs)) (length file) ≡ false → file ≡ all_bytes rs
      no_tail e =
          let none_left : torn ≡ [] = no_length torn (
            omega (
              arith,
              length-append (all_bytes rs) torn,
              ltb→le (length (all_bytes rs)) (length file) e,
            )) in
          ap (λ (t : Bytes). all_bytes rs ++ t) none_left ∙ append-nil (all_bytes rs)

All-drop_front :
    (before after : List Record) (r : Record) → All IsStored (before ++ (r ∷ after)) → IsStored r
All-drop_front [] after r h = h.0
All-drop_front (x ∷ before) after r h = All-drop_front before after r h.1

record_at :
    (before after : List Record) (r : Record)
    → IsStored r
    → read_record true (drop (length (all_bytes before)) (all_bytes (before ++ (r ∷ after))))
      ≡ some r
record_at before after r h =
    ap (λ (t : Bytes). read_record true (drop (length (all_bytes before)) t))
      (all_bytes-append before (r ∷ after))
    ∙ ap (read_record true) (drop-append (all_bytes before) (bytes_of r ++ all_bytes after))
    ∙ read_record-record_bytes r.seq r.ms r.frames (all_bytes after) h.seq_u64 h.ms_u64 h.count_u32
        h.frames_u32

read_at :
    (path : SegmentPath) (fs : Files) (before after : List Record) (r : Record)
    → contents path fs ≡ some (all_bytes (before ++ (r ∷ after)))
    → IsStored r
    → read_group_at fs (record { path = path; offset = length (all_bytes before); v2 = true }) r.seq
      ≡ ok r.frames
unfolding read_group_at
read_at path fs before after r there h =
    rw (there, read_group_at) (rw (record_at before after r h) (rw (eq→== r.seq r.seq refl) refl))

-- A file of whole records, whose lengths fit, behind which a torn one may stand, as a crash during
-- `append` leaves it:
-- `open` succeeds, cuts the file to the whole records, and reads back the last group of every
-- sequence with the frames that were appended.
pub open-read :
    (stem target : ℕ) (before after : List Record) (r : Record) (torn : Bytes)
    → All IsStored (before ++ (r ∷ after))
    → Lacks r.seq after
    → next_record true torn 0 ≡ none
    → let path = new_path stem in
      let rs = before ++ (r ∷ after) in
      (s : GroupStore) × (open_with_segment_target ((path, all_bytes rs ++ torn) ∷ []) target
        ≡ ok s)
      × (contents path s.files ≡ some (all_bytes rs))
      × (read s r.seq ≡ ok (some r.frames))
open-read stem target before after r torn stored last cut =
    let rs = before ++ (r ∷ after) in
    let path = new_path stem in
    let s = recovered stem target rs torn stored cut in
    let start = start_file (opening stem target rs torn stored cut) in
    (
      s,
      opens_recovered stem target rs torn stored cut,
      file_cut stem target rs torn stored cut,
      Trace-read s r.seq r.frames (record {
        loc = record { segment = 0; offset = length (all_bytes before); created_ms = r.ms };
        seg = pushed path (advance_all 0 rs start);
        indexed =
            ap (get r.seq) (index_all stem target rs torn stored cut)
            ∙ indexed_at 0 before after r start last
            ∙ ap (λ n. some (record { segment = 0; offset = n; created_ms = r.ms })) (omega arith);
        there = segment_first stem target rs torn stored cut;
        got =
            read_at path s.files before after r (file_cut stem target rs torn stored cut)
              (All-drop_front before after r stored);
      }),
    )
