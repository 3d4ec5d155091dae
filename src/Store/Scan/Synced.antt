-- ===== src/Store/Scan/Synced.antt =====
-- A store that `open` gives is ready for appends: every file was there, and the torn tails are gone.
use atmoq.Common.{
  ℕ, ◌+◌, ◌≤◌, ◌≡◌, refl, sym, ap, subst, ◌∙◌, true, false, none, some, ok, List, [], ◌∷◌, ltb, leb,
  Bool-cases, inl, inr, ltb→le, if◌then◌else◌, Bytes, length, take, All, arith, length-take,
}
use mathlib.Core.Option.{none-ne-some, some-injective}
use atmoq.Store.{SegmentPath, same_path, Segment, Files, contents, GroupStore, last?, Stored}
use atmoq.Store.Files.{same_path_self, same_path→eq, last?-append}
use atmoq.Store.Append.{IsSynced}
use atmoq.Store.Scan.{
  insert_path, sort_paths, Progress, or_zero, truncate, finish_file, scan_records, start_file,
  scan_file, scan_paths, new_store, open_with_segment_target,
}
use atmoq.Store.Scan.Total.{IsOver, scan_records-IsOver}

other_path : (q p : SegmentPath) → same_path p q ≡ false → same_path q p ≡ false
other_path q p h = ground arith

-- What `contents` of a path is after a truncation of another path or of the same.
pub contents-truncate :
    (p q : SegmentPath) (n : ℕ) (bs : Bytes) (fs : Files)
    → contents q fs ≡ some bs
    → contents q (truncate p n fs) ≡ some (if same_path q p then take n bs else bs)
unfolding contents truncate
contents-truncate p q n bs [] h = absurd (none-ne-some bs h)
contents-truncate p q n bs ((r, cs) ∷ fs) h = elim (Bool-cases (same_path r p)) [
  | inl e ↦ elim (Bool-cases (same_path r q)) [
    | inl f ↦
        let same : cs ≡ bs = some-injective cs bs (rw f at h) in
        let alike : same_path q p ≡ true =
          subst (λ x. same_path x p ≡ true) (same_path→eq r q f) e in
        rw (e, f, alike) (ap (λ (t : Bytes). some (take n t)) same)
    | inr f ↦
        let apart : same_path q p ≡ false =
          other_path q p (subst (λ x. same_path x q ≡ false) (same_path→eq r p e) f) in
        rw (e, f, apart) (rw f at h)
  ]
  | inr e ↦ elim (Bool-cases (same_path r q)) [
    | inl f ↦
        let same : cs ≡ bs = some-injective cs bs (rw f at h) in
        let apart : same_path q p ≡ false =
          subst (λ x. same_path x p ≡ false) (same_path→eq r q f) e in
        rw (e, f, apart) (ap some same)
    | inr f ↦ rw (e, f) (contents-truncate p q n bs fs (rw f at h))
  ]
]

abbrev IsThere : Files → SegmentPath → Type 0
IsThere fs p = (bs : Bytes) × (contents p fs ≡ some bs)

scanned : GroupStore → SegmentPath → Bytes → Progress
scanned s p bs = scan_records (length bs + 1) p.v2 bs (length s.segments) (start_file s)

scanned-IsOver : (s : GroupStore) (p : SegmentPath) (bs : Bytes) → IsOver p.v2 bs (scanned s p bs)
unfolding scanned
scanned-IsOver s p bs =
    scan_records-IsOver (length bs + 1) p.v2 bs (length s.segments) (start_file s) (omega arith)
      (omega arith)

-- The file of the new segment is as long as the segment says.
finished_file :
    (s : GroupStore) (path : SegmentPath) (bs : Bytes) (p : Progress)
    → contents path s.files ≡ some bs
    → p.offset ≤ length bs
    → (file : Bytes) × (contents path (finish_file path bs s p).files ≡ some file)
      × (length file ≡ p.offset)
unfolding finish_file
finished_file s path bs p h inside = elim (Bool-cases (ltb p.offset (length bs))) [
  | inl e ↦ (
    take p.offset bs,
    rw e (contents-truncate path path p.offset bs s.files h ∙ rw (same_path_self path) refl),
    length-take p.offset bs inside,
  )
  | inr e ↦ (bs, rw e h, omega (arith, inside, ltb→le p.offset (length bs) e))
]

finished_others :
    (s : GroupStore) (path : SegmentPath) (bs : Bytes) (p : Progress) (q : SegmentPath)
    → IsThere s.files q
    → IsThere (finish_file path bs s p).files q
unfolding finish_file
finished_others s path bs p q (cs, h) = elim (Bool-cases (ltb p.offset (length bs))) [
  | inl e ↦ rw e (_, contents-truncate path q p.offset cs s.files h)
  | inr e ↦ rw e (cs, h)
]

abbrev pub pushed : SegmentPath → Progress → Segment
pushed path p = record {
  path = path;
  first_seq = or_zero p.first_seq;
  newest_ms = p.newest_ms;
  bytes = p.offset;
  v2 = path.v2;
}

finished_last :
    (s : GroupStore) (path : SegmentPath) (bs : Bytes) (p : Progress)
    → last? (finish_file path bs s p).segments ≡ some (pushed path p)
unfolding finish_file
finished_last s path bs p = last?-append s.segments (pushed path p)

finished-IsSynced :
    (s : GroupStore) (path : SegmentPath) (bs : Bytes) (p : Progress)
    → s.pending ≡ []
    → s.writer ≡ none
    → contents path s.files ≡ some bs
    → p.offset ≤ length bs
    → IsSynced (finish_file path bs s p)
finished-IsSynced s path bs p idle closed h inside = record {
  idle = unfold finish_file in idle;
  last_file = λ seg e.
      let same = some-injective (pushed path p) seg (sym (finished_last s path bs p) ∙ e) in
      subst
        (λ (x : Segment).
          (file : Bytes) × (contents x.path (finish_file path bs s p).files ≡ some file)
          × (length file ≡ x.bytes))
        same (finished_file s path bs p h inside);
  last_writer = λ seg q e w. absurd (none-ne-some q (sym closed ∙ unfold finish_file in w));
}

abbrev AreThere : Files → List SegmentPath → Type 0
AreThere fs = All (IsThere fs)

all_stay :
    (s : GroupStore) (path : SegmentPath) (bs : Bytes) (p : Progress) (qs : List SegmentPath)
    → AreThere s.files qs
    → AreThere (finish_file path bs s p).files qs
all_stay s path bs p [] h = tt
all_stay s path bs p (q ∷ qs) h = (finished_others s path bs p q h.0, all_stay s path bs p qs h.1)

-- What the loop over the paths keeps.
record IsOpening (s : GroupStore) : Type 0 where
  synced : IsSynced s
  closed : s.writer ≡ none

scan_file-IsOpening :
    (s : GroupStore) (path : SegmentPath) (bs : Bytes)
    → IsOpening s
    → contents path s.files ≡ some bs
    → IsOpening (scan_file s path bs)
unfolding scan_file scanned
scan_file-IsOpening s path bs i h =
    let over = scanned-IsOver s path bs in
    record {
      synced = finished-IsSynced s path bs (scanned s path bs) i.synced.idle i.closed h over.inside;
      closed = unfold finish_file in i.closed;
    }

abbrev Opens : Stored GroupStore → Type 0
Opens r = (s : GroupStore) × (r ≡ ok s) × IsSynced s

pub scan_paths_step :
    (s : GroupStore) (path : SegmentPath) (paths : List SegmentPath) (bs : Bytes)
    → contents path s.files ≡ some bs
    → scan_paths (scan_file s path bs) paths ≡ scan_paths s (path ∷ paths)
unfolding scan_paths
scan_paths_step s path paths bs e = sym (rw (e, scan_paths) refl)

scan_paths-Opens :
    (s : GroupStore) (paths : List SegmentPath)
    → IsOpening s
    → AreThere s.files paths
    → Opens (scan_paths s paths)
unfolding scan_paths
scan_paths-Opens s [] i h = (s, refl, i.synced)
scan_paths-Opens s (path ∷ paths) i ((bs, e), h) = subst Opens (scan_paths_step s path paths bs e) (
    scan_paths-Opens (scan_file s path bs) paths (scan_file-IsOpening s path bs i e)
      (all_stay s path bs _ paths h))

insert_path-AreThere :
    (s : Files) (p : SegmentPath) (qs : List SegmentPath)
    → IsThere s p
    → AreThere s qs
    → AreThere s (insert_path p qs)
unfolding insert_path
insert_path-AreThere s p [] h hs = (h, tt)
insert_path-AreThere s p (q ∷ qs) h hs = elim (Bool-cases (leb p.stem q.stem)) [
  | inl e ↦ rw e (h, hs)
  | inr e ↦ rw e (hs.0, insert_path-AreThere s p qs h hs.1)
]

one_more_file :
    (p : SegmentPath) (bs : Bytes) (fs : Files) (qs : List SegmentPath)
    → AreThere fs qs
    → AreThere ((p, bs) ∷ fs) qs
unfolding contents
one_more_file p bs fs [] h = tt
one_more_file p bs fs (q ∷ qs) ((cs, e), h) = (
  elim (Bool-cases (same_path p q)) [ inl f ↦ (bs, rw f refl) | inr f ↦ (cs, rw f e) ],
  one_more_file p bs fs qs h,
)

-- Every path of the listing has a file.
listed : (fs : Files) → AreThere fs (sort_paths fs)
unfolding sort_paths contents
listed [] = tt
listed ((p, bs) ∷ fs) =
    insert_path-AreThere ((p, bs) ∷ fs) p (sort_paths fs) (bs, rw (same_path_self p) refl)
      (one_more_file p bs fs (sort_paths fs) (listed fs))

-- `open` succeeds on every directory of files, whatever their contents, and gives a store whose last
-- segment is as long as its file, so that the next append lands where the index says: the torn tail
-- of a crash is gone.
pub open_with_segment_target-IsSynced :
    (files : Files) (segment_target : ℕ)
    → (s : GroupStore) × (open_with_segment_target files segment_target ≡ ok s) × IsSynced s
unfolding open_with_segment_target
open_with_segment_target-IsSynced files segment_target =
    scan_paths-Opens (new_store files segment_target) (sort_paths files)
      (record { synced = fresh; closed = refl }) (listed files)
  where
    fresh : IsSynced (new_store files segment_target)
    fresh =
        unfold last? in
        record {
          idle = refl;
          last_file = λ seg e. absurd (none-ne-some seg e);
          last_writer = λ seg p e w. absurd (none-ne-some seg e);
        }
