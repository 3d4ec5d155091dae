-- ===== src/Store/Keeps.antt =====
-- What stays readable while the store grows, and what `append` promises.
use atmoq.Common.{
  ℕ, zero, suc, ◌^◌, ◌<◌, ◌≡◌, ◌≢◌, refl, sym, ap, ◌∙◌, Bool, true, Option, none, some, inl, inr,
  List, [], ◌∷◌, ◌++◌, append_assoc, append-nil, ok, ◌>>=◌, Bool-cases, Option-cases, eq→==, ne→==,
  Bytes, length, get_elem?, take, drop, All, get_elem?_more, drop_more, drop_past, >>=-eq-ok, arith,
}
use mathlib.Core.Option.{some-injective}
use native.Mathlib.Decide.{dec_le}
use atmoq.Store.Codec.{
  record_bytes, Record, read_record, FitsU32, read_record-record_bytes, read_record_more,
  read_record_end,
}
use atmoq.Store.{
  SegmentPath, Location, Segment, GroupLocation, Files, contents, get, GroupStore, Outcome, done,
  failed, Stored, last?, update_last, must_rotate, new_path, new_segment, flushed, rotate, reopen,
  ensure_writer, append_record, append, append_by, locate, check_record, read_group_at, read,
}
use atmoq.Store.Files.{contents_grow, get-insert}
use atmoq.Store.Append.{IsSynced, IsFresh, ensure_writer-IsReady, read_back, after-IsSynced, grown}

-- `t` has the segments of `s` in the same places, and its files have grown.
record Extends (s t : GroupStore) : Type 0 where
  segment_kept :
      (i : ℕ) (seg : Segment)
      → get_elem? s.segments i ≡ some seg
      → (seg' : Segment) × (get_elem? t.segments i ≡ some seg')
        × (seg'.path ≡ seg.path)
        × (seg'.v2 ≡ seg.v2)
  file_kept :
      (q : SegmentPath) (bs : Bytes)
      → contents q s.files ≡ some bs
      → (more : Bytes) × (contents q t.files ≡ some (bs ++ more))

Extends-refl : (s : GroupStore) → Extends s s
Extends-refl s = record {
  segment_kept = λ i seg h. (seg, h, refl, refl);
  file_kept = λ q bs h. ([], h ∙ ap some (sym (append-nil bs)));
}

check_record_ok :
    (seq : ℕ) (o : Option Record) (fs : List Bytes)
    → check_record seq o ≡ ok fs
    → (x : Record) × (o ≡ some x)
check_record_ok seq none fs h = cc
check_record_ok seq (some x) fs h = (x, refl)

read_drop_more :
    (v2 : Bool) (o : ℕ) (bs more : Bytes) (x : Record)
    → read_record v2 (drop o bs) ≡ some x
    → read_record v2 (drop o (bs ++ more)) ≡ some x
read_drop_more v2 o bs more x h = elim (dec_le o (length bs)) [
  | yes le ↦ rw (drop_more o bs more le) (read_record_more v2 (drop o bs) more x h)
  | no gt ↦ absurd (read_record_end v2 x (rw (drop_past o bs (omega arith)) at h))
]

read_group_at_grow :
    (fs fs' : Files) (loc : GroupLocation) (seq : ℕ) (frames : List Bytes)
    → ((q : SegmentPath) (bs : Bytes)
        → contents q fs ≡ some bs
        → (more : Bytes) × (contents q fs' ≡ some (bs ++ more)))
    → read_group_at fs loc seq ≡ ok frames
    → read_group_at fs' loc seq ≡ ok frames
unfolding read_group_at
read_group_at_grow fs fs' loc seq frames grow h = elim (Option-cases (contents loc.path fs)) [
  | inl n ↦ cc (rw (n, read_group_at) at h)
  | inr (bs, c) ↦
      let (more, c') = grow loc.path bs c in
      let h' = rw (c, read_group_at) at h in
      let (x, e) = check_record_ok seq (read_record loc.v2 (drop loc.offset bs)) frames h' in
      rw (c', read_group_at) (rw (read_drop_more loc.v2 loc.offset bs more x e) (rw e at h'))
]

-- What a successful read went through.
pub record Trace (s : GroupStore) (seq : ℕ) (frames : List Bytes) : Type 0 where
  pub loc : Location
  pub seg : Segment
  pub indexed : get seq s.index ≡ some loc
  pub there : get_elem? s.segments loc.segment ≡ some seg
  pub got :
      read_group_at s.files (record { path = seg.path; offset = loc.offset; v2 = seg.v2 }) seq
      ≡ ok frames

pub read-Trace :
    (s : GroupStore) (seq : ℕ) (frames : List Bytes)
    → read s seq ≡ ok (some frames)
    → Trace s seq frames
unfolding read locate
read-Trace s seq frames h = elim (Option-cases (get seq s.index)) [
  | inl n ↦ cc (rw (n, read, locate) at h)
  | inr (loc, g) ↦ elim (Option-cases (get_elem? s.segments loc.segment)) [
    | inl n ↦ cc (rw (n, locate) at (rw (g, read, locate) at h))
    | inr (seg, t) ↦
        let h' = rw (t, locate) at (rw (g, read, locate) at h) in
        let (fs, e, q) = >>=-eq-ok (read_group_at s.files _ seq) _ h' in
        record { loc = loc; seg = seg; indexed = g; there = t; got = e ∙ same fs q }
  ]
]
  where
    same :
        (fs : List Bytes)
        → ◌≡◌ {A = Stored (Option (List Bytes))} (ok (some fs)) (ok (some frames))
        → ◌≡◌ {A = Stored (List Bytes)} (ok fs) (ok frames)
    same fs q = cc

pub Trace-read :
    (s : GroupStore) (seq : ℕ) (frames : List Bytes)
    → Trace s seq frames
    → read s seq ≡ ok (some frames)
unfolding read locate
Trace-read s seq frames t = rw (t.indexed, read, locate) (rw (t.there, locate) (rw t.got))

Trace-Extends :
    (s t : GroupStore) (seq : ℕ) (frames : List Bytes)
    → Extends s t
    → get seq t.index ≡ get seq s.index
    → Trace s seq frames
    → Trace t seq frames
Trace-Extends s t seq frames x same tr =
    let (seg', there, path, v2) = x.segment_kept tr.loc.segment tr.seg tr.there in
    record {
      loc = tr.loc;
      seg = seg';
      indexed = same ∙ tr.indexed;
      there = there;
      got = rw (path, v2) (read_group_at_grow s.files t.files _ seq frames x.file_kept tr.got);
    }

get_elem?-update_last :
    (f : Segment → Segment) (ss : List Segment) (i : ℕ) (seg : Segment)
    → ((x : Segment) → ((f x).path ≡ x.path) × ((f x).v2 ≡ x.v2))
    → get_elem? ss i ≡ some seg
    → (seg' : Segment) × (get_elem? (update_last f ss) i ≡ some seg')
      × (seg'.path ≡ seg.path)
      × (seg'.v2 ≡ seg.v2)
unfolding update_last
get_elem?-update_last f [] i seg keep h = cc
get_elem?-update_last f (x ∷ []) zero seg keep h =
    let same : x ≡ seg = some-injective _ _ h in
    (
      f x,
      refl,
      (keep x).0 ∙ ap (λ (y : Segment). y.path) same,
      (keep x).1 ∙ ap (λ (y : Segment). y.v2) same,
    )
get_elem?-update_last f (x ∷ []) (suc i) seg keep h = cc
get_elem?-update_last f (x ∷ y ∷ ss) zero seg keep h =
    let same : x ≡ seg = some-injective _ _ h in
    (x, refl, ap (λ (z : Segment). z.path) same, ap (λ (z : Segment). z.v2) same)
get_elem?-update_last f (x ∷ y ∷ ss) (suc i) seg keep h =
    get_elem?-update_last f (y ∷ ss) i seg keep h

flushed_grow :
    (w : Option SegmentPath) (pending : Bytes) (fs : Files) (q : SegmentPath) (bs : Bytes)
    → contents q fs ≡ some bs
    → (more : Bytes) × (contents q (flushed w pending fs) ≡ some (bs ++ more))
flushed_grow none pending fs q bs h = ([], h ∙ ap some (sym (append-nil bs)))
flushed_grow (some p) pending fs q bs h = contents_grow q p pending bs fs h

rotate-Extends : (s : GroupStore) (seq : ℕ) → Extends s (rotate s seq)
unfolding rotate
rotate-Extends s seq = record {
  segment_kept =
      λ i seg h. (seg, get_elem?_more s.segments (new_segment seq ∷ []) i seg h, refl, refl);
  file_kept = λ q bs h.
      let (m1, e1) = flushed_grow s.writer s.pending s.files q bs h in
      let (m2, e2) =
        contents_grow q (new_path seq) [] (bs ++ m1) (flushed s.writer s.pending s.files) e1 in
      (m1 ++ m2, e2 ∙ ap some (append_assoc bs m1 m2));
}

reopen-Extends :
    (s : GroupStore) (w : Option SegmentPath) (o : Option Segment) → Extends s (reopen s w o)
reopen-Extends s (some p) o = Extends-refl s
reopen-Extends s none none = Extends-refl s
reopen-Extends s none (some seg) = record {
  segment_kept = λ i x h. (x, h, refl, refl);
  file_kept = λ q bs h. ([], h ∙ ap some (sym (append-nil bs)));
}

reopen-index :
    (s : GroupStore) (w : Option SegmentPath) (o : Option Segment) → (reopen s w o).index ≡ s.index
reopen-index s (some p) o = refl
reopen-index s none none = refl
reopen-index s none (some seg) = refl

ensure_writer-Extends :
    (s : GroupStore) (seq : ℕ)
    → Extends s (ensure_writer s seq) × ((ensure_writer s seq).index ≡ s.index)
unfolding ensure_writer
ensure_writer-Extends s seq = elim (Bool-cases (must_rotate s.segment_target (last? s.segments))) [
  | inl t ↦ rw t (rotate-Extends s seq, unfold rotate in refl)
  | inr t ↦
      rw t
        (reopen-Extends s s.writer (last? s.segments), reopen-index s s.writer (last? s.segments))
]

after-Extends :
    (s : GroupStore) (p : SegmentPath) (seq ms : ℕ) (rec : Bytes) (o : Outcome)
    → Extends s (append_record s p seq ms rec o).0
unfolding append_record
after-Extends s p seq ms rec (failed landed kept) = record {
  segment_kept = λ i seg h. (seg, h, refl, refl);
  file_kept = λ q bs h. contents_grow q p (take landed (s.pending ++ rec)) bs s.files h;
}
after-Extends s p seq ms rec done = record {
  segment_kept = λ i seg h.
      get_elem?-update_last (grown (length rec) ms) s.segments i seg (λ x. (refl, refl)) h;
  file_kept = λ q bs h. contents_grow q p (s.pending ++ rec) bs s.files h;
}

pub append_step :
    (s : GroupStore) (seq ms : ℕ) (frames : List Bytes) (o : Outcome) (p : SegmentPath)
    → (ensure_writer s seq).writer ≡ some p
    → append s seq ms frames o
      ≡ append_record (ensure_writer s seq) p seq ms (record_bytes seq ms frames) o
unfolding append
append_step s seq ms frames o p e =
    ap (λ w. append_by (ensure_writer s seq) w seq ms (record_bytes seq ms frames) o) e

-- The numbers of a group fit the fields of its record.
pub record Fits (seq ms : ℕ) (frames : List Bytes) : Type 0 where
  pub seq_u64 : seq < 2 ^ 64
  pub ms_u64 : ms < 2 ^ 64
  pub count_u32 : length frames < 2 ^ 32
  pub frames_u32 : All FitsU32 frames

pub record_read :
    (seq ms : ℕ) (frames : List Bytes)
    → Fits seq ms frames
    → (check_record seq (read_record true (record_bytes seq ms frames)) >>= λ fs. ok (some fs))
      ≡ ok (some frames)
record_read seq ms frames f =
    let whole =
      ap (read_record true) (sym (append-nil (record_bytes seq ms frames)))
      ∙ read_record-record_bytes seq ms frames [] f.seq_u64 f.ms_u64 f.count_u32 f.frames_u32 in
    rw whole (rw (eq→== seq seq refl))

-- On a store whose table agrees with its files, where no file has the name that a new segment
-- would get, an append whose write reaches the disk succeeds; the group is then read back frame by
-- frame, and the table agrees with the files again.
pub append-read :
    (s : GroupStore) (seq ms : ℕ) (frames : List Bytes)
    → IsSynced s
    → IsFresh s seq
    → Fits seq ms frames
    → let (s', result) = append s seq ms frames done in
      (result ≡ ok tt) × (read s' seq ≡ ok (some frames)) × IsSynced s'
append-read s seq ms frames i fresh f =
    let (p, r) = ensure_writer-IsReady s seq i fresh in
    let s1 = ensure_writer s seq in
    let rec = record_bytes seq ms frames in
    rw (append_step s seq ms frames done p r.writes) (
      unfold append_record in refl,
      read_back s1 p r seq ms rec ∙ record_read seq ms frames f,
      after-IsSynced s1 p r seq ms rec,
    )

-- On such a store every other group that could be read before an append is read after it with the
-- same frames, whether the append succeeds or fails, and however much a failed one left in the file.
pub append_keeps :
    (s : GroupStore) (seq ms : ℕ) (frames : List Bytes) (outcome : Outcome) (other : ℕ)
    (old : List Bytes)
    → IsSynced s
    → IsFresh s seq
    → other ≢ seq
    → read s other ≡ ok (some old)
    → read (append s seq ms frames outcome).0 other ≡ ok (some old)
append_keeps s seq ms frames outcome other old i fresh apart h =
    let (p, r) = ensure_writer-IsReady s seq i fresh in
    let s1 = ensure_writer s seq in
    let rec = record_bytes seq ms frames in
    let (x, same) = ensure_writer-Extends s seq in
    let t1 = Trace-Extends s s1 other old x (ap (get other) same) (read-Trace s other old h) in
    rw (append_step s seq ms frames outcome p r.writes) (
      Trace-read (append_record s1 p seq ms rec outcome).0 other old (
        Trace-Extends s1 (append_record s1 p seq ms rec outcome).0 other old
          (after-Extends s1 p seq ms rec outcome) (index_kept s1 p rec outcome) t1))
  where
    index_kept :
        (s1 : GroupStore) (p : SegmentPath) (rec : Bytes) (o : Outcome)
        → get other (append_record s1 p seq ms rec o).0.index ≡ get other s1.index
    index_kept s1 p rec (failed landed kept) = unfold append_record in refl
    index_kept s1 p rec done =
        unfold append_record in rw get-insert (rw (ne→== seq other (λ e. apart (sym e))))
