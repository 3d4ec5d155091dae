-- ===== src/Store/Append.antt =====
-- `append`: a group that was written is read back, and the groups that were there stay readable.
use atmoq.Common.{
  ℕ, ◌+◌, ◌-◌, ◌≡◌, refl, sym, ap, subst, ◌∙◌, true, false, Option, none, some, inl, inr, List, [],
  ◌∷◌, ◌++◌, ok, ◌>>=◌, Bool-cases, Option-cases, eq→==, Bytes, length, get_elem?, length-append,
  get_elem?-append, drop-append, arith,
}
use mathlib.Core.Option.{some-injective}
use atmoq.Store.Codec.{read_record}
use atmoq.Store.{
  SegmentPath, Segment, contents, get, GroupStore, done, last?, update_last, must_rotate, new_path,
  new_segment, flushed, rotate, reopen, ensure_writer, append_record, locate, check_record,
  read_group_at, read, last_bytes,
}
use atmoq.Store.Files.{
  contents-append_to, contents-append_to_new, get-insert, last?-append, last_bytes-append,
  update_last-append, last-split,
}

-- What `append_record` finds behind `ensure_writer`: the writer `p` is at the end of the last
-- segment's file, which holds as many bytes as the segment table says.
pub record IsReady (s : GroupStore) (p : SegmentPath) : Type 0 where
  pub front : List Segment
  pub seg : Segment
  pub file : Bytes
  pub writes : s.writer ≡ some p
  pub idle : s.pending ≡ []
  pub shape : s.segments ≡ front ++ (seg ∷ [])
  pub path : seg.path ≡ p
  pub v2 : seg.v2 ≡ true
  pub there : contents p s.files ≡ some file
  pub counted : length file ≡ seg.bytes

-- Between calls: the last segment's file is as long as the table says, and what the writer has is
-- written.
pub record IsSynced (s : GroupStore) : Type 0 where
  pub idle : s.pending ≡ []
  pub last_file :
      (seg : Segment)
      → last? s.segments ≡ some seg
      → (file : Bytes) × (contents seg.path s.files ≡ some file) × (length file ≡ seg.bytes)
  pub last_writer :
      (seg : Segment) (p : SegmentPath)
      → last? s.segments ≡ some seg
      → s.writer ≡ some p
      → p ≡ seg.path

rotate-IsReady :
    (s : GroupStore) (seq : ℕ)
    → s.pending ≡ []
    → contents (new_path seq) (flushed s.writer s.pending s.files) ≡ none
    → IsReady (rotate s seq) (new_path seq)
unfolding rotate
rotate-IsReady s seq idle fresh = record {
  front = s.segments;
  seg = new_segment seq;
  file = [];
  writes = refl;
  idle = refl;
  shape = refl;
  path = refl;
  v2 = refl;
  there = contents-append_to_new (new_path seq) [] (flushed s.writer s.pending s.files) fresh;
  counted = refl;
}

reopen-IsReady :
    (s : GroupStore) (seg : Segment)
    → IsSynced s
    → last? s.segments ≡ some seg
    → seg.v2 ≡ true
    → (w : Option SegmentPath) → s.writer ≡ w
    → IsReady (reopen s w (some seg)) seg.path
reopen-IsReady s seg i l v2 none e =
    let (front, shape) = last-split s.segments seg l in
    let (file, there, counted) = i.last_file seg l in
    record {
      front = front;
      seg = seg;
      file = file;
      writes = refl;
      idle = refl;
      shape = shape;
      path = refl;
      v2 = v2;
      there = there;
      counted = counted;
    }
reopen-IsReady s seg i l v2 (some p) e =
    let (front, shape) = last-split s.segments seg l in
    let (file, there, counted) = i.last_file seg l in
    record {
      front = front;
      seg = seg;
      file = file;
      writes = e ∙ ap some (i.last_writer seg p l e);
      idle = i.idle;
      shape = shape;
      path = refl;
      v2 = v2;
      there = there;
      counted = counted;
    }

-- The name of a segment that `seq` would begin is not taken.
abbrev pub IsFresh : GroupStore → ℕ → Type 0
IsFresh s seq = contents (new_path seq) (flushed s.writer s.pending s.files) ≡ none

pub ensure_writer-IsReady :
    (s : GroupStore) (seq : ℕ)
    → IsSynced s
    → IsFresh s seq
    → (p : SegmentPath) × IsReady (ensure_writer s seq) p
unfolding ensure_writer
ensure_writer-IsReady s seq i fresh = elim (Option-cases (last? s.segments)) [
  | inl n ↦ rw n (new_path seq, rotate-IsReady s seq i.idle fresh)
  | inr (seg, l) ↦ elim (Bool-cases (must_rotate s.segment_target (some seg))) [
    | inl t ↦ rw l (rw t (new_path seq, rotate-IsReady s seq i.idle fresh))
    | inr t ↦
        rw l
          (rw t (seg.path, reopen-IsReady s seg i l (stays s.segment_target seg t) s.writer refl))
  ]
]
  where
    stays : (target : ℕ) (seg : Segment) → must_rotate target (some seg) ≡ false → seg.v2 ≡ true
    stays target seg t = ground arith

abbrev pub grown : ℕ → ℕ → Segment → Segment
grown more ms seg = record seg { bytes = seg.bytes + more; newest_ms = ms }

-- The state after a write that reached the file.
module _ (s : GroupStore) (p : SegmentPath) (r : IsReady s p) (seq ms : ℕ) (rec : Bytes) where
  abbrev pub after : GroupStore
  after = (append_record s p seq ms rec done).0

  pub after_segments : after.segments ≡ r.front ++ (grown (length rec) ms r.seg ∷ [])
  unfolding append_record
  after_segments =
      ap (update_last (grown (length rec) ms)) r.shape
      ∙ update_last-append (grown (length rec) ms) r.front r.seg

  pub after_last :
      get_elem? after.segments (length s.segments - 1) ≡ some (grown (length rec) ms r.seg)
  after_last = rw after_segments (
      ap (get_elem? (r.front ++ (grown (length rec) ms r.seg ∷ []))) {y = length r.front}
        (omega (arith, ap length r.shape, length-append r.front (r.seg ∷ [])))
      ∙ get_elem?-append r.front [] (grown (length rec) ms r.seg))

  pub after_file : contents p after.files ≡ some (r.file ++ rec)
  unfolding append_record
  after_file = rw r.idle (contents-append_to p rec r.file s.files r.there)

  pub after_location :
      get seq after.index
      ≡ some (record {
        segment = length s.segments - 1;
        offset = last_bytes s.segments;
        created_ms = ms;
      })
  unfolding append_record
  after_location = rw get-insert (rw (eq→== seq seq refl))

  pub offset_of_end : last_bytes s.segments ≡ length r.file
  offset_of_end = ap last_bytes r.shape ∙ last_bytes-append r.front r.seg ∙ sym r.counted

  pub read_back : read after seq ≡ (check_record seq (read_record true rec) >>= λ fs. ok (some fs))
  unfolding read locate read_group_at
  read_back =
      rw (after_location, read, locate)
        (rw (after_last, locate)
          (rw (r.path, after_file, read_group_at)
            (rw offset_of_end (rw (drop-append r.file rec, r.v2)))))

  after_last? : last? after.segments ≡ some (grown (length rec) ms r.seg)
  after_last? = ap last? after_segments ∙ last?-append r.front (grown (length rec) ms r.seg)

  after_writer : after.writer ≡ some p
  unfolding append_record
  after_writer = r.writes

  pub after-IsSynced : IsSynced after
  unfolding append_record
  after-IsSynced = record {
    idle = refl;
    last_file = λ seg l.
        let same : grown (length rec) ms r.seg ≡ seg = some-injective _ _ (sym after_last? ∙ l) in
        subst
          (λ (x : Segment).
            (file : Bytes) × (contents x.path after.files ≡ some file) × (length file ≡ x.bytes))
          same
          (r.file ++ rec, rw r.path after_file, omega (arith, length-append r.file rec, r.counted));
    last_writer = λ seg q l w.
        let same : grown (length rec) ms r.seg ≡ seg = some-injective _ _ (sym after_last? ∙ l) in
        some-injective _ _ (sym w ∙ after_writer) ∙ sym r.path ∙ ap (λ (x : Segment). x.path) same;
  }
