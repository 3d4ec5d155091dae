-- ===== src/Store/Indexed.antt =====
-- What `append` does to the index.
use atmoq.Common.{
  ℕ, ◌≡◌, refl, sym, none, some, Option, List, [], ◌∷◌, Bytes, Bool-cases, inl, inr, ltb, ◌==◌,
  ltb→lt, subst, ==→eq, arith, ◌≢◌, ap, ◌∙◌, ◌-◌, ◌++◌, min, suc, length, get_elem?, ne→==,
}
use atmoq.Store.{
  Location, Segment, Index, get, insert, GroupStore, Outcome, done, failed, SegmentPath,
  ensure_writer, append_record, append, oldest_seq, contents, update_last,
}
use atmoq.Store.Codec.{record_bytes}
use atmoq.Store.Files.{get-insert}
use atmoq.Store.Append.{
  IsReady, IsSynced, IsFresh, ensure_writer-IsReady, grown, after_last, after_file, after_location,
  offset_of_end,
}
use atmoq.Store.Keeps.{append_step}
use atmoq.Store.Order.{
  RisesIndex, IsOldest, RisesIndex-IsOldest, ensure_writer-index, append_by-RisesIndex,
}

-- What is lower, the oldest so far or a new sequence.
abbrev pub lower : Option ℕ → ℕ → ℕ
lower none seq = seq
lower (some k) seq = min k seq

oldest-insert :
    (seq : ℕ) (l : Location) (is : Index)
    → ◌≡◌ {A = Option ℕ}
        (elim (insert seq l is) [ [] ↦ none | i ∷ js ↦ some i.0 ])
        (some (lower (elim is as (λ _. Option ℕ) [ [] ↦ none | i ∷ js ↦ some i.0 ]) seq))
unfolding insert
oldest-insert seq l [] = refl
oldest-insert seq l ((j, m) ∷ is) = elim (Bool-cases (j == seq)) [
  | inl e ↦ rw e (ap some (omega (arith, ==→eq j seq e)))
  | inr e ↦ elim (Bool-cases (ltb seq j)) [
    | inl f ↦ rw (e, f) (ap some (omega (arith, ltb→lt seq j f)))
    | inr f ↦ rw (e, f) (ap some (ground (arith, f)))
  ]
]

-- Where `seq` stands: in the last segment, whose file has its record behind the offset.
pub record IsLast (s : GroupStore) (seq ms : ℕ) (rec : Bytes) : Type 0 where
  pub seg : Segment
  pub before : Bytes
  pub last_segment : get_elem? s.segments (length s.segments - 1) ≡ some seg
  pub file : contents seg.path s.files ≡ some (before ++ rec)
  pub indexed :
      get seq s.index
      ≡ some (record { segment = length s.segments - 1; offset = length before; created_ms = ms })

-- What an append does to the index, seen at `seq`, at `other` and at the oldest.
abbrev pub IsIndexed : GroupStore → GroupStore → ℕ → ℕ → Bytes → ℕ → Outcome → Type 0
IsIndexed s s' seq ms rec other (failed landed kept) = s'.index ≡ s.index
IsIndexed s s' seq ms rec other done =
    IsLast s' seq ms rec
    × (get other s'.index ≡ get other s.index)
    × (oldest_seq s' ≡ some (lower (oldest_seq s) seq))

length-update_last :
    (f : Segment → Segment) (ss : List Segment) → length (update_last f ss) ≡ length ss
unfolding update_last
length-update_last f [] = refl
length-update_last f (x ∷ []) = refl
length-update_last f (x ∷ y ∷ ss) = ap suc (length-update_last f (y ∷ ss))

record-IsLast :
    (s : GroupStore) (p : SegmentPath) (r : IsReady s p) (seq ms : ℕ) (rec : Bytes)
    → IsLast (append_record s p seq ms rec done).0 seq ms rec
record-IsLast s p r seq ms rec =
    let same : length (append_record s p seq ms rec done).0.segments ≡ length s.segments =
      unfold append_record in length-update_last (grown (length rec) ms) s.segments in
    record {
      seg = grown (length rec) ms r.seg;
      before = r.file;
      last_segment = rw same (after_last s p r seq ms rec);
      file = rw r.path (after_file s p r seq ms rec);
      indexed =
          rw same (rw (sym (offset_of_end s p r seq ms rec)) (after_location s p r seq ms rec));
    }

record-IsIndexed :
    (s : GroupStore) (p : SegmentPath) (r : IsReady s p) (seq ms : ℕ) (rec : Bytes) (other : ℕ)
    (outcome : Outcome)
    → other ≢ seq
    → IsIndexed s (append_record s p seq ms rec outcome).0 seq ms rec other outcome
record-IsIndexed s p r seq ms rec other (failed landed kept) apart = unfold append_record in refl
record-IsIndexed s p r seq ms rec other done apart = (
  record-IsLast s p r seq ms rec,
  unfold append_record in rw get-insert (rw (ne→== seq other (λ e. apart (sym e)))),
  unfold append_record oldest_seq in oldest-insert seq _ s.index,
)

-- On a store whose table agrees with its files, where no file has the name that a new segment would
-- get, and whose index rises, an append that succeeds indexes the group at the offset of the last
-- segment's file where its record stands, leaves every other entry as it is, and `oldest_seq` is then
-- the lower of what it was and the new sequence; one that fails leaves the index as it is. Either way
-- the index rises, and `oldest_seq` is at or below every sequence in it.
pub append-IsIndexed :
    (s : GroupStore) (seq ms : ℕ) (frames : List Bytes) (outcome : Outcome) (other : ℕ)
    → IsSynced s
    → IsFresh s seq
    → RisesIndex s.index
    → other ≢ seq
    → let s' = (append s seq ms frames outcome).0 in
      IsIndexed s s' seq ms (record_bytes seq ms frames) other outcome
      × RisesIndex s'.index
      × IsOldest s'
append-IsIndexed s seq ms frames outcome other i fresh rises apart =
    let (p, r) = ensure_writer-IsReady s seq i fresh in
    let s1 = ensure_writer s seq in
    let rec = record_bytes seq ms frames in
    let same = ensure_writer-index s seq in
    let rises' =
      append_by-RisesIndex s1 (some p) seq ms rec outcome (subst RisesIndex (sym same) rises) in
    rw (append_step s seq ms frames outcome p r.writes) (
      moved s1 (append_record s1 p seq ms rec outcome).0 outcome same
          (record-IsIndexed s1 p r seq ms rec other outcome apart),
      rises',
      RisesIndex-IsOldest _ rises',
    )
  where
    moved :
        (s1 s' : GroupStore) (o : Outcome)
        → s1.index ≡ s.index
        → IsIndexed s1 s' seq ms (record_bytes seq ms frames) other o
        → IsIndexed s s' seq ms (record_bytes seq ms frames) other o
    moved s1 s' (failed landed kept) e h = h ∙ e
    moved s1 s' done e (last, rest, oldest) =
        (last, rest ∙ ap (get other) e, oldest ∙ ap (λ (o : Option ℕ). some (lower o seq)) (old e))
      where
        old : s1.index ≡ s.index → oldest_seq s1 ≡ oldest_seq s
        old e =
            unfold oldest_seq in
            ap (λ (x : Index). elim x as (λ _. Option ℕ) [ [] ↦ none | i ∷ js ↦ some i.0 ]) e
