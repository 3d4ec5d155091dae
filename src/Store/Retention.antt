-- ===== src/Store/Retention.antt =====
-- `gc`: what the index says of the groups that stay, and of those that go.
use atmoq.Common.{
  ℕ, zero, suc, ◌+◌, ◌-◌, ◌≤◌, ◌<◌, ◌≡◌, refl, sym, ap, subst, ◌∙◌, Bool, true, false, Option, none,
  some, ok, get_elem?, ◌⊎◌, inl, inr, List, [], ◌∷◌, if◌then◌else◌, ltb, ◌==◌, Bool-cases, ==→eq,
  arith,
}
use mathlib.Core.Option.{none-ne-some, some-injective}
use atmoq.Store.{
  Location, Segment, Files, Index, get, retain, shift_down, outside, sum_bytes, GroupStore, gc_loop,
  gc, locate, contents, SegmentPath, same_path, remove_file,
}
use atmoq.Store.Limits.{LoopResult, exceeds, onward, gc_loop-stops, gc_loop-goes}

abbrev shifted : ℕ → Location → Location
shifted n l = record l { segment = l.segment - n }

-- Segment `i` covers the sequence `seq`: it begins at or below, and the next one above.
unfoldable pub Covers : List Segment → ℕ → ℕ → Type 0
Covers [] i seq = ⊥
Covers (s ∷ []) zero seq = s.first_seq ≤ seq
Covers (s ∷ t ∷ ss) zero seq = (s.first_seq ≤ seq) × (seq < t.first_seq)
Covers (s ∷ ss) (suc i) seq = Covers ss i seq

abbrev pub Rises : List Segment → Type 0
Rises [] = Unit
Rises (s ∷ []) = Unit
Rises (s ∷ t ∷ ss) = (s.first_seq ≤ t.first_seq) × Rises (t ∷ ss)

-- Every entry of the index points to the segment that covers its sequence.
abbrev pub IsPlaced : List Segment → Index → Type 0
IsPlaced ss index = (seq : ℕ) (l : Location) → get seq index ≡ some l → Covers ss l.segment seq

Covers-le :
    (s : Segment) (ss : List Segment) (i seq : ℕ)
    → Rises (s ∷ ss)
    → Covers (s ∷ ss) i seq
    → s.first_seq ≤ seq
unfolding Covers
Covers-le s [] zero seq r c = c
Covers-le s [] (suc i) seq r c = absurd c
Covers-le s (t ∷ ss) zero seq r c = c.0
Covers-le s (t ∷ ss) (suc i) seq r c = omega (arith, r.0, Covers-le t ss i seq r.1 c)

abbrev move : ℕ → Option Location → Option Location
move n none = none
move n (some l) = some (shifted n l)

get-shift_down : (seq : ℕ) (is : Index) → get seq (shift_down is) ≡ move 1 (get seq is)
unfolding get shift_down
get-shift_down seq [] = refl
get-shift_down seq ((k, l) ∷ is) = ground (arith, get-shift_down seq is)

get-retain :
    (p : ℕ → Bool) (seq : ℕ) (is : Index)
    → get seq (retain p is) ≡ (if p seq then get seq is else none)
unfolding get retain
get-retain p seq [] = elim (Bool-cases (p seq)) [ inl e ↦ rw e refl | inr e ↦ rw e refl ]
get-retain p seq ((k, l) ∷ is) = elim (Bool-cases (k == seq)) [
  | inl e ↦ elim (Bool-cases (p k)) [
    | inl f ↦ rw (f, e, subst (λ x. p x ≡ true) (==→eq k seq e) f) refl
    | inr f ↦
        rw (f, subst (λ x. p x ≡ false) (==→eq k seq e) f)
          (get-retain p seq is ∙ rw (subst (λ x. p x ≡ false) (==→eq k seq e) f) refl)
  ]
  | inr e ↦ elim (Bool-cases (p k)) [
    | inl f ↦ rw (f, e) (get-retain p seq is)
    | inr f ↦ rw (f, e) (get-retain p seq is)
  ]
]

-- What is left of a location when the first `n` segments go.
abbrev pub survivor : ℕ → Option Location → Option Location
survivor n none = none
survivor n (some l) = if ltb l.segment n then none else some (shifted n l)

survivor_zero : (o : Option Location) → survivor 0 o ≡ o
survivor_zero none = refl
survivor_zero (some l) = ground arith

survivor-suc : (n : ℕ) (o : Option Location) → survivor n (survivor 1 o) ≡ survivor (suc n) o
survivor-suc n none = refl
survivor-suc n (some l) = ground arith

abbrev next_index : Segment → Segment → Index → Index
next_index seg next index = shift_down (retain (outside seg.first_seq next.first_seq) index)

get-next_index :
    (seg next : Segment) (seq : ℕ) (index : Index)
    → get seq (next_index seg next index)
      ≡ move 1 (if outside seg.first_seq next.first_seq seq then get seq index else none)
get-next_index seg next seq index =
    get-shift_down seq _ ∙ ap (move 1) (get-retain (outside seg.first_seq next.first_seq) seq index)

module _ (seg next : Segment) (others : List Segment) (r : Rises (seg ∷ next ∷ others)) where
  Covers-cases :
      (i seq : ℕ)
      → Covers (seg ∷ next ∷ others) i seq
      → ((i ≡ 0) × (outside seg.first_seq next.first_seq seq ≡ false))
        ⊎ ((1 ≤ i)
            × (outside seg.first_seq next.first_seq seq ≡ true)
            × Covers (next ∷ others) (i - 1) seq)
  unfolding Covers
  Covers-cases zero seq c = inl (refl, ground (arith, c.0, c.1))
  Covers-cases (suc i) seq c =
      let from = Covers-le next others i seq r.1 c in
      inr (
        omega arith,
        ground (arith, from),
        subst (λ x. Covers (next ∷ others) x seq) (omega arith) c,
      )

  round :
      (seq : ℕ) (o : Option Location)
      → ((l : Location) → o ≡ some l → Covers (seg ∷ next ∷ others) l.segment seq)
      → move 1 (if outside seg.first_seq next.first_seq seq then o else none) ≡ survivor 1 o
  round seq none placed = ground arith
  round seq (some l) placed = elim (Covers-cases l.segment seq (placed l refl)) [
    | inl (at, out) ↦ rw (out) (ground (arith, at))
    | inr (at, out, c) ↦ rw (out) (ground (arith, at))
  ]

  round-Covers :
      (seq : ℕ) (l : Location) (o : Option Location)
      → ((m : Location) → o ≡ some m → Covers (seg ∷ next ∷ others) m.segment seq)
      → survivor 1 o ≡ some l
      → Covers (next ∷ others) l.segment seq
  round-Covers seq l none placed e = absurd (none-ne-some l e)
  round-Covers seq l (some m) placed e = elim (Covers-cases m.segment seq (placed m refl)) [
    | inl (at, out) ↦ absurd (none-ne-some l (sym (ground (arith, at)) ∙ e))
    | inr (at, out, c) ↦
        subst (λ x. Covers (next ∷ others) x.segment seq)
          (some-injective (shifted 1 m) l (sym (ground (arith, at)) ∙ e)) c
  ]

  next-survivor :
      (seq : ℕ) (index : Index)
      → IsPlaced (seg ∷ next ∷ others) index
      → get seq (next_index seg next index) ≡ survivor 1 (get seq index)
  next-survivor seq index placed =
      get-next_index seg next seq index ∙ round seq (get seq index) (placed seq)

  next-IsPlaced :
      (index : Index)
      → IsPlaced (seg ∷ next ∷ others) index
      → IsPlaced (next ∷ others) (next_index seg next index)
  next-IsPlaced index placed seq l e =
      round-Covers seq l (get seq index) (placed seq) (sym (next-survivor seq index placed) ∙ e)

module _ (cutoff max_bytes : ℕ) where
  abbrev Moves : Index → ℕ → LoopResult → Type 0
  Moves index removed r =
      (n : ℕ) × (r.3 ≡ removed + n) × ((seq : ℕ) → get seq r.1 ≡ survivor n (get seq index))

  Moves-more :
      (seg next : Segment) (others : List Segment) (index : Index) (removed : ℕ) (r : LoopResult)
      → ((seq : ℕ) → get seq (next_index seg next index) ≡ survivor 1 (get seq index))
      → Moves (next_index seg next index) (removed + 1) r
      → Moves index removed r
  Moves-more seg next others index removed r one (n, count, all) = (
    suc n,
    omega (arith, count),
    λ seq. all seq ∙ ap (survivor n) (one seq) ∙ survivor-suc n (get seq index),
  )

  gc_loop-Moves :
      (ss : List Segment) (index : Index) (files : Files) (total removed : ℕ)
      → Rises ss
      → IsPlaced ss index
      → Moves index removed (gc_loop cutoff max_bytes ss index files total removed)
  unfolding gc_loop
  gc_loop-Moves [] index files total removed r placed =
      (0, omega arith, λ seq. sym (survivor_zero (get seq index)))
  gc_loop-Moves (seg ∷ []) index files total removed r placed =
      (0, omega arith, λ seq. sym (survivor_zero (get seq index)))
  gc_loop-Moves (seg ∷ next ∷ others) index files total removed r placed =
      elim (Bool-cases (exceeds cutoff max_bytes total seg)) [
        | inl e ↦
            subst (Moves index removed)
              (sym (gc_loop-goes cutoff max_bytes seg next others index files total removed e))
              (Moves-more seg next others index removed
                (onward cutoff max_bytes seg next others index files (total - seg.bytes) removed)
                (λ seq. next-survivor seg next others r seq index placed)
                (gc_loop-Moves (next ∷ others) (next_index seg next index)
                  (remove_file seg.path files) (total - seg.bytes) (removed + 1) r.1
                  (next-IsPlaced seg next others r index placed)))
        | inr e ↦
            subst (Moves index removed)
              (sym (gc_loop-stops cutoff max_bytes seg next others index files total removed e))
              (0, omega arith, λ seq. sym (survivor_zero (get seq index)))
      ]

-- Where the segments begin at rising sequences and every index entry points to the segment whose
-- range holds its sequence, `gc` drops the entries of the removed segments and no others, and moves
-- the others down by the number of removed segments.
pub gc-survivor :
    (s : GroupStore) (cutoff max_bytes seq : ℕ)
    → Rises s.segments
    → IsPlaced s.segments s.index
    → get seq (gc s cutoff max_bytes).0.index ≡ survivor (gc s cutoff max_bytes).1 (get seq s.index)
unfolding gc
gc-survivor s cutoff max_bytes seq r placed =
    let (n, count, all) =
      gc_loop-Moves cutoff max_bytes s.segments s.index s.files (sum_bytes s.segments) 0 r placed in
    all seq ∙ ap (λ k. survivor k (get seq s.index)) (omega (arith, count))

contents-remove_file : (p : SegmentPath) (fs : Files) → contents p (remove_file p fs) ≡ none
unfolding contents remove_file
contents-remove_file p [] = refl
contents-remove_file p ((q, bs) ∷ fs) = elim (Bool-cases (same_path q p)) [
  | inl e ↦ rw e (contents-remove_file p fs)
  | inr e ↦ rw e (rw e (contents-remove_file p fs))
]

locate-some :
    (s : GroupStore) (seq : ℕ) (l : Location) (seg : Segment)
    → get seq s.index ≡ some l
    → get_elem? s.segments l.segment ≡ some seg
    → locate s seq ≡ ok (some (record { path = seg.path; offset = l.offset; v2 = seg.v2 }))
unfolding locate
locate-some s seq l seg e f = rw (e, locate) (rw f refl)

module _ (seg next : Segment) (cutoff max_bytes : ℕ) (old : seg.newest_ms < cutoff) where
  gc_loop-two :
      (ss : List Segment) (index : Index) (files : Files) (total : ℕ)
      → ss ≡ seg ∷ next ∷ []
      → gc_loop cutoff max_bytes ss index files total 0
        ≡ (next ∷ [], next_index seg next index, remove_file seg.path files, 1)
  unfolding gc_loop
  gc_loop-two ss index files total e =
      ap (λ x. gc_loop cutoff max_bytes x index files total 0) e
      ∙ gc_loop-goes cutoff max_bytes seg next [] index files total 0 (ground (arith, old))

-- A segment whose first sequence is 0 (`scan` gives 0 to an empty file): after `gc` has deleted the
-- file before it, a group that stood in the deleted file is still located, at its old offset in the
-- file of the segment behind it.
pub gc-empty_segment :
    (s : GroupStore) (seg next : Segment) (cutoff max_bytes seq : ℕ) (l : Location)
    → s.segments ≡ seg ∷ next ∷ []
    → next.first_seq ≡ 0
    → seg.newest_ms < cutoff
    → get seq s.index ≡ some l
    → l.segment ≡ 0
    → (contents seg.path (gc s cutoff max_bytes).0.files ≡ none)
      × (locate (gc s cutoff max_bytes).0 seq
          ≡ ok (some (record { path = next.path; offset = l.offset; v2 = next.v2 })))
unfolding gc
gc-empty_segment s seg next cutoff max_bytes seq l segs z old e first =
    let all : outside seg.first_seq next.first_seq seq ≡ true = ground (arith, z) in
    subst
      (λ (r : LoopResult).
        (contents seg.path r.2 ≡ none)
        × (locate (record s { segments = r.0; index = r.1; files = r.2 }) seq
            ≡ ok (some (record { path = next.path; offset = l.offset; v2 = next.v2 }))))
      (sym (gc_loop-two seg next cutoff max_bytes old s.segments s.index s.files _ segs))
      (
        contents-remove_file seg.path s.files,
        locate-some
            (record s {
              segments = next ∷ [];
              index = next_index seg next s.index;
              files = remove_file seg.path s.files;
            })
            seq (shifted 1 l) next (get-next_index seg next seq s.index ∙ rw (all, e) refl)
            (rw first refl),
      )
