-- ===== src/Store/Limits.antt =====
-- `gc`: which segments go.
use atmoq.Common.{
  ℕ, zero, suc, ◌+◌, ◌-◌, ◌≤◌, ◌<◌, ◌≡◌, refl, sym, subst, Bool, true, false, ◌&&◌, ◌||◌, ◌⊎◌, inl,
  inr, List, [], ◌∷◌, ltb, Bool-cases, drop, arith,
}
use atmoq.Store.{
  Segment, Files, Index, retain, shift_down, outside, sum_bytes, GroupStore, gc_loop, gc,
  remove_file,
}

-- A store within its limits: at most one segment, or the oldest is young and the sum fits.
abbrev pub IsWithin : ℕ → ℕ → List Segment → Type 0
IsWithin cutoff max_bytes [] = Unit
IsWithin cutoff max_bytes (s ∷ []) = Unit
IsWithin cutoff max_bytes (s ∷ t ∷ ss) =
    (cutoff ≤ s.newest_ms) × ((max_bytes ≡ 0) ⊎ (sum_bytes (s ∷ t ∷ ss) ≤ max_bytes))

abbrev pub exceeds : ℕ → ℕ → ℕ → Segment → Bool
exceeds cutoff max_bytes total seg =
    ltb seg.newest_ms cutoff || (ltb 0 max_bytes && ltb max_bytes total)

abbrev pub LoopResult : Type 0
LoopResult = List Segment × Index × Files × ℕ

module _ (cutoff max_bytes : ℕ) where
  -- The loop behind the removal of `seg`.
  abbrev pub onward : Segment → Segment → List Segment → Index → Files → ℕ → ℕ → LoopResult
  onward seg next others index files total removed =
      gc_loop cutoff max_bytes (next ∷ others)
        (shift_down (retain (outside seg.first_seq next.first_seq) index))
        (remove_file seg.path files) total (removed + 1)

  pub gc_loop-stops :
      (seg next : Segment) (others : List Segment) (index : Index) (files : Files)
      (total removed : ℕ)
      → exceeds cutoff max_bytes total seg ≡ false
      → gc_loop cutoff max_bytes (seg ∷ next ∷ others) index files total removed
        ≡ (seg ∷ next ∷ others, index, files, removed)
  unfolding gc_loop
  gc_loop-stops seg next others index files total removed e = rw e refl

  pub gc_loop-goes :
      (seg next : Segment) (others : List Segment) (index : Index) (files : Files)
      (total removed : ℕ)
      → exceeds cutoff max_bytes total seg ≡ true
      → gc_loop cutoff max_bytes (seg ∷ next ∷ others) index files total removed
        ≡ onward seg next others index files (total - seg.bytes) removed
  unfolding gc_loop
  gc_loop-goes seg next others index files total removed e = rw e refl

-- What the loop leaves: `n` segments fewer, and no fewer than the limits ask for.
pub record Collected (cutoff max_bytes : ℕ) (old new : List Segment) (n : ℕ) : Type 0 where
  pub suffix : drop n old ≡ new
  pub within : IsWithin cutoff max_bytes new
  pub needed : (j : ℕ) → j < n → ¬ IsWithin cutoff max_bytes (drop j old)

module _ (cutoff max_bytes : ℕ) where
  IsWithin-iff :
      (seg next : Segment) (others : List Segment)
      → let total = sum_bytes (seg ∷ next ∷ others) in
        (exceeds cutoff max_bytes total seg ≡ false
          → IsWithin cutoff max_bytes (seg ∷ next ∷ others))
        × (exceeds cutoff max_bytes total seg ≡ true
            → ¬ IsWithin cutoff max_bytes (seg ∷ next ∷ others))
  IsWithin-iff seg next others = (λ e. ground arith, λ e w. ground arith)

  abbrev Leaves : List Segment → ℕ → LoopResult → Type 0
  Leaves ss removed r = (n : ℕ) × (r.3 ≡ removed + n) × Collected cutoff max_bytes ss r.0 n

  kept :
      (ss : List Segment) (index : Index) (files : Files) (removed : ℕ)
      → IsWithin cutoff max_bytes ss
      → Leaves ss removed (ss, index, files, removed)
  kept ss index files removed w = (
    0,
    omega arith,
    record { suffix = refl; within = w; needed = λ j h. absurd (omega (arith, h)) },
  )

  needed_suc :
      (seg : Segment) (ss new : List Segment) (n : ℕ)
      → ¬ IsWithin cutoff max_bytes (seg ∷ ss)
      → Collected cutoff max_bytes ss new n
      → (j : ℕ) → j < suc n
      → ¬ IsWithin cutoff max_bytes (drop j (seg ∷ ss))
  needed_suc seg ss new n out c zero h = out
  needed_suc seg ss new n out c (suc j) h = c.needed j (omega (arith, h))

  one_more :
      (seg : Segment) (ss : List Segment) (removed : ℕ) (r : LoopResult)
      → ¬ IsWithin cutoff max_bytes (seg ∷ ss)
      → Leaves ss (removed + 1) r
      → Leaves (seg ∷ ss) removed r
  one_more seg ss removed r out (n, count, c) = (
    suc n,
    omega (arith, count),
    record { suffix = c.suffix; within = c.within; needed = needed_suc seg ss r.0 n out c },
  )

  gc_loop-Leaves :
      (ss : List Segment) (index : Index) (files : Files) (removed : ℕ)
      → Leaves ss removed (gc_loop cutoff max_bytes ss index files (sum_bytes ss) removed)
  unfolding gc_loop
  gc_loop-Leaves [] index files removed = kept [] index files removed tt
  gc_loop-Leaves (seg ∷ []) index files removed = kept (seg ∷ []) index files removed tt
  gc_loop-Leaves (seg ∷ next ∷ others) index files removed =
      elim (Bool-cases (exceeds cutoff max_bytes (sum_bytes (seg ∷ next ∷ others)) seg)) [
        | inl e ↦
            subst (Leaves (seg ∷ next ∷ others) removed)
              (sym (gc_loop-goes cutoff max_bytes seg next others index files _ removed e))
              (one_more seg (next ∷ others) removed
                (onward cutoff max_bytes seg next others index files
                  (sum_bytes (seg ∷ next ∷ others) - seg.bytes) removed)
                ((IsWithin-iff seg next others).1 e)
                (subst
                  (λ t.
                    Leaves (next ∷ others) (removed + 1)
                      (onward cutoff max_bytes seg next others index files t removed))
                  (omega arith)
                  (gc_loop-Leaves (next ∷ others)
                    (shift_down (retain (outside seg.first_seq next.first_seq) index))
                    (remove_file seg.path files) (removed + 1))))
        | inr e ↦
            subst (Leaves (seg ∷ next ∷ others) removed)
              (sym (gc_loop-stops cutoff max_bytes seg next others index files _ removed e))
              (kept (seg ∷ next ∷ others) index files removed ((IsWithin-iff seg next others).0 e))
      ]

-- `gc` removes segments from the front until at most one is left or the limits hold of the others,
-- removes no more than that, and returns how many it removed; the sizes it adds up are those of
-- the segments.
pub gc-Collected :
    (s : GroupStore) (cutoff max_bytes : ℕ)
    → Collected cutoff max_bytes s.segments
        (gc s cutoff max_bytes).0.segments
        (gc s cutoff max_bytes).1
unfolding gc
gc-Collected s cutoff max_bytes =
    let (n, count, c) = gc_loop-Leaves cutoff max_bytes s.segments s.index s.files 0 in
    subst (Collected cutoff max_bytes s.segments (gc s cutoff max_bytes).0.segments)
      (omega (arith, count)) c
