-- ===== src/Dedupe.antt =====
-- The test on sequence numbers that the pump and the readers of rust/crates/atmoq/src/main.rs share:
-- an item at or below the high-water mark is dropped, an item without a number is kept.
pub mod Laws
pub mod Replay
mod Examples
use atmoq.Common.{
  ℕ, ◌≡◌, refl, sym, ap, ◌∙◌, Bool, true, false, Option, none, some, List, [], ◌∷◌, ◌++◌,
  if◌then◌else◌, ltb, arith,
}
use atmoq.Common.Int.{ℤ, leb_ℤ, leb_ℤ_refl, leb_ℤ_trans, leb_ℤ_total}

-- The mark behind an item, or none where it is dropped.
unfoldable pub admit : Option ℤ → ℤ → Option ℤ
admit none last = some last
admit (some seq) last = if leb_ℤ seq last then none else some seq

abbrev pub Above : Option ℤ → ℤ → Type 0
Above none last = Unit
Above (some n) last = leb_ℤ n last ≡ false

abbrev pub later : Option ℤ → ℤ → ℤ
later none last = last
later (some n) last = n

module _ {ℓ} {A : Type ℓ} (seq : A → Option ℤ) where
  -- The items that are kept, and the mark at the end.
  unfoldable pub fresh : ℤ → List A → List A
  unfolding admit
  fresh last [] = []
  fresh last (x ∷ xs) = elim (admit (seq x) last) [
    | none ↦ fresh last xs
    | some mark ↦ x ∷ fresh mark xs
  ]

  unfoldable pub mark_of : ℤ → List A → ℤ
  unfolding admit
  mark_of last [] = last
  mark_of last (x ∷ xs) = elim (admit (seq x) last) [
    | none ↦ mark_of last xs
    | some mark ↦ mark_of mark xs
  ]

  -- Every number is above `last` and above those before it.
  unfoldable pub IsRising : ℤ → List A → Type 0
  IsRising last [] = Unit
  IsRising last (x ∷ xs) = Above (seq x) last × IsRising (later (seq x) last) xs
