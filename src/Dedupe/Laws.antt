-- ===== src/Dedupe/Laws.antt =====
-- What the test on sequence numbers lets pass.
use atmoq.Common.{
  ◌≡◌, refl, sym, ap, subst, ◌∙◌, Bool, true, false, Option, none, some, List, [], ◌∷◌, ◌++◌,
  if◌then◌else◌, All, ℕ, zero, suc, take,
}
use mathlib.Core.Option.{none-ne-some, some-injective}
use atmoq.Common.Int.{ℤ, leb_ℤ}
use atmoq.Dedupe.{admit, Above, later, fresh, mark_of, IsRising}

admit-some :
    (o : Option ℤ) (last mark : ℤ) → admit o last ≡ some mark → Above o last × (later o last ≡ mark)
unfolding admit
admit-some none last mark h = (tt, some-injective last mark h)
admit-some (some n) last mark h = go (leb_ℤ n last) refl h
  where
    go :
        (b : Bool)
        → leb_ℤ n last ≡ b
        → (if b then none else some n) ≡ some mark
        → (leb_ℤ n last ≡ false) × (n ≡ mark)
    go true e h = absurd (none-ne-some mark h)
    go false e h = (e, some-injective n mark h)

pub Above-admit : (o : Option ℤ) (last : ℤ) → Above o last → admit o last ≡ some (later o last)
unfolding admit
Above-admit none last h = refl
Above-admit (some n) last h = ap (λ b. if b then none else some n) h

-- A number at the mark or below it.
abbrev pub IsOld : ℤ → Option ℤ → Type 0
IsOld last none = ⊥
IsOld last (some n) = leb_ℤ n last ≡ true

pub IsOld-admit : (o : Option ℤ) (last : ℤ) → IsOld last o → admit o last ≡ none
unfolding admit
IsOld-admit none last h = absurd h
IsOld-admit (some n) last h = ap (λ b. if b then none else some n) h

module _ {ℓ} {A : Type ℓ} (seq : A → Option ℤ) where
  -- The numbers of the items that pass are above the mark at the start, and each above those before it.
  pub fresh-IsRising : (last : ℤ) (xs : List A) → IsRising seq last (fresh seq last xs)
  unfolding fresh IsRising
  fresh-IsRising last [] = tt
  fresh-IsRising last (x ∷ xs) = go (λ mark. fresh-IsRising mark xs) (admit (seq x) last) refl
    where
      go :
          ((mark : ℤ) → IsRising seq mark (fresh seq mark xs))
          → (o : Option ℤ) → admit (seq x) last ≡ o
          → IsRising seq last
              (elim o [ none ↦ fresh seq last xs | some mark ↦ x ∷ fresh seq mark xs ])
      go below none e = below last
      go below (some mark) e =
          let (above, same) = admit-some (seq x) last mark e in
          (above, subst (λ t. IsRising seq t (fresh seq mark xs)) (sym same) (below mark))

  pub fresh_kept :
      (last mark : ℤ) (x : A) (xs : List A)
      → admit (seq x) last ≡ some mark
      → (fresh seq last (x ∷ xs) ≡ x ∷ fresh seq mark xs)
        × (mark_of seq last (x ∷ xs) ≡ mark_of seq mark xs)
  unfolding fresh mark_of
  fresh_kept last mark x xs e = (
    ap
        (λ o. elim o as (λ _. List A) [
          | none ↦ fresh seq last xs
          | some mark ↦ x ∷ fresh seq mark xs
        ])
        e,
    ap (λ o. elim o as (λ _. ℤ) [ none ↦ mark_of seq last xs | some mark ↦ mark_of seq mark xs ]) e,
  )

  fresh_dropped :
      (last : ℤ) (x : A) (xs : List A)
      → admit (seq x) last ≡ none
      → fresh seq last (x ∷ xs) ≡ fresh seq last xs
  unfolding fresh
  fresh_dropped last x xs e =
      ap
        (λ o. elim o as (λ _. List A) [
          | none ↦ fresh seq last xs
          | some mark ↦ x ∷ fresh seq mark xs
        ])
        e

  pub take-IsRising :
      (n : ℕ) (last : ℤ) (xs : List A) → IsRising seq last xs → IsRising seq last (take n xs)
  unfolding IsRising
  take-IsRising zero last xs h = tt
  take-IsRising (suc n) last [] h = tt
  take-IsRising (suc n) last (x ∷ xs) (above, rest) =
      (above, take-IsRising n (later (seq x) last) xs rest)

  -- A list that rises from the mark passes whole.
  pub fresh_same : (last : ℤ) (xs : List A) → IsRising seq last xs → fresh seq last xs ≡ xs
  unfolding fresh IsRising
  fresh_same last [] h = refl
  fresh_same last (x ∷ xs) (above, rest) =
      (fresh_kept last (later (seq x) last) x xs (Above-admit (seq x) last above)).0
      ∙ ap (λ t. x ∷ t) (fresh_same (later (seq x) last) xs rest)

  pub fresh_none :
      (last : ℤ) (xs : List A) → All (λ x. IsOld last (seq x)) xs → fresh seq last xs ≡ []
  unfolding fresh
  fresh_none last [] h = refl
  fresh_none last (x ∷ xs) (old, rest) =
      fresh_dropped last x xs (IsOld-admit (seq x) last old) ∙ fresh_none last xs rest

  pub fresh-append :
      (last : ℤ) (xs ys : List A)
      → fresh seq last (xs ++ ys) ≡ fresh seq last xs ++ fresh seq (mark_of seq last xs) ys
  unfolding fresh mark_of
  fresh-append last [] ys = refl
  fresh-append last (x ∷ xs) ys = go (λ mark. fresh-append mark xs ys) (admit (seq x) last)
    where
      go :
          ((mark : ℤ)
            → fresh seq mark (xs ++ ys) ≡ fresh seq mark xs ++ fresh seq (mark_of seq mark xs) ys)
          → (o : Option ℤ)
          → elim o as (λ _. List A) [
            | none ↦ fresh seq last (xs ++ ys)
            | some mark ↦ x ∷ fresh seq mark (xs ++ ys)
          ]
            ≡ elim o as (λ _. List A) [
              | none ↦ fresh seq last xs
              | some mark ↦ x ∷ fresh seq mark xs
            ]
              ++ fresh seq
                  (elim o as (λ _. ℤ) [
                    | none ↦ mark_of seq last xs
                    | some mark ↦ mark_of seq mark xs
                  ])
                  ys
      go below none = below last
      go below (some mark) = ap (λ t. x ∷ t) (below mark)
