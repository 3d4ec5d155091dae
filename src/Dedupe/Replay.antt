-- ===== src/Dedupe/Replay.antt =====
-- A stream that breaks off and is resumed with some of its items again.
use atmoq.Common.{
  ◌≡◌, refl, sym, ap, ap₂, subst, ◌∙◌, true, Option, none, some, List, [], ◌∷◌, ◌++◌, All,
}
use mathlib.Core.Option.{none-ne-some}
use atmoq.Common.Int.{ℤ, leb_ℤ, leb_ℤ_refl, leb_ℤ_trans, leb_ℤ_total}
use atmoq.Dedupe.{Above, later, fresh, mark_of, IsRising}
use atmoq.Dedupe.Laws.{
  IsOld, Above-admit, IsOld-admit, fresh_kept, fresh_same, fresh_none, fresh-append,
}

module _ {ℓ} {A : Type ℓ} (seq : A → Option ℤ) where
  abbrev pub IsNumbered : A → Type 0
  IsNumbered x = (n : ℤ) × (seq x ≡ some n)

  mark_of_old :
      (last : ℤ) (xs : List A) → All (λ x. IsOld last (seq x)) xs → mark_of seq last xs ≡ last
  unfolding mark_of
  mark_of_old last [] h = refl
  mark_of_old last (x ∷ xs) (old, rest) =
      ap (λ o. elim o as (λ _. ℤ) [ none ↦ mark_of seq last xs | some mark ↦ mark_of seq mark xs ])
        (IsOld-admit (seq x) last old)
      ∙ mark_of_old last xs rest

  mark_of_rising :
      (last : ℤ) (x : A) (xs : List A)
      → Above (seq x) last
      → mark_of seq last (x ∷ xs) ≡ mark_of seq (later (seq x) last) xs
  mark_of_rising last x xs h = (fresh_kept seq last _ x xs (Above-admit (seq x) last h)).1

  IsRising-append :
      (last : ℤ) (xs ys : List A)
      → IsRising seq last (xs ++ ys)
      → IsRising seq last xs × IsRising seq (mark_of seq last xs) ys
  unfolding IsRising mark_of
  IsRising-append last [] ys h = (tt, h)
  IsRising-append last (x ∷ xs) ys (above, rest) =
      let (left, right) = IsRising-append (later (seq x) last) xs ys rest in
      ((above, left), subst (λ t. IsRising seq t ys) (sym (mark_of_rising last x xs above)) right)

  mark_of-append :
      (last : ℤ) (xs ys : List A)
      → IsRising seq last xs
      → mark_of seq last (xs ++ ys) ≡ mark_of seq (mark_of seq last xs) ys
  unfolding IsRising mark_of
  mark_of-append last [] ys h = refl
  mark_of-append last (x ∷ xs) ys (above, rest) =
      mark_of_rising last x (xs ++ ys) above
      ∙ mark_of-append (later (seq x) last) xs ys rest
      ∙ ap (λ t. mark_of seq t ys) (sym (mark_of_rising last x xs above))

  later_le : (o : Option ℤ) (last : ℤ) → Above o last → leb_ℤ last (later o last) ≡ true
  later_le none last h = leb_ℤ_refl last
  later_le (some n) last h = leb_ℤ_total n last h

  mark_of_le :
      (last : ℤ) (xs : List A) → IsRising seq last xs → leb_ℤ last (mark_of seq last xs) ≡ true
  unfolding IsRising mark_of
  mark_of_le last [] h = leb_ℤ_refl last
  mark_of_le last (x ∷ xs) (above, rest) =
      ap (leb_ℤ last) (mark_of_rising last x xs above)
      ∙ leb_ℤ_trans last (later (seq x) last) _ (later_le (seq x) last above)
          (mark_of_le (later (seq x) last) xs rest)

  numbered-IsOld :
      (o : Option ℤ) (last mark : ℤ)
      → ((n : ℤ) × (o ≡ some n))
      → leb_ℤ (later o last) mark ≡ true
      → IsOld mark o
  numbered-IsOld none last mark (n, e) h = absurd (none-ne-some n e)
  numbered-IsOld (some k) last mark numbered h = h

  all-IsOld :
      (last : ℤ) (xs : List A)
      → IsRising seq last xs
      → All IsNumbered xs
      → All (λ x. IsOld (mark_of seq last xs) (seq x)) xs
  unfolding IsRising
  all-IsOld last [] h numbered = tt
  all-IsOld last (x ∷ xs) (above, rest) (numbered, others) =
      subst (λ t. All (λ y. IsOld t (seq y)) (x ∷ xs)) (sym (mark_of_rising last x xs above))
        (
          numbered-IsOld (seq x) last _ numbered (mark_of_le (later (seq x) last) xs rest),
          all-IsOld (later (seq x) last) xs rest others,
        )

  -- A rising stream breaks off behind `xs ++ ys` and is resumed at the start of `ys`, whose items all
  -- have numbers: every item of the whole stream passes, once and in order.
  pub fresh-replay :
      (last : ℤ) (xs ys zs : List A)
      → IsRising seq last ((xs ++ ys) ++ zs)
      → All IsNumbered ys
      → fresh seq last ((xs ++ ys) ++ (ys ++ zs)) ≡ (xs ++ ys) ++ zs
  fresh-replay last xs ys zs h numbered =
      let (before, after) = IsRising-append last (xs ++ ys) zs h in
      let (left, right) = IsRising-append last xs ys before in
      let mark = mark_of seq last (xs ++ ys) in
      let old : All (λ x. IsOld mark (seq x)) ys =
        subst (λ t. All (λ x. IsOld t (seq x)) ys) (sym (mark_of-append last xs ys left))
          (all-IsOld (mark_of seq last xs) ys right numbered) in
      fresh-append seq last (xs ++ ys) (ys ++ zs)
      ∙ ap₂ (λ s t. s ++ t) (fresh_same seq last (xs ++ ys) before)
          (fresh-append seq mark ys zs
            ∙ ap₂ (λ s t. s ++ fresh seq t zs) (fresh_none seq mark ys old)
                (mark_of_old mark ys old)
            ∙ fresh_same seq mark zs after)
