-- ===== src/Common/Positions.antt =====
-- What stands at a position of a byte slice: `At d o xs` says that `xs` begins at offset `o` of `d`.
use Prim.Native.Nat.{ℕ, zero, suc, ◌+◌, ◌-◌, ◌≤◌, ◌<◌}
use mathlib.Core.Path.{◌≡◌, refl, ap, sym, subst, ◌∙◌}
use mathlib.Core.Option.{some}
use mathlib.Core.List.{List, [], ◌∷◌, ◌++◌, append_assoc, append-nil}
use native.Mathlib.Omega.{arith}
use atmoq.Common.Lists.{length, get_elem?, take, drop, length-append, take-append, drop-append, All}

module _ {ℓ} {A : Type ℓ} where
  pub length-drop : (n : ℕ) (xs : List A) → length (drop n xs) ≡ length xs - n
  length-drop zero xs = omega arith
  length-drop (suc n) [] = omega arith
  length-drop (suc n) (x ∷ xs) = omega (arith, length-drop n xs)

  pub drop-drop : (m n : ℕ) (xs : List A) → drop n (drop m xs) ≡ drop (m + n) xs
  drop-drop zero n xs = ap (λ k. drop k xs) (omega arith)
  drop-drop (suc m) n [] = drop-nil n ∙ sym (drop-nil (suc m + n))
    where
      drop-nil : (k : ℕ) → drop {ℓ} {A = A} k [] ≡ []
      drop-nil zero = refl
      drop-nil (suc k) = refl
  drop-drop (suc m) n (x ∷ xs) =
      drop-drop m n xs ∙ ap (λ k. drop k (x ∷ xs)) {x = suc (m + n)} (omega arith)

  pub get_elem?-of_drop :
      (o : ℕ) (xs r : List A) (x : A) → drop o xs ≡ x ∷ r → get_elem? xs o ≡ some x
  get_elem?-of_drop zero [] r x e = cc
  get_elem?-of_drop zero (y ∷ xs) r x e = cc
  get_elem?-of_drop (suc o) [] r x e = cc
  get_elem?-of_drop (suc o) (y ∷ xs) r x e = get_elem?-of_drop o xs r x e

  pub drop-of_get_elem? :
      (o : ℕ) (xs : List A) (x : A)
      → get_elem? xs o ≡ some x
      → (drop o xs ≡ x ∷ drop (suc o) xs) × (o < length xs)
  drop-of_get_elem? o [] x e = cc
  drop-of_get_elem? zero (y ∷ xs) x e = (ground arith, omega arith)
  drop-of_get_elem? (suc o) (y ∷ xs) x e =
      let (d, l) = drop-of_get_elem? o xs x e in (d, omega arith)

  pub get_elem?-lt : (o : ℕ) (xs : List A) → o < length xs → (x : A) × (get_elem? xs o ≡ some x)
  get_elem?-lt o [] h = absurd (omega arith)
  get_elem?-lt zero (x ∷ xs) h = (x, refl)
  get_elem?-lt (suc o) (x ∷ xs) h = get_elem?-lt o xs (omega arith)

  pub record At (d : List A) (o : ℕ) (xs : List A) : Type ℓ where
    pub inside : o ≤ length d
    pub rest : List A
    pub found : drop o d ≡ xs ++ rest

  pub At-le : {d : List A} {o : ℕ} {xs : List A} → At d o xs → o + length xs ≤ length d
  At-le {d} {o} {xs} a =
      omega (arith, a.inside, length-drop o d, ap length a.found, length-append xs a.rest)

  pub At-left : {d : List A} {o : ℕ} (xs ys : List A) → At d o (xs ++ ys) → At d o xs
  At-left {d} {o} xs ys a = record {
    inside = a.inside;
    rest = ys ++ a.rest;
    found = a.found ∙ append_assoc xs ys a.rest;
  }

  pub At-right : {d : List A} {o : ℕ} (xs ys : List A) → At d o (xs ++ ys) → At d (o + length xs) ys
  At-right {d} {o} xs ys a = record {
    inside = omega (arith, At-le a, length-append xs ys);
    rest = a.rest;
    found =
        sym (drop-drop o (length xs) d)
        ∙ ap (drop (length xs)) (a.found ∙ append_assoc xs ys a.rest)
        ∙ drop-append xs (ys ++ a.rest);
  }

  pub At-join :
      {d : List A} {o : ℕ} {xs ys : List A}
      → At d o xs
      → At d (o + length xs) ys
      → At d o (xs ++ ys)
  At-join {d} {o} {xs} {ys} a b = record {
    inside = a.inside;
    rest = b.rest;
    found = a.found ∙ ap (λ (t : List A). xs ++ t) after ∙ sym (append_assoc xs ys b.rest);
  }
    where
      after : a.rest ≡ ys ++ b.rest
      after =
          sym (drop-append xs a.rest)
          ∙ ap (drop (length xs)) (sym a.found)
          ∙ drop-drop o (length xs) d
          ∙ b.found

  pub At-get : {d : List A} {o : ℕ} {x : A} {xs : List A} → At d o (x ∷ xs) → get_elem? d o ≡ some x
  At-get {d} {o} {x} {xs} a = get_elem?-of_drop o d (xs ++ a.rest) x a.found

  pub At-of_get : {d : List A} {o : ℕ} {x : A} → get_elem? d o ≡ some x → At d o (x ∷ [])
  At-of_get {d} {o} {x} e =
      let (f, l) = drop-of_get_elem? o d x e in
      record { inside = omega arith; rest = drop (suc o) d; found = f }

  pub take_At : {d : List A} {o : ℕ} {xs : List A} → At d o xs → take (length xs) (drop o d) ≡ xs
  take_At {d} {o} {xs} a = ap (take (length xs)) a.found ∙ take-append xs a.rest

  no_rest : (xs rest : List A) → length (xs ++ rest) ≡ length xs → xs ++ rest ≡ xs
  no_rest xs [] l = append-nil xs
  no_rest xs (r ∷ rest) l = absurd (omega (arith, length-append xs (r ∷ rest)))

  -- What stands at the start and is as long as the slice is the slice.
  pub At_whole : {d xs : List A} → At d 0 xs → length xs ≡ length d → d ≡ xs
  At_whole {d} {xs} a l = a.found ∙ no_rest xs a.rest (omega (arith, ap length a.found))

  pub take-drop : (n : ℕ) (xs : List A) → xs ≡ take n xs ++ drop n xs
  take-drop zero xs = refl
  take-drop (suc n) [] = refl
  take-drop (suc n) (x ∷ xs) = ap (λ (t : List A). x ∷ t) (take-drop n xs)

  pub length-take : (n : ℕ) (xs : List A) → n ≤ length xs → length (take n xs) ≡ n
  length-take zero xs h = refl
  length-take (suc n) [] h = absurd (omega arith)
  length-take (suc n) (x ∷ xs) h = ap suc (length-take n xs (omega arith))

  -- Any range that lies in the slice is found at its start.
  pub At_range :
      (d : List A) (o n : ℕ)
      → o + n ≤ length d
      → At d o (take n (drop o d)) × (length (take n (drop o d)) ≡ n)
  At_range d o n h = (
    record { inside = omega arith; rest = drop n (drop o d); found = take-drop n (drop o d) },
    length-take n (drop o d) (omega (arith, length-drop o d)),
  )

  module _ {κ} (P : A → Type κ) where
    pub All-drop : (n : ℕ) (xs : List A) → All P xs → All P (drop n xs)
    All-drop zero xs h = h
    All-drop (suc n) [] h = tt
    All-drop (suc n) (x ∷ xs) h = All-drop n xs h.1

    pub All-take : (n : ℕ) (xs : List A) → All P xs → All P (take n xs)
    All-take zero xs h = tt
    All-take (suc n) [] h = tt
    All-take (suc n) (x ∷ xs) h = (h.0, All-take n xs h.1)

    pub All-get : (n : ℕ) (xs : List A) (x : A) → All P xs → get_elem? xs n ≡ some x → P x
    All-get n [] x h e = cc
    All-get zero (y ∷ xs) x h e = let same : y ≡ x = cc in subst P same h.0
    All-get (suc n) (y ∷ xs) x h e = All-get n xs x h.1 e
