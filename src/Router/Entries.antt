-- ===== src/Router/Entries.antt =====
-- The map of the router: what `get` gives behind each change.
use atmoq.Common.{
  suc, ◌≤◌, ◌≡◌, ◌≢◌, refl, sym, ap, ◌∙◌, Bool, true, false, Option, none, some, List, [], ◌∷◌,
  if◌then◌else◌, Bytes, length, eq_bytes, eq_bytes_self, eq_bytes→eq, Bool-cases, inl, inr, ◌⊎◌,
  arith,
}
use atmoq.Router.{get, remove, insert, update}

eq_bytes_ne : (k key : Bytes) → k ≢ key → eq_bytes k key ≡ false
eq_bytes_ne k key h = elim (Bool-cases (eq_bytes k key)) [
  | inl e ↦ absurd (h (eq_bytes→eq k key e))
  | inr e ↦ e
]

pub same_or_other : (k key : Bytes) → (k ≡ key) ⊎ (k ≢ key)
same_or_other k key = elim (Bool-cases (eq_bytes k key)) [
  | inl e ↦ inl (eq_bytes→eq k key e)
  | inr e ↦
      inr (λ same. absurd (no (sym (eq_bytes_self key) ∙ ap (λ t. eq_bytes t key) (sym same) ∙ e)))
]
  where
    no : true ≡ false → ⊥
    no h = cc

module _ {ℓ} {A : Type ℓ} where
  pub get-remove : (key : Bytes) (es : List (Bytes × A)) → get key (remove key es) ≡ none
  unfolding get remove
  get-remove key [] = refl
  get-remove key ((k, a) ∷ rest) = go (eq_bytes k key) refl (get-remove key rest)
    where
      go :
          (b : Bool)
          → eq_bytes k key ≡ b
          → get key (remove key rest) ≡ none
          → get key (if b then remove key rest else (k, a) ∷ remove key rest) ≡ none
      go true e below = below
      go false e below = ap (λ b. if b then some a else get key (remove key rest)) e ∙ below

  pub get-remove_other :
      (key other : Bytes) (es : List (Bytes × A))
      → key ≢ other
      → get key (remove other es) ≡ get key es
  unfolding get remove
  get-remove_other key other [] h = refl
  get-remove_other key other ((k, a) ∷ rest) h =
      go (eq_bytes k other) refl (get-remove_other key other rest h)
    where
      go :
          (b : Bool)
          → eq_bytes k other ≡ b
          → get key (remove other rest) ≡ get key rest
          → get key (if b then remove other rest else (k, a) ∷ remove other rest)
            ≡ (if eq_bytes k key then some a else get key rest)
      go true e below =
          below
          ∙ ap (λ b. if b then some a else get key rest)
              (sym (eq_bytes_ne k key (λ same. h (sym same ∙ eq_bytes→eq k other e))))
      go false e below = ap (λ t. if eq_bytes k key then some a else t) below

  pub get-insert :
      (key : Bytes) (a : A) (es : List (Bytes × A)) → get key (insert key a es) ≡ some a
  unfolding get insert remove
  get-insert key a es = ap (λ b. if b then some a else get key (remove key es)) (eq_bytes_self key)

  pub get-insert_other :
      (key other : Bytes) (a : A) (es : List (Bytes × A))
      → key ≢ other
      → get key (insert other a es) ≡ get key es
  unfolding get insert remove
  get-insert_other key other a es h =
      ap (λ b. if b then some a else get key (remove other es))
        (eq_bytes_ne other key (λ e. h (sym e)))
      ∙ get-remove_other key other es h

  abbrev pub map_option : (A → A) → Option A → Option A
  map_option f none = none
  map_option f (some a) = some (f a)

  pub get-update :
      (key : Bytes) (f : A → A) (es : List (Bytes × A))
      → get key (update key f es) ≡ map_option f (get key es)
  unfolding get update
  get-update key f [] = refl
  get-update key f ((k, a) ∷ rest) = go (eq_bytes k key) refl (get-update key f rest)
    where
      go :
          (b : Bool)
          → eq_bytes k key ≡ b
          → get key (update key f rest) ≡ map_option f (get key rest)
          → get key (if b then (k, f a) ∷ update key f rest else (k, a) ∷ update key f rest)
            ≡ map_option f (if b then some a else get key rest)
      go true e below = ap (λ b. if b then some (f a) else get key (update key f rest)) e
      go false e below = ap (λ b. if b then some a else get key (update key f rest)) e ∙ below

  pub get-update_other :
      (key other : Bytes) (f : A → A) (es : List (Bytes × A))
      → key ≢ other
      → get key (update other f es) ≡ get key es
  unfolding get update
  get-update_other key other f [] h = refl
  get-update_other key other f ((k, a) ∷ rest) h =
      go (eq_bytes k other) refl (get-update_other key other f rest h)
    where
      go :
          (b : Bool)
          → eq_bytes k other ≡ b
          → get key (update other f rest) ≡ get key rest
          → get key (if b then (k, f a) ∷ update other f rest else (k, a) ∷ update other f rest)
            ≡ (if eq_bytes k key then some a else get key rest)
      go true e below =
          let differs : eq_bytes k key ≡ false =
            eq_bytes_ne k key (λ same. h (sym same ∙ eq_bytes→eq k other e)) in
          ap (λ b. if b then some (f a) else get key (update other f rest)) differs
          ∙ below
          ∙ ap (λ b. if b then some a else get key rest) (sym differs)
      go false e below = ap (λ t. if eq_bytes k key then some a else t) below

  pub length-remove : (key : Bytes) (es : List (Bytes × A)) → length (remove key es) ≤ length es
  unfolding remove
  length-remove key [] = omega arith
  length-remove key ((k, a) ∷ rest) = go (eq_bytes k key) (length-remove key rest)
    where
      go :
          (b : Bool)
          → length (remove key rest) ≤ length rest
          → length (if b then remove key rest else (k, a) ∷ remove key rest) ≤ suc (length rest)
      go true below = omega (arith, below)
      go false below = omega (arith, below)

  pub length-insert :
      (key : Bytes) (a : A) (es : List (Bytes × A)) → length (insert key a es) ≤ suc (length es)
  unfolding insert
  length-insert key a es = omega (arith, length-remove key es)

  pub length-update :
      (key : Bytes) (f : A → A) (es : List (Bytes × A)) → length (update key f es) ≡ length es
  unfolding update
  length-update key f [] = refl
  length-update key f ((k, a) ∷ rest) = go (eq_bytes k key) (length-update key f rest)
    where
      go :
          (b : Bool)
          → length (update key f rest) ≡ length rest
          → length (if b then (k, f a) ∷ update key f rest else (k, a) ∷ update key f rest)
            ≡ suc (length rest)
      go true below = ap suc below
      go false below = ap suc below
