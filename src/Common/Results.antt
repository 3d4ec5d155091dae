-- ===== src/Common/Results.antt =====
-- `Result<A, E>` of the source, with the panic of an index out of range as a third outcome.
use mathlib.Core.Path.{◌≡◌, refl}
use mathlib.Core.Logic.{◌≢◌, ◌⊎◌, inl, inr}
use mathlib.Core.Option.{Option, none, some}

pub data Result {ℓ κ} (E : Type ℓ) (A : Type κ) : Type (ℓ ⊔ κ) where
  ok : A → Result E A
  err : E → Result E A
  panic : Result E A

module _ {ℓ κ μ} {E : Type ℓ} {A : Type κ} {B : Type μ} where
  infixl 5 ◌>>=◌ ◌>>◌
  abbrev pub ◌>>=◌ : Result E A → (A → Result E B) → Result E B
  panic >>= next = panic
  err e >>= next = err e
  ok a >>= next = next a

  abbrev pub ◌>>◌ : Result E A → Result E B → Result E B
  first >> second = first >>= λ ignored. second

-- Inversion of a successful bind, for proofs where the parts stay shut.
pub >>=-eq-ok {ℓ κ μ} :
    {E : Type ℓ} {A : Type κ} {B : Type μ} (first : Result E A) (next : A → Result E B) {end : B}
    → ◌≡◌ {A = Result E B} (first >>= next) (ok end)
    → (mid : A) × (first ≡ ok mid) × (next mid ≡ ok end)
>>=-eq-ok panic next e = cc
>>=-eq-ok (err _) next e = cc
>>=-eq-ok (ok mid) next e = (mid, refl, e)

pub ok-injective {ℓ κ} :
    {E : Type ℓ} {A : Type κ} {a b : A} → ◌≡◌ {A = Result E A} (ok a) (ok b) → a ≡ b
ok-injective e = cc

pub Option-cases {ℓ} : {A : Type ℓ} (o : Option A) → (o ≡ none) ⊎ ((a : A) × (o ≡ some a))
Option-cases none = inl refl
Option-cases (some a) = inr (a, refl)

-- A bind does not panic where neither part does.
pub >>=-ne-panic {ℓ κ μ} :
    {E : Type ℓ} {A : Type κ} {B : Type μ} (m : Result E A) (f : A → Result E B)
    → m ≢ panic
    → ((a : A) → m ≡ ok a → f a ≢ panic)
    → ◌≢◌ {A = Result E B} (m >>= f) panic
>>=-ne-panic (ok a) f h k = k a refl
>>=-ne-panic (err e) f h k = λ q. cc
>>=-ne-panic panic f h k = absurd (h refl)
