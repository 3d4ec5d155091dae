-- ===== src/Common/Int.antt =====
-- Signed integers over the native numbers: `i64` values, and `i128 as i64`.
use Prim.Native.Nat.{ℕ, ◌-◌, ◌%◌, ◌^◌, ◌<◌}
use mathlib.Core.Path.{◌≡◌, refl}
use mathlib.Core.Bool.{Bool, true, false}
use native.Mathlib.Omega.{arith}
use atmoq.Common.Tests.{ltb, leb, if◌then◌else◌}

-- `negsuc n` is -(n + 1).
pub data ℤ : Type 0 where
  pos : ℕ → ℤ
  negsuc : ℕ → ℤ

abbrev pub leb_ℤ : ℤ → ℤ → Bool
leb_ℤ (pos a) (pos b) = leb a b
leb_ℤ (pos a) (negsuc b) = false
leb_ℤ (negsuc a) (pos b) = true
leb_ℤ (negsuc a) (negsuc b) = leb b a

abbrev pub eq_ℤ : ℤ → ℤ → Bool
eq_ℤ a b = if leb_ℤ a b then leb_ℤ b a else false

-- `i as i64`: two's complement, 64 bits.
unfoldable pub wrap_i64 : ℤ → ℤ
wrap_i64 (pos n) = let m = n % 2 ^ 64 in if ltb m (2 ^ 63) then pos m else negsuc (2 ^ 64 - m - 1)
wrap_i64 (negsuc n) =
    let m = n % 2 ^ 64 in if ltb m (2 ^ 63) then negsuc m else pos (2 ^ 64 - m - 1)

abbrev pub IsI64 : ℤ → Type 0
IsI64 (pos n) = n < 2 ^ 63
IsI64 (negsuc n) = n < 2 ^ 63

pub wrap_i64-IsI64 : (i : ℤ) → IsI64 (wrap_i64 i)
unfolding wrap_i64
wrap_i64-IsI64 (pos n) = ground arith
wrap_i64-IsI64 (negsuc n) = ground arith

pub wrap_i64_same : (i : ℤ) → IsI64 i → wrap_i64 i ≡ i
unfolding wrap_i64
wrap_i64_same (pos n) h = ground arith
wrap_i64_same (negsuc n) h = ground arith

pub leb_ℤ_refl : (a : ℤ) → leb_ℤ a a ≡ true
leb_ℤ_refl (pos a) = ground arith
leb_ℤ_refl (negsuc a) = ground arith

pub leb_ℤ_trans : (a b c : ℤ) → leb_ℤ a b ≡ true → leb_ℤ b c ≡ true → leb_ℤ a c ≡ true
leb_ℤ_trans (pos a) (pos b) (pos c) p q = ground arith
leb_ℤ_trans (pos a) (pos b) (negsuc c) p q = cc
leb_ℤ_trans (pos a) (negsuc b) c p q = cc
leb_ℤ_trans (negsuc a) (pos b) (pos c) p q = refl
leb_ℤ_trans (negsuc a) (pos b) (negsuc c) p q = cc
leb_ℤ_trans (negsuc a) (negsuc b) (pos c) p q = refl
leb_ℤ_trans (negsuc a) (negsuc b) (negsuc c) p q = ground arith

pub leb_ℤ_total : (a b : ℤ) → leb_ℤ a b ≡ false → leb_ℤ b a ≡ true
leb_ℤ_total (pos a) (pos b) p = ground arith
leb_ℤ_total (pos a) (negsuc b) p = refl
leb_ℤ_total (negsuc a) (pos b) p = cc
leb_ℤ_total (negsuc a) (negsuc b) p = ground arith

pub leb_ℤ_antisym : (a b : ℤ) → leb_ℤ a b ≡ true → leb_ℤ b a ≡ true → a ≡ b
leb_ℤ_antisym (pos a) (pos b) p q = ground arith
leb_ℤ_antisym (pos a) (negsuc b) p q = cc
leb_ℤ_antisym (negsuc a) (pos b) p q = cc
leb_ℤ_antisym (negsuc a) (negsuc b) p q = ground arith
