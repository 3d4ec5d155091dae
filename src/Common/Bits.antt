-- ===== src/Common/Bits.antt =====
-- The masks and shifts of the source as arithmetic.
use Prim.Native.Nat.{
  ℕ, zero, suc, ◌+◌, ◌*◌, ◌/◌, ◌%◌, ◌^◌, ◌≤◌, ◌<◌, min, max, bit_and, bit_or, digits,
  bit_and-bitwise, bit_or-bitwise,
}
use mathlib.Core.Path.{◌≡◌, refl, ap}
use native.Mathlib.Omega.{arith}
use native.Mathlib.Nat.{pow-suc}

-- `digits` gives the same at any two bounds that its first number meets.
module _ (base : ℕ → ℕ) (op : ℕ → ℕ → ℕ) where
  abbrev run : ℕ → ℕ → ℕ → ℕ
  run = digits base op

  bound_irrelevant : (a b : ℕ) (k l : ℕ) → a ≤ k → a ≤ l → run k a b ≡ run l a b
  bound_irrelevant zero b zero zero hk hl = refl
  bound_irrelevant zero b zero (suc l) hk hl = refl
  bound_irrelevant zero b (suc k) zero hk hl = refl
  bound_irrelevant zero b (suc k) (suc l) hk hl = refl
  bound_irrelevant (suc a) b zero l hk hl = absurd (omega (arith, hk))
  bound_irrelevant (suc a) b (suc k) zero hk hl = absurd (omega (arith, hl))
  bound_irrelevant (suc a) b (suc k) (suc l) hk hl =
      let half = bound_irrelevant (suc a / 2) (b / 2) k l (omega (arith, hk)) (omega (arith, hl)) in
      ap (λ (d : ℕ). d * 2 + op (suc a % 2) (b % 2)) half

zero-bit_or : (b : ℕ) → bit_or 0 b ≡ b
zero-bit_or b = bit_or-bitwise 0 b

-- One binary digit at a time.
bit_and_step : (a b : ℕ) → bit_and a b ≡ bit_and (a / 2) (b / 2) * 2 + min (a % 2) (b % 2)
bit_and_step zero b = omega (arith, bit_and-bitwise 0 b, bit_and-bitwise 0 (b / 2))
bit_and_step (suc a) b =
    let half = suc a / 2 in
    let same = bound_irrelevant (λ _. 0) min half (b / 2) a half (omega arith) (omega arith) in
    omega (arith, bit_and-bitwise (suc a) b, same, bit_and-bitwise half (b / 2))

bit_or_step : (a b : ℕ) → bit_or a b ≡ bit_or (a / 2) (b / 2) * 2 + max (a % 2) (b % 2)
bit_or_step zero b = omega (arith, zero-bit_or b, zero-bit_or (b / 2))
bit_or_step (suc a) b =
    let half = suc a / 2 in
    let same = bound_irrelevant (λ x. x) max half (b / 2) a half (omega arith) (omega arith) in
    omega (arith, bit_or-bitwise (suc a) b, same, bit_or-bitwise half (b / 2))

none_and : (a k : ℕ) → a ≤ k → bit_and a 0 ≡ 0
none_and zero k h = bit_and-bitwise 0 0
none_and (suc a) zero h = absurd (omega (arith, h))
none_and (suc a) (suc k) h =
    let rest = none_and (suc a / 2) k (omega (arith, h)) in
    omega (arith, rest, bit_and_step (suc a) 0)

none_or : (a k : ℕ) → a ≤ k → bit_or a 0 ≡ a
none_or zero k h = zero-bit_or 0
none_or (suc a) zero h = absurd (omega (arith, h))
none_or (suc a) (suc k) h =
    let rest = none_or (suc a / 2) k (omega (arith, h)) in
    omega (arith, rest, bit_or_step (suc a) 0)

-- `x & 0x1f` and `x & 0x7f`.
and_seven : (a : ℕ) → bit_and a 7 ≡ a % 8
and_seven a = omega (
  arith,
  bit_and_step a 7,
  bit_and_step (a / 2) 3,
  bit_and_step (a / 2 / 2) 1,
  none_and (a / 2 / 2 / 2) (a / 2 / 2 / 2) (omega arith),
)

pub low_five : (a : ℕ) → bit_and a 0x1f ≡ a % 32
low_five a = omega (arith, bit_and_step a 31, bit_and_step (a / 2) 15, and_seven (a / 2 / 2))

pub low_seven : (a : ℕ) → bit_and a 0x7f ≡ a % 128
low_seven a = omega (
  arith,
  bit_and_step a 127,
  bit_and_step (a / 2) 63,
  bit_and_step (a / 2 / 2) 31,
  bit_and_step (a / 2 / 2 / 2) 15,
  and_seven (a / 2 / 2 / 2 / 2),
)

halve : (s high : ℕ) → high * 2 ^ suc s / 2 ≡ high * 2 ^ s
halve s high = omega (arith, ap (λ (t : ℕ). high * t) (pow-suc 2 s))

-- `low | (high << s)` and `(high << s) | low`, where `low` has `s` bits.
pub low_or_high : (s low high : ℕ) → low < 2 ^ s → bit_or low (high * 2 ^ s) ≡ low + high * 2 ^ s
low_or_high zero low high h =
    let e : low ≡ 0 = omega arith in rw e (omega (arith, zero-bit_or (high * 2 ^ 0)))
low_or_high (suc s) low high h = omega (
  arith,
  pow-suc 2 s,
  ap (λ (t : ℕ). high * t) (pow-suc 2 s),
  bit_or_step low (high * 2 ^ suc s),
  ap (λ (t : ℕ). bit_or (low / 2) t) (halve s high),
  low_or_high s (low / 2) high (omega (arith, pow-suc 2 s)),
)

pub high_or_low : (s low high : ℕ) → low < 2 ^ s → bit_or (high * 2 ^ s) low ≡ high * 2 ^ s + low
high_or_low zero low high h =
    let e : low ≡ 0 = omega arith in
    rw e (omega (arith, none_or (high * 2 ^ 0) (high * 2 ^ 0) (omega arith)))
high_or_low (suc s) low high h = omega (
  arith,
  pow-suc 2 s,
  ap (λ (t : ℕ). high * t) (pow-suc 2 s),
  bit_or_step (high * 2 ^ suc s) low,
  ap (λ (t : ℕ). bit_or t (low / 2)) (halve s high),
  high_or_low s (low / 2) high (omega (arith, pow-suc 2 s)),
)

bit_and_even : (a b c : ℕ) → c ≡ b * 2 → bit_and a c ≡ bit_and (a / 2) b * 2
bit_and_even a b c e =
    let h : c / 2 ≡ b = omega arith in omega (arith, bit_and_step a c, ap (bit_and (a / 2)) h)

and_one : (a : ℕ) → bit_and a 1 ≡ a % 2
and_one a = omega (arith, bit_and_step a 1, none_and (a / 2) (a / 2) (omega arith))

-- `x & 0x80`.
pub bit_seven : (a : ℕ) → bit_and a 0x80 ≡ a / 128 % 2 * 128
bit_seven a = omega (
  arith,
  bit_and_even a 64 128 (omega arith),
  bit_and_even (a / 2) 32 64 (omega arith),
  bit_and_even (a / 2 / 2) 16 32 (omega arith),
  bit_and_even (a / 2 / 2 / 2) 8 16 (omega arith),
  bit_and_even (a / 2 / 2 / 2 / 2) 4 8 (omega arith),
  bit_and_even (a / 2 / 2 / 2 / 2 / 2) 2 4 (omega arith),
  bit_and_even (a / 2 / 2 / 2 / 2 / 2 / 2) 1 2 (omega arith),
  and_one (a / 2 / 2 / 2 / 2 / 2 / 2 / 2),
)
