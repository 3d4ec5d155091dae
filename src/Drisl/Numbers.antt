-- ===== src/Drisl/Numbers.antt =====
-- An argument as bytes: what `read_arg` adds up is the number that `big_endian` writes.
use atmoq.Common.{
  ℕ, zero, suc, ◌+◌, ◌*◌, ◌/◌, ◌%◌, ◌^◌, ◌≤◌, ◌<◌, ◌≡◌, refl, sym, ap, ap₂, subst, ◌∙◌, some, [],
  ◌∷◌, ◌++◌, ok, Bytes, IsByte, length, All-append, get_elem?, All, At, At-right, At-get,
  length-append, bit_or, arith, split_at, All-append_left, All-append_right,
}
use atmoq.Common.Bits.{high_or_low}
use native.Mathlib.Nat.{pow-suc}
use atmoq.Drisl.{index, accumulate, from_be}
use atmoq.Drisl.Syntax.{big_endian}

pub from_be-snoc :
    (acc : ℕ) (xs : Bytes) (b : ℕ) → from_be acc (xs ++ (b ∷ [])) ≡ from_be acc xs * 256 + b
unfolding from_be
from_be-snoc acc [] b = refl
from_be-snoc acc (x ∷ xs) b = from_be-snoc (acc * 256 + x) xs b

pub from_be-big_endian : (w n : ℕ) → n < 256 ^ w → from_be 0 (big_endian w n) ≡ n
unfolding big_endian
from_be-big_endian zero n h = unfold from_be in omega arith
from_be-big_endian (suc w) n h = omega (
  arith,
  from_be-snoc 0 (big_endian w (n / 256)) (n % 256),
  from_be-big_endian w (n / 256) (omega (arith, pow-suc 256 w)),
)

pub length-big_endian : (w n : ℕ) → length (big_endian w n) ≡ w
unfolding big_endian
length-big_endian zero n = refl
length-big_endian (suc w) n =
    omega
      (arith, length-append (big_endian w (n / 256)) (n % 256 ∷ []), length-big_endian w (n / 256))

pub big_endian-IsByte : (w n : ℕ) → All IsByte (big_endian w n)
unfolding big_endian
big_endian-IsByte zero n = tt
big_endian-IsByte (suc w) n =
    All-append IsByte (big_endian w (n / 256)) (n % 256 ∷ []) (big_endian-IsByte w (n / 256))
      (omega arith)

-- The bytes of a number are determined by it.
abbrev IsEncoded : ℕ → Bytes → Type 0
IsEncoded w body = (big_endian w (from_be 0 body) ≡ body) × (from_be 0 body < 256 ^ w)

big_endian-snoc :
    (w b : ℕ) (front : Bytes) → b < 256 → IsEncoded w front → IsEncoded (suc w) (front ++ (b ∷ []))
unfolding big_endian
big_endian-snoc w b front hb (same, bound) =
    let value = from_be-snoc 0 front b in
    let high : from_be 0 (front ++ (b ∷ [])) / 256 ≡ from_be 0 front = omega (arith, value) in
    let low : from_be 0 (front ++ (b ∷ [])) % 256 ≡ b = omega (arith, value) in
    (
      ap₂ (λ (t : Bytes) (c : ℕ). t ++ (c ∷ [])) (ap (big_endian w) high ∙ same) low,
      omega (arith, value, pow-suc 256 w),
    )

last_byte :
    (w : ℕ) (front back : Bytes)
    → length back ≡ 1
    → All IsByte (front ++ back)
    → IsEncoded w front
    → IsEncoded (suc w) (front ++ back)
last_byte w front [] l h e = absurd (omega arith)
last_byte w front (b ∷ []) l h e =
    big_endian-snoc w b front (All-append_right IsByte front (b ∷ []) h).0 e
last_byte w front (b ∷ c ∷ r) l h e = absurd (omega arith)

pub big_endian-from_be :
    (w : ℕ) (body : Bytes) → length body ≡ w → All IsByte body → IsEncoded w body
big_endian-from_be zero [] e h = unfold from_be big_endian in (refl, omega arith)
big_endian-from_be zero (x ∷ xs) e h = absurd (omega arith)
big_endian-from_be (suc w) body e h =
    let (front, back, s, l) = split_at w body (omega arith) in
    subst (IsEncoded (suc w)) (sym s) (
      last_byte w front back (omega (arith, ap length s, length-append front back))
        (subst (All IsByte) s h)
        (big_endian-from_be w front l (All-append_left IsByte front back (subst (All IsByte) s h))))

pow_pos : (n : ℕ) → 0 < 256 ^ n
pow_pos zero = omega arith
pow_pos (suc n) = omega (arith, pow-suc 256 n, pow_pos n)

accumulate_step :
    (d : Bytes) (n i v x : ℕ)
    → get_elem? d i ≡ some x
    → accumulate d (suc n) i v ≡ accumulate d n (i + 1) (bit_or (v * 2 ^ 8 % 2 ^ 64) x)
unfolding accumulate
accumulate_step d n i v x e = rw (e, accumulate, index)

shift_in :
    (v x p : ℕ)
    → x < 256
    → 0 < p
    → (v + 1) * (p * 256) ≤ 2 ^ 64
    → (bit_or (v * 2 ^ 8 % 2 ^ 64) x ≡ v * 256 + x) × ((v * 256 + x + 1) * p ≤ 2 ^ 64)
shift_in v x p hx hp h =
    let small : v < 2 ^ 56 = grind arith in
    let fits : v * 2 ^ 8 % 2 ^ 64 ≡ v * 2 ^ 8 = omega arith in
    (rw fits (high_or_low 8 x v hx ∙ omega arith), grind arith)

pub accumulate_At :
    (d : Bytes) (n i v : ℕ) (body : Bytes)
    → At d i body
    → length body ≡ n
    → All IsByte body
    → (v + 1) * 256 ^ n ≤ 2 ^ 64
    → accumulate d n i v ≡ ok (from_be v body)
unfolding accumulate from_be
accumulate_At d zero i v [] a e h le = refl
accumulate_At d zero i v (x ∷ xs) a e h le = absurd (omega arith)
accumulate_At d (suc n) i v [] a e h le = absurd (omega arith)
accumulate_At d (suc n) i v (x ∷ xs) a e h le =
    let (bits, room) = shift_in v x (256 ^ n) h.0 (pow_pos n) (rw (pow-suc 256 n) at le) in
    accumulate_step d n i v x (At-get a)
    ∙ rw bits
        (accumulate_At d n (i + 1) (v * 256 + x) xs (At-right (x ∷ []) xs a) (omega arith) h.1 room)
