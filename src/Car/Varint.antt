-- ===== src/Car/Varint.antt =====
-- LEB128 as an encoder writes it, and what `varint` reads.
use atmoq.Common.{
  ℕ, zero, suc, ◌+◌, ◌-◌, ◌*◌, ◌/◌, ◌%◌, ◌^◌, ◌≤◌, ◌<◌, ◌≡◌, false, refl, sym, ap, ◌∙◌, [], ◌∷◌,
  ◌++◌, ok, if◌then◌else◌, ltb, Bool-cases, ltb→lt, ltb→le, lt→leb, inl, inr, Bytes, length, All,
  arith, bit_and, bit_or,
}
use atmoq.Common.Bits.{low_seven, bit_seven, low_or_high}
use native.Mathlib.Nat.{pow-suc}
use atmoq.Car.{varint, varint_loop}

-- `write_varint` of the tests: at most `k` bytes.
unfoldable pub leb_bytes : ℕ → ℕ → Bytes
leb_bytes zero n = []
leb_bytes (suc k) n =
    let rest = leb_bytes k (n / 128) in if ltb n 128 then n ∷ [] else (n % 128 + 128) ∷ rest

-- A 64-bit number takes ten bytes at most.
abbrev pub leb_u64 : ℕ → Bytes
leb_u64 = leb_bytes 10

shifted_in :
    (b value shift low : ℕ)
    → value < 2 ^ shift
    → b % 128 ≡ low
    → low * 2 ^ shift < 2 ^ 64
    → bit_or value (bit_and b 0x7f * 2 ^ shift % 2 ^ 64) ≡ value + low * 2 ^ shift
shifted_in b value shift low hv e fits =
    let bits : bit_and b 0x7f * 2 ^ shift % 2 ^ 64 ≡ low * 2 ^ shift =
      ap (λ (t : ℕ). t * 2 ^ shift % 2 ^ 64) (low_seven b ∙ e) ∙ omega (arith, fits) in
    ap (bit_or value) bits ∙ low_or_high shift value low hv

last_round :
    (n value shift : ℕ) (rest : Bytes)
    → n < 128
    → value < 2 ^ shift
    → n * 2 ^ shift < 2 ^ 64
    → varint_loop (n ∷ rest) value shift ≡ ok (value + n * 2 ^ shift, rest)
unfolding varint_loop
last_round n value shift rest h hv fits =
    let stop : bit_and n 0x80 ≡ 0 = bit_seven n ∙ omega (arith, h) in
    rw (shifted_in n value shift n hv (omega (arith, h)) fits) (rw stop refl)

more_rounds :
    (b value shift low : ℕ) (rest : Bytes)
    → value < 2 ^ shift
    → b ≡ low + 128
    → low < 128
    → low * 2 ^ shift < 2 ^ 64
    → shift + 7 < 64
    → varint_loop (b ∷ rest) value shift ≡ varint_loop rest (value + low * 2 ^ shift) (shift + 7)
unfolding varint_loop
more_rounds b value shift low rest hv e hl fits small =
    let go : bit_and b 0x80 ≡ 128 = bit_seven b ∙ omega (arith, e, hl) in
    rw (shifted_in b value shift low hv (omega (arith, e, hl)) fits)
      (rw (go, lt→leb 64 (shift + 7) small) refl)

twice : (s t : ℕ) → t ≡ suc s → 2 ^ t ≡ 2 * 2 ^ s
twice s t e = omega (arith, ap (λ (x : ℕ). 2 ^ x) e, pow-suc 2 s)

seven_up : (shift : ℕ) → 2 ^ (shift + 7) ≡ 128 * 2 ^ shift
seven_up shift = omega (
  arith,
  twice shift (shift + 1) (omega arith),
  twice (shift + 1) (shift + 2) (omega arith),
  twice (shift + 2) (shift + 3) (omega arith),
  twice (shift + 3) (shift + 4) (omega arith),
  twice (shift + 4) (shift + 5) (omega arith),
  twice (shift + 5) (shift + 6) (omega arith),
  twice (shift + 6) (shift + 7) (omega arith),
)

by_seven : (n : ℕ) → n ≡ n % 128 + n / 128 * 128
by_seven n = omega arith

-- The split of a number at its low seven bits, seven bits further up.
split_seven : (n shift : ℕ) → n * 2 ^ shift ≡ n % 128 * 2 ^ shift + n / 128 * 2 ^ (shift + 7)
split_seven n shift = omega (
  arith,
  ap (λ (t : ℕ). t * 2 ^ shift) (by_seven n),
  ap (λ (t : ℕ). n / 128 * t) (seven_up shift),
)

two_left : (k n : ℕ) → n < 128 ^ suc k → ltb n 128 ≡ false → 1 ≤ k
two_left zero n h e = absurd (omega (arith, h, ltb→le n 128 e))
two_left (suc k) n h e = omega arith

grows :
    (value shift low : ℕ)
    → value < 2 ^ shift
    → low < 128
    → value + low * 2 ^ shift < 2 ^ (shift + 7)
grows value shift low hv hl =
    let whole : low + (127 - low) ≡ 127 = omega (arith, hl) in
    omega (arith, hv, seven_up shift, ap (λ (t : ℕ). t * 2 ^ shift) whole)

varint_loop-leb :
    (k n value shift : ℕ) (rest : Bytes)
    → n < 128 ^ k
    → 1 ≤ k
    → shift + 7 * k ≤ 70
    → value < 2 ^ shift
    → n * 2 ^ shift < 2 ^ 64
    → varint_loop (leb_bytes k n ++ rest) value shift ≡ ok (value + n * 2 ^ shift, rest)
unfolding leb_bytes
varint_loop-leb zero n value shift rest h one room hv fits = absurd (omega (arith, one))
varint_loop-leb (suc k) n value shift rest h one room hv fits = elim (Bool-cases (ltb n 128)) [
  | inl e ↦ rw e (last_round n value shift rest (ltb→lt n 128 e) hv fits)
  | inr e ↦ rw e (
      more_rounds (n % 128 + 128) value shift (n % 128) (leb_bytes k (n / 128) ++ rest) hv refl
        (omega arith) (omega (arith, fits, split_seven n shift))
        (omega (arith, room, two_left k n h e))
      ∙ varint_loop-leb k (n / 128) (value + n % 128 * 2 ^ shift) (shift + 7) rest
          (omega (arith, h, pow-suc 128 k)) (two_left k n h e) (omega (arith, room))
          (grows value shift (n % 128) hv (omega arith)) (omega (arith, fits, split_seven n shift))
      ∙ ap (λ (t : ℕ). ok (t, rest)) (omega (arith, split_seven n shift)))
]

-- What a LEB128 encoder writes for a 64-bit number is read back as that number, and the reader
-- stands behind it.
pub varint-leb_u64 : (n : ℕ) (rest : Bytes) → n < 2 ^ 64 → varint (leb_u64 n ++ rest) ≡ ok (n, rest)
unfolding varint
varint-leb_u64 n rest h =
    varint_loop-leb 10 n 0 0 rest (omega (arith, h)) (omega arith) (omega arith) (omega arith)
      (omega (arith, h))
    ∙ ap (λ (t : ℕ). ok (t, rest)) (omega arith)

-- A byte with the bit set that says that another one follows.
abbrev pub IsContinued : ℕ → Type 0
IsContinued x = (128 ≤ x) × (x < 256)

-- The tenth byte.
stops : (b : ℕ) → b < 128 → bit_and b 0x80 ≡ 0
stops b h = bit_seven b ∙ omega (arith, h)

last_bit :
    (value b c : ℕ) (rest : Bytes)
    → b < 128
    → c < 128
    → b % 2 ≡ c % 2
    → varint_loop (b ∷ rest) value 63 ≡ varint_loop (c ∷ rest) value 63
unfolding varint_loop
last_bit value b c rest hb hc e =
    let kept : b % 128 * 2 ^ 63 % 2 ^ 64 ≡ c % 128 * 2 ^ 63 % 2 ^ 64 = omega (arith, e, hb, hc) in
    let same : bit_and b 0x7f * 2 ^ 63 % 2 ^ 64 ≡ bit_and c 0x7f * 2 ^ 63 % 2 ^ 64 =
      ap (λ (t : ℕ). t * 2 ^ 63 % 2 ^ 64) (low_seven b)
      ∙ kept
      ∙ ap (λ (t : ℕ). t * 2 ^ 63 % 2 ^ 64) (sym (low_seven c)) in
    rw (stops b hb, stops c hc) (ap (λ (t : ℕ). ok (bit_or value t, rest)) same)

tenth_byte :
    (bs : Bytes) (value shift b c : ℕ) (rest : Bytes)
    → All IsContinued bs
    → shift + 7 * length bs ≡ 63
    → b < 128
    → c < 128
    → b % 2 ≡ c % 2
    → varint_loop (bs ++ (b ∷ rest)) value shift ≡ varint_loop (bs ++ (c ∷ rest)) value shift
unfolding varint_loop
tenth_byte [] value shift b c rest h at hb hc e =
    let full : shift ≡ 63 = omega (arith, at) in
    ap (varint_loop (b ∷ rest) value) full
    ∙ last_bit value b c rest hb hc e
    ∙ ap (varint_loop (c ∷ rest) value) (sym full)
tenth_byte (x ∷ bs) value shift b c rest h at hb hc e =
    let go : bit_and x 0x80 ≡ 128 = bit_seven x ∙ omega (arith, h.0) in
    let value' = bit_or value (bit_and x 0x7f * 2 ^ shift % 2 ^ 64) in
    rw go (rw (tenth_byte bs value' (shift + 7) b c rest h.1 (omega (arith, at)) hb hc e) refl)

-- Of a tenth byte that is the last only the lowest bit is read: behind nine bytes that are
-- continued, two such bytes that agree in it give the same result.
pub varint-tenth_byte :
    (bs : Bytes) (b c : ℕ) (rest : Bytes)
    → All IsContinued bs
    → length bs ≡ 9
    → b < 128
    → c < 128
    → b % 2 ≡ c % 2
    → varint (bs ++ (b ∷ rest)) ≡ varint (bs ++ (c ∷ rest))
unfolding varint
varint-tenth_byte bs b c rest h nine hb hc e =
    tenth_byte bs 0 0 b c rest h (omega (arith, nine)) hb hc e
