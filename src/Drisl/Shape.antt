-- ===== src/Drisl/Shape.antt =====
-- The two forms of a head, by the length of its argument.
use atmoq.Common.{
  ℕ, ◌+◌, ◌*◌, ◌^◌, ◌≤◌, ◌<◌, ◌≡◌, [], ◌∷◌, ltb, ltb→lt, ltb→le, lt→ltb, le→ltb, Bytes, arith, inl,
  inr, Bool-cases,
}
use native.Mathlib.Decide.{ℕ_discrete}
use atmoq.Drisl.Syntax.{big_endian, head}

-- The four lengths of an argument that follows the initial byte.
pub data Width : Type 0 where
  one two four eight : Width

abbrev pub info : Width → ℕ
info one = 24
info two = 25
info four = 26
info eight = 27

abbrev pub bytes : Width → ℕ
bytes one = 1
bytes two = 2
bytes four = 4
bytes eight = 8

abbrev pub least : Width → ℕ
least one = 24
least two = 256
least four = 65536
least eight = 2 ^ 32

-- The two forms of a head.
pub data Shape (major n : ℕ) (bs : Bytes) : Type 0 where
  short : n < 24 → bs ≡ (major * 32 + n) ∷ [] → Shape major n bs
  wide :
      (k : Width)
      → least k ≤ n
      → n < 256 ^ bytes k
      → bs ≡ (major * 32 + info k) ∷ big_endian (bytes k) n
      → Shape major n bs

pub head-Shape : (major n : ℕ) → n < 2 ^ 64 → Shape major n (head major n)
unfolding head
head-Shape major n h = elim (Bool-cases (ltb n 24)) [
  | inl a ↦ short (ltb→lt n 24 a) (rw a)
  | inr a ↦ elim (Bool-cases (ltb n 256)) [
    | inl b ↦ wide one (ltb→le n 24 a) (ltb→lt n 256 b) (rw (a, b))
    | inr b ↦ elim (Bool-cases (ltb n 65536)) [
      | inl c ↦ wide two (ltb→le n 256 b) (ltb→lt n 65536 c) (rw (a, b, c))
      | inr c ↦ elim (Bool-cases (ltb n (2 ^ 32))) [
        | inl e ↦ wide four (ltb→le n 65536 c) (ltb→lt n (2 ^ 32) e) (rw (a, b, c, e))
        | inr e ↦ wide eight (ltb→le n (2 ^ 32) e) h (rw (a, b, c, e))
      ]
    ]
  ]
]

pub Shape-head : (major n : ℕ) (bs : Bytes) → Shape major n bs → bs ≡ head major n
unfolding head
Shape-head major n bs (short h e) = rw (lt→ltb n 24 h) e
Shape-head major n bs (wide one lo hi e) = rw (le→ltb n 24 lo, lt→ltb n 256 hi) e
Shape-head major n bs (wide two lo hi e) =
    rw (le→ltb n 24 (omega arith), le→ltb n 256 lo, lt→ltb n 65536 hi) e
Shape-head major n bs (wide four lo hi e) =
    rw
      (
        le→ltb n 24 (omega arith),
        le→ltb n 256 (omega arith),
        le→ltb n 65536 lo,
        lt→ltb n (2 ^ 32) hi,
      )
      e
Shape-head major n bs (wide eight lo hi e) =
    rw
      (
        le→ltb n 24 (omega arith),
        le→ltb n 256 (omega arith),
        le→ltb n 65536 (omega arith),
        le→ltb n (2 ^ 32) lo,
      )
      e

pub width_of : (ai : ℕ) → 24 ≤ ai → ai ≤ 27 → (k : Width) × (ai ≡ info k)
width_of ai lo hi = elim (ℕ_discrete ai 24) [
  | yes a ↦ (one, a)
  | no a ↦ elim (ℕ_discrete ai 25) [
    | yes b ↦ (two, b)
    | no b ↦ elim (ℕ_discrete ai 26) [ yes c ↦ (four, c) | no c ↦ (eight, omega arith) ]
  ]
]
