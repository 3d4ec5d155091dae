-- ===== src/Drisl/Head.antt =====
-- `read_arg` reads exactly the heads that `head` writes.
use atmoq.Common.{
  ℕ, ◌+◌, ◌*◌, ◌/◌, ◌%◌, ◌^◌, ◌≤◌, ◌<◌, ◌≡◌, refl, sym, ap, ap₂, subst, ◌∙◌, some, [], ◌∷◌, ◌++◌,
  ok, panic, ltb, ◌==◌, ◌≢◌, ltb→le, lt→ltb, le→ltb, Bytes, IsByte, length, get_elem?, drop, take,
  All, At, At-le, At-right, At-get, At-of_get, At-join, At_range, arith, inl, inr, All-drop,
  All-take, Bool-cases,
}
use atmoq.Common.Bits.{low_five}
use native.Mathlib.Decide.{dec_lt}
use atmoq.Drisl.{
  What, index, minimal_value, check_minimal, read_wide, read_arg, from_be, reserved_or_indefinite,
  Checked,
}
use atmoq.Drisl.Syntax.{big_endian, head}
use atmoq.Drisl.Numbers.{
  from_be-big_endian, length-big_endian, big_endian-IsByte, big_endian-from_be, accumulate_At,
}
use atmoq.Drisl.Shape.{
  Width, info, bytes, least, Shape, head-Shape, Shape-head, width_of, one, two, four, eight, short,
  wide,
}

-- The branches of `read_arg`.
read_arg_short :
    (d : Bytes) (o b : ℕ) (what : What)
    → get_elem? d o ≡ some b
    → b % 32 < 24
    → read_arg d o what ≡ ok (b % 32, o + 1)
unfolding read_arg index
read_arg_short d o b what e h =
    rw (e, read_arg, index) (rw (low_five b) (rw (lt→ltb (b % 32) 24 h)))

read_arg_wide :
    (d : Bytes) (o b : ℕ) (what : What) (k : Width)
    → get_elem? d o ≡ some b
    → b % 32 ≡ info k
    → read_arg d o what ≡ read_wide d o what (info k) (bytes k)
unfolding read_arg index
read_arg_wide d o b what one e h = rw (e, read_arg, index) (rw (low_five b) (rw h))
read_arg_wide d o b what two e h = rw (e, read_arg, index) (rw (low_five b) (rw h))
read_arg_wide d o b what four e h = rw (e, read_arg, index) (rw (low_five b) (rw h))
read_arg_wide d o b what eight e h = rw (e, read_arg, index) (rw (low_five b) (rw h))

read_arg_reserved :
    (d : Bytes) (o b : ℕ) (what : What)
    → get_elem? d o ≡ some b
    → 27 < b % 32
    → read_arg d o what ≡ reserved_or_indefinite o what (b % 32)
unfolding read_arg index
read_arg_reserved d o b what e h =
    rw (e, read_arg, index)
      (rw (low_five b) (rw (le→ltb (b % 32) 24 (omega arith), lt→ltb 27 (b % 32) h)))

read_arg_other :
    (d : Bytes) (o b : ℕ) (what : What) (a : ℕ × ℕ)
    → get_elem? d o ≡ some b
    → 27 < b % 32
    → read_arg d o what ≢ ok a
read_arg_other d o b what a e h q =
    let stop = sym (read_arg_reserved d o b what e h) ∙ q in
    elim (Bool-cases (b % 32 == 31)) [ inl t ↦ cc (rw t at stop) | inr t ↦ cc (rw t at stop) ]

info_lem : (k : Width) (major : ℕ) → (major * 32 + info k) % 32 ≡ info k
info_lem one major = omega arith
info_lem two major = omega arith
info_lem four major = omega arith
info_lem eight major = omega arith

info_major : (k : Width) (major : ℕ) → (major * 32 + info k) / 2 ^ 5 ≡ major
info_major one major = omega arith
info_major two major = omega arith
info_major four major = omega arith
info_major eight major = omega arith

least_lem : (k : Width) → minimal_value (info k) ≡ least k
least_lem one = refl
least_lem two = refl
least_lem four = refl
least_lem eight = refl

bytes_small : (k : Width) → 1 * 256 ^ bytes k ≤ 2 ^ 64
bytes_small one = omega arith
bytes_small two = omega arith
bytes_small four = omega arith
bytes_small eight = omega arith

-- `read_wide` on a body that is there.
read_wide_At :
    (d body : Bytes) (o : ℕ) (what : What) (k : Width)
    → At d (o + 1) body
    → length body ≡ bytes k
    → All IsByte body
    → read_wide d o what (info k) (bytes k)
      ≡ check_minimal o what (info k) (bytes k) (from_be 0 body)
unfolding read_wide
read_wide_At d body o what k a l h =
    rw (le→ltb (length d) (o + 1 + bytes k) (omega (arith, At-le a)))
      (rw (accumulate_At d (bytes k) (o + 1) 0 body a l h (bytes_small k)))

read_wide_short :
    (d : Bytes) (o : ℕ) (what : What) (k : Width) (p : ℕ × ℕ)
    → length d < o + 1 + bytes k
    → read_wide d o what (info k) (bytes k) ≢ ok p
unfolding read_wide
read_wide_short d o what k p h q = cc (rw (lt→ltb (length d) (o + 1 + bytes k) h) at q)

check_minimal_ok :
    (o : ℕ) (what : What) (k : Width) (v n e : ℕ)
    → check_minimal o what (info k) (bytes k) v ≡ ok (n, e)
    → (least k ≤ v) × (n ≡ v) × (e ≡ o + 1 + bytes k)
check_minimal_ok o what k v n e q = elim (Bool-cases (ltb v (minimal_value (info k)))) [
  | inl t ↦ cc (rw t at q)
  | inr t ↦
      let r = accepted (rw t at q) in
      (omega (arith, least_lem k, ltb→le v (minimal_value (info k)) t), r.0, r.1)
]
  where
    accepted :
        ◌≡◌ {A = Checked (ℕ × ℕ)} (ok (v, o + 1 + bytes k)) (ok (n, e))
        → (n ≡ v) × (e ≡ o + 1 + bytes k)
    accepted r = ground arith

Shape-read :
    (d bs : Bytes) (o major n : ℕ) (what : What)
    → Shape major n bs
    → At d o bs
    → read_arg d o what ≡ ok (n, o + length bs)
Shape-read d bs o major n what (short h e) a =
    let b = major * 32 + n in
    let a' : At d o (b ∷ []) = subst (At d o) e a in
    let value : b % 32 ≡ n = omega arith in
    rw e (read_arg_short d o b what (At-get a') (omega arith) ∙ rw value)
Shape-read d bs o major n what (wide k lo hi e) a =
    let b = major * 32 + info k in
    let body = big_endian (bytes k) n in
    let a' : At d o ((b ∷ []) ++ body) = subst (At d o) e a in
    rw (e, length-big_endian (bytes k) n)
      (read_arg_wide d o b what k (At-get a') (info_lem k major)
        ∙ read_wide_At d body o what k (At-right (b ∷ []) body a') (length-big_endian (bytes k) n)
            (big_endian-IsByte (bytes k) n)
        ∙ rw
            (
              from_be-big_endian (bytes k) n hi,
              le→ltb n (minimal_value (info k)) (omega (arith, least_lem k)),
            )
            (ap (λ (t : ℕ). ok (n, t)) (omega arith)))

-- Each head is read back, whatever follows it.
pub read_arg_At :
    (d : Bytes) (o major n : ℕ) (what : What)
    → n < 2 ^ 64
    → At d o (head major n)
    → read_arg d o what ≡ ok (n, o + length (head major n))
read_arg_At d o major n what h a =
    Shape-read d (head major n) o major n what (head-Shape major n h) a

abbrev pub IsHeadAt : Bytes → ℕ → ℕ → ℕ → ℕ → Type 0
IsHeadAt d o major n e = At d o (head major n) × (e ≡ o + length (head major n)) × (n < 2 ^ 64)

Shape-found :
    {d bs : Bytes} {o major n e : ℕ}
    → Shape major n bs
    → At d o bs
    → e ≡ o + length bs
    → n < 2 ^ 64
    → IsHeadAt d o major n e
Shape-found {d} {bs} {o} {major} {n} {e} s a l h =
    let same = Shape-head major n bs s in (subst (At d o) same a, rw (← same) l, h)

read_wide_ok :
    (d : Bytes) (o b n e : ℕ) (what : What) (k : Width)
    → All IsByte d
    → get_elem? d o ≡ some b
    → b % 32 ≡ info k
    → read_wide d o what (info k) (bytes k) ≡ ok (n, e)
    → IsHeadAt d o (b / 32) n e
read_wide_ok d o b n e what k hd g i q = elim (dec_lt (length d) (o + 1 + bytes k)) [
  | yes t ↦ absurd (read_wide_short d o what k (n, e) t q)
  | no f ↦
      let (a, l) = At_range d (o + 1) (bytes k) (omega arith) in
      let body = take (bytes k) (drop (o + 1) d) in
      let hb : All IsByte body =
        All-take IsByte (bytes k) (drop (o + 1) d) (All-drop IsByte (o + 1) d hd) in
      let (same, bound) = big_endian-from_be (bytes k) body l hb in
      let (lo, nv, ev) =
        check_minimal_ok o what k (from_be 0 body) n e
          (sym (read_wide_At d body o what k a l hb) ∙ q) in
      Shape-found
        (wide k (rw nv lo) (rw nv bound)
          (ap₂ (λ (x : ℕ) (t : Bytes). x ∷ t) (omega arith) (rw (nv, same))))
        (At-join {xs = b ∷ []} (At-of_get g) a) (omega arith) (omega (arith, bytes_small k))
]

-- And nothing else is read: what `read_arg` accepts is a head.
pub read_arg_ok :
    (d : Bytes) (o b n e : ℕ) (what : What)
    → All IsByte d
    → get_elem? d o ≡ some b
    → read_arg d o what ≡ ok (n, e)
    → IsHeadAt d o (b / 32) n e
read_arg_ok d o b n e what hd g q = elim (dec_lt (b % 32) 24) [
  | yes t ↦
      let (nv, ev) = accepted (sym (read_arg_short d o b what g t) ∙ q) in
      Shape-found (short (rw nv t) (ap (λ (x : ℕ). x ∷ []) (omega arith))) (At-of_get g) ev
        (omega arith)
  | no f ↦ elim (dec_lt 27 (b % 32)) [
    | yes t ↦ absurd (read_arg_other d o b what (n, e) g t q)
    | no h ↦
        let (k, i) = width_of (b % 32) (omega arith) (omega arith) in
        read_wide_ok d o b n e what k hd g i (sym (read_arg_wide d o b what k g i) ∙ q)
  ]
]
  where
    accepted :
        ◌≡◌ {A = Checked (ℕ × ℕ)} (ok (b % 32, o + 1)) (ok (n, e)) → (n ≡ b % 32) × (e ≡ o + 1)
    accepted r = ground arith

-- The initial byte of a head carries its major type.
pub head-major :
    (d : Bytes) (o major n : ℕ)
    → n < 2 ^ 64
    → At d o (head major n)
    → (b : ℕ) × (get_elem? d o ≡ some b) × (b / 2 ^ 5 ≡ major)
head-major d o major n h a = initial (head major n) (head-Shape major n h) a
  where
    initial :
        (bs : Bytes)
        → Shape major n bs
        → At d o bs
        → (b : ℕ) × (get_elem? d o ≡ some b) × (b / 2 ^ 5 ≡ major)
    initial bs (short l e) a = (major * 32 + n, At-get (subst (At d o) e a), omega arith)
    initial bs (wide k lo hi e) a =
        (major * 32 + info k, At-get (subst (At d o) e a), info_major k major)

pub length-head : (major n : ℕ) → n < 2 ^ 64 → 1 ≤ length (head major n)
length-head major n h = long (head major n) (head-Shape major n h)
  where
    long : (bs : Bytes) → Shape major n bs → 1 ≤ length bs
    long bs (short l e) = rw e (omega arith)
    long bs (wide k lo hi e) = rw e (omega arith)

reserved-ne-panic : (o ai : ℕ) (what : What) → reserved_or_indefinite o what ai ≢ panic
reserved-ne-panic o ai what q = ground arith

check_minimal-ne-panic : (o ai width v : ℕ) (what : What) → check_minimal o what ai width v ≢ panic
check_minimal-ne-panic o ai width v what q = ground arith

read_wide-ne-panic :
    (d : Bytes) (o : ℕ) (what : What) (k : Width)
    → All IsByte d
    → read_wide d o what (info k) (bytes k) ≢ panic
read_wide-ne-panic d o what k hd q = elim (dec_lt (length d) (o + 1 + bytes k)) [
  | yes t ↦ unfold read_wide in cc (rw (lt→ltb (length d) (o + 1 + bytes k) t) at q)
  | no f ↦
      let (a, l) = At_range d (o + 1) (bytes k) (omega arith) in
      let body = take (bytes k) (drop (o + 1) d) in
      let hb : All IsByte body =
        All-take IsByte (bytes k) (drop (o + 1) d) (All-drop IsByte (o + 1) d hd) in
      check_minimal-ne-panic o (info k) (bytes k) (from_be 0 body) what
        (sym (read_wide_At d body o what k a l hb) ∙ q)
]

-- With a byte at `o`, `read_arg` does not index out of range.
pub read_arg-ne-panic :
    (d : Bytes) (o b : ℕ) (what : What)
    → All IsByte d
    → get_elem? d o ≡ some b
    → read_arg d o what ≢ panic
read_arg-ne-panic d o b what hd g q = elim (dec_lt (b % 32) 24) [
  | yes t ↦ cc (read_arg_short d o b what g t)
  | no f ↦ elim (dec_lt 27 (b % 32)) [
    | yes t ↦ reserved-ne-panic o (b % 32) what (sym (read_arg_reserved d o b what g t) ∙ q)
    | no h ↦
        let (k, i) = width_of (b % 32) (omega arith) (omega arith) in
        read_wide-ne-panic d o what k hd (sym (read_arg_wide d o b what k g i) ∙ q)
  ]
]
