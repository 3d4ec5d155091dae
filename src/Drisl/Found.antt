-- ===== src/Drisl/Found.antt =====
-- What an accepted head, string, link or simple value says about the bytes.
use atmoq.Common.{
  ℕ, suc, ◌+◌, ◌/◌, ◌^◌, ◌≤◌, ◌<◌, ◌≡◌, refl, sym, ap, subst, ◌∙◌, true, false, some, ◌⊎◌, inl, inr,
  [], ◌∷◌, ◌++◌, ok, ◌==◌, Bytes, IsByte, length, get_elem?, take, drop, All, At, At-left, At-right,
  At-get, At-of_get, At-join, At_range, length-append, arith, Option-cases, All-drop, All-take,
  eq→==, min, if◌then◌else◌, >>=-eq-ok,
}
use mathlib.Core.Option.{some-injective}
use atmoq.Drisl.{
  What, Checked, range, slice, check_body, content_head, check_prefix, cid_content, check_float,
  check_simple, from_be, by_major, validate_item, read_arg, bytes_length, text_length, index,
  is_nan, is_infinite, fail, tag_content,
}
use atmoq.Drisl.Utf8.{is_utf8}
use atmoq.Drisl.Syntax.{float, head, encode, encode_text, encode_bytes, IsText, IsValid}
use atmoq.Drisl.Head.{read_arg_ok, read_arg_At, IsHeadAt}
use atmoq.Drisl.Numbers.{big_endian-from_be}
use atmoq.Drisl.Accepts.{range_At}

pub same_ok : {a b : ℕ} → ◌≡◌ {A = Checked ℕ} (ok a) (ok b) → a ≡ b
same_ok e = cc

check_body_ok :
    (d : Bytes) (major len start e : ℕ)
    → check_body d major (len, start) ≡ ok e
    → (start + len ≤ length d)
      × (e ≡ start + len)
      × (len < 2 ^ 64)
      × ((major == 3) ≡ true → is_utf8 (range d start (start + len)) ≡ true)
unfolding check_body slice
check_body_ok d major len start e q = (ground arith, ground arith, ground arith, λ t. ground arith)

pub validate_item_ok :
    (d : Bytes) (room o e : ℕ)
    → validate_item (suc room) d o ≡ ok e
    → (b : ℕ) × (get_elem? d o ≡ some b)
      × (by_major (validate_item room d) d o b (b / 2 ^ 5) ≡ ok e)
unfolding validate_item
validate_item_ok d room o e q = elim (Option-cases (get_elem? d o)) [
  | inl n ↦ cc (rw (n, validate_item) at q)
  | inr (b, g) ↦ (b, g, rw (g, validate_item) at q)
]

pub content_head_ok :
    (d : Bytes) (e : ℕ) (u : Unit {0})
    → content_head d e ≡ ok u
    → (b : ℕ) × (get_elem? d e ≡ some b) × (b / 2 ^ 5 ≡ 2)
unfolding content_head
content_head_ok d e u q = elim (Option-cases (get_elem? d e)) [
  | inl n ↦ cc (rw (n, content_head) at q)
  | inr (b, g) ↦ (b, g, major b (rw (g, content_head) at q))
]
  where
    major :
        (b : ℕ)
        → (if b / 2 ^ 5 == 2 then ok tt else fail (min e (length d)) tag_content) ≡ ok u
        → b / 2 ^ 5 ≡ 2
    major b r = ground arith

check_prefix_ok :
    (d : Bytes) (content_end start x e : ℕ)
    → get_elem? d start ≡ some x
    → check_prefix d content_end start ≡ ok e
    → (x ≡ 0) × (e ≡ content_end)
unfolding check_prefix index
check_prefix_ok d content_end start x e g q = (ground arith, ground arith)

check_float_ok :
    (d : Bytes) (o e : ℕ)
    → check_float d o ≡ ok e
    → (o + 9 ≤ length d)
      × (e ≡ o + 9)
      × (is_nan (from_be 0 (range d (o + 1) (o + 9))) ≡ false)
      × (is_infinite (from_be 0 (range d (o + 1) (o + 9))) ≡ false)
unfolding check_float
check_float_ok d o e q = (ground arith, ground arith, ground arith, ground arith)

module _ (d : Bytes) (hd : All IsByte d) where
  -- The bytes of a range that the validator has measured.
  pub body : (o n : ℕ) → o + n ≤ length d → (s : Bytes) × At d o s × (length s ≡ n) × All IsByte s
  body o n h =
      let (a, l) = At_range d o n h in
      (take n (drop o d), a, l, All-take IsByte n (drop o d) (All-drop IsByte o d hd))

  pub head_found :
      (o b n e major : ℕ) (what : What)
      → get_elem? d o ≡ some b
      → b / 2 ^ 5 ≡ major
      → read_arg d o what ≡ ok (n, e)
      → IsHeadAt d o major n e
  head_found o b n e major what g m q =
      subst (λ k. IsHeadAt d o k n e) m (read_arg_ok d o b n e what hd g q)

  string_found :
      (o b len start e major : ℕ) (what : What)
      → get_elem? d o ≡ some b
      → b / 2 ^ 5 ≡ major
      → read_arg d o what ≡ ok (len, start)
      → check_body d major (len, start) ≡ ok e
      → (s : Bytes) × At d o (head major (length s) ++ s)
        × (e ≡ o + length (head major (length s) ++ s))
        × (length s < 2 ^ 64)
        × All IsByte s
        × ((major == 3) ≡ true → is_utf8 s ≡ true)
  string_found o b len start e major what g m q c =
      let (a, ev, fits) = head_found o b len start major what g m q in
      let (le, ee, short, u) = check_body_ok d major len start e c in
      let (s, here, l, bytes) = body start len le in
      let h = head major len in
      let placed : At d (o + length h) s = subst (λ k. At d k s) ev here in
      let utf8 : (major == 3) ≡ true → is_utf8 s ≡ true = λ t.
        subst (λ x. is_utf8 x ≡ true) (ap (λ n. range d start (start + n)) (sym l) ∙ range_At here)
          (u t) in
      (
        s,
        rw l (At-join {xs = h} a placed),
        rw l (omega (arith, length-append h s)),
        rw l short,
        bytes,
        utf8,
      )

  pub IsText-found :
      (room o b e : ℕ)
      → get_elem? d o ≡ some b
      → b / 2 ^ 5 ≡ 3
      → by_major (validate_item room d) d o b (b / 2 ^ 5) ≡ ok e
      → (s : Bytes) × At d o (encode_text s) × (e ≡ o + length (encode_text s)) × IsText s
  unfolding by_major
  IsText-found room o b e g m q =
      let ((len, start), r, c) =
        >>=-eq-ok (read_arg d o text_length) (check_body d 3) (rw m at q) in
      let (s, a, ev, short, bytes, u) = string_found o b len start e 3 text_length g m r c in
      (s, a, ev, (bytes, short, u refl))

  pub bytes_found :
      (room o b e : ℕ)
      → get_elem? d o ≡ some b
      → b / 2 ^ 5 ≡ 2
      → by_major (validate_item room d) d o b (b / 2 ^ 5) ≡ ok e
      → (s : Bytes) × At d o (encode_bytes s)
        × (e ≡ o + length (encode_bytes s))
        × (length s < 2 ^ 64)
        × All IsByte s
  unfolding by_major
  bytes_found room o b e g m q =
      let ((len, start), r, c) =
        >>=-eq-ok (read_arg d o bytes_length) (check_body d 2) (rw m at q) in
      let (s, a, ev, short, bytes, u) = string_found o b len start e 2 bytes_length g m r c in
      (s, a, ev, short, bytes)

  link_body :
      (e content_end e' : ℕ) (s : Bytes)
      → At d e (encode_bytes s)
      → content_end ≡ e + length (encode_bytes s)
      → length s < 2 ^ 64
      → All IsByte s
      → check_prefix d content_end (e + length (head 2 (length s))) ≡ ok e'
      → (t : Bytes) × At d e (encode_bytes (0 ∷ t))
        × (e' ≡ e + length (encode_bytes (0 ∷ t)))
        × All IsByte t
        × (suc (length t) < 2 ^ 64)
  unfolding check_prefix index
  link_body e content_end e' [] a ev short bytes q =
      let same : content_end ≡ e + length (head 2 0) = omega (arith, length-append (head 2 0) []) in
      cc (rw (eq→== content_end (e + length (head 2 0)) same) at q)
  link_body e content_end e' (x ∷ t) a ev short bytes q =
      let g = At-get (At-right (head 2 (suc (length t))) (x ∷ t) a) in
      let (zeroed, last) =
        check_prefix_ok d content_end (e + length (head 2 (suc (length t)))) x e' g q in
      (
        t,
        subst (λ y. At d e (encode_bytes (y ∷ t))) zeroed a,
        last
            ∙ ev
            ∙ omega (
              arith,
              length-append (head 2 (suc (length t))) (x ∷ t),
              length-append (head 2 (suc (length t))) (0 ∷ t),
            ),
        bytes.1,
        short,
      )

  pub link_found :
      (room e e' : ℕ)
      → cid_content (validate_item (suc room) d) d e ≡ ok e'
      → (s : Bytes) × At d e (encode_bytes (0 ∷ s))
        × (e' ≡ e + length (encode_bytes (0 ∷ s)))
        × All IsByte s
        × (suc (length s) < 2 ^ 64)
  unfolding cid_content
  link_found room e e' q =
      let (u, c, q1) = >>=-eq-ok (content_head d e) _ q in
      let (b, g, m) = content_head_ok d e u c in
      let (content_end, v, q2) = >>=-eq-ok (validate_item (suc room) d e) _ q1 in
      let (b', g', by) = validate_item_ok d room e content_end v in
      let same : b' ≡ b = some-injective _ _ (sym g' ∙ g) in
      let (s, a, ev, short, bytes) =
        bytes_found room e b content_end g m (
          subst (λ k. by_major (validate_item room d) d e k (k / 2 ^ 5) ≡ ok content_end) same
            by) in
      link_body e content_end e' s a ev short bytes (
        rw (read_arg_At d e 2 (length s) bytes_length short (At-left (head 2 (length s)) s a)) at
          q2)

  pub float_found :
      (o e : ℕ)
      → get_elem? d o ≡ some 0xfb
      → check_float d o ≡ ok e
      → (bits : ℕ) × At d o (encode (float bits))
        × (e ≡ o + length (encode (float bits)))
        × IsValid (float bits)
  unfolding encode IsValid
  float_found o e g q =
      let (le, ev, number, finite) = check_float_ok d o e q in
      let (s, here, l, bytes) = body (o + 1) 8 (omega arith) in
      let found : range d (o + 1) (o + 9) ≡ s =
        ap (range d (o + 1)) (omega (arith, l)) ∙ range_At here in
      let (same, fits) = big_endian-from_be 8 s l bytes in
      let value : from_be 0 (range d (o + 1) (o + 9)) ≡ from_be 0 s = ap (from_be 0) found in
      (
        from_be 0 s,
        rw same (At-join {xs = 0xfb ∷ []} (At-of_get g) here),
        rw same (omega (arith, l)),
        (fits, rw value at number, rw value at finite),
      )

pub check_simple_ok :
    (d : Bytes) (o b e : ℕ)
    → check_simple d o b ≡ ok e
    → ((0xf4 ≤ b) × (b ≤ 0xf6) × (e ≡ o + 1)) ⊎ ((b ≡ 0xfb) × (check_float d o ≡ ok e))
unfolding check_simple
check_simple_ok d o b e q = ground arith
