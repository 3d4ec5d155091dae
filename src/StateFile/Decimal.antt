-- ===== src/StateFile/Decimal.antt =====
-- Decimal numbers: what is printed is parsed back.
use atmoq.Common.{
  ℕ, zero, suc, ◌+◌, ◌-◌, ◌*◌, ◌/◌, ◌%◌, ◌^◌, ◌≤◌, ◌<◌, ◌≡◌, ◌≢◌, refl, ap, ◌∙◌, true, false, ◌&&◌,
  some, [], ◌∷◌, ◌++◌, ltb, ◌==◌, Bool-cases, ltb→lt, ltb→le, inl, inr, All, arith,
}
use native.Mathlib.Nat.{pow-suc}
use atmoq.StateFile.{
  Text, is_whitespace, trim_start, keep_before, trim_end, trim, digits_of, show_u64, is_digit,
  parse_digits, parse_unsigned, without_plus,
}

abbrev pub IsDigit : ℕ → Type 0
IsDigit c = (48 ≤ c) × (c ≤ 57)

-- The value of digits behind `acc`.
unfoldable pub value_of : ℕ → Text → ℕ
value_of acc [] = acc
value_of acc (c ∷ cs) = value_of (acc * 10 + (c - 48)) cs

-- The value grows with what is in front.
value_of-le : (acc : ℕ) (cs : Text) → acc ≤ value_of acc cs
unfolding value_of
value_of-le acc [] = omega arith
value_of-le acc (c ∷ cs) = omega (arith, value_of-le (acc * 10 + (c - 48)) cs)

pub parse_digits-value_of :
    (limit acc : ℕ) (cs : Text)
    → All IsDigit cs
    → value_of acc cs < limit
    → parse_digits limit acc cs ≡ some (value_of acc cs)
unfolding parse_digits value_of
parse_digits-value_of limit acc [] h small = refl
parse_digits-value_of limit acc (c ∷ cs) (hc, hs) small =
    let next = acc * 10 + (c - 48) in
    let fits : (is_digit c && ltb next limit) ≡ true =
      ground (arith, hc, small, value_of-le next cs) in
    rw fits (parse_digits-value_of limit next cs hs small)

digits_of-IsDigit : (k n : ℕ) (acc : Text) → All IsDigit acc → All IsDigit (digits_of k n acc)
unfolding digits_of
digits_of-IsDigit zero n acc h = h
digits_of-IsDigit (suc k) n acc h = elim (Bool-cases (ltb n 10)) [
  | inl e ↦ rw e ((omega arith, omega (arith, ltb→lt n 10 e)), h)
  | inr e ↦ rw e (digits_of-IsDigit k (n / 10) _ ((omega arith, omega arith), h))
]

another : (k n : ℕ) → n < 10 ^ suc k → ltb n 10 ≡ false → 1 ≤ k
another zero n h e = absurd (omega (arith, h, ltb→le n 10 e))
another (suc k) n h e = omega arith

-- The digits of `n` in front of `acc`.
value-digits_of :
    (k n : ℕ) (acc : Text) → n < 10 ^ k → 1 ≤ k → value_of 0 (digits_of k n acc) ≡ value_of n acc
unfolding digits_of
value-digits_of zero n acc h one = absurd (omega (arith, one))
value-digits_of (suc k) n acc h one = elim (Bool-cases (ltb n 10)) [
  | inl e ↦ rw e (unfold value_of in ap (λ t. value_of t acc) (omega arith))
  | inr e ↦ rw e (
      value-digits_of k (n / 10) ((48 + n % 10) ∷ acc) (omega (arith, h, pow-suc 10 k))
        (another k n h e)
      ∙ unfold value_of in ap (λ t. value_of t acc) (omega arith))
]

white_digit : (c : ℕ) → IsDigit c → is_whitespace c ≡ false
white_digit c h = ground (arith, h.0, h.1)

trim_start_digits : (cs : Text) → All IsDigit cs → trim_start cs ≡ cs
unfolding trim_start
trim_start_digits [] h = refl
trim_start_digits (c ∷ cs) (hc, hs) = rw (white_digit c hc) refl

trim_start_line :
    (cs : Text) → cs ≢ [] → All IsDigit cs → trim_start (cs ++ (10 ∷ [])) ≡ cs ++ (10 ∷ [])
unfolding trim_start
trim_start_line [] full h = absurd (full refl)
trim_start_line (c ∷ cs) full (hc, hs) = rw (white_digit c hc) refl

keep_digit : (c : ℕ) (cs : Text) → IsDigit c → keep_before c cs ≡ c ∷ cs
keep_digit c [] h = rw (white_digit c h) refl
keep_digit c (d ∷ ds) h = refl

trim_end_line : (cs : Text) → All IsDigit cs → trim_end (cs ++ (10 ∷ [])) ≡ cs
unfolding trim_end
trim_end_line [] h = refl
trim_end_line (c ∷ cs) (hc, hs) = ap (keep_before c) (trim_end_line cs hs) ∙ keep_digit c cs hc

-- A line of digits, read and trimmed.
trim_line : (cs : Text) → cs ≢ [] → All IsDigit cs → trim (cs ++ (10 ∷ [])) ≡ cs
unfolding trim
trim_line cs full h = ap trim_end (trim_start_line cs full h) ∙ trim_end_line cs h

digits_of-cons : (k n : ℕ) (c : ℕ) (acc : Text) → digits_of k n (c ∷ acc) ≢ []
unfolding digits_of
digits_of-cons zero n c acc = λ e. cc
digits_of-cons (suc k) n c acc = λ h. elim (Bool-cases (ltb n 10)) [
  | inl e ↦ cc (rw e at h)
  | inr e ↦ digits_of-cons k (n / 10) (48 + n % 10) (c ∷ acc) (rw e at h)
]

show_u64_full : (n : ℕ) → show_u64 n ≢ []
unfolding show_u64 digits_of
show_u64_full n = λ h. elim (Bool-cases (ltb n 10)) [
  | inl e ↦ cc (rw e at h)
  | inr e ↦ digits_of-cons 19 (n / 10) (48 + n % 10) [] (rw e at h)
]

pub show_u64-IsDigit : (n : ℕ) → All IsDigit (show_u64 n)
unfolding show_u64
show_u64-IsDigit n = digits_of-IsDigit 20 n [] tt

no_plus : (cs : Text) → All IsDigit cs → without_plus cs ≡ cs
no_plus [] h = refl
no_plus (c ∷ cs) (hc, hs) = let other : (c == b'+') ≡ false = ground (arith, hc.0) in rw other refl

value-show_u64 : (n : ℕ) → n < 2 ^ 64 → value_of 0 (show_u64 n) ≡ n
unfolding show_u64 value_of
value-show_u64 n h = value-digits_of 20 n [] (omega (arith, h)) (omega arith)

parse_full :
    (limit : ℕ) (cs : Text)
    → cs ≢ []
    → All IsDigit cs
    → value_of 0 cs < limit
    → parse_unsigned limit cs ≡ some (value_of 0 cs)
parse_full limit [] full h small = absurd (full refl)
parse_full limit (c ∷ cs) full h small = parse_digits-value_of limit 0 (c ∷ cs) h small

pub parse_unsigned-show :
    (limit n : ℕ)
    → n < limit
    → limit ≤ 2 ^ 64
    → parse_unsigned limit (without_plus (trim (show_u64 n ++ (10 ∷ [])))) ≡ some n
parse_unsigned-show limit n h cap =
    let digits = show_u64-IsDigit n in
    let full = show_u64_full n in
    let same = value-show_u64 n (omega (arith, h, cap)) in
    ap (λ (t : Text). parse_unsigned limit (without_plus t)) (trim_line (show_u64 n) full digits)
    ∙ ap (parse_unsigned limit) (no_plus (show_u64 n) digits)
    ∙ parse_full limit (show_u64 n) full digits (omega (arith, same, h))
    ∙ ap some same
