-- ===== src/Drisl/Correct.antt =====
-- What `validate` and `validate_exact` promise.
use atmoq.Common.{
  ℕ, ◌+◌, ◌^◌, ◌≤◌, ◌<◌, ◌≡◌, ◌≢◌, refl, sym, ap, ◌∙◌, inl, inr, [], ◌++◌, ok, panic, Bytes, IsByte,
  length, All, At, At_whole, append-nil, arith, Bool-cases, ◌==◌, ==→eq, eq→==, ◌↔◌, >>=-eq-ok,
  length-append, ◌-◌, ◌∷◌, false, ne→==,
}
use atmoq.Drisl.{validate, validate_exact, max_depth, fail, trailing_bytes}
use atmoq.Drisl.Syntax.{Value, encode, levels, IsValid}
use atmoq.Drisl.Accepts.{accepts}
use atmoq.Drisl.Sound.{Found, sound}
use atmoq.Drisl.NoPanic.{validate_item-ne-panic}

-- If `validate` accepts at offset `o` of a slice of bytes and answers `e`, then the bytes from `o`
-- to `e` are the encoding of a valid document, nested at most `max_depth` calls deep.
pub validate_sound :
    (d : Bytes) (o e : ℕ) → All IsByte d → validate d o ≡ ok e → Found d (max_depth + 1) o e
unfolding validate
validate_sound d o e hd q = sound d hd (max_depth + 1) o e q

-- Where the encoding of a valid document of at most `max_depth` levels below the first stands at
-- offset `o` of a slice that fits the address space, `validate` accepts it, whatever follows, and
-- answers the offset just past it.
pub validate_complete :
    (d : Bytes) (o : ℕ) (v : Value)
    → length d < 2 ^ 64
    → IsValid v
    → levels v ≤ max_depth + 1
    → At d o (encode v)
    → validate d o ≡ ok (o + length (encode v))
unfolding validate
validate_complete d o v small h l a = accepts d small v max_depth o h l a

-- A slice is one DRISL item.
pub record IsItem (d : Bytes) : Type 0 where
  pub value : Value
  pub written : d ≡ encode value
  pub valid : IsValid value
  pub shallow : levels value ≤ max_depth + 1

exact_end : (d : Bytes) (e : ℕ) → validate d 0 ≡ ok e → e ≡ length d → validate_exact d ≡ ok tt
unfolding validate_exact
exact_end d e v l = rw (v, validate_exact) (rw (eq→== e (length d) l))

exact_ok : (d : Bytes) → validate_exact d ≡ ok tt → validate d 0 ≡ ok (length d)
unfolding validate_exact
exact_ok d q =
    let (e, v, r) = >>=-eq-ok (validate d 0) _ q in
    elim (Bool-cases (e == length d)) [
      | inl t ↦ v ∙ ap ok (==→eq e (length d) t)
      | inr t ↦ cc (rw t at r)
    ]

-- `validate_exact` accepts a slice of bytes that fits the address space exactly when the slice is
-- the encoding of one valid document of at most `max_depth` levels below the first.
pub validate_exact_iff :
    (d : Bytes) → All IsByte d → length d < 2 ^ 64 → (validate_exact d ≡ ok tt) ↔ IsItem d
validate_exact_iff d hd small = (to, from)
  where
    to : validate_exact d ≡ ok tt → IsItem d
    to q =
        let f = validate_sound d 0 (length d) hd (exact_ok d q) in
        record {
          value = f.value;
          written = At_whole f.stands (omega (arith, f.ends));
          valid = f.valid;
          shallow = f.shallow;
        }

    from : IsItem d → validate_exact d ≡ ok tt
    from i =
        let a : At d 0 (encode i.value) = record {
          inside = omega arith;
          rest = [];
          found = i.written ∙ sym (append-nil (encode i.value));
        } in
        exact_end d (length (encode i.value))
          (validate_complete d 0 i.value small i.valid i.shallow a ∙ ap ok (omega arith))
          (ap length (sym i.written))

-- On a slice of bytes the validator returns at every offset: it takes no index and no slice out of
-- range.
pub validate-ne-panic : (d : Bytes) (o : ℕ) → All IsByte d → validate d o ≢ panic
unfolding validate
validate-ne-panic d o hd = validate_item-ne-panic d hd (max_depth + 1) o

-- With anything behind a slice that `validate_exact` accepts, in a text of bytes that fits the
-- address space, `validate` still ends where the slice did, and `validate_exact` refuses the rest
-- with its place and its length.
pub validate_exact-append :
    (d : Bytes) (b : ℕ) (r : Bytes)
    → All IsByte d
    → length (d ++ (b ∷ r)) < 2 ^ 64
    → validate_exact d ≡ ok tt
    → (validate (d ++ (b ∷ r)) 0 ≡ ok (length d))
      × (validate_exact (d ++ (b ∷ r)) ≡ fail (length d) (trailing_bytes (length r + 1)))
unfolding validate_exact
validate_exact-append d b r hd small q =
    let i = (validate_exact_iff d hd (omega (arith, small, length-append d (b ∷ r)))).0 q in
    let here : At (d ++ (b ∷ r)) 0 (encode i.value) = record {
      inside = omega arith;
      rest = b ∷ r;
      found = ap (λ (t : Bytes). t ++ (b ∷ r)) i.written;
    } in
    let reads : validate (d ++ (b ∷ r)) 0 ≡ ok (length d) =
      validate_complete (d ++ (b ∷ r)) 0 i.value small i.valid i.shallow here
      ∙ ap ok (omega (arith, ap length i.written)) in
    let longer : (length d == length (d ++ (b ∷ r))) ≡ false =
      ne→== _ _ (omega (arith, length-append d (b ∷ r))) in
    let left : length (d ++ (b ∷ r)) - length d ≡ length r + 1 =
      omega (arith, length-append d (b ∷ r)) in
    (reads, rw (reads, validate_exact) (rw longer (rw left refl)))
