-- ===== src/Car/Total.antt =====
-- `next_entry` takes a byte at least, so `blocks` returns.
use atmoq.Common.{
  ℕ, zero, suc, ◌+◌, ◌≤◌, ◌<◌, ◌≡◌, ◌≢◌, refl, ap, none, some, [], ◌∷◌, ok, err, panic, Result,
  Option, ltb, Bool-cases, inl, inr, Bytes, length, take, drop, arith, ok-injective, length-drop,
  >>=-ne-panic, le→ltb, ltb→le, ◌-◌, ◌∙◌, bit_and, leb, ◌==◌,
}
use mathlib.Core.Option.{none-ne-some, some-injective}
use atmoq.Car.{
  varint, varint_loop, Blocks, put, put_entry, whole_entry, one_round, next_entry, blocks_loop,
  blocks, skip_header, CarError, slice_from, slice_to, split_at, cid_end, check_version, read_cid,
  found_entry, read_entries,
}

-- One byte at least.
loop_shrinks :
    (bs : Bytes) (value shift : ℕ) (r : ℕ × Bytes)
    → varint_loop bs value shift ≡ ok r
    → length r.1 < length bs
unfolding varint_loop
loop_shrinks [] value shift r h = cc
loop_shrinks (b ∷ bs) value shift r h = elim (Bool-cases (bit_and b 0x80 == 0)) [
  | inl e ↦
      let same : ◌≡◌ {A = Result CarError (ℕ × Bytes)} (ok (_, bs)) (ok r) = rw e at h in
      omega (arith, ap (λ (t : ℕ × Bytes). length t.1) (ok-injective same))
  | inr e ↦ elim (Bool-cases (leb 64 (shift + 7))) [
    | inl f ↦ cc (rw f at (rw e at h))
    | inr f ↦ omega (arith, loop_shrinks bs _ (shift + 7) r (rw f at (rw e at h)))
  ]
]

whole_shrinks :
    (n : ℕ) (r entry rest : Bytes)
    → whole_entry (n, r) ≡ ok (some (entry, rest))
    → length rest ≤ length r
unfolding whole_entry split_at
whole_shrinks n r entry rest h = elim (Bool-cases (ltb (length r) n)) [
  | inl e ↦ absurd (none-ne-some (entry, rest) (ok-injective (rw e at h)))
  | inr e ↦
      let same = some-injective (take n r, drop n r) (entry, rest) (ok-injective (rw e at h)) in
      omega (arith, ap (λ (t : Bytes × Bytes). length t.1) same, length-drop n r)
]

pub next_shrinks :
    (cur entry rest : Bytes) → next_entry cur ≡ ok (some (entry, rest)) → length rest < length cur
unfolding next_entry varint
next_shrinks cur entry rest h = go (varint cur) refl h
  where
    go :
        (o : Result CarError (ℕ × Bytes))
        → varint cur ≡ o
        → elim o [ err e ↦ ok none | panic ↦ panic | ok found ↦ whole_entry found ]
          ≡ ok (some (entry, rest))
        → length rest < length cur
    go (err e) eq h = absurd (none-ne-some (entry, rest) (ok-injective h))
    go panic eq h = cc
    go (ok (n, r)) eq h =
        omega (arith, loop_shrinks cur 0 0 (n, r) eq, whole_shrinks n r entry rest h)

varint_loop-ne-panic : (bs : Bytes) (value shift : ℕ) → varint_loop bs value shift ≢ panic
unfolding varint_loop
varint_loop-ne-panic [] value shift = λ e. cc
varint_loop-ne-panic (b ∷ bs) value shift = λ h. elim (Bool-cases (bit_and b 0x80 == 0)) [
  | inl e ↦ cc (rw e at h)
  | inr e ↦ elim (Bool-cases (leb 64 (shift + 7))) [
    | inl f ↦ cc (rw f at (rw e at h))
    | inr f ↦ varint_loop-ne-panic bs _ (shift + 7) (rw f at (rw e at h))
  ]
]

varint-ne-panic : (cur : Bytes) → varint cur ≢ panic
unfolding varint
varint-ne-panic cur = varint_loop-ne-panic cur 0 0

slice_from-ne-panic : (n : ℕ) (cur : Bytes) → n ≤ length cur → slice_from n cur ≢ panic
unfolding slice_from
slice_from-ne-panic n cur h q = cc (rw (le→ltb (length cur) n h) at q)

slice_to-ne-panic : (n : ℕ) (cur : Bytes) → n ≤ length cur → slice_to n cur ≢ panic
unfolding slice_to
slice_to-ne-panic n cur h q = cc (rw (le→ltb (length cur) n h) at q)

split_at-ne-panic : (n : ℕ) (cur : Bytes) → n ≤ length cur → split_at n cur ≢ panic
unfolding split_at
split_at-ne-panic n cur h q = cc (rw (le→ltb (length cur) n h) at q)

cid_end-ne-panic : (start : Bytes) (r : ℕ × Bytes) → cid_end start r ≢ panic
unfolding cid_end
cid_end-ne-panic start (n, cur) = λ q. elim (Bool-cases (ltb (length cur) n)) [
  | inl e ↦ cc (rw e at q)
  | inr e ↦
      >>=-ne-panic (slice_from n cur) _ (slice_from-ne-panic n cur (ltb→le (length cur) n e))
        (λ rest _.
          >>=-ne-panic (slice_to (length start - length rest) start) _
            (slice_to-ne-panic (length start - length rest) start (omega arith)) (λ cid _ x. cc))
        (rw e at q)
]

check_version-ne-panic : (version : ℕ) → check_version version ≢ panic
check_version-ne-panic version q = ground arith

read_cid-ne-panic : (start : Bytes) → read_cid start ≢ panic
unfolding read_cid
read_cid-ne-panic start = >>=-ne-panic (varint start) _ (varint-ne-panic start) λ version _.
    >>=-ne-panic (check_version version.0) _ (check_version-ne-panic version.0) λ _ _.
      >>=-ne-panic (varint version.1) _ (varint-ne-panic version.1) λ codec _.
        >>=-ne-panic (varint codec.1) _ (varint-ne-panic codec.1) λ hash_code _.
          >>=-ne-panic (varint hash_code.1) _ (varint-ne-panic hash_code.1)
            λ hash_len _. cid_end-ne-panic start hash_len

put_entry-ne-panic : (entry : Bytes) (out : Blocks) → put_entry entry out ≢ panic
unfolding put_entry
put_entry-ne-panic entry out = go (read_cid entry) (read_cid-ne-panic entry)
  where
    go :
        (o : Result CarError (Bytes × Bytes))
        → o ≢ panic
        → ◌≢◌ {A = Result CarError Blocks}
            (elim o [ err e ↦ ok out | panic ↦ panic | ok found ↦ ok (put found.0 found.1 out) ])
            panic
    go (err e) h = λ q. cc
    go panic h = absurd (h refl)
    go (ok found) h = λ q. cc

whole_entry-ne-panic : (r : ℕ × Bytes) → whole_entry r ≢ panic
unfolding whole_entry
whole_entry-ne-panic (n, cur) = λ q. elim (Bool-cases (ltb (length cur) n)) [
  | inl e ↦ cc (rw e at q)
  | inr e ↦
      >>=-ne-panic (split_at n cur) found_entry (split_at-ne-panic n cur (ltb→le (length cur) n e))
        (λ halves _ x. cc) (rw e at q)
]

next_entry-ne-panic : (cur : Bytes) → next_entry cur ≢ panic
unfolding next_entry
next_entry-ne-panic cur = go (varint cur) (varint-ne-panic cur)
  where
    go :
        (o : Result CarError (ℕ × Bytes))
        → o ≢ panic
        → ◌≢◌ {A = Result CarError (Option (Bytes × Bytes))}
            (elim o [ err e ↦ ok none | panic ↦ panic | ok found ↦ whole_entry found ])
            panic
    go (err e) h = λ q. cc
    go panic h = absurd (h refl)
    go (ok found) h = whole_entry-ne-panic found

one_round-ne-panic :
    (onward : Bytes → Blocks → Result CarError Blocks) (out : Blocks) (o : Option (Bytes × Bytes))
    → ((entry rest : Bytes) → o ≡ some (entry, rest) → (b : Blocks) → onward rest b ≢ panic)
    → one_round onward out o ≢ panic
one_round-ne-panic onward out none h = λ q. cc
one_round-ne-panic onward out (some (entry, rest)) h =
    >>=-ne-panic (put_entry entry out) (onward rest) (put_entry-ne-panic entry out)
      (λ b _. h entry rest refl b)

blocks_loop-ne-panic :
    (fuel : ℕ) (cur : Bytes) (out : Blocks) → length cur ≤ fuel → blocks_loop fuel cur out ≢ panic
unfolding blocks_loop
blocks_loop-ne-panic fuel [] out h = λ q. cc
blocks_loop-ne-panic zero (b ∷ bs) out h = absurd (omega (arith, h))
blocks_loop-ne-panic (suc fuel) (b ∷ bs) out h =
    >>=-ne-panic (next_entry (b ∷ bs)) (one_round (blocks_loop fuel) out)
      (next_entry-ne-panic (b ∷ bs))
      (λ o found. one_round-ne-panic (blocks_loop fuel) out o λ entry rest e out'.
        blocks_loop-ne-panic fuel rest out'
          (omega (arith, h, next_shrinks (b ∷ bs) entry rest (found ∙ ap ok e))))

skip_header-ne-panic : (r : ℕ × Bytes) → skip_header r ≢ panic
unfolding skip_header
skip_header-ne-panic (n, cur) = λ q. elim (Bool-cases (ltb (length cur) n)) [
  | inl e ↦ cc (rw e at q)
  | inr e ↦
      >>=-ne-panic (slice_from n cur) read_entries
        (slice_from-ne-panic n cur (ltb→le (length cur) n e))
        (λ rest _. blocks_loop-ne-panic (length rest) rest [] (omega arith)) (rw e at q)
]

-- `blocks` returns on every input: its loop makes no more rounds than there are bytes, and no slice
-- of it or of `read_cid`, nor `split_at`, is out of range.
pub blocks-ne-panic : (cur : Bytes) → blocks cur ≢ panic
unfolding blocks
blocks-ne-panic cur =
    >>=-ne-panic (varint cur) skip_header (varint-ne-panic cur) (λ r _. skip_header-ne-panic r)
