-- ===== src/Car/Blocks.antt =====
-- The blocks of an archive.
use atmoq.Common.{
  ℕ, zero, suc, ◌^◌, ◌≤◌, ◌<◌, ◌≡◌, refl, ap, ◌∙◌, none, some, List, [], ◌∷◌, ◌++◌, append_assoc,
  ok, ok-injective, ◌>>=◌, le→ltb, inl, inr, ◌⊎◌, Bytes, length, length-append, take-append,
  drop-append, All, arith,
}
use mathlib.Core.Option.{none-ne-some}
use atmoq.Car.Varint.{leb_u64, varint-leb_u64}
use atmoq.Car.{
  varint, varint_loop, Blocks, put, put_entry, one_round, next_entry, blocks_loop, blocks,
  whole_entry, split_at, skip_header, slice_from,
}
use atmoq.Car.Cid.{Cid, cid_bytes, IsCid, read_cid-cid_bytes}
use atmoq.Car.Total.{next_shrinks}

pub record Entry : Type 0 where
  pub cid : Cid
  pub block : Bytes

abbrev pub body : Entry → Bytes
body e = cid_bytes e.cid ++ e.block

abbrev pub entries_bytes : List Entry → Bytes
entries_bytes [] = []
entries_bytes (e ∷ es) = leb_u64 (length (body e)) ++ (body e ++ entries_bytes es)

pub record IsEntry (e : Entry) : Type 0 where
  pub cid_valid : IsCid e.cid
  pub length_u64 : length (body e) < 2 ^ 64

-- The map after the entries: a later block with the same CID replaces an earlier one.
abbrev pub put_all : List Entry → Blocks → Blocks
put_all [] out = out
put_all (e ∷ es) out = put_all es (put (cid_bytes e.cid) e.block out)

entry_read :
    (e : Entry) (rest : Bytes)
    → IsEntry e
    → next_entry (leb_u64 (length (body e)) ++ (body e ++ rest)) ≡ ok (some (body e, rest))
unfolding next_entry whole_entry split_at
entry_read e rest h =
    rw (varint-leb_u64 (length (body e)) (body e ++ rest) h.length_u64, next_entry)
      (rw
        (le→ltb (length (body e ++ rest)) (length (body e))
          (omega (arith, length-append (body e) rest)))
        (rw (take-append (body e) rest, drop-append (body e) rest) refl))

entry_put :
    (e : Entry) (out : Blocks)
    → IsEntry e
    → put_entry (body e) out ≡ ok (put (cid_bytes e.cid) e.block out)
unfolding put_entry
entry_put e out h = rw (read_cid-cid_bytes e.cid e.block h.cid_valid, put_entry) refl

round_goes :
    (fuel : ℕ) (cur entry rest : Bytes) (out : Blocks)
    → next_entry cur ≡ ok (some (entry, rest))
    → blocks_loop (suc fuel) cur out ≡ (put_entry entry out >>= blocks_loop fuel rest)
unfolding blocks_loop
round_goes fuel [] entry rest out h = absurd (nothing h)
  where
    nothing : next_entry [] ≡ ok (some (entry, rest)) → ⊥
    nothing h = unfold next_entry varint varint_loop in none-ne-some (entry, rest) (ok-injective h)
round_goes fuel (b ∷ bs) entry rest out h = ap (λ o. o >>= one_round (blocks_loop fuel) out) h

-- Where the loop breaks: nothing is left, or an entry that is cut off.
abbrev pub IsEnd : Bytes → Type 0
IsEnd tail = (tail ≡ []) ⊎ (next_entry tail ≡ ok none)

loop_ends :
    (fuel : ℕ) (tail : Bytes) (out : Blocks)
    → length tail ≤ fuel
    → IsEnd tail
    → blocks_loop fuel tail out ≡ ok out
unfolding blocks_loop
loop_ends fuel [] out room h = refl
loop_ends zero (b ∷ bs) out room h = absurd (omega (arith, room))
loop_ends (suc fuel) (b ∷ bs) out room (inl e) = cc
loop_ends (suc fuel) (b ∷ bs) out room (inr e) = ap (λ o. o >>= one_round (blocks_loop fuel) out) e

first_entry :
    (e : Entry) (es : List Entry) (tail : Bytes)
    → IsEntry e
    → next_entry (entries_bytes (e ∷ es) ++ tail) ≡ ok (some (body e, entries_bytes es ++ tail))
first_entry e es tail h =
    ap next_entry (
      append_assoc (leb_u64 (length (body e))) (body e ++ entries_bytes es) tail
      ∙ ap (λ (t : Bytes). leb_u64 (length (body e)) ++ t)
          (append_assoc (body e) (entries_bytes es) tail))
    ∙ entry_read e (entries_bytes es ++ tail) h

loop_reads :
    (es : List Entry) (fuel : ℕ) (tail : Bytes) (out : Blocks)
    → length (entries_bytes es ++ tail) ≤ fuel
    → All IsEntry es
    → IsEnd tail
    → blocks_loop fuel (entries_bytes es ++ tail) out ≡ ok (put_all es out)
loop_reads [] fuel tail out room h end_ = loop_ends fuel tail out room end_
loop_reads (e ∷ es) zero tail out room (he, hs) end_ = absurd (
    omega
      (arith, room, next_shrinks (entries_bytes (e ∷ es) ++ tail) _ _ (first_entry e es tail he)))
loop_reads (e ∷ es) (suc fuel) tail out room (he, hs) end_ =
    let rest = entries_bytes es ++ tail in
    let cur = entries_bytes (e ∷ es) ++ tail in
    round_goes fuel cur (body e) rest out (first_entry e es tail he)
    ∙ ap (λ o. o >>= blocks_loop fuel rest) (entry_put e out he)
    ∙ loop_reads es fuel tail (put (cid_bytes e.cid) e.block out)
        (omega (arith, room, next_shrinks cur (body e) rest (first_entry e es tail he))) hs end_

abbrev pub archive : Bytes → List Entry → Bytes → Bytes
archive header es tail = leb_u64 (length header) ++ (header ++ (entries_bytes es ++ tail))

-- An archive is a header of any text behind its length, entries, and an end where nothing is left
-- or an entry is cut off: `blocks` answers the blocks of the whole entries, the last of each CID.
pub blocks-archive :
    (header : Bytes) (es : List Entry) (tail : Bytes)
    → length header < 2 ^ 64
    → All IsEntry es
    → IsEnd tail
    → blocks (archive header es tail) ≡ ok (put_all es [])
unfolding blocks skip_header slice_from
blocks-archive header es tail small h end_ =
    let rest = entries_bytes es ++ tail in
    rw (varint-leb_u64 (length header) (header ++ rest) small) (
      rw
        (le→ltb (length (header ++ rest)) (length header)
          (omega (arith, length-append header rest)))
        (rw (drop-append header rest)
          (rw (loop_reads es (length rest) tail [] (omega arith) h end_) refl)))
