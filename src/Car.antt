-- ===== src/Car.antt =====
-- rust/crates/atmoq/src/car.rs: the CAR block reader. A reader is the bytes that are left; the
-- `HashMap` is a list of entries with one entry per key.
pub mod Varint
pub mod Cid
pub mod Total
pub mod Blocks
mod Examples
use atmoq.Common.{
  ℕ, zero, suc, ◌+◌, ◌-◌, ◌*◌, ◌%◌, ◌^◌, bit_and, bit_or, Option, none, some, List, [], ◌∷◌, Result,
  ok, err, panic, ◌>>=◌, ◌>>◌, if◌then◌else◌, ltb, leb, ◌==◌, Bytes, length, take, drop, eq_bytes,
}

pub data CarError : Type 0 where
  truncated_varint varint_overflow truncated_multihash : CarError
  header_length_exceeds : ℕ → CarError
  unsupported_version : ℕ → CarError

-- The loop of `varint`; `u64 << shift` drops what does not fit.
unfoldable pub varint_loop : Bytes → ℕ → ℕ → Result CarError (ℕ × Bytes)
varint_loop [] value shift = err truncated_varint
varint_loop (byte ∷ rest) value shift =
    let value' = bit_or value (bit_and byte 0x7f * 2 ^ shift % 2 ^ 64) in
    let onward = varint_loop rest value' (shift + 7) in
    if bit_and byte 0x80 == 0
    then ok (value', rest)
    else if leb 64 (shift + 7)
    then err varint_overflow
    else onward

unfoldable pub varint : Bytes → Result CarError (ℕ × Bytes)
varint cur = varint_loop cur 0 0

-- `&cur[n..]`, `&cur[..n]` and `cur.split_at(n)`.
unfoldable pub slice_from : ℕ → Bytes → Result CarError Bytes
slice_from n cur = if ltb (length cur) n then panic else ok (drop n cur)

unfoldable pub slice_to : ℕ → Bytes → Result CarError Bytes
slice_to n cur = if ltb (length cur) n then panic else ok (take n cur)

unfoldable pub split_at : ℕ → Bytes → Result CarError (Bytes × Bytes)
split_at n cur = if ltb (length cur) n then panic else ok (take n cur, drop n cur)

-- `read_cid` behind the length of the multihash: the CID and the reader behind it.
unfoldable pub cid_end : Bytes → ℕ × Bytes → Result CarError (Bytes × Bytes)
cid_end start (hash_len, cur) =
    if ltb (length cur) hash_len
    then err truncated_multihash
    else (slice_from hash_len cur >>= λ rest.
        (slice_to (length start - length rest) start >>= λ cid. ok (cid, rest)))

abbrev pub check_version : ℕ → Result CarError (Unit {0})
check_version version = if version == 1 then ok tt else err (unsupported_version version)

unfoldable pub read_cid : Bytes → Result CarError (Bytes × Bytes)
read_cid start = do
  version ← varint start
  check_version version.0
  codec ← varint version.1
  hash_code ← varint codec.1
  hash_len ← varint hash_code.1
  cid_end start hash_len

abbrev pub Blocks : Type 0
Blocks = List (Bytes × Bytes)

unfoldable pub put : Bytes → Bytes → Blocks → Blocks
put cid block [] = (cid, block) ∷ []
put cid block ((k, v) ∷ out) =
    let rest = put cid block out in if eq_bytes k cid then (cid, block) ∷ out else (k, v) ∷ rest

-- An entry without a readable CID is passed over.
unfoldable pub put_entry : Bytes → Blocks → Result CarError Blocks
put_entry entry out = elim (read_cid entry) [
  | err e ↦ ok out
  | panic ↦ panic
  | ok (cid, block) ↦ ok (put cid block out)
]

abbrev pub found_entry : Bytes × Bytes → Result CarError (Option (Bytes × Bytes))
found_entry halves = ok (some halves)

unfoldable pub whole_entry : ℕ × Bytes → Result CarError (Option (Bytes × Bytes))
whole_entry (entry_len, cur) =
    if ltb (length cur) entry_len then ok none else (split_at entry_len cur >>= found_entry)

-- The entry at the front of the reader and the reader behind it; none where the loop breaks.
unfoldable pub next_entry : Bytes → Result CarError (Option (Bytes × Bytes))
next_entry cur = elim (varint cur) [
  | err e ↦ ok none
  | panic ↦ panic
  | ok found ↦ whole_entry found
]

abbrev pub one_round :
    (Bytes → Blocks → Result CarError Blocks)
    → Blocks
    → Option (Bytes × Bytes)
    → Result CarError Blocks
one_round onward out none = ok out
one_round onward out (some (entry, rest)) = put_entry entry out >>= onward rest

-- The loop of `blocks`, with at most `fuel` rounds; too few are `panic`.
unfoldable pub blocks_loop : ℕ → Bytes → Blocks → Result CarError Blocks
blocks_loop fuel [] out = ok out
blocks_loop zero (b ∷ bs) out = panic
blocks_loop (suc fuel) (b ∷ bs) out = next_entry (b ∷ bs) >>= one_round (blocks_loop fuel) out

abbrev pub read_entries : Bytes → Result CarError Blocks
read_entries cur = blocks_loop (length cur) cur []

unfoldable pub skip_header : ℕ × Bytes → Result CarError Blocks
skip_header (header_len, cur) =
    if ltb (length cur) header_len
    then err (header_length_exceeds header_len)
    else (slice_from header_len cur >>= read_entries)

-- Every round takes a byte at least, so the length of the reader is enough rounds.
unfoldable pub blocks : Bytes → Result CarError Blocks
blocks cur = varint cur >>= skip_header
