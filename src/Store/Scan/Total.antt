-- ===== src/Store/Scan/Total.antt =====
-- The loop over a file's records stays inside the file and comes to its end.
use atmoq.Common.{
  ℕ, zero, suc, ◌+◌, ◌-◌, ◌≤◌, ◌<◌, ◌≡◌, refl, sym, ap, Bool, true, false, Option, none, some, ltb,
  Bool-cases, Option-cases, inl, inr, ltb→le, Bytes, length, take, drop, arith, subst,
}
use mathlib.Core.Option.{none-ne-some, some-injective}
use atmoq.Store.Codec.{from_le, header_length}
use atmoq.Store.Scan.{
  walk_v1_frames, walk_v1_body, claimed_body, from_start, with_body, Header, read_header,
  next_record, Progress, advance, one_record, scan_records,
}

walk_v1_frames-le :
    (count : ℕ) (bs : Bytes) (cursor e : ℕ)
    → cursor ≤ length bs
    → walk_v1_frames count bs cursor ≡ some e
    → (cursor ≤ e) × (e ≤ length bs)
unfolding walk_v1_frames
walk_v1_frames-le zero bs cursor e inside h =
    let same = some-injective cursor e h in (omega (arith, same), omega (arith, same, inside))
walk_v1_frames-le (suc count) bs cursor e inside h =
    let n = from_le (take 4 (drop cursor bs)) in
    elim (Bool-cases (ltb (length bs) (cursor + 4))) [
      | inl a ↦ absurd (none-ne-some e (rw a at h))
      | inr a ↦ elim (Bool-cases (ltb (length bs) (cursor + 4 + n))) [
        | inl b ↦ absurd (none-ne-some e (rw b at (rw a at h)))
        | inr b ↦
            let (low, high) =
              walk_v1_frames-le count bs (cursor + 4 + n) e (ltb→le (length bs) (cursor + 4 + n) b)
                (rw b at (rw a at h)) in
            (omega (arith, low), high)
      ]
    ]

with_body-some :
    (header_len : ℕ) (hdr : Bytes) (o : Option ℕ) (h : Header)
    → with_body header_len hdr o ≡ some h
    → (b : ℕ) × (o ≡ some b) × (h.record_length ≡ header_len + b)
with_body-some header_len hdr none h e = absurd (none-ne-some h e)
with_body-some header_len hdr (some b) h e =
    (b, refl, sym (ap (λ (x : Header). x.record_length) (some-injective _ h e)))

claimed_body-le :
    (bs hdr : Bytes) (start b : ℕ) → claimed_body bs hdr start ≡ some b → start + b ≤ length bs
unfolding claimed_body
claimed_body-le bs hdr start b e =
    let claimed = from_le (take 4 (drop 20 hdr)) in
    elim (Bool-cases (ltb (length bs) (start + claimed))) [
      | inl t ↦ absurd (none-ne-some b (rw t at e))
      | inr t ↦
          omega
            (arith, ltb→le (length bs) (start + claimed) t, some-injective claimed b (rw t at e))
    ]

from_start-some :
    (start b : ℕ) (o : Option ℕ)
    → from_start start o ≡ some b
    → (cursor : ℕ) × (o ≡ some cursor) × (b ≡ cursor - start)
from_start-some start b none e = absurd (none-ne-some b e)
from_start-some start b (some cursor) e = (cursor, refl, sym (some-injective _ b e))

walk_v1_body-le :
    (bs : Bytes) (start count b : ℕ)
    → start ≤ length bs
    → walk_v1_body bs start count ≡ some b
    → start + b ≤ length bs
unfolding walk_v1_body
walk_v1_body-le bs start count b inside e =
    let (cursor, f, g) = from_start-some start b (walk_v1_frames count bs start) e in
    omega (arith, g, walk_v1_frames-le count bs start cursor inside f)

read_header-fits :
    (v2 : Bool) (bs : Bytes) (offset : ℕ) (hdr : Bytes) (h : Header)
    → offset + header_length v2 ≤ length bs
    → read_header v2 bs offset hdr ≡ some h
    → (20 ≤ h.record_length) × (offset + h.record_length ≤ length bs)
read_header-fits true bs offset hdr h inside e =
    let (b, f, g) = with_body-some 24 hdr (claimed_body bs hdr (offset + 24)) h e in
    let fits = claimed_body-le bs hdr (offset + 24) b f in
    (omega (arith, g), omega (arith, g, fits))
read_header-fits false bs offset hdr h inside e =
    let count = from_le (take 4 (drop 16 hdr)) in
    let (b, f, g) = with_body-some 20 hdr (walk_v1_body bs (offset + 20) count) h e in
    let fits = walk_v1_body-le bs (offset + 20) count b inside f in
    (omega (arith, g), omega (arith, g, fits))

-- A record has its header and ends in the file.
pub next_record-fits :
    (v2 : Bool) (bs : Bytes) (offset : ℕ) (h : Header)
    → next_record v2 bs offset ≡ some h
    → (20 ≤ h.record_length) × (offset + h.record_length ≤ length bs)
unfolding next_record
next_record-fits v2 bs offset h e =
    elim (Bool-cases (ltb (length bs) (offset + header_length v2))) [
      | inl t ↦ absurd (none-ne-some h (rw t at e))
      | inr t ↦
          read_header-fits v2 bs offset (take (header_length v2) (drop offset bs)) h
            (ltb→le (length bs) (offset + header_length v2) t) (rw t at e)
    ]

-- Where the loop stands when it is over.
pub record IsOver (v2 : Bool) (bs : Bytes) (p : Progress) : Type 0 where
  pub inside : p.offset ≤ length bs
  pub stopped : next_record v2 bs p.offset ≡ none

one_record-some :
    (onward : Progress → Progress) (segment : ℕ) (p : Progress) (o : Option Header) (h : Header)
    → o ≡ some h
    → one_record onward segment p o ≡ onward (advance segment h p)
one_record-some onward segment p o h e = ap (one_record onward segment p) e

pub scan_records-IsOver :
    (fuel : ℕ) (v2 : Bool) (bs : Bytes) (segment : ℕ) (p : Progress)
    → p.offset ≤ length bs
    → length bs < p.offset + fuel
    → IsOver v2 bs (scan_records fuel v2 bs segment p)
unfolding scan_records
scan_records-IsOver zero v2 bs segment p inside enough = absurd (omega (arith, inside, enough))
scan_records-IsOver (suc fuel) v2 bs segment p inside enough =
    let onward = scan_records fuel v2 bs segment in
    elim (Option-cases (next_record v2 bs p.offset)) [
      | inl none_left ↦
          subst (IsOver v2 bs) (sym (ap (one_record onward segment p) none_left))
            (record { inside = inside; stopped = none_left })
      | inr (h, e) ↦
          let (long, fits) = next_record-fits v2 bs p.offset h e in
          subst (IsOver v2 bs)
            (sym (one_record-some onward segment p (next_record v2 bs p.offset) h e))
            (scan_records-IsOver fuel v2 bs segment (advance segment h p) (unfold advance in fits)
              (unfold advance in omega (arith, long, enough)))
    ]
