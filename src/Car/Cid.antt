-- ===== src/Car/Cid.antt =====
-- CIDs of version 1 and `read_cid`.
use atmoq.Common.{
  ℕ, ◌≤◌, take, drop, ◌-◌, ◌^◌, ◌<◌, ◌≡◌, refl, ap, ◌∙◌, ◌++◌, append_assoc, ok, le→ltb, Bytes,
  length, length-append, take-append, drop-append, arith,
}
use atmoq.Car.Varint.{leb_u64, varint-leb_u64}
use atmoq.Car.{varint, read_cid, cid_end, slice_from, slice_to}

pub record Cid : Type 0 where
  pub codec : ℕ
  pub hash_code : ℕ
  pub digest : Bytes

-- Version 1, codec and multihash.
abbrev pub cid_bytes : Cid → Bytes
cid_bytes c =
    leb_u64 1
    ++ (leb_u64 c.codec ++ (leb_u64 c.hash_code ++ (leb_u64 (length c.digest) ++ c.digest)))

pub record IsCid (c : Cid) : Type 0 where
  pub codec_u64 : c.codec < 2 ^ 64
  pub hash_code_u64 : c.hash_code < 2 ^ 64
  pub digest_u64 : length c.digest < 2 ^ 64

split_cid :
    (c : Cid) (rest : Bytes)
    → cid_bytes c ++ rest
      ≡ leb_u64 1
        ++ (leb_u64 c.codec
            ++ (leb_u64 c.hash_code ++ (leb_u64 (length c.digest) ++ (c.digest ++ rest))))
split_cid c rest = simp append_assoc

slices_inside :
    (n : ℕ) (cur : Bytes)
    → n ≤ length cur
    → (slice_from n cur ≡ ok (drop n cur)) × (slice_to n cur ≡ ok (take n cur))
unfolding slice_from slice_to
slices_inside n cur h = (rw (le→ltb (length cur) n h) refl, rw (le→ltb (length cur) n h) refl)

taken :
    (full digest rest : Bytes)
    → cid_end (full ++ rest) (length digest, digest ++ rest) ≡ ok (full, rest)
unfolding cid_end
taken full digest rest =
    let cut : length (full ++ rest) - length rest ≡ length full =
      omega (arith, length-append full rest) in
    let inside : length digest ≤ length (digest ++ rest) =
      omega (arith, length-append digest rest) in
    let behind =
      (slices_inside (length digest) (digest ++ rest) inside).0 ∙ ap ok (drop-append digest rest) in
    let front =
      (slices_inside (length full) (full ++ rest) (omega (arith, length-append full rest))).1
      ∙ ap ok (take-append full rest) in
    rw (le→ltb (length (digest ++ rest)) (length digest) inside)
      (rw behind (rw cut (rw front refl)))

-- A CID of version 1 with 64-bit numbers is read off the front, whole, whatever follows it.
pub read_cid-cid_bytes :
    (c : Cid) (rest : Bytes) → IsCid c → read_cid (cid_bytes c ++ rest) ≡ ok (cid_bytes c, rest)
unfolding read_cid
read_cid-cid_bytes c rest h =
    let start = cid_bytes c ++ rest in
    let version = ap varint (split_cid c rest) ∙ varint-leb_u64 1 _ (omega arith) in
    rw version (
      rw
        (varint-leb_u64 c.codec
          (leb_u64 c.hash_code ++ (leb_u64 (length c.digest) ++ (c.digest ++ rest))) h.codec_u64)
        (rw
          (varint-leb_u64 c.hash_code (leb_u64 (length c.digest) ++ (c.digest ++ rest))
            h.hash_code_u64)
          (rw (varint-leb_u64 (length c.digest) (c.digest ++ rest) h.digest_u64)
            (taken (cid_bytes c) c.digest rest))))
