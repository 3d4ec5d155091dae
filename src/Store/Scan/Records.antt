-- ===== src/Store/Scan/Records.antt =====
-- A file that `append` wrote, as the loop of `scan` sees it.
use atmoq.Common.{
  ℕ, zero, suc, ◌+◌, ◌%◌, ◌^◌, ◌≤◌, ◌<◌, ◌≡◌, refl, sym, ap, ◌∙◌, true, none, some, List, [], ◌∷◌,
  ◌++◌, append_assoc, append-nil, ltb, le→ltb, Bytes, length, take, drop, All, arith, length-append,
  take-append, drop-append,
}
use atmoq.Store.Codec.{
  to_le, from_le, from_le-to_le, body_length, body_bytes, record_bytes, header_bytes, seq_field,
  ms_field, length-header_bytes, split_header, to_le-append-length, FitsU32, Record,
}
use atmoq.Store.Scan.{
  claimed_body, Header, next_record, Progress, advance, one_record, scan_records,
}

ltb_shift : (a b c : ℕ) → ltb (a + b) (a + c) ≡ ltb b c
ltb_shift a b c = ground arith

ltb_shift_two : (a b c d : ℕ) → ltb (a + b) (a + c + d) ≡ ltb b (c + d)
ltb_shift_two a b c d = ground arith

-- The loop sees only what lies from the offset on.
pub next_record_shift :
    (front x : Bytes) → next_record true (front ++ x) (length front) ≡ next_record true x 0
unfolding next_record claimed_body
next_record_shift front x =
    rw (length-append front x, drop-append front x)
      (rw (ltb_shift (length front) (length x) 24) (
        rw (ltb_shift_two (length front) (length x) 24 (from_le (take 4 (drop 20 (take 24 x)))))
          refl))

-- A record that a segment can hold, its body included.
pub record IsStored (r : Record) : Type 0 where
  pub seq_u64 : r.seq < 2 ^ 64
  pub ms_u64 : r.ms < 2 ^ 64
  pub count_u32 : length r.frames < 2 ^ 32
  pub frames_u32 : All FitsU32 r.frames
  pub body_u32 : body_length r.frames < 2 ^ 32

abbrev pub bytes_of : Record → Bytes
bytes_of r = record_bytes r.seq r.ms r.frames

length-body_bytes : (fs : List Bytes) → length (body_bytes fs) ≡ body_length fs
unfolding body_bytes body_length
length-body_bytes [] = refl
length-body_bytes (f ∷ fs) = omega (
  arith,
  length-append (to_le 4 (length f % 2 ^ 32)) (f ++ body_bytes fs),
  to_le-append-length 4 (length f % 2 ^ 32),
  length-append f (body_bytes fs),
  length-body_bytes fs,
)

pub length-bytes_of : (r : Record) → length (bytes_of r) ≡ 24 + body_length r.frames
length-bytes_of r =
    ap (λ (t : Bytes). length t)
      (sym (append-nil (bytes_of r)) ∙ split_header r.seq r.ms r.frames [])
    ∙ omega (
      arith,
      length-append (header_bytes r.seq r.ms r.frames) (body_bytes r.frames ++ []),
      length-append (body_bytes r.frames) [],
      length-header_bytes r.seq r.ms r.frames,
      length-body_bytes r.frames,
    )

body_field :
    (seq ms : ℕ) (frames : List Bytes)
    → body_length frames < 2 ^ 32
    → from_le (take 4 (drop 20 (header_bytes seq ms frames))) ≡ body_length frames
unfolding to_le header_bytes
body_field seq ms frames h =
    from_le-to_le 4 (body_length frames % 2 ^ 32) (omega arith) ∙ omega arith

abbrev pub header_of : Record → Header
header_of r = record { seq = r.seq; ms = r.ms; record_length = length (bytes_of r) }

same_header :
    (r : Record)
    → IsStored r
    → let hdr = header_bytes r.seq r.ms r.frames in
      record {
        seq = from_le (take 8 hdr);
        ms = from_le (take 8 (drop 8 hdr));
        record_length = 24 + body_length r.frames;
      }
      ≡ header_of r
same_header r h =
    rw (seq_field r.seq r.ms r.frames h.seq_u64, ms_field r.seq r.ms r.frames h.ms_u64)
      (rw (length-bytes_of r) refl)

next_record_header :
    (hdr tail : Bytes) (claimed : ℕ)
    → length hdr ≡ 24
    → from_le (take 4 (drop 20 hdr)) ≡ claimed
    → claimed ≤ length tail
    → next_record true (hdr ++ tail) 0
      ≡ some (record {
        seq = from_le (take 8 hdr);
        ms = from_le (take 8 (drop 8 hdr));
        record_length = 24 + claimed;
      })
unfolding next_record claimed_body
next_record_header hdr tail claimed l c inside =
    let cut : take 24 (hdr ++ tail) ≡ hdr =
      ap (λ n. take n (hdr ++ tail)) (sym l) ∙ take-append hdr tail in
    rw cut (
      rw c (
        rw (le→ltb (length (hdr ++ tail)) 24 (omega (arith, l, length-append hdr tail))) (
          rw
            (le→ltb (length (hdr ++ tail)) (24 + claimed)
              (omega (arith, l, inside, length-append hdr tail)))
            refl)))

next_record_first :
    (r : Record) (rest : Bytes)
    → IsStored r
    → next_record true (bytes_of r ++ rest) 0 ≡ some (header_of r)
next_record_first r rest h =
    let hdr = header_bytes r.seq r.ms r.frames in
    let tail = body_bytes r.frames ++ rest in
    let read =
      next_record_header hdr tail (body_length r.frames) (length-header_bytes r.seq r.ms r.frames)
        (body_field r.seq r.ms r.frames h.body_u32)
        (omega (arith, length-append (body_bytes r.frames) rest, length-body_bytes r.frames)) in
    ap (λ (t : Bytes). next_record true t 0) (split_header r.seq r.ms r.frames rest)
    ∙ read
    ∙ ap some (same_header r h)

abbrev pub all_bytes : List Record → Bytes
all_bytes [] = []
all_bytes (r ∷ rs) = bytes_of r ++ all_bytes rs

-- What the loop makes of the records, one after the other.
abbrev pub advance_all : ℕ → List Record → Progress → Progress
advance_all segment [] p = p
advance_all segment (r ∷ rs) p = advance_all segment rs (advance segment (header_of r) p)

next_here :
    (bs front x : Bytes) (p : Progress)
    → bs ≡ front ++ x
    → p.offset ≡ length front
    → next_record true bs p.offset ≡ next_record true x 0
next_here bs front x p e at =
    ap (next_record true bs) at
    ∙ ap (λ (t : Bytes). next_record true t (length front)) e
    ∙ next_record_shift front x

pub scan_records-advance_all :
    (rs : List Record) (fuel segment : ℕ) (bs front torn : Bytes) (p : Progress)
    → bs ≡ front ++ (all_bytes rs ++ torn)
    → p.offset ≡ length front
    → length bs < p.offset + fuel
    → All IsStored rs
    → next_record true torn 0 ≡ none
    → scan_records fuel true bs segment p ≡ advance_all segment rs p
unfolding scan_records
scan_records-advance_all rs zero segment bs front torn p e at enough h stop = absurd (
    omega (
      arith,
      at,
      enough,
      ap (λ (t : Bytes). length t) e,
      length-append front (all_bytes rs ++ torn),
    ))
scan_records-advance_all [] (suc fuel) segment bs front torn p e at enough h stop =
    ap (one_record (scan_records fuel true bs segment) segment p)
      (next_here bs front torn p e at ∙ stop)
scan_records-advance_all (r ∷ rs) (suc fuel) segment bs front torn p e at enough (hr, hs) stop =
    let x = all_bytes rs ++ torn in
    let e' = e ∙ ap (λ (t : Bytes). front ++ t) (append_assoc (bytes_of r) (all_bytes rs) torn) in
    let long : 24 ≤ length (bytes_of r) = omega (arith, length-bytes_of r) in
    ap (one_record (scan_records fuel true bs segment) segment p)
      (next_here bs front (bytes_of r ++ x) p e' at ∙ next_record_first r x hr)
    ∙ scan_records-advance_all rs fuel segment bs (front ++ bytes_of r) torn
        (advance segment (header_of r) p) (e' ∙ sym (append_assoc front (bytes_of r) x))
        (unfold advance in omega (arith, at, length-append front (bytes_of r)))
        (unfold advance in omega (arith, long, enough)) hs stop
