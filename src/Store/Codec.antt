-- ===== src/Store/Codec.antt =====
-- The record format of store.rs: little-endian header, then each frame behind its length.
use atmoq.Common.{
  ℕ, zero, suc, ◌+◌, ◌*◌, ◌/◌, ◌%◌, ◌^◌, ◌<◌, ◌≡◌, refl, ap, ◌∙◌, Bool, true, false, Option, none,
  some, List, [], ◌∷◌, ◌++◌, append_assoc, if◌then◌else◌, leb, Bytes, length, take, drop, All,
  length-append, take-append, drop-append, arith, le→leb, leb→le, Bool-cases, inl, inr, ◌≢◌,
  take_more, drop_more,
}
use mathlib.Core.Option.{some-injective}
use native.Mathlib.Nat.{pow-suc}

-- `to_le_bytes` and `from_le_bytes`.
unfoldable pub to_le : ℕ → ℕ → Bytes
to_le zero n = []
to_le (suc w) n = n % 256 ∷ to_le w (n / 256)

unfoldable pub from_le : Bytes → ℕ
from_le [] = 0
from_le (b ∷ bs) = b + 256 * from_le bs

-- `frames.iter().map(|f| 4 + f.len()).sum()`.
unfoldable pub body_length : List Bytes → ℕ
body_length [] = 0
body_length (f ∷ fs) = 4 + length f + body_length fs

unfoldable pub body_bytes : List Bytes → Bytes
body_bytes [] = []
body_bytes (f ∷ fs) = to_le 4 (length f % 2 ^ 32) ++ (f ++ body_bytes fs)

-- The record that `append` builds.
unfoldable pub record_bytes : ℕ → ℕ → List Bytes → Bytes
record_bytes seq ms frames =
    to_le 8 seq
    ++ (to_le 8 ms
        ++ (to_le 4 (length frames % 2 ^ 32)
            ++ (to_le 4 (body_length frames % 2 ^ 32) ++ body_bytes frames)))

-- `read_full_or_eof`: `n` bytes and the reader behind them, or none where the file ends before.
unfoldable pub read_full : ℕ → Bytes → Option (Bytes × Bytes)
read_full n r = if leb n (length r) then some (take n r, drop n r) else none

abbrev pub and_then {ℓ κ} : {A : Type ℓ} {B : Type κ} → Option A → (A → Option B) → Option B
and_then none f = none
and_then (some a) f = f a

abbrev pub header_length : Bool → ℕ
header_length true = 24
header_length false = 20

-- The loop of `read_record` over the frames.
unfoldable pub read_frames : ℕ → Bytes → Option (List Bytes × Bytes)
unfolding read_full
read_frames zero r = some ([], r)
read_frames (suc n) r = and_then (read_full 4 r) λ lenb.
    and_then (read_full (from_le lenb.0) lenb.1)
      λ frame. and_then (read_frames n frame.1) λ others. some (frame.0 ∷ others.0, others.1)

pub record Record : Type 0 where
  pub seq : ℕ
  pub ms : ℕ
  pub frames : List Bytes

unfoldable pub read_record : Bool → Bytes → Option Record
read_record v2 r = and_then (read_full (header_length v2) r) λ hdr.
    and_then (read_frames (from_le (take 4 (drop 16 hdr.0))) hdr.1) λ body. some (record {
      seq = from_le (take 8 hdr.0);
      ms = from_le (take 8 (drop 8 hdr.0));
      frames = body.0;
    })

pub to_le-append-length : (w n : ℕ) → length (to_le w n) ≡ w
unfolding to_le
to_le-append-length zero n = refl
to_le-append-length (suc w) n = ap suc (to_le-append-length w (n / 256))

pub from_le-to_le : (w n : ℕ) → n < 256 ^ w → from_le (to_le w n) ≡ n
unfolding from_le to_le
from_le-to_le zero n h = omega arith
from_le-to_le (suc w) n h = omega (arith, from_le-to_le w (n / 256) (omega (arith, pow-suc 256 w)))

read_full-append : (n : ℕ) (xs r : Bytes) → length xs ≡ n → read_full n (xs ++ r) ≡ some (xs, r)
unfolding read_full
read_full-append n xs r e =
    rw (le→leb n (length (xs ++ r)) (omega (arith, e, length-append xs r)))
      (rw (← e) (rw (take-append xs r, drop-append xs r)))

abbrev pub FitsU32 : Bytes → Type 0
FitsU32 f = length f < 2 ^ 32

read_frames-body :
    (fs : List Bytes) (r : Bytes)
    → All FitsU32 fs
    → read_frames (length fs) (body_bytes fs ++ r) ≡ some (fs, r)
unfolding read_frames body_bytes
read_frames-body [] r h = refl
read_frames-body (f ∷ fs) r (hf, hs) =
    let n : length f % 2 ^ 32 ≡ length f = omega arith in
    let lenb = to_le 4 (length f % 2 ^ 32) in
    let l = to_le-append-length 4 (length f % 2 ^ 32) in
    let value : from_le lenb ≡ length f = from_le-to_le 4 (length f % 2 ^ 32) (omega arith) ∙ n in
    rw (append_assoc lenb (f ++ body_bytes fs) r, append_assoc f (body_bytes fs) r)
      (rw (read_full-append 4 lenb (f ++ (body_bytes fs ++ r)) l) (
        rw value (
          rw (read_full-append (length f) f (body_bytes fs ++ r) refl)
            (rw (read_frames-body fs r hs)))))

unfoldable pub header_bytes : ℕ → ℕ → List Bytes → Bytes
header_bytes seq ms frames =
    to_le 8 seq
    ++ (to_le 8 ms ++ (to_le 4 (length frames % 2 ^ 32) ++ to_le 4 (body_length frames % 2 ^ 32)))

pub seq_field :
    (seq ms : ℕ) (frames : List Bytes)
    → seq < 2 ^ 64
    → from_le (take 8 (header_bytes seq ms frames)) ≡ seq
unfolding to_le header_bytes
seq_field seq ms frames h = from_le-to_le 8 seq h

pub ms_field :
    (seq ms : ℕ) (frames : List Bytes)
    → ms < 2 ^ 64
    → from_le (take 8 (drop 8 (header_bytes seq ms frames))) ≡ ms
unfolding to_le header_bytes
ms_field seq ms frames h = from_le-to_le 8 ms h

count_field :
    (seq ms : ℕ) (frames : List Bytes)
    → length frames < 2 ^ 32
    → from_le (take 4 (drop 16 (header_bytes seq ms frames))) ≡ length frames
unfolding to_le header_bytes
count_field seq ms frames h = from_le-to_le 4 (length frames % 2 ^ 32) (omega arith) ∙ omega arith

pub length-header_bytes :
    (seq ms : ℕ) (frames : List Bytes) → length (header_bytes seq ms frames) ≡ 24
unfolding to_le header_bytes
length-header_bytes seq ms frames = refl

pub split_header :
    (seq ms : ℕ) (frames : List Bytes) (rest : Bytes)
    → record_bytes seq ms frames ++ rest ≡ header_bytes seq ms frames ++ (body_bytes frames ++ rest)
unfolding record_bytes header_bytes
split_header seq ms frames rest = simp append_assoc

-- A record that `append` builds, of numbers below their widths, is read back whatever follows it.
pub read_record-record_bytes :
    (seq ms : ℕ) (frames : List Bytes) (rest : Bytes)
    → seq < 2 ^ 64
    → ms < 2 ^ 64
    → length frames < 2 ^ 32
    → All FitsU32 frames
    → read_record true (record_bytes seq ms frames ++ rest)
      ≡ some (record { seq = seq; ms = ms; frames = frames })
unfolding read_record
read_record-record_bytes seq ms frames rest hs hm hc hf = rw (split_header seq ms frames rest) (
    rw
      (read_full-append 24 (header_bytes seq ms frames) (body_bytes frames ++ rest)
        (length-header_bytes seq ms frames))
      (rw (count_field seq ms frames hc) (
        rw (read_frames-body frames rest hf)
          (rw (seq_field seq ms frames hs, ms_field seq ms frames hm)))))

-- A reader with more behind it gives the same.
read_full_more :
    (n : ℕ) (r more : Bytes) (p : Bytes × Bytes)
    → read_full n r ≡ some p
    → read_full n (r ++ more) ≡ some (p.0, p.1 ++ more)
unfolding read_full
read_full_more n r more p h = elim (Bool-cases (leb n (length r))) [
  | inl e ↦
      let q : ◌≡◌ {A = Option (Bytes × Bytes)} (some (take n r, drop n r)) (some p) = rw e at h in
      rw
        (le→leb n (length (r ++ more)) (omega (arith, leb→le n (length r) e, length-append r more)))
        (rw (take_more n r more (leb→le n (length r) e), drop_more n r more (leb→le n (length r) e))
          (ap (λ (t : Bytes × Bytes). some (t.0, t.1 ++ more)) (some-injective _ _ q)))
  | inr e ↦ cc (rw e at h)
]

and_then-some :
    {A B : Type 0} (o : Option A) (f : A → Option B) (b : B)
    → and_then o f ≡ some b
    → (a : A) × (o ≡ some a) × (f a ≡ some b)
and_then-some none f b h = cc
and_then-some (some a) f b h = (a, refl, h)

read_frames_more :
    (n : ℕ) (r more : Bytes) (p : List Bytes × Bytes)
    → read_frames n r ≡ some p
    → read_frames n (r ++ more) ≡ some (p.0, p.1 ++ more)
unfolding read_frames
read_frames_more zero r more p h =
    ap (λ (t : List Bytes × Bytes). some (t.0, t.1 ++ more)) (some-injective _ _ h)
read_frames_more (suc n) r more p h =
    let (lenb, e1, h1) = and_then-some (read_full 4 r) _ p h in
    let (frame, e2, h2) = and_then-some (read_full (from_le lenb.0) lenb.1) _ p h1 in
    let (others, e3, h3) = and_then-some (read_frames n frame.1) _ p h2 in
    rw (read_full_more 4 r more lenb e1) (
      rw (read_full_more (from_le lenb.0) lenb.1 more frame e2) (
        rw (read_frames_more n frame.1 more others e3)
          (ap (λ (t : List Bytes × Bytes). some (t.0, t.1 ++ more)) (some-injective _ _ h3))))

pub read_record_more :
    (v2 : Bool) (r more : Bytes) (x : Record)
    → read_record v2 r ≡ some x
    → read_record v2 (r ++ more) ≡ some x
unfolding read_record
read_record_more v2 r more x h =
    let (hdr, e1, h1) = and_then-some (read_full (header_length v2) r) _ x h in
    let (body, e2, h2) =
      and_then-some (read_frames (from_le (take 4 (drop 16 hdr.0))) hdr.1) _ x h1 in
    rw (read_full_more (header_length v2) r more hdr e1)
      (rw (read_frames_more (from_le (take 4 (drop 16 hdr.0))) hdr.1 more body e2) h2)

-- Past the end there is no record.
pub read_record_end : (v2 : Bool) (x : Record) → read_record v2 [] ≢ some x
unfolding read_record read_full
read_record_end true x h = cc
read_record_end false x h = cc
