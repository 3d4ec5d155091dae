-- ===== src/Drisl.antt =====
-- rust/crates/atmoq/src/drisl.rs: the DRISL validator. A byte slice is a list of numbers, an
-- offset a position in it. The error's formatted text is a `Message` with the values that the text
-- shows. An index out of range is the outcome `panic`.
pub mod Utf8
pub mod Syntax
pub mod Numbers
pub mod Shape
pub mod Head
pub mod Accepts
pub mod Found
pub mod Sound
pub mod NoPanic
pub mod Correct
pub mod Examples
use atmoq.Common.{
  ℕ, zero, suc, ◌+◌, ◌-◌, ◌*◌, ◌/◌, ◌%◌, ◌^◌, min, bit_and, bit_or, Bool, true, false, not, ◌&&◌,
  Option, none, some, List, [], ◌∷◌, Result, ok, err, panic, ◌>>=◌, ◌>>◌, if◌then◌else◌, ltb, leb,
  ◌==◌, Bytes, length, get_elem?, take, drop,
}
use Utf8.{is_utf8}

-- The `what` argument of `read_arg`.
pub data What : Type 0 where
  uint negint bytes_length text_length array_length map_length tag : What

pub data Message : Type 0 where
  nesting_deeper truncated_item truncated_key key_not_text duplicate_key keys_unordered : Message
  truncated_body invalid_utf8 tag_content no_prefix truncated_float not_a_number infinite : Message
  half_float single_float undefined_value break_code : Message
  indefinite truncated_arg : What → Message
  reserved : ℕ → Message
  non_minimal : What → ℕ → ℕ → Message
  tag_not_allowed : ℕ → Message
  simple_not_allowed : ℕ → Message
  trailing_bytes : ℕ → Message

pub record DrislError : Type 0 where
  pub offset : ℕ
  pub message : Message

abbrev pub Checked : Type 0 → Type 0
Checked A = Result DrislError A

abbrev pub fail : {A : Type 0} → ℕ → Message → Checked A
fail o m = err (record { offset = o; message = m })

abbrev pub max_depth : ℕ
max_depth = 128

-- `data[i]`.
pub index : Bytes → ℕ → Checked ℕ
index bs i = elim (get_elem? bs i) [ none ↦ panic | some b ↦ ok b ]

-- The bytes of a range that lies in the slice.
abbrev pub range : Bytes → ℕ → ℕ → Bytes
range bs s e = take (e - s) (drop s bs)

-- `data[s..e]`.
unfoldable pub slice : Bytes → ℕ → ℕ → Checked Bytes
slice bs s e = if leb s e && leb e (length bs) then ok (range bs s e) else panic

-- The loop of `read_arg`: the rounds left, the next position, the value so far.
pub accumulate : Bytes → ℕ → ℕ → ℕ → Checked ℕ
unfolding index
accumulate bs zero i value = ok value
accumulate bs (suc n) i value = do
  b ← index bs i
  accumulate bs n (i + 1) (bit_or (value * 2 ^ 8 % 2 ^ 64) b)

abbrev pub minimal_value : ℕ → ℕ
minimal_value ai =
    if ai == 24 then 24 else if ai == 25 then 256 else if ai == 26 then 65536 else 4294967296

abbrev pub reserved_or_indefinite : ℕ → What → ℕ → Checked (ℕ × ℕ)
reserved_or_indefinite offset what ai =
    if ai == 31 then fail offset (indefinite what) else fail offset (reserved ai)

abbrev pub check_minimal : ℕ → What → ℕ → ℕ → ℕ → Checked (ℕ × ℕ)
check_minimal offset what ai width value =
    if ltb value (minimal_value ai)
    then fail offset (non_minimal what value width)
    else ok (value, offset + 1 + width)

-- The part of `read_arg` for the additional information 24 to 27: an argument of `width` bytes.
pub read_wide : Bytes → ℕ → What → ℕ → ℕ → Checked (ℕ × ℕ)
unfolding accumulate
read_wide bs offset what ai width =
    if ltb (length bs) (offset + 1 + width)
    then fail offset (truncated_arg what)
    else (accumulate bs width (offset + 1) 0 >>= check_minimal offset what ai width)

pub read_arg : Bytes → ℕ → What → Checked (ℕ × ℕ)
unfolding index
read_arg bs offset what = do
  initial ← index bs offset
  let ai = bit_and initial 0x1f
  if ltb ai 24
      then ok (ai, offset + 1)
      else if ltb 27 ai
      then reserved_or_indefinite offset what ai
      else read_wide bs offset what ai (2 ^ (ai - 24))

-- `data[a].cmp(&data[b])`, lexicographic.
pub data Order : Type 0 where
  less equal greater : Order

unfoldable pub cmp : Bytes → Bytes → Order
cmp [] [] = equal
cmp [] (y ∷ ys) = less
cmp (x ∷ xs) [] = greater
cmp (x ∷ xs) (y ∷ ys) =
    let rest = cmp xs ys in if ltb x y then less else if ltb y x then greater else rest

-- The text of a body, and the offset behind it.
abbrev pub check_text : ℕ → ℕ → Bytes → Checked ℕ
check_text end behind text = if is_utf8 text then ok behind else fail end invalid_utf8

-- Majors 2 and 3, behind the length argument. `checked_add` is none from 2^64 on.
pub check_body : Bytes → ℕ → ℕ × ℕ → Checked ℕ
check_body bs major (len, end) =
    if ltb (end + len) (2 ^ 64) && leb (end + len) (length bs)
    then if major == 3
      then (slice bs end (end + len) >>= check_text end (end + len))
      else ok (end + len)
    else fail (min end (length bs)) truncated_body

-- The loop over an array's items; `item` is `validate_item` one level down.
pub array_loop : (ℕ → Checked ℕ) → ℕ → ℕ → Checked ℕ
array_loop item zero cursor = ok cursor
array_loop item (suc n) cursor = do next ← item cursor; array_loop item n next

abbrev pub by_order : ℕ → Order → Checked (Unit {0})
by_order key_start equal = fail key_start duplicate_key
by_order key_start greater = fail key_start keys_unordered
by_order key_start less = ok tt

-- The comparison of a key with the one before it.
pub check_order : Bytes → Option (ℕ × ℕ) → ℕ → ℕ → Checked (Unit {0})
unfolding cmp
check_order bs none key_start key_end = ok tt
check_order bs (some (ps, pe)) key_start key_end = do
  prev ← slice bs ps pe
  key ← slice bs key_start key_end
  by_order key_start (cmp prev key)

pub key_head : Bytes → ℕ → Checked (Unit {0})
key_head bs key_start = elim (get_elem? bs key_start) [
  | none ↦ fail key_start truncated_key
  | some kb ↦ if kb / 2 ^ 5 == 3 then ok tt else fail key_start key_not_text
]

-- The loop over a map's entries.
pub map_loop : (ℕ → Checked ℕ) → Bytes → ℕ → ℕ → Option (ℕ × ℕ) → Checked ℕ
map_loop item bs zero cursor prev_key = ok cursor
map_loop item bs (suc n) key_start prev_key = do
  key_head bs key_start
  key_end ← item key_start
  check_order bs prev_key key_start key_end
  next ← item key_end
  map_loop item bs n next (some (key_start, key_end))

pub content_head : Bytes → ℕ → Checked (Unit {0})
content_head bs end = elim (get_elem? bs end) [
  | none ↦ fail (min end (length bs)) tag_content
  | some b ↦ if b / 2 ^ 5 == 2 then ok tt else fail (min end (length bs)) tag_content
]

pub check_prefix : Bytes → ℕ → ℕ → Checked ℕ
unfolding index
check_prefix bs content_end body_start =
    if content_end == body_start
    then fail body_start no_prefix
    else (index bs body_start >>= λ b. if b == 0 then ok content_end else fail body_start no_prefix)

-- The content of tag 42.
pub cid_content : (ℕ → Checked ℕ) → Bytes → ℕ → Checked ℕ
cid_content item bs end = do
  content_head bs end
  content_end ← item end
  body ← read_arg bs end bytes_length
  check_prefix bs content_end body.1

-- Major 6.
pub check_tag : (ℕ → Checked ℕ) → Bytes → ℕ → ℕ × ℕ → Checked ℕ
check_tag item bs offset (number, end) =
    if number == 42 then cid_content item bs end else fail offset (tag_not_allowed number)

-- `f64::from_be_bytes` keeps the bits: one of sign, eleven of exponent, 52 of fraction.
unfoldable pub from_be : ℕ → Bytes → ℕ
from_be acc [] = acc
from_be acc (b ∷ bs) = from_be (acc * 256 + b) bs

abbrev pub exponent : ℕ → ℕ
exponent bits = bits / 2 ^ 52 % 2 ^ 11

abbrev pub is_nan : ℕ → Bool
is_nan bits = exponent bits == 2047 && not (bits % 2 ^ 52 == 0)

abbrev pub is_infinite : ℕ → Bool
is_infinite bits = exponent bits == 2047 && bits % 2 ^ 52 == 0

abbrev pub float_bits : ℕ → ℕ → Checked ℕ
float_bits offset bits =
    if is_nan bits
    then fail offset not_a_number
    else if is_infinite bits
    then fail offset infinite
    else ok (offset + 9)

-- The bytes are `data.get(offset + 1..offset + 9)`.
pub check_float : Bytes → ℕ → Checked ℕ
unfolding from_be
check_float bs offset =
    if leb (offset + 9) (length bs)
    then float_bits offset (from_be 0 (range bs (offset + 1) (offset + 9)))
    else fail offset truncated_float

abbrev pub simple_number : Bytes → ℕ → ℕ → ℕ
simple_number bs offset initial =
    if bit_and initial 0x1f == 24
    then elim (get_elem? bs (offset + 1)) [ none ↦ 0 | some v ↦ v ]
    else bit_and initial 0x1f

-- Major 7.
pub check_simple : Bytes → ℕ → ℕ → Checked ℕ
check_simple bs offset initial =
    if leb 0xf4 initial && leb initial 0xf6
    then ok (offset + 1)
    else if initial == 0xfb
    then check_float bs offset
    else if initial == 0xf9
    then fail offset half_float
    else if initial == 0xfa
    then fail offset single_float
    else if initial == 0xf7
    then fail offset undefined_value
    else if initial == 0xff
    then fail offset break_code
    else fail offset (simple_not_allowed (simple_number bs offset initial))

-- The `match major`; `item` is `validate_item` one level down.
pub by_major : (ℕ → Checked ℕ) → Bytes → ℕ → ℕ → ℕ → Checked ℕ
by_major item bs offset initial major =
    if major == 0
    then (read_arg bs offset uint >>= λ a. ok a.1)
    else if major == 1
    then (read_arg bs offset negint >>= λ a. ok a.1)
    else if major == 2
    then (read_arg bs offset bytes_length >>= check_body bs 2)
    else if major == 3
    then (read_arg bs offset text_length >>= check_body bs 3)
    else if major == 4
    then (read_arg bs offset array_length >>= λ a. array_loop item a.0 a.1)
    else if major == 5
    then (read_arg bs offset map_length >>= λ a. map_loop item bs a.0 a.1 none)
    else if major == 6
    then (read_arg bs offset tag >>= check_tag item bs offset)
    else if major == 7
    then check_simple bs offset initial
    else panic

-- The first argument is what is left of the depth, `max_depth + 1 - depth`: the source passes
-- `depth` and refuses above `max_depth`.
pub validate_item : ℕ → Bytes → ℕ → Checked ℕ
validate_item zero bs offset = fail offset nesting_deeper
validate_item (suc room) bs offset = elim (get_elem? bs offset) [
  | none ↦ fail offset truncated_item
  | some initial ↦ by_major (validate_item room bs) bs offset initial (initial / 2 ^ 5)
]

pub validate : Bytes → ℕ → Checked ℕ
validate bs offset = validate_item (max_depth + 1) bs offset

pub validate_exact : Bytes → Checked (Unit {0})
validate_exact bs = do
  end ← validate bs 0
  if end == length bs then ok tt else fail end (trailing_bytes (length bs - end))
