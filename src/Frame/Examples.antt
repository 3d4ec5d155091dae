-- ===== src/Frame/Examples.antt =====
-- A run of the frame parser with a small CBOR reader, and the theorems at that frame.
use atmoq.Common.{
  ◌≡◌, ◌≢◌, ◌↔◌, refl, Option, none, some, List, [], ◌∷◌, ok, err, Bytes, if◌then◌else◌, eq_bytes,
  arith,
}
use atmoq.Common.Int.{ℤ, pos, wrap_i64, IsI64}
use atmoq.Drisl.Examples.{runs}
use atmoq.Frame.{Cbor, Frame, decode, parse, parse_fields, boundary, field, one_item}
use atmoq.Frame.Laws.{boundary_iff, IsFrame}
use atmoq.Frame.Parse.{decode_iff, parse_sound, IsDecoded}

-- {"t": "#a", "op": 1} and {"seq": 42}.
abbrev header_bytes : Bytes
header_bytes = 0xa2 ∷ 0x61 ∷ b't' ∷ 0x62 ∷ b'#' ∷ b'a' ∷ 0x62 ∷ b'o' ∷ b'p' ∷ 0x01 ∷ []

abbrev payload_bytes : Bytes
payload_bytes = 0xa1 ∷ 0x63 ∷ b's' ∷ b'e' ∷ b'q' ∷ 0x18 ∷ 42 ∷ []

abbrev raw_frame : Bytes
raw_frame =
    0xa2 ∷ 0x61 ∷ b't' ∷ 0x62 ∷ b'#' ∷ b'a' ∷ 0x62 ∷ b'o' ∷ b'p' ∷ 0x01 ∷ 0xa1 ∷ 0x63 ∷ b's' ∷ b'e'
    ∷ b'q' ∷ 0x18 ∷ 42 ∷ []

data Doc : Type 0 where
  word : Bytes → Doc
  number : ℤ → Doc
  header_doc payload_doc : Doc

abbrev doc_map : Doc → Option (List (Doc × Doc))
doc_map (word s) = none
doc_map (number i) = none
doc_map header_doc =
    some
      ((word (b't' ∷ []), word (b'#' ∷ b'a' ∷ [])) ∷ (word (b'o' ∷ b'p' ∷ []), number (pos 1)) ∷ [])
doc_map payload_doc = some ((word (b's' ∷ b'e' ∷ b'q' ∷ []), number (pos 42)) ∷ [])

abbrev doc_text : Doc → Option Bytes
doc_text (word s) = some s
doc_text _ = none

abbrev doc_integer : Doc → Option ℤ
doc_integer (number i) = some i
doc_integer _ = none

-- A reader that knows the two documents.
abbrev two_docs : Cbor
two_docs = record {
  Value = Doc;
  from_reader = λ bs.
      if eq_bytes bs header_bytes
      then some header_doc
      else if eq_bytes bs payload_bytes
      then some payload_doc
      else none;
  as_map = doc_map;
  as_text = doc_text;
  as_integer = doc_integer;
}

abbrev frame_42 : Frame
frame_42 = record { op = pos 1; t = some (b'#' ∷ b'a' ∷ []); seq = some (pos 42); raw = raw_frame }

parse_runs : parse two_docs raw_frame ≡ ok frame_42
unfolding runs parse parse_fields decode boundary field eq_bytes wrap_i64
parse_runs = refl

header_alone : boundary header_bytes ≡ err one_item
unfolding runs boundary
header_alone = refl

boundary_iff_example : (boundary raw_frame ≡ ok 10) ↔ IsFrame raw_frame 10
boundary_iff_example = boundary_iff raw_frame 10 (omega arith) (omega arith)

decode_iff_example :
    (decode two_docs raw_frame ≡ ok (header_doc, payload_doc))
    ↔ IsDecoded two_docs raw_frame header_doc payload_doc
decode_iff_example =
    decode_iff two_docs raw_frame header_doc payload_doc (omega arith) (omega arith)

parse_sound_example :
    (frame_42.raw ≡ raw_frame)
    × (frame_42.op ≡ pos 1 → frame_42.t ≢ none)
    × IsI64 frame_42.op
    × ((h : Doc) × (p : Doc) × (decode two_docs raw_frame ≡ ok (h, p)))
parse_sound_example = parse_sound two_docs raw_frame frame_42 parse_runs
