-- ===== src/Drisl/Examples.antt =====
-- The vectors of the validator's own tests, run through the model.
use atmoq.Common.{◌≡◌, ◌≢◌, ◌≤◌, ◌+◌, ◌++◌, ◌↔◌, refl, [], ◌∷◌, ok, panic, Bytes, length, At, arith}
use atmoq.Drisl.{
  validate, validate_exact, validate_item, by_major, read_arg, read_wide, check_body, array_loop,
  map_loop, slice, check_order, key_head, content_head, check_prefix, cid_content, check_tag,
  check_float, check_simple, fail, non_minimal, uint, keys_unordered, duplicate_key, infinite,
  trailing_bytes, invalid_utf8, max_depth, cmp,
}
use atmoq.Drisl.Utf8.{is_utf8}
use atmoq.Drisl.Syntax.{Value, uint, object, end, entry, encode, head, levels, IsValid}
use atmoq.Drisl.Sound.{Found}
use atmoq.Drisl.Correct.{
  validate_exact_iff, validate_sound, validate_complete, validate-ne-panic, validate_exact-append,
  IsItem,
}

-- What a run of the validator computes with.
unfoldable pub runs : Unit {0}
unfolding slice validate validate_exact validate_item by_major read_arg check_body array_loop
    map_loop check_order key_head content_head check_prefix read_wide cid_content check_tag
    check_float check_simple is_utf8
runs = tt

sorted_map : validate_exact (0xa2 ∷ 0x61 ∷ 0x61 ∷ 0x01 ∷ 0x61 ∷ 0x62 ∷ 0x02 ∷ []) ≡ ok tt
unfolding runs
sorted_map = refl

cid_link : validate_exact (0xd8 ∷ 0x2a ∷ 0x45 ∷ 0 ∷ 1 ∷ 0x71 ∷ 0x12 ∷ 0x20 ∷ []) ≡ ok tt
unfolding runs
cid_link = refl

padded_uint : validate_exact (0x18 ∷ 0x17 ∷ []) ≡ fail 0 (non_minimal uint 23 1)
unfolding runs
padded_uint = refl

longer_key_first :
    validate_exact (0xa2 ∷ 0x62 ∷ 0x6f ∷ 0x70 ∷ 0x01 ∷ 0x61 ∷ 0x74 ∷ 0x02 ∷ [])
    ≡ fail 5 keys_unordered
unfolding runs
longer_key_first = refl

repeated_key :
    validate_exact (0xa2 ∷ 0x61 ∷ 0x61 ∷ 0x01 ∷ 0x61 ∷ 0x61 ∷ 0x02 ∷ []) ≡ fail 4 duplicate_key
unfolding runs
repeated_key = refl

float_infinity : validate_exact (0xfb ∷ 0x7f ∷ 0xf0 ∷ 0 ∷ 0 ∷ 0 ∷ 0 ∷ 0 ∷ 0 ∷ []) ≡ fail 0 infinite
unfolding runs
float_infinity = refl

float_half : validate_exact (0xfb ∷ 0x3f ∷ 0xf8 ∷ 0 ∷ 0 ∷ 0 ∷ 0 ∷ 0 ∷ 0 ∷ []) ≡ ok tt
unfolding runs
float_half = refl

bad_utf8 : validate_exact (0x62 ∷ 0xc3 ∷ 0x28 ∷ []) ≡ fail 1 invalid_utf8
unfolding runs
bad_utf8 = refl

first_item : validate (0xa1 ∷ 0x61 ∷ 0x61 ∷ 0x01 ∷ 0xf6 ∷ []) 0 ≡ ok 4
unfolding runs
first_item = refl

two_items : validate_exact (0x01 ∷ 0x02 ∷ []) ≡ fail 1 (trailing_bytes 1)
unfolding runs
two_items = refl

-- {"a": 1, "b": 2}.
abbrev map_bytes : Bytes
map_bytes = 0xa2 ∷ 0x61 ∷ 0x61 ∷ 0x01 ∷ 0x61 ∷ 0x62 ∷ 0x02 ∷ []

abbrev map_value : Value
map_value = object (entry (0x61 ∷ []) (uint 1) (entry (0x62 ∷ []) (uint 2) end))

map_written : encode map_value ≡ map_bytes
unfolding encode head
map_written = refl

map-IsValid : IsValid map_value
unfolding IsValid is_utf8 cmp head
map-IsValid = (
  omega arith,
  (
    ((omega arith, tt), omega arith, refl),
    tt,
    omega arith,
    (((omega arith, tt), omega arith, refl), refl, omega arith, tt),
  ),
)

map_levels : levels map_value ≤ max_depth + 1
unfolding levels
map_levels = omega arith

map_accepted : validate map_bytes 0 ≡ ok 7
unfolding runs
map_accepted = refl

map_at : At map_bytes 0 (encode map_value)
unfolding encode head
map_at = record { inside = omega arith; rest = []; found = refl }

map_exact : validate_exact map_bytes ≡ ok tt
unfolding runs
map_exact = refl

validate_exact_iff_example : (validate_exact map_bytes ≡ ok tt) ↔ IsItem map_bytes
validate_exact_iff_example = validate_exact_iff map_bytes (omega arith) (omega arith)

validate_sound_example : Found map_bytes (max_depth + 1) 0 7
validate_sound_example = validate_sound map_bytes 0 7 (omega arith) map_accepted

validate_complete_example : validate map_bytes 0 ≡ ok (0 + length (encode map_value))
validate_complete_example =
    validate_complete map_bytes 0 map_value (omega arith) map-IsValid map_levels map_at

-- A map whose second key is cut off.
validate-ne-panic_example : validate (0xa2 ∷ 0x61 ∷ 0x61 ∷ 0x01 ∷ 0x62 ∷ 0x62 ∷ []) 0 ≢ panic
validate-ne-panic_example =
    validate-ne-panic (0xa2 ∷ 0x61 ∷ 0x61 ∷ 0x01 ∷ 0x62 ∷ 0x62 ∷ []) 0 (omega arith)

validate_exact-append_example :
    (validate (map_bytes ++ (0xf6 ∷ 0xf5 ∷ [])) 0 ≡ ok 7)
    × (validate_exact (map_bytes ++ (0xf6 ∷ 0xf5 ∷ [])) ≡ fail 7 (trailing_bytes 2))
validate_exact-append_example =
    validate_exact-append map_bytes 0xf6 (0xf5 ∷ []) (omega arith) (omega arith) map_exact
