-- ===== src/Car/Examples.antt =====
-- Runs of the CAR reader, and its theorems at small archives.
use atmoq.Common.{
  eq_bytes, ◌≡◌, ◌≢◌, refl, [], ◌∷◌, ◌++◌, ok, err, panic, List, All, Bytes, arith, inr, none,
}
use atmoq.Car.{
  varint, varint_loop, read_cid, next_entry, put, put_entry, blocks_loop, blocks, varint_overflow,
  skip_header, slice_from, whole_entry, split_at, cid_end, slice_to,
}
use atmoq.Car.Varint.{leb_u64, leb_bytes, varint-leb_u64, varint-tenth_byte}
use atmoq.Car.Cid.{Cid, cid_bytes, read_cid-cid_bytes}
use atmoq.Car.Total.{blocks-ne-panic}
use atmoq.Car.Blocks.{Entry, IsEntry, put_all, archive, blocks-archive}

unfoldable runs : Unit {0}
unfolding varint varint_loop read_cid next_entry put put_entry blocks_loop blocks leb_bytes eq_bytes
    skip_header slice_from whole_entry split_at cid_end slice_to
runs = tt

abbrev small_cid : Cid
small_cid = record { codec = 0x71; hash_code = 0x12; digest = 7 ∷ 8 ∷ [] }

abbrev two_entries : List Entry
two_entries =
    record { cid = small_cid; block = 1 ∷ 2 ∷ 3 ∷ [] }
    ∷ record { cid = record { codec = 0x71; hash_code = 0x12; digest = 9 ∷ [] }; block = [] }
    ∷ []

-- An entry of nine bytes of which two are there.
abbrev torn_tail : Bytes
torn_tail = 9 ∷ 1 ∷ 0x71 ∷ []

reads_two :
    blocks (archive (0xa2 ∷ []) two_entries torn_tail)
    ≡ ok (
        ((1 ∷ 0x71 ∷ 0x12 ∷ 2 ∷ 7 ∷ 8 ∷ []), (1 ∷ 2 ∷ 3 ∷ []))
        ∷ ((1 ∷ 0x71 ∷ 0x12 ∷ 1 ∷ 9 ∷ []), [])
        ∷ [])
unfolding runs
reads_two = refl

abbrev nine_bytes : Bytes
nine_bytes = 0x80 ∷ 0x80 ∷ 0x80 ∷ 0x80 ∷ 0x80 ∷ 0x80 ∷ 0x80 ∷ 0x80 ∷ 0x80 ∷ []

eleven_bytes : varint (nine_bytes ++ (0x80 ∷ 1 ∷ [])) ≡ err varint_overflow
unfolding runs
eleven_bytes = refl

torn_break : next_entry torn_tail ≡ ok none
unfolding runs
torn_break = refl

two_valid : All IsEntry two_entries
unfolding runs
two_valid = (
  record {
    cid_valid = record {
      codec_u64 = omega arith;
      hash_code_u64 = omega arith;
      digest_u64 = omega arith;
    };
    length_u64 = omega arith;
  },
  (
    record {
      cid_valid = record {
        codec_u64 = omega arith;
        hash_code_u64 = omega arith;
        digest_u64 = omega arith;
      };
      length_u64 = omega arith;
    },
    tt,
  ),
)

varint-leb_u64_example : varint (leb_u64 300 ++ (5 ∷ [])) ≡ ok (300, 5 ∷ [])
varint-leb_u64_example = varint-leb_u64 300 (5 ∷ []) (omega arith)

varint-tenth_byte_example : varint (nine_bytes ++ (3 ∷ [])) ≡ varint (nine_bytes ++ (1 ∷ []))
varint-tenth_byte_example =
    varint-tenth_byte nine_bytes 3 1 [] (omega arith) (omega arith) (omega arith) (omega arith)
      (omega arith)

read_cid-cid_bytes_example :
    read_cid (cid_bytes small_cid ++ (1 ∷ [])) ≡ ok (cid_bytes small_cid, 1 ∷ [])
read_cid-cid_bytes_example =
    read_cid-cid_bytes small_cid (1 ∷ [])
      (record { codec_u64 = omega arith; hash_code_u64 = omega arith; digest_u64 = omega arith })

blocks-archive_example :
    blocks (archive (0xa2 ∷ []) two_entries torn_tail) ≡ ok (put_all two_entries [])
blocks-archive_example =
    blocks-archive (0xa2 ∷ []) two_entries torn_tail (omega arith) two_valid (inr torn_break)

blocks-ne-panic_example : blocks (archive (0xa2 ∷ []) two_entries torn_tail) ≢ panic
blocks-ne-panic_example = blocks-ne-panic (archive (0xa2 ∷ []) two_entries torn_tail)
