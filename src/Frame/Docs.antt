-- ===== src/Frame/Docs.antt =====
-- Two CBOR readers for the examples of other modules: one takes every item for the map of one
-- account, the other for a map that holds it as its sequence number.
use atmoq.Common.{ℕ, Option, none, some, [], ◌∷◌, Bytes}
use atmoq.Common.Int.{ℤ, pos}
use atmoq.Frame.{Cbor, seq_key}

abbrev pub account : Bytes
account = b'd' ∷ b'i' ∷ b'd' ∷ b':' ∷ b'a' ∷ b':' ∷ b'b' ∷ []

abbrev pub account_docs : Cbor
account_docs = record {
  Value = Bytes;
  from_reader = λ bs. some [];
  as_map = λ v. some ((b'd' ∷ b'i' ∷ b'd' ∷ [], account) ∷ []);
  as_text = λ v. some v;
  as_integer = λ v. none;
}

-- Two empty maps.
abbrev pub raw_event : Bytes
raw_event = 0xa0 ∷ 0xa0 ∷ []

abbrev pub number_of : Bytes → Option ℤ
number_of [] = none
number_of (n ∷ rest) = some (pos n)

abbrev pub numbered_docs : Cbor
numbered_docs = record {
  Value = Bytes;
  from_reader = λ bs. some bs;
  as_map = λ v. some ((seq_key, v) ∷ []);
  as_text = λ v. some v;
  as_integer = number_of;
}

-- An empty map and a number below 24.
abbrev pub numbered : ℕ → Bytes
numbered n = 0xa0 ∷ n ∷ []
