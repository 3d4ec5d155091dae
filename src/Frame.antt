-- ===== src/Frame.antt =====
-- rust/crates/atmoq/src/frame.rs: a wire frame is two DRISL items, header and payload, decoded and
-- parsed. The CBOR library (ciborium) is a parameter, `Cbor`. A text is the list of its UTF-8
-- bytes. The anyhow context of an error is a constructor of `FrameError`.
pub mod Laws
pub mod Parse
mod Examples
pub mod Docs
use atmoq.Common.{
  ℕ, ◌+◌, ◌-◌, Bool, true, false, Option, none, some, List, [], ◌∷◌, Result, ok, err, panic, ◌>>=◌,
  ◌>>◌, if◌then◌else◌, leb, ◌==◌, ◌&&◌, Bytes, length, take, drop, eq_bytes,
}
use atmoq.Common.Int.{ℤ, pos, eq_ℤ, wrap_i64}
use atmoq.Drisl.{DrislError, validate}

-- What the code calls of ciborium: the decoder, on a reader that holds exactly the slice, and the
-- accessors of `ciborium::Value`.
pub record Cbor : Type 1 where
  pub Value : Type 0
  pub from_reader : Bytes → Option Value
  pub as_map : Value → Option (List (Value × Value))
  pub as_text : Value → Option Bytes
  pub as_integer : Value → Option ℤ

pub data FrameError : Type 0 where
  header_invalid payload_invalid : DrislError → FrameError
  one_item header_undecoded payload_undecoded missing_op missing_t : FrameError
  trailing_bytes : ℕ → ℕ → FrameError

pub record Frame : Type 0 where
  pub op : ℤ
  pub t : Option Bytes
  pub seq : Option ℤ
  pub raw : Bytes

-- `.context("frame header")` on the validator's result.
abbrev pub with_context :
    {A : Type 0} → (DrislError → FrameError) → Result DrislError A → Result FrameError A
with_context c (ok a) = ok a
with_context c (err e) = err (c e)
with_context c panic = panic

abbrev pub or_fail : {A : Type 0} → Option A → FrameError → Result FrameError A
or_fail none e = err e
or_fail (some a) e = ok a

abbrev pub bail_if : Bool → FrameError → Result FrameError (Unit {0})
bail_if true e = err e
bail_if false e = ok tt

-- Where the header ends, if the slice is two items and nothing more.
unfoldable pub boundary : Bytes → Result FrameError ℕ
boundary raw = do
  header_end ← with_context header_invalid (validate raw 0)
  bail_if (leb (length raw) header_end) one_item
  payload_end ← with_context payload_invalid (validate raw header_end)
  if payload_end == length raw
      then ok header_end
      else err (trailing_bytes (length raw - payload_end) (length raw))

abbrev pub op_key : Bytes
op_key = b'o' ∷ b'p' ∷ []

abbrev pub t_key : Bytes
t_key = b't' ∷ []

abbrev pub seq_key : Bytes
seq_key = b's' ∷ b'e' ∷ b'q' ∷ []

abbrev pub and_then {ℓ κ} : {A : Type ℓ} {B : Type κ} → Option A → (A → Option B) → Option B
and_then none f = none
and_then (some a) f = f a

abbrev is_text : Bytes → Option Bytes → Bool
is_text key none = false
is_text key (some s) = eq_bytes s key

abbrev pub wrapped : Option ℤ → Option ℤ
wrapped none = none
wrapped (some i) = some (wrap_i64 i)

abbrev pub absent : Option Bytes → Bool
absent none = true
absent (some t) = false

module _ (c : Cbor) where
  open c use {Value, from_reader, as_map, as_text, as_integer}

  -- `.iter().find(..).map(|(_, v)| v)`.
  unfoldable pub find_key : Bytes → List (Value × Value) → Option Value
  find_key key [] = none
  find_key key ((k, v) ∷ rest) = if is_text key (as_text k) then some v else find_key key rest

  unfoldable pub field : Value → Bytes → Option Value
  unfolding find_key
  field v key = and_then (as_map v) (find_key key)

  unfoldable pub decode : Bytes → Result FrameError (Value × Value)
  decode raw = do
    header_end ← boundary raw
    header ← or_fail (from_reader (take header_end raw)) header_undecoded
    payload ← or_fail (from_reader (drop header_end raw)) payload_undecoded
    ok (header, payload)

  -- `parse` behind `decode`.
  unfoldable pub parse_fields : Bytes → Value × Value → Result FrameError Frame
  parse_fields raw (header, payload) = do
    i ← or_fail (and_then (field header op_key) as_integer) missing_op
    let t = and_then (field header t_key) as_text
    bail_if (eq_ℤ (wrap_i64 i) (pos 1) && absent t) missing_t
    ok (record {
      op = wrap_i64 i;
      t = t;
      seq = wrapped (and_then (field payload seq_key) as_integer);
      raw = raw;
    })

  unfoldable pub parse : Bytes → Result FrameError Frame
  parse raw = decode raw >>= parse_fields raw
