-- ===== src/Frame/Parse.antt =====
-- What `decode` and `parse` give for the two items of a frame.
use atmoq.Common.{
  ℕ, ◌^◌, ◌<◌, ◌≡◌, ◌≢◌, ◌↔◌, refl, sym, ap, subst, ◌∙◌, false, Option, none, some, inl, inr, ok,
  err, Result, ◌>>◌, Bytes, IsByte, length, take, drop, All, take-append, drop-append, arith,
  Bool-cases, >>=-eq-ok, ◌&&◌,
}
use atmoq.Common.Int.{ℤ, pos, eq_ℤ, wrap_i64, IsI64, wrap_i64-IsI64}
use atmoq.Drisl.Syntax.{encode}
use atmoq.Frame.{
  Cbor, Frame, FrameError, or_fail, bail_if, boundary, decode, parse, parse_fields,
  header_undecoded, payload_undecoded, missing_op, missing_t, field, op_key, t_key, seq_key,
  and_then, absent, wrapped,
}
use atmoq.Frame.Laws.{IsFrame, boundary_iff, or_fail_ok}

typed_op :
    (i : ℤ) (t : Option Bytes)
    → (eq_ℤ (wrap_i64 i) (pos 1) && absent t) ≡ false
    → wrap_i64 i ≡ pos 1
    → t ≢ none
typed_op i none g e n = cc (rw e at g)
typed_op i (some t) g e n = cc

-- The end of `parse`, behind the fields that it reads.
assembled :
    (raw : Bytes) (i : ℤ) (t : Option Bytes) (s : Option ℤ) (f : Frame)
    → (bail_if (eq_ℤ (wrap_i64 i) (pos 1) && absent t) missing_t
        >> ok (record { op = wrap_i64 i; t = t; seq = s; raw = raw }))
      ≡ ok f
    → (f.raw ≡ raw) × (f.op ≡ pos 1 → f.t ≢ none) × IsI64 f.op
assembled raw i t s f q = elim (Bool-cases (eq_ℤ (wrap_i64 i) (pos 1) && absent t)) [
  | inl g ↦ absurd (refused (rw g at q))
  | inr g ↦
      let same : ◌≡◌ {A = Frame} (record { op = wrap_i64 i; t = t; seq = s; raw = raw }) f =
        built (rw g at q) in
      subst (λ (x : Frame). (x.raw ≡ raw) × (x.op ≡ pos 1 → x.t ≢ none) × IsI64 x.op) same
        (refl, typed_op i t g, wrap_i64-IsI64 i)
]
  where
    refused : ◌≡◌ {A = Result FrameError Frame} (err missing_t) (ok f) → ⊥
    refused r = cc

    built : {x : Frame} → ◌≡◌ {A = Result FrameError Frame} (ok x) (ok f) → x ≡ f
    built r = cc

module _ (c : Cbor) where
  open c use {Value, from_reader, as_map, as_text, as_integer}

  -- The slice is two valid documents, which the CBOR library reads as `h` and `p`.
  pub record IsDecoded (raw : Bytes) (h p : Value) : Type 0 where
    pub split_at : ℕ
    pub items : IsFrame raw split_at
    pub header_read : from_reader (encode items.header) ≡ some h
    pub payload_read : from_reader (encode items.payload) ≡ some p

  header_bytes : (raw : Bytes) (e : ℕ) (f : IsFrame raw e) → take e raw ≡ encode f.header
  header_bytes raw e f =
      ap (λ n. take n raw) f.split
      ∙ ap (take (length (encode f.header))) f.written
      ∙ take-append (encode f.header) (encode f.payload)

  payload_bytes : (raw : Bytes) (e : ℕ) (f : IsFrame raw e) → drop e raw ≡ encode f.payload
  payload_bytes raw e f =
      ap (λ n. drop n raw) f.split
      ∙ ap (drop (length (encode f.header))) f.written
      ∙ drop-append (encode f.header) (encode f.payload)

  -- On a slice of bytes that fits the address space `decode` answers `(h, p)` exactly when the
  -- slice is two valid documents, nested at most to the validator's limit, that the CBOR library
  -- reads as `h` and `p`.
  pub decode_iff :
      (raw : Bytes) (h p : Value)
      → All IsByte raw
      → length raw < 2 ^ 64
      → (decode c raw ≡ ok (h, p)) ↔ IsDecoded raw h p
  unfolding decode
  decode_iff raw h p hb small = (to, from)
    where
      same_pair :
          (a b : Value)
          → ◌≡◌ {A = Result FrameError (Value × Value)} (ok (a, b)) (ok (h, p))
          → (a ≡ h) × (b ≡ p)
      same_pair a b r = (ground arith, ground arith)

      to : decode c raw ≡ ok (h, p) → IsDecoded raw h p
      to q =
          let (e, b, q1) = >>=-eq-ok (boundary raw) _ q in
          let (h', rh, q2) = >>=-eq-ok (or_fail (from_reader (take e raw)) header_undecoded) _ q1 in
          let (p', rp, q3) =
            >>=-eq-ok (or_fail (from_reader (drop e raw)) payload_undecoded) _ q2 in
          let (eh, ep) = same_pair h' p' q3 in
          let f = (boundary_iff raw e hb small).0 b in
          record {
            split_at = e;
            items = f;
            header_read =
                ap from_reader (sym (header_bytes raw e f))
                ∙ or_fail_ok (from_reader (take e raw)) header_undecoded rh
                ∙ ap some eh;
            payload_read =
                ap from_reader (sym (payload_bytes raw e f))
                ∙ or_fail_ok (from_reader (drop e raw)) payload_undecoded rp
                ∙ ap some ep;
          }

      from : IsDecoded raw h p → decode c raw ≡ ok (h, p)
      from d = rw (
        (boundary_iff raw d.split_at hb small).1 d.items,
        header_bytes raw d.split_at d.items,
        payload_bytes raw d.split_at d.items,
        d.header_read,
        d.payload_read,
      )

  -- A parsed frame carries the bytes that came in, unchanged; they decode; its operation is a
  -- 64-bit integer, and a message (operation 1) has a type.
  pub parse_sound :
      (raw : Bytes) (f : Frame)
      → parse c raw ≡ ok f
      → (f.raw ≡ raw)
        × (f.op ≡ pos 1 → f.t ≢ none)
        × IsI64 f.op
        × ((h : Value) × (p : Value) × (decode c raw ≡ ok (h, p)))
  unfolding parse parse_fields
  parse_sound raw f q =
      let ((h, p), d, r) = >>=-eq-ok (decode c raw) (parse_fields c raw) q in
      let (i, oi, r1) =
        >>=-eq-ok (or_fail (and_then (field c h op_key) as_integer) missing_op) _ r in
      let (same, typed, fits) =
        assembled raw i (and_then (field c h t_key) as_text)
          (wrapped (and_then (field c p seq_key) as_integer)) f r1 in
      (same, typed, fits, (h, p, d))
