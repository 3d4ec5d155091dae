-- ===== src/Frame/Laws.antt =====
-- A frame is accepted exactly when it is two DRISL items, and its bytes are kept.
use atmoq.Common.{
  ℕ, ◌+◌, ◌^◌, ◌≤◌, ◌<◌, ◌≡◌, refl, sym, ap, subst, ◌∙◌, Option, none, some, [], ◌++◌, ok, err,
  panic, Result, ◌-◌, ◌↔◌, Bool, true, false, Bytes, IsByte, length, All, At, At-join, At-left,
  At-right, At_whole, length-append, append-nil, arith, leb, ◌==◌, eq→==, leb→lt, lt→leb, >>=-eq-ok,
  if◌then◌else◌,
}
use atmoq.Drisl.{DrislError, validate, max_depth}
use atmoq.Drisl.Syntax.{Value, encode, levels, IsValid}
use atmoq.Drisl.Accepts.{encode-pos}
use atmoq.Drisl.Correct.{validate_sound, validate_complete}
use atmoq.Frame.{
  FrameError, with_context, or_fail, bail_if, boundary, header_invalid, payload_invalid, one_item,
  trailing_bytes,
}

-- A slice is the encodings of two documents, the first of which ends at `e`.
pub record IsFrame (raw : Bytes) (e : ℕ) : Type 0 where
  pub header : Value
  pub payload : Value
  pub written : raw ≡ encode header ++ encode payload
  pub split : e ≡ length (encode header)
  pub header_valid : IsValid header
  pub payload_valid : IsValid payload
  pub header_shallow : levels header ≤ max_depth + 1
  pub payload_shallow : levels payload ≤ max_depth + 1

with_context_ok :
    {A : Type 0} (c : DrislError → FrameError) (m : Result DrislError A) {a : A}
    → with_context c m ≡ ok a
    → m ≡ ok a
with_context_ok c (ok b) q = cc
with_context_ok c (err e) q = cc
with_context_ok c panic q = cc

pub bail_ok : (b : Bool) (e : FrameError) (u : Unit {0}) → bail_if b e ≡ ok u → b ≡ false
bail_ok true e u q = cc
bail_ok false e u q = refl

pub or_fail_ok :
    {A : Type 0} (o : Option A) (e : FrameError) {a : A} → or_fail o e ≡ ok a → o ≡ some a
or_fail_ok none e q = cc
or_fail_ok (some b) e q = cc

boundary_ok :
    (raw : Bytes) (e : ℕ)
    → boundary raw ≡ ok e
    → (validate raw 0 ≡ ok e) × (e < length raw) × (validate raw e ≡ ok (length raw))
unfolding boundary
boundary_ok raw e q =
    let (h, v, q1) = >>=-eq-ok (with_context header_invalid (validate raw 0)) _ q in
    let (u, b, q2) = >>=-eq-ok (bail_if (leb (length raw) h) one_item) _ q1 in
    let (p, w, q3) = >>=-eq-ok (with_context payload_invalid (validate raw h)) _ q2 in
    let (same, last) = ended h p q3 in
    let v' = with_context_ok header_invalid (validate raw 0) v in
    let w' = with_context_ok payload_invalid (validate raw h) w in
    (
      v' ∙ ap ok same,
      omega (arith, leb→lt (length raw) h (bail_ok _ one_item u b), same),
      subst (λ k. validate raw k ≡ ok (length raw)) same (w' ∙ ap ok last),
    )
  where
    ended :
        (h p : ℕ)
        → (if p == length raw then ok h else err (trailing_bytes (length raw - p) (length raw)))
          ≡ ok e
        → (h ≡ e) × (p ≡ length raw)
    ended h p r = (ground arith, ground arith)

boundary_eq :
    (raw : Bytes) (e : ℕ)
    → validate raw 0 ≡ ok e
    → e < length raw
    → validate raw e ≡ ok (length raw)
    → boundary raw ≡ ok e
unfolding boundary
boundary_eq raw e v lt w =
    rw (v, boundary)
      (rw (lt→leb (length raw) e lt, w, boundary) (rw (eq→== (length raw) (length raw) refl)))

-- `boundary`, the validation that `decode` begins with, accepts a slice of bytes that fits the
-- address space with the answer `e` exactly when the slice is the encodings of two valid
-- documents, nested at most to the validator's limit, of which the first ends at `e`.
pub boundary_iff :
    (raw : Bytes) (e : ℕ)
    → All IsByte raw
    → length raw < 2 ^ 64
    → (boundary raw ≡ ok e) ↔ IsFrame raw e
boundary_iff raw e hb small = (to, from)
  where
    to : boundary raw ≡ ok e → IsFrame raw e
    to q =
        let (v, lt, w) = boundary_ok raw e q in
        let h = validate_sound raw 0 e hb v in
        let p = validate_sound raw e (length raw) hb w in
        let both =
          At-join {xs = encode h.value} h.stands
            (subst (λ k. At raw k (encode p.value)) h.ends p.stands) in
        record {
          header = h.value;
          payload = p.value;
          written =
              At_whole both
                (omega (arith, h.ends, p.ends, length-append (encode h.value) (encode p.value)));
          split = h.ends ∙ omega arith;
          header_valid = h.valid;
          payload_valid = p.valid;
          header_shallow = h.shallow;
          payload_shallow = p.shallow;
        }

    from : IsFrame raw e → boundary raw ≡ ok e
    from f =
        let hs = encode f.header in
        let ps = encode f.payload in
        let whole : At raw 0 (hs ++ ps) = record {
          inside = omega arith;
          rest = [];
          found = f.written ∙ sym (append-nil (hs ++ ps));
        } in
        let a = At-left hs ps whole in
        let b : At raw e ps =
          subst (λ k. At raw k ps) (omega (arith, f.split)) (At-right hs ps whole) in
        let len : length raw ≡ e + length ps =
          omega (arith, ap length f.written, length-append hs ps, f.split) in
        boundary_eq raw e
          (validate_complete raw 0 f.header small f.header_valid f.header_shallow a
            ∙ ap ok (omega (arith, f.split)))
          (omega (arith, len, encode-pos f.payload f.payload_valid))
          (validate_complete raw e f.payload small f.payload_valid f.payload_shallow b
            ∙ ap ok (sym len))
