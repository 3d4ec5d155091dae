-- ===== src/Drisl/Sound.antt =====
-- Soundness: whatever the validator accepts is the encoding of a valid document.
use atmoq.Common.{
  ℕ, zero, suc, ◌+◌, ◌/◌, ◌^◌, ◌≤◌, ◌≡◌, ◌≢◌, refl, sym, ap, subst, ◌∙◌, true, false, Option, none,
  some, inl, inr, [], ◌∷◌, ◌++◌, ok, ◌>>=◌, ◌==◌, Bytes, IsByte, length, get_elem?, drop, All, At,
  At-le, At-of_get, At-join, length-append, arith, Option-cases, All-get, if◌then◌else◌, >>=-eq-ok,
}
use mathlib.Core.Option.{some-injective}
use native.Mathlib.Decide.{ℕ_discrete}
use atmoq.Drisl.{
  What, array_loop, map_loop, check_order, key_head, content_head, cid_content, check_tag,
  check_simple, by_major, validate_item, read_arg, array_length, map_length, tag, fail,
  key_not_text,
}
use atmoq.Drisl.Syntax.{
  Value, Values, nil, cons, Entries, end, entry, byte_string, text, cid, array, object, boolean,
  null, float, head, encode, encode_items, encode_entries, encode_text, encode_bytes, count_items,
  count_entries, levels, levels_items, levels_entries, Ascends, IsValid, AreValid, AreEntries,
}
use atmoq.Drisl.Head.{IsHeadAt}
use atmoq.Drisl.Accepts.{slice_At, PrevAt}
use atmoq.Drisl.Found.{
  validate_item_ok, head_found, IsText-found, bytes_found, link_found, float_found, check_simple_ok,
  same_ok,
}

-- What `validate_item` found: a document at `o` that ends at `e`.
pub record Found (d : Bytes) (room o e : ℕ) : Type 0 where
  pub value : Value
  pub stands : At d o (encode value)
  pub ends : e ≡ o + length (encode value)
  pub valid : IsValid value
  pub shallow : levels value ≤ room

record FoundItems (d : Bytes) (room n o e : ℕ) : Type 0 where
  items : Values
  counted : count_items items ≡ n
  stands : At d o (encode_items items)
  ends : e ≡ o + length (encode_items items)
  valid : AreValid items
  shallow : levels_items items ≤ room

record FoundEntries (d : Bytes) (room n o e : ℕ) (key : Option Bytes) : Type 0 where
  entries : Entries
  counted : count_entries entries ≡ n
  stands : At d o (encode_entries entries)
  ends : e ≡ o + length (encode_entries entries)
  valid : AreEntries key entries
  shallow : levels_entries entries ≤ room

key_head_ok :
    (d : Bytes) (o : ℕ) (u : Unit {0})
    → key_head d o ≡ ok u
    → (b : ℕ) × (get_elem? d o ≡ some b) × (b / 2 ^ 5 ≡ 3)
unfolding key_head
key_head_ok d o u q = elim (Option-cases (get_elem? d o)) [
  | inl n ↦ cc (rw (n, key_head) at q)
  | inr (b, g) ↦ (b, g, major b (rw (g, key_head) at q))
]
  where
    major : (b : ℕ) → (if b / 2 ^ 5 == 3 then ok tt else fail o key_not_text) ≡ ok u → b / 2 ^ 5 ≡ 3
    major b r = ground arith

check_order_ok :
    (d : Bytes) (prev : Option (ℕ × ℕ)) (key : Option Bytes) (o : ℕ) (k : Bytes) (u : Unit {0})
    → PrevAt d prev key
    → At d o (encode_text k)
    → check_order d prev o (o + length (encode_text k)) ≡ ok u
    → Ascends key k
unfolding check_order
check_order_ok d none none o k u p a q = tt
check_order_ok d none (some j) o k u p a q = absurd p
check_order_ok d (some r) none o k u p a q = absurd p
check_order_ok d (some (ps, pe)) (some j) o k u (aj, e) a q =
    ground (arith, slice_At aj, slice_At a)

item_ok :
    (d : Bytes) (room n o e : ℕ)
    → array_loop (validate_item room d) (suc n) o ≡ ok e
    → (m : ℕ) × (validate_item room d o ≡ ok m) × (array_loop (validate_item room d) n m ≡ ok e)
unfolding array_loop
item_ok d room n o e q = >>=-eq-ok (validate_item room d o) (array_loop (validate_item room d) n) q

pub no_room : (d : Bytes) (o : ℕ) {e : ℕ} → validate_item 0 d o ≢ ok e
unfolding validate_item
no_room d o q = cc

-- One round of the map loop, taken apart.
record Round (d : Bytes) (room n o e : ℕ) (prev : Option (ℕ × ℕ)) : Type 0 where
  key_end : ℕ
  next : ℕ
  initial : ℕ
  got : get_elem? d o ≡ some initial
  is_text : initial / 2 ^ 5 ≡ 3
  key : validate_item room d o ≡ ok key_end
  ordered : check_order d prev o key_end ≡ ok tt
  value : validate_item room d key_end ≡ ok next
  others : map_loop (validate_item room d) d n next (some (o, key_end)) ≡ ok e

entry_ok :
    (d : Bytes) (room n o e : ℕ) (prev : Option (ℕ × ℕ))
    → map_loop (validate_item room d) d (suc n) o prev ≡ ok e
    → Round d room n o e prev
unfolding map_loop
entry_ok d room n o e prev q =
    let (u, h, q1) = >>=-eq-ok (key_head d o) _ q in
    let (b, g, m) = key_head_ok d o u h in
    let (key_end, k, q2) = >>=-eq-ok (validate_item room d o) _ q1 in
    let (t, c, q3) = >>=-eq-ok (check_order d prev o key_end) _ q2 in
    let (next, v, q4) = >>=-eq-ok (validate_item room d key_end) _ q3 in
    record {
      key_end = key_end;
      next = next;
      initial = b;
      got = g;
      is_text = m;
      key = k;
      ordered = c;
      value = v;
      others = q4;
    }

check_tag_ok :
    (d : Bytes) (room o n start e : ℕ)
    → check_tag (validate_item room d) d o (n, start) ≡ ok e
    → (n ≡ 42) × (cid_content (validate_item room d) d start ≡ ok e)
unfolding check_tag
check_tag_ok d room o n start e q = ground arith

no_link : (d : Bytes) (start : ℕ) {e : ℕ} → cid_content (validate_item 0 d) d start ≢ ok e
unfolding cid_content
no_link d start q =
    let (u, c, q1) = >>=-eq-ok (content_head d start) _ q in
    let (m, v, q2) = >>=-eq-ok (validate_item 0 d start) _ q1 in no_room d start v

module _ (d : Bytes) (hd : All IsByte d) where
  items-Found :
      (room : ℕ)
      → ((o e : ℕ) → validate_item room d o ≡ ok e → Found d room o e)
      → (n o e : ℕ) → o ≤ length d
      → array_loop (validate_item room d) n o ≡ ok e
      → FoundItems d room n o e
  unfolding encode IsValid levels array_loop
  items-Found room ih zero o e h q = record {
    items = nil;
    counted = refl;
    stands = record { inside = h; rest = drop o d; found = refl };
    ends = omega (arith, same_ok q);
    valid = tt;
    shallow = omega arith;
  }
  items-Found room ih (suc n) o e h q =
      let (m, v, q') = item_ok d room n o e q in
      let f = ih o m v in
      let fs = items-Found room ih n m e (omega (arith, f.ends, At-le f.stands)) q' in
      let xs = encode f.value in
      let ys = encode_items fs.items in
      record {
        items = cons f.value fs.items;
        counted = ap suc fs.counted;
        stands = At-join {xs = xs} f.stands (subst (λ k. At d k ys) f.ends fs.stands);
        ends = omega (arith, fs.ends, f.ends, length-append xs ys);
        valid = (f.valid, fs.valid);
        shallow = omega (arith, f.shallow, fs.shallow);
      }

  entries-Found :
      (room : ℕ)
      → ((o e : ℕ) → validate_item room d o ≡ ok e → Found d room o e)
      → (n o e : ℕ) (prev : Option (ℕ × ℕ)) (key : Option Bytes) → PrevAt d prev key
      → o ≤ length d
      → map_loop (validate_item room d) d n o prev ≡ ok e
      → FoundEntries d room n o e key
  unfolding encode IsValid levels map_loop
  entries-Found room ih zero o e prev key p h q = record {
    entries = end;
    counted = refl;
    stands = record { inside = h; rest = drop o d; found = refl };
    ends = omega (arith, same_ok q);
    valid = tt;
    shallow = omega arith;
  }
  entries-Found zero ih (suc n) o e prev key p h q =
      absurd (no_room d o (entry_ok d 0 n o e prev q).key)
  entries-Found (suc room) ih (suc n) o e prev key p h q =
      let r = entry_ok d (suc room) n o e prev q in
      let (b, g, by) = validate_item_ok d room o r.key_end r.key in
      let same : r.initial ≡ b = some-injective _ _ (sym r.got ∙ g) in
      let (k, ak, ek, hk) =
        IsText-found d hd room o b r.key_end g (subst (λ i. i / 2 ^ 5 ≡ 3) same r.is_text) by in
      let f = ih r.key_end r.next r.value in
      let rest =
        entries-Found (suc room) ih n r.next e (some (o, r.key_end)) (some k) (ak, ek)
          (omega (arith, f.ends, At-le f.stands)) r.others in
      let ks = encode_text k in
      let xs = encode f.value in
      let ys = encode_entries rest.entries in
      let tail : At d r.key_end (xs ++ ys) =
        At-join {xs = xs} f.stands (subst (λ i. At d i ys) f.ends rest.stands) in
      record {
        entries = entry k f.value rest.entries;
        counted = ap suc rest.counted;
        stands = At-join {xs = ks} ak (subst (λ i. At d i (xs ++ ys)) ek tail);
        ends =
            omega (arith, rest.ends, f.ends, ek, length-append ks (xs ++ ys), length-append xs ys);
        valid = (
          hk,
          check_order_ok d prev key o k tt p ak
              (subst (λ i. check_order d prev o i ≡ ok tt) ek r.ordered),
          f.valid,
          rest.valid,
        );
        shallow = omega (arith, f.shallow, rest.shallow);
      }

  number_found :
      (room o b e : ℕ) (what : What)
      → get_elem? d o ≡ some b
      → (read_arg d o what >>= λ a. ok a.1) ≡ ok e
      → (n : ℕ) × IsHeadAt d o (b / 2 ^ 5) n e
  number_found room o b e what g q =
      let ((n, stop), r, t) = >>=-eq-ok (read_arg d o what) (λ a. ok a.1) q in
      (n, head_found d hd o b n e (b / 2 ^ 5) what g refl (r ∙ ap (λ k. ok (n, k)) (same_ok t)))

  array-Found :
      (room o b e : ℕ)
      → ((o e : ℕ) → validate_item room d o ≡ ok e → Found d room o e)
      → get_elem? d o ≡ some b
      → b / 2 ^ 5 ≡ 4
      → (read_arg d o array_length >>= λ a. array_loop (validate_item room d) a.0 a.1) ≡ ok e
      → Found d (suc room) o e
  unfolding encode IsValid levels
  array-Found room o b e ih g m q =
      let ((n, start), r, t) = >>=-eq-ok (read_arg d o array_length) _ q in
      let (a, es, fits) = head_found d hd o b n start 4 array_length g m r in
      let f = items-Found room ih n start e (omega (arith, es, At-le a)) t in
      let h = head 4 n in
      let ys = encode_items f.items in
      record {
        value = array f.items;
        stands = rw f.counted (At-join {xs = h} a (subst (λ i. At d i ys) es f.stands));
        ends = rw f.counted (omega (arith, f.ends, es, length-append h ys));
        valid = (rw f.counted fits, f.valid);
        shallow = omega (arith, f.shallow);
      }

  object-Found :
      (room o b e : ℕ)
      → ((o e : ℕ) → validate_item room d o ≡ ok e → Found d room o e)
      → get_elem? d o ≡ some b
      → b / 2 ^ 5 ≡ 5
      → (read_arg d o map_length >>= λ a. map_loop (validate_item room d) d a.0 a.1 none) ≡ ok e
      → Found d (suc room) o e
  unfolding encode IsValid levels
  object-Found room o b e ih g m q =
      let ((n, start), r, t) = >>=-eq-ok (read_arg d o map_length) _ q in
      let (a, es, fits) = head_found d hd o b n start 5 map_length g m r in
      let f = entries-Found room ih n start e none none tt (omega (arith, es, At-le a)) t in
      let h = head 5 n in
      let ys = encode_entries f.entries in
      record {
        value = object f.entries;
        stands = rw f.counted (At-join {xs = h} a (subst (λ i. At d i ys) es f.stands));
        ends = rw f.counted (omega (arith, f.ends, es, length-append h ys));
        valid = (rw f.counted fits, f.valid);
        shallow = omega (arith, f.shallow);
      }

  link_at :
      (room o n start e : ℕ)
      → n ≡ 42
      → At d o (head 6 n)
      → start ≡ o + length (head 6 n)
      → cid_content (validate_item room d) d start ≡ ok e
      → Found d (suc room) o e
  unfolding encode IsValid levels
  link_at zero o n start e number a es content = absurd (no_link d start content)
  link_at (suc room) o n start e number a es content =
      let (s, here, last, bytes, short) = link_found d hd room start e content in
      let h = head 6 42 in
      let ys = encode_bytes (0 ∷ s) in
      let a' : At d o h = subst (λ k. At d o (head 6 k)) number a in
      let es' : start ≡ o + length h = subst (λ k. start ≡ o + length (head 6 k)) number es in
      record {
        value = cid s;
        stands = At-join {xs = h} a' (subst (λ i. At d i ys) es' here);
        ends = omega (arith, last, es', length-append h ys);
        valid = (bytes, short);
        shallow = omega arith;
      }

  tag-Found :
      (room o b e : ℕ)
      → get_elem? d o ≡ some b
      → b / 2 ^ 5 ≡ 6
      → (read_arg d o tag >>= check_tag (validate_item room d) d o) ≡ ok e
      → Found d (suc room) o e
  tag-Found room o b e g m q =
      let ((n, start), r, t) =
        >>=-eq-ok (read_arg d o tag) (check_tag (validate_item room d) d o) q in
      let (a, es, fits) = head_found d hd o b n start 6 tag g m r in
      let (number, content) = check_tag_ok d room o n start e t in
      link_at room o n start e number a es content

  one_byte :
      (room o b e : ℕ) (v : Value)
      → get_elem? d o ≡ some b
      → encode v ≡ b ∷ []
      → e ≡ o + 1
      → IsValid v
      → levels v ≤ 1
      → Found d (suc room) o e
  one_byte room o b e v g w last h l = record {
    value = v;
    stands = rw w (At-of_get g);
    ends = rw w last;
    valid = h;
    shallow = omega arith;
  }

  simple-Found :
      (room o b e : ℕ) → get_elem? d o ≡ some b → check_simple d o b ≡ ok e → Found d (suc room) o e
  unfolding encode IsValid levels
  simple-Found room o b e g q = elim (check_simple_ok d o b e q) [
    | inl (lo, hi, last) ↦ elim (ℕ_discrete b 0xf4) [
      | yes p ↦
          one_byte room o b e (boolean false) g (ap (λ x. x ∷ []) (sym p)) last tt (omega arith)
      | no p ↦ elim (ℕ_discrete b 0xf5) [
        | yes r ↦
            one_byte room o b e (boolean true) g (ap (λ x. x ∷ []) (sym r)) last tt (omega arith)
        | no r ↦ one_byte room o b e null g (ap (λ x. x ∷ []) (omega arith)) last tt (omega arith)
      ]
    ]
    | inr (p, c) ↦
        let (bits, here, last, v) = float_found d hd o e (g ∙ ap some p) c in
        record { value = float bits; stands = here; ends = last; valid = v; shallow = omega arith }
  ]

  by_major-Found :
      (room o b e : ℕ)
      → ((o e : ℕ) → validate_item room d o ≡ ok e → Found d room o e)
      → get_elem? d o ≡ some b
      → (major : ℕ) → b / 2 ^ 5 ≡ major
      → by_major (validate_item room d) d o b major ≡ ok e
      → Found d (suc room) o e
  unfolding by_major encode IsValid levels
  by_major-Found room o b e ih g zero m q =
      let (n, h) = number_found room o b e What.uint g q in
      record {
        value = Value.uint n;
        stands = subst (λ k. At d o (head k n)) m h.0;
        ends = subst (λ k. e ≡ o + length (head k n)) m h.1;
        valid = h.2;
        shallow = omega arith;
      }
  by_major-Found room o b e ih g (suc zero) m q =
      let (n, h) = number_found room o b e What.negint g q in
      record {
        value = Value.negint n;
        stands = subst (λ k. At d o (head k n)) m h.0;
        ends = subst (λ k. e ≡ o + length (head k n)) m h.1;
        valid = h.2;
        shallow = omega arith;
      }
  by_major-Found room o b e ih g (suc (suc zero)) m q =
      let (s, a, last, short, bytes) = bytes_found d hd room o b e g m (rw m q) in
      record {
        value = byte_string s;
        stands = a;
        ends = last;
        valid = (bytes, short);
        shallow = omega arith;
      }
  by_major-Found room o b e ih g (suc (suc (suc zero))) m q =
      let (s, a, last, h) = IsText-found d hd room o b e g m (rw m q) in
      record { value = text s; stands = a; ends = last; valid = h; shallow = omega arith }
  by_major-Found room o b e ih g (suc (suc (suc (suc zero)))) m q = array-Found room o b e ih g m q
  by_major-Found room o b e ih g (suc (suc (suc (suc (suc zero))))) m q =
      object-Found room o b e ih g m q
  by_major-Found room o b e ih g (suc (suc (suc (suc (suc (suc zero)))))) m q =
      tag-Found room o b e g m q
  by_major-Found room o b e ih g (suc (suc (suc (suc (suc (suc (suc zero))))))) m q =
      simple-Found room o b e g q
  by_major-Found room o b e ih g (suc (suc (suc (suc (suc (suc (suc (suc major)))))))) m q =
      absurd (omega (arith, All-get IsByte o d b hd g))

  pub sound : (room o e : ℕ) → validate_item room d o ≡ ok e → Found d room o e
  sound zero o e q = absurd (no_room d o q)
  sound (suc room) o e q =
      let (b, g, by) = validate_item_ok d room o e q in
      by_major-Found room o b e (sound room) g (b / 2 ^ 5) refl by
