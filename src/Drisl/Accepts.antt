-- ===== src/Drisl/Accepts.antt =====
-- Completeness: the validator accepts the encoding of every valid document, wherever it stands.
use atmoq.Common.{
  ℕ, suc, ◌+◌, ◌-◌, ◌/◌, ◌^◌, ◌≤◌, ◌<◌, ◌≡◌, refl, ap, subst, ◌∙◌, true, false, Option, none, some,
  [], ◌∷◌, ◌++◌, ok, ◌>>=◌, Bytes, length, get_elem?, take, drop, At, At-le, At-left, At-right,
  At-get, take_At, length-append, arith, lt→ltb, le→leb, ne→==, ◌==◌,
}
use atmoq.Drisl.{
  What, Checked, range, slice, check_body, array_loop, map_loop, check_order, key_head,
  content_head, check_prefix, cid_content, check_tag, check_float, check_simple, by_major,
  validate_item, read_arg, bytes_length, text_length, array_length, map_length, tag, index,
}
use atmoq.Drisl.Utf8.{is_utf8}
use atmoq.Drisl.Syntax.{
  Value, Values, nil, cons, Entries, end, entry, byte_string, text, cid, array, object, boolean,
  null, float, big_endian, head, encode, encode_items, encode_entries, encode_text, encode_bytes,
  count_items, count_entries, levels, levels_items, levels_entries, IsText, Ascends, IsValid,
  AreValid, AreEntries,
}
use atmoq.Drisl.Head.{read_arg_At, head-major, length-head}
use atmoq.Drisl.Numbers.{from_be-big_endian, length-big_endian}

pub range_At : {d : Bytes} {o : ℕ} {xs : Bytes} → At d o xs → range d o (o + length xs) ≡ xs
range_At {d} {o} {xs} a = ap (λ n. take n (drop o d)) {y = length xs} (omega arith) ∙ take_At a

pub slice-range : (d : Bytes) (s e : ℕ) → s ≤ e → e ≤ length d → slice d s e ≡ ok (range d s e)
unfolding slice
slice-range d s e h k = rw (le→leb s e h, le→leb e (length d) k) refl

pub slice_At : {d : Bytes} {o : ℕ} {xs : Bytes} → At d o xs → slice d o (o + length xs) ≡ ok xs
slice_At {d} {o} {xs} a =
    slice-range d o (o + length xs) (omega arith) (At-le a) ∙ ap ok (range_At a)

pub validate_item_step :
    (d : Bytes) (room o b major : ℕ)
    → get_elem? d o ≡ some b
    → b / 2 ^ 5 ≡ major
    → validate_item (suc room) d o ≡ by_major (validate_item room d) d o b major
unfolding validate_item
validate_item_step d room o b major g m = rw (g, validate_item) (rw m)

levels-pos : (v : Value) → 1 ≤ levels v
unfolding levels
levels-pos (cid s) = omega arith
levels-pos _ = omega arith

-- Every encoding has an initial byte.
pub encode-pos : (v : Value) → IsValid v → 0 < length (encode v)
unfolding encode IsValid
encode-pos (Value.uint n) h = length-head 0 n h
encode-pos (Value.negint n) h = length-head 1 n h
encode-pos (byte_string s) h =
    omega (arith, length-append (head 2 (length s)) s, length-head 2 (length s) h.1)
encode-pos (text s) h =
    omega (arith, length-append (head 3 (length s)) s, length-head 3 (length s) h.1)
encode-pos (array vs) h = omega (
  arith,
  length-append (head 4 (count_items vs)) (encode_items vs),
  length-head 4 (count_items vs) h.0,
)
encode-pos (object es) h = omega (
  arith,
  length-append (head 5 (count_entries es)) (encode_entries es),
  length-head 5 (count_entries es) h.0,
)
encode-pos (cid s) h =
    omega (arith, length-append (head 6 42) (encode_bytes (0 ∷ s)), length-head 6 42 (omega arith))
encode-pos (boolean false) h = omega arith
encode-pos (boolean true) h = omega arith
encode-pos null h = omega arith
encode-pos (float bits) h = omega arith

ends : {a b : ℕ} → a ≡ b → ◌≡◌ {A = Checked ℕ} (ok a) (ok b)
ends e = ap ok e

-- The key before the current one, as the loop and as the document know it.
abbrev pub PrevAt : Bytes → Option (ℕ × ℕ) → Option Bytes → Type 0
PrevAt d none none = Unit
PrevAt d none (some k) = ⊥
PrevAt d (some p) none = ⊥
PrevAt d (some (ps, pe)) (some k) = At d ps (encode_text k) × (pe ≡ ps + length (encode_text k))

module _ (d : Bytes) (small : length d < 2 ^ 64) where
  check_body_bytes :
      (e : ℕ) (s : Bytes) → At d e s → check_body d 2 (length s, e) ≡ ok (e + length s)
  unfolding check_body
  check_body_bytes e s a = rw (
    lt→ltb (e + length s) (2 ^ 64) (omega (arith, At-le a)),
    le→leb (e + length s) (length d) (At-le a),
  )

  check_body_text :
      (e : ℕ) (s : Bytes)
      → At d e s
      → is_utf8 s ≡ true
      → check_body d 3 (length s, e) ≡ ok (e + length s)
  unfolding check_body
  check_body_text e s a u = rw (
    lt→ltb (e + length s) (2 ^ 64) (omega (arith, At-le a)),
    le→leb (e + length s) (length d) (At-le a),
    slice_At a,
    u,
  )

  -- The validator on a head of the given major type.
  at_head :
      (room o major n : ℕ) (xs : Bytes)
      → n < 2 ^ 64
      → At d o (head major n ++ xs)
      → (b : ℕ) × (get_elem? d o ≡ some b)
        × (validate_item (suc room) d o ≡ by_major (validate_item room d) d o b major)
  at_head room o major n xs h a =
      let (b, g, m) = head-major d o major n h (At-left (head major n) xs a) in
      (b, g, validate_item_step d room o b major g m)

  accepts_text :
      (room o : ℕ) (s : Bytes)
      → IsText s
      → At d o (encode_text s)
      → validate_item (suc room) d o ≡ ok (o + length (encode_text s))
  unfolding by_major
  accepts_text room o s (bytes, short, u) a =
      let h = head 3 (length s) in
      let (b, g, step) = at_head room o 3 (length s) s short a in
      step
      ∙ rw
          (
            read_arg_At d o 3 (length s) text_length short (At-left h s a),
            check_body_text (o + length h) s (At-right h s a) u,
          )
          (ends (omega (arith, length-append h s)))

  accepts_bytes :
      (room o : ℕ) (s : Bytes)
      → length s < 2 ^ 64
      → At d o (encode_bytes s)
      → validate_item (suc room) d o ≡ ok (o + length (encode_bytes s))
  unfolding by_major
  accepts_bytes room o s short a =
      let h = head 2 (length s) in
      let (b, g, step) = at_head room o 2 (length s) s short a in
      step
      ∙ rw
          (
            read_arg_At d o 2 (length s) bytes_length short (At-left h s a),
            check_body_bytes (o + length h) s (At-right h s a),
          )
          (ends (omega (arith, length-append h s)))

  -- The content of a link, behind the tag.
  accepts_link :
      (room e : ℕ) (s : Bytes)
      → suc (length s) < 2 ^ 64
      → At d e (encode_bytes (0 ∷ s))
      → cid_content (validate_item (suc room) d) d e ≡ ok (e + length (encode_bytes (0 ∷ s)))
  unfolding cid_content content_head check_prefix index
  accepts_link room e s short a =
      let h = head 2 (suc (length s)) in
      let (b, g, m) = head-major d e 2 (suc (length s)) short (At-left h (0 ∷ s) a) in
      let apart : ((e + length (h ++ (0 ∷ s))) == (e + length h)) ≡ false =
        ne→== _ _ (omega (arith, length-append h (0 ∷ s))) in
      rw (g, content_head)
        (rw
          (
            m,
            accepts_bytes room e (0 ∷ s) short a,
            read_arg_At d e 2 (suc (length s)) bytes_length short (At-left h (0 ∷ s) a),
            apart,
          )
          (rw (At-get (At-right h (0 ∷ s) a), check_prefix, index)))

  accepts_float :
      (o bits : ℕ)
      → IsValid (float bits)
      → At d o (encode (float bits))
      → check_float d o ≡ ok (o + 9)
  unfolding check_float IsValid encode
  accepts_float o bits (fits, number, finite) a =
      let body = big_endian 8 bits in
      let l : length body ≡ 8 = length-big_endian 8 bits in
      let a' : At d (o + 1) body = At-right (0xfb ∷ []) body a in
      let found : range d (o + 1) (o + 9) ≡ body =
        ap (range d (o + 1)) (omega (arith, l)) ∙ range_At a' in
      rw (
        le→leb (o + 9) (length d) (omega (arith, At-le a', l)),
        found,
        from_be-big_endian 8 bits fits,
        number,
        finite,
      )

  pub check_order_At :
      (prev : Option (ℕ × ℕ)) (key : Option Bytes) (o : ℕ) (k : Bytes)
      → PrevAt d prev key
      → At d o (encode_text k)
      → Ascends key k
      → check_order d prev o (o + length (encode_text k)) ≡ ok tt
  unfolding check_order
  check_order_At none none o k p a h = refl
  check_order_At none (some j) o k p a h = absurd p
  check_order_At (some q) none o k p a h = absurd p
  check_order_At (some (ps, pe)) (some j) o k (aj, e) a h =
      rw (e, check_order) (rw (slice_At aj, slice_At a, check_order) (rw (h, check_order)))

  -- The array and map cases, over what is known of the items.
  accepts_array :
      (room o n : ℕ) (xs : Bytes)
      → n < 2 ^ 64
      → At d o (head 4 n ++ xs)
      → array_loop (validate_item room d) n (o + length (head 4 n))
        ≡ ok (o + length (head 4 n) + length xs)
      → validate_item (suc room) d o ≡ ok (o + length (head 4 n ++ xs))
  unfolding by_major
  accepts_array room o n xs h a loop =
      let (b, g, step) = at_head room o 4 n xs h a in
      step
      ∙ rw (read_arg_At d o 4 n array_length h (At-left (head 4 n) xs a), loop)
          (ends (omega (arith, length-append (head 4 n) xs)))

  accepts_object :
      (room o n : ℕ) (xs : Bytes)
      → n < 2 ^ 64
      → At d o (head 5 n ++ xs)
      → map_loop (validate_item room d) d n (o + length (head 5 n)) none
        ≡ ok (o + length (head 5 n) + length xs)
      → validate_item (suc room) d o ≡ ok (o + length (head 5 n ++ xs))
  unfolding by_major
  accepts_object room o n xs h a loop =
      let (b, g, step) = at_head room o 5 n xs h a in
      step
      ∙ rw (read_arg_At d o 5 n map_length h (At-left (head 5 n) xs a), loop)
          (ends (omega (arith, length-append (head 5 n) xs)))

  accepts_cid :
      (room o : ℕ) (s : Bytes)
      → suc (length s) < 2 ^ 64
      → At d o (head 6 42 ++ encode_bytes (0 ∷ s))
      → validate_item (suc (suc room)) d o ≡ ok (o + length (head 6 42 ++ encode_bytes (0 ∷ s)))
  unfolding by_major check_tag
  accepts_cid room o s h a =
      let xs = encode_bytes (0 ∷ s) in
      let (b, g, step) = at_head (suc room) o 6 42 xs (omega arith) a in
      step
      ∙ rw
          (
            read_arg_At d o 6 42 tag (omega arith) (At-left (head 6 42) xs a),
            accepts_link room (o + length (head 6 42)) s h (At-right (head 6 42) xs a),
          )
          (ends (omega (arith, length-append (head 6 42) xs)))

  accepts_number :
      (room o major n : ℕ) (what : What)
      → n < 2 ^ 64
      → At d o (head major n)
      → (read_arg d o what >>= λ a. ok a.1) ≡ ok (o + length (head major n))
  accepts_number room o major n what h a = rw (read_arg_At d o major n what h a)

  accepts_simple :
      (room o b : ℕ)
      → b / 2 ^ 5 ≡ 7
      → get_elem? d o ≡ some b
      → validate_item (suc room) d o ≡ check_simple d o b
  unfolding by_major
  accepts_simple room o b m g = validate_item_step d room o b 7 g m

  no_items : (room o : ℕ) → array_loop (validate_item room d) 0 o ≡ ok (o + 0)
  unfolding array_loop
  no_items room o = ends (omega arith)

  no_entries :
      (room o : ℕ) (prev : Option (ℕ × ℕ)) → map_loop (validate_item room d) d 0 o prev ≡ ok (o + 0)
  unfolding map_loop
  no_entries room o prev = ends (omega arith)

  cons_item :
      (room n o : ℕ) (xs ys : Bytes)
      → validate_item room d o ≡ ok (o + length xs)
      → array_loop (validate_item room d) n (o + length xs) ≡ ok (o + length xs + length ys)
      → array_loop (validate_item room d) (suc n) o ≡ ok (o + length (xs ++ ys))
  unfolding array_loop
  cons_item room n o xs ys item loop = rw (item, loop) (ends (omega (arith, length-append xs ys)))

  cons_entry :
      (room n o : ℕ) (prev : Option (ℕ × ℕ)) (k : Bytes) (xs ys : Bytes)
      → length k < 2 ^ 64
      → At d o (encode_text k)
      → validate_item room d o ≡ ok (o + length (encode_text k))
      → check_order d prev o (o + length (encode_text k)) ≡ ok tt
      → validate_item room d (o + length (encode_text k))
        ≡ ok (o + length (encode_text k) + length xs)
      → map_loop
          (validate_item room d)
          d
          n
          (o + length (encode_text k) + length xs)
          (some (o, o + length (encode_text k)))
        ≡ ok (o + length (encode_text k) + length xs + length ys)
      → map_loop (validate_item room d) d (suc n) o prev
        ≡ ok (o + length (encode_text k ++ (xs ++ ys)))
  unfolding map_loop key_head
  cons_entry room n o prev k xs ys short a key order value loop =
      let (b, g, m) = head-major d o 3 (length k) short (At-left (head 3 (length k)) k a) in
      rw (g, key_head)
        (rw (m, key, order, value, loop)
          (ends (omega (arith, length-append (encode_text k) (xs ++ ys), length-append xs ys))))

  at_room :
      (room o e : ℕ)
      → 0 < room
      → validate_item (suc (room - 1)) d o ≡ ok e
      → validate_item room d o ≡ ok e
  at_room room o e h v =
      let same : suc (room - 1) ≡ room = omega arith in
      subst (λ k. validate_item k d o ≡ ok e) same v

  mutual
    unfolding encode levels IsValid check_simple by_major

    pub accepts :
        (v : Value) (room o : ℕ)
        → IsValid v
        → levels v ≤ suc room
        → At d o (encode v)
        → validate_item (suc room) d o ≡ ok (o + length (encode v))
    accepts (Value.uint n) room o h l a =
        let (b, g, m) = head-major d o 0 n h a in
        validate_item_step d room o b 0 g m ∙ accepts_number room o 0 n What.uint h a
    accepts (Value.negint n) room o h l a =
        let (b, g, m) = head-major d o 1 n h a in
        validate_item_step d room o b 1 g m ∙ accepts_number room o 1 n What.negint h a
    accepts (byte_string s) room o h l a = accepts_bytes room o s h.1 a
    accepts (text s) room o h l a = accepts_text room o s h a
    accepts (array vs) room o h l a =
        accepts_array room o (count_items vs) (encode_items vs) h.0 a (
          accepts_items vs room (o + length (head 4 (count_items vs))) h.1 (omega arith)
            (At-right (head 4 (count_items vs)) (encode_items vs) a))
    accepts (object es) room o h l a =
        accepts_object room o (count_entries es) (encode_entries es) h.0 a (
          accepts_entries es room (o + length (head 5 (count_entries es))) none none h.1
            (omega arith) tt (At-right (head 5 (count_entries es)) (encode_entries es) a))
    accepts (cid s) room o h l a =
        let same : suc (room - 1) ≡ room = omega arith in
        subst (λ k. validate_item (suc k) d o ≡ ok (o + length (encode (cid s)))) same
          (accepts_cid (room - 1) o s h.1 a)
    accepts (boolean false) room o h l a = accepts_simple room o 0xf4 (omega arith) (At-get a)
    accepts (boolean true) room o h l a = accepts_simple room o 0xf5 (omega arith) (At-get a)
    accepts null room o h l a = accepts_simple room o 0xf6 (omega arith) (At-get a)
    accepts (float bits) room o h l a =
        accepts_simple room o 0xfb (omega arith) (At-get a)
        ∙ accepts_float o bits h a
        ∙ ends (omega (arith, length-big_endian 8 bits))

    accepts_items :
        (vs : Values) (room o : ℕ)
        → AreValid vs
        → levels_items vs ≤ room
        → At d o (encode_items vs)
        → array_loop (validate_item room d) (count_items vs) o ≡ ok (o + length (encode_items vs))
    accepts_items nil room o h l a = no_items room o
    accepts_items (cons v vs) room o h l a =
        let xs = encode v in
        cons_item room (count_items vs) o xs (encode_items vs)
          (at_room room o (o + length xs) (omega (arith, levels-pos v))
            (accepts v (room - 1) o h.0 (omega arith) (At-left xs (encode_items vs) a)))
          (accepts_items vs room (o + length xs) h.1 (omega arith)
            (At-right xs (encode_items vs) a))

    accepts_entries :
        (es : Entries) (room o : ℕ) (prev : Option (ℕ × ℕ)) (key : Option Bytes)
        → AreEntries key es
        → levels_entries es ≤ room
        → PrevAt d prev key
        → At d o (encode_entries es)
        → map_loop (validate_item room d) d (count_entries es) o prev
          ≡ ok (o + length (encode_entries es))
    accepts_entries end room o prev key h l p a = no_entries room o prev
    accepts_entries (entry k v es) room o prev key (hk, ha, hv, hes) l p a =
        let ks = encode_text k in
        let xs = encode v in
        let ys = encode_entries es in
        let ak = At-left ks (xs ++ ys) a in
        let a' = At-right ks (xs ++ ys) a in
        cons_entry room (count_entries es) o prev k xs ys hk.1 ak
          (at_room room o (o + length ks) (omega arith) (accepts_text (room - 1) o k hk ak))
          (check_order_At prev key o k p ak ha)
          (at_room room (o + length ks) (o + length ks + length xs) (omega arith)
            (accepts v (room - 1) (o + length ks) hv (omega arith) (At-left xs ys a')))
          (accepts_entries es room (o + length ks + length xs) (some (o, o + length ks)) (some k)
            hes (omega arith) (ak, refl) (At-right xs ys a'))
