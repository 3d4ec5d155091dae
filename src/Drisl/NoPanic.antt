-- ===== src/Drisl/NoPanic.antt =====
-- The validator indexes only where there is a byte.
use atmoq.Common.{
  ℕ, zero, suc, ◌+◌, ◌/◌, ◌^◌, ◌≡◌, ◌≢◌, refl, sym, subst, ◌∙◌, Option, none, some, inl, inr, [],
  ◌∷◌, >>=-ne-panic, ok, panic, ◌>>=◌, Bytes, IsByte, length, get_elem?, All, At, At-right, At-get,
  length-append, arith, Option-cases, All-get, ◌==◌, eq→==, At-left, At-le, ◌≤◌, Bool-cases,
}
use atmoq.Drisl.{
  What, Checked, Order, by_order, slice, read_arg, check_body, array_loop, map_loop, check_order,
  key_head, content_head, check_prefix, cid_content, check_tag, check_float, check_simple, by_major,
  validate_item, bytes_length, text_length, array_length, map_length, tag, index,
}
use atmoq.Drisl.Syntax.{head, encode_bytes}
use atmoq.Drisl.Head.{read_arg-ne-panic, read_arg_At}
use atmoq.Drisl.Sound.{no_room, sound}
use atmoq.Drisl.Accepts.{slice-range}
use atmoq.Drisl.Found.{content_head_ok, validate_item_ok, bytes_found}
use mathlib.Core.Option.{some-injective}

check_body-ne-panic : (d : Bytes) (major : ℕ) (a : ℕ × ℕ) → check_body d major a ≢ panic
unfolding check_body slice
check_body-ne-panic d major (len, start) q = ground arith

-- A range that lies in the slice.
abbrev IsInside : Bytes → ℕ × ℕ → Type 0
IsInside d (s, e) = (s ≤ e) × (e ≤ length d)

abbrev IsInsideIfAny : Bytes → Option (ℕ × ℕ) → Type 0
IsInsideIfAny d none = Unit
IsInsideIfAny d (some r) = IsInside d r

by_order-ne-panic : (o : ℕ) (c : Order) → by_order o c ≢ panic
by_order-ne-panic o Order.less q = cc
by_order-ne-panic o Order.equal q = cc
by_order-ne-panic o Order.greater q = cc

check_order-ne-panic :
    (d : Bytes) (prev : Option (ℕ × ℕ)) (o e : ℕ)
    → IsInsideIfAny d prev
    → IsInside d (o, e)
    → check_order d prev o e ≢ panic
unfolding check_order
check_order-ne-panic d none o e i j = λ q. cc
check_order-ne-panic d (some (ps, pe)) o e i j =
    rw (slice-range d ps pe i.0 i.1, check_order)
      (rw (slice-range d o e j.0 j.1, check_order) (by_order-ne-panic o _))

key_head-ne-panic : (d : Bytes) (o : ℕ) → key_head d o ≢ panic
unfolding key_head
key_head-ne-panic d o q = ground arith

content_head-ne-panic : (d : Bytes) (o : ℕ) → content_head d o ≢ panic
unfolding content_head
content_head-ne-panic d o q = ground arith

check_simple-ne-panic : (d : Bytes) (o b : ℕ) → check_simple d o b ≢ panic
unfolding check_simple check_float
check_simple-ne-panic d o b q = ground arith

array_loop-ne-panic :
    (item : ℕ → Checked ℕ) → ((o : ℕ) → item o ≢ panic) → (n o : ℕ) → array_loop item n o ≢ panic
unfolding array_loop
array_loop-ne-panic item ih zero o = λ q. cc
array_loop-ne-panic item ih (suc n) o =
    >>=-ne-panic (item o) (array_loop item n) (ih o) (λ m _. array_loop-ne-panic item ih n m)

map_loop-ne-panic :
    (item : ℕ → Checked ℕ) (d : Bytes)
    → ((o : ℕ) → item o ≢ panic)
    → ((o e : ℕ) → item o ≡ ok e → IsInside d (o, e))
    → (n o : ℕ) (prev : Option (ℕ × ℕ)) → IsInsideIfAny d prev
    → map_loop item d n o prev ≢ panic
unfolding map_loop
map_loop-ne-panic item d ih within zero o prev i = λ q. cc
map_loop-ne-panic item d ih within (suc n) o prev i =
    >>=-ne-panic (key_head d o) _ (key_head-ne-panic d o) λ _ _.
      >>=-ne-panic (item o) _ (ih o) λ m key.
        >>=-ne-panic (check_order d prev o m) _ (check_order-ne-panic d prev o m i (within o m key))
          λ _ _.
            >>=-ne-panic (item m) _ (ih m)
              λ k _. map_loop-ne-panic item d ih within n k (some (o, m)) (within o m key)

module _ (d : Bytes) (hd : All IsByte d) where
  item-IsInside : (room o e : ℕ) → validate_item room d o ≡ ok e → IsInside d (o, e)
  item-IsInside room o e q =
      let f = sound d hd room o e q in
      (omega (arith, f.ends), omega (arith, f.ends, At-le f.stands))

  prefix-ne-panic :
      (e content_end : ℕ) (s : Bytes)
      → At d e (encode_bytes s)
      → content_end ≡ e + length (encode_bytes s)
      → check_prefix d content_end (e + length (head 2 (length s))) ≢ panic
  unfolding check_prefix index
  prefix-ne-panic e content_end [] a ev q =
      let same : content_end ≡ e + length (head 2 0) =
        omega (arith, ev, length-append (head 2 0) []) in
      cc (rw (eq→== content_end (e + length (head 2 0)) same) at q)
  prefix-ne-panic e content_end (x ∷ t) a ev q =
      let g = At-get (At-right (head 2 (suc (length t))) (x ∷ t) a) in ground (arith, g)

  link-ne-panic :
      (room e : ℕ)
      → ((o : ℕ) → validate_item room d o ≢ panic)
      → cid_content (validate_item room d) d e ≢ panic
  unfolding cid_content
  link-ne-panic zero e ih =
      >>=-ne-panic (content_head d e) _ (content_head-ne-panic d e)
        λ _ _. >>=-ne-panic (validate_item 0 d e) _ (ih e) λ m v. absurd (no_room d e v)
  link-ne-panic (suc room) e ih =
      >>=-ne-panic (content_head d e) _ (content_head-ne-panic d e) λ u c.
        >>=-ne-panic (validate_item (suc room) d e) _ (ih e)
          λ m v. tail (content_head_ok d e u c) m (validate_item_ok d room e m v)
    where
      tail :
          (b : ℕ) × (get_elem? d e ≡ some b) × (b / 2 ^ 5 ≡ 2)
          → (m : ℕ)
          → (b : ℕ) × (get_elem? d e ≡ some b)
            × (by_major (validate_item room d) d e b (b / 2 ^ 5) ≡ ok m)
          → (read_arg d e bytes_length >>= λ body. check_prefix d m body.1) ≢ panic
      tail (b, g, major) m (b', g', by) =
          let same : b ≡ b' = some-injective _ _ (sym g ∙ g') in
          let (s, a, ev, short, bytes) =
            bytes_found d hd room e b' m g' (subst (λ k. k / 2 ^ 5 ≡ 2) same major) by in
          rw (read_arg_At d e 2 (length s) bytes_length short (At-left (head 2 (length s)) s a))
            (prefix-ne-panic e m s a ev)

  by_major-ne-panic :
      (room o b : ℕ)
      → ((p : ℕ) → validate_item room d p ≢ panic)
      → get_elem? d o ≡ some b
      → (major : ℕ) → b / 2 ^ 5 ≡ major
      → by_major (validate_item room d) d o b major ≢ panic
  unfolding by_major check_tag
  by_major-ne-panic room o b ih g zero m =
      >>=-ne-panic (read_arg d o What.uint) _ (read_arg-ne-panic d o b What.uint hd g) (λ a _ q. cc)
  by_major-ne-panic room o b ih g (suc zero) m =
      >>=-ne-panic (read_arg d o What.negint) _ (read_arg-ne-panic d o b What.negint hd g)
        (λ a _ q. cc)
  by_major-ne-panic room o b ih g (suc (suc zero)) m =
      >>=-ne-panic (read_arg d o bytes_length) _ (read_arg-ne-panic d o b bytes_length hd g)
        (λ a _. check_body-ne-panic d 2 a)
  by_major-ne-panic room o b ih g (suc (suc (suc zero))) m =
      >>=-ne-panic (read_arg d o text_length) _ (read_arg-ne-panic d o b text_length hd g)
        (λ a _. check_body-ne-panic d 3 a)
  by_major-ne-panic room o b ih g (suc (suc (suc (suc zero)))) m =
      >>=-ne-panic (read_arg d o array_length) _ (read_arg-ne-panic d o b array_length hd g)
        (λ a _. array_loop-ne-panic (validate_item room d) ih a.0 a.1)
  by_major-ne-panic room o b ih g (suc (suc (suc (suc (suc zero))))) m =
      >>=-ne-panic (read_arg d o map_length) _ (read_arg-ne-panic d o b map_length hd g)
        (λ a _. map_loop-ne-panic (validate_item room d) d ih (item-IsInside room) a.0 a.1 none tt)
  by_major-ne-panic room o b ih g (suc (suc (suc (suc (suc (suc zero)))))) m =
      >>=-ne-panic (read_arg d o tag) _ (read_arg-ne-panic d o b tag hd g)
        (λ a _. tag-ne-panic a.0 a.1)
    where
      tag-ne-panic : (n start : ℕ) → check_tag (validate_item room d) d o (n, start) ≢ panic
      tag-ne-panic n start q = elim (Bool-cases (n == 42)) [
        | inl t ↦ link-ne-panic room start ih (rw t at q)
        | inr t ↦ cc (rw t at q)
      ]
  by_major-ne-panic room o b ih g (suc (suc (suc (suc (suc (suc (suc zero))))))) m =
      check_simple-ne-panic d o b
  by_major-ne-panic room o b ih g (suc (suc (suc (suc (suc (suc (suc (suc major)))))))) m =
      absurd (omega (arith, All-get IsByte o d b hd g))

  pub validate_item-ne-panic : (room o : ℕ) → validate_item room d o ≢ panic
  unfolding validate_item
  validate_item-ne-panic zero o q = cc
  validate_item-ne-panic (suc room) o q = elim (Option-cases (get_elem? d o)) [
    | inl n ↦ cc (rw (n, validate_item) at q)
    | inr (b, g) ↦
        by_major-ne-panic room o b (validate_item-ne-panic room) g (b / 2 ^ 5) refl
          (rw (g, validate_item) at q)
  ]
