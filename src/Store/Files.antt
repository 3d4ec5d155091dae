-- ===== src/Store/Files.antt =====
-- Files, segments and the index: what the small operations of Store keep.
use atmoq.Common.{
  ℕ, ◌≡◌, refl, sym, ap, subst, ◌∙◌, true, false, Option, none, some, inl, inr, List, [], ◌∷◌, ◌++◌,
  append-nil, if◌then◌else◌, ◌==◌, Bool-cases, Bytes, arith,
}
use mathlib.Core.Option.{some-injective}
use atmoq.Store.{
  SegmentPath, same_path, Location, Segment, Files, contents, append_to, Index, get, insert, last?,
  last_bytes, update_last,
}

pub same_path_self : (p : SegmentPath) → same_path p p ≡ true
same_path_self p = ground arith

pub same_path→eq : (p q : SegmentPath) → same_path p q ≡ true → p ≡ q
same_path→eq p q h = ground arith

pub contents-append_to :
    (p : SegmentPath) (new bs : Bytes) (fs : Files)
    → contents p fs ≡ some bs
    → contents p (append_to p new fs) ≡ some (bs ++ new)
unfolding contents append_to
contents-append_to p new bs [] h = cc
contents-append_to p new bs ((q, cs) ∷ fs) h = elim (Bool-cases (same_path q p)) [
  | inl e ↦ rw e (rw e (ap (λ (t : Bytes). some (t ++ new)) (some-injective _ _ (rw e at h))))
  | inr e ↦ rw e (rw e (contents-append_to p new bs fs (rw e at h)))
]

pub contents-append_to_new :
    (p : SegmentPath) (new : Bytes) (fs : Files)
    → contents p fs ≡ none
    → contents p (append_to p new fs) ≡ some new
unfolding contents append_to
contents-append_to_new p new [] h = rw (same_path_self p)
contents-append_to_new p new ((q, cs) ∷ fs) h = elim (Bool-cases (same_path q p)) [
  | inl e ↦ cc (rw e at h)
  | inr e ↦ rw e (rw e (contents-append_to_new p new fs (rw e at h)))
]

contents-append_to_other :
    (q p : SegmentPath) (new : Bytes) (fs : Files)
    → same_path p q ≡ false
    → contents q (append_to p new fs) ≡ contents q fs
unfolding contents append_to
contents-append_to_other q p new [] h = rw h
contents-append_to_other q p new ((r, cs) ∷ fs) h = elim (Bool-cases (same_path r p)) [
  | inl e ↦
      let off : same_path r q ≡ false =
        subst (λ x. same_path x q ≡ false) (sym (same_path→eq r p e)) h in
      rw e (rw off)
  | inr e ↦ rw e (
      ap (λ (t : Option Bytes). if same_path r q then some cs else t)
        (contents-append_to_other q p new fs h))
]

-- No file shrinks, and none that is there changes but by growing.
pub contents_grow :
    (q p : SegmentPath) (new bs : Bytes) (fs : Files)
    → contents q fs ≡ some bs
    → (more : Bytes) × (contents q (append_to p new fs) ≡ some (bs ++ more))
contents_grow q p new bs fs h = elim (Bool-cases (same_path p q)) [
  | inl e ↦
      let same = same_path→eq p q e in
      (
        new,
        subst (λ x. contents q (append_to x new fs) ≡ some (bs ++ new)) (sym same)
            (contents-append_to q new bs fs h),
      )
  | inr e ↦ ([], contents-append_to_other q p new fs e ∙ h ∙ ap some (sym (append-nil bs)))
]

pub get-insert :
    (k j : ℕ) (l : Location) (is : Index)
    → get j (insert k l is) ≡ (if k == j then some l else get j is)
unfolding get insert
get-insert k j l [] = refl
get-insert k j l ((i, m) ∷ is) = ground (arith, get-insert k j l is)

pub last?-append : (front : List Segment) (seg : Segment) → last? (front ++ (seg ∷ [])) ≡ some seg
unfolding last?
last?-append [] seg = refl
last?-append (x ∷ []) seg = refl
last?-append (x ∷ y ∷ front) seg = last?-append (y ∷ front) seg

pub last_bytes-append :
    (front : List Segment) (seg : Segment) → last_bytes (front ++ (seg ∷ [])) ≡ seg.bytes
unfolding last_bytes
last_bytes-append [] seg = refl
last_bytes-append (x ∷ []) seg = refl
last_bytes-append (x ∷ y ∷ front) seg = last_bytes-append (y ∷ front) seg

pub update_last-append :
    (f : Segment → Segment) (front : List Segment) (seg : Segment)
    → update_last f (front ++ (seg ∷ [])) ≡ front ++ (f seg ∷ [])
unfolding update_last
update_last-append f [] seg = refl
update_last-append f (x ∷ []) seg = refl
update_last-append f (x ∷ y ∷ front) seg =
    ap (λ (t : List Segment). x ∷ t) (update_last-append f (y ∷ front) seg)

pub last-split :
    (ss : List Segment) (seg : Segment)
    → last? ss ≡ some seg
    → (front : List Segment) × (ss ≡ front ++ (seg ∷ []))
unfolding last?
last-split [] seg h = cc
last-split (x ∷ []) seg h = ([], ap (λ (t : Segment). t ∷ []) (some-injective _ _ h))
last-split (x ∷ y ∷ ss) seg h =
    let (front, e) = last-split (y ∷ ss) seg h in (x ∷ front, ap (λ (t : List Segment). x ∷ t) e)
