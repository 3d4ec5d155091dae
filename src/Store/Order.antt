-- ===== src/Store/Order.antt =====
-- The index as a `BTreeMap`: its keys rise, so that `oldest_seq` is the lowest of them.
use atmoq.Common.{
  ℕ, ◌≤◌, ◌<◌, ◌≡◌, refl, none, some, Option, [], ◌∷◌, Bytes, Bool-cases, inl, inr, ltb, ◌==◌,
  ltb→lt, subst, ==→eq, arith,
}
use atmoq.Store.{
  Location, Segment, Index, get, insert, GroupStore, Outcome, done, failed, last?, SegmentPath,
  must_rotate, rotate, reopen, ensure_writer, append_record, append_by, oldest_seq,
}
use mathlib.Core.Option.{none-ne-some}

-- All keys are above `k`, and each above the one before it.
abbrev pub RisesFrom : ℕ → Index → Type 0
RisesFrom k [] = Unit
RisesFrom k ((j, l) ∷ is) = (k < j) × RisesFrom j is

abbrev pub RisesIndex : Index → Type 0
RisesIndex [] = Unit
RisesIndex ((j, l) ∷ is) = RisesFrom j is

insert-RisesFrom :
    (k seq : ℕ) (l : Location) (is : Index)
    → k < seq
    → RisesFrom k is
    → RisesFrom k (insert seq l is)
unfolding insert
insert-RisesFrom k seq l [] h r = (h, tt)
insert-RisesFrom k seq l ((j, m) ∷ is) h r = elim (Bool-cases (j == seq)) [
  | inl e ↦ rw e (h, subst (λ x. RisesFrom x is) (==→eq j seq e) r.1)
  | inr e ↦ elim (Bool-cases (ltb seq j)) [
    | inl f ↦ rw (e, f) (h, (ltb→lt seq j f, r.1))
    | inr f ↦ rw (e, f) (r.0, insert-RisesFrom j seq l is (ground (arith, e, f)) r.1)
  ]
]

insert-RisesIndex :
    (seq : ℕ) (l : Location) (is : Index) → RisesIndex is → RisesIndex (insert seq l is)
unfolding insert
insert-RisesIndex seq l [] r = tt
insert-RisesIndex seq l ((j, m) ∷ is) r = elim (Bool-cases (j == seq)) [
  | inl e ↦ rw e (subst (λ x. RisesFrom x is) (==→eq j seq e) r)
  | inr e ↦ elim (Bool-cases (ltb seq j)) [
    | inl f ↦ rw (e, f) (ltb→lt seq j f, r)
    | inr f ↦ rw (e, f) (insert-RisesFrom j seq l is (ground (arith, e, f)) r)
  ]
]

above : (k seq : ℕ) (l : Location) (is : Index) → RisesFrom k is → get seq is ≡ some l → k < seq
unfolding get
above k seq l [] r h = absurd (none-ne-some l h)
above k seq l ((j, m) ∷ is) r h = elim (Bool-cases (j == seq)) [
  | inl e ↦ omega (arith, r.0, ==→eq j seq e)
  | inr e ↦ omega (arith, r.0, above j seq l is r.1 (rw e at h))
]

-- The oldest sequence is at or below every indexed one.
abbrev pub IsOldest : GroupStore → Type 0
IsOldest s =
    (seq : ℕ) (l : Location)
    → get seq s.index ≡ some l
    → (k : ℕ) × (oldest_seq s ≡ some k) × (k ≤ seq)

lowest :
    (seq : ℕ) (l : Location) (is : Index)
    → RisesIndex is
    → get seq is ≡ some l
    → (k : ℕ) × (◌≡◌ {A = Option ℕ} (elim is [ [] ↦ none | i ∷ js ↦ some i.0 ]) (some k))
      × (k ≤ seq)
unfolding get
lowest seq l [] r h = absurd (none-ne-some l h)
lowest seq l ((j, m) ∷ is) r h = (
  j,
  refl,
  elim (Bool-cases (j == seq)) [
    | inl e ↦ omega (arith, ==→eq j seq e)
    | inr e ↦ omega (arith, above j seq l is r (rw e at h))
  ],
)

pub RisesIndex-IsOldest : (s : GroupStore) → RisesIndex s.index → IsOldest s
unfolding oldest_seq
RisesIndex-IsOldest s r seq l h = lowest seq l s.index r h

pub ensure_writer-index : (s : GroupStore) (seq : ℕ) → (ensure_writer s seq).index ≡ s.index
unfolding ensure_writer rotate
ensure_writer-index s seq = elim (Bool-cases (must_rotate s.segment_target (last? s.segments))) [
  | inl e ↦ rw e refl
  | inr e ↦ rw e (reopened s.writer (last? s.segments))
]
  where
    reopened : (w : Option SegmentPath) (o : Option Segment) → (reopen s w o).index ≡ s.index
    reopened (some p) o = refl
    reopened none none = refl
    reopened none (some seg) = refl

pub append_by-RisesIndex :
    (s : GroupStore) (w : Option SegmentPath) (seq ms : ℕ) (rec : Bytes) (outcome : Outcome)
    → RisesIndex s.index
    → RisesIndex (append_by s w seq ms rec outcome).0.index
unfolding append_record
append_by-RisesIndex s none seq ms rec outcome r = r
append_by-RisesIndex s (some p) seq ms rec done r = insert-RisesIndex seq _ s.index r
append_by-RisesIndex s (some p) seq ms rec (failed landed kept) r = r
