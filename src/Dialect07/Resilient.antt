-- ===== src/Dialect07/Resilient.antt =====
-- The loop around a draft-07 session.
use atmoq.Common.{
  ℕ, ◌≡◌, refl, ap, ◌∙◌, Bool, true, false, Option, none, some, List, [], ◌∷◌, ◌++◌, if◌then◌else◌,
  Bytes,
}
use atmoq.Dialect07.{Serve, Publisher07, write, Attempt, on_probation, session, resilient_write}

module _ (v : Serve) (raw : Bytes) (group_size : ℕ) where
  -- The loop came back, from a write that succeeded.
  pub record IsDone (attempts : List (Attempt v)) (inner : Option (Publisher07 v)) : Type 0 where
    pub rest : List (Attempt v)
    pub used : Publisher07 v
    pub left : Publisher07 v
    pub returned : resilient_write v raw group_size attempts inner ≡ some (rest, left)
    pub taken : write v raw group_size used ≡ (left, true)

  -- An attempt that finds no live session and makes one that takes the frame.
  pub record IsGood (a : Attempt v) : Type 0 where
    pub dead : a.is_dead ≡ true
    pub made : Publisher07 v
    pub after : Publisher07 v
    pub published : a.published ≡ some (made, false)
    pub accepted : write v raw group_size made ≡ (after, true)

  -- One turn of the loop.
  turn : List (Attempt v) → Option (Publisher07 v) → Option (List (Attempt v) × Publisher07 v)
  unfolding resilient_write
  turn rest none = resilient_write v raw group_size rest none
  turn rest (some p) =
      let (p', written) = write v raw group_size p in
      elim written [ true ↦ some (rest, p') | false ↦ resilient_write v raw group_size rest none ]

  loop_turn :
      (a : Attempt v) (rest : List (Attempt v)) (inner : Option (Publisher07 v))
      → resilient_write v raw group_size (a ∷ rest) inner ≡ turn rest (session v a inner)
  unfolding resilient_write turn
  loop_turn a rest inner =
      elim (session v a inner)
        as (λ o.
          elim o as (λ _. Option (List (Attempt v) × Publisher07 v)) [
            | none ↦ resilient_write v raw group_size rest none
            | some p ↦
                let (p', written) = write v raw group_size p in
                elim written [
                  | true ↦ some (rest, p')
                  | false ↦ resilient_write v raw group_size rest none
                ]
          ]
          ≡ turn rest o) [ none ↦ refl | some p ↦ refl ]

  session_good :
      (a : Attempt v) (inner : Option (Publisher07 v)) (g : IsGood a)
      → session v a inner ≡ some g.made
  session_good a none g = ap (on_probation v) g.published
  session_good a (some p) g =
      ap (λ b. if b then on_probation v a.published else some p) g.dead
      ∙ ap (on_probation v) g.published

  good-IsDone :
      (a : Attempt v) (rest : List (Attempt v)) (inner : Option (Publisher07 v))
      → IsGood a
      → IsDone (a ∷ rest) inner
  unfolding turn
  good-IsDone a rest inner g = record {
    rest = rest;
    used = g.made;
    left = g.after;
    returned =
        loop_turn a rest inner
        ∙ ap (turn rest) (session_good a inner g)
        ∙ ap
            (λ (o : Publisher07 v × Bool).
              let (p', written) = o in
              elim written as (λ _. Option (List (Attempt v) × Publisher07 v)) [
                | true ↦ some (rest, p')
                | false ↦ resilient_write v raw group_size rest none
              ])
            g.accepted;
    taken = g.accepted;
  }

  turned-IsDone :
      (a : Attempt v) (rest : List (Attempt v)) (inner o : Option (Publisher07 v))
      → session v a inner ≡ o
      → IsDone rest none
      → IsDone (a ∷ rest) inner
  unfolding turn
  turned-IsDone a rest inner none e d = record {
    rest = d.rest;
    used = d.used;
    left = d.left;
    returned = loop_turn a rest inner ∙ ap (turn rest) e ∙ d.returned;
    taken = d.taken;
  }
  turned-IsDone a rest inner (some p) e d = go (write v raw group_size p) refl
    where
      step :
          (o : Publisher07 v × Bool)
          → write v raw group_size p ≡ o
          → resilient_write v raw group_size (a ∷ rest) inner ≡ (
              let (p', written) = o in
              elim written as (λ _. Option (List (Attempt v) × Publisher07 v)) [
                | true ↦ some (rest, p')
                | false ↦ resilient_write v raw group_size rest none
              ])
      step o h =
          loop_turn a rest inner
          ∙ ap (turn rest) e
          ∙ ap
              (λ (o : Publisher07 v × Bool).
                let (p', written) = o in
                elim written as (λ _. Option (List (Attempt v) × Publisher07 v)) [
                  | true ↦ some (rest, p')
                  | false ↦ resilient_write v raw group_size rest none
                ])
              h

      go : (o : Publisher07 v × Bool) → write v raw group_size p ≡ o → IsDone (a ∷ rest) inner
      go (p', true) h = record {
        rest = rest;
        used = p;
        left = p';
        returned = step (p', true) h;
        taken = h;
      }
      go (p', false) h = record {
        rest = d.rest;
        used = d.used;
        left = d.left;
        returned = step (p', false) h ∙ d.returned;
        taken = d.taken;
      }

  -- Whatever the attempts before, one that finds no live session and makes one that takes the frame
  -- is enough: the loop comes back, and the write that it comes back from has taken the frame.
  pub resilient_write-IsDone :
      (before : List (Attempt v)) (a : Attempt v) (after : List (Attempt v))
      (inner : Option (Publisher07 v))
      → IsGood a
      → IsDone (before ++ (a ∷ after)) inner
  resilient_write-IsDone [] a after inner g = good-IsDone a after inner g
  resilient_write-IsDone (b ∷ before) a after inner g =
      turned-IsDone b (before ++ (a ∷ after)) inner (session v b inner) refl
        (resilient_write-IsDone before a after none g)
