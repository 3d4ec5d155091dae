-- ===== src/Reader/Laws.antt =====
-- What a reader hands on, against the list of all frames that it is given.
use atmoq.Common.{
  ℕ, zero, suc, ◌≡◌, refl, sym, ap, ◌∙◌, Bool, true, false, Option, none, some, List, [], ◌∷◌, ◌++◌,
  append_assoc, append-nil, take,
}
use atmoq.Common.Int.{ℤ}
use atmoq.Frame.{Cbor}
use atmoq.Dedupe.{admit, fresh, IsRising}
use atmoq.Dedupe.Laws.{fresh-IsRising, take-IsRising}
use atmoq.Reader.{
  frame_seq, Read, frame, broken, ReadGroup, Subscription, refused, subscribed, Item, Reader,
  i64_min, start_reader, taken, send, go_on, on_data, read_group, read_groups, moq_reader,
}

-- The frames of a group before its first error.
abbrev pub whole_reads : ℕ → List Read → List Item
whole_reads sequence [] = []
whole_reads sequence (broken ∷ rest) = []
whole_reads sequence (frame raw ∷ rest) = (sequence, raw) ∷ whole_reads sequence rest

abbrev pub group_items : List ReadGroup → List Item
group_items [] = []
group_items (g ∷ gs) = whole_reads g.sequence g.reads ++ group_items gs

-- The frames of all the subscriptions, one after another.
abbrev pub offered : List Subscription → List Item
offered [] = []
offered (refused ∷ rest) = offered rest
offered (subscribed groups ∷ rest) = group_items groups ++ offered rest

go_on-eq :
    (o : Reader × Bool) (f g : Reader → Reader × Bool)
    → ((r : Reader) → f r ≡ g r)
    → go_on o f ≡ go_on o g
go_on-eq (r, true) f g h = h r
go_on-eq (r, false) f g h = refl

go_on_assoc :
    (o : Reader × Bool) (f g : Reader → Reader × Bool)
    → go_on (go_on o f) g ≡ go_on o (λ r. go_on (f r) g)
go_on_assoc (r, true) f g = refl
go_on_assoc (r, false) f g = refl

take_nil : (n : ℕ) → take {A = Item} n [] ≡ []
take_nil zero = refl
take_nil (suc n) = refl

module _ (c : Cbor) where
  abbrev pub item_seq : Item → Option ℤ
  item_seq item = frame_seq c item.1

  -- The reads as one loop over the items.
  abbrev deliver : List Item → Reader → Reader × Bool
  deliver [] r = (r, true)
  deliver (item ∷ rest) r = go_on (on_data c item.0 item.1 r) (deliver rest)

  deliver-append :
      (xs ys : List Item) (r : Reader) → deliver (xs ++ ys) r ≡ go_on (deliver xs r) (deliver ys)
  deliver-append [] ys r = refl
  deliver-append (x ∷ xs) ys r =
      go_on-eq (on_data c x.0 x.1 r) _ _ (deliver-append xs ys)
      ∙ sym (go_on_assoc (on_data c x.0 x.1 r) (deliver xs) (deliver ys))

  read_group-deliver :
      (sequence : ℕ) (reads : List Read) (r : Reader)
      → read_group c sequence reads r ≡ deliver (whole_reads sequence reads) r
  unfolding read_group
  read_group-deliver sequence [] r = refl
  read_group-deliver sequence (broken ∷ rest) r = refl
  read_group-deliver sequence (frame raw ∷ rest) r =
      go_on-eq (on_data c sequence raw r) _ _ (read_group-deliver sequence rest)

  read_groups-deliver :
      (gs : List ReadGroup) (r : Reader) → read_groups c gs r ≡ deliver (group_items gs) r
  unfolding read_groups
  read_groups-deliver [] r = refl
  read_groups-deliver (g ∷ gs) r =
      ap (λ o. go_on o (read_groups c gs)) (read_group-deliver g.sequence g.reads r)
      ∙ go_on-eq (deliver (whole_reads g.sequence g.reads) r) _ _ (read_groups-deliver gs)
      ∙ sym (deliver-append (whole_reads g.sequence g.reads) (group_items gs) r)

  -- The reader always returns in the end, so only what it leaves is compared.
  go_on-left :
      (o : Reader × Bool) (f g : Reader → Reader × Bool)
      → ((r : Reader) → (f r).0 ≡ (g r).0)
      → (go_on o f).0 ≡ (go_on o g).0
  go_on-left (r, true) f g h = h r
  go_on-left (r, false) f g h = refl

  moq_reader-deliver :
      (subscriptions : List Subscription) (r : Reader)
      → (moq_reader c subscriptions r).0 ≡ (deliver (offered subscriptions) r).0
  unfolding moq_reader
  moq_reader-deliver [] r = refl
  moq_reader-deliver (refused ∷ rest) r = moq_reader-deliver rest r
  moq_reader-deliver (subscribed groups ∷ rest) r =
      ap (λ o. (go_on o (moq_reader c rest)).0) (read_groups-deliver groups r)
      ∙ go_on-left (deliver (group_items groups) r) _ _ (moq_reader-deliver rest)
      ∙ ap (λ (o : Reader × Bool). o.0) (sym (deliver-append (group_items groups) (offered rest) r))

  taken-fresh :
      (item : Item) (rest : List Item) (mark : ℤ) (r : Reader) (n : ℕ)
      → ((q : Reader)
          → (deliver rest q).0.sent ≡ q.sent ++ take q.takes (fresh item_seq q.last_seq rest))
      → r.takes ≡ n
      → r.last_seq ≡ mark
      → (go_on (taken item r n) (deliver rest)).0.sent
        ≡ r.sent ++ take n (item ∷ fresh item_seq mark rest)
  taken-fresh item rest mark r zero below e same = sym (append-nil r.sent)
  taken-fresh item rest mark r (suc n) below e same =
      below (record r { takes = n; sent = r.sent ++ (item ∷ []) })
      ∙ append_assoc r.sent (item ∷ []) _
      ∙ ap (λ t. r.sent ++ (item ∷ take n (fresh item_seq t rest))) same

  deliver-fresh :
      (items : List Item) (r : Reader)
      → (deliver items r).0.sent ≡ r.sent ++ take r.takes (fresh item_seq r.last_seq items)
  unfolding on_data fresh admit
  deliver-fresh [] r = sym (append-nil r.sent) ∙ ap (λ t. r.sent ++ t) (sym (take_nil r.takes))
  deliver-fresh (x ∷ xs) r = go (deliver-fresh xs) (admit (item_seq x) r.last_seq)
    where
      go :
          ((q : Reader)
            → (deliver xs q).0.sent ≡ q.sent ++ take q.takes (fresh item_seq q.last_seq xs))
          → (o : Option ℤ)
          → (go_on
              (elim o as (λ _. Reader × Bool) [
                | none ↦ (r, true)
                | some mark ↦ send x (record r { last_seq = mark })
              ])
              (deliver xs)).0.sent
            ≡ r.sent
              ++ take r.takes (elim o as (λ _. List Item) [
                | none ↦ fresh item_seq r.last_seq xs
                | some mark ↦ x ∷ fresh item_seq mark xs
              ])
      go below none = below r
      go below (some mark) =
          taken-fresh x xs mark (record r { last_seq = mark }) r.takes below refl refl

  -- A reader hands on, in order and for as long as the receiver is there, of all frames of the
  -- subscriptions those without a sequence number and those whose number is above all before it; so
  -- the numbers that are handed on rise, and a numbered frame of a replayed group comes once. The
  -- frames behind an error in a group are not among them.
  pub moq_reader-fresh :
      (subscriptions : List Subscription) (takes : ℕ)
      → let sent = (moq_reader c subscriptions (start_reader takes)).0.sent in
        (sent ≡ take takes (fresh item_seq i64_min (offered subscriptions)))
        × IsRising item_seq i64_min sent
  moq_reader-fresh subscriptions takes =
      let same =
        ap (λ (r : Reader). r.sent) (moq_reader-deliver subscriptions (start_reader takes))
        ∙ deliver-fresh (offered subscriptions) (start_reader takes) in
      (
        same,
        rw same (
            take-IsRising item_seq takes i64_min (fresh item_seq i64_min (offered subscriptions))
              (fresh-IsRising item_seq i64_min (offered subscriptions))),
      )
