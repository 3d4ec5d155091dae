-- ===== src/Dialect07/Laws.antt =====
-- The groups of a draft-07 session.
use atmoq.Common.{
  ℕ, ◌+◌, ◌%◌, ◌^◌, max, ◌≤◌, ◌<◌, ◌≡◌, refl, subst, Bool, true, false, ◌||◌, Option, none, some,
  ◌⊎◌, inl, inr, if◌then◌else◌, leb, leb→lt, Bytes, arith,
}
use atmoq.Dialect07.{
  Serve, is_none, Publisher07, written_object, write_current, created, is_full, write,
}

module _ (v : Serve) where
  -- The live group has no more objects than it may.
  abbrev pub IsBounded : ℕ → Publisher07 v → Type 0
  IsBounded group_size p = p.count ≤ max 1 group_size

  -- `raw` is an object more of the live group.
  pub record IsAdded (raw : Bytes) (group_size : ℕ) (p p' : Publisher07 v) : Type 0 where
    pub live : v.Subgroup
    pub after : v.Subgroup
    pub current : p.current ≡ some live
    pub object : v.write_object raw live ≡ (after, true)
    pub current_after : p'.current ≡ some after
    pub groups_after : p'.groups ≡ p.groups
    pub count_after : p'.count ≡ p.count + 1
    pub group_id_after : p'.group_id ≡ p.group_id
    pub room : p.count < group_size

  -- `raw` is the first object of a new group, made with the number that was next.
  pub record IsBegun (raw : Bytes) (group_size : ℕ) (p p' : Publisher07 v) : Type 0 where
    pub groups : v.Subgroups
    pub begun : v.Subgroup
    pub after : v.Subgroup
    pub full : is_full v group_size p ≡ true
    pub made : v.create p.group_id p.groups ≡ (groups, some begun)
    pub object : v.write_object raw begun ≡ (after, true)
    pub current_after : p'.current ≡ some after
    pub groups_after : p'.groups ≡ groups
    pub count_after : p'.count ≡ 1
    pub group_id_after : p'.group_id ≡ (p.group_id + 1) % 2 ^ 64

  abbrev pub IsWritten : Bytes → ℕ → Publisher07 v → Publisher07 v → Type 0
  IsWritten raw group_size p p' = IsAdded raw group_size p p' ⊎ IsBegun raw group_size p p'

  abbrev OutIfWritten : Bytes → ℕ → Publisher07 v → Publisher07 v × Bool → Type 0
  OutIfWritten raw group_size p (p', true) = IsWritten raw group_size p p'
  OutIfWritten raw group_size p (p', false) = Unit

  created-Out :
      (raw : Bytes) (group_size : ℕ) (p : Publisher07 v) (o : v.Subgroups × Option v.Subgroup)
      → is_full v group_size p ≡ true
      → v.create p.group_id p.groups ≡ o
      → OutIfWritten raw group_size p (created v raw p o)
  created-Out raw group_size p (groups, none) full e = tt
  created-Out raw group_size p (groups, some g) full e = go (v.write_object raw g) refl
    where
      go :
          (o : v.Subgroup × Bool)
          → v.write_object raw g ≡ o
          → OutIfWritten raw group_size p (
              written_object v
                (record p {
                  groups = groups;
                  current = some g;
                  group_id = (p.group_id + 1) % 2 ^ 64;
                  count = 0;
                })
                o)
      go (h, true) w = inr (record {
        groups = groups;
        begun = g;
        after = h;
        full = full;
        made = e;
        object = w;
        current_after = refl;
        groups_after = refl;
        count_after = omega arith;
        group_id_after = refl;
      })
      go (h, false) w = tt

  current-Out :
      (raw : Bytes) (group_size : ℕ) (p : Publisher07 v) (o : Option v.Subgroup)
      → p.count < group_size
      → p.current ≡ o
      → OutIfWritten raw group_size p (write_current v raw p o)
  current-Out raw group_size p none room e = tt
  current-Out raw group_size p (some g) room e = go (v.write_object raw g) refl
    where
      go :
          (o : v.Subgroup × Bool)
          → v.write_object raw g ≡ o
          → OutIfWritten raw group_size p (written_object v p o)
      go (h, true) w = inl (record {
        live = g;
        after = h;
        current = e;
        object = w;
        current_after = refl;
        groups_after = refl;
        count_after = refl;
        group_id_after = refl;
        room = room;
      })
      go (h, false) w = tt

  not_full :
      (b : Bool) (group_size count : ℕ) → (b || leb group_size count) ≡ false → count < group_size
  not_full true group_size count h = cc
  not_full false group_size count h = leb→lt group_size count h

  write-Out :
      (raw : Bytes) (group_size : ℕ) (p : Publisher07 v)
      → OutIfWritten raw group_size p (write v raw group_size p)
  unfolding write
  write-Out raw group_size p = go (is_full v group_size p) refl
    where
      go :
          (b : Bool)
          → is_full v group_size p ≡ b
          → OutIfWritten raw group_size p (
              if b
              then created v raw p (v.create p.group_id p.groups)
              else write_current v raw p p.current)
      go true h = created-Out raw group_size p (v.create p.group_id p.groups) h refl
      go false h =
          current-Out raw group_size p p.current (not_full (is_none p.current) group_size p.count h)
            refl

  -- A write that succeeds has written the frame as an object to the live group, which had room, or has
  -- made the group with the next number, as there was none with room, and written it there as the
  -- first; the count and the next number say so, and no group grows beyond the size asked for, or
  -- beyond one object where that is 0.
  pub write-IsWritten :
      (raw : Bytes) (group_size : ℕ) (p p' : Publisher07 v)
      → write v raw group_size p ≡ (p', true)
      → IsWritten raw group_size p p' × IsBounded group_size p'
  write-IsWritten raw group_size p p' h =
      let out : IsWritten raw group_size p p' =
        subst (OutIfWritten raw group_size p) h (write-Out raw group_size p) in
      (out, bounded out)
    where
      bounded : IsWritten raw group_size p p' → IsBounded group_size p'
      bounded (inl a) = omega (arith, a.count_after, a.room)
      bounded (inr b) = omega (arith, b.count_after)
