-- ===== src/Dialect07.antt =====
-- rust/crates/atmoq/src/dialect07.rs: publishing by draft 07, with a session that is made again when
-- it dies, and the reconnects of a subscriber. The library (moq-transport) is the parameter `v`, and
-- what it gives to each attempt is an `Attempt`.
pub mod Laws
pub mod Resilient
mod Examples
use atmoq.Common.{
  ℕ, zero, suc, ◌+◌, ◌*◌, ◌%◌, ◌^◌, min, Bool, true, false, ◌||◌, Option, none, some, List, [], ◌∷◌,
  ◌++◌, Result, ok, err, if◌then◌else◌, ltb, leb, Bytes,
}

-- What the code calls of the library: subgroups are made and written to, which may fail.
pub record Serve : Type 1 where
  pub Subgroups : Type 0
  pub Subgroup : Type 0
  pub create : ℕ → Subgroups → Subgroups × Option Subgroup
  pub write_object : Bytes → Subgroup → Subgroup × Bool

abbrev pub is_none {ℓ} : {A : Type ℓ} → Option A → Bool
is_none none = true
is_none (some a) = false

module _ (v : Serve) where
  open v use {Subgroups, Subgroup, create, write_object}

  pub record Publisher07 : Type 0 where
    pub groups : Subgroups
    pub current : Option Subgroup
    pub group_id : ℕ
    pub count : ℕ

  -- A new session: `now_ms` is the base of its group numbers.
  abbrev pub new_publisher : Subgroups → ℕ → Publisher07
  new_publisher groups now_ms = record {
    groups = groups;
    current = none;
    group_id = now_ms % 2 ^ 64;
    count = 0;
  }

  abbrev pub written_object : Publisher07 → Subgroup × Bool → Publisher07 × Bool
  written_object p (g, true) = (record p { current = some g; count = p.count + 1 }, true)
  written_object p (g, false) = (record p { current = some g }, false)

  -- `self.current.as_mut().expect(..)`: the test before has made sure of a group.
  abbrev pub write_current : Bytes → Publisher07 → Option Subgroup → Publisher07 × Bool
  write_current raw p none = (p, false)
  write_current raw p (some g) = written_object p (write_object raw g)

  abbrev pub created : Bytes → Publisher07 → Subgroups × Option Subgroup → Publisher07 × Bool
  created raw p (groups, none) = (record p { groups = groups }, false)
  created raw p (groups, some g) =
      write_current raw
        (record p {
          groups = groups;
          current = some g;
          group_id = (p.group_id + 1) % 2 ^ 64;
          count = 0;
        })
        (some g)

  abbrev pub is_full : ℕ → Publisher07 → Bool
  is_full group_size p = is_none p.current || leb group_size p.count

  unfoldable pub write : Bytes → ℕ → Publisher07 → Publisher07 × Bool
  write raw group_size p =
      if is_full group_size p
      then created raw p (create p.group_id p.groups)
      else write_current raw p p.current

  -- What an attempt of the loop meets: whether the session at hand has died, and the session that
  -- `publish` makes, if it can, and whether that one dies while on probation.
  pub record Attempt : Type 0 where
    pub is_dead : Bool
    pub published : Option (Publisher07 × Bool)

  -- The session for the write, or none where the loop begins again.
  abbrev pub on_probation : Option (Publisher07 × Bool) → Option Publisher07
  on_probation none = none
  on_probation (some (p, true)) = none
  on_probation (some (p, false)) = some p

  abbrev pub session : Attempt → Option Publisher07 → Option Publisher07
  session a none = on_probation a.published
  session a (some p) = if a.is_dead then on_probation a.published else some p

  -- `none` where the attempts run out: the loop goes on until a write succeeds.
  unfoldable pub resilient_write :
      Bytes → ℕ → List Attempt → Option Publisher07 → Option (List Attempt × Publisher07)
  unfolding write
  resilient_write raw group_size [] inner = none
  resilient_write raw group_size (a ∷ rest) inner = elim (session a inner) [
    | none ↦ resilient_write raw group_size rest none
    | some p ↦
        let (p', written) = write raw group_size p in
        elim written [ true ↦ some (rest, p') | false ↦ resilient_write raw group_size rest none ]
  ]

-- A connection of `subscribe_loop`: how long it lasted, and whether the receiver is gone behind it.
pub record Visit : Type 0 where
  pub elapsed_ms : ℕ
  pub is_closed : Bool

-- The pauses in seconds, one behind each connection but the last.
unfoldable pub subscribe_loop : ℕ → List Visit → List ℕ
subscribe_loop backoff [] = []
subscribe_loop backoff (s ∷ rest) =
    let pause = if ltb (60 * 1000) s.elapsed_ms then 1 else backoff in
    let more = subscribe_loop (min (pause * 2) 30) rest in if s.is_closed then [] else pause ∷ more

pub data ReadNext : Type 0 where
  object : Bytes → ReadNext
  failed : ReadNext

-- The subgroups of one session, numbered from `group` on, and what is sent of them.
unfoldable pub subgroup_items : ℕ → List ReadNext → List (ℕ × Bytes) × Bool
subgroup_items group [] = ([], true)
subgroup_items group (failed ∷ rest) = ([], false)
subgroup_items group (object raw ∷ rest) =
    let (items, ended) = subgroup_items group rest in ((group, raw) ∷ items, ended)

abbrev pub then_items : List (ℕ × Bytes) × Bool → List (ℕ × Bytes) × Bool → List (ℕ × Bytes) × Bool
then_items (items, false) more = (items, false)
then_items (items, true) (more, ended) = (items ++ more, ended)

-- `subgroups.next()`: a subgroup, or an error; the list of a session ends where the track does.
pub data NextSubgroup : Type 0 where
  subgroup : List ReadNext → NextSubgroup
  refused : NextSubgroup

-- The subgroups of a session, the first with the number `group`.
unfoldable pub subgroups_items : ℕ → List NextSubgroup → List (ℕ × Bytes) × Bool
unfolding subgroup_items
subgroups_items group [] = ([], true)
subgroups_items group (refused ∷ gs) = ([], false)
subgroups_items group (subgroup g ∷ gs) =
    then_items (subgroup_items group g) (subgroups_items ((group + 1) % 2 ^ 64) gs)

-- `sub.mode()`.
pub data Mode : Type 0 where
  subgroups stream : List NextSubgroup → Mode
  datagrams unknown : Mode

-- `subscribe` behind the connection, for as long as the receiver is there: what is sent, and `false`
-- where an error ends it.
unfoldable pub subscribe : Mode → List (ℕ × Bytes) × Bool
unfolding subgroups_items
subscribe (subgroups gs) = subgroups_items 0 gs
subscribe (stream gs) = subgroups_items 0 gs
subscribe datagrams = ([], false)
subscribe unknown = ([], false)
