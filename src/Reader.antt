-- ===== src/Reader.antt =====
-- rust/crates/atmoq/src/main.rs, `moq_reader`: a consumer reads the groups of a track, over as many
-- subscriptions as it takes, and hands the frames on. What the MoQ library gives is the input: the
-- subscriptions, their groups and the frames read of each. The receiver takes some number of items
-- and is then gone; the pauses before a new subscription are left out.
pub mod Laws
mod Examples
use atmoq.Common.{
  ℕ, zero, suc, ◌+◌, ◌-◌, ◌*◌, ◌^◌, Bool, true, false, Option, none, some, List, [], ◌∷◌, ◌++◌,
  Result, ok, err, panic, if◌then◌else◌, Bytes,
}
use atmoq.Common.Int.{ℤ, negsuc, wrap_i64}
use atmoq.Dedupe.{admit}
use atmoq.Frame.{Cbor, FrameError, decode, field, and_then, seq_key, wrapped}
use atmoq.Router.{decoded_payload}

module _ (c : Cbor) where
  unfoldable pub frame_seq : Bytes → Option ℤ
  frame_seq raw = wrapped (
      and_then (decoded_payload c (decode c raw))
        λ payload. and_then (field c payload seq_key) c.as_integer)

-- `group.read_frame()`: a frame, or an error; the list of a group's reads ends where the group does.
pub data Read : Type 0 where
  frame : Bytes → Read
  broken : Read

pub record ReadGroup : Type 0 where
  pub sequence : ℕ
  pub reads : List Read

-- One announced broadcast: the subscription fails, or gives groups until it ends or fails.
pub data Subscription : Type 0 where
  refused : Subscription
  subscribed : List ReadGroup → Subscription

abbrev pub Item : Type 0
Item = ℕ × Bytes

pub record Reader : Type 0 where
  pub last_seq : ℤ
  -- How many items the receiver still takes.
  pub takes : ℕ
  pub sent : List Item

-- `i64::MIN`.
abbrev pub i64_min : ℤ
i64_min = negsuc (2 ^ 63 - 1)

abbrev pub start_reader : ℕ → Reader
start_reader takes = record { last_seq = i64_min; takes = takes; sent = [] }

abbrev pub taken : Item → Reader → ℕ → Reader × Bool
taken item r zero = (r, false)
taken item r (suc n) = (record r { takes = n; sent = r.sent ++ (item ∷ []) }, true)

-- `tx.send(..)`: whether the receiver was still there.
abbrev pub send : Item → Reader → Reader × Bool
send item r = taken item r r.takes

-- What follows, unless the reader returned.
abbrev pub go_on : Reader × Bool → (Reader → Reader × Bool) → Reader × Bool
go_on (r, true) rest = rest r
go_on (r, false) rest = (r, false)

module _ (c : Cbor) where
  -- One frame; `false` where the reader returns.
  unfoldable pub on_data : ℕ → Bytes → Reader → Reader × Bool
  unfolding admit
  on_data sequence raw r = elim (admit (frame_seq c raw) r.last_seq) [
    | none ↦ (r, true)
    | some mark ↦ send (sequence, raw) (record r { last_seq = mark })
  ]

  -- A group, up to its end or the first error.
  unfoldable pub read_group : ℕ → List Read → Reader → Reader × Bool
  unfolding on_data
  read_group sequence [] r = (r, true)
  read_group sequence (broken ∷ rest) r = (r, true)
  read_group sequence (frame raw ∷ rest) r =
      go_on (on_data sequence raw r) (read_group sequence rest)

  unfoldable pub read_groups : List ReadGroup → Reader → Reader × Bool
  unfolding read_group
  read_groups [] r = (r, true)
  read_groups (g ∷ gs) r = go_on (read_group g.sequence g.reads r) (read_groups gs)

  -- The list ends where the origin closes.
  unfoldable pub moq_reader : List Subscription → Reader → Reader × Bool
  unfolding read_groups
  moq_reader [] r = (r, false)
  moq_reader (refused ∷ rest) r = moq_reader rest r
  moq_reader (subscribed groups ∷ rest) r = go_on (read_groups groups r) (moq_reader rest)
