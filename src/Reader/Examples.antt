-- ===== src/Reader/Examples.antt =====
-- A reader over three subscriptions, one of which replays a group.
use atmoq.Common.{◌≡◌, refl, List, [], ◌∷◌, take, eq_bytes}
use atmoq.Common.Int.{wrap_i64}
use atmoq.Drisl.Examples.{runs}
use atmoq.Dedupe.{fresh, admit, IsRising}
use atmoq.Frame.{decode, boundary, field, find_key}
use atmoq.Frame.Docs.{numbered_docs, numbered}
use atmoq.Reader.{
  Item, Subscription, refused, subscribed, frame, broken, moq_reader, start_reader, i64_min,
  frame_seq,
}
use atmoq.Reader.Laws.{item_seq, offered, moq_reader-fresh}

-- Group 4 twice, the second time with a frame more, and group 5, which breaks.
abbrev replayed : List Subscription
replayed =
    subscribed (record { sequence = 4; reads = frame (numbered 1) ∷ frame (numbered 2) ∷ [] } ∷ [])
    ∷ refused
    ∷ subscribed (
        record {
          sequence = 4;
          reads = frame (numbered 1) ∷ frame (numbered 2) ∷ frame (numbered 3) ∷ [];
        }
        ∷ record { sequence = 5; reads = frame (numbered 7) ∷ broken ∷ frame (numbered 8) ∷ [] }
        ∷ [])
    ∷ []

abbrev each_once : List Item
each_once = (4, numbered 1) ∷ (4, numbered 2) ∷ (4, numbered 3) ∷ (5, numbered 7) ∷ []

sends_each_once : (moq_reader numbered_docs replayed (start_reader 9)).0.sent ≡ each_once
unfolding moq_reader frame_seq admit decode boundary field find_key eq_bytes runs wrap_i64
sends_each_once = refl

moq_reader-fresh_example :
    let sent = (moq_reader numbered_docs replayed (start_reader 9)).0.sent in
    (sent ≡ take 9 (fresh (item_seq numbered_docs) i64_min (offered replayed)))
    × IsRising (item_seq numbered_docs) i64_min sent
moq_reader-fresh_example = moq_reader-fresh numbered_docs replayed 9
