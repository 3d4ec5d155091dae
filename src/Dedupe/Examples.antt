-- ===== src/Dedupe/Examples.antt =====
-- A stream that is resumed.
use atmoq.Common.{◌≡◌, refl, Option, some, [], ◌∷◌, All}
use atmoq.Common.Int.{ℤ, pos, negsuc}
use atmoq.Dedupe.{fresh, IsRising}
use atmoq.Dedupe.Replay.{IsNumbered, fresh-replay}

abbrev number : ℤ → Option ℤ
number n = some n

rising : IsRising number (negsuc 0) (pos 3 ∷ pos 4 ∷ pos 7 ∷ pos 9 ∷ [])
unfolding IsRising
rising = (refl, (refl, (refl, (refl, tt))))

numbered : All (IsNumbered number) (pos 4 ∷ pos 7 ∷ [])
numbered = ((pos 4, refl), ((pos 7, refl), tt))

fresh-replay_example :
    fresh number (negsuc 0) (pos 3 ∷ pos 4 ∷ pos 7 ∷ pos 4 ∷ pos 7 ∷ pos 9 ∷ [])
    ≡ pos 3 ∷ pos 4 ∷ pos 7 ∷ pos 9 ∷ []
fresh-replay_example =
    fresh-replay number (negsuc 0) (pos 3 ∷ []) (pos 4 ∷ pos 7 ∷ []) (pos 9 ∷ []) rising numbered
