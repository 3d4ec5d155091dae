-- ===== src/Dialect07/Examples.antt =====
-- A draft-07 publisher with a library that keeps what is written.
use atmoq.Common.{ℕ, ◌≡◌, refl, true, false, none, some, List, [], ◌∷◌, ◌++◌, Bytes}
use atmoq.Dialect07.{Serve, Publisher07, write, Attempt}
use atmoq.Dialect07.Laws.{IsWritten, IsBounded, write-IsWritten}
use atmoq.Dialect07.Resilient.{IsGood, IsDone, resilient_write-IsDone}

abbrev shelf : Serve
shelf = record {
  Subgroups = List ℕ;
  Subgroup = List Bytes;
  create = λ n gs. (n ∷ gs, some []);
  write_object = λ raw g. (g ++ (raw ∷ []), true);
}

abbrev begun : Publisher07 shelf
begun = record { groups = []; current = none; group_id = 1700; count = 0 }

abbrev one : Publisher07 shelf
one = record { groups = 1700 ∷ []; current = some ((1 ∷ []) ∷ []); group_id = 1701; count = 1 }

first_write : write shelf (1 ∷ []) 2 begun ≡ (one, true)
unfolding write
first_write = refl

write-IsWritten_example : IsWritten shelf (1 ∷ []) 2 begun one × IsBounded shelf 2 one
write-IsWritten_example = write-IsWritten shelf (1 ∷ []) 2 begun one first_write

abbrev failing : Attempt shelf
failing = record { is_dead = true; published = none }

abbrev good : Attempt shelf
good = record { is_dead = true; published = some (begun, false) }

good-IsGood : IsGood shelf (1 ∷ []) 2 good
good-IsGood = record {
  dead = refl;
  made = begun;
  after = one;
  published = refl;
  accepted = first_write;
}

resilient_write-IsDone_example : IsDone shelf (1 ∷ []) 2 (failing ∷ good ∷ []) (some one)
resilient_write-IsDone_example =
    resilient_write-IsDone shelf (1 ∷ []) 2 (failing ∷ []) good [] (some one) good-IsGood
