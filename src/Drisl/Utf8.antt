-- ===== src/Drisl/Utf8.antt =====
-- `std::str::from_utf8(..).is_err()`: well-formed UTF-8 (the table of RFC 3629).
use atmoq.Common.{ℕ, Bool, true, false, ◌&&◌, ◌||◌, [], ◌∷◌, if◌then◌else◌, ltb, leb, ◌==◌, Bytes}

abbrev between : ℕ → ℕ → ℕ → Bool
between lo hi b = leb lo b && leb b hi

abbrev is_tail : ℕ → Bool
is_tail b = between 0x80 0xbf b

abbrev pair_ok : ℕ → ℕ → Bool
pair_ok a b = between 0xc2 0xdf a && is_tail b

abbrev triple_ok : ℕ → ℕ → ℕ → Bool
triple_ok a b c =
    is_tail c
    && ((a == 0xe0 && between 0xa0 0xbf b)
        || (between 0xe1 0xec a && is_tail b)
        || (a == 0xed && between 0x80 0x9f b)
        || (between 0xee 0xef a && is_tail b))

abbrev quad_ok : ℕ → ℕ → ℕ → ℕ → Bool
quad_ok a b c d =
    is_tail c
    && is_tail d
    && ((a == 0xf0 && between 0x90 0xbf b)
        || (between 0xf1 0xf3 a && is_tail b)
        || (a == 0xf4 && between 0x80 0x8f b))

unfoldable pub is_utf8 : Bytes → Bool
is_utf8 [] = true
is_utf8 (a ∷ []) = ltb a 0x80
is_utf8 (a ∷ b ∷ []) = let one = is_utf8 (b ∷ []) in if ltb a 0x80 then one else pair_ok a b
is_utf8 (a ∷ b ∷ c ∷ []) =
    let one = is_utf8 (b ∷ c ∷ []) in
    let two = is_utf8 (c ∷ []) in
    if ltb a 0x80 then one else if pair_ok a b then two else triple_ok a b c
is_utf8 (a ∷ b ∷ c ∷ d ∷ rest) =
    let one = is_utf8 (b ∷ c ∷ d ∷ rest) in
    let two = is_utf8 (c ∷ d ∷ rest) in
    let three = is_utf8 (d ∷ rest) in
    let four = is_utf8 rest in
    if ltb a 0x80
    then one
    else if pair_ok a b
    then two
    else if triple_ok a b c
    then three
    else if quad_ok a b c d
    then four
    else false
