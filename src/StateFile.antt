-- ===== src/StateFile.antt =====
-- The small state files of rust/crates/atmoq/src/main.rs: the group sequence and the cursor, each a
-- decimal number and a newline. A text is the list of its characters' code points; a file that is
-- missing or is no text is `none`.
pub mod Decimal
pub mod Laws
mod Examples
use atmoq.Common.{
  ℕ, zero, suc, ◌+◌, ◌-◌, ◌*◌, ◌/◌, ◌%◌, ◌^◌, Bool, true, false, ◌&&◌, ◌||◌, Option, none, some,
  List, [], ◌∷◌, ◌++◌, if◌then◌else◌, ltb, leb, ◌==◌,
}
use atmoq.Common.Int.{ℤ, pos, negsuc}

abbrev pub Text : Type 0
Text = List ℕ

-- `char::is_whitespace`.
abbrev pub is_whitespace : ℕ → Bool
is_whitespace c =
    (leb 9 c && leb c 13)
    || c == 0x20
    || c == 0x85
    || c == 0xa0
    || c == 0x1680
    || (leb 0x2000 c && leb c 0x200a)
    || c == 0x2028
    || c == 0x2029
    || c == 0x202f
    || c == 0x205f
    || c == 0x3000

unfoldable pub trim_start : Text → Text
trim_start [] = []
trim_start (c ∷ cs) = let rest = trim_start cs in if is_whitespace c then rest else c ∷ cs

-- A character goes where it and all behind it are white.
abbrev pub keep_before : ℕ → Text → Text
keep_before c [] = if is_whitespace c then [] else c ∷ []
keep_before c (d ∷ ds) = c ∷ d ∷ ds

unfoldable pub trim_end : Text → Text
trim_end [] = []
trim_end (c ∷ cs) = keep_before c (trim_end cs)

unfoldable pub trim : Text → Text
unfolding trim_start trim_end
trim s = trim_end (trim_start s)

-- `{seq}`: the digits behind those in `acc`, of at most `k`.
unfoldable pub digits_of : ℕ → ℕ → Text → Text
digits_of zero n acc = acc
digits_of (suc k) n acc =
    let more = digits_of k (n / 10) ((48 + n % 10) ∷ acc) in
    if ltb n 10 then (48 + n) ∷ acc else more

-- A `u64` has twenty digits at most.
unfoldable pub show_u64 : ℕ → Text
unfolding digits_of
show_u64 n = digits_of 20 n []

unfoldable pub show_i64 : ℤ → Text
show_i64 (pos n) = show_u64 n
show_i64 (negsuc n) = b'-' ∷ show_u64 (n + 1)

abbrev pub is_digit : ℕ → Bool
is_digit c = leb 48 c && leb c 57

-- The digits of an unsigned number below `limit`.
unfoldable pub parse_digits : ℕ → ℕ → Text → Option ℕ
parse_digits limit acc [] = some acc
parse_digits limit acc (c ∷ cs) =
    let next = acc * 10 + (c - 48) in
    let rest = parse_digits limit next cs in if is_digit c && ltb next limit then rest else none

abbrev pub parse_unsigned : ℕ → Text → Option ℕ
parse_unsigned limit [] = none
parse_unsigned limit (c ∷ cs) = parse_digits limit 0 (c ∷ cs)

abbrev pub without_plus : Text → Text
without_plus [] = []
without_plus (c ∷ cs) = if c == b'+' then cs else c ∷ cs

-- `str::parse::<u64>`.
unfoldable pub parse_u64 : Text → Option ℕ
unfolding parse_digits
parse_u64 s = parse_unsigned (2 ^ 64) (without_plus s)

abbrev pub as_pos : Option ℕ → Option ℤ
as_pos none = none
as_pos (some n) = some (pos n)

abbrev pub as_negative : Option ℕ → Option ℤ
as_negative none = none
as_negative (some zero) = some (pos 0)
as_negative (some (suc n)) = some (negsuc n)

-- `str::parse::<i64>`.
unfoldable pub parse_i64 : Text → Option ℤ
unfolding parse_digits
parse_i64 [] = none
parse_i64 (c ∷ cs) =
    if c == b'-'
    then as_negative (parse_unsigned (2 ^ 63 + 1) cs)
    else as_pos (parse_unsigned (2 ^ 63) (without_plus (c ∷ cs)))

-- The file behind a path, where there is a path.
abbrev pub StateFile : Type 0
StateFile = Option Text

-- What the file system does: all, or the write of the sibling fails, or the rename does.
pub data WriteOutcome : Type 0 where
  wrote write_fails rename_fails : WriteOutcome

unfoldable pub write_state_file : StateFile → Text → WriteOutcome → StateFile × Bool
write_state_file file new wrote = (some new, true)
write_state_file file new write_fails = (file, false)
write_state_file file new rename_fails = (file, false)

-- A `path` that is none has no file to write; the failure is only logged.
unfoldable pub persist_group_seq : Option StateFile → ℕ → WriteOutcome → Option StateFile
unfolding write_state_file
persist_group_seq none seq outcome = none
persist_group_seq (some file) seq outcome =
    some (write_state_file file (show_u64 seq ++ (10 ∷ [])) outcome).0

abbrev pub and_then {ℓ κ} : {A : Type ℓ} {B : Type κ} → Option A → (A → Option B) → Option B
and_then none f = none
and_then (some a) f = f a

unfoldable pub load_group_seq : Option StateFile → Option ℕ
load_group_seq path = and_then path λ file. and_then file λ s. parse_u64 (trim s)

abbrev pub or_flag : Option ℤ → Option ℤ → Option ℤ
or_flag none cursor = cursor
or_flag (some c) cursor = some c

abbrev pub or_minus_one : Option ℤ → ℤ
or_minus_one none = negsuc 0
or_minus_one (some c) = c

-- The cursor that the run begins with.
unfoldable pub load_initial_cursor : Option StateFile → Option ℤ → ℤ
load_initial_cursor cursor_file cursor =
    or_minus_one
      (or_flag (and_then cursor_file λ file. and_then file λ s. parse_i64 (trim s)) cursor)

abbrev pub persist_unless_negative : StateFile → ℤ → WriteOutcome → StateFile
persist_unless_negative file (negsuc n) outcome = file
persist_unless_negative file (pos n) outcome =
    (write_state_file file (show_i64 (pos n) ++ (10 ∷ [])) outcome).0

unfoldable pub persist_cursor : Option StateFile → ℤ → WriteOutcome → Option StateFile
unfolding write_state_file show_i64
persist_cursor none last_seq outcome = none
persist_cursor (some file) last_seq outcome = some (persist_unless_negative file last_seq outcome)
