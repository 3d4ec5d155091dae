-- ===== src/StateFile/Laws.antt =====
-- What a run wrote is what the next run begins with.
use atmoq.Common.{
  ℕ, ◌^◌, ◌<◌, ◌≡◌, ◌≢◌, refl, sym, ap, ◌∙◌, true, false, Option, none, some, [], ◌∷◌, ◌++◌, arith,
  ◌==◌, Bool-cases, inl, inr,
}
use mathlib.Core.Option.{none-ne-some}
use atmoq.Common.Int.{ℤ, pos, negsuc}
use atmoq.StateFile.{
  Text, trim, show_u64, show_i64, parse_unsigned, without_plus, as_pos, or_flag, or_minus_one,
  is_digit, parse_digits, parse_u64, parse_i64, StateFile, WriteOutcome, wrote, write_fails,
  rename_fails, write_state_file, persist_group_seq, load_group_seq, load_initial_cursor,
  persist_cursor,
}
use atmoq.StateFile.Decimal.{parse_unsigned-show}

-- A written group sequence is the one that the next run loads, and a failed write leaves what the
-- file held before.
pub load-persist_group_seq :
    (file : StateFile) (seq : ℕ) (outcome : WriteOutcome)
    → seq < 2 ^ 64
    → outcome ≢ wrote
    → (load_group_seq (persist_group_seq (some file) seq wrote) ≡ some seq)
      × (persist_group_seq (some file) seq outcome ≡ some file)
unfolding load_group_seq persist_group_seq parse_u64
load-persist_group_seq file seq outcome h failed =
    (parse_unsigned-show (2 ^ 64) seq h (omega arith), kept outcome failed)
  where
    kept : (o : WriteOutcome) → o ≢ wrote → persist_group_seq (some file) seq o ≡ some file
    kept wrote apart = absurd (apart refl)
    kept write_fails apart = refl
    kept rename_fails apart = refl

minus_refused :
    (c : ℕ) (cs : Text)
    → (c == b'-') ≡ true
    → parse_unsigned (2 ^ 63) (without_plus (c ∷ cs)) ≡ none
unfolding parse_digits
minus_refused c cs e =
    let other : (c == b'+') ≡ false = ground (arith, e) in
    let no_digit : is_digit c ≡ false = ground (arith, e) in rw other (rw no_digit refl)

parse_i64-line :
    (s : Text) (n : ℕ)
    → parse_unsigned (2 ^ 63) (without_plus s) ≡ some n
    → parse_i64 s ≡ some (pos n)
unfolding parse_i64
parse_i64-line [] n h = absurd (none-ne-some n h)
parse_i64-line (c ∷ cs) n h = elim (Bool-cases (c == b'-')) [
  | inl e ↦ absurd (none-ne-some n (sym (minus_refused c cs e) ∙ h))
  | inr e ↦ rw e (ap as_pos h)
]

-- A cursor file that is not there, or holds no number; or no such file is asked for.
abbrev pub HoldsNone : Option StateFile → Type 0
HoldsNone none = Unit
HoldsNone (some none) = Unit
HoldsNone (some (some s)) = parse_i64 (trim s) ≡ none

load-HoldsNone :
    (path : Option StateFile) (flag : Option ℤ)
    → HoldsNone path
    → load_initial_cursor path flag ≡ or_minus_one flag
unfolding load_initial_cursor
load-HoldsNone none flag h = refl
load-HoldsNone (some none) flag h = refl
load-HoldsNone (some (some s)) flag h = ap (λ o. or_minus_one (or_flag o flag)) h

-- The cursor that a run begins with is the one that was written, whatever the flag says, if the write
-- succeeds and that is a sequence; a cursor below 0 is never written; and where no file is asked for,
-- or the file is missing or holds no number, it is the flag, or -1 without one.
pub load-persist_cursor :
    (file : StateFile) (n : ℕ) (flag : Option ℤ) (outcome : WriteOutcome) (path : Option StateFile)
    (cursor : ℤ)
    → n < 2 ^ 63
    → HoldsNone path
    → (load_initial_cursor (persist_cursor (some file) (pos n) wrote) flag ≡ pos n)
      × (persist_cursor (some file) (negsuc n) outcome ≡ some file)
      × (load_initial_cursor path (some cursor) ≡ cursor)
      × (load_initial_cursor path none ≡ negsuc 0)
unfolding load_initial_cursor persist_cursor write_state_file show_i64
load-persist_cursor file n flag outcome path cursor h empty = (
  ap (λ o. or_minus_one (or_flag o flag))
      (parse_i64-line (trim (show_u64 n ++ (10 ∷ []))) n
        (parse_unsigned-show (2 ^ 63) n h (omega arith))),
  refl,
  load-HoldsNone path (some cursor) empty,
  load-HoldsNone path none empty,
)
