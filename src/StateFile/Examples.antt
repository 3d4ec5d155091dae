-- ===== src/StateFile/Examples.antt =====
-- The theorems of the state files at small files.
use atmoq.Common.{◌≡◌, ◌≢◌, refl, none, some, [], ◌∷◌, arith}
use atmoq.Common.Int.{pos, negsuc}
use atmoq.StateFile.{
  StateFile, wrote, rename_fails, persist_group_seq, load_group_seq, load_initial_cursor,
  persist_cursor, parse_i64, trim, trim_start, trim_end, parse_digits,
}
use atmoq.StateFile.Laws.{load-persist_group_seq, load-persist_cursor, HoldsNone}

abbrev old_file : StateFile
old_file = some (b'7' ∷ 10 ∷ [])

refused : rename_fails ≢ wrote
refused e = cc

load-persist_group_seq_example :
    (load_group_seq (persist_group_seq (some old_file) 42 wrote) ≡ some 42)
    × (persist_group_seq (some old_file) 42 rename_fails ≡ some old_file)
load-persist_group_seq_example =
    load-persist_group_seq old_file 42 rename_fails (omega arith) refused

abbrev corrupt : StateFile
corrupt = some (b'4' ∷ b'x' ∷ [])

corrupt-HoldsNone : HoldsNone (some corrupt)
unfolding parse_i64 trim trim_start trim_end parse_digits
corrupt-HoldsNone = refl

load-persist_cursor_example :
    (load_initial_cursor (persist_cursor (some old_file) (pos 42) wrote) (some (pos 1)) ≡ pos 42)
    × (persist_cursor (some old_file) (negsuc 42) wrote ≡ some old_file)
    × (load_initial_cursor (some corrupt) (some (pos 5)) ≡ pos 5)
    × (load_initial_cursor (some corrupt) none ≡ negsuc 0)
load-persist_cursor_example =
    load-persist_cursor old_file 42 (some (pos 1)) wrote (some corrupt) (pos 5) (omega arith)
      corrupt-HoldsNone
