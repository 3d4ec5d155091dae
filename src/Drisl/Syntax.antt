-- ===== src/Drisl/Syntax.antt =====
-- The documents that DRISL allows and their one encoding, stated without offsets or errors: the
-- rules of https://dasl.ing/drisl.html that drisl.rs lists in its header.
use atmoq.Common.{
  ℕ, zero, suc, ◌+◌, ◌*◌, ◌/◌, ◌%◌, ◌^◌, ◌<◌, max, ◌≡◌, Bool, true, false, Option, none, some, [],
  ◌∷◌, ◌++◌, if◌then◌else◌, ltb, Bytes, IsByte, length, All,
}
use atmoq.Drisl.{less, cmp, is_nan, is_infinite}
use atmoq.Drisl.Utf8.{is_utf8}

-- `negint n` is the number -1 - n, `cid` a link without its 0x00 prefix, `float` the 64 bits.
mutual
  pub data Value : Type 0 where
    uint negint : ℕ → Value
    byte_string text cid : Bytes → Value
    array : Values → Value
    object : Entries → Value
    boolean : Bool → Value
    null : Value
    float : ℕ → Value

  pub data Values : Type 0 where
    nil : Values
    cons : Value → Values → Values

  pub data Entries : Type 0 where
    end : Entries
    entry : Bytes → Value → Entries → Entries

-- `n` in `w` bytes, the highest first.
unfoldable pub big_endian : ℕ → ℕ → Bytes
big_endian zero n = []
big_endian (suc w) n = big_endian w (n / 256) ++ (n % 256 ∷ [])

-- The initial byte and the shortest argument.
unfoldable pub head : ℕ → ℕ → Bytes
head major n =
    if ltb n 24
    then (major * 32 + n) ∷ []
    else if ltb n 256
    then (major * 32 + 24) ∷ big_endian 1 n
    else if ltb n 65536
    then (major * 32 + 25) ∷ big_endian 2 n
    else if ltb n (2 ^ 32)
    then (major * 32 + 26) ∷ big_endian 4 n
    else (major * 32 + 27) ∷ big_endian 8 n

abbrev pub count_items : Values → ℕ
count_items nil = 0
count_items (cons v vs) = suc (count_items vs)

abbrev pub count_entries : Entries → ℕ
count_entries end = 0
count_entries (entry k v es) = suc (count_entries es)

abbrev pub encode_text : Bytes → Bytes
encode_text s = head 3 (length s) ++ s

abbrev pub encode_bytes : Bytes → Bytes
encode_bytes s = head 2 (length s) ++ s

unfoldable mutual
  pub encode : Value → Bytes
  encode (uint n) = head 0 n
  encode (negint n) = head 1 n
  encode (byte_string s) = encode_bytes s
  encode (text s) = encode_text s
  encode (array vs) = head 4 (count_items vs) ++ encode_items vs
  encode (object es) = head 5 (count_entries es) ++ encode_entries es
  encode (cid s) = head 6 42 ++ encode_bytes (0 ∷ s)
  encode (boolean false) = 0xf4 ∷ []
  encode (boolean true) = 0xf5 ∷ []
  encode null = 0xf6 ∷ []
  encode (float bits) = 0xfb ∷ big_endian 8 bits

  pub encode_items : Values → Bytes
  encode_items nil = []
  encode_items (cons v vs) = encode v ++ encode_items vs

  pub encode_entries : Entries → Bytes
  encode_entries end = []
  encode_entries (entry k v es) = encode_text k ++ (encode v ++ encode_entries es)

-- How many nested calls of the validator a document takes.
unfoldable mutual
  pub levels : Value → ℕ
  levels (uint n) = 1
  levels (negint n) = 1
  levels (byte_string s) = 1
  levels (text s) = 1
  levels (array vs) = suc (levels_items vs)
  levels (object es) = suc (levels_entries es)
  levels (cid s) = 2
  levels (boolean b) = 1
  levels null = 1
  levels (float bits) = 1

  pub levels_items : Values → ℕ
  levels_items nil = 0
  levels_items (cons v vs) = max (levels v) (levels_items vs)

  pub levels_entries : Entries → ℕ
  levels_entries end = 0
  levels_entries (entry k v es) = max 1 (max (levels v) (levels_entries es))

abbrev pub IsText : Bytes → Type 0
IsText s = All IsByte s × (length s < 2 ^ 64) × (is_utf8 s ≡ true)

-- The encoded keys rise strictly, from the key `prev` on.
abbrev pub Ascends : Option Bytes → Bytes → Type 0
Ascends none k = Unit
Ascends (some prev) k = cmp (encode_text prev) (encode_text k) ≡ less

-- What the encoding can express and DRISL allows.
unfoldable mutual
  pub IsValid : Value → Type 0
  IsValid (uint n) = n < 2 ^ 64
  IsValid (negint n) = n < 2 ^ 64
  IsValid (byte_string s) = All IsByte s × (length s < 2 ^ 64)
  IsValid (text s) = IsText s
  IsValid (array vs) = (count_items vs < 2 ^ 64) × AreValid vs
  IsValid (object es) = (count_entries es < 2 ^ 64) × AreEntries none es
  IsValid (cid s) = All IsByte s × (suc (length s) < 2 ^ 64)
  IsValid (boolean b) = Unit
  IsValid null = Unit
  IsValid (float bits) = (bits < 2 ^ 64) × (is_nan bits ≡ false) × (is_infinite bits ≡ false)

  pub AreValid : Values → Type 0
  AreValid nil = Unit
  AreValid (cons v vs) = IsValid v × AreValid vs

  pub AreEntries : Option Bytes → Entries → Type 0
  AreEntries prev end = Unit
  AreEntries prev (entry k v es) = IsText k × Ascends prev k × IsValid v × AreEntries (some k) es
