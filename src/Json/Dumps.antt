-- ===== src/Json/Dumps.antt =====
-- `json.dumps(value, separators=(",", ":"), sort_keys=True)`, with and without `ensure_ascii`.
-- `float.__repr__`, the shortest decimal that reads back, is the argument `float_repr`.
pub mod Printable
use epochdeck.Prelude.{
  ℕ, zero, suc, ◌+◌, ◌-◌, ◌*◌, ◌/◌, ◌%◌, Bool, true, false, ◌&&◌, ◌||◌, List, [], ◌∷◌, ◌++◌, ltb,
  leb, ◌==◌, if◌then◌else◌,
}
use epochdeck.Prelude.Int.{ℤ, pos, negsuc}
use epochdeck.Text.{Text, codes, text_lt}
use epochdeck.Text.Decimal.{decimal}
use epochdeck.Json.{
  Value, null, bool, int, float, str, arr, obj, Items, no_items, item, Fields, no_fields, field,
}

-- A hexadecimal digit, lower case.
hex : ℕ → ℕ
hex d = if ltb d 10 then 48 + d else 87 + d

-- `\uXXXX`.
unicode_escape : ℕ → Text
unicode_escape c =
    b'\\' ∷ b'u' ∷ hex (c / 4096 % 16) ∷ hex (c / 256 % 16) ∷ hex (c / 16 % 16) ∷ hex (c % 16) ∷ []

-- The escape of a character outside the printable ASCII range.
long_escape : ℕ → Text
long_escape c =
    if ltb c 0x10000
    then unicode_escape c
    else unicode_escape (0xd800 + (c - 0x10000) / 1024)
      ++ unicode_escape (0xdc00 + (c - 0x10000) % 1024)

escape : Bool → ℕ → Text
escape ascii c =
    if c == b'"'
    then b'\\' ∷ b'"' ∷ []
    else if c == b'\\'
    then b'\\' ∷ b'\\' ∷ []
    else if c == 10
    then b'\\' ∷ b'n' ∷ []
    else if c == 13
    then b'\\' ∷ b'r' ∷ []
    else if c == 9
    then b'\\' ∷ b't' ∷ []
    else if c == 12
    then b'\\' ∷ b'f' ∷ []
    else if c == 8
    then b'\\' ∷ b'b' ∷ []
    else if ltb c 32 || (ascii && ltb 126 c)
    then long_escape c
    else c ∷ []

escape_all : Bool → Text → Text
escape_all ascii [] = []
escape_all ascii (c ∷ cs) = escape ascii c ++ escape_all ascii cs

-- A string literal.
unfoldable pub quote : Bool → Text → Text
unfolding escape_all escape long_escape unicode_escape hex
quote ascii s = b'"' ∷ (escape_all ascii s ++ b'"' ∷ [])

unfoldable pub integer : ℤ → Text
unfolding decimal
integer (pos n) = decimal n
integer (negsuc n) = b'-' ∷ decimal (suc n)

-- `sorted(d.items())` by key; the keys of a `dict` are all different.
unfoldable pub insert_member : Text × Text → List (Text × Text) → List (Text × Text)
insert_member m [] = m ∷ []
insert_member m (n ∷ ns) = if text_lt m.0 n.0 then m ∷ n ∷ ns else n ∷ insert_member m ns

unfoldable pub sort_members : List (Text × Text) → List (Text × Text)
sort_members [] = []
sort_members (m ∷ ms) = insert_member m (sort_members ms)

-- The parts with a comma between two of them.
unfoldable pub comma_separated : List Text → Text
comma_separated [] = []
comma_separated (t ∷ []) = t
comma_separated (t ∷ u ∷ ts) = t ++ (b',' ∷ comma_separated (u ∷ ts))

unfoldable pub members : Bool → List (Text × Text) → List Text
members ascii [] = []
members ascii ((k, t) ∷ ms) = (quote ascii k ++ (b':' ∷ t)) ∷ members ascii ms

unfoldable pub object_text : Bool → List (Text × Text) → Text
unfolding members sort_members insert_member comma_separated quote
object_text ascii ms = b'{' ∷ (comma_separated (members ascii (sort_members ms)) ++ b'}' ∷ [])

unfoldable pub array_text : List Text → Text
unfolding comma_separated
array_text ts = b'[' ∷ (comma_separated ts ++ b']' ∷ [])

unfoldable mutual
  unfolding quote integer object_text array_text

  pub dumps : (ℕ → Text) → Bool → Value → Text
  dumps float_repr ascii null = codes "null"
  dumps float_repr ascii (bool true) = codes "true"
  dumps float_repr ascii (bool false) = codes "false"
  dumps float_repr ascii (int n) = integer n
  dumps float_repr ascii (float x) = float_repr x
  dumps float_repr ascii (str s) = quote ascii s
  dumps float_repr ascii (arr xs) = array_text (dumps_items float_repr ascii xs)
  dumps float_repr ascii (obj fs) = object_text ascii (dumps_fields float_repr ascii fs)

  pub dumps_items : (ℕ → Text) → Bool → Items → List Text
  dumps_items float_repr ascii no_items = []
  dumps_items float_repr ascii (item v xs) =
      dumps float_repr ascii v ∷ dumps_items float_repr ascii xs

  pub dumps_fields : (ℕ → Text) → Bool → Fields → List (Text × Text)
  dumps_fields float_repr ascii no_fields = []
  dumps_fields float_repr ascii (field k v fs) =
      (k, dumps float_repr ascii v) ∷ dumps_fields float_repr ascii fs
