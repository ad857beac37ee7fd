-- ===== src/Text/Width.antt =====
-- How many bytes a text takes in UTF-8.
use epochdeck.Prelude.{
  ℕ, ◌+◌, ◌≡◌, refl, ap, Option, none, some, [], ◌∷◌, ◌++◌, arith, ltb, length, length-append,
  if◌then◌else◌,
}
use epochdeck.Text.{Text, Bytes}
use epochdeck.Text.Utf8.{utf8, utf8_char, append_encoded}

abbrev pub width : ℕ → ℕ
width c = if ltb c 0x80 then 1 else if ltb c 0x800 then 2 else if ltb c 0x10000 then 3 else 4

unfoldable pub byte_length : Text → ℕ
byte_length [] = 0
byte_length (c ∷ cs) = width c + byte_length cs

pub byte_length-append : (s t : Text) → byte_length (s ++ t) ≡ byte_length s + byte_length t
unfolding byte_length
byte_length-append [] t = omega arith
byte_length-append (c ∷ s) t = omega (arith, byte_length-append s t)

abbrev encoded_length : Option Bytes → ℕ
encoded_length none = 0
encoded_length (some b) = length b

length-utf8_char : (c : ℕ) (b : Bytes) → utf8_char c ≡ some b → length b ≡ width c
unfolding utf8_char
length-utf8_char c b h = ground (arith, ap encoded_length h)

length-append_encoded :
    (o r : Option Bytes) (b : Bytes)
    → append_encoded o r ≡ some b
    → (x : Bytes) × (y : Bytes) × (o ≡ some x) × (r ≡ some y) × (length b ≡ length x + length y)
unfolding append_encoded
length-append_encoded none r b h = ground arith
length-append_encoded (some x) none b h = ground arith
length-append_encoded (some x) (some y) b h =
    (x, y, refl, refl, omega (arith, ap encoded_length h, length-append {0} x y))

pub length-utf8 : (t : Text) (b : Bytes) → utf8 t ≡ some b → length b ≡ byte_length t
unfolding utf8 byte_length
length-utf8 [] b h = omega (arith, ap encoded_length h)
length-utf8 (c ∷ cs) b h =
    let (x, y, first, rest, total) = length-append_encoded (utf8_char c) (utf8 cs) b h in
    omega (arith, total, length-utf8_char c x first, length-utf8 cs y rest)
