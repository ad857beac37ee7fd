-- ===== src/Text/Utf8.antt =====
-- Python's `text.encode("utf-8")`.
use epochdeck.Prelude.{
  ℕ, ◌+◌, ◌/◌, ◌%◌, ◌<◌, ◌≡◌, refl, ◌&&◌, Option, none, some, List, [], ◌∷◌, ◌++◌, ltb, lt→ltb, leb,
  if◌then◌else◌, All,
}

-- The bytes of one code point; a surrogate has none.
unfoldable pub utf8_char : ℕ → Option (List ℕ)
utf8_char c =
    if ltb c 0x80
    then some (c ∷ [])
    else if ltb c 0x800
    then some ((0xc0 + c / 64) ∷ (0x80 + c % 64) ∷ [])
    else if leb 0xd800 c && leb c 0xdfff
    then none
    else if ltb c 0x10000
    then some ((0xe0 + c / 4096) ∷ (0x80 + c / 64 % 64) ∷ (0x80 + c % 64) ∷ [])
    else some
        ((0xf0 + c / 262144) ∷ (0x80 + c / 4096 % 64) ∷ (0x80 + c / 64 % 64) ∷ (0x80 + c % 64) ∷ [])

unfoldable pub append_encoded : Option (List ℕ) → Option (List ℕ) → Option (List ℕ)
append_encoded none rest = none
append_encoded (some b) none = none
append_encoded (some b) (some bs) = some (b ++ bs)

-- `none` is the UnicodeEncodeError.
unfoldable pub utf8 : List ℕ → Option (List ℕ)
unfolding utf8_char append_encoded
utf8 [] = some []
utf8 (c ∷ cs) = append_encoded (utf8_char c) (utf8 cs)

-- ASCII text is its own encoding.
pub utf8-ascii : (t : List ℕ) → All (λ c. c < 128) t → utf8 t ≡ some t
unfolding utf8
utf8-ascii [] h = refl
utf8-ascii (c ∷ cs) h = rw (utf8-ascii cs h.1, lt→ltb c 0x80 h.0)
