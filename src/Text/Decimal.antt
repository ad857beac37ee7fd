-- ===== src/Text/Decimal.antt =====
-- Python's `str(n)` of a nonnegative integer, and `int(text)` of ASCII text.
use epochdeck.Prelude.{
  ℕ, zero, suc, ◌+◌, ◌-◌, ◌*◌, ◌/◌, ◌%◌, ◌^◌, ◌≤◌, ◌<◌, ◌≡◌, refl, Bool, true, false, ◌&&◌, ◌||◌,
  Option, none, some, List, [], ◌∷◌, ◌++◌, arith, ltb, lt→ltb, leb, ◌==◌, if◌then◌else◌, All,
  All-append, Bool-cases, length, length-append, append_assoc, append-nil, ◌∙◌, ap, subst, inl, inr,
}
use native.Mathlib.Nat.{pow-suc}
use epochdeck.Prelude.Int.{ℤ, pos, negsuc}

decimal_fuel : ℕ → ℕ → List ℕ
decimal_fuel zero n = []
decimal_fuel (suc f) n =
    let more = decimal_fuel f (n / 10) ++ (48 + n % 10) ∷ [] in
    if ltb n 10 then (48 + n) ∷ [] else more

-- `str(n)`; `n + 1` rounds are enough, since each divides by ten.
unfoldable pub decimal : ℕ → List ℕ
unfolding decimal_fuel
decimal n = decimal_fuel (suc n) n

abbrev is_digit : ℕ → Bool
is_digit c = leb 48 c && leb c 57

-- The white space that `int` skips in ASCII text.
abbrev is_space : ℕ → Bool
is_space c = (leb 9 c && leb c 13) || (c == 32)

all_space : List ℕ → Bool
all_space [] = true
all_space (c ∷ cs) = is_space c && all_space cs

-- The digits of a literal, one underscore allowed between two digits, white space after them.
digits_value : Bool → ℕ → List ℕ → Option ℕ
digits_value after acc [] = if after then some acc else none
digits_value after acc (c ∷ cs) = elim (is_digit c) [
  | true ↦ digits_value true (acc * 10 + (c - 48)) cs
  | false ↦ elim (after && c == b'_') [
    | true ↦ digits_value false acc cs
    | false ↦ if after && is_space c && all_space cs then some acc else none
  ]
]

negated : ℕ → ℤ
negated zero = pos 0
negated (suc n) = negsuc n

signed_value : List ℕ → Option ℤ
signed_value [] = none
signed_value (c ∷ cs) =
    if c == b'-'
    then elim (digits_value false 0 cs) [ none ↦ none | some n ↦ some (negated n) ]
    else if c == b'+'
    then elim (digits_value false 0 cs) [ none ↦ none | some n ↦ some (pos n) ]
    else elim (digits_value false 0 (c ∷ cs)) [ none ↦ none | some n ↦ some (pos n) ]

-- `int(text)` in base ten; `none` is its ValueError.
unfoldable pub int_text : List ℕ → Option ℤ
unfolding signed_value digits_value negated all_space
int_text [] = none
int_text (c ∷ cs) = let rest = int_text cs in if is_space c then rest else signed_value (c ∷ cs)

abbrev IsDigit : ℕ → Type 0
IsDigit c = (48 ≤ c) × (c ≤ 57)

decimal_fuel-IsDigit : (f n : ℕ) → All IsDigit (decimal_fuel f n)
unfolding decimal_fuel
decimal_fuel-IsDigit zero n = tt
decimal_fuel-IsDigit (suc f) n = elim (Bool-cases (ltb n 10)) [
  | inl small ↦ rw small ((ground arith, ground arith), tt)
  | inr big ↦ rw big (
      All-append IsDigit (decimal_fuel f (n / 10)) ((48 + n % 10) ∷ [])
        (decimal_fuel-IsDigit f (n / 10)) ((omega arith, omega arith), tt))
]

pub decimal-IsDigit : (n : ℕ) → All (λ c. (48 ≤ c) × (c ≤ 57)) (decimal n)
unfolding decimal
decimal-IsDigit n = decimal_fuel-IsDigit (suc n) n

digits_value_digit :
    (b : Bool) (acc c : ℕ) (cs : List ℕ)
    → IsDigit c
    → digits_value b acc (c ∷ cs) ≡ digits_value true (acc * 10 + (c - 48)) cs
unfolding digits_value
digits_value_digit b acc c cs h = ground arith

-- The digits of a number are read as that number, and the reading goes on behind them.
digits_value-decimal_fuel :
    (f n : ℕ) (tail : List ℕ) (b : Bool)
    → n < f
    → digits_value b 0 (decimal_fuel f n ++ tail) ≡ digits_value true n tail
unfolding decimal_fuel
digits_value-decimal_fuel zero n tail b h = absurd (omega arith)
digits_value-decimal_fuel (suc f) n tail b h = elim (Bool-cases (ltb n 10)) [
  | inl small ↦ rw small (
      digits_value_digit b 0 (48 + n) tail (ground arith)
      ∙ ap (λ k. digits_value true k tail) (omega arith))
  | inr big ↦
      rw (big, append_assoc)
        (digits_value-decimal_fuel f (n / 10) ((48 + n % 10) ∷ tail) b (ground arith)
          ∙ digits_value_digit true (n / 10) (48 + n % 10) tail (omega arith)
          ∙ ap (λ k. digits_value true k tail) (omega arith))
]

length-decimal_fuel : (j f n : ℕ) → n < 10 ^ suc j → length (decimal_fuel f n) ≤ suc j
unfolding decimal_fuel
length-decimal_fuel j zero n h = omega arith
length-decimal_fuel zero (suc f) n h = rw (lt→ltb n 10 h) (omega arith)
length-decimal_fuel (suc j) (suc f) n h = elim (Bool-cases (ltb n 10)) [
  | inl small ↦ rw small (omega arith)
  | inr big ↦ rw big (
      omega (
        arith,
        length-append {0} (decimal_fuel f (n / 10)) ((48 + n % 10) ∷ []),
        length-decimal_fuel j f (n / 10) (omega (arith, pow-suc 10 (suc j))),
      ))
]

-- A number below `10 ^ j` has at most `j` digits.
pub length-decimal : (n j : ℕ) → n < 10 ^ suc j → length (decimal n) ≤ suc j
unfolding decimal
length-decimal n j h = length-decimal_fuel j (suc n) n h

signed_value_digits :
    (c : ℕ) (cs : List ℕ)
    → IsDigit c
    → signed_value (c ∷ cs) ≡ elim (digits_value false 0 (c ∷ cs)) as (λ _. Option ℤ) [
      | none ↦ none
      | some n ↦ some (pos n)
    ]
unfolding signed_value
signed_value_digits c cs h = ground arith

int_text_digits :
    (l : List ℕ) (n : ℕ)
    → All IsDigit l
    → digits_value false 0 l ≡ some n
    → int_text l ≡ some (pos n)
unfolding int_text
int_text_digits [] n h e = ground arith
int_text_digits (c ∷ cs) n h e = ground arith

-- `int(str(n))` is `n`.
pub int_text-decimal : (n : ℕ) → int_text (decimal n) ≡ some (pos n)
unfolding decimal
int_text-decimal n = int_text_digits (decimal_fuel (suc n) n) n (decimal_fuel-IsDigit (suc n) n) (
    subst (λ l. digits_value false 0 l ≡ some n) (append-nil (decimal_fuel (suc n) n))
      (digits_value-decimal_fuel (suc n) n [] false (omega arith) ∙ unfold digits_value in refl))

int_text_quote : int_text (39 ∷ []) ≡ none
unfolding int_text
int_text_quote = refl

int_text_spaces : int_text (32 ∷ 45 ∷ 49 ∷ 95 ∷ 50 ∷ 10 ∷ []) ≡ some (negsuc 11)
unfolding int_text
int_text_spaces = refl
