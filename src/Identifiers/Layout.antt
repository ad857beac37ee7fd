-- ===== src/Identifiers/Layout.antt =====
-- The fields of the number of a UUID.
use epochdeck.Prelude.{
  ℕ, zero, suc, ◌+◌, ◌*◌, ◌/◌, ◌%◌, ◌^◌, ◌≤◌, ◌<◌, ◌≡◌, ◌∙◌, refl, ap, sym, max, arith, leb,
}
use native.Mathlib.Nat.{mul_assoc, pow-suc}
use Prim.Native.Nat.{bit_or, digits, bit_or-bitwise}
use epochdeck.Error.{ok, overflow_error, passes_then, not_raised, raise_if, ok_injective}
use epochdeck.Identifiers.{uuid7_value, uuid7}

abbrev or_digits : ℕ → ℕ → ℕ → ℕ
or_digits n a b = digits (λ b. b) max n a b

-- Rounds behind the last digit add nothing.
or_digits_enough : (n m a b : ℕ) → a ≤ n → a ≤ m → or_digits n a b ≡ or_digits m a b
or_digits_enough zero zero a b p q = refl
or_digits_enough zero (suc m) zero b p q = refl
or_digits_enough zero (suc m) (suc a) b p q = absurd (omega arith)
or_digits_enough (suc n) zero zero b p q = refl
or_digits_enough (suc n) zero (suc a) b p q = absurd (omega arith)
or_digits_enough (suc n) (suc m) zero b p q = refl
or_digits_enough (suc n) (suc m) (suc a) b p q =
    omega (arith, or_digits_enough n m (suc a / 2) (b / 2) (omega arith) (omega arith))

zero-bit_or : (b : ℕ) → bit_or 0 b ≡ b
zero-bit_or b = bit_or-bitwise 0 b

bit_or_step : (a b : ℕ) → bit_or a b ≡ bit_or (a / 2) (b / 2) * 2 + max (a % 2) (b % 2)
bit_or_step zero b = omega (arith, zero-bit_or b, zero-bit_or (b / 2))
bit_or_step (suc a) b = omega (
  arith,
  bit_or-bitwise (suc a) b,
  bit_or-bitwise (suc a / 2) (b / 2),
  or_digits_enough a (suc a / 2) (suc a / 2) (b / 2) (omega arith) (omega arith),
)

bit_or-zero_below : (n a : ℕ) → a ≤ n → bit_or a 0 ≡ a
bit_or-zero_below n zero h = zero-bit_or 0
bit_or-zero_below zero (suc a) h = absurd (omega arith)
bit_or-zero_below (suc n) (suc a) h =
    omega (arith, bit_or_step (suc a) 0, bit_or-zero_below n (suc a / 2) (omega arith))

bit_or_double : (q b s : ℕ) → s ≡ q * 2 → bit_or s b ≡ bit_or q (b / 2) * 2 + b % 2
bit_or_double q b s e =
    let half : s / 2 ≡ q = omega (arith, e) in
    bit_or_step s b ∙ ap (λ t. bit_or t (b / 2) * 2 + max (s % 2) (b % 2)) half ∙ omega (arith, e)

double_shift : (k a : ℕ) → a * 2 ^ suc k ≡ a * 2 ^ k * 2
double_shift k a = ap (λ w. a * w) (pow-suc 2 k) ∙ sym (mul_assoc a (2 ^ k) 2)

-- A number below the lowest digit of another is added.
bit_or-add : (k a b : ℕ) → b < 2 ^ k → bit_or (a * 2 ^ k) b ≡ a * 2 ^ k + b
bit_or-add zero a b h =
    let none_left : b ≡ 0 = omega (arith, h) in
    let once : a * 1 ≡ a = omega arith in
    (λ i. bit_or (once i) (none_left i)) ∙ bit_or-zero_below a a (omega arith) ∙ omega (arith, h)
bit_or-add (suc k) a b h =
    let double : 2 ^ suc k ≡ 2 ^ k * 2 = pow-suc 2 k in
    let ih = bit_or-add k a (b / 2) (omega (arith, h, double)) in
    bit_or_double (a * 2 ^ k) b (a * 2 ^ suc k) (double_shift k a)
    ∙ omega (arith, ih, double_shift k a)

bit_or-add_at : (k a b s : ℕ) → s ≡ a * 2 ^ k → b < 2 ^ k → bit_or s b ≡ s + b
bit_or-add_at k a b s e h = ap (λ t. bit_or t b) e ∙ bit_or-add k a b h ∙ omega (arith, e)

uuid7_value_lem :
    (t a b : ℕ)
    → a < 2 ^ 12
    → b < 2 ^ 62
    → uuid7_value t a b ≡ t * 2 ^ 80 + 7 * 2 ^ 76 + a * 2 ^ 64 + 2 * 2 ^ 62 + b
unfolding uuid7_value
uuid7_value_lem t a b small_a small_b =
    let s0 = t * 2 ^ 80 in
    let s1 = s0 + 7 * 2 ^ 76 in
    let s2 = s1 + a * 2 ^ 64 in
    let s3 = s2 + 2 * 2 ^ 62 in
    ap (λ s. bit_or (bit_or (bit_or s (a * 2 ^ 64)) (2 * 2 ^ 62)) b)
      (bit_or-add_at 80 t (7 * 2 ^ 76) s0 refl (omega arith))
    ∙ ap (λ s. bit_or (bit_or s (2 * 2 ^ 62)) b)
        (bit_or-add_at 76 (t * 16 + 7) (a * 2 ^ 64) s1 (omega arith) (omega arith))
    ∙ ap (λ s. bit_or s b)
        (bit_or-add_at 64 ((t * 16 + 7) * 4096 + a) (2 * 2 ^ 62) s2 (omega arith) (omega arith))
    ∙ bit_or-add_at 62 (((t * 16 + 7) * 4096 + a) * 4 + 2) b s3 (omega arith) small_b

uuid7_lem :
    (time a b v : ℕ)
    → uuid7 time a b ≡ ok v
    → (time / 1_000_000 < 2 ^ 48) × (uuid7_value (time / 1_000_000) a b ≡ v)
unfolding uuid7
uuid7_lem time a b v h =
    let (early, made) =
      passes_then (raise_if (leb (2 ^ 48) (time / 1_000_000)) overflow_error) _ h in
    (ground (arith, not_raised _ _ early), ok_injective (uuid7_value (time / 1_000_000) a b) v made)

-- With 12 and 62 random bits, the number that `uuid7` makes has 128 bits: the milliseconds of the clock in
-- the first 48, then the version 7, and the variant 2 behind the first random bits.
pub uuid7_layout :
    (time a b v : ℕ)
    → a < 2 ^ 12
    → b < 2 ^ 62
    → uuid7 time a b ≡ ok v
    → (v < 2 ^ 128) × (v / 2 ^ 80 ≡ time / 1_000_000) × (v / 2 ^ 76 % 16 ≡ 7) × (v / 2 ^ 62 % 4 ≡ 2)
uuid7_layout time a b v small_a small_b h =
    let (early, made) = uuid7_lem time a b v h in
    let sum = uuid7_value_lem (time / 1_000_000) a b small_a small_b in
    (
      omega (arith, early, made, sum, small_a, small_b),
      omega (arith, made, sum, small_a, small_b),
      omega (arith, made, sum, small_a, small_b),
      omega (arith, made, sum, small_a, small_b),
    )
