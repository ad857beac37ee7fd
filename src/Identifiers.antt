-- ===== src/Identifiers.antt =====
-- python/src/epochdeck/_ids.py: the number behind a version 7 UUID. The clock and the random bits are
-- arguments, and the text of the number is left to the uuid module.
pub mod Layout
use epochdeck.Prelude.{ℕ, ◌+◌, ◌*◌, ◌/◌, ◌^◌, leb}
use Prim.Native.Nat.{bit_or}
use epochdeck.Error.{Result, ok, err, overflow_error, raise_if, ◌>>=◌, ◌>>◌}

-- `|=` of the five fields.
unfoldable pub uuid7_value : ℕ → ℕ → ℕ → ℕ
uuid7_value timestamp_ms random_a random_b =
    bit_or
      (bit_or (bit_or (bit_or (timestamp_ms * 2 ^ 80) (7 * 2 ^ 76)) (random_a * 2 ^ 64))
        (2 * 2 ^ 62))
      random_b

-- `uuid7`, from `time.time_ns()` and two calls of `secrets.randbits`.
unfoldable pub uuid7 : ℕ → ℕ → ℕ → Result ℕ
unfolding uuid7_value
uuid7 time_ns random_a random_b = do
  raise_if (leb (2 ^ 48) (time_ns / 1_000_000)) overflow_error
  ok (uuid7_value (time_ns / 1_000_000) random_a random_b)
