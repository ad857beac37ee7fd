-- ===== src/Platform.antt =====
-- What the code takes from the Python runtime without implementing it: the decoder `json.loads`,
-- the text of a float, the conversion of an integer to a float, SHA-256, and `str()` of a container.
use epochdeck.Prelude.{ℕ, Bool, Option, All}
use epochdeck.Prelude.Int.{ℤ}
use epochdeck.Text.{Text, Bytes}
use epochdeck.Json.{Value}
use epochdeck.Json.Dumps.Printable.{IsPrintable}

pub record Platform : Type 0 where
  -- `json.loads(data)`; `none` is its UnicodeDecodeError or JSONDecodeError.
  pub json_loads : Bytes → Option Value
  -- `float.__repr__` of the float with this bit pattern.
  pub float_repr : ℕ → Text
  -- `float(n)`; `none` is its OverflowError.
  pub float_of_int : ℤ → Option ℕ
  -- `sha256(data).hexdigest()`.
  pub sha256_hexdigest : Bytes → Text
  -- `a == b` of two decoded JSON values.
  pub same_value : Value → Value → Bool
  -- `str(value)` of a list or a dict.
  pub container_str : Value → Text

-- The text of a float is printable ASCII.
pub record FloatsPrintable (p : Platform) : Type 0 where
  pub float_repr-IsPrintable : (x : ℕ) → All IsPrintable (p.float_repr x)
