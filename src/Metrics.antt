-- ===== src/Metrics.antt =====
-- python/src/epochdeck/_metrics.py and _summary.py: the checks of a metric point, and the bounded
-- preview of the latest values. A float is its 64-bit pattern, and a dict of floats is its entries in
-- insertion order. The keys of a JSON object are text, so the test for other keys is left out.
pub mod Bounds
pub mod Sorted
pub mod Preview
use epochdeck.Prelude.{
  ℕ, suc, ◌≡◌, Bool, true, false, not, ◌||◌, ◌&&◌, Option, none, some, List, [], ◌∷◌, ltb, ◌==◌,
  if◌then◌else◌, length, take,
}
use epochdeck.Prelude.Int.{pos}
use epochdeck.Text.{Text, codes, text_eq, text_lt}
use epochdeck.Text.Utf8.{utf8}
use epochdeck.Error.{value_error, type_error, Result, ok, err, ◌>>=◌, ◌>>◌, raise_if, or_raise}
use epochdeck.Json.{Value, bool, int, float, Fields, no_fields, field, is_finite}
use epochdeck.Platform.{Platform}
use epochdeck.Protocol.{has_control, is_empty}

abbrev pub Floats : Type 0
Floats = List (Text × ℕ)

abbrev pub max_metrics_per_point : ℕ
max_metrics_per_point = 256

abbrev pub max_metric_key_bytes : ℕ
max_metric_key_bytes = 256

-- `normalized[key] = number`
unfoldable pub set_float : Text → ℕ → Floats → Floats
set_float k x [] = (k, x) ∷ []
set_float k x ((j, y) ∷ m) = if text_eq k j then (j, x) ∷ m else (j, y) ∷ set_float k x m

-- The category Cc is the code points below 32 and those from 127 to 159.
unfoldable pub check_key : Text → Result (Unit {0})
check_key key = do
  encoded_key ← or_raise (utf8 key) value_error
  raise_if
      (is_empty encoded_key || ltb max_metric_key_bytes (length encoded_key) || has_control key)
      value_error

abbrev checked_number : Option ℕ → Result ℕ
checked_number none = err value_error
checked_number (some x) = if is_finite x then ok x else err value_error

module _ (p : Platform) where
  -- `float(value)` of a number, if it is finite.
  unfoldable pub number_of : Value → Result ℕ
  number_of (bool true) = checked_number (p.float_of_int (pos 1))
  number_of (bool false) = checked_number (p.float_of_int (pos 0))
  number_of (int n) = checked_number (p.float_of_int n)
  number_of (float x) = checked_number (some x)
  number_of v = err type_error

  unfoldable pub normalize_each : Fields → Floats → Result Floats
  normalize_each no_fields normalized = ok normalized
  normalize_each (field key value metrics) normalized = do
    check_key key
    number ← number_of value
    normalize_each metrics (set_float key number normalized)

  abbrev pub fields_length : Fields → ℕ
  fields_length no_fields = 0
  fields_length (field k v fs) = suc (fields_length fs)

  -- `normalize_metrics`
  unfoldable pub normalize_metrics : Fields → Result Floats
  normalize_metrics metrics = do
    raise_if (fields_length metrics == 0 || ltb max_metrics_per_point (fields_length metrics))
        value_error
    normalize_each metrics []

abbrev pub max_derived_summary_keys : ℕ
max_derived_summary_keys = 256

-- `key.startswith(prefix)`
unfoldable pub starts_with : Text → Text → Bool
starts_with [] key = true
starts_with (c ∷ prefix) [] = false
starts_with (c ∷ prefix) (d ∷ key) = c == d && starts_with prefix key

unfoldable pub add_metrics : Floats → Floats → Floats
add_metrics candidates [] = candidates
add_metrics candidates ((key, x) ∷ metrics) =
    add_metrics
      (if starts_with (codes "system/") key then candidates else set_float key x candidates) metrics

-- A key in its place among sorted keys.
unfoldable pub put : Text → ℕ → Floats → Floats
put k x [] = (k, x) ∷ []
put k x ((j, y) ∷ m) =
    let later = put k x m in
    if text_eq k j then (j, x) ∷ m else if text_lt k j then (k, x) ∷ (j, y) ∷ m else (j, y) ∷ later

-- The entries in the order of `sorted(candidates)`.
unfoldable pub sorted : Floats → Floats
unfolding put
sorted [] = []
sorted ((k, x) ∷ m) = put k x (sorted m)

-- `merge_metric_preview`
unfoldable pub merge_metric_preview : Floats → Floats → Bool → Floats × Bool
merge_metric_preview current metrics truncated =
    let candidates = add_metrics current metrics in
    (
      take max_derived_summary_keys (sorted candidates),
      truncated || ltb max_derived_summary_keys (length candidates),
    )

-- The preview while points are logged one after the other.
unfoldable pub preview_points : Floats → Bool → List Floats → Floats × Bool
preview_points summary truncated [] = (summary, truncated)
preview_points summary truncated (metrics ∷ points) =
    let (kept, cut) = merge_metric_preview summary metrics truncated in
    preview_points kept cut points
