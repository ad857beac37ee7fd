-- ===== src/History.antt =====
-- The history of a run as the SDK reads it: `_validate_history_request` and `_validate_history_response`
-- of python/src/epochdeck/client.py. The request itself is an argument.
pub mod Paging
pub mod Columns
pub mod Rows
pub mod Scan
use epochdeck.Prelude.{
  ℕ, zero, suc, ◌+◌, ◌*◌, ◌-◌, ◌^◌, ◌≡◌, Bool, true, false, not, ◌&&◌, ◌||◌, Option, none, some,
  List, [], ◌∷◌, ◌++◌, ltb, leb, ◌==◌, if◌then◌else◌, length,
}
use epochdeck.Prelude.Int.{ℤ, pos}
use epochdeck.Text.{Text, codes, text_eq}
use epochdeck.Error.{
  Error, delivery_protocol_error, value_error, overflow_error, out_of_rounds, Result, ok, err,
  ◌>>=◌, ◌>>◌, raise_if, or_raise,
}
use epochdeck.Json.{
  Value, null, bool, int, float, str, arr, obj, Items, no_items, item, Fields, no_fields, field,
  get, update, is_finite,
}
use epochdeck.Platform.{Platform}
use epochdeck.Protocol.{require_text, contains, is_empty}
use epochdeck.Normalization.{max_safe_integer}

-- The arguments of `EpochDeckClient.history`; `none` is `None`.
pub record HistoryRequest : Type 0 where
  pub keys : List Text
  pub after : Option Value
  pub limit : Option Value
  pub max_points : Option Value

unfoldable pub any_empty : List Text → Bool
any_empty [] = false
any_empty (k ∷ ks) = is_empty k || any_empty ks

unfoldable pub among : Text → List Text → Bool
among k [] = false
among k (j ∷ js) = text_eq k j || among k js

-- `len(set(keys)) != len(keys)`
unfoldable pub repeats_key : List Text → Bool
unfolding among
repeats_key [] = false
repeats_key (k ∷ ks) = among k ks || repeats_key ks

-- An integer in a range, a `bool` excluded.
abbrev integer_between : ℕ → ℕ → Value → Bool
integer_between low high (int (pos n)) = leb low n && leb n high
integer_between low high v = false

abbrev outside : ℕ → ℕ → Option Value → Bool
outside low high none = false
outside low high (some v) = not (integer_between low high v)

abbrev both_given : Option Value → Option Value → Bool
both_given (some v) (some w) = true
both_given _ _ = false

-- The check of `max_points`, and that of `limit` when there is none.
abbrev check_size : ℕ → Option Value → Option Value → Result (Unit {0})
check_size n limit (some max_points) =
    raise_if (not (integer_between (n * 2) 5_000 max_points)) value_error
check_size n (some limit) none = raise_if (not (integer_between 1 5_000 limit)) value_error
check_size n none none = ok tt

-- `_validate_history_request`
unfoldable pub validate_history_request : HistoryRequest → Result (Unit {0})
unfolding any_empty repeats_key
validate_history_request r = do
  raise_if (ltb (length r.keys) 1 || ltb 32 (length r.keys) || any_empty r.keys) value_error
  raise_if (repeats_key r.keys) value_error
  raise_if (both_given r.limit r.max_points) value_error
  raise_if (outside 0 max_safe_integer r.after) value_error
  check_size (length r.keys) r.limit r.max_points

abbrev pub list_of : Items → List Value
list_of no_items = []
list_of (item v xs) = v ∷ list_of xs

abbrev pub list_column : Option Value → Result (List Value)
list_column (some (arr xs)) = ok (list_of xs)
list_column v = err delivery_protocol_error

abbrev pub safe_natural : Value → Result ℕ
safe_natural (int (pos n)) = if leb n max_safe_integer then ok n else err delivery_protocol_error
safe_natural v = err delivery_protocol_error

unfoldable pub naturals : List Value → Result (List ℕ)
naturals [] = ok []
naturals (v ∷ vs) = do n ← safe_natural v; ns ← naturals vs; ok (n ∷ ns)

-- `_history_integer_column`
unfoldable pub history_integer_column : Fields → Text → Result (List ℕ)
unfolding naturals
history_integer_column response name = list_column (get name response) >>= naturals

-- `any(current <= previous for previous, current in pairwise(sequence))`
unfoldable pub any_step_back : List ℕ → Bool
any_step_back [] = false
any_step_back (n ∷ []) = false
any_step_back (n ∷ m ∷ ns) = leb m n || any_step_back (m ∷ ns)

-- `sequence and sequence[0] <= after`
abbrev pub starts_before : Option ℕ → List ℕ → Bool
starts_before (some after) (n ∷ ns) = leb n after
starts_before after ns = false

-- `set(metrics) != set(keys)`
unfoldable pub keys_among : List Text → Fields → Bool
unfolding among
keys_among keys no_fields = true
keys_among keys (field k v fs) = among k keys && keys_among keys fs

abbrev has_key : Fields → Text → Bool
has_key fs k = elim (get k fs) [ none ↦ false | some v ↦ true ]

unfoldable pub has_keys : List Text → Fields → Bool
has_keys [] fs = true
has_keys (k ∷ ks) fs = has_key fs k && has_keys ks fs

module _ (p : Platform) where
  -- One value of a metric column.
  abbrev metric_value : Value → Result (Unit {0})
  metric_value null = ok tt
  metric_value (int n) = elim (p.float_of_int n) [
    | none ↦ err overflow_error
    | some x ↦ raise_if (not (is_finite x)) delivery_protocol_error
  ]
  metric_value (float x) = raise_if (not (is_finite x)) delivery_protocol_error
  metric_value v = err delivery_protocol_error

  unfoldable pub metric_values : List Value → Result (Unit {0})
  metric_values [] = ok tt
  metric_values (v ∷ vs) = metric_value v >> metric_values vs

  unfoldable pub metric_columns : Fields → ℕ → List Text → Result (Unit {0})
  unfolding metric_values
  metric_columns metrics row_count [] = ok tt
  metric_columns metrics row_count (k ∷ ks) = do
    values ← list_column (get k metrics)
    raise_if (not (length values == row_count)) delivery_protocol_error
    metric_values values
    metric_columns metrics row_count ks

  abbrev pub metrics_object : Option Value → Result Fields
  metrics_object (some (obj metrics)) = ok metrics
  metrics_object v = err delivery_protocol_error

  abbrev sampling : Option Value → Bool → Bool
  sampling (some (bool true)) requested = requested
  sampling (some (bool false)) requested = not requested
  sampling v requested = false

  -- `_optional_history_position`, whose value is not used.
  abbrev pub optional_position : Option Value → Result (Unit {0})
  optional_position none = ok tt
  optional_position (some null) = ok tt
  optional_position (some v) =
      raise_if (not (integer_between 0 max_safe_integer v)) delivery_protocol_error

  abbrev pub last_of : List ℕ → Option ℕ
  last_of [] = none
  last_of (n ∷ []) = some n
  last_of (n ∷ m ∷ ns) = last_of (m ∷ ns)

  abbrev pub is_last : ℕ → Option ℕ → Bool
  is_last n none = false
  is_last n (some m) = n == m

  abbrev pub stays : Option ℕ → ℕ → Bool
  stays none n = false
  stays (some after) n = leb n after

  abbrev pub cursor_number : Value → Result ℕ
  cursor_number (int (pos n)) = if leb n max_safe_integer then ok n else err delivery_protocol_error
  cursor_number v = err delivery_protocol_error

  -- The checks of `next_after`.
  abbrev pub check_cursor : Option ℕ → Bool → List ℕ → Option Value → Result (Unit {0})
  check_cursor after sampled sequence none = ok tt
  check_cursor after sampled sequence (some null) = ok tt
  check_cursor after sampled sequence (some v) = do
    n ← cursor_number v
    raise_if (sampled || not (is_last n (last_of sequence))) delivery_protocol_error
    raise_if (stays after n) delivery_protocol_error

  -- `_validate_history_response`
  unfoldable pub validate_history_response :
      Text → List Text → Option ℕ → Bool → Fields → Result (Unit {0})
  unfolding history_integer_column any_step_back keys_among has_keys metric_columns
  validate_history_response run_id keys after sampled_request response = do
    response_run ← require_text response (codes "run_id")
    raise_if (not (text_eq response_run run_id)) delivery_protocol_error
    sequence ← history_integer_column response (codes "sequence")
    step ← history_integer_column response (codes "step")
    timestamp_ms ← history_integer_column response (codes "timestamp_ms")
    raise_if (not (length step == length sequence) || not (length timestamp_ms == length sequence))
        delivery_protocol_error
    raise_if (any_step_back sequence) delivery_protocol_error
    raise_if (starts_before after sequence) delivery_protocol_error
    metrics ← metrics_object (get (codes "metrics") response)
    raise_if (not (keys_among keys metrics && has_keys keys metrics)) delivery_protocol_error
    metric_columns metrics (length sequence) keys
    raise_if (not (sampling (get (codes "sampled") response) sampled_request))
        delivery_protocol_error
    optional_position (get (codes "source_points") response)
    optional_position (get (codes "source_last_sequence") response)
    check_cursor after sampled_request sequence (get (codes "next_after") response)

  abbrev pub position : Option Value → Option ℕ
  position (some (int (pos n))) = some n
  position v = none

  abbrev pub is_given : Option Value → Bool
  is_given none = false
  is_given (some v) = true

  -- `EpochDeckClient.history`; the request is an argument.
  unfoldable pub history : Text → (HistoryRequest → Result Fields) → HistoryRequest → Result Fields
  history run_id request r = do
    validate_history_request r
    response ← request r
    validate_history_response run_id r.keys (position r.after) (is_given r.max_points) response
    ok response
