-- ===== src/Run/Documents.antt =====
-- The documents and the arguments that `Run` checks: configs, summaries, metadata, steps and alerts.
use epochdeck.Prelude.{
  ℕ, ◌+◌, ◌*◌, Bool, true, false, not, ◌&&◌, ◌||◌, Option, none, some, [], ◌∷◌, ltb, leb, ◌==◌,
  if◌then◌else◌, length,
}
use epochdeck.Prelude.Int.{pos, negsuc}
use epochdeck.Text.{Text, codes, text_eq}
use epochdeck.Text.Utf8.{utf8}
use epochdeck.Error.{
  Error, delivery_error, value_error, type_error, invalid_metadata, Result, ok, err, ◌>>=◌, ◌>>◌,
  raise_if, or_raise,
}
use epochdeck.Json.{Value, null, bool, int, float, str, obj, Fields, no_fields, field, get, update}
use epochdeck.Platform.{Platform}
use epochdeck.Protocol.{has_control, is_empty}
use epochdeck.Metrics.{
  Floats, fields_length, normalize_metrics, max_derived_summary_keys, starts_with,
}
use epochdeck.Python.{Entries, Object, mapping, text, integer, of_fields, update_entries}
use epochdeck.Normalization.{Budget, normalize_json_object, max_safe_integer}

abbrev pub max_document_bytes : ℕ
max_document_bytes = 256 * 1024

abbrev document_budget : ℕ → Budget
document_budget maximum = record { maximum = maximum; maximum_depth = 64; maximum_nodes = 65_536 }

-- A dict of floats as JSON.
unfoldable pub floats_value : Floats → Fields
floats_value [] = no_fields
floats_value ((k, x) ∷ m) = field k (float x) (floats_value m)

-- `raise DeliveryError` in place of TypeError and ValueError.
abbrev as_delivery_error : {A : Type 0} → Result A → Result A
as_delivery_error (err type_error) = err (delivery_error invalid_metadata)
as_delivery_error (err value_error) = err (delivery_error invalid_metadata)
as_delivery_error r = r

unfoldable pub any_system_metric : Fields → Bool
unfolding starts_with
any_system_metric no_fields = false
any_system_metric (field k v fs) = starts_with (codes "system/") k || any_system_metric fs

-- `name in mapping`.
abbrev pub has : Text → Fields → Bool
has k fs = elim (get k fs) [ none ↦ false | some v ↦ true ]

-- An argument that must be an integer in a range, a `bool` excluded.
abbrev in_range : ℕ → ℕ → Error → Option Value → Result ℕ
in_range low high e (some (int (pos n))) = if leb low n && leb n high then ok n else err e
in_range low high e v = err e

module _ (p : Platform) where
  -- `_normalize_document`
  unfoldable pub normalize_document : Object → Result Fields
  normalize_document values = normalize_json_object p (document_budget max_document_bytes) values

  abbrev normalize_view : Object → Result Fields
  normalize_view values = normalize_json_object p (document_budget (2 * max_document_bytes)) values

  abbrev pub document : Fields → Object
  document fs = mapping (of_fields fs)

  -- `_collect_document_updates`
  unfoldable pub collect_document_updates : Option Object → Entries → Result Fields
  unfolding normalize_document update_entries
  collect_document_updates values kwargs = do
    combined ← elim values [ none ↦ ok no_fields | some v ↦ normalize_document v ]
    normalize_document (mapping (update_entries (of_fields combined) kwargs))

  -- `_summary_view`
  unfoldable pub summary_view : Floats → Fields → Result Fields
  unfolding floats_value
  summary_view metric_summary explicit_summary =
      normalize_view (document (update (floats_value metric_summary) explicit_summary))

  -- `_normalize_metric_summary`
  unfoldable pub normalize_metric_summary : Fields → Result Floats
  unfolding any_system_metric
  normalize_metric_summary no_fields = ok []
  normalize_metric_summary (field k v fs) = do
    raise_if (ltb max_derived_summary_keys (fields_length p (field k v fs))) value_error
    normalized ← normalize_metrics p (field k v fs)
    raise_if (any_system_metric (field k v fs)) value_error
    ok normalized

  abbrev summary_parts :
      Option Value → Option Value → Option Value → Result ((Fields × Fields) × Bool)
  summary_parts (some (obj explicit)) (some (obj metric)) (some (bool truncated)) =
      ok ((explicit, metric), truncated)
  summary_parts _ _ _ = err (delivery_error invalid_metadata)

  -- `_stored_summary_snapshot`: the explicit summary, the metric summary, whether it was cut, and the
  -- event offset as it is stored.
  unfoldable pub stored_summary_snapshot : Fields → Result (((Fields × Floats) × Bool) × Value)
  unfolding normalize_document normalize_metric_summary
  stored_summary_snapshot metadata = do
    parts ←
        summary_parts (get (codes "explicit_summary") metadata)
          (get (codes "metric_summary") metadata) (get (codes "summary_truncated") metadata)
    explicit ← as_delivery_error (normalize_document (document parts.0.0))
    metric ← as_delivery_error (normalize_metric_summary parts.0.1)
    raise_if (parts.1 && not (length metric == max_derived_summary_keys))
        (delivery_error invalid_metadata)
    ok (
      ((explicit, metric), parts.1),
      elim (get (codes "summary_event_offset") metadata) [ none ↦ null | some v ↦ v ],
    )

  abbrev merged_part : Option Value → Result Fields
  merged_part (some (obj merged)) = ok merged
  merged_part v = err (delivery_error invalid_metadata)

  -- `_server_summary_components`
  unfoldable pub server_summary_components : Fields → Result ((Fields × Floats) × Bool)
  unfolding normalize_document normalize_metric_summary summary_view
  server_summary_components run = do
    parts ←
        summary_parts (get (codes "explicit_summary") run) (get (codes "metric_summary") run)
          (get (codes "summary_truncated") run)
    merged ← merged_part (get (codes "summary") run)
    explicit ← as_delivery_error (normalize_document (document parts.0.0))
    metric ← as_delivery_error (normalize_metric_summary parts.0.1)
    normalized_merged ← as_delivery_error (normalize_view (document merged))
    raise_if (parts.1 && not (length metric == max_derived_summary_keys))
        (delivery_error invalid_metadata)
    view ← summary_view metric explicit
    raise_if (not (p.same_value (obj normalized_merged) (obj view)))
        (delivery_error invalid_metadata)
    ok ((explicit, metric), parts.1)

  -- `_validate_spool_identity`
  abbrev nonempty_text : Option Value → Result Text
  nonempty_text (some (str (c ∷ cs))) = ok (c ∷ cs)
  nonempty_text v = err (delivery_error invalid_metadata)

  unfoldable pub validate_spool_identity : Fields → Text → Text → Result (Unit {0})
  validate_spool_identity metadata project run_id = do
    stored_project ← nonempty_text (get (codes "project") metadata)
    stored_id ← nonempty_text (get (codes "id") metadata)
    raise_if (not (text_eq stored_project project && text_eq stored_id run_id))
        (delivery_error invalid_metadata)

  -- `_metadata_flag`
  unfoldable pub metadata_flag : Fields → Text → Result Bool
  metadata_flag metadata name = elim (get name metadata) [
    | some (bool b) ↦ ok b
    | _ ↦ err (delivery_error invalid_metadata)
  ]

  -- `_validate_batch_size`
  unfoldable pub validate_batch_size : Option Value → Result ℕ
  validate_batch_size value = in_range 1 1_024 value_error value

  -- `_response_position`
  unfoldable pub response_position : Fields → Text → ℕ → Result ℕ
  response_position response name minimum =
      in_range minimum max_safe_integer (delivery_error invalid_metadata) (get name response)

-- `_validate_step`
unfoldable pub validate_step : Object → Result ℕ
validate_step (integer (pos n)) = if leb n max_safe_integer then ok n else err value_error
validate_step (integer (negsuc n)) = err value_error
validate_step o = err type_error

-- A text of 1 to so many bytes without control characters; `_validate_flattened_log_key` and
-- `_validate_rich_key` with 256.
unfoldable pub validate_label : ℕ → Text → Result (Unit {0})
validate_label maximum label = do
  encoded ← or_raise (utf8 label) value_error
  raise_if (is_empty encoded || ltb maximum (length encoded) || has_control label) value_error

-- `level.lower()` in {"info", "warn", "error"}: the lower-case letter of each ASCII capital; no other
-- character becomes a letter of these words by `lower`.
abbrev lower_char : ℕ → ℕ
lower_char c = if leb 65 c && leb c 90 then c + 32 else c

unfoldable pub lower : Text → Text
lower [] = []
lower (c ∷ cs) = lower_char c ∷ lower cs

-- `_validate_alert`
abbrev alert_texts : Object → Object → Object → Result ((Text × Text) × Text)
alert_texts (text title) (text body) (text level) = ok ((title, body), level)
alert_texts _ _ _ = err type_error

unfoldable pub validate_alert : Object → Object → Object → Result ((Text × Text) × Text)
unfolding validate_label lower
validate_alert title body level = do
  texts ← alert_texts title body level
  validate_label 256 texts.0.0
  encoded ← or_raise (utf8 texts.0.1) value_error
  raise_if (ltb 4_096 (length encoded)) value_error
  raise_if
      (not (
        text_eq (lower texts.1) (codes "info")
        || text_eq (lower texts.1) (codes "warn")
        || text_eq (lower texts.1) (codes "error")))
      value_error
  ok (texts.0, lower texts.1)
