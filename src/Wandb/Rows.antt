-- ===== src/Wandb/Rows.antt =====
-- The rows of a W&B history: their metrics and their media, steps and times.
use epochdeck.Prelude.{ℕ, Bool, false, not, ◌||◌, List, [], ◌∷◌, ltb, ◌==◌, if◌then◌else◌, length}
use epochdeck.Text.{Text, codes, text_eq}
use epochdeck.Text.Utf8.{utf8}
use epochdeck.Error.{value_error, import_error, Result, ok, raise_if, or_raise, ◌>>=◌, ◌>>◌}
use epochdeck.Metrics.{Floats, starts_with, max_metric_key_bytes}
use epochdeck.Protocol.{is_empty, has_control, contains}

-- `_validate_source_history_key`, and the test of `_validate_metric_keys`.
unfoldable pub validate_source_history_key : Text → Result (Unit {0})
validate_source_history_key key = do
  encoded_key ← or_raise (utf8 key) value_error
  raise_if
      (is_empty encoded_key || ltb max_metric_key_bytes (length encoded_key) || has_control key)
      import_error

-- `_validate_metric_keys`
unfoldable pub validate_metric_keys : Floats → Result (Unit {0})
unfolding validate_source_history_key
validate_metric_keys [] = ok tt
validate_metric_keys ((key, x) ∷ metrics) =
    validate_source_history_key key >> validate_metric_keys metrics

abbrev in_first : ℕ → List Text → List Text
in_first c [] = (c ∷ []) ∷ []
in_first c (part ∷ parts) = (c ∷ part) ∷ parts

-- `value.split("/")`
unfoldable pub split_slash : Text → List Text
split_slash [] = [] ∷ []
split_slash (c ∷ t) = if c == 47 then [] ∷ split_slash t else in_first c (split_slash t)

abbrev is_dots : Text → Bool
is_dots part = is_empty part || text_eq part (codes ".") || text_eq part (codes "..")

unfoldable pub any_dots : List Text → Bool
any_dots [] = false
any_dots (part ∷ parts) = is_dots part || any_dots parts

-- `_safe_artifact_path`; `posix_str` is `str` of a PurePosixPath.
unfoldable pub safe_artifact_path : (Text → Text) → Text → Result Text
unfolding split_slash any_dots
safe_artifact_path posix_str value = do
  encoded ← or_raise (utf8 value) value_error
  raise_if
      (is_empty value
        || ltb 1_024 (length encoded)
        || starts_with (codes "/") value
        || contains 92 value
        || any_dots (split_slash value)
        || not (text_eq (posix_str value) value)
        || has_control value)
      import_error
  ok value
