-- ===== src/Spool/Summary.antt =====
-- `recover_summary` of python/src/epochdeck/_spool.py: the metric summary of a run after a restart, from
-- the checkpoint in its metadata and the events behind the checkpoint.
pub mod Tail
use epochdeck.Prelude.{
  ℕ, zero, suc, ◌+◌, ◌-◌, Bool, false, not, ◌&&◌, ◌||◌, Option, some, [], ◌∷◌, ltb, ◌==◌,
  if◌then◌else◌, length, drop,
}
use epochdeck.Prelude.Int.{pos}
use epochdeck.Text.{Bytes, codes}
use epochdeck.Error.{
  delivery_error, value_error, type_error, bad_summary_offset, summary_tail_too_long,
  bad_truncation_flag, snapshot_unbounded, snapshot_incomplete, summary_splits_record,
  no_metric_object, invalid_metric_point, out_of_rounds, Result, ok, err, ◌>>=◌, ◌>>◌, raise_if,
}
use epochdeck.Json.{Value, bool, int, obj, Fields, no_fields, field, get}
use epochdeck.Platform.{Platform}
use epochdeck.Spool.Lines.{newline, read_journal_line}
use epochdeck.Spool.Lane.{decode_record}
use epochdeck.Metrics.{
  Floats, fields_length, normalize_metrics, merge_metric_preview, max_derived_summary_keys,
}

-- `_validate_recovered_metrics`
abbrev recovered_metrics : Result Floats → Result Floats
recovered_metrics (err type_error) = err (delivery_error invalid_metric_point)
recovered_metrics (err value_error) = err (delivery_error invalid_metric_point)
recovered_metrics r = r

unfoldable pub validate_recovered_metrics : Platform → Fields → Result Floats
validate_recovered_metrics p metrics = recovered_metrics (normalize_metrics p metrics)

-- `_validate_metric_summary_snapshot`
unfoldable pub validate_metric_summary_snapshot : Platform → Fields → Result Floats
validate_metric_summary_snapshot p no_fields = ok []
validate_metric_summary_snapshot p (field k v fs) = do
  raise_if (ltb max_derived_summary_keys (fields_length p (field k v fs)))
      (delivery_error snapshot_unbounded)
  validate_recovered_metrics p (field k v fs)

abbrev offset_value : ℕ → Value → Result ℕ
offset_value size (int (pos n)) =
    if ltb size n then err (delivery_error bad_summary_offset) else ok n
offset_value size v = err (delivery_error bad_summary_offset)

abbrev truncation_flag : Value → Result Bool
truncation_flag (bool b) = ok b
truncation_flag v = err (delivery_error bad_truncation_flag)

-- `event.get("metrics")` of an event.
abbrev metrics_of : Option Value → Result Fields
metrics_of (some (obj metrics)) = ok metrics
metrics_of v = err (delivery_error no_metric_object)

-- The byte before the offset is a line feed.
abbrev at_boundary : Bytes → Bool
at_boundary [] = false
at_boundary (b ∷ bs) = b == newline

unfoldable pub splits_record : Bytes → ℕ → Bool
splits_record journal zero = false
splits_record journal (suc n) = not (at_boundary (drop n journal))

module _ (p : Platform) (max_tail_records : ℕ) where
  unfoldable pub recover_event : Floats → Bool → Bytes → Result (Floats × Bool)
  recover_event summary truncated line = do
    event ← decode_record p line
    metrics ← metrics_of (get (codes "metrics") event)
    validated_metrics ← validate_recovered_metrics p metrics
    ok (merge_metric_preview summary validated_metrics truncated)

  -- The loop over the tail; every round but the last reads a byte, so one round more than there are
  -- bytes is enough.
  unfoldable pub recover_events : ℕ → ℕ → Floats × Bool → Bytes → Result (Floats × Bool)
  recover_events zero record_count s stream = err out_of_rounds
  recover_events (suc rounds) record_count s stream = elim (read_journal_line stream) [
    | err e ↦ err e
    | ok ([], rest) ↦ ok s
    | ok (b ∷ line, rest) ↦ do
      raise_if (ltb max_tail_records (record_count + 1)) (delivery_error summary_tail_too_long)
      s' ← recover_event s.0 s.1 (b ∷ line)
      recover_events rounds (record_count + 1) s' rest
  ]

-- `recover_summary`: the summary, whether it was cut, and the size of the journal.
unfoldable pub recover_summary :
    Platform → Fields → Value → Value → ℕ → ℕ → Bytes → Result ((Floats × Bool) × ℕ)
unfolding splits_record
recover_summary p metric_snapshot summary_truncated summary_event_offset max_tail_records
      max_tail_bytes journal =
    do
      offset ← offset_value (length journal) summary_event_offset
      raise_if (ltb max_tail_records 1 || ltb max_tail_bytes 1) value_error
      raise_if (ltb max_tail_bytes (length journal - offset)) (delivery_error summary_tail_too_long)
      truncated ← truncation_flag summary_truncated
      summary ← validate_metric_summary_snapshot p metric_snapshot
      raise_if (truncated && not (length summary == max_derived_summary_keys))
          (delivery_error snapshot_incomplete)
      raise_if (splits_record journal offset) (delivery_error summary_splits_record)
      s ←
          recover_events p max_tail_records (suc (length journal)) 0 (summary, truncated)
            (drop offset journal)
      ok (s, length journal)
