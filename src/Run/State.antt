-- ===== src/Run/State.antt =====
-- The state of a `Run` and its operations.
pub mod Outcome
pub mod Tail
pub mod Keeps
pub mod Reached
use epochdeck.Prelude.{
  ℕ, zero, suc, ◌+◌, ◌*◌, ◌-◌, ◌≡◌, Bool, true, false, not, ◌&&◌, ◌||◌, Option, none, some, List,
  [], ◌∷◌, ltb, leb, ◌==◌, if◌then◌else◌, length,
}
use epochdeck.Prelude.Int.{ℤ, pos}
use epochdeck.Text.{Text, codes, text_eq}
use epochdeck.Error.{Error, value_error, runtime_error, Result, ok, err, raise_if}
use epochdeck.Error
use epochdeck.Exec.{Exec, pure, raise, lift, gets, query, modify, ◌>>=◌, ◌>>◌}
use epochdeck.Json.{
  Value, null, bool, int, float, str, obj, Fields, no_fields, field, get, insert, update, without,
}
use epochdeck.Platform.{Platform}
use epochdeck.Metrics.{Floats, normalize_metrics, merge_metric_preview}
use epochdeck.Normalization.{max_safe_integer}
use epochdeck.Python.{Object, mapping, Entries, text, integer, other, of_fields}
use epochdeck.Spool.Store.{
  Spool, append, append_alert, append_rich_value, append_artifact, update_metadata,
}
use epochdeck.Run.Documents.{
  floats_value, normalize_document, summary_view, validate_step, validate_alert, validate_label,
  has,
}
use epochdeck.Run.Flatten.{Flattened, flatten_values}

abbrev pub summary_checkpoint_record_interval : ℕ
summary_checkpoint_record_interval = 128

abbrev pub summary_checkpoint_byte_interval : ℕ
summary_checkpoint_byte_interval = 512 * 1024

abbrev pub summary_recovery_max_tail_bytes : ℕ
summary_recovery_max_tail_bytes = summary_checkpoint_byte_interval + 2 * 1024 * 1024 + 1

pub data Mode : Type 0 where
  online offline disabled : Mode

pub record Run : Type 0 where
  pub mode : Mode
  pub closed : Bool
  pub finished : Bool
  pub finishing : Bool
  pub next_sequence : ℕ
  pub next_step : ℕ
  pub last_user_step : Option ℕ
  pub summary_event_offset : ℕ
  pub latest_event_offset : ℕ
  pub summary_tail_records : ℕ
  pub explicit_summary : Fields
  pub metric_summary : Floats
  pub summary_truncated : Bool
  pub summary : Fields
  pub spool : Option Spool

-- The clock and the source of identifiers, for one call.
pub record Env : Type 0 where
  pub timestamp_ms : ℕ
  pub id : ℕ → Text

-- `PreparedRichValue`
pub record Prepared : Type 0 where
  pub kind : Text
  pub blob : Value
  pub metadata : Object

abbrev pub natural : ℕ → Value
natural n = int (pos n)

-- An operation on the spool, for a run that has one.
abbrev pub with_spool_at : {A : Type 0} → A → Exec Spool A → Option Spool → Exec Run A
with_spool_at a m none run = (ok a, run)
with_spool_at a m (some s) run = let (r, s') = m s in (r, record run { spool = some s' })

abbrev pub with_spool : {A : Type 0} → A → Exec Spool A → Exec Run A
with_spool a m run = with_spool_at a m run.spool run

-- `_summary_checkpoint_due`
unfoldable pub summary_checkpoint_due : Run → Bool
summary_checkpoint_due run =
    leb summary_checkpoint_record_interval run.summary_tail_records
    || leb summary_checkpoint_byte_interval (run.latest_event_offset - run.summary_event_offset)

-- `RunSummary._replace_metric_layer`: the keys that left the preview, then those that are in it.
unfoldable pub remove_metrics : Floats → Fields → Fields → Fields → Fields
remove_metrics [] kept explicit summary = summary
remove_metrics ((k, x) ∷ previous) kept explicit summary =
    remove_metrics previous kept explicit
      (if has k kept || has k explicit then summary else without k summary)

unfoldable pub set_metrics : Floats → Fields → Fields → Fields
set_metrics [] explicit summary = summary
set_metrics ((k, x) ∷ current) explicit summary =
    set_metrics current explicit (if has k explicit then summary else insert k (float x) summary)

unfoldable pub replace_metric_layer : Floats → Floats → Fields → Fields → Fields
unfolding remove_metrics set_metrics floats_value
replace_metric_layer previous current explicit summary =
    set_metrics current explicit (remove_metrics previous (floats_value current) explicit summary)

-- A new metric point in the journal; a run without a spool only counts it.
abbrev point_of : ℕ → ℕ → ℕ → Floats → Fields
point_of sequence step timestamp_ms metrics = field (codes "sequence") (natural sequence) (
    field (codes "step") (natural step) (
      field (codes "timestamp_ms") (natural timestamp_ms)
        (field (codes "metrics") (obj (floats_value metrics)) no_fields)))

abbrev is_nil : {A : Type 0} → List A → Bool
is_nil [] = true
is_nil (a ∷ l) = false

abbrev pub is_open : Run → Bool
is_open run = not (run.closed || run.finished || run.finishing)

abbrev pub open_if : Bool → Exec Run (Unit {0})
open_if true run = (ok tt, run)
open_if false run = (err runtime_error, run)

abbrev pub require_open : Exec Run (Unit {0})
require_open run = open_if (is_open run) run

module _ (p : Platform) where
  -- `_checkpoint_summary`
  abbrev checkpoint_updates : Run → Fields → Fields
  checkpoint_updates run updates =
      update
        (field (codes "explicit_summary") (obj run.explicit_summary) (
          field (codes "metric_summary") (obj (floats_value run.metric_summary)) (
            field (codes "summary_truncated") (bool run.summary_truncated)
              (field (codes "summary_event_offset") (natural run.latest_event_offset) no_fields))))
        updates

  abbrev checkpointed : Result (Unit {0}) × Spool → Run → Result (Unit {0}) × Run
  checkpointed (err e, s) run = (err e, record run { spool = some s })
  checkpointed (ok u, s) run = (
    ok tt,
    record run {
      spool = some s;
      summary_event_offset = run.latest_event_offset;
      summary_tail_records = 0;
    },
  )

  abbrev checkpoint_at : Fields → Option Spool → Exec Run (Unit {0})
  checkpoint_at updates none run = (ok tt, run)
  checkpoint_at updates (some s) run =
      checkpointed (update_metadata p (checkpoint_updates run updates) s) run

  unfoldable pub checkpoint_summary : Fields → Exec Run (Unit {0})
  checkpoint_summary updates run = checkpoint_at updates run.spool run

  abbrev checkpoint_if : Bool → Exec Run (Unit {0})
  checkpoint_if true = checkpoint_summary no_fields
  checkpoint_if false = pure tt

  -- `if self._spool is not None and self._summary_checkpoint_due(): self._checkpoint_summary()`;
  -- without a spool the checkpoint does nothing.
  unfoldable pub checkpoint_when_due : Exec Run (Unit {0})
  checkpoint_when_due run = checkpoint_if (summary_checkpoint_due run) run

  abbrev appended : Result ℕ × Spool → Run → Result (Unit {0}) × Run
  appended (err e, s) run = (err e, record run { spool = some s })
  appended (ok offset, s) run = (
    ok tt,
    record run {
      spool = some s;
      latest_event_offset = offset;
      summary_tail_records = suc run.summary_tail_records;
    },
  )

  abbrev append_at : Fields → Option Spool → Exec Run (Unit {0})
  append_at point none run = (ok tt, run)
  append_at point (some s) run = appended (append p point s) run

  unfoldable pub append_point : Fields → Exec Run (Unit {0})
  append_point point run = append_at point run.spool run

  -- The part under `if summarize`.
  unfoldable pub summarize_metrics : Floats → Run → Run
  unfolding replace_metric_layer
  summarize_metrics metrics run =
      let (current, truncated) =
        merge_metric_preview run.metric_summary metrics run.summary_truncated in
      record run {
        metric_summary = current;
        summary_truncated = truncated;
        summary = replace_metric_layer run.metric_summary current run.explicit_summary run.summary;
      }

  abbrev summarize_if : Bool → Floats → Run → Run
  summarize_if true metrics run = summarize_metrics metrics run
  summarize_if false metrics run = run

  -- `_append_metrics`; its callers pass `advance_step=False`.
  unfoldable pub append_metrics : Env → Floats → ℕ → Bool → Exec Run (Unit {0})
  unfolding floats_value
  append_metrics env metrics step summarize = do
    normalized_metrics ← lift (normalize_metrics p (floats_value metrics))
    query (λ run. raise_if (ltb max_safe_integer run.next_sequence) value_error)
    checkpoint_when_due
    point ← gets (λ run. point_of run.next_sequence step env.timestamp_ms normalized_metrics)
    append_point point
    modify (summarize_if summarize normalized_metrics)
    modify (λ run. record run { next_sequence = suc run.next_sequence })
    checkpoint_when_due

  -- `_log_system_metrics`
  abbrev system_step : Env → Floats → Option ℕ → Exec Run (Unit {0})
  system_step env metrics none = pure tt
  system_step env metrics (some step) = append_metrics env metrics step false

  abbrev system_if : Bool → Env → Floats → Exec Run (Unit {0})
  system_if true env metrics run = system_step env metrics run.last_user_step run
  system_if false env metrics run = (ok tt, run)

  abbrev system_point : Env → Floats → Exec Run (Unit {0})
  system_point env [] run = (ok tt, run)
  system_point env (m ∷ metrics) run = system_if (is_open run) env (m ∷ metrics) run

  unfoldable pub log_system_metrics : Env → Object → Exec Run (Unit {0})
  unfolding append_metrics
  log_system_metrics env values = do
    flattened ← lift (flatten_values p false values)
    system_point env flattened.metrics

  -- Without a spool nothing is prepared.
  abbrev no_prepared : Prepared
  no_prepared = record { kind = []; blob = null; metadata = other }

  -- `value._prepare(blob_root)` of each rich value, which writes blobs, is an argument.
  module _ (prepare : ℕ → Exec Spool Prepared) where
    unfoldable pub prepare_values : List (Text × ℕ) → Exec Run (List (Text × Prepared))
    unfolding validate_label
    prepare_values [] = pure []
    prepare_values ((key, value) ∷ values) = do
      lift (validate_label 256 key)
      prepared ← with_spool no_prepared (prepare value)
      rest ← prepare_values values
      pure ((key, prepared) ∷ rest)

    -- `if rich_values and self.mode != "disabled"`.
    abbrev prepare_unless_disabled : Mode → List (Text × ℕ) → Exec Run (List (Text × Prepared))
    prepare_unless_disabled disabled values = pure []
    prepare_unless_disabled mode values = prepare_values values

  unfoldable pub rich_records : Env → ℕ → ℕ → List (Text × Prepared) → Result (List Fields)
  unfolding normalize_document
  rich_records env step n [] = ok []
  rich_records env step n ((key, prepared) ∷ values) =
      Error.◌>>=◌ (normalize_document p prepared.metadata) λ metadata.
        Error.◌>>=◌ (rich_records env step (suc n) values) λ rest. ok (
          field (codes "id") (str (env.id n)) (
            field (codes "key") (str key) (
              field (codes "kind") (str prepared.kind) (
                field (codes "step") (natural step) (
                  field (codes "timestamp_ms") (natural env.timestamp_ms) (
                    field (codes "blob") prepared.blob
                      (field (codes "metadata") (obj metadata) no_fields))))))
          ∷ rest)

  unfoldable pub append_rich_values : List Fields → Exec Run (Unit {0})
  append_rich_values [] = pure tt
  append_rich_values (r ∷ records) = do
    with_spool tt (append_rich_value p r)
    append_rich_values records

  abbrev nothing_logged : Flattened → Bool
  nothing_logged f = is_nil f.metrics && is_nil f.rich_values

  abbrev log_metrics : Env → Floats → ℕ → Exec Run (Unit {0})
  log_metrics env [] step = pure tt
  log_metrics env (m ∷ metrics) step = append_metrics env (m ∷ metrics) step true

  abbrev normalized_if_any : Floats → Result Floats
  normalized_if_any [] = ok []
  normalized_if_any (m ∷ metrics) = normalize_metrics p (floats_value (m ∷ metrics))

  abbrev selected : Option Object → Run → Object
  selected none run = integer (pos run.next_step)
  selected (some step) run = step

  -- `log`
  unfoldable pub log :
      (ℕ → Exec Spool Prepared) → Env → Object → Option Object → Exec Run (Unit {0})
  unfolding append_metrics floats_value prepare_values rich_records append_rich_values validate_step
  log prepare env values step = do
    require_open
    flattened ← lift (flatten_values p true values)
    lift (raise_if (nothing_logged flattened) value_error)
    metrics ← lift (normalized_if_any flattened.metrics)
    selected_step ← query (λ run. validate_step (selected step run))
    mode ← gets (λ run. run.mode)
    prepared ← prepare_unless_disabled prepare mode flattened.rich_values
    records ← lift (rich_records env selected_step 0 prepared)
    log_metrics env metrics selected_step
    append_rich_values records
    modify
        (λ run. record run { last_user_step = some selected_step; next_step = selected_step + 1 })

  abbrev step_value : Option ℕ → Value
  step_value none = null
  step_value (some n) = natural n

  -- `alert`
  abbrev alert_of : Env → (Text × Text) × Text → Option ℕ → Fields
  alert_of env ((title, body), level) step = field (codes "id") (str (env.id 0)) (
      field (codes "title") (str title) (
        field (codes "text") (str body) (
          field (codes "level") (str level) (
            field (codes "step") (step_value step)
              (field (codes "timestamp_ms") (natural env.timestamp_ms) no_fields)))))

  abbrev send_alert : Env → Object → Object → Object → Mode → Exec Run (Unit {0})
  send_alert env title body level disabled = pure tt
  send_alert env title body level mode = do
    normalized ← lift (validate_alert title body level)
    record_fields ← gets (λ run. alert_of env normalized run.last_user_step)
    with_spool tt (append_alert p record_fields)

  unfoldable pub alert : Env → Object → Object → Object → Exec Run (Unit {0})
  unfolding validate_alert
  alert env title body level = do
    require_open
    mode ← gets (λ run. run.mode)
    send_alert env title body level mode

  -- `use_artifact` of a concrete artifact ID.
  abbrev send_use : Env → Text → Mode → Exec Run (Unit {0})
  send_use env artifact_id disabled = pure tt
  send_use env artifact_id mode = with_spool tt (
      append_artifact p (
        field (codes "id") (str (env.id 0)) (
          field (codes "operation") (str (codes "use"))
            (field (codes "artifact_id") (str artifact_id) no_fields))))

  unfoldable pub use_artifact_id : Env → Text → Exec Run Text
  use_artifact_id env artifact_id = do
    require_open
    mode ← gets (λ run. run.mode)
    send_use env artifact_id mode
    pure artifact_id

  -- `_refresh_summary_view`
  unfoldable pub refresh_summary_view : Exec Run (Unit {0})
  unfolding summary_view
  refresh_summary_view = do
    view ← query (λ run. summary_view p run.metric_summary run.explicit_summary)
    modify (λ run. record run { summary = view })

  -- `_update_summary` up to the request that an online run makes.
  unfoldable pub update_summary : Fields → Exec Run (Unit {0})
  unfolding normalize_document refresh_summary_view
  update_summary updates = do
    require_open
    merged ←
        query
          (λ run. normalize_document p (mapping (of_fields (update run.explicit_summary updates))))
    modify (λ run. record run { explicit_summary = merged })
    refresh_summary_view
    checkpoint_summary no_fields

  -- `finish` of an offline or disabled run, and of an online run up to where it stops its worker; the
  -- system monitor and the final `close` are left out.
  abbrev flags : Bool → Bool → Fields
  flags finished finishing =
      field (codes "finished") (bool finished)
        (field (codes "finishing") (bool finishing) no_fields)

  abbrev finish_checks : Run → Result Bool
  finish_checks run =
      if run.finished then ok true else if run.closed then err runtime_error else ok false

  abbrev pub complete : Exec Run (Unit {0})
  complete = modify (λ run. record run { finished = true; finishing = false; closed = true })

  abbrev finish_mode : Mode → Exec Run (Unit {0})
  finish_mode offline = do with_spool tt (update_metadata p (flags true false)); complete
  finish_mode disabled = complete
  finish_mode online = pure tt

  abbrev finish_unless : Bool → Object → Exec Run (Unit {0})
  finish_unless true summary = pure tt
  finish_unless false summary = do
    finish_summary ← lift (normalize_document p summary)
    merged ← query (λ run.
        normalize_document p (mapping (of_fields (update run.explicit_summary finish_summary))))
    modify (λ run. record run { explicit_summary = merged })
    refresh_summary_view
    modify (λ run. record run { finishing = true })
    checkpoint_summary (field (codes "finishing") (bool true) no_fields)
    mode ← gets (λ run. run.mode)
    finish_mode mode

  unfoldable pub finish_locally : Object → Exec Run (Unit {0})
  unfolding normalize_document refresh_summary_view
  finish_locally summary = do done ← query finish_checks; finish_unless done summary
