-- ===== src/Run/State/Reached.antt =====
-- Whatever is logged, and whatever fails on the way, a run stays recoverable.
use epochdeck.Prelude.{
  ℕ, ◌≡◌, ◌∙◌, ap, length, subst, Bool, true, false, Option, none, some, List, [], ◌∷◌,
}
use epochdeck.Text.{Text, codes}
use epochdeck.Error.{Result, ok, err, raise_if, value_error}
use epochdeck.Exec.{Exec, continue}
use epochdeck.Json.{bool, Fields, no_fields, field, update}
use epochdeck.Platform.{Platform}
use epochdeck.Python.{Object, mapping, of_fields}
use epochdeck.Metrics.{Floats}
use epochdeck.Run.Documents.{
  summary_view, normalize_document, validate_alert, validate_label, validate_step,
}
use epochdeck.Run.Flatten.{flatten_values}
use epochdeck.Spool.Store.{Spool, update_metadata, append_alert, append_rich_value, append_artifact}
use epochdeck.Run.State.{
  checkpoint_summary, refresh_summary_view, finish_mode, complete, with_spool_at, finish_unless,
  finish_checks, finish_locally, flags, update_summary, Run, Env, Prepared, log, alert,
  use_artifact_id, log_system_metrics, update_summary, with_spool, is_open, send_alert, alert_of,
  send_use, system_if, system_step, system_point, log_metrics, append_rich_values, prepare_values,
  prepare_unless_disabled, no_prepared, nothing_logged, normalized_if_any, selected, rich_records,
  Mode, online, offline, disabled,
}
use epochdeck.Run.State.Tail.{
  Recoverable, JournalAt, same_Journal, Marks, no_updates-Marks, finishing-Marks, Updated,
  update_metadata-Updated, checkpoint_summary-HasRoom,
}
use epochdeck.Run.State.Keeps.{
  Apart, with_room, after, with_spool-Recoverable, append_alert-Apart, append_rich_value-Apart,
  append_artifact-Apart, opened, append_metrics-Recoverable,
}

module _ (p : Platform) where
  send_alert-Recoverable :
      (env : Env) (title body level : Object) (mode : Mode) (run : Run)
      → Recoverable p run
      → Recoverable p (send_alert p env title body level mode run).1
  send_alert-Recoverable env title body level disabled run h = h
  send_alert-Recoverable env title body level online run h =
      after _ (validate_alert title body level, run) h
        λ n r hr.
          with_spool-Recoverable p tt (append_alert p (alert_of p env n r.last_user_step)) r
            (append_alert-Apart p (alert_of p env n r.last_user_step)) hr
  send_alert-Recoverable env title body level offline run h =
      after _ (validate_alert title body level, run) h
        λ n r hr.
          with_spool-Recoverable p tt (append_alert p (alert_of p env n r.last_user_step)) r
            (append_alert-Apart p (alert_of p env n r.last_user_step)) hr

  pub alert-Recoverable :
      (env : Env) (title body level : Object) (run : Run)
      → Recoverable p run
      → Recoverable p (alert p env title body level run).1
  unfolding alert
  alert-Recoverable env title body level run h =
      opened p _ run h λ u r hr. send_alert-Recoverable env title body level r.mode r hr

  send_use-Recoverable :
      (env : Env) (artifact_id : Text) (mode : Mode) (run : Run)
      → Recoverable p run
      → Recoverable p (send_use p env artifact_id mode run).1
  send_use-Recoverable env artifact_id disabled run h = h
  send_use-Recoverable env artifact_id online run h =
      with_spool-Recoverable p tt (append_artifact p _) run (append_artifact-Apart p _) h
  send_use-Recoverable env artifact_id offline run h =
      with_spool-Recoverable p tt (append_artifact p _) run (append_artifact-Apart p _) h

  pub use_artifact_id-Recoverable :
      (env : Env) (artifact_id : Text) (run : Run)
      → Recoverable p run
      → Recoverable p (use_artifact_id p env artifact_id run).1
  unfolding use_artifact_id
  use_artifact_id-Recoverable env artifact_id run h = opened p _ run h λ u r hr.
      after _ (send_use p env artifact_id r.mode r)
        (send_use-Recoverable env artifact_id r.mode r hr) λ u r hr. hr

  system_step-Recoverable :
      (env : Env) (metrics : Floats) (step : Option ℕ) (run : Run)
      → Recoverable p run
      → Recoverable p (system_step p env metrics step run).1
  system_step-Recoverable env metrics none run h = h
  system_step-Recoverable env metrics (some step) run h =
      append_metrics-Recoverable p env metrics step false run h

  system_point-Recoverable :
      (b : Bool) (env : Env) (metrics : Floats) (run : Run)
      → Recoverable p run
      → Recoverable p (system_if p b env metrics run).1
  system_point-Recoverable true env metrics run h =
      system_step-Recoverable env metrics run.last_user_step run h
  system_point-Recoverable false env metrics run h = h

  system_metrics-Recoverable :
      (env : Env) (metrics : Floats) (run : Run)
      → Recoverable p run
      → Recoverable p (system_point p env metrics run).1
  system_metrics-Recoverable env [] run h = h
  system_metrics-Recoverable env (m ∷ metrics) run h =
      system_point-Recoverable (is_open run) env (m ∷ metrics) run h

  pub log_system_metrics-Recoverable :
      (env : Env) (values : Object) (run : Run)
      → Recoverable p run
      → Recoverable p (log_system_metrics p env values run).1
  unfolding log_system_metrics
  log_system_metrics-Recoverable env values run h =
      after _ (flatten_values p false values, run) h
        λ f r hr. system_metrics-Recoverable env f.metrics r hr

  log_metrics-Recoverable :
      (env : Env) (metrics : Floats) (step : ℕ) (run : Run)
      → Recoverable p run
      → Recoverable p (log_metrics p env metrics step run).1
  log_metrics-Recoverable env [] step run h = h
  log_metrics-Recoverable env (m ∷ metrics) step run h =
      append_metrics-Recoverable p env (m ∷ metrics) step true run h

  append_rich_values-Recoverable :
      (records : List Fields) (run : Run)
      → Recoverable p run
      → Recoverable p (append_rich_values p records run).1
  unfolding append_rich_values
  append_rich_values-Recoverable [] run h = h
  append_rich_values-Recoverable (r ∷ records) run h =
      after _ (with_spool tt (append_rich_value p r) run)
        (with_spool-Recoverable p tt (append_rich_value p r) run (append_rich_value-Apart p r) h)
        λ u run h. append_rich_values-Recoverable records run h

  -- Preparing a rich value writes blobs, and nothing to the event journal or to run.json.
  module _ (prepare : ℕ → Exec Spool Prepared) (blobs_only : (n : ℕ) → Apart p (prepare n)) where
    prepare_values-Recoverable :
        (values : List (Text × ℕ)) (run : Run)
        → Recoverable p run
        → Recoverable p (prepare_values p prepare values run).1
    unfolding prepare_values
    prepare_values-Recoverable [] run h = h
    prepare_values-Recoverable ((key, value) ∷ values) run h =
        after _ (validate_label 256 key, run) h
          λ u r1 h1.
            after _ (with_spool (no_prepared p) (prepare value) r1)
              (with_spool-Recoverable p (no_prepared p) (prepare value) r1 (blobs_only value) h1)
              λ prepared r2 h2.
                after _ (prepare_values p prepare values r2)
                  (prepare_values-Recoverable values r2 h2) λ rest r3 h3. h3

    prepare_unless_disabled-Recoverable :
        (mode : Mode) (values : List (Text × ℕ)) (run : Run)
        → Recoverable p run
        → Recoverable p (prepare_unless_disabled p prepare mode values run).1
    prepare_unless_disabled-Recoverable disabled values run h = h
    prepare_unless_disabled-Recoverable online values run h =
        prepare_values-Recoverable values run h
    prepare_unless_disabled-Recoverable offline values run h =
        prepare_values-Recoverable values run h

    pub log-Recoverable :
        (env : Env) (values : Object) (step : Option Object) (run : Run)
        → Recoverable p run
        → Recoverable p (log p prepare env values step run).1
    unfolding log
    log-Recoverable env values step run h = opened p _ run h λ u r1 h1.
        after _ (flatten_values p true values, r1) h1
          λ f r2 h2.
            after _ (raise_if (nothing_logged p f) value_error, r2) h2
              λ u r3 h3.
                after _ (normalized_if_any p f.metrics, r3) h3
                  λ metrics r4 h4.
                    after _ (validate_step (selected p step r4), r4) h4
                      λ n r5 h5.
                        after _ (prepare_unless_disabled p prepare r5.mode f.rich_values r5)
                          (prepare_unless_disabled-Recoverable r5.mode f.rich_values r5 h5)
                          λ prepared r6 h6.
                            after _ (rich_records p env n 0 prepared, r6) h6
                              λ records r7 h7.
                                after _ (log_metrics p env metrics n r7)
                                  (log_metrics-Recoverable env metrics n r7 h7)
                                  λ u r8 h8.
                                    after _ (append_rich_values p records r8)
                                      (append_rich_values-Recoverable records r8 h8)
                                      λ u r9 h9. record {
                                        journal = h9.journal;
                                        ordered = h9.ordered;
                                        records = h9.records;
                                        bytes = h9.bytes;
                                      }

  -- The fields that the invariant reads are the same.
  refresh-Recoverable :
      (run : Run) → Recoverable p run → Recoverable p (refresh_summary_view p run).1
  unfolding refresh_summary_view
  refresh-Recoverable run h =
      after _ (summary_view p run.metric_summary run.explicit_summary, run) h
        λ view r hr. record {
          journal = hr.journal;
          ordered = hr.ordered;
          records = hr.records;
          bytes = hr.bytes;
        }

  -- A new explicit summary, and the view of it.
  explicit-Recoverable :
      (merged : Fields) (run : Run)
      → Recoverable p run
      → Recoverable p (refresh_summary_view p (record run { explicit_summary = merged })).1
  explicit-Recoverable merged run h =
      refresh-Recoverable (record run { explicit_summary = merged })
        (record { journal = h.journal; ordered = h.ordered; records = h.records; bytes = h.bytes })

  checkpoint-Recoverable :
      (updates : Fields) (run : Run)
      → Marks p run updates
      → Recoverable p run
      → Recoverable p (checkpoint_summary p updates run).1
  checkpoint-Recoverable updates run marks h =
      with_room (checkpoint_summary p updates run)
        (checkpoint_summary-HasRoom p updates run marks h)

  pub update_summary-Recoverable :
      (updates : Fields) (run : Run)
      → Recoverable p run
      → Recoverable p (update_summary p updates run).1
  unfolding update_summary
  update_summary-Recoverable updates run h = opened p _ run h λ u r1 h1.
      after _ (normalize_document p (mapping (of_fields (update r1.explicit_summary updates))), r1)
        h1
        λ merged r2 h2.
          after _ (refresh_summary_view p (record r2 { explicit_summary = merged }))
            (explicit-Recoverable merged r2 h2)
            λ u r3 h3. checkpoint-Recoverable no_fields r3 (no_updates-Marks p r3) h3

  -- A run that is finished needs no recovery any more.
  finished-Recoverable :
      (o : Option Spool) (run : Run)
      → JournalAt p o run.latest_event_offset run.summary_event_offset run.summary_tail_records
          run.finished
      → Recoverable p run
      → Recoverable p (record run { spool = o; finished = true; finishing = false; closed = true })
  finished-Recoverable none run at h = absurd at
  finished-Recoverable (some s) run at h = record {
    journal = record {
      size = at.size;
      before = at.before;
      tail = at.tail;
      split = at.split;
      offset = at.offset;
      events = at.events;
      stored = λ open_. absurd (cc open_);
    };
    ordered = h.ordered;
    records = h.records;
    bytes = h.bytes;
  }

  flagged-Recoverable :
      (run : Run) (updates : Fields) (s : Spool) (r : Result (Unit {0}) × Spool)
      → JournalAt p
          (some s)
          run.latest_event_offset
          run.summary_event_offset
          run.summary_tail_records
          run.finished
      → Recoverable p run
      → Updated p updates s r
      → Recoverable p (continue (λ u. complete p) (r.0, record run { spool = some r.1 })).1
  flagged-Recoverable run updates s (ok u, t) at h (events, written) = record {
    journal = record {
      size = ap (λ lane. length lane.journal) events ∙ at.size;
      before = at.before;
      tail = at.tail;
      split = ap (λ lane. lane.journal) events ∙ at.split;
      offset = at.offset;
      events = at.events;
      stored = λ open_. absurd (cc open_);
    };
    ordered = h.ordered;
    records = h.records;
    bytes = h.bytes;
  }
  flagged-Recoverable run updates s (err e, t) at h (events, metadata) = record {
    journal =
        same_Journal p s t run.latest_event_offset run.summary_event_offset run.summary_tail_records
          run.finished events metadata at;
    ordered = h.ordered;
    records = h.records;
    bytes = h.bytes;
  }

  finish_offline-Recoverable :
      (o : Option Spool) (run : Run)
      → JournalAt p o run.latest_event_offset run.summary_event_offset run.summary_tail_records
          run.finished
      → Recoverable p run
      → Recoverable p
          (continue
            (λ u. complete p)
            (with_spool_at tt (update_metadata p (flags p true false)) o run)).1
  finish_offline-Recoverable none run at h = absurd at
  finish_offline-Recoverable (some s) run at h =
      flagged-Recoverable run (flags p true false) s (update_metadata p (flags p true false) s) at h
        (update_metadata-Updated p (flags p true false) s)

  finish_mode-Recoverable :
      (mode : Mode) (run : Run) → Recoverable p run → Recoverable p (finish_mode p mode run).1
  finish_mode-Recoverable offline run h = finish_offline-Recoverable run.spool run h.journal h
  finish_mode-Recoverable online run h = h
  finish_mode-Recoverable disabled run h = finished-Recoverable run.spool run h.journal h

  finish_unless-Recoverable :
      (done : Bool) (summary : Object) (run : Run)
      → Recoverable p run
      → Recoverable p (finish_unless p done summary run).1
  finish_unless-Recoverable true summary run h = h
  finish_unless-Recoverable false summary run h =
      after _ (normalize_document p summary, run) h
        λ extra r1 h1.
          after _
            (normalize_document p (mapping (of_fields (update r1.explicit_summary extra))), r1) h1
            λ merged r2 h2.
              after _ (refresh_summary_view p (record r2 { explicit_summary = merged }))
                (explicit-Recoverable merged r2 h2)
                λ u r3 h3.
                  after _
                    (checkpoint_summary p (field (codes "finishing") (bool true) no_fields)
                      (record r3 { finishing = true }))
                    (checkpoint-Recoverable (field (codes "finishing") (bool true) no_fields)
                      (record r3 { finishing = true })
                      (finishing-Marks p (record r3 { finishing = true }))
                      (record {
                        journal = h3.journal;
                        ordered = h3.ordered;
                        records = h3.records;
                        bytes = h3.bytes;
                      }))
                    λ u r4 h4. finish_mode-Recoverable r4.mode r4 h4

  pub finish_locally-Recoverable :
      (summary : Object) (run : Run)
      → Recoverable p run
      → Recoverable p (finish_locally p summary run).1
  unfolding finish_locally
  finish_locally-Recoverable summary run h =
      after _ (finish_checks p run, run) h λ done r hr. finish_unless-Recoverable done summary r hr

-- The calls that a program makes, with whatever result.
pub data Step (p : Platform) (prepare : ℕ → Exec Spool Prepared) (run next : Run) : Type 0 where
  logs :
      (env : Env) (values : Object) (step : Option Object)
      → (log p prepare env values step run).1 ≡ next
      → Step p prepare run next
  monitors :
      (env : Env) (values : Object)
      → (log_system_metrics p env values run).1 ≡ next
      → Step p prepare run next
  alerts :
      (env : Env) (title body level : Object)
      → (alert p env title body level run).1 ≡ next
      → Step p prepare run next
  uses :
      (env : Env) (artifact_id : Text)
      → (use_artifact_id p env artifact_id run).1 ≡ next
      → Step p prepare run next
  summarizes :
      (updates : Fields) → (update_summary p updates run).1 ≡ next → Step p prepare run next
  finishes : (summary : Object) → (finish_locally p summary run).1 ≡ next → Step p prepare run next

pub data Reached (p : Platform) (prepare : ℕ → Exec Spool Prepared) (start : Run)
    : Run → Type 0 where
  here : Reached p prepare start start
  then_step :
      {run next : Run}
      → Reached p prepare start run
      → Step p prepare run next
      → Reached p prepare start next

module _ (p : Platform) (prepare : ℕ → Exec Spool Prepared)
    (blobs_only : (n : ℕ) → Apart p (prepare n)) where
  Step-Recoverable :
      {run next : Run} → Step p prepare run next → Recoverable p run → Recoverable p next
  Step-Recoverable {run} (logs env values step e) h =
      subst (Recoverable p) e (log-Recoverable p prepare blobs_only env values step run h)
  Step-Recoverable {run} (monitors env values e) h =
      subst (Recoverable p) e (log_system_metrics-Recoverable p env values run h)
  Step-Recoverable {run} (alerts env title body level e) h =
      subst (Recoverable p) e (alert-Recoverable p env title body level run h)
  Step-Recoverable {run} (uses env artifact_id e) h =
      subst (Recoverable p) e (use_artifact_id-Recoverable p env artifact_id run h)
  Step-Recoverable {run} (summarizes updates e) h =
      subst (Recoverable p) e (update_summary-Recoverable p updates run h)
  Step-Recoverable {run} (finishes summary e) h =
      subst (Recoverable p) e (finish_locally-Recoverable p summary run h)

  -- From a run with a spool that is recoverable on, every run that logging, alerts, artifacts in
  -- use, summary updates and finishing lead to, with whatever errors, is recoverable: what lies in
  -- the event journal behind the checkpoint's offset is exactly as many encoded events as the run
  -- counts, at most 128 of them and at most 512 KiB + 2 MiB + 1 bytes, and until the run is
  -- finished run.json has that offset as its summary_event_offset. Preparing a rich value is
  -- assumed to leave the event journal and run.json alone; finishing an online run goes up to the
  -- stop of its worker.
  pub Reached-Recoverable :
      {start run : Run} → Recoverable p start → Reached p prepare start run → Recoverable p run
  Reached-Recoverable h here = h
  Reached-Recoverable h (then_step reached step) =
      Step-Recoverable step (Reached-Recoverable h reached)
