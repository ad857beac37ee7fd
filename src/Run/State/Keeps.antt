-- ===== src/Run/State/Keeps.antt =====
-- Methods that keep a run recoverable, one after the other.
use epochdeck.Prelude.{ℕ, suc, ◌≡◌, refl, Bool, true, false, Option, none, some, ltb}
use epochdeck.Error.{Result, ok, err, raise_if, value_error}
use epochdeck.Exec.{Exec, continue, pure}
use epochdeck.Json.{Fields, obj}
use epochdeck.Platform.{Platform}
use epochdeck.Metrics.{Floats, normalize_metrics}
use epochdeck.Normalization.{max_safe_integer}
use epochdeck.Spool.Lane.{append_record}
use epochdeck.Run.Documents.{floats_value}
use epochdeck.Spool.Store.{Spool, append_alert, append_rich_value, append_artifact}
use epochdeck.Run.State.{
  Run, Env, append_metrics, checkpoint_when_due, append_point, with_spool, with_spool_at,
  summarize_if, summarize_metrics, point_of, require_open, is_open, open_if,
}
use epochdeck.Run.State.Outcome.{Outcome, Outcome-continue}
use epochdeck.Run.State.Tail.{
  Recoverable, HasRoom, HasRoom-Recoverable, JournalAt, same_Journal, checkpoint_when_due-HasRoom,
  append_point-Recoverable,
}

module _ {p : Platform} {A : Type 0} where
  pub both :
      (r : Result A × Run) → Recoverable p r.1 → Outcome (Recoverable p) (λ a. Recoverable p) r
  both (ok a, run) h = h
  both (err e, run) h = h

  pub either :
      (r : Result A × Run) → Outcome (Recoverable p) (λ a. Recoverable p) r → Recoverable p r.1
  either (ok a, run) h = h
  either (err e, run) h = h

  pub with_room :
      (r : Result A × Run) → Outcome (Recoverable p) (λ a. HasRoom p) r → Recoverable p r.1
  with_room (ok a, run) h = HasRoom-Recoverable p run h
  with_room (err e, run) h = h

module _ {p : Platform} {A B : Type 0} where
  -- A method after a method.
  pub after :
      (f : A → Exec Run B) (r : Result A × Run)
      → Recoverable p r.1
      → ((a : A) (run : Run) → Recoverable p run → Recoverable p (f a run).1)
      → Recoverable p (continue f r).1
  after f (ok a, run) h next = next a run h
  after f (err e, run) h next = h

module _ (p : Platform) where
  summarize_if-Recoverable :
      (b : Bool) (m : Floats) (run : Run)
      → Recoverable p run
      → Recoverable p (summarize_if p b m run)
  unfolding summarize_metrics
  summarize_if-Recoverable true m run h = record {
    journal = h.journal;
    ordered = h.ordered;
    records = h.records;
    bytes = h.bytes;
  }
  summarize_if-Recoverable false m run h = h

  counted-Recoverable :
      (run : Run)
      → Recoverable p run
      → Recoverable p (record run { next_sequence = suc run.next_sequence })
  counted-Recoverable run h = record {
    journal = h.journal;
    ordered = h.ordered;
    records = h.records;
    bytes = h.bytes;
  }

  pub append_metrics-Recoverable :
      (env : Env) (metrics : Floats) (step : ℕ) (summarize : Bool) (run : Run)
      → Recoverable p run
      → Recoverable p (append_metrics p env metrics step summarize run).1
  unfolding append_metrics
  append_metrics-Recoverable env metrics step summarize run h =
      after _ (normalize_metrics p (floats_value metrics), run) h
        λ normalized run1 h1.
          after _ (raise_if (ltb max_safe_integer run1.next_sequence) value_error, run1) h1
            λ u run2 h2. either _ (
              Outcome-continue (Recoverable p) (λ u. HasRoom p) (λ u. Recoverable p) _
                (checkpoint_when_due p run2) (checkpoint_when_due-HasRoom p run2 h2)
                λ u run3 h3.
                  Outcome-continue (Recoverable p) (λ u. Recoverable p) (λ u. Recoverable p) _
                    (append_point p (point_of run3.next_sequence step env.timestamp_ms normalized)
                      run3)
                    (append_point-Recoverable p
                      (point_of run3.next_sequence step env.timestamp_ms normalized) run3 h3)
                    λ u run4 h4.
                      let counted : Run = record (summarize_if p summarize normalized run4) {
                        next_sequence =
                            suc (summarize_if p summarize normalized run4).next_sequence;
                      } in
                      both (checkpoint_when_due p counted) (
                        with_room (checkpoint_when_due p counted) (
                          checkpoint_when_due-HasRoom p counted (
                            counted-Recoverable (summarize_if p summarize normalized run4)
                              (summarize_if-Recoverable summarize normalized run4 h4)))))

  -- An operation that leaves the event journal and run.json alone.
  abbrev pub Apart : {A : Type 0} → Exec Spool A → Type 0
  Apart m = (s : Spool) → ((m s).1.events ≡ s.events) × ((m s).1.metadata ≡ s.metadata)

  with_spool_at-Recoverable :
      {A : Type 0} (a : A) (m : Exec Spool A) (o : Option Spool) (run : Run)
      → Apart m
      → JournalAt p o run.latest_event_offset run.summary_event_offset run.summary_tail_records
          run.finished
      → Recoverable p run
      → Recoverable p (with_spool_at a m o run).1
  with_spool_at-Recoverable a m none run keeps at h = absurd at
  with_spool_at-Recoverable a m (some s) run keeps at h = record {
    journal =
        same_Journal p s (m s).1 run.latest_event_offset run.summary_event_offset
          run.summary_tail_records run.finished (keeps s).0 (keeps s).1 at;
    ordered = h.ordered;
    records = h.records;
    bytes = h.bytes;
  }

  pub with_spool-Recoverable :
      {A : Type 0} (a : A) (m : Exec Spool A) (run : Run)
      → Apart m
      → Recoverable p run
      → Recoverable p (with_spool a m run).1
  with_spool-Recoverable a m run keeps h =
      with_spool_at-Recoverable a m run.spool run keeps h.journal h

  done-Apart :
      (r : Result ℕ) (s t : Spool)
      → t.events ≡ s.events
      → t.metadata ≡ s.metadata
      → ((continue {B = Unit {0}} (λ (n : ℕ). pure tt) (r, t)).1.events ≡ s.events)
        × ((continue {B = Unit {0}} (λ (n : ℕ). pure tt) (r, t)).1.metadata ≡ s.metadata)
  done-Apart (ok n) s t events metadata = (events, metadata)
  done-Apart (err e) s t events metadata = (events, metadata)

  pub append_alert-Apart : (fs : Fields) → Apart (append_alert p fs)
  unfolding append_alert
  append_alert-Apart fs s =
      done-Apart (append_record p (obj fs) s.alerts).0 s
        (record s { alerts = (append_record p (obj fs) s.alerts).1 }) refl refl

  pub append_rich_value-Apart : (fs : Fields) → Apart (append_rich_value p fs)
  unfolding append_rich_value
  append_rich_value-Apart fs s =
      done-Apart (append_record p (obj fs) s.rich_values).0 s
        (record s { rich_values = (append_record p (obj fs) s.rich_values).1 }) refl refl

  pub append_artifact-Apart : (fs : Fields) → Apart (append_artifact p fs)
  unfolding append_artifact
  append_artifact-Apart fs s =
      done-Apart (append_record p (obj fs) s.artifacts).0 s
        (record s { artifacts = (append_record p (obj fs) s.artifacts).1 }) refl refl

  pub open_if-Recoverable :
      (b : Bool) (run : Run) → Recoverable p run → Recoverable p (open_if b run).1
  open_if-Recoverable true run h = h
  open_if-Recoverable false run h = h

  pub opened :
      {A : Type 0} (f : Unit {0} → Exec Run A) (run : Run)
      → Recoverable p run
      → ((u : Unit {0}) (run : Run) → Recoverable p run → Recoverable p (f u run).1)
      → Recoverable p (continue f (require_open run)).1
  opened f run h next = after f (require_open run) (open_if-Recoverable (is_open run) run h) next
