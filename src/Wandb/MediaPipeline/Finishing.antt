-- ===== src/Wandb/MediaPipeline/Finishing.antt =====
-- The end of the media pipeline, and its abortion.
use epochdeck.Prelude.{
  true, ◌∷◌, none_of, ℕ, ◌≤◌, ◌≡◌, ◌∙◌, refl, ap, sym, subst, List, [], ◌++◌, append-nil, arith,
  length,
}
use epochdeck.Error.{Result, ok, err}
use epochdeck.Exec.Ensures.{Ensures, bind-Ensures, if_Ensures}
use epochdeck.Wandb.{Row}
use epochdeck.Wandb.MediaPipeline.{
  Job, Services, Pipeline, advance_watermark, persist, drain_all, finish, new_pipeline,
  schedule_rows, abort_on_error, import_media,
}
use epochdeck.Wandb.MediaPipeline.Watermark.{count, rows_jobs, Ordered, Sound}
use epochdeck.Wandb.MediaPipeline.Advancing.{Advanced, persist-Ordered, advance_watermark-Advanced}
use epochdeck.Wandb.MediaPipeline.Completing.{schedule_rows-Closes, drain_all-Kept}
use epochdeck.Wandb.MediaPipeline.Persisted.{Finished}
use epochdeck.Wandb.MediaPipeline.Aborting.{Aborted, abort-Aborted}

module _ {S : Type 0} (services : Services S) (history : ℕ → Row) (first : ℕ) where
  abbrev jobs : ℕ → List Job
  jobs k = rows_jobs services history first k

  abbrev Kept : Pipeline S → Type 0
  Kept p = Ordered services history first [] p

  abbrev Fine : Pipeline S → Type 0
  Fine p = Sound services history first p

  finish-Finished :
      (p : Pipeline S)
      → Kept p
      → Ensures Fine
          (λ _ q. Finished services history first p.last_closed_row q)
          (finish services p)
  unfolding finish
  finish-Finished p h =
      let Post : Unit {0} → Pipeline S → Type 0 =
        λ _ q. Finished services history first p.last_closed_row q in
      if_Ensures Fine Post p.closed _ _ p (λ closed. absurd (ground (arith, closed, h.is_open)))
        (λ _.
          bind-Ensures Fine _ Post (drain_all services (length p.pending)) _ p
            (drain_all-Kept services history first (length p.pending) p refl h)
            λ _ q (drained, none_left, same).
              bind-Ensures Fine (λ _ r. Advanced services history first [] q r) Post
                (advance_watermark services) _ q
                (advance_watermark-Advanced services history first [] q drained)
                λ _ r a.
                  bind-Ensures Fine _ Post (persist services true) _ r
                    (persist-Ordered services history first true [] r a.ordered)
                    λ _ t (ordered, same_pending, same_committed, same_closed, forced).
                      let end : t.last_closed_row ≡ p.last_closed_row =
                        same_closed ∙ a.same_closed ∙ same in
                      let none_left_now : length t.pending ≡ 0 =
                        omega
                          (arith, none_left, ap length same_pending, ap length a.same_pending) in
                      let none_now : t.pending ≡ [] = none_of t.pending none_left_now in
                      record {
                        rows = ordered.k;
                        to_the_end = sym end ∙ ordered.closed_rows;
                        all_imported =
                            sym (append-nil t.completed)
                            ∙ ap (λ js. t.completed ++ js) (sym none_now)
                            ∙ ordered.stream
                            ∙ append-nil (jobs ordered.k);
                        all_saved =
                            forced refl
                            ∙ same_committed
                            ∙ a.all_rows (none_of q.pending none_left)
                            ∙ same;
                        none_pending = none_left_now;
                        is_closed = refl;
                        shut = ap (λ waits. waits ++ true ∷ []) ordered.running;
                      })

  abort_on_error-Aborted :
      (last : ℕ) (outcome : Result (Unit {0}) × Pipeline S)
      → Ensures Fine (λ _ q. Finished services history first last q) outcome
      → Ensures
          (Aborted services history first)
          (λ _ q. Finished services history first last q)
          (abort_on_error services outcome)
  abort_on_error-Aborted last (ok a, q) h = h
  abort_on_error-Aborted last (err e, q) h = abort-Aborted services history first q h

  new_pipeline-Kept : (w : S) → Kept (new_pipeline services first w)
  unfolding rows_jobs count
  new_pipeline-Kept w = record {
    k = 0;
    closed_rows = omega arith;
    stream = refl;
    counts = λ _. refl;
    above = tt;
    written = refl;
    persisted = omega arith;
    behind = omega arith;
    base = omega arith;
    few = omega arith;
    is_open = refl;
    running = refl;
  }

-- A media pipeline starts with the first rows of a history committed, no more than there are, and
-- is given all rows from the first one on. If any call raises, the pipeline was aborted: its
-- executor was shut down once, and it is closed, with its watermark saved if the shutdown waited,
-- unless the saving raised; the results of all media of the rows behind those committed at the
-- start, up to the row that the checkpoint has, were taken in the order of the rows, with at most
-- 8 jobs pending. If all calls return, exactly the media of the rows that were not committed at
-- the start are imported, in order, none is pending, the checkpoint has all rows, and the pipeline
-- is closed with its executor shut down once, after waiting.
pub import_media-Finished :
    {S : Type 0} (services : Services S) (history : ℕ → Row) (first rows : ℕ) (w : S)
    → first ≤ rows
    → Ensures
        (Aborted services history first)
        (λ _ q. Finished services history first rows q)
        (import_media services history rows (new_pipeline services first w))
unfolding import_media
import_media-Finished {S = S} services history first rows w within =
    let Fine : Pipeline S → Type 0 = λ p. Sound services history first p in
    let Post : Unit {0} → Pipeline S → Type 0 = λ _ q. Finished services history first rows q in
    let p = new_pipeline services first w in
    abort_on_error-Aborted services history first rows _ (
      bind-Ensures Fine _ Post (schedule_rows services history rows 1) (λ _. finish services) p
        (schedule_rows-Closes services history first rows 1 p (omega arith)
          (new_pipeline-Kept services history first w))
        λ _ q (kept, low, high).
          let end : q.last_closed_row ≡ rows = omega (arith, low, high, within) in
          subst (λ n. Ensures Fine (λ _ r. Finished services history first n r) (finish services q))
            end (finish-Finished services history first q kept))
