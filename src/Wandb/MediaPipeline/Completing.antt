-- ===== src/Wandb/MediaPipeline/Completing.antt =====
-- The media of a history, from the first row to the pipeline's end.
use epochdeck.Prelude.{
  ℕ, zero, suc, ◌+◌, ◌≤◌, ◌≡◌, ◌∙◌, refl, ap, sym, max, not, List, [], ◌++◌, append-nil, arith, leb,
  ◌==◌, length,
}
use epochdeck.Error.{import_error, runtime_error}
use epochdeck.Exec.Ensures.{Ensures, bind-Ensures, map-Ensures, guard-Ensures, if_Ensures}
use epochdeck.Wandb.{Row}
use epochdeck.Wandb.MediaPipeline.{
  Job, Services, Pipeline, advance_watermark, submit_all, schedule_row, schedule, drain_one,
  drain_all, schedule_rows,
}
use epochdeck.Wandb.MediaPipeline.Watermark.{jobs_from, rows_jobs, Ordered, Sound, outside-Ordered}
use epochdeck.Wandb.MediaPipeline.Advancing.{advance_watermark-Advanced}
use epochdeck.Wandb.MediaPipeline.Draining.{Drained, drain_one-Drained}
use epochdeck.Wandb.MediaPipeline.Submitting.{submit_all-Waiting}

module _ {S : Type 0} (services : Services S) (history : ℕ → Row) (first : ℕ) where
  abbrev Kept : List Job → Pipeline S → Type 0
  Kept part p = Ordered services history first part p

  abbrev Fine : Pipeline S → Type 0
  Fine p = Sound services history first p

  pub Kept-Fine : (p : Pipeline S) → Kept [] p → Fine p
  Kept-Fine p h = record { part = []; ordered = h }

  -- A row is closed.
  abbrev Closes : ℕ → Pipeline S → Pipeline S → Type 0
  Closes n p q = Kept [] q × (n ≤ q.last_closed_row) × (q.last_closed_row ≤ max p.last_closed_row n)

  close_row :
      (n : ℕ) (p : Pipeline S)
      → n ≡ p.last_closed_row + 1
      → Kept ([] ++ jobs_from n (history n) 0 (history n).media) p
      → Kept [] (record p { last_closed_row = n })
  unfolding rows_jobs
  close_row n p next h =
      let row : n ≡ first + suc h.k = omega (arith, next, h.closed_rows) in
      record {
        k = suc h.k;
        closed_rows = row;
        stream =
            h.stream
            ∙ ap
                (λ m.
                  rows_jobs services history first h.k
                  ++ jobs_from m (history m) 0 (history m).media)
                row
            ∙ sym (append-nil (rows_jobs services history first (suc h.k)));
        counts = h.counts;
        above = h.above;
        written = h.written;
        persisted = h.persisted;
        behind = omega (arith, h.behind, next);
        base = h.base;
        few = h.few;
        is_open = h.is_open;
        running = h.running;
      }

  schedule_row-Closes :
      (n : ℕ) (p : Pipeline S)
      → n ≡ p.last_closed_row + 1
      → Kept [] p
      → Ensures Fine (λ _ q. Closes n p q) (schedule_row services n (history n) p)
  schedule_row-Closes n p next h =
      let jobs = jobs_from n (history n) 0 (history n).media in
      bind-Ensures Fine _ (λ _ q. Closes n p q)
        (submit_all services n (history n) 0 (history n).media) _ p
        (submit_all-Waiting services history first n (history n) 0 (history n).media [] p next h)
        λ _ q (ordered, same).
          let closed = record q { last_closed_row = n } in
          map-Ensures Fine _ (λ _ r. Closes n p r) (advance_watermark services closed)
            (advance_watermark-Advanced services history first [] closed
              (close_row n q (omega (arith, next, same)) ordered))
            λ _ r a. (a.ordered, omega (arith, a.same_closed), omega (arith, a.same_closed))

  schedule-Closes :
      (n : ℕ) (p : Pipeline S)
      → Kept [] p
      → Ensures Fine (λ _ q. Closes n p q) (schedule services n (history n) p)
  unfolding schedule
  schedule-Closes n p h =
      let Post : Unit {0} → Pipeline S → Type 0 = λ _ q. Closes n p q in
      outside-Ordered services history first Post services.check_cancelled _ [] p h λ _ w g.
        let q = record p { world = w } in
        guard-Ensures Fine Post p.closed runtime_error _ q (Kept-Fine q g) λ _.
          if_Ensures Fine Post (leb n p.committed_rows) _ _ q
            (λ committed. (g, ground (arith, committed, g.behind), omega arith))
            (λ _.
              guard-Ensures Fine Post (not (n == p.last_closed_row + 1)) import_error
                (schedule_row services n (history n)) q (Kept-Fine q g)
                λ next. schedule_row-Closes n q (ground (arith, next)) g)

  pub schedule_rows-Closes :
      (rows next : ℕ) (p : Pipeline S)
      → next ≤ p.last_closed_row + 1
      → Kept [] p
      → Ensures Fine
          (λ _ q.
            Kept [] q
            × (rows + next ≤ q.last_closed_row + 1)
            × (q.last_closed_row + 1 ≤ max (p.last_closed_row + 1) (rows + next)))
          (schedule_rows services history rows next p)
  unfolding schedule_rows
  schedule_rows-Closes zero next p reached h = (h, omega (arith, reached), omega arith)
  schedule_rows-Closes (suc rows) next p reached h =
      let Post : Unit {0} → Pipeline S → Type 0 = λ _ q.
        Kept [] q
        × (suc rows + next ≤ q.last_closed_row + 1)
        × (q.last_closed_row + 1 ≤ max (p.last_closed_row + 1) (suc rows + next)) in
      bind-Ensures Fine (λ _ q. Closes next p q) Post (schedule services next (history next)) _ p
        (schedule-Closes next p h)
        λ _ q (ordered, under, over).
          map-Ensures Fine _ Post (schedule_rows services history rows (next + 1) q)
            (schedule_rows-Closes rows (next + 1) q (omega (arith, under)) ordered)
            λ _ r (done, low, high). (done, omega (arith, low), omega (arith, high, over))

  pub drain_all-Kept :
      (n : ℕ) (p : Pipeline S)
      → length p.pending ≡ n
      → Kept [] p
      → Ensures Fine
          (λ _ q. Kept [] q × (length q.pending ≡ 0) × (q.last_closed_row ≡ p.last_closed_row))
          (drain_all services n p)
  unfolding drain_all
  drain_all-Kept zero p all h = (h, all, refl)
  drain_all-Kept (suc n) p all h =
      let Post : Unit {0} → Pipeline S → Type 0 =
        λ _ q. Kept [] q × (length q.pending ≡ 0) × (q.last_closed_row ≡ p.last_closed_row) in
      outside-Ordered services history first Post services.check_cancelled _ [] p h λ _ w g.
        bind-Ensures Fine (λ _ q. Drained services history first [] (record p { world = w }) q) Post
          (drain_one services) _ (record p { world = w })
          (drain_one-Drained services history first [] (record p { world = w }) (omega (arith, all))
            g)
          λ _ q d.
            map-Ensures Fine _ Post (drain_all services n q)
              (drain_all-Kept n q (omega (arith, all, d.shorter)) d.ordered)
              λ _ r (ordered, none_left, same). (ordered, none_left, same ∙ d.same_closed)
