-- ===== src/Wandb/History/Spec/Completing.antt =====
-- An import that nothing interrupts.
use epochdeck.Prelude.{
  none_of, ℕ, ◌+◌, ◌≤◌, ◌≡◌, refl, ap, sym, subst, Bool, true, false, not, ◌&&◌, List, [], map,
  arith, ltb, leb, ◌==◌, if◌then◌else◌, length, All,
}
use epochdeck.Error.{import_error, Result, ok}
use epochdeck.Exec.{pure}
use epochdeck.Exec.Ensures.{bind-Ensures, guard_passes, lift_passes, if_Ensures}
use epochdeck.Protocol.{is_empty}
use epochdeck.Wandb.{Row, metric_batch_size, metric_batch_bytes, max_metrics_per_point}
use epochdeck.Wandb.Rows.{validate_metric_keys}
use epochdeck.Wandb.History.{
  Setup, Import, Scan, metric_chunks, commit_metric_batch, save, split_chunks,
}
use epochdeck.Wandb.History.Loop.{
  flush, end_row, split_row, point_at, add_row, take_row, schedule_media,
}
use epochdeck.Wandb.History.Chunks.{length-sorted, metric_chunks-Cuts}
use epochdeck.Wandb.History.Spec.{row_points-chunks, row_points-one, numbered}
use epochdeck.Wandb.History.Spec.Returning.{
  then_Returns, Returns, Calm, Takeable, on_world-Runs, commit_Runs, save-Runs, split_chunks-Runs,
}

if_items :
    {Raw : Type 0} (b : Bool) (raws : List Raw)
    → (b ≡ true → raws ≡ [])
    → (if b then [] else map ok raws) ≡ map {B = Result Raw} ok raws
if_items true raws h = ap (map ok) (sym (h refl))
if_items false raws h = refl

pub history_items :
    {Raw : Type 0} (limit : ℕ) (raws : List Raw)
    → length raws ≡ limit
    → (if limit == 0 then [] else map ok raws) ≡ map {B = Result Raw} ok raws
history_items limit raws count =
    if_items (limit == 0) raws λ h. none_of raws (ground (arith, h, count))

module _ {S Raw : Type 0} (setup : Setup S Raw) (calm : Calm setup.env) where
  -- The variables of the loop after `n` rows.
  pub record Bounded (n : ℕ) (l : Scan) : Type 0 where
    pub scanned : l.scanned_rows ≡ n
    pub committed : l.rows_committed ≤ setup.limit
    pub ends : l.batch_rows_end ≤ setup.limit

  abbrev Keeps : ℕ → Result Scan × Import S → Type 0
  Keeps n outcome = Returns (λ m _. Bounded n m) outcome

  flush-Keeps :
      (n : ℕ) (l : Scan) (unsupported : ℕ) (s : Import S)
      → Bounded n l
      → Keeps n (flush setup l unsupported s)
  unfolding flush
  flush-Keeps n l unsupported s b =
      then_Returns (λ m _. Bounded n m) (commit_metric_batch setup.env setup.json_size l.batch) _ s
        (commit_Runs setup.env setup.json_size calm l.batch s)
        λ _ t _.
          then_Returns (λ m _. Bounded n m) (save setup.env setup.json_size _) _ t
            (save-Runs setup.env setup.json_size calm _ t)
            λ _ _ _. record { scanned = b.scanned; committed = b.ends; ends = b.ends }

  end_row-Keeps :
      (n : ℕ) (l : Scan) (s : Import S)
      → n ≤ setup.limit
      → Bounded n l
      → Keeps n (end_row setup l s)
  unfolding end_row
  end_row-Keeps n l s within b =
      let at = record l { batch_rows_end = l.scanned_rows } in
      let bounded : Bounded n at = record {
        scanned = b.scanned;
        committed = b.committed;
        ends = omega (arith, b.scanned, within);
      } in
      if_Ensures (λ _. ⊥) (λ m _. Bounded n m) (leb metric_batch_size (length l.batch)) _ _ s
        (λ _. flush-Keeps n at at.unsupported_values s bounded) (λ _. bounded)

  split_row-Keeps :
      (n : ℕ) (l : Scan) (row : Row) (skipped : ℕ) (s : Import S)
      → n ≤ setup.limit
      → is_empty row.metrics ≡ false
      → ltb max_metrics_per_point (length row.metrics) ≡ true
      → Takeable setup.json_size row
      → Bounded n l
      → Keeps n (split_row setup l row skipped s)
  unfolding split_row
  split_row-Keeps n l row skipped s within some_metrics many takes b =
      let chunks = metric_chunks row.metrics in
      bind-Ensures (λ _. ⊥) (λ m _. Bounded n m) (λ m _. Bounded n m)
        (if is_empty l.batch then pure l else flush setup l l.unsupported_values) _ s
        (if_Ensures (λ _. ⊥) (λ m _. Bounded n m) (is_empty l.batch) _ _ s (λ _. b)
          (λ _. flush-Keeps n l l.unsupported_values s b))
        λ m t c.
          let made = row_points-chunks (m.next_sequence + 0) row some_metrics many in
          then_Returns (λ m _. Bounded n m)
            (split_chunks setup.env setup.json_size row m.next_sequence chunks [] 0 0) _ t
            (split_chunks-Runs setup.env setup.json_size calm row m.next_sequence chunks [] 0 0 t
              (omega (
                arith,
                (metric_chunks-Cuts row.metrics).tight,
                length-sorted row.metrics,
                takes.few,
              ))
              (subst (All (λ p. setup.json_size p + 1 ≤ metric_batch_bytes)) made
                (takes.small (m.next_sequence + 0))))
            λ count u _.
              then_Returns (λ m _. Bounded n m) (save setup.env setup.json_size _) _ u
                (save-Runs setup.env setup.json_size calm _ u)
                λ _ _ _. record {
                  scanned = c.scanned;
                  committed = omega (arith, c.scanned, within);
                  ends = omega (arith, c.scanned, within);
                }

  add_row-Keeps :
      (n : ℕ) (l : Scan) (row : Row) (skipped : ℕ) (s : Import S)
      → n ≤ setup.limit
      → is_empty row.metrics ≡ false
      → ltb max_metrics_per_point (length row.metrics) ≡ false
      → Takeable setup.json_size row
      → Bounded n l
      → Keeps n (add_row setup l row skipped s)
  unfolding add_row numbered
  add_row-Keeps n l row skipped s within some_metrics few takes b =
      let k = l.next_sequence + length l.batch in
      let point = point_at setup row k in
      let size = setup.json_size point + 1 in
      let made = row_points-one k row some_metrics few in
      let fits : size ≤ metric_batch_bytes =
        (subst (All (λ p. setup.json_size p + 1 ≤ metric_batch_bytes)) made (takes.small k)).0 in
      let Kept : Scan → Import S → Type 0 = λ m _. Bounded n m in
      guard_passes (λ _. ⊥) Kept (ltb metric_batch_bytes size) import_error _ s
        (ground (arith, fits))
        (if_Ensures (λ _. ⊥) Kept
          (not (is_empty l.batch) && ltb metric_batch_bytes (l.batch_bytes + size)) _ _ s
          (λ _.
            bind-Ensures (λ _. ⊥) Kept Kept (flush setup l l.unsupported_values) _ s
              (flush-Keeps n l l.unsupported_values s b)
              λ m t c.
                end_row-Keeps n _ t within
                  (record { scanned = c.scanned; committed = c.committed; ends = c.ends }))
          (λ _.
            end_row-Keeps n _ s within
              (record { scanned = b.scanned; committed = b.committed; ends = b.ends })))

  pub take_row-Keeps :
      (n : ℕ) (l : Scan) (row : Row) (s : Import S)
      → n ≤ setup.limit
      → Takeable setup.json_size row
      → Bounded n l
      → Keeps n (take_row setup l row s)
  unfolding take_row
  take_row-Keeps n l row s within takes b =
      let Kept : Scan → Import S → Type 0 = λ m _. Bounded n m in
      if_Ensures (λ _. ⊥) Kept (is_empty row.metrics) _ _ s
        (λ _.
          end_row-Keeps n _ s within
            (record { scanned = b.scanned; committed = b.committed; ends = b.ends }))
        (λ some_metrics.
          lift_passes (λ _. ⊥) Kept (validate_metric_keys row.metrics) tt _ s takes.keys
            (if_Ensures (λ _. ⊥) Kept (ltb max_metrics_per_point (length row.metrics)) _ _ s
              (λ many. split_row-Keeps n l row _ s within some_metrics many takes b)
              (λ few. add_row-Keeps n l row _ s within some_metrics few takes b)))

  pub schedule_media_Runs :
      (n : ℕ) (row : Row) (s : Import S) → Returns (λ _ _. Unit {0}) (schedule_media setup n row s)
  schedule_media_Runs n row s =
      if_Ensures (λ _. ⊥) (λ _ _. Unit) setup.include_files _ _ s
        (λ _.
          on_world-Runs setup.env setup.json_size calm (setup.env.schedule n row) s
            (calm.schedules n row))
        (λ _. tt)
