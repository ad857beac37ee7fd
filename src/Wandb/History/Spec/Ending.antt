-- ===== src/Wandb/History/Spec/Ending.antt =====
-- The rounds of an import that nothing interrupts, and its end.
use epochdeck.Prelude.{
  ℕ, ◌+◌, ◌≤◌, ◌≡◌, ◌∙◌, refl, ap, sym, subst, true, not, ◌&&◌, ◌||◌, List, [], ◌∷◌, map, arith,
  ltb, leb, ◌==◌, if◌then◌else◌, length,
}
use epochdeck.Error.{import_error, Result, ok, err, raise_if}
use epochdeck.Exec.{pure, lift, ◌>>◌}
use epochdeck.Exec.Ensures.{bind-Ensures, guard_passes, lift_passes, if_Ensures}
use epochdeck.Protocol.{is_empty}
use epochdeck.Wandb.{Row}
use epochdeck.Wandb.History.{Setup, Saved, Import, Scan, check, commit_metric_batch, save}
use epochdeck.Wandb.History.Loop.{
  schedule_media, import_row, import_rows, finish_batch, finish_rows, start, import_items, aborted,
  finish_media, import_history,
}
use epochdeck.Wandb.History.Spec.Returning.{
  then_Returns, Returns, Calm, Takeable, Takes, on_world-Runs, commit_Runs, save-Runs,
}
use epochdeck.Wandb.History.Spec.Completing.{
  history_items, Bounded, take_row-Keeps, schedule_media_Runs,
}

module _ {S Raw : Type 0} (setup : Setup S Raw) (calm : Calm setup.env) where
  abbrev Keeps : ℕ → Result Scan × Import S → Type 0
  Keeps n outcome = Returns (λ m _. Bounded setup calm n m) outcome

  import_row-Keeps :
      (n : ℕ) (l : Scan) (raw : Raw) (row : Row) (s : Import S)
      → n + 1 ≤ setup.limit
      → setup.read_row n raw ≡ ok row
      → Takeable setup.json_size row
      → Bounded setup calm n l
      → Keeps (n + 1) (import_row setup l (ok raw) s)
  unfolding import_row
  import_row-Keeps n l raw row s within reads takes b =
      let Kept : Scan → Import S → Type 0 = λ m _. Bounded setup calm (n + 1) m in
      let next = record l { scanned_rows = l.scanned_rows + 1 } in
      let bounded : Bounded setup calm (n + 1) next = record {
        scanned = omega (arith, b.scanned);
        committed = b.committed;
        ends = b.ends;
      } in
      then_Returns Kept (check setup.env setup.json_size) _ s
        (on_world-Runs setup.env setup.json_size calm setup.env.check_cancelled s
          calm.no_cancellation)
        λ _ t _.
          guard_passes (λ _. ⊥) Kept (ltb setup.limit (l.scanned_rows + 1)) import_error _ t
            (ground (arith, within, b.scanned))
            (lift_passes (λ _. ⊥) Kept (setup.read_row l.scanned_rows raw) row _ t
              (ap (λ k. setup.read_row k raw) b.scanned ∙ reads)
              (then_Returns Kept (schedule_media setup (l.scanned_rows + 1) row) _ t
                (schedule_media_Runs setup calm (l.scanned_rows + 1) row t)
                λ _ u _.
                  if_Ensures (λ _. ⊥) Kept (leb next.scanned_rows next.rows_committed) _ _ u
                    (λ _. bounded)
                    (λ _. take_row-Keeps setup calm (n + 1) next row u within takes bounded)))

  import_rows-Keeps :
      (raws : List Raw) (n : ℕ) (l : Scan) (s : Import S)
      → n + length raws ≡ setup.limit
      → Takes setup.json_size setup.read_row n raws
      → Bounded setup calm n l
      → Keeps setup.limit (import_rows setup l (map ok raws) s)
  unfolding import_rows
  import_rows-Keeps [] n l s count takes b = record {
    scanned = omega (arith, b.scanned, count);
    committed = b.committed;
    ends = b.ends;
  }
  import_rows-Keeps (raw ∷ raws) n l s count ((row, reads, first), takes) b =
      bind-Ensures (λ _. ⊥) (λ m _. Bounded setup calm (n + 1) m)
        (λ m _. Bounded setup calm setup.limit m) (import_row setup l (ok raw)) _ s
        (import_row-Keeps n l raw row s (omega (arith, count)) reads first b)
        λ m t c. import_rows-Keeps raws (n + 1) m t (omega (arith, count)) takes c

  finish_rows_Runs :
      (media_rows : ℕ) (l : Scan) (s : Import S)
      → media_rows ≤ setup.limit
      → Bounded setup calm setup.limit l
      → Returns (λ _ _. Unit {0}) (finish_rows setup true media_rows l s)
  unfolding finish_rows
  finish_rows_Runs media_rows l s media b =
      let Any : Saved → Import S → Type 0 = λ _ _. Unit in
      let tail = finish_batch setup l in
      let is_short = ltb l.scanned_rows l.rows_committed || ltb l.scanned_rows media_rows in
      guard_passes (λ _. ⊥) Any (true && not (l.scanned_rows == setup.limit)) import_error
        (lift (raise_if is_short import_error) >> tail) s (ground (arith, b.scanned))
        (guard_passes (λ _. ⊥) Any is_short import_error tail s
          (ground (arith, b.scanned, b.committed, media))
          (then_Returns Any
            (if is_empty l.batch
              then pure tt
              else commit_metric_batch setup.env setup.json_size l.batch)
            _ s
            (if_Ensures (λ _. ⊥) (λ _ _. Unit) (is_empty l.batch) _ _ s (λ _. tt)
              (λ _. commit_Runs setup.env setup.json_size calm l.batch s))
            λ _ t _.
              then_Returns Any
                (if ltb l.rows_committed l.scanned_rows
                  then save setup.env setup.json_size _
                  else pure tt)
                _ t
                (if_Ensures (λ _. ⊥) (λ _ _. Unit) (ltb l.rows_committed l.scanned_rows) _ _ t
                  (λ _. save-Runs setup.env setup.json_size calm _ t) (λ _. tt))
                λ _ _ _. tt))

  import_items_Runs :
      (raws : List Raw) (media_rows : ℕ) (s : Import S)
      → length raws ≡ setup.limit
      → Takes setup.json_size setup.read_row 0 raws
      → s.saved.rows_committed ≤ setup.limit
      → media_rows ≤ setup.limit
      → Returns (λ _ _. Unit {0}) (import_items setup (map ok raws) media_rows s)
  unfolding import_items
  import_items_Runs raws media_rows s count takes saved media =
      let l = start setup 0 s.saved in
      bind-Ensures (λ _. ⊥) (λ m _. Bounded setup calm setup.limit m) (λ _ _. Unit)
        (import_rows setup l (if setup.limit == 0 then [] else map ok raws)) _ s
        (subst (λ items. Keeps setup.limit (import_rows setup l items s))
          (sym (history_items setup.limit raws count))
          (import_rows-Keeps raws 0 l s (omega (arith, count)) takes
            (record { scanned = refl; committed = saved; ends = saved })))
        λ m t b. finish_rows_Runs media_rows m t media b

  aborted_Runs :
      {A : Type 0} (outcome : Result A × Import S)
      → Returns (λ _ _. Unit {0}) outcome
      → Returns (λ _ _. Unit {0}) (aborted setup outcome)
  aborted_Runs (ok a, s) h = tt
  aborted_Runs (err e, s) h = absurd h

  pub import_history_Runs :
      (raws : List Raw) (media_rows : ℕ) (s : Import S)
      → length raws ≡ setup.limit
      → Takes setup.json_size setup.read_row 0 raws
      → s.saved.rows_committed ≤ setup.limit
      → media_rows ≤ setup.limit
      → Returns (λ _ _. Unit {0}) (import_history setup (map ok raws) media_rows s)
  unfolding import_history
  import_history_Runs raws media_rows s count takes saved media = aborted_Runs _ (
      then_Returns (λ _ _. Unit) (import_items setup (map ok raws) media_rows) _ s
        (import_items_Runs raws media_rows s count takes saved media)
        λ progress t _.
          then_Returns (λ _ _. Unit) (finish_media setup media_rows) _ t
            (if_Ensures (λ _. ⊥) (λ _ _. Unit) setup.include_files _ _ t
              (λ _.
                on_world-Runs setup.env setup.json_size calm setup.env.finish_media t calm.finishes)
              (λ _. tt))
            λ _ _ _. tt)
