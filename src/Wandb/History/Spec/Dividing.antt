-- ===== src/Wandb/History/Spec/Dividing.antt =====
-- Taking a row of more than 256 metrics, and any row.
use epochdeck.Prelude.{
  ℕ, ◌+◌, ◌≡◌, ◌∙◌, refl, ap, sym, subst, true, false, List, [], ◌∷◌, ◌++◌, arith, ltb,
  if◌then◌else◌, length,
}
use epochdeck.Exec.{pure}
use epochdeck.Exec.Ensures.{Ensures, bind-Ensures, map-Ensures, lift-Ensures, if_Ensures}
use epochdeck.Metrics.{Floats}
use epochdeck.Protocol.{is_empty}
use epochdeck.Wandb.{Point, Row, max_metrics_per_point, skipped_values}
use epochdeck.Wandb.Rows.{validate_metric_keys}
use epochdeck.Wandb.History.{Setup, Saved, Import, Scan, metric_chunks, save, split_chunks}
use epochdeck.Wandb.History.Loop.{flush, split_row, take_row}
use epochdeck.Wandb.History.Spec.{row_points-chunks, numbered, points_from, advance, after}
use epochdeck.Wandb.History.Spec.Scanning.{Ok, Bad, At, Next}
use epochdeck.Wandb.History.Spec.Appending.{bare_row-Near}
use epochdeck.Wandb.History.Spec.Sending.{save-Clear}
use epochdeck.Wandb.History.Spec.Splitting.{Filling-empty, empty_lem, split_chunks-Clear}
use epochdeck.Wandb.History.Spec.Taking.{Next-Fail, end_row-Done, flush-Next, add_row-Done}

module _ {S Raw : Type 0} (setup : Setup S Raw) (rows : List Row) (points : List Point) where
  abbrev skips : Row → ℕ
  skips row = skipped_values setup.include_files row

  abbrev Good : List Point → Saved → Import S → Type 0
  Good later saved s = Ok setup rows points later saved s

  abbrev Fail : Import S → Type 0
  Fail s = Bad setup rows points s

  abbrev Done : Scan → Saved → List Row → Import S → Type 0
  Done l s rest st = At setup rows points l s rest st

  abbrev Taking : Scan → Saved → Row → List Row → Import S → Type 0
  Taking l s row rest st = Next setup rows points l s row rest st

  -- A batch is sent before a row that is split.
  emptied-Next :
      (l : Scan) (s : Saved) (row : Row) (rest : List Row) (st : Import S)
      → Taking l s row rest st
      → Ensures Fail
          (λ m t. Taking m s row rest t × (m.batch ≡ []))
          ((if is_empty l.batch then pure l else flush setup l l.unsupported_values) st)
  emptied-Next l s row rest st n =
      let Post : Scan → Import S → Type 0 = λ m t. Taking m s row rest t × (m.batch ≡ []) in
      if_Ensures Fail Post (is_empty l.batch) (pure l) (flush setup l l.unsupported_values) st
        (λ none_left. (n, empty_lem l.batch none_left))
        (λ more.
          map-Ensures Fail _ Post _ (flush-Next setup rows points l s row rest st more n)
            λ m t (next, no_batch, _, _). (next, no_batch))

  numbered-length :
      (row : Row) (k : ℕ) (chunks : List Floats) → length (numbered row k chunks) ≡ length chunks
  unfolding numbered
  numbered-length row k [] = refl
  numbered-length row k (c ∷ cs) = omega (arith, numbered-length row (k + 1) cs)

  split_row-Done :
      (l : Scan) (s : Saved) (row : Row) (rest : List Row) (st : Import S)
      → is_empty row.metrics ≡ false
      → ltb max_metrics_per_point (length row.metrics) ≡ true
      → Taking l s row rest st
      → Ensures Fail
          (λ m t. Done m (advance skips s row) rest t)
          (split_row setup l row (skips row) st)
  unfolding split_row points_from
  split_row-Done l s row rest st some_metrics many n =
      let next = advance skips s row in
      let later = points_from next.next_sequence rest in
      let chunks = metric_chunks row.metrics in
      let made = row_points-chunks s.next_sequence row some_metrics many in
      let Post : Scan → Import S → Type 0 = λ m t. Done m next rest t in
      bind-Ensures Fail _ Post
        (if is_empty l.batch then pure l else flush setup l l.unsupported_values) _ st
        (emptied-Next l s row rest st n)
        λ m t (at, no_batch).
          let first : m.next_sequence ≡ s.next_sequence =
            omega (arith, at.sequence, ap length no_batch) in
          let now : m.batch ++ points_from s.next_sequence (row ∷ rest)
              ≡ numbered row (m.next_sequence + 0) chunks ++ later =
            (λ i. no_batch i ++ (made i ++ later))
            ∙ ap (λ k. numbered row k chunks ++ later) (omega (arith, first)) in
          bind-Ensures Fail _ Post
            (split_chunks setup.env setup.json_size row m.next_sequence chunks [] 0 0) _ t
            (split_chunks-Clear setup.env setup.json_size skips rows points row m.next_sequence
              chunks [] later 0 0 at.kept t (Filling-empty setup.json_size)
              (subst (λ ps. Good ps at.kept t) now at.clear))
            λ count u (counted, d).
              let progress : Saved = record {
                rows_committed = m.scanned_rows;
                next_sequence = m.next_sequence + count;
                unsupported_values = m.unsupported_values + skips row;
              } in
              let sequence : m.next_sequence + count ≡ next.next_sequence = omega (
                arith,
                first,
                counted,
                ap length made,
                numbered-length row s.next_sequence chunks,
              ) in
              let same : progress ≡ next = λ i. record {
                rows_committed = at.scanned i;
                next_sequence = sequence i;
                unsupported_values = at.unsupported i + skips row;
              } in
              bind-Ensures Fail (λ _ v. Good later next v) Post
                (save setup.env setup.json_size progress) _ u
                (subst
                  (λ x.
                    Ensures Fail (λ _ v. Good later next v) (save setup.env setup.json_size x u))
                  (sym same)
                  (save-Clear setup.env setup.json_size skips rows points later at.kept next rest u
                    (after at.reached) refl d))
                λ _ v g. record {
                  near = record {
                    kept = next;
                    clear = subst (λ b. Good (b ++ later) next v) (sym no_batch) g;
                    reached = after at.reached;
                    scanned = at.scanned;
                    sequence = omega (arith, sequence, ap length no_batch);
                    unsupported = ap (λ k. k + skips row) at.unsupported;
                    filling = at.filling;
                    committed = omega (arith, at.scanned);
                    saved_all = λ _. refl;
                  };
                  ends = at.scanned;
                  free = at.free;
                }

  pub take_row-Done :
      (l : Scan) (s : Saved) (row : Row) (rest : List Row) (st : Import S)
      → Taking l s row rest st
      → Ensures Fail (λ m t. Done m (advance skips s row) rest t) (take_row setup l row st)
  unfolding take_row
  take_row-Done l s row rest st n =
      let Post : Scan → Import S → Type 0 = λ m t. Done m (advance skips s row) rest t in
      if_Ensures Fail Post (is_empty row.metrics) _ _ st
        (λ bare.
          end_row-Done setup rows points
            (record l { unsupported_values = l.unsupported_values + skips row })
            (advance skips s row) rest st (bare_row-Near setup rows points l s row rest st bare n))
        (λ some_metrics.
          lift-Ensures Fail Post (validate_metric_keys row.metrics) _ st
            (Next-Fail setup rows points l s row rest st n)
            λ _ _.
              if_Ensures Fail Post (ltb max_metrics_per_point (length row.metrics)) _ _ st
                (λ many. split_row-Done l s row rest st some_metrics many n)
                (λ few. add_row-Done setup rows points l s row rest st some_metrics few n))
