-- ===== src/Wandb/History/Spec/Appending.antt =====
-- A row that sends nothing yet.
use epochdeck.Prelude.{
  ℕ, ◌+◌, ◌≤◌, ◌≡◌, ◌∙◌, ap, sym, subst, true, false, List, [], ◌∷◌, ◌++◌, append_assoc, arith, ltb,
  length, length-append,
}
use epochdeck.Protocol.{is_empty}
use epochdeck.Wandb.{Point, Row, metric_batch_bytes, max_metrics_per_point, skipped_values}
use epochdeck.Wandb.History.{Setup, Saved, Import, Scan}
use epochdeck.Wandb.History.Loop.{point_at, append_point}
use epochdeck.Wandb.History.Spec.{
  row_points-bare, row_points-one, numbered, row_points, points_from, advance, after,
}
use epochdeck.Wandb.History.Spec.Splitting.{Filling-append}
use epochdeck.Wandb.History.Spec.Scanning.{Ok, Near, Next}

module _ {S Raw : Type 0} (setup : Setup S Raw) (rows : List Row) (points : List Point) where
  abbrev skips : Row → ℕ
  skips row = skipped_values setup.include_files row

  -- A row without metrics.
  pub bare_row-Near :
      (l : Scan) (s : Saved) (row : Row) (rest : List Row) (st : Import S)
      → is_empty row.metrics ≡ true
      → Next setup rows points l s row rest st
      → Near setup rows points
          (record l { unsupported_values = l.unsupported_values + skips row })
          (advance skips s row)
          rest
          st
  unfolding points_from
  bare_row-Near l s row rest st bare n =
      let none_made = row_points-bare s.next_sequence row bare in
      record {
        kept = n.kept;
        clear =
            subst (λ ps. Ok setup rows points ps n.kept st)
              (ap
                (λ ps.
                  l.batch
                  ++ (ps
                      ++ points_from (s.next_sequence + length (row_points s.next_sequence row))
                          rest))
                none_made)
              n.clear;
        reached = after n.reached;
        scanned = n.scanned;
        sequence = omega (arith, n.sequence, ap length none_made);
        unsupported = ap (λ u. u + skips row) n.unsupported;
        filling = n.filling;
        committed = omega (arith, n.committed);
        saved_all = λ e. absurd (omega (arith, e, n.committed));
      }

  -- A point that is put into the batch.
  pub append_point-Near :
      (l : Scan) (s : Saved) (row : Row) (rest : List Row) (st : Import S) (q : Point)
      → q ≡ point_at setup row s.next_sequence
      → is_empty row.metrics ≡ false
      → ltb max_metrics_per_point (length row.metrics) ≡ false
      → l.batch_bytes + (setup.json_size q + 1) ≤ metric_batch_bytes
      → Next setup rows points l s row rest st
      → Near setup rows points
          (append_point setup l q (setup.json_size q + 1) (skips row))
          (advance skips s row)
          rest
          st
  unfolding points_from numbered
  append_point-Near l s row rest st q made some_metrics few small n =
      let one_made : row_points s.next_sequence row ≡ q ∷ [] =
        row_points-one s.next_sequence row some_metrics few ∙ ap (λ p. p ∷ []) (sym made) in
      record {
        kept = n.kept;
        clear =
            subst (λ ps. Ok setup rows points ps n.kept st)
              (ap
                  (λ ps.
                    l.batch
                    ++ (ps
                        ++ points_from (s.next_sequence + length (row_points s.next_sequence row))
                            rest))
                  one_made
                ∙ sym (
                    append_assoc l.batch (q ∷ []) (
                      points_from (s.next_sequence + length (row_points s.next_sequence row))
                        rest)))
              n.clear;
        reached = after n.reached;
        scanned = n.scanned;
        sequence = omega (arith, n.sequence, ap length one_made, length-append l.batch (q ∷ []));
        unsupported = ap (λ u. u + skips row) n.unsupported;
        filling = Filling-append setup.json_size l.batch l.batch_bytes q n.filling n.free small;
        committed = omega (arith, n.committed);
        saved_all = λ e. absurd (omega (arith, e, n.committed));
      }
