-- ===== src/Wandb/History/Spec/Taking.antt =====
-- Taking one row of a history.
use epochdeck.Prelude.{
  ℕ, ◌+◌, ◌≤◌, ◌≡◌, ◌∙◌, refl, ap, sym, subst, false, not, ◌&&◌, List, [], ◌∷◌, ◌++◌, arith, ltb,
  length,
}
use epochdeck.Error.{import_error}
use epochdeck.Exec.Ensures.{Ensures, bind-Ensures, map-Ensures, guard-Ensures, if_Ensures}
use epochdeck.Protocol.{is_empty}
use epochdeck.Wandb.{Point, Row, metric_batch_bytes, max_metrics_per_point, skipped_values}
use epochdeck.Wandb.History.{Setup, Saved, Import, Scan}
use epochdeck.Wandb.History.Loop.{flush, end_row, point_at, append_point, add_row}
use epochdeck.Wandb.History.Spec.{points_from, advance}
use epochdeck.Wandb.History.Spec.Scanning.{Ok, Bad, Near, At, Next, flush-Ensures, end_row-Ensures}
use epochdeck.Wandb.History.Spec.Appending.{append_point-Near}
use epochdeck.Wandb.History.Spec.Sending.{Clear-Stopped}
use epochdeck.Wandb.History.Spec.Splitting.{Filling, Filling-Fits, Filling-empty, and_more}

under_lem :
    {json_size : Point → ℕ} (batch : List Point) (batch_bytes size : ℕ)
    → Filling json_size batch batch_bytes
    → size ≤ metric_batch_bytes
    → (not (is_empty batch) && ltb metric_batch_bytes (batch_bytes + size)) ≡ false
    → batch_bytes + size ≤ metric_batch_bytes
unfolding is_empty
under_lem [] batch_bytes size f small h = omega (arith, f.counted, small)
under_lem (p ∷ ps) batch_bytes size f small h = ground arith

module _ {S Raw : Type 0} (setup : Setup S Raw) (rows : List Row) (points : List Point) where
  abbrev skips : Row → ℕ
  skips row = skipped_values setup.include_files row

  abbrev Good : List Point → Saved → Import S → Type 0
  Good later saved s = Ok setup rows points later saved s

  abbrev Fail : Import S → Type 0
  Fail s = Bad setup rows points s

  abbrev Done : Scan → Saved → List Row → Import S → Type 0
  Done l s rest st = At setup rows points l s rest st

  abbrev Taking : Scan → Saved → Row → List Row → Import S → Type 0
  Taking l s row rest st = Next setup rows points l s row rest st

  pub Next-Fail :
      (l : Scan) (s : Saved) (row : Row) (rest : List Row) (st : Import S)
      → Taking l s row rest st
      → Fail st
  Next-Fail l s row rest st n =
      Clear-Stopped setup.env setup.json_size skips rows points
        (l.batch ++ points_from s.next_sequence (row ∷ rest)) n.kept st n.clear

  pub end_row-Done :
      (l : Scan) (s : Saved) (rest : List Row) (st : Import S)
      → Near setup rows points l s rest st
      → Ensures Fail (λ m t. Done m s rest t) (end_row setup l st)
  end_row-Done l s rest st n = end_row-Ensures setup rows points l s rest st n

  -- After a batch was sent to make room.
  flushed-Next :
      (l : Scan) (s : Saved) (row : Row) (rest : List Row) (st t : Import S)
      → Taking l s row rest st
      → Good (points_from s.next_sequence (row ∷ rest)) s t
      → Taking
          (record l {
            batch = [];
            batch_bytes = 0;
            rows_committed = s.rows_committed;
            next_sequence = s.next_sequence;
          })
          s
          row
          rest
          t
  flushed-Next l s row rest st t n d = record {
    kept = s;
    clear = d;
    reached = n.reached;
    scanned = n.scanned;
    sequence = omega arith;
    unsupported = n.unsupported;
    filling = Filling-empty setup.json_size;
    committed = omega arith;
    ends = n.ends;
    free = omega arith;
  }

  pub flush-Next :
      (l : Scan) (s : Saved) (row : Row) (rest : List Row) (st : Import S)
      → is_empty l.batch ≡ false
      → Taking l s row rest st
      → Ensures Fail
          (λ m t.
            Taking m s row rest t
            × (m.batch ≡ [])
            × (m.batch_bytes ≡ 0)
            × (m.next_sequence ≡ s.next_sequence))
          (flush setup l l.unsupported_values st)
  flush-Next l s row rest st more n =
      let Post : Scan → Import S → Type 0 = λ m t.
        Taking m s row rest t
        × (m.batch ≡ [])
        × (m.batch_bytes ≡ 0)
        × (m.next_sequence ≡ s.next_sequence) in
      map-Ensures Fail _ Post _
        (flush-Ensures setup rows points l s n.kept (row ∷ rest) st n.clear n.reached
          (Filling-Fits setup.json_size l.batch l.batch_bytes more n.filling) n.ends n.sequence
          n.unsupported)
        λ m t (made, d).
          subst (λ x. Post x t) (sym made) (flushed-Next l s row rest st t n d, refl, refl, refl)

  pub add_row-Done :
      (l : Scan) (s : Saved) (row : Row) (rest : List Row) (st : Import S)
      → is_empty row.metrics ≡ false
      → ltb max_metrics_per_point (length row.metrics) ≡ false
      → Taking l s row rest st
      → Ensures Fail
          (λ m t. Done m (advance skips s row) rest t)
          (add_row setup l row (skips row) st)
  unfolding add_row
  add_row-Done l s row rest st some_metrics few n =
      let point = point_at setup row (l.next_sequence + length l.batch) in
      let size = setup.json_size point + 1 in
      let made : point ≡ point_at setup row s.next_sequence =
        ap (λ k. point_at setup row k) n.sequence in
      let overflows = not (is_empty l.batch) && ltb metric_batch_bytes (l.batch_bytes + size) in
      let Post : Scan → Import S → Type 0 = λ m t. Done m (advance skips s row) rest t in
      guard-Ensures Fail Post (ltb metric_batch_bytes size) import_error _ st
        (Next-Fail l s row rest st n)
        λ fits.
          if_Ensures Fail Post overflows _ _ st
            (λ over.
              bind-Ensures Fail _ Post (flush setup l l.unsupported_values) _ st
                (flush-Next l s row rest st (and_more l.batch _ over) n)
                λ m t (next, no_batch, no_bytes, sequence).
                  let q = record point { sequence = m.next_sequence } in
                  let again : q ≡ point_at setup row s.next_sequence =
                    ap (λ k. point_at setup row k) sequence in
                  let same : setup.json_size q + 1 ≡ size =
                    ap (λ x. setup.json_size x + 1) (again ∙ sym made) in
                  subst
                    (λ b.
                      Ensures Fail Post (end_row setup (append_point setup m q b (skips row)) t))
                    same
                    (end_row-Done (append_point setup m q (setup.json_size q + 1) (skips row))
                      (advance skips s row) rest t
                      (append_point-Near setup rows points m s row rest t q again some_metrics few
                        (ground (arith, fits, no_bytes, same)) next)))
            (λ under.
              end_row-Done (append_point setup l point size (skips row)) (advance skips s row) rest
                st
                (append_point-Near setup rows points l s row rest st point made some_metrics few
                  (under_lem l.batch l.batch_bytes size n.filling (ground (arith, fits)) under) n))
