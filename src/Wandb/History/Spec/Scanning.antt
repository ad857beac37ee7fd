-- ===== src/Wandb/History/Spec/Scanning.antt =====
-- The rows of a history, one after the other.

use epochdeck.Prelude.{
  ℕ, ◌+◌, ◌≤◌, ◌<◌, ◌≡◌, refl, sym, subst, true, false, List, [], ◌∷◌, ◌++◌, arith, leb, length,
}
use epochdeck.Exec.{pure}
use epochdeck.Exec.Ensures.{Ensures, bind-Ensures, map-Ensures, if_Ensures}
use epochdeck.Protocol.{is_empty}
use epochdeck.Wandb.{Point, Row, metric_batch_size, skipped_values}
use epochdeck.Wandb.History.{Setup, Saved, Import, Scan, commit_metric_batch, save}
use epochdeck.Wandb.History.Loop.{flush, end_row}
use epochdeck.Wandb.History.Spec.{points_from, Progress, Fits}
use epochdeck.Wandb.History.Spec.Sending.{Stopped, Clear, commit_Clear, save-Clear}
use epochdeck.Wandb.History.Spec.Splitting.{Filling, Filling-Fits, Filling-empty}

full_lem :
    (batch : List Point) → leb metric_batch_size (length batch) ≡ true → is_empty batch ≡ false
unfolding is_empty
full_lem [] h = ground arith
full_lem (p ∷ ps) h = refl

module _ {S Raw : Type 0} (setup : Setup S Raw) (rows : List Row) (points : List Point) where
  abbrev skips : Row → ℕ
  skips row = skipped_values setup.include_files row

  abbrev pub Ok : List Point → Saved → Import S → Type 0
  Ok later saved s = Clear setup.env setup.json_size skips rows points later saved s

  abbrev pub Bad : Import S → Type 0
  Bad s = Stopped setup.env setup.json_size skips rows points s

  -- The variables of the loop after the rows of the progress `s`, before the batch is looked at.
  pub record Near (l : Scan) (s : Saved) (rest : List Row) (st : Import S) : Type 0 where
    pub kept : Saved
    pub clear : Ok (l.batch ++ points_from s.next_sequence rest) kept st
    pub reached : Progress skips rows s rest
    pub scanned : l.scanned_rows ≡ s.rows_committed
    pub sequence : l.next_sequence + length l.batch ≡ s.next_sequence
    pub unsupported : l.unsupported_values ≡ s.unsupported_values
    pub filling : Filling setup.json_size l.batch l.batch_bytes
    pub committed : l.rows_committed ≤ s.rows_committed
    pub saved_all : l.rows_committed ≡ s.rows_committed → kept ≡ s

  -- The same between two rounds.
  pub record At (l : Scan) (s : Saved) (rest : List Row) (st : Import S) : Type 0 where
    pub near : Near l s rest st
    pub ends : l.batch_rows_end ≡ s.rows_committed
    pub free : length l.batch < metric_batch_size

  pub flush-Ensures :
      (l : Scan) (s : Saved) (kept : Saved) (rest : List Row) (st : Import S)
      → Ok (l.batch ++ points_from s.next_sequence rest) kept st
      → Progress skips rows s rest
      → Fits setup.json_size l.batch
      → l.batch_rows_end ≡ s.rows_committed
      → l.next_sequence + length l.batch ≡ s.next_sequence
      → l.unsupported_values ≡ s.unsupported_values
      → Ensures Bad
          (λ m t.
            (m ≡ record l {
              batch = [];
              batch_bytes = 0;
              rows_committed = s.rows_committed;
              next_sequence = s.next_sequence;
            })
            × Ok (points_from s.next_sequence rest) s t)
          (flush setup l l.unsupported_values st)
  unfolding flush
  flush-Ensures l s kept rest st c reached fits ends sequence unsupported =
      let progress : Saved = record {
        rows_committed = l.batch_rows_end;
        next_sequence = l.next_sequence + length l.batch;
        unsupported_values = l.unsupported_values;
      } in
      let same : progress ≡ s = λ i. record {
        rows_committed = ends i;
        next_sequence = sequence i;
        unsupported_values = unsupported i;
      } in
      let Post : Scan → Import S → Type 0 = λ m t.
        (m ≡ record l {
          batch = [];
          batch_bytes = 0;
          rows_committed = s.rows_committed;
          next_sequence = s.next_sequence;
        })
        × Ok (points_from s.next_sequence rest) s t in
      bind-Ensures Bad (λ _ t. Ok (points_from s.next_sequence rest) kept t) Post
        (commit_metric_batch setup.env setup.json_size l.batch) _ st
        (commit_Clear setup.env setup.json_size skips rows points l.batch
          (points_from s.next_sequence rest) kept st fits c)
        λ _ t d.
          bind-Ensures Bad (λ _ u. Ok (points_from s.next_sequence rest) s u) Post
            (save setup.env setup.json_size progress) _ t
            (subst
              (λ v.
                Ensures Bad (λ _ u. Ok (points_from s.next_sequence rest) s u)
                  (save setup.env setup.json_size v t))
              (sym same)
              (save-Clear setup.env setup.json_size skips rows points
                (points_from s.next_sequence rest) kept s rest t reached refl d))
            λ _ u g. (
              (λ i. record l {
                batch = [];
                batch_bytes = 0;
                rows_committed = ends i;
                next_sequence = sequence i;
              }),
              g,
            )

  pub flushed-At :
      (l : Scan) (s : Saved) (rest : List Row) (st : Import S)
      → Progress skips rows s rest
      → l.scanned_rows ≡ s.rows_committed
      → l.unsupported_values ≡ s.unsupported_values
      → l.batch_rows_end ≡ s.rows_committed
      → Ok (points_from s.next_sequence rest) s st
      → At
          (record l {
            batch = [];
            batch_bytes = 0;
            rows_committed = s.rows_committed;
            next_sequence = s.next_sequence;
          })
          s
          rest
          st
  flushed-At l s rest st reached scanned unsupported ends d = record {
    near = record {
      kept = s;
      clear = d;
      reached = reached;
      scanned = scanned;
      sequence = omega arith;
      unsupported = unsupported;
      filling = Filling-empty setup.json_size;
      committed = omega arith;
      saved_all = λ _. refl;
    };
    ends = ends;
    free = omega arith;
  }

  Near-ends :
      (l : Scan) (rows_end : ℕ) (s : Saved) (rest : List Row) (st : Import S)
      → Near l s rest st
      → Near (record l { batch_rows_end = rows_end }) s rest st
  Near-ends l rows_end s rest st n = record {
    kept = n.kept;
    clear = n.clear;
    reached = n.reached;
    scanned = n.scanned;
    sequence = n.sequence;
    unsupported = n.unsupported;
    filling = n.filling;
    committed = n.committed;
    saved_all = n.saved_all;
  }

  pub end_row-Ensures :
      (l : Scan) (s : Saved) (rest : List Row) (st : Import S)
      → Near l s rest st
      → Ensures Bad (λ m t. At m s rest t) (end_row setup l st)
  unfolding end_row
  end_row-Ensures l s rest st n =
      let at = record l { batch_rows_end = l.scanned_rows } in
      if_Ensures Bad (λ m t. At m s rest t) (leb metric_batch_size (length l.batch))
        (flush setup at at.unsupported_values) (pure at) st
        (λ full.
          map-Ensures Bad _ (λ m t. At m s rest t) _
            (flush-Ensures at s n.kept rest st n.clear n.reached
              (Filling-Fits setup.json_size l.batch l.batch_bytes (full_lem l.batch full) n.filling)
              n.scanned n.sequence n.unsupported)
            λ m t (made, d).
              subst (λ x. At x s rest t) (sym made)
                (flushed-At at s rest t n.reached n.scanned n.unsupported n.scanned d))
        (λ room. record {
          near = Near-ends l l.scanned_rows s rest st n;
          ends = n.scanned;
          free = ground (arith, room);
        })

  -- The next row was read, and is not taken yet.
  pub record Next (l : Scan) (s : Saved) (row : Row) (rest : List Row) (st : Import S)
      : Type 0 where
    pub kept : Saved
    pub clear : Ok (l.batch ++ points_from s.next_sequence (row ∷ rest)) kept st
    pub reached : Progress skips rows s (row ∷ rest)
    pub scanned : l.scanned_rows ≡ s.rows_committed + 1
    pub sequence : l.next_sequence + length l.batch ≡ s.next_sequence
    pub unsupported : l.unsupported_values ≡ s.unsupported_values
    pub filling : Filling setup.json_size l.batch l.batch_bytes
    pub committed : l.rows_committed ≤ s.rows_committed
    pub ends : l.batch_rows_end ≡ s.rows_committed
    pub free : length l.batch < metric_batch_size
