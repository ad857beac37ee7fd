-- ===== src/Wandb/History/Spec.antt =====
-- The points that a history stands for, and the progress after each of its rows.
pub mod Sending
pub mod Splitting
pub mod Scanning
pub mod Appending
pub mod Taking
pub mod Dividing
pub mod Rounds
pub mod Importing
pub mod Returning
pub mod Completing
pub mod Ending
use epochdeck.Prelude.{
  ap, ℕ, zero, suc, ◌+◌, ◌*◌, ◌≤◌, ◌<◌, ◌≡◌, Bool, true, false, List, [], ◌∷◌, ◌++◌, ltb,
  if◌then◌else◌, length, All,
}
use epochdeck.Error.{Error, Result, ok, err}
use epochdeck.Metrics.{Floats}
use epochdeck.Protocol.{is_empty}
use epochdeck.Wandb.{Point, Row, metric_batch_size, metric_batch_bytes, max_metrics_per_point}
use epochdeck.Wandb.History.{Saved, Import, metric_chunks}

unfoldable pub numbered : Row → ℕ → List Floats → List Point
numbered row sequence [] = []
numbered row sequence (metrics ∷ chunks) =
    record {
      sequence = sequence;
      step = row.step;
      timestamp_ms = row.timestamp_ms;
      metrics = metrics;
    }
    ∷ numbered row (sequence + 1) chunks

-- The points of a row: none, one, or one for each chunk of 256 metrics.
unfoldable pub row_points : ℕ → Row → List Point
unfolding numbered
row_points sequence row =
    if is_empty row.metrics
    then []
    else if ltb max_metrics_per_point (length row.metrics)
    then numbered row sequence (metric_chunks row.metrics)
    else numbered row sequence (row.metrics ∷ [])

-- A row without metrics, one whose chunks are sent, and one that is a point.
pub row_points-bare :
    (sequence : ℕ) (row : Row) → is_empty row.metrics ≡ true → row_points sequence row ≡ []
unfolding row_points
row_points-bare sequence row bare =
    ap
      (λ b.
        if b
        then []
        else if ltb max_metrics_per_point (length row.metrics)
        then numbered row sequence (metric_chunks row.metrics)
        else numbered row sequence (row.metrics ∷ []))
      bare

pub row_points-chunks :
    (sequence : ℕ) (row : Row)
    → is_empty row.metrics ≡ false
    → ltb max_metrics_per_point (length row.metrics) ≡ true
    → row_points sequence row ≡ numbered row sequence (metric_chunks row.metrics)
unfolding row_points
row_points-chunks sequence row some_metrics many = λ i.
    if some_metrics i
    then []
    else if many i
    then numbered row sequence (metric_chunks row.metrics)
    else numbered row sequence (row.metrics ∷ [])

pub row_points-one :
    (sequence : ℕ) (row : Row)
    → is_empty row.metrics ≡ false
    → ltb max_metrics_per_point (length row.metrics) ≡ false
    → row_points sequence row ≡ numbered row sequence (row.metrics ∷ [])
unfolding row_points
row_points-one sequence row some_metrics few = λ i.
    if some_metrics i
    then []
    else if few i
    then numbered row sequence (metric_chunks row.metrics)
    else numbered row sequence (row.metrics ∷ [])

unfoldable pub points_from : ℕ → List Row → List Point
unfolding row_points
points_from sequence [] = []
points_from sequence (row ∷ rows) =
    row_points sequence row ++ points_from (sequence + length (row_points sequence row)) rows

unfoldable pub flatten : List (List Point) → List Point
flatten [] = []
flatten (b ∷ bs) = b ++ flatten bs

abbrev pub advance : (Row → ℕ) → Saved → Row → Saved
advance skipped s row = record {
  rows_committed = s.rows_committed + 1;
  next_sequence = s.next_sequence + length (row_points s.next_sequence row);
  unsupported_values = s.unsupported_values + skipped row;
}

-- The progress after some of the rows, and the rows behind them.
abbrev pub nothing_saved : Saved
nothing_saved = record { rows_committed = 0; next_sequence = 1; unsupported_values = 0 }

pub data Progress (skipped : Row → ℕ) (rows : List Row) : Saved → List Row → Type 0 where
  at_start : Progress skipped rows nothing_saved rows
  after :
      {s : Saved} {row : Row} {rest : List Row}
      → Progress skipped rows s (row ∷ rest)
      → Progress skipped rows (advance skipped s row) rest

module _ {Raw : Type 0} (read_row : ℕ → Raw → Result Row) where
  abbrev pub cons_row : Result Row → List Row → List Row
  cons_row (err e) rows = []
  cons_row (ok row) rows = row ∷ rows

  -- The rows before the first one that cannot be read.
  unfoldable pub readable : ℕ → List (Result Raw) → List Row
  readable n [] = []
  readable n (err e ∷ items) = []
  readable n (ok raw ∷ items) = cons_row (read_row n raw) (readable (n + 1) items)

module _ (json_size : Point → ℕ) where
  abbrev pub total : List Point → ℕ
  total [] = 0
  total (p ∷ ps) = (json_size p + 1) + total ps

  -- A request that the server takes: not empty, at most 512 points, within the byte budget.
  pub record Fits (batch : List Point) : Type 0 where
    pub some_points : is_empty batch ≡ false
    pub few : length batch ≤ metric_batch_size
    pub small : total batch ≤ metric_batch_bytes

-- The saved progress is one of the history, and the points before it are acknowledged.
pub record Stored (skipped : Row → ℕ) (rows : List Row) (points : List Point)
    (acknowledged : List (List Point)) (saved : Saved) : Type 0 where
  pub rest : List Row
  pub reached : Progress skipped rows saved rest
  pub before : List Point
  pub more : List Point
  pub splits : before ++ points_from saved.next_sequence rest ≡ points
  pub sent_before : before ++ more ≡ flatten acknowledged
