-- ===== src/Wandb/History/Loop.antt =====
-- The loop of `_import_history`.
use epochdeck.Prelude.{
  ℕ, ◌+◌, max, Bool, true, not, ◌&&◌, ◌||◌, List, [], ◌∷◌, ◌++◌, ltb, leb, ◌==◌, if◌then◌else◌,
  length,
}
use epochdeck.Error.{import_error, Result, ok, err, raise_if}
use epochdeck.Exec.{Exec, pure, lift, ◌>>=◌, ◌>>◌}
use epochdeck.Protocol.{is_empty}
use epochdeck.Wandb.{
  Point, Row, metric_batch_size, metric_batch_bytes, max_metrics_per_point, skipped_values,
}
use epochdeck.Wandb.Rows.{validate_metric_keys}
use epochdeck.Wandb.History.{
  Setup, Saved, Import, Scan, metric_chunks, on_world, check, commit_metric_batch, save,
  split_chunks,
}

module _ {S Raw : Type 0} (setup : Setup S Raw) where
  -- The batch is sent, and its rows are marked as committed.
  unfoldable pub flush : Scan → ℕ → Exec (Import S) Scan
  unfolding commit_metric_batch save
  flush l unsupported = do
    commit_metric_batch setup.env setup.json_size l.batch
    save setup.env setup.json_size (record {
      rows_committed = l.batch_rows_end;
      next_sequence = l.next_sequence + length l.batch;
      unsupported_values = unsupported;
    })
    pure (record l {
      batch = [];
      batch_bytes = 0;
      rows_committed = l.batch_rows_end;
      next_sequence = l.next_sequence + length l.batch;
    })

  -- The end of a round: a batch of 512 points is sent.
  unfoldable pub end_row : Scan → Exec (Import S) Scan
  unfolding flush
  end_row l =
      let at = record l { batch_rows_end = l.scanned_rows } in
      if leb metric_batch_size (length at.batch) then flush at at.unsupported_values else pure at

  -- A row of more than 256 metrics.
  unfoldable pub split_row : Scan → Row → ℕ → Exec (Import S) Scan
  unfolding flush split_chunks save
  split_row l row skipped = do
    m ← if is_empty l.batch then pure l else flush l l.unsupported_values
    points ←
        split_chunks setup.env setup.json_size row m.next_sequence (metric_chunks row.metrics) [] 0
          0
    save setup.env setup.json_size (record {
      rows_committed = m.scanned_rows;
      next_sequence = m.next_sequence + points;
      unsupported_values = m.unsupported_values + skipped;
    })
    pure (record m {
      batch_rows_end = m.scanned_rows;
      rows_committed = m.scanned_rows;
      next_sequence = m.next_sequence + points;
      unsupported_values = m.unsupported_values + skipped;
    })

  abbrev pub point_at : Row → ℕ → Point
  point_at row sequence = record {
    sequence = sequence;
    step = row.step;
    timestamp_ms = row.timestamp_ms;
    metrics = row.metrics;
  }

  -- `batch.append(point)`
  abbrev pub append_point : Scan → Point → ℕ → ℕ → Scan
  append_point l point point_bytes skipped = record l {
    batch = l.batch ++ point ∷ [];
    batch_bytes = l.batch_bytes + point_bytes;
    unsupported_values = l.unsupported_values + skipped;
  }

  -- A row of at most 256 metrics.
  unfoldable pub add_row : Scan → Row → ℕ → Exec (Import S) Scan
  unfolding flush end_row
  add_row l row skipped = do
    let point = point_at row (l.next_sequence + length l.batch)
    let point_bytes = setup.json_size point + 1
    lift (raise_if (ltb metric_batch_bytes point_bytes) import_error)
    if not (is_empty l.batch) && ltb metric_batch_bytes (l.batch_bytes + point_bytes)
        then (flush l l.unsupported_values >>= λ m.
            end_row
              (append_point m (record point { sequence = m.next_sequence }) point_bytes skipped))
        else end_row (append_point l point point_bytes skipped)

  -- A row that is not committed yet.
  unfoldable pub take_row : Scan → Row → Exec (Import S) Scan
  unfolding add_row split_row end_row validate_metric_keys
  take_row l row =
      if is_empty row.metrics
      then end_row (record l {
        unsupported_values = l.unsupported_values + skipped_values setup.include_files row;
      })
      else (lift (validate_metric_keys row.metrics)
          >> (if ltb max_metrics_per_point (length row.metrics)
              then split_row l row (skipped_values setup.include_files row)
              else add_row l row (skipped_values setup.include_files row)))

  abbrev pub schedule_media : ℕ → Row → Exec (Import S) (Unit {0})
  schedule_media row_number row =
      if setup.include_files
      then on_world setup.env setup.json_size (setup.env.schedule row_number row)
      else pure tt

  -- One round: `item` is what the source yields, or the exception that it raises.
  unfoldable pub import_row : Scan → Result Raw → Exec (Import S) Scan
  unfolding take_row
  import_row l item = do
    raw ← lift item
    check setup.env setup.json_size
    lift (raise_if (ltb setup.limit (l.scanned_rows + 1)) import_error)
    row ← lift (setup.read_row l.scanned_rows raw)
    schedule_media (l.scanned_rows + 1) row
    let next = record l { scanned_rows = l.scanned_rows + 1 }
    if leb next.scanned_rows next.rows_committed then pure next else take_row next row

  unfoldable pub import_rows : Scan → List (Result Raw) → Exec (Import S) Scan
  unfolding import_row
  import_rows l [] = pure l
  import_rows l (item ∷ items) = import_row l item >>= λ m. import_rows m items

  -- The last batch is sent, and its rows are marked as committed.
  abbrev pub finish_batch : Scan → Exec (Import S) Saved
  finish_batch l = do
    if is_empty l.batch then pure tt else commit_metric_batch setup.env setup.json_size l.batch
    let progress : Saved = record {
      rows_committed = max l.rows_committed l.scanned_rows;
      next_sequence = l.next_sequence + length l.batch;
      unsupported_values = l.unsupported_values;
    }
    if ltb l.rows_committed l.scanned_rows then save setup.env setup.json_size progress else pure tt
    pure progress

  -- What follows the loop.
  unfoldable pub finish_rows : Bool → ℕ → Scan → Exec (Import S) Saved
  unfolding commit_metric_batch save
  finish_rows in_history media_rows_committed l = do
    lift (raise_if (in_history && not (l.scanned_rows == setup.limit)) import_error)
    lift (
        raise_if (ltb l.scanned_rows l.rows_committed || ltb l.scanned_rows media_rows_committed)
          import_error)
    finish_batch l

  abbrev pub start : ℕ → Saved → Scan
  start scanned saved = record {
    batch = [];
    batch_bytes = 0;
    batch_rows_end = saved.rows_committed;
    rows_committed = saved.rows_committed;
    next_sequence = saved.next_sequence;
    unsupported_values = saved.unsupported_values;
    scanned_rows = scanned;
  }

  -- The import in the phase "history", without the media pipeline's end.
  unfoldable pub import_items : List (Result Raw) → ℕ → Exec (Import S) Saved
  unfolding import_rows finish_rows
  import_items items media_rows_committed s =
      (import_rows (start 0 s.saved) (if setup.limit == 0 then [] else items)
          >>= finish_rows true media_rows_committed)
        s

  -- An exception aborts the pipeline.
  abbrev pub aborted : {A : Type 0} → Result A × Import S → Result A × Import S
  aborted (ok a, s) = (ok a, s)
  aborted (err e, s) = (
    err e,
    record s { world = if setup.include_files then setup.env.abort_media s.world else s.world },
  )

  abbrev pub finish_media : ℕ → Exec (Import S) ℕ
  finish_media media_rows_committed =
      if setup.include_files
      then on_world setup.env setup.json_size setup.env.finish_media
      else pure media_rows_committed

  -- `_import_history` in the phase "history": the progress and the committed media rows.
  unfoldable pub import_history : List (Result Raw) → ℕ → Exec (Import S) (Saved × ℕ)
  unfolding import_items
  import_history items media_rows_committed s = aborted (
      (import_items items media_rows_committed >>= λ progress.
      finish_media media_rows_committed >>= λ media_rows. pure (progress, media_rows))
        s)
