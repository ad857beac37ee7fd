-- ===== src/Wandb/History.antt =====
-- `_import_history` of python/src/epochdeck/wandb_importer.py, from the rows that the source yields to the
-- batches that are sent and the progress that is saved. The client, the checkpoint, the cancellation and the
-- media pipeline are arguments that change a state of their own; `sent`, `acknowledged` and `saved` record
-- what is asked of the first two. A request is its points. The length of `json.dumps` of a point is an argument.
pub mod Loop
pub mod Spec
pub mod Resuming
pub mod Chunks
use epochdeck.Prelude.{
  ℕ, zero, suc, ◌+◌, ◌*◌, ◌≡◌, max, Bool, true, false, not, ◌&&◌, ◌||◌, Option, none, some, List,
  [], ◌∷◌, ◌++◌, ltb, leb, ◌==◌, if◌then◌else◌, length,
}
use epochdeck.Text.{Text}
use epochdeck.Error.{Error, import_error, Result, ok, err, raise_if}
use epochdeck.Exec.{Exec, pure, lift, modify, ◌>>=◌, ◌>>◌}
use epochdeck.Metrics.{Floats, sorted, check_key}
use epochdeck.Protocol.{is_empty}
use epochdeck.Wandb.{
  Point, Row, metric_batch_size, metric_batch_bytes, max_metrics_per_point,
  max_metric_points_per_source_row,
}

-- The fields of the checkpoint that the loop updates.
pub record Saved : Type 0 where
  pub rows_committed : ℕ
  pub next_sequence : ℕ
  pub unsupported_values : ℕ

pub record Import (S : Type 0) : Type 0 where
  pub world : S
  pub sent : List (List Point)
  pub acknowledged : List (List Point)
  pub saved : Saved

pub record Env (S : Type 0) : Type 0 where
  pub check_cancelled : Exec S (Unit {0})
  pub ingest_batch : List Point → Exec S (Unit {0})
  pub update_checkpoint : Saved → Exec S (Unit {0})
  pub schedule : ℕ → Row → Exec S (Unit {0})
  pub finish_media : Exec S ℕ
  pub abort_media : S → S

-- What an import of a history works with.
pub record Setup (S Raw : Type 0) : Type 0 where
  pub env : Env S
  pub json_size : Point → ℕ
  pub include_files : Bool
  pub limit : ℕ
  pub read_row : ℕ → Raw → Result Row

-- The variables of the loop.
pub record Scan : Type 0 where
  pub batch : List Point
  pub batch_bytes : ℕ
  pub batch_rows_end : ℕ
  pub rows_committed : ℕ
  pub next_sequence : ℕ
  pub unsupported_values : ℕ
  pub scanned_rows : ℕ

-- `chunk[key] = metrics[key]`, and the chunks that are full.
unfoldable pub chunks_from : Floats → Floats → List Floats
chunks_from chunk [] = if is_empty chunk then [] else chunk ∷ []
chunks_from chunk (m ∷ ms) =
    let full = chunks_from [] ms in
    let open_ = chunks_from (chunk ++ m ∷ []) ms in
    if length (chunk ++ m ∷ []) == max_metrics_per_point then (chunk ++ m ∷ []) ∷ full else open_

-- `_metric_chunks`
unfoldable pub metric_chunks : Floats → List Floats
unfolding chunks_from
metric_chunks metrics = chunks_from [] (sorted metrics)

module _ {S : Type 0} (env : Env S) (json_size : Point → ℕ) where
  abbrev with_world : {A : Type 0} → Import S → Result A × S → Result A × Import S
  with_world s (r, w) = (r, record s { world = w })

  abbrev pub on_world : {A : Type 0} → Exec S A → Exec (Import S) A
  on_world m s = with_world s (m s.world)

  abbrev pub check : Exec (Import S) (Unit {0})
  check = on_world env.check_cancelled

  -- `_commit_metric_batch`
  unfoldable pub commit_metric_batch : List Point → Exec (Import S) (Unit {0})
  commit_metric_batch points = do
    check
    modify (λ s. record s { sent = s.sent ++ points ∷ [] })
    on_world (env.ingest_batch points)
    modify (λ s. record s { acknowledged = s.acknowledged ++ points ∷ [] })
    check

  -- `checkpoint.update`; an update that raises leaves the checkpoint as it was.
  unfoldable pub save : Saved → Exec (Import S) (Unit {0})
  save progress = do
    on_world (env.update_checkpoint progress)
    modify (λ s. record s { saved = progress })

  abbrev pub has_no_room : List Point → ℕ → ℕ → Bool
  has_no_room batch batch_bytes point_bytes =
      not (is_empty batch)
      && (leb metric_batch_size (length batch)
          || ltb metric_batch_bytes (batch_bytes + point_bytes))

  -- The batch is sent if the next point does not fit in it.
  unfoldable pub make_room : List Point → ℕ → ℕ → Exec (Import S) (List Point × ℕ)
  unfolding commit_metric_batch
  make_room batch batch_bytes point_bytes =
      if has_no_room batch batch_bytes point_bytes
      then commit_metric_batch batch >> pure ([], 0)
      else pure (batch, batch_bytes)

  -- `_commit_split_metric_row`
  unfoldable pub split_chunks : Row → ℕ → List Floats → List Point → ℕ → ℕ → Exec (Import S) ℕ
  unfolding make_room commit_metric_batch
  split_chunks row next_sequence [] batch batch_bytes point_count =
      (if is_empty batch then pure tt else commit_metric_batch batch) >> pure point_count
  split_chunks row next_sequence (metrics ∷ chunks) batch batch_bytes point_count = do
    lift (raise_if (leb max_metric_points_per_source_row point_count) import_error)
    let point : Point = record {
      sequence = next_sequence + point_count;
      step = row.step;
      timestamp_ms = row.timestamp_ms;
      metrics = metrics;
    }
    lift (raise_if (ltb metric_batch_bytes (json_size point + 1)) import_error)
    room ← make_room batch batch_bytes (json_size point + 1)
    split_chunks row next_sequence chunks (room.0 ++ point ∷ []) (room.1 + (json_size point + 1))
        (point_count + 1)
