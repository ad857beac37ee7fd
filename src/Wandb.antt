-- ===== src/Wandb.antt =====
-- The importer of W&B histories, python/src/epochdeck/wandb_importer.py. WandbImportError is `import_error`.
pub mod Rows
pub mod History
pub mod MediaPipeline
use epochdeck.Prelude.{ℕ, ◌+◌, ◌*◌, ◌/◌, Bool, List, if◌then◌else◌, length}
use epochdeck.Prelude.Int.{ℤ}
use epochdeck.Text.{Text}
use epochdeck.Json.{Value, Fields}
use epochdeck.Metrics.{Floats}

abbrev pub metric_batch_size : ℕ
metric_batch_size = 512

abbrev pub metric_batch_bytes : ℕ
metric_batch_bytes = 1_750_000

abbrev pub max_metrics_per_point : ℕ
max_metrics_per_point = 256

abbrev pub max_source_row_metrics : ℕ
max_source_row_metrics = 4_096

abbrev pub max_metric_points_per_source_row : ℕ
max_metric_points_per_source_row = max_source_row_metrics / max_metrics_per_point

-- A point of a metric request.
pub record Point : Type 0 where
  pub sequence : ℕ
  pub step : ℕ
  pub timestamp_ms : ℕ
  pub metrics : Floats

-- A media value of a row: its key, its kind and the reference to its file, whose entry "path" is `path`.
pub record Media : Type 0 where
  pub key : Text
  pub kind : Text
  pub path : Text
  pub reference : Fields

-- What the loop over the history reads of one row.
pub record Row : Type 0 where
  pub metrics : Floats
  pub media : List Media
  pub skipped : ℕ
  pub step : ℕ
  pub timestamp_ms : ℕ

-- The values of a row that are not imported; without files its media are among them.
abbrev pub skipped_values : Bool → Row → ℕ
skipped_values include_files row = row.skipped + (if include_files then 0 else length row.media)

abbrev pub max_pending_media : ℕ
max_pending_media = 8

abbrev pub media_checkpoint_interval : ℕ
media_checkpoint_interval = 256
