-- ===== src/Tests/WandbTests.antt =====
-- A history of two rows, and an import of it that is interrupted after the first.
use epochdeck.Prelude.{ℕ, zero, suc, ◌≡◌, refl, false, List, [], ◌∷◌, map, arith}
use epochdeck.Text.{codes}
use epochdeck.Text.Utf8.{utf8}
use epochdeck.Error.{import_error, Result, ok, err}
use epochdeck.Exec.{Exec, pure}
use epochdeck.Exec.Ensures.{Ensures}
use epochdeck.Metrics.{sorted}
use epochdeck.Protocol.{is_empty, has_control}
use epochdeck.Wandb.{Point, Row, skipped_values}
use epochdeck.Wandb.Rows.{validate_metric_keys}
use epochdeck.Wandb.History.{Setup, Saved, Import, Env, metric_chunks}
use epochdeck.Wandb.History.Chunks.{Cuts, metric_chunks-Cuts}
use epochdeck.Wandb.History.Loop.{import_history}
use epochdeck.Wandb.History.Resuming.{
  rows_of, Resumed, import_history-Ensures, import_history-Resumed, import_history-Returns,
}
use epochdeck.Wandb.History.Spec.{numbered, row_points, points_from, nothing_saved, at_start}
use epochdeck.Wandb.History.Spec.Importing.{Imported}
use epochdeck.Wandb.History.Spec.Returning.{Returns, Calm, Takeable}
use epochdeck.Wandb.History.Spec.Sending.{Stopped}

abbrev loss : Row
loss = record {
  metrics = (codes "loss", 2) ∷ [];
  media = [];
  skipped = 1;
  step = 0;
  timestamp_ms = 5;
}

abbrev score : Row
score = record {
  metrics = (codes "score", 7) ∷ [];
  media = [];
  skipped = 0;
  step = 1;
  timestamp_ms = 6;
}

abbrev raws : List Row
raws = loss ∷ score ∷ []

abbrev items : List (Result Row)
items = map ok raws

abbrev read : ℕ → Row → Result Row
read n row = ok row

-- One point fills more than a half of a request.
abbrev large : Point → ℕ
large p = 1_000_000

-- The server takes as many requests as the state says.
abbrev ingest : List Point → Exec ℕ (Unit {0})
ingest points zero = (err import_error, 0)
ingest points (suc n) = (ok tt, n)

abbrev client : Env ℕ
client = record {
  check_cancelled = pure tt;
  ingest_batch = ingest;
  update_checkpoint = λ _. pure tt;
  schedule = λ _ _. pure tt;
  finish_media = pure 0;
  abort_media = λ n. n;
}

abbrev setup : Setup ℕ Row
setup = record {
  env = client;
  json_size = large;
  include_files = false;
  limit = 2;
  read_row = read;
}

-- The same with a server that takes all requests.
abbrev willing : Setup ℕ Row
willing = record setup { env = record client { ingest_batch = λ _. pure tt } }

abbrev rows : List Row
rows = rows_of setup items

abbrev fresh : ℕ → Import ℕ
fresh requests = record { world = requests; sent = []; acknowledged = []; saved = nothing_saved }

abbrev run : Import ℕ → Result (Saved × ℕ) × Import ℕ
run s = import_history setup items 0 s

abbrev interrupted : Import ℕ
interrupted = (run (fresh 1)).1

abbrev resumed : Import ℕ
resumed = record { world = 9; sent = []; acknowledged = []; saved = interrupted.saved }

abbrev final : Saved
final = record { rows_committed = 2; next_sequence = 3; unsupported_values = 1 }

interrupted_saved :
    interrupted.saved ≡ record { rows_committed = 1; next_sequence = 2; unsupported_values = 1 }
unfolding import_history is_empty utf8 has_control
interrupted_saved = refl

import_history-Ensures_example :
    Ensures
      (Stopped client large (skipped_values false) rows (points_from 1 rows))
      (λ result t. Imported setup rows (points_from 1 rows) result.0 t)
      (run (fresh 1))
import_history-Ensures_example =
    import_history-Ensures setup items 0 (fresh 1) rows refl refl at_start

import_history-Resumed_example :
    Resumed
      (skipped_values false)
      rows
      (points_from 1 rows)
      interrupted.acknowledged
      (run resumed).1.acknowledged
      (run resumed).1.saved
unfolding import_history is_empty utf8 has_control
import_history-Resumed_example =
    import_history-Resumed setup items items 0 0 (fresh 1) interrupted resumed (run resumed).1 rows
      import_error (final, 0) refl refl at_start refl refl refl refl refl refl

willing-Calm : Calm willing.env
willing-Calm = record {
  no_cancellation = λ _. tt;
  ingests = λ _ _. tt;
  updates = λ _ _. tt;
  schedules = λ _ _ _. tt;
  finishes = λ _. tt;
}

loss-Takeable : Takeable large loss
unfolding validate_metric_keys row_points numbered utf8 is_empty has_control
loss-Takeable = record { keys = refl; few = omega arith; small = λ _. (omega arith, tt) }

score-Takeable : Takeable large score
unfolding validate_metric_keys row_points numbered utf8 is_empty has_control
score-Takeable = record { keys = refl; few = omega arith; small = λ _. (omega arith, tt) }

import_history-Returns_example :
    Returns
      (λ result t. Imported willing rows (points_from 1 rows) result.0 t)
      (import_history willing items 0 (fresh 0))
import_history-Returns_example =
    import_history-Returns willing raws 0 (fresh 0) rows willing-Calm
      ((loss, refl, loss-Takeable), ((score, refl, score-Takeable), tt)) refl (omega arith) refl
      refl at_start

metric_chunks-Cuts_example : Cuts (sorted loss.metrics) (metric_chunks loss.metrics)
metric_chunks-Cuts_example = metric_chunks-Cuts loss.metrics
