-- ===== src/Tests/MediaTests.antt =====
-- A history of three rows, the first and the last with an image.
use epochdeck.Prelude.{ℕ, zero, suc, ◌≡◌, refl, false, [], ◌∷◌, arith}
use epochdeck.Text.{codes, text_eq}
use epochdeck.Text.Utf8.{utf8}
use epochdeck.Error.{import_error, ok, err}
use epochdeck.Exec.{Exec, pure}
use epochdeck.Exec.Ensures.{Ensures}
use epochdeck.Json.{no_fields}
use epochdeck.Metrics.{starts_with}
use epochdeck.Protocol.{is_empty, has_control, contains}
use epochdeck.Wandb.{Media, Row}
use epochdeck.Wandb.MediaPipeline.{Job, Services, new_pipeline, import_media}
use epochdeck.Wandb.MediaPipeline.Finishing.{import_media-Finished}
use epochdeck.Wandb.MediaPipeline.Persisted.{Finished}
use epochdeck.Wandb.MediaPipeline.Aborting.{Aborted}

abbrev image : Media
image = record {
  key = codes "plot";
  kind = codes "image";
  path = codes "media/a.png";
  reference = no_fields;
}

abbrev history : ℕ → Row
history zero = record { metrics = []; media = []; skipped = 0; step = 0; timestamp_ms = 0 }
history (suc zero) = record {
  metrics = [];
  media = image ∷ [];
  skipped = 0;
  step = 1;
  timestamp_ms = 1;
}
history (suc (suc zero)) = record {
  metrics = [];
  media = [];
  skipped = 0;
  step = 2;
  timestamp_ms = 2;
}
history (suc (suc (suc n))) = record {
  metrics = [];
  media = image ∷ [];
  skipped = 0;
  step = 3;
  timestamp_ms = 3;
}

-- As many results are taken without an exception as the state says.
abbrev take_result : Job → Exec ℕ (Unit {0})
take_result job zero = (err import_error, 0)
take_result job (suc n) = (ok tt, n)

abbrev services : Services ℕ
services = record {
  posix_str = λ t. t;
  check_cancelled = pure tt;
  find_file = λ _. pure tt;
  submit = λ _. pure tt;
  result = take_result;
  update_checkpoint = λ _. pure tt;
  is_cancelled = λ _. false;
  shutdown = λ _ n. n;
}

-- The second result raises, and the first two rows are saved.
interrupted_saved : (import_media services history 3 (new_pipeline services 0 1)).1.saved ≡ 2
unfolding import_media utf8 is_empty starts_with contains text_eq has_control
interrupted_saved = refl

all_saved : (import_media services history 3 (new_pipeline services 0 2)).1.saved ≡ 3
unfolding import_media utf8 is_empty starts_with contains text_eq has_control
all_saved = refl

import_media-Finished_example :
    Ensures
      (Aborted services history 0)
      (λ _ q. Finished services history 0 3 q)
      (import_media services history 3 (new_pipeline services 0 1))
import_media-Finished_example = import_media-Finished services history 0 3 1 (omega arith)
