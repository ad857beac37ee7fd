-- ===== src/Wandb/History/Spec/Returning.antt =====
-- Requests that nothing interrupts, and rows that can be imported.
use epochdeck.Prelude.{
  ℕ, ◌+◌, ◌≤◌, ◌≡◌, subst, List, [], ◌∷◌, ◌++◌, arith, ltb, leb, if◌then◌else◌, length, All,
}
use epochdeck.Error.{import_error, Result, ok, err}
use epochdeck.Exec.{◌>>=◌, Exec, pure}
use epochdeck.Exec.Ensures.{Ensures, bind-Ensures, guard_passes, if_Ensures}
use epochdeck.Metrics.{Floats}
use epochdeck.Protocol.{is_empty}
use epochdeck.Wandb.{Point, Row, metric_batch_bytes, max_source_row_metrics}
use epochdeck.Wandb.Rows.{validate_metric_keys}
use epochdeck.Wandb.History.{
  Saved, Import, Env, with_world, on_world, check, commit_metric_batch, save, split_chunks,
  make_room, has_no_room,
}
use epochdeck.Wandb.History.Spec.{numbered, row_points}

module _ {S : Type 0} where
  abbrev pub Returns : {A : Type 0} → (A → S → Type 0) → Result A × S → Type 0
  Returns P outcome = Ensures (λ _. ⊥) P outcome

  pub then_Returns :
      {A B : Type 0} (Q : B → S → Type 0) (m : Exec S A) (f : A → Exec S B) (s : S)
      → Returns (λ _ _. Unit {0}) (m s)
      → ((a : A) (t : S) → Unit {0} → Returns Q (f a t))
      → Returns Q ((m >>= f) s)
  then_Returns Q m f s h g = bind-Ensures (λ _. ⊥) (λ _ _. Unit) Q m f s h g

abbrev pub Quiet : {S A : Type 0} → Exec S A → Type 0
Quiet {S = S} m = (w : S) → Returns (λ _ _. Unit {0}) (m w)

-- Nothing outside raises.
pub record Calm {S : Type 0} (env : Env S) : Type 0 where
  pub no_cancellation : Quiet env.check_cancelled
  pub ingests : (points : List Point) → Quiet (env.ingest_batch points)
  pub updates : (progress : Saved) → Quiet (env.update_checkpoint progress)
  pub schedules : (n : ℕ) (row : Row) → Quiet (env.schedule n row)
  pub finishes : Quiet env.finish_media

-- A row that can be imported.
pub record Takeable (json_size : Point → ℕ) (row : Row) : Type 0 where
  pub keys : validate_metric_keys row.metrics ≡ ok tt
  pub few : length row.metrics ≤ max_source_row_metrics
  pub small : (k : ℕ) → All (λ p. json_size p + 1 ≤ metric_batch_bytes) (row_points k row)

module _ {Raw : Type 0} (json_size : Point → ℕ) (read_row : ℕ → Raw → Result Row) where
  abbrev pub Takes : ℕ → List Raw → Type 0
  Takes n [] = Unit {0}
  Takes n (raw ∷ raws) =
      ((row : Row) × (read_row n raw ≡ ok row) × Takeable json_size row) × Takes (n + 1) raws

module _ {S : Type 0} (env : Env S) (json_size : Point → ℕ) (calm : Calm env) where
  abbrev Runs : {A : Type 0} → Result A × Import S → Type 0
  Runs outcome = Returns (λ _ _. Unit {0}) outcome

  with_world-Runs :
      {A : Type 0} (s : Import S) (outcome : Result A × S)
      → Returns (λ _ _. Unit {0}) outcome
      → Runs (with_world env json_size s outcome)
  with_world-Runs s (ok a, w) h = tt
  with_world-Runs s (err e, w) h = absurd h

  pub on_world-Runs :
      {A : Type 0} (m : Exec S A) (s : Import S) → Quiet m → Runs (on_world env json_size m s)
  on_world-Runs m s quiet = with_world-Runs s (m s.world) (quiet s.world)

  pub commit_Runs :
      (batch : List Point) (s : Import S) → Runs (commit_metric_batch env json_size batch s)
  unfolding commit_metric_batch
  commit_Runs batch s =
      then_Returns (λ _ _. Unit) (check env json_size) _ s
        (on_world-Runs env.check_cancelled s calm.no_cancellation)
        λ _ t _.
          let asking = record t { sent = t.sent ++ batch ∷ [] } in
          then_Returns (λ _ _. Unit) (on_world env json_size (env.ingest_batch batch)) _ asking
            (on_world-Runs (env.ingest_batch batch) asking (calm.ingests batch))
            λ _ u _.
              on_world-Runs env.check_cancelled
                (record u { acknowledged = u.acknowledged ++ batch ∷ [] }) calm.no_cancellation

  pub save-Runs : (progress : Saved) (s : Import S) → Runs (save env json_size progress s)
  unfolding save
  save-Runs progress s =
      then_Returns (λ _ _. Unit) (on_world env json_size (env.update_checkpoint progress)) _ s
        (on_world-Runs (env.update_checkpoint progress) s (calm.updates progress)) λ _ _ _. tt

  make_room-Runs :
      (batch : List Point) (batch_bytes size : ℕ) (s : Import S)
      → Runs (make_room env json_size batch batch_bytes size s)
  unfolding make_room
  make_room-Runs batch batch_bytes size s =
      if_Ensures (λ _. ⊥) (λ _ _. Unit) (has_no_room env json_size batch batch_bytes size) _ _ s
        (λ _.
          then_Returns (λ _ _. Unit) (commit_metric_batch env json_size batch) _ s
            (commit_Runs batch s) λ _ _ _. tt)
        (λ _. tt)

  pub split_chunks-Runs :
      (row : Row) (next_sequence : ℕ) (chunks : List Floats) (batch : List Point)
      (batch_bytes point_count : ℕ) (s : Import S)
      → point_count + length chunks ≤ 16
      → All
          (λ p. json_size p + 1 ≤ metric_batch_bytes)
          (numbered row (next_sequence + point_count) chunks)
      → Runs (split_chunks env json_size row next_sequence chunks batch batch_bytes point_count s)
  unfolding split_chunks numbered
  split_chunks-Runs row next_sequence [] batch batch_bytes point_count s few small =
      then_Returns (λ _ _. Unit)
        (if is_empty batch then pure tt else commit_metric_batch env json_size batch) _ s
        (if_Ensures (λ _. ⊥) (λ _ _. Unit) (is_empty batch) _ _ s (λ _. tt)
          (λ _. commit_Runs batch s))
        λ _ _ _. tt
  split_chunks-Runs row next_sequence (metrics ∷ chunks) batch batch_bytes point_count s few
        (first, small) =
      let point : Point = record {
        sequence = next_sequence + point_count;
        step = row.step;
        timestamp_ms = row.timestamp_ms;
        metrics = metrics;
      } in
      guard_passes (λ _. ⊥) (λ _ _. Unit) (leb 16 point_count) import_error _ s
        (ground (arith, few))
        (guard_passes (λ _. ⊥) (λ _ _. Unit) (ltb metric_batch_bytes (json_size point + 1))
          import_error _ s (ground (arith, first))
          (then_Returns (λ _ _. Unit)
            (make_room env json_size batch batch_bytes (json_size point + 1)) _ s
            (make_room-Runs batch batch_bytes (json_size point + 1) s)
            λ room t _.
              split_chunks-Runs row next_sequence chunks (room.0 ++ point ∷ [])
                (room.1 + (json_size point + 1)) (point_count + 1) t (omega (arith, few))
                (subst
                  (λ k. All (λ p. json_size p + 1 ≤ metric_batch_bytes) (numbered row k chunks))
                  (omega arith) small)))
