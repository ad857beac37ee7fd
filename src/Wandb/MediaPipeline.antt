-- ===== src/Wandb/MediaPipeline.antt =====
-- `_MediaPipeline` of python/src/epochdeck/wandb_importer.py. The source's files, the executor and its futures,
-- the checkpoint and the cancellation are arguments that change a state of their own; `completed` records the
-- jobs whose results were taken without an exception, `saved` the rows that the
-- checkpoint has, and `shutdowns` the calls of the executor's shutdown.
pub mod Watermark
pub mod Advancing
pub mod Draining
pub mod Submitting
pub mod Completing
pub mod Aborting
pub mod Finishing
pub mod Persisted
use epochdeck.Prelude.{
  ℕ, zero, suc, ◌+◌, ◌-◌, ◌≡◌, Bool, true, false, not, ◌&&◌, Option, none, some, List, [], ◌∷◌,
  ◌++◌, ltb, leb, ◌==◌, if◌then◌else◌, length,
}
use epochdeck.Text.{Text}
use epochdeck.Error.{
  Error, import_error, runtime_error, key_error, index_error, Result, ok, err, raise_if,
}
use epochdeck.Exec.{Exec, pure, raise, lift, query, modify, ◌>>=◌, ◌>>◌}
use epochdeck.Wandb.{Media, Row, max_pending_media, media_checkpoint_interval}
use epochdeck.Wandb.Rows.{safe_artifact_path}

-- A call of `_import_media_reference`: the media value with this occurrence in a row.
pub record Job : Type 0 where
  pub row_number : ℕ
  pub occurrence : ℕ
  pub step : ℕ
  pub timestamp_ms : ℕ
  pub media : Media

pub record Services (S : Type 0) : Type 0 where
  pub posix_str : Text → Text
  pub check_cancelled : Exec S (Unit {0})
  pub find_file : Text → Exec S (Unit {0})
  pub submit : Job → Exec S (Unit {0})
  pub result : Job → Exec S (Unit {0})
  pub update_checkpoint : ℕ → Exec S (Unit {0})
  pub is_cancelled : S → Bool
  pub shutdown : Bool → S → S

-- The fields of a pipeline.
pub record Pipeline (S : Type 0) : Type 0 where
  pub world : S
  pub pending : List Job
  pub remaining_by_row : ℕ → Option ℕ
  pub committed_rows : ℕ
  pub persisted_rows : ℕ
  pub last_closed_row : ℕ
  pub closed : Bool
  pub completed : List Job
  pub saved : ℕ
  pub shutdowns : List Bool

-- `remaining_by_row[row] = count`, or its deletion.
abbrev pub set_row : ℕ → Option ℕ → (ℕ → Option ℕ) → ℕ → Option ℕ
set_row row count f n = if n == row then count else f n

abbrev pub or_zero : Option ℕ → ℕ
or_zero none = 0
or_zero (some n) = n

abbrev pub is_none : Option ℕ → Bool
is_none none = true
is_none (some n) = false

abbrev pub counted : ℕ → Option ℕ
counted n = if n == 0 then none else some n

module _ {S : Type 0} where
  -- The loop of `_advance_watermark`, for as many rounds as there are closed rows.
  unfoldable pub advance_rows : ℕ → Pipeline S → Pipeline S
  advance_rows zero p = p
  advance_rows (suc n) p =
      let rest = advance_rows n (record p { committed_rows = p.committed_rows + 1 }) in
      if ltb p.committed_rows p.last_closed_row
        && is_none (p.remaining_by_row (p.committed_rows + 1))
      then rest
      else p

module _ {S : Type 0} (services : Services S) where
  abbrev with_world : {A : Type 0} → Pipeline S → Result A × S → Result A × Pipeline S
  with_world p (r, w) = (r, record p { world = w })

  abbrev pub on_world : {A : Type 0} → Exec S A → Exec (Pipeline S) A
  on_world m p = with_world p (m p.world)

  -- `_persist`
  unfoldable pub persist : Bool → Exec (Pipeline S) (Unit {0})
  persist force p =
      (if p.committed_rows == p.persisted_rows
          then pure tt
          else if not force && ltb (p.committed_rows - p.persisted_rows) media_checkpoint_interval
          then pure tt
          else (on_world (services.update_checkpoint p.committed_rows)
              >> modify
                  (λ q. record q { saved = p.committed_rows; persisted_rows = p.committed_rows })))
        p

  -- `_advance_watermark`
  unfoldable pub advance_watermark : Exec (Pipeline S) (Unit {0})
  unfolding advance_rows persist
  advance_watermark =
      modify (λ p. advance_rows (p.last_closed_row - p.committed_rows) p) >> persist false

  abbrev pub count_down : ℕ → Option ℕ → Exec (Pipeline S) (Unit {0})
  count_down row none = raise key_error
  count_down row (some n) =
      modify (λ p. record p { remaining_by_row = set_row row (counted (n - 1)) p.remaining_by_row })

  abbrev pub drain : List Job → Exec (Pipeline S) (Unit {0})
  drain [] = raise index_error
  drain (job ∷ jobs) = do
    on_world (services.result job)
    modify (λ p. record p { pending = jobs; completed = p.completed ++ job ∷ [] })
    remaining ← query (λ p. ok (p.remaining_by_row job.row_number))
    count_down job.row_number remaining
    advance_watermark

  -- `_drain_one`
  unfoldable pub drain_one : Exec (Pipeline S) (Unit {0})
  unfolding advance_watermark
  drain_one p = drain p.pending p

  -- The loop that waits for room, for as many rounds as there are pending jobs.
  unfoldable pub make_room : ℕ → Exec (Pipeline S) (Unit {0})
  unfolding drain_one
  make_room zero p = (ok tt, p)
  make_room (suc n) p =
      (if leb max_pending_media (length p.pending)
          then (drain_one >> (on_world services.check_cancelled >> make_room n))
          else pure tt)
        p

  abbrev pub add_pending : Job → Pipeline S → Pipeline S
  add_pending job p = record p {
    pending = p.pending ++ job ∷ [];
    remaining_by_row =
        set_row job.row_number (some (or_zero (p.remaining_by_row job.row_number) + 1))
          p.remaining_by_row;
  }

  -- One round of the loop over the media of a row.
  unfoldable pub submit_one : Job → Exec (Pipeline S) (Unit {0})
  unfolding make_room safe_artifact_path
  submit_one job = do
    λ p. make_room (length p.pending) p
    path ← lift (safe_artifact_path services.posix_str job.media.path)
    on_world services.check_cancelled
    on_world (services.find_file path)
    on_world (services.submit job)
    modify (add_pending job)

  abbrev pub job_of : ℕ → Row → ℕ → Media → Job
  job_of row_number row occurrence media = record {
    row_number = row_number;
    occurrence = occurrence;
    step = row.step;
    timestamp_ms = row.timestamp_ms;
    media = media;
  }

  unfoldable pub submit_all : ℕ → Row → ℕ → List Media → Exec (Pipeline S) (Unit {0})
  unfolding submit_one
  submit_all row_number row occurrence [] = pure tt
  submit_all row_number row occurrence (media ∷ rest) =
      submit_one (job_of row_number row occurrence media)
      >> submit_all row_number row (occurrence + 1) rest

  abbrev pub schedule_row : ℕ → Row → Exec (Pipeline S) (Unit {0})
  schedule_row row_number row = do
    submit_all row_number row 0 row.media
    modify (λ p. record p { last_closed_row = row_number })
    advance_watermark

  -- `schedule`
  unfoldable pub schedule : ℕ → Row → Exec (Pipeline S) (Unit {0})
  unfolding submit_all advance_watermark
  schedule row_number row = do
    on_world services.check_cancelled
    λ p.
        (lift (raise_if p.closed runtime_error)
            >> (if leb row_number p.committed_rows
                then pure tt
                else (lift (raise_if (not (row_number == p.last_closed_row + 1)) import_error)
                    >> schedule_row row_number row)))
          p

  -- The loop of `finish`, for as many rounds as there are pending jobs.
  unfoldable pub drain_all : ℕ → Exec (Pipeline S) (Unit {0})
  unfolding drain_one
  drain_all zero = pure tt
  drain_all (suc n) = on_world services.check_cancelled >> (drain_one >> drain_all n)

  abbrev pub shut_down : Bool → Pipeline S → Pipeline S
  shut_down wait p = record p {
    world = services.shutdown wait p.world;
    shutdowns = p.shutdowns ++ wait ∷ [];
  }

  abbrev pub close : Exec (Pipeline S) (Unit {0})
  close = modify (λ p. record p { closed = true })

  -- `finish`
  unfoldable pub finish : Exec (Pipeline S) (Unit {0})
  unfolding drain_all advance_watermark persist
  finish p =
      (if p.closed then pure tt else do
        drain_all (length p.pending)
        advance_watermark
        persist true
        modify (shut_down true)
        close)
        p

  -- `abort`
  unfoldable pub abort : Exec (Pipeline S) (Unit {0})
  unfolding persist
  abort p =
      (if p.closed then pure tt else do
        modify (shut_down (not (services.is_cancelled p.world)))
        if services.is_cancelled p.world then pure tt else persist true
        close)
        p

  -- `__init__`
  abbrev pub new_pipeline : ℕ → S → Pipeline S
  new_pipeline committed_rows world = record {
    world = world;
    pending = [];
    remaining_by_row = λ _. none;
    committed_rows = committed_rows;
    persisted_rows = committed_rows;
    last_closed_row = committed_rows;
    closed = false;
    completed = [];
    saved = committed_rows;
    shutdowns = [];
  }

  -- The calls of `_import_history` for the rows from `next` on, `rows` of them.
  unfoldable pub schedule_rows : (ℕ → Row) → ℕ → ℕ → Exec (Pipeline S) (Unit {0})
  unfolding schedule
  schedule_rows history zero next = pure tt
  schedule_rows history (suc rows) next =
      schedule next (history next) >> schedule_rows history rows (next + 1)

  abbrev pub abort_on_error : Result (Unit {0}) × Pipeline S → Result (Unit {0}) × Pipeline S
  abort_on_error (ok a, p) = (ok a, p)
  abort_on_error (err e, p) = (err e, (abort p).1)

  -- The pipeline's part of `_import_history`; an exception of `abort` is noted in the one that is raised.
  unfoldable pub import_media : (ℕ → Row) → ℕ → Exec (Pipeline S) (Unit {0})
  unfolding schedule_rows finish abort
  import_media history rows p = abort_on_error ((schedule_rows history rows 1 >> finish) p)
