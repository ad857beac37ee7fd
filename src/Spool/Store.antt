-- ===== src/Spool/Store.antt =====
-- `_Spool` of python/src/epochdeck/_spool.py as a whole: the four journals, `run.json` and the names
-- below the blob directory.
pub mod Reclaim
use epochdeck.Prelude.{
  ℕ, zero, suc, ◌≡◌, Bool, true, false, Option, none, some, List, [], ◌∷◌, if◌then◌else◌,
}
use epochdeck.Text.{Text, Bytes}
use epochdeck.Error.{
  Error, delivery_error, undelivered_records, not_a_regular_file, Result, ok, err, ◌>>=◌, or_raise,
}
use epochdeck.Exec
use epochdeck.Exec.{Exec}
use epochdeck.Json.{Value, obj, Fields, update}
use epochdeck.Platform.{Platform}
use epochdeck.Spool.Lane.{Lane, append_record, acknowledge, is_pending, json_file, read_json_object}
use epochdeck.Spool.Lane.Recovery.{recover_interrupted_append, max_run_metadata_bytes}

pub record Spool : Type 0 where
  pub events : Lane
  pub alerts : Lane
  pub rich_values : Lane
  pub artifacts : Lane
  pub metadata : Option Bytes
  pub blobs : List Text

-- `_journals`
abbrev pub journals : Spool → List Lane
journals s = s.events ∷ s.alerts ∷ s.rich_values ∷ s.artifacts ∷ []

-- `any(…)` over some of the journals: the first error or the first pending one ends it.
unfoldable pub any_pending : List Lane → Result Bool
any_pending [] = ok false
any_pending (lane ∷ lanes) =
    let others = any_pending lanes in is_pending lane >>= λ b. if b then ok true else others

-- `pending`: metrics, alerts, rich values, artifacts.
unfoldable pub pending : Spool → Result Bool
pending s = any_pending (journals s)

-- An empty journal without acknowledgement or delivery state.
abbrev pub new_lane : Lane
new_lane = record { journal = []; ack = none; delivery = none }

-- The journals are emptied and the blobs removed; `run.json` stays.
abbrev pub reclaimed : Spool → Spool
reclaimed s = record s {
  events = new_lane;
  alerts = new_lane;
  rich_values = new_lane;
  artifacts = new_lane;
  blobs = [];
}

abbrev reclaim_if : Result Bool → Exec Spool (Unit {0})
reclaim_if (err e) s = (err e, s)
reclaim_if (ok true) s = (err (delivery_error undelivered_records), s)
reclaim_if (ok false) s = (ok tt, reclaimed s)

-- `reclaim_delivered`
unfoldable pub reclaim_delivered : Exec Spool (Unit {0})
reclaim_delivered s = reclaim_if (any_pending (journals s)) s

-- A method of one journal as a method of the spool.
abbrev pub on_events : {A : Type 0} → Exec Lane A → Exec Spool A
on_events m s = let (r, lane) = m s.events in (r, record s { events = lane })

abbrev pub on_alerts : {A : Type 0} → Exec Lane A → Exec Spool A
on_alerts m s = let (r, lane) = m s.alerts in (r, record s { alerts = lane })

abbrev pub on_rich_values : {A : Type 0} → Exec Lane A → Exec Spool A
on_rich_values m s = let (r, lane) = m s.rich_values in (r, record s { rich_values = lane })

abbrev pub on_artifacts : {A : Type 0} → Exec Lane A → Exec Spool A
on_artifacts m s = let (r, lane) = m s.artifacts in (r, record s { artifacts = lane })

module _ (p : Platform) where
  -- `append`
  unfoldable pub append : Fields → Exec Spool ℕ
  append point = on_events (append_record p (obj point))

  unfoldable pub append_alert : Fields → Exec Spool (Unit {0})
  append_alert alert = Exec.◌>>=◌ (on_alerts (append_record p (obj alert))) λ n. Exec.pure tt

  unfoldable pub append_rich_value : Fields → Exec Spool (Unit {0})
  append_rich_value value =
      Exec.◌>>=◌ (on_rich_values (append_record p (obj value))) λ n. Exec.pure tt

  unfoldable pub append_artifact : Fields → Exec Spool (Unit {0})
  append_artifact artifact =
      Exec.◌>>=◌ (on_artifacts (append_record p (obj artifact))) λ n. Exec.pure tt

  -- The recoveries of `__init__`, journal after journal; the checkpoint counts for the first.
  unfoldable pub open_spool : Exec Spool (Unit {0})
  open_spool s =
      Exec.◌>>◌ (on_events (recover_interrupted_append p true s.metadata))
        (Exec.◌>>◌ (on_alerts (recover_interrupted_append p false s.metadata)) (
          Exec.◌>>◌ (on_rich_values (recover_interrupted_append p false s.metadata))
            (on_artifacts (recover_interrupted_append p false s.metadata))))
        s

  -- `read_metadata`
  unfoldable pub read_metadata : Spool → Result (Option Fields)
  read_metadata s = elim s.metadata [
    | none ↦ ok none
    | some b ↦ read_json_object p max_run_metadata_bytes b >>= λ fs. ok (some fs)
  ]

  unfoldable pub write_metadata : Fields → Exec Spool (Unit {0})
  write_metadata metadata =
      Exec.◌>>=◌ (Exec.lift (json_file p (obj metadata) max_run_metadata_bytes))
        λ file. Exec.modify (λ s. record s { metadata = some file })

  -- `update_metadata`: a missing file cannot be opened.
  unfoldable pub update_metadata : Fields → Exec Spool (Unit {0})
  unfolding write_metadata
  update_metadata updates =
      Exec.◌>>=◌
        (Exec.query (λ s. or_raise s.metadata (delivery_error not_a_regular_file) >>= λ b.
          read_json_object p max_run_metadata_bytes b))
        λ metadata. write_metadata (update metadata updates)
