-- ===== src/Checkpoint/File.antt =====
-- The object over a checkpoint file: `state`, `update`, `_append_update` and `_compact` of class
-- `Checkpoint` of python/src/epochdeck/_wandb_state.py.
pub mod Bounds
pub mod Compacted
pub mod Durable
pub mod Keeps
pub mod Memory
pub mod Opening
use epochdeck.Prelude.{
  ℕ, zero, suc, ◌+◌, ◌≡◌, Bool, true, false, not, ◌&&◌, ◌||◌, Option, none, some, List, [], ◌∷◌,
  ◌++◌, ltb, leb, if◌then◌else◌, length,
}
use epochdeck.Text.{Text, Bytes, codes, text_eq}
use epochdeck.Error.{Error, import_error, Result, ok, err, raise_if}
use epochdeck.Exec.{Exec, pure, raise, lift, gets, modify, ◌>>=◌, ◌>>◌}
use epochdeck.Json.{Value, str, obj, Fields, no_fields, field, get}
use epochdeck.Platform.{Platform}
use epochdeck.Checkpoint.{
  Data, max_import_runs, max_checkpoint_bytes, checkpoint_compact_bytes, checkpoint_compact_updates,
  is_str, run_state, update_run, load, checkpoint_line,
}

pub record Checkpoint : Type 0 where
  pub file : Bytes
  pub held : Data
  pub updates : ℕ

abbrev pub header_value : Data → Value
header_value d = obj (
    field (codes "type") (str (codes "header")) (
      field (codes "source") d.source (
        field (codes "entity") d.entity (
          field (codes "project") d.project
            (field (codes "target_project") d.target_project no_fields)))))

abbrev pub snapshot_value : Data → Value
snapshot_value d =
    obj
      (field (codes "type") (str (codes "snapshot")) (field (codes "runs") (obj d.runs) no_fields))

abbrev pub update_value : Text → Fields → Value
update_value source_id updates = obj (
    field (codes "type") (str (codes "update"))
      (field (codes "source_id") (str source_id) (field (codes "updates") (obj updates) no_fields)))

-- `len(runs)`
unfoldable pub fields_length : Fields → ℕ
fields_length no_fields = 0
fields_length (field k v fs) = fields_length fs + 1

abbrev pub is_absent : Option Value → Bool
is_absent none = true
is_absent (some v) = false

abbrev pub when : Bool → Exec Checkpoint (Unit {0}) → Exec Checkpoint (Unit {0})
when true m = m
when false m = pure tt

module _ (p : Platform) where
  -- `_compact`
  unfoldable pub compact : Exec Checkpoint (Unit {0})
  compact = do
    d ← gets (λ c. c.held)
    header ← lift (checkpoint_line p (header_value d))
    snapshot ← lift (checkpoint_line p (snapshot_value d))
    lift (raise_if (ltb max_checkpoint_bytes (length header + length snapshot)) import_error)
    modify (λ c. record c { file = header ++ snapshot; updates = 0 })

  abbrev pub is_due : Checkpoint → Bool
  is_due c =
      leb checkpoint_compact_bytes (length c.file) && leb checkpoint_compact_updates c.updates

  abbrev pub overflows : Bytes → Checkpoint → Bool
  overflows encoded c = ltb max_checkpoint_bytes (length c.file + length encoded)

  abbrev pub compact_if : (Checkpoint → Bool) → Exec Checkpoint (Unit {0})
  compact_if test = gets test >>= λ b. when b compact

  -- `_append_update`
  unfoldable pub append_update : Text → Fields → Exec Checkpoint (Unit {0})
  unfolding compact
  append_update source_id updates = do
    encoded ← lift (checkpoint_line p (update_value source_id updates))
    compact_if is_due
    compact_if (overflows encoded)
    too_large ← gets (overflows encoded)
    lift (raise_if too_large import_error)
    modify (λ c. record c { file = c.file ++ encoded; updates = c.updates + 1 })

  -- `update`
  unfoldable pub update_state : Text → Fields → Exec Checkpoint (Unit {0})
  unfolding append_update update_run fields_length
  update_state source_id updates = do
    runs ← gets (λ c. c.held.runs)
    lift (
        raise_if (is_absent (get source_id runs) && leb max_import_runs (fields_length runs))
          import_error)
    changed ← lift (update_run source_id updates runs)
    modify (λ c. record c { held = record c.held { runs = changed } })
    append_update source_id updates

  -- `state`
  unfoldable pub state : Text → Checkpoint → Result Fields
  state source_id c = run_state (get source_id c.held.runs)
