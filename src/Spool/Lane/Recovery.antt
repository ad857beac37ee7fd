-- ===== src/Spool/Lane/Recovery.antt =====
-- `_recover_interrupted_append` of python/src/epochdeck/_spool.py: an append that was cut short is
-- taken off the end of the journal, unless something on disk already refers to it.
pub mod Boundary
pub mod Restores
use epochdeck.Prelude.{
  ℕ, zero, suc, ◌+◌, ◌-◌, ◌*◌, ◌≡◌, Bool, true, false, not, ◌&&◌, Option, none, some, List, [], ◌∷◌,
  ltb, ◌==◌, if◌then◌else◌, length, take, drop,
}
use epochdeck.Prelude.Int.{ℤ, pos, ltb_ℤ}
use epochdeck.Text.{Bytes, codes}
use epochdeck.Error.{
  Error, delivery_error, record_too_large, tail_acknowledged, tail_checkpointed, Result, ok, err,
}
use epochdeck.Error
use epochdeck.Exec.{Exec, pure, raise, lift, gets, query, modify, ◌>>=◌, ◌>>◌}
use epochdeck.Json.{Value, int, bool, Fields, no_fields, field, get}
use epochdeck.Platform.{Platform}
use epochdeck.Spool.Lines.{max_journal_record_bytes, ends_with_newline, after_last_newline}
use epochdeck.Spool.Lane.{Lane, read_ack, read_delivery, read_json_object, fault_if}

abbrev pub max_run_metadata_bytes : ℕ
max_run_metadata_bytes = 1024 * 1024

-- The last `_MAX_JOURNAL_RECORD_BYTES + 1` bytes, from this offset on.
abbrev pub tail_start : Bytes → ℕ
tail_start journal = length journal - max_journal_record_bytes - 1

abbrev pub tail_boundary : Bytes → ℕ
tail_boundary journal =
    after_last_newline (take (max_journal_record_bytes + 1) (drop (tail_start journal) journal))

abbrev checked_end : ℕ → ℕ → ℕ → Result ℕ
checked_end size start boundary =
    if boundary == 0 && not (start == 0)
    then err (delivery_error record_too_large)
    else if ltb max_journal_record_bytes (size - (start + boundary))
    then err (delivery_error record_too_large)
    else ok (start + boundary)

-- The end of the last whole record, found in the tail of the journal.
unfoldable pub journal_end : Bytes → Result ℕ
journal_end journal = checked_end (length journal) (tail_start journal) (tail_boundary journal)

-- `metadata.get("summary_event_offset", 0)`: in Python a bool is an int too.
abbrev checkpoint_of : Fields → Option ℤ
checkpoint_of no_fields = some (pos 0)
checkpoint_of (field k v fs) = elim (get (codes "summary_event_offset") (field k v fs)) [
  | none ↦ some (pos 0)
  | some (int n) ↦ some n
  | some (bool true) ↦ some (pos 1)
  | some (bool false) ↦ some (pos 0)
  | _ ↦ none
]

abbrev pub after_end : ℕ → Option ℤ → Bool
after_end stop none = false
after_end stop (some n) = ltb_ℤ (pos stop) n

-- The checkpoint of the run metadata is looked at for the event journal only.
unfoldable pub checkpoint_after : Platform → Bool → Option Bytes → ℕ → Result Bool
checkpoint_after p false metadata stop = ok false
checkpoint_after p true none stop = ok (after_end stop (some (pos 0)))
checkpoint_after p true (some b) stop =
    Error.◌>>=◌ (read_json_object p max_run_metadata_bytes b)
      λ fs. ok (after_end stop (checkpoint_of fs))

-- The part below the tests for an empty and for a complete journal.
unfoldable pub truncate_tail : Platform → Bool → Option Bytes → Exec Lane (Unit {0})
truncate_tail p is_events metadata = do
  stop ← query (λ lane. journal_end lane.journal)
  offset ← query read_ack
  fault_if (ltb stop offset) tail_acknowledged
  delivery ← read_delivery p offset stop
  checkpointed ← lift (checkpoint_after p is_events metadata stop)
  fault_if checkpointed tail_checkpointed
  modify (λ lane. record lane { journal = take stop lane.journal })

abbrev is_complete : Bytes → Bool
is_complete [] = true
is_complete (b ∷ bs) = ends_with_newline (b ∷ bs)

unfoldable pub recover_interrupted_append : Platform → Bool → Option Bytes → Exec Lane (Unit {0})
recover_interrupted_append p is_events metadata lane =
    if is_complete lane.journal then (ok tt, lane) else truncate_tail p is_events metadata lane
