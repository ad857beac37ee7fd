-- ===== src/Spool/Lane/Read.antt =====
-- `_read_record_batch` of python/src/epochdeck/_spool.py and the readers of each journal.
pub mod Steps
pub mod Replay
pub mod Begins
pub mod First
pub mod Next
use epochdeck.Prelude.{
  ℕ, zero, suc, ◌+◌, ◌-◌, ◌≡◌, Bool, true, false, not, ◌&&◌, ◌||◌, Option, none, some, List, [],
  ◌∷◌, ◌++◌, ltb, leb, ◌==◌, if◌then◌else◌, length, drop,
}
use epochdeck.Prelude.Int.{ℤ, pos, negsuc}
use epochdeck.Text.{Text, Bytes, codes, text_eq}
use epochdeck.Text.Decimal.{decimal}
use epochdeck.Error.{
  Error, delivery_error, boundary_splits_record, over_byte_budget, no_identity, identity_mismatch,
  request_mismatch, delivery_outside_journal, out_of_rounds, Result, ok, err, raise_if,
}
use epochdeck.Json.{Value, null, bool, int, float, str, arr, obj, Items, Fields, field, get, update}
use epochdeck.Json.Dumps.{integer}
use epochdeck.Platform.{Platform}
use epochdeck.Protocol.{encode_json_request}
use epochdeck.Exec.{Exec, pure, raise, lift, gets, query, modify, ◌>>=◌, ◌>>◌}
use epochdeck.Spool.Lines.{read_journal_line}
use epochdeck.Spool.Lane.{
  Lane, json_file, decode_record, read_ack, read_delivery, max_delivery_bytes,
}
use epochdeck.Spool.Lane.Batch.{Reading, batch_loop}
use epochdeck.Spool.Lane.Begin.{begin_delivery, check_delivery, request_of, fixed_end_of, misses}

-- The end of `_read_record_batch`, once the records are read: the delivery state is written when
-- there is none, and compared with the records.
unfoldable pub finish_batch :
    Platform → ℕ → Option Fields → Option Bytes → List Fields → ℕ → Exec Lane (List Fields × ℕ)
finish_batch p offset delivery encoded [] next_offset = pure ([], next_offset)
finish_batch p offset delivery encoded (first ∷ points) next_offset = do
  fs ← begin_delivery p offset next_offset first encoded delivery
  lift (check_delivery p first encoded fs)
  pure (first ∷ points, next_offset)

-- The loop, from the acknowledged offset on.
unfoldable pub read_points : Platform → ℕ → Option ℕ → ℕ → Option ℕ → Lane → Result Reading
read_points p limit budget offset fixed_end lane =
    batch_loop p (suc (length lane.journal)) limit budget fixed_end (record {
      points = [];
      encoded_point_bytes = 0;
      position = offset;
      rest = drop offset lane.journal;
    })

-- `_read_record_batch`
unfoldable pub read_record_batch : Platform → ℕ → Option ℕ → Exec Lane (List Fields × ℕ)
read_record_batch p limit budget = do
  offset ← query read_ack
  size ← gets (λ lane. length lane.journal)
  delivery ← read_delivery p offset size
  s ← query (read_points p limit budget offset (fixed_end_of delivery))
  lift (
      raise_if (misses (fixed_end_of delivery) s.position)
        (delivery_error delivery_outside_journal))
  encoded ← lift (request_of p budget s.points)
  finish_batch p offset delivery encoded s.points s.position

-- `read_batch`, and the single record that `read_alert`, `read_rich_value` and `read_artifact` take.
unfoldable pub read_batch : Platform → ℕ → ℕ → Exec Lane (List Fields × ℕ)
read_batch p limit request_byte_budget = read_record_batch p limit (some request_byte_budget)

abbrev first_of_batch : List Fields × ℕ → Option Fields × ℕ
first_of_batch ([], offset) = (none, offset)
first_of_batch (r ∷ rs, offset) = (some r, offset)

unfoldable pub read_one : Platform → Exec Lane (Option Fields × ℕ)
read_one p = do batch ← read_record_batch p 1 none; pure (first_of_batch batch)
