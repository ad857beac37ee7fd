-- ===== src/Spool/Lane/Batch.antt =====
-- `_read_record_batch` of python/src/epochdeck/_spool.py: the records of the next delivery. A
-- delivery that was begun is fixed on disk, and is read again with the same boundary.
pub mod Rounds
pub mod Loops
pub mod Budget
pub mod Longest
use epochdeck.Prelude.{
  ℕ, zero, suc, ◌+◌, ◌-◌, ◌≡◌, Bool, true, false, not, ◌&&◌, ◌||◌, Option, none, some, List, [],
  ◌∷◌, ◌++◌, ltb, leb, ◌==◌, if◌then◌else◌, length, drop,
}
use epochdeck.Prelude.Int.{ℤ, pos, negsuc}
use epochdeck.Text.{Text, Bytes, codes, text_eq}
use epochdeck.Text.Decimal.{decimal}
use epochdeck.Error.{
  Error, delivery_error, boundary_splits_record, over_byte_budget, no_identity, identity_mismatch,
  request_mismatch, delivery_outside_journal, out_of_rounds, Result, ok, err, ◌>>=◌, ◌>>◌, raise_if,
}
use epochdeck.Json.{
  Value, null, bool, int, float, str, arr, obj, Items, no_items, item, Fields, no_fields, field,
  get, update,
}
use epochdeck.Json.Dumps.{integer}
use epochdeck.Platform.{Platform}
use epochdeck.Protocol.{encode_json_request}
use epochdeck.Exec
use epochdeck.Exec.{Exec, lift, query}
use epochdeck.Spool.Lines.{read_journal_line}
use epochdeck.Spool.Lane.{
  Lane, json_file, decode_record, read_ack, read_delivery, max_delivery_bytes,
}

-- The value that `d.get(key)` returns: a missing key is `None`.
abbrev pub or_null : Option Value → Value
or_null none = null
or_null (some v) = v

abbrev pub items_of_records : List Fields → Items
items_of_records [] = no_items
items_of_records (r ∷ rs) = item (obj r) (items_of_records rs)

-- `{"batch_sequence": …, "points": …}`.
unfoldable pub metric_request : Value → Items → Value
metric_request sequence points =
    obj (field (codes "batch_sequence") sequence (field (codes "points") (arr points) no_fields))

-- `_metric_request_size`: the request without points, the points, and the commas between them.
unfoldable pub metric_request_size : Platform → Value → ℕ → ℕ → Result ℕ
metric_request_size p sequence encoded_point_bytes point_count = do
  empty_request ← encode_json_request p (metric_request sequence no_items)
  ok (length empty_request + encoded_point_bytes + (point_count - 1))

-- `points[0].get("sequence")` when `point` is the next one.
abbrev pub batch_sequence : List Fields → Fields → Value
batch_sequence [] point = or_null (get (codes "sequence") point)
batch_sequence (first ∷ points) point = or_null (get (codes "sequence") first)

-- The variables of the loop; `rest` is the journal from `position` on.
pub record Reading : Type 0 where
  pub points : List Fields
  pub encoded_point_bytes : ℕ
  pub position : ℕ
  pub rest : Bytes

-- What one round decides: to go on, or to leave the loop.
pub data Round : Type 0 where
  again : Reading → Round
  stop : Reading → Round

abbrev is_nil : List Fields → Bool
is_nil [] = true
is_nil (r ∷ rs) = false

module _ (p : Platform) where
  abbrev accept : Reading → Fields → ℕ → ℕ → Bytes → Reading
  accept s point point_bytes position rest = record {
    points = s.points ++ point ∷ [];
    encoded_point_bytes = s.encoded_point_bytes + point_bytes;
    position = position;
    rest = rest;
  }

  -- A point over the budget is left for the next batch, unless it is the first of this one.
  abbrev budgeted : Reading → Reading → Bool → Result Round
  budgeted s next true =
      if is_nil s.points then err (delivery_error over_byte_budget) else ok (stop s)
  budgeted s next false = ok (again next)

  -- The request byte budget, which counts only while the boundary is open.
  unfoldable pub within_budget : Option ℕ → Option ℕ → Reading → Fields → ℕ → Bytes → Result Round
  within_budget none fixed_end s point n rest =
      ok (again (accept s point n (s.position + (n + 1)) rest))
  within_budget (some budget) (some e) s point n rest =
      ok (again (accept s point n (s.position + (n + 1)) rest))
  within_budget (some budget) none s point n rest = do
    size ←
        metric_request_size p (batch_sequence s.points point) (s.encoded_point_bytes + n)
          (length s.points + 1)
    budgeted s (accept s point n (s.position + (n + 1)) rest) (ltb budget size)

  abbrev past : Option ℕ → ℕ → Bool
  past none position = false
  past (some e) position = ltb e position

  abbrev read_record : Option ℕ → Option ℕ → Reading → Bytes × Bytes → Result Round
  read_record budget fixed_end s ([], rest) = ok (stop s)
  read_record budget fixed_end s (b ∷ line, rest) = do
    raise_if (past fixed_end (s.position + length (b ∷ line)))
        (delivery_error boundary_splits_record)
    point ← decode_record p (b ∷ line)
    within_budget budget fixed_end s point (length line) rest

  -- `while len(points) < limit or fixed_end is not None`, and the test at the fixed end.
  abbrev wanted : ℕ → Option ℕ → Reading → Bool
  wanted limit none s = ltb (length s.points) limit
  wanted limit (some e) s = ltb s.position e

  unfoldable pub batch_round : ℕ → Option ℕ → Option ℕ → Reading → Result Round
  batch_round limit budget fixed_end s =
      if wanted limit fixed_end s
      then (do line ← read_journal_line s.rest; read_record budget fixed_end s line)
      else ok (stop s)

  -- Each round that goes on reads at least one byte, so `length rest + 1` rounds are enough.
  unfoldable pub batch_loop : ℕ → ℕ → Option ℕ → Option ℕ → Reading → Result Reading
  batch_loop zero limit budget fixed_end s = err out_of_rounds
  batch_loop (suc fuel) limit budget fixed_end s = elim (batch_round limit budget fixed_end s) [
    | err e ↦ err e
    | ok (stop s') ↦ ok s'
    | ok (again s') ↦ batch_loop fuel limit budget fixed_end s'
  ]
