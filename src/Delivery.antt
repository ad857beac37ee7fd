-- ===== src/Delivery.antt =====
-- `_DeliveryWorker` of python/src/epochdeck/_delivery.py: what one delivery sends, and which journal
-- is served next. The HTTP client is an interface; its state stands for the server and the network.
pub mod Rotation
pub mod InFlight
pub mod Retry
use epochdeck.Prelude.{
  ℕ, zero, suc, ◌+◌, ◌*◌, ◌%◌, ◌≡◌, Bool, true, false, not, ◌&&◌, ◌||◌, Option, none, some, List,
  [], ◌∷◌, ltb, leb, ◌==◌, if◌then◌else◌, length, min,
}
use epochdeck.Text.{Text, codes, text_eq}
use epochdeck.Error.{
  Error, delivery_error, type_error, key_error, invalid_digest, unknown_operation, Result, ok, err,
}
use epochdeck.Error
use epochdeck.Exec.{Exec, pure, raise, lift, ◌>>=◌, ◌>>◌}
use epochdeck.Json.{
  Value, null, str, arr, obj, Items, no_items, item, Fields, no_fields, field, get, without,
}
use epochdeck.Platform.{Platform}
use epochdeck.Spool.Lane.{Lane, acknowledge}
use epochdeck.Spool.Lane.Batch.{metric_request, items_of_records, or_null}
use epochdeck.Spool.Lane.Begin.{python_str}
use epochdeck.Spool.Lane.Read.{read_batch, read_one}

abbrev pub max_metric_request_bytes : ℕ
max_metric_request_bytes = 1_750_000

-- The calls of `EpochDeckClient` that the worker makes for its run.
pub record Client (S : Type 0) : Type 0 where
  pub ingest_batch : Value → Exec S (Unit {0})
  pub create_alert : Fields → Exec S (Unit {0})
  pub create_rich_value : Fields → Exec S (Unit {0})
  pub create_artifact : Fields → Exec S (Unit {0})
  pub use_artifact : Text → Exec S (Unit {0})
  pub upload_blob : Text → Fields → Exec S (Unit {0})

-- A lane of the spool, and what the client talks to.
pub record Site (S : Type 0) : Type 0 where
  pub lane : Lane
  pub server : S

module _ {S : Type 0} where
  abbrev pub on_lane : {A : Type 0} → Exec Lane A → Exec (Site S) A
  on_lane m site = let (r, lane) = m site.lane in (r, record site { lane = lane })

  abbrev pub on_server : {A : Type 0} → Exec S A → Exec (Site S) A
  on_server m site = let (r, server) = m site.server in (r, record site { server = server })

-- `value["key"]` of a dict.
abbrev pub require_key : Text → Fields → Result Value
require_key name fs = elim (get name fs) [ none ↦ err key_error | some v ↦ ok v ]

-- `"0123456789abcdef"` contains the character.
abbrev is_hex : ℕ → Bool
is_hex c = (leb 48 c && leb c 57) || (leb 97 c && leb c 102)

unfoldable pub all_hex : Text → Bool
all_hex [] = true
all_hex (c ∷ cs) = is_hex c && all_hex cs

-- The check of `_Spool.blob_path`; the path is the digest below the blob directory.
unfoldable pub blob_path : Text → Result Text
unfolding all_hex
blob_path digest =
    if length digest == 64 && all_hex digest then ok digest else err (delivery_error invalid_digest)

module _ {S : Type 0} (p : Platform) (client : Client S) where
  -- `_upload_blob`
  unfoldable pub upload_blob : Value → Exec S (Unit {0})
  unfolding blob_path
  upload_blob (obj blob) = do
    digest ← lift (require_key (codes "digest") blob)
    path ← lift (blob_path (python_str p digest))
    client.upload_blob path blob
  upload_blob v = raise type_error

  unfoldable pub upload_entries : Items → Exec S (Unit {0})
  upload_entries no_items = pure tt
  upload_entries (item (obj entry) rest) = do
    blob ← lift (require_key (codes "blob") entry)
    upload_blob blob
    upload_entries rest
  upload_entries (item v rest) = raise type_error

  -- `_deliver_metrics`
  abbrev send_metrics : List Fields × ℕ → Exec (Site S) (Unit {0})
  send_metrics ([], next_offset) = pure tt
  send_metrics (first ∷ points, next_offset) = do
    sequence ← lift (require_key (codes "sequence") first)
    on_server (client.ingest_batch (metric_request sequence (items_of_records (first ∷ points))))
    on_lane (acknowledge p next_offset)

  unfoldable pub deliver_metrics : ℕ → Exec (Site S) (Unit {0})
  deliver_metrics batch_size = do
    batch ← on_lane (read_batch p batch_size max_metric_request_bytes)
    send_metrics batch

  -- The delivery of a single record: read, send, acknowledge.
  abbrev send_one : (Fields → Exec S (Unit {0})) → Option Fields × ℕ → Exec (Site S) (Unit {0})
  send_one send (none, next_offset) = pure tt
  send_one send (some value, next_offset) = do
    on_server (send value)
    on_lane (acknowledge p next_offset)

  unfoldable pub deliver_one : (Fields → Exec S (Unit {0})) → Exec (Site S) (Unit {0})
  deliver_one send = do value ← on_lane (read_one p); send_one send value

  -- `_deliver_alert`
  unfoldable pub deliver_alert : Exec (Site S) (Unit {0})
  unfolding deliver_one
  deliver_alert = deliver_one client.create_alert

  abbrev upload_if_any : Value → Exec S (Unit {0})
  upload_if_any null = pure tt
  upload_if_any blob = upload_blob blob

  unfoldable pub send_rich_value : Fields → Exec S (Unit {0})
  unfolding upload_blob
  send_rich_value value = do
    upload_if_any (or_null (get (codes "blob") value))
    client.create_rich_value value

  -- `_deliver_rich_value`
  unfoldable pub deliver_rich_value : Exec (Site S) (Unit {0})
  unfolding deliver_one send_rich_value
  deliver_rich_value = deliver_one send_rich_value

  -- What `for entry in value` goes through: the keys of a dict and the characters of a text have no "blob".
  abbrev entries_of : Value → Result Items
  entries_of (arr entries) = ok entries
  entries_of (obj no_fields) = ok no_items
  entries_of (str []) = ok no_items
  entries_of v = err type_error

  abbrev send_operation : Value → Fields → Exec S (Unit {0})
  send_operation (str name) artifact =
      if text_eq name (codes "create")
      then (do
        value ← lift (require_key (codes "entries") artifact)
        entries ← lift (entries_of value)
        upload_entries entries
        client.create_artifact artifact)
      else if text_eq name (codes "use")
      then (do
        artifact_id ← lift (require_key (codes "artifact_id") artifact)
        client.use_artifact (python_str p artifact_id))
      else raise (delivery_error unknown_operation)
  send_operation v artifact = raise (delivery_error unknown_operation)

  unfoldable pub send_artifact : Fields → Exec S (Unit {0})
  unfolding upload_entries without
  send_artifact artifact =
      send_operation (or_null (get (codes "operation") artifact))
        (without (codes "operation") artifact)

  -- `_deliver_artifact`
  unfoldable pub deliver_artifact : Exec (Site S) (Unit {0})
  unfolding deliver_one send_artifact
  deliver_artifact = deliver_one send_artifact

-- `retry_delay`, in quarters of a second: doubled by each failure, five seconds at most.
unfoldable pub backoff : ℕ → ℕ
backoff retry_delay = min (retry_delay * 2) 20

-- `_next_delivery`: the journals in turn, from the cursor on, and the first that is pending.
-- 0 is metrics, 1 rich values, 2 artifacts and 3 alerts.
abbrev pub Pending : Type 0
Pending = ℕ → Result Bool

unfoldable pub search_from : ℕ → ℕ → ℕ → Pending → Result (Option ℕ × ℕ)
search_from zero offset cursor pending = ok (none, cursor)
search_from (suc rounds) offset cursor pending =
    let index = (cursor + offset) % 4 in
    elim (pending index) [
      | err e ↦ err e
      | ok true ↦ ok (some index, (index + 1) % 4)
      | ok false ↦ search_from rounds (offset + 1) cursor pending
    ]

unfoldable pub next_delivery : Pending → ℕ → Result (Option ℕ × ℕ)
unfolding search_from
next_delivery pending cursor = search_from 4 0 cursor pending

-- Attempts of `_deliver_until_stopped`: an exception is kept as `last_error` and the next attempt
-- starts from what was left on disk.
unfoldable pub attempt : {S : Type 0} → ℕ → Exec (Site S) (Unit {0}) → Site S → Site S
attempt zero deliver site = site
attempt (suc n) deliver site = attempt n deliver (deliver site).1
