-- ===== src/Spool/Lane/View.antt =====
-- The abstract view of a lane: the entries that were appended, how many of them the server has
-- acknowledged, and the batch whose delivery has begun.
use epochdeck.Prelude.{ℕ, ◌+◌, ◌≤◌, ◌≡◌, Option, some, List, [], ◌∷◌, length, take, drop, All}
use epochdeck.Text.{Bytes}
use epochdeck.Error.{ok}
use epochdeck.Json.{Fields}
use epochdeck.Platform.{Platform}
use epochdeck.Spool.Entry.{Entry, IsEntry, content, offset_of}
use epochdeck.Spool.Lane.{Lane, read_ack, read_json_object, max_delivery_bytes, delivery_offsets}
use epochdeck.Spool.Lane.Begin.{check_delivery, request_of, fixed_end_of}
use epochdeck.Spool.Lane.Batch.Loops.{fields_of}
use epochdeck.Prelude.Int.{pos}

-- The journal holds these entries, and the first `k` of them are acknowledged.
pub record Holds (p : Platform) (es : List Entry) (k : ℕ) (lane : Lane) : Type 0 where
  pub valid : All (IsEntry p) es
  pub journal : lane.journal ≡ content es
  pub acked : read_ack lane ≡ ok (offset_of es k)
  pub bounded : k ≤ length es

-- `check_delivery` at the first record of a batch.
abbrev pub Matches : Platform → List Fields → Option Bytes → Fields → Type 0
Matches p [] encoded fs = ⊥
Matches p (first ∷ points) encoded fs = check_delivery p first encoded fs ≡ ok tt

-- The delivery state on disk fixes the next `m` entries as the batch that is being delivered.
pub record InFlight (p : Platform) (budget : Option ℕ) (es : List Entry) (k m : ℕ) (fs : Fields)
    (lane : Lane) : Type 0 where
  pub file : Bytes
  pub encoded : Option Bytes
  pub stored : lane.delivery ≡ some file
  pub reads : read_json_object p max_delivery_bytes file ≡ ok fs
  pub offsets : delivery_offsets fs ≡ ok (pos (offset_of es k), pos (offset_of es (k + m)))
  pub fixed : fixed_end_of (some fs) ≡ some (offset_of es (k + m))
  pub request : request_of p budget (fields_of (take m (drop k es))) ≡ ok encoded
  pub same : Matches p (fields_of (take m (drop k es))) encoded fs
  pub room : k + m ≤ length es
