-- ===== src/Spool/Lane.antt =====
-- One journal of the spool with its acknowledgement and its delivery state: `events.jsonl`, `ack`
-- and `delivery.json` for metrics, and the like for alerts, rich values and artifacts
-- (python/src/epochdeck/_spool.py). Files are byte sequences; a file that is replaced is replaced
-- at once (`os.replace`), and an append may be cut short by a crash.
pub mod Batch
pub mod Begin
pub mod Read
pub mod View
pub mod Ack
pub mod Append
pub mod Acknowledge
pub mod Recovery
use epochdeck.Prelude.{
  ℕ, zero, suc, ◌+◌, ◌*◌, ◌-◌, ◌≡◌, Bool, true, false, not, ◌&&◌, ◌||◌, Option, none, some, List,
  [], ◌∷◌, ◌++◌, ltb, leb, ◌==◌, if◌then◌else◌, length, take, drop,
}
use epochdeck.Prelude.Int.{ℤ, pos, negsuc, leb_ℤ, eqb_ℤ}
use epochdeck.Text.{Text, Bytes, codes, text_eq}
use epochdeck.Text.Decimal.{decimal, int_text}
use epochdeck.Text.Utf8.{utf8}
use epochdeck.Error.{
  Error, delivery_error, value_error, record_too_large, file_too_large, invalid_document,
  not_json_compatible, invalid_ack, ack_outside_journal, invalid_delivery, delivery_outside_journal,
  ack_mismatch, tail_acknowledged, tail_checkpointed, Result, ok, err, or_raise, invalid_event,
}
use epochdeck.Error
use epochdeck.Exec.{Exec, pure, raise, lift, gets, query, modify, ◌>>=◌, ◌>>◌}
use epochdeck.Json.{
  Value, null, bool, int, float, str, arr, obj, Fields, no_fields, field, get, all_finite,
}
use epochdeck.Json.Dumps.{dumps, integer}
use epochdeck.Platform.{Platform}
use epochdeck.Protocol.{encode_json_request}
use epochdeck.Spool.Lines.{newline, max_journal_record_bytes, ends_with_newline, after_last_newline}

abbrev pub max_delivery_bytes : ℕ
max_delivery_bytes = 4 * 1024

abbrev pub max_ack_bytes : ℕ
max_ack_bytes = 64

pub record Lane : Type 0 where
  pub journal : Bytes
  pub ack : Option Bytes
  pub delivery : Option Bytes

abbrev pub guard : Bool → Error → Exec Lane (Unit {0})
guard true e = raise e
guard false e = pure tt

abbrev pub fault_if : Bool → Error.Fault → Exec Lane (Unit {0})
fault_if b f = guard b (delivery_error f)

-- The bytes that `_atomic_json_write` puts into the file, or what it raises.
unfoldable pub json_file : Platform → Value → ℕ → Result Bytes
json_file p v maximum =
    if all_finite v
    then elim (utf8 (dumps p.float_repr false v)) [
      | none ↦ err value_error
      | some b ↦ if ltb maximum (length b) then err (delivery_error file_too_large) else ok b
    ]
    else err (delivery_error not_json_compatible)

-- `_read_bounded_file` and `_read_json_object`, on the bytes of a file that is there.
unfoldable pub read_json_object : Platform → ℕ → Bytes → Result Fields
read_json_object p maximum b =
    if ltb maximum (length b)
    then err (delivery_error file_too_large)
    else elim (p.json_loads b) [ some (obj fs) ↦ ok fs | _ ↦ err (delivery_error invalid_document) ]

unfoldable pub decode_record : Platform → Bytes → Result Fields
decode_record p line = elim (p.json_loads line) [
  | some (obj fs) ↦ ok fs
  | _ ↦ err (delivery_error invalid_event)
]

-- `data.decode("ascii")` succeeds.
unfoldable pub is_ascii : Bytes → Bool
is_ascii [] = true
is_ascii (b ∷ bs) = ltb b 128 && is_ascii bs

-- The range check of `_read_ack`.
abbrev offset_in_journal : ℕ → Option ℤ → Result ℕ
offset_in_journal size none = err (delivery_error invalid_ack)
offset_in_journal size (some (negsuc n)) = err (delivery_error ack_outside_journal)
offset_in_journal size (some (pos n)) =
    if ltb size n then err (delivery_error ack_outside_journal) else ok n

unfoldable pub parse_ack : ℕ → Bytes → Result ℕ
unfolding is_ascii
parse_ack size b =
    if ltb max_ack_bytes (length b)
    then err (delivery_error file_too_large)
    else if is_ascii b
    then offset_in_journal size (int_text b)
    else err (delivery_error invalid_ack)

unfoldable pub stored_ack : ℕ → Option Bytes → Result ℕ
stored_ack size none = ok 0
stored_ack size (some b) = parse_ack size b

-- `_read_ack`
unfoldable pub read_ack : Lane → Result ℕ
unfolding stored_ack
read_ack lane = stored_ack (length lane.journal) lane.ack

-- The fields that `_read_delivery` requires, with the types that it requires.
abbrev is_identity : Option Value → Bool
is_identity (some (str s)) = true
is_identity (some (int n)) = true
is_identity _ = false

abbrev offsets_of : Option Value → Option Value → Bool → Result (ℤ × ℤ)
offsets_of (some (int start)) (some (int stop)) true = ok (start, stop)
offsets_of _ _ _ = err (delivery_error invalid_delivery)

unfoldable pub delivery_offsets : Fields → Result (ℤ × ℤ)
delivery_offsets fs =
    offsets_of (get (codes "start_offset") fs) (get (codes "end_offset") fs)
      (is_identity (get (codes "record_identity") fs))

-- A delivery that is already acknowledged is removed; any other must start at the acknowledged
-- offset and end inside the journal.
unfoldable pub checked_delivery : Fields → ℕ → ℕ → ℤ × ℤ → Exec Lane (Option Fields)
checked_delivery fs offset size (start, stop) =
    if leb_ℤ stop (pos offset)
    then (do modify (λ lane. record lane { delivery = none }); pure none)
    else if not (eqb_ℤ start (pos offset)) || leb_ℤ stop start || not (leb_ℤ stop (pos size))
    then raise (delivery_error delivery_outside_journal)
    else pure (some fs)

unfoldable pub stored_delivery : Platform → ℕ → ℕ → Option Bytes → Exec Lane (Option Fields)
stored_delivery p offset size none = pure none
stored_delivery p offset size (some b) = do
  fs ← lift (read_json_object p max_delivery_bytes b)
  offsets ← lift (delivery_offsets fs)
  checked_delivery fs offset size offsets

-- `_read_delivery`
unfoldable pub read_delivery : Platform → ℕ → ℕ → Exec Lane (Option Fields)
unfolding stored_delivery
read_delivery p offset size lane = stored_delivery p offset size lane.delivery lane

-- `_append_record`: the size of the journal behind the record.
unfoldable pub append_record : Platform → Value → Exec Lane ℕ
append_record p value = do
  encoded ← lift (encode_json_request p value)
  fault_if (ltb max_journal_record_bytes (length encoded)) record_too_large
  modify (λ lane. record lane { journal = lane.journal ++ (encoded ++ newline ∷ []) })
  gets (λ lane. length lane.journal)

-- `isinstance(end_offset, int)` without bool, and equal to the offset.
abbrev pub ends_at : ℕ → Option Value → Bool
ends_at offset (some (int n)) = eqb_ℤ n (pos offset)
ends_at offset _ = false

abbrev pub check_boundary : Platform → ℕ → Option Bytes → Result (Unit {0})
check_boundary p offset none = ok tt
check_boundary p offset (some b) = Error.◌>>=◌ (read_json_object p max_delivery_bytes b) λ fs.
    if ends_at offset (get (codes "end_offset") fs)
    then ok tt
    else err (delivery_error ack_mismatch)

-- `_acknowledge`: the acknowledgement is written first, then the delivery state is removed.
unfoldable pub acknowledge : Platform → ℕ → Exec Lane (Unit {0})
acknowledge p offset = do
  query (λ lane. check_boundary p offset lane.delivery)
  fault_if (ltb max_ack_bytes (length (decimal offset))) file_too_large
  modify (λ lane. record lane { ack = some (decimal offset) })
  modify (λ lane. record lane { delivery = none })

unfoldable pub is_pending : Lane → Result Bool
is_pending lane = Error.◌>>=◌ (read_ack lane) λ offset. ok (ltb offset (length lane.journal))
