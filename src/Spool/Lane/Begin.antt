-- ===== src/Spool/Lane/Begin.antt =====
-- The delivery state of `_read_record_batch`: how it is begun, and how it is compared with the
-- records of the journal (python/src/epochdeck/_spool.py).
use epochdeck.Prelude.{
  ℕ, Bool, true, false, not, ◌&&◌, Option, none, some, List, [], ◌∷◌, ltb, ◌==◌, if◌then◌else◌,
  length,
}
use epochdeck.Prelude.Int.{pos}
use epochdeck.Text.{Text, Bytes, codes, text_eq}
use epochdeck.Error.{
  delivery_error, over_byte_budget, no_identity, identity_mismatch, request_mismatch, Result, ok,
  ◌>>=◌, ◌>>◌, raise_if,
}
use epochdeck.Json.{Value, null, bool, int, float, str, obj, Fields, no_fields, field, get}
use epochdeck.Json.Dumps.{integer}
use epochdeck.Platform.{Platform}
use epochdeck.Protocol.{encode_json_request}
use epochdeck.Exec
use epochdeck.Exec.{Exec, lift, query}
use epochdeck.Spool.Lane.{Lane, json_file, max_delivery_bytes}
use epochdeck.Spool.Lane.Batch.{or_null, items_of_records, metric_request}

-- `str(value)`.
unfoldable pub python_str : Platform → Value → Text
python_str p null = codes "None"
python_str p (bool true) = codes "True"
python_str p (bool false) = codes "False"
python_str p (int n) = integer n
python_str p (float x) = p.float_repr x
python_str p (str s) = s
python_str p v = p.container_str v

-- `point.get("sequence", point.get("id"))`.
unfoldable pub record_identity : Fields → Value
record_identity point = elim (get (codes "sequence") point) [
  | some v ↦ v
  | none ↦ or_null (get (codes "id") point)
]

abbrev pub number : ℕ → Value
number n = int (pos n)

abbrev boundary : Platform → ℕ → ℕ → Value → Fields → Fields
boundary p offset next_offset identity tail = field (codes "start_offset") (number offset) (
    field (codes "end_offset") (number next_offset)
      (field (codes "record_identity") (str (python_str p identity)) tail))

-- The delivery state of a new batch; a metric batch adds the size and the digest of its request.
unfoldable pub new_delivery : Platform → ℕ → ℕ → Value → Option Bytes → Fields
new_delivery p offset next_offset identity none = boundary p offset next_offset identity no_fields
new_delivery p offset next_offset identity (some b) = boundary p offset next_offset identity (
    field (codes "request_bytes") (number (length b))
      (field (codes "request_sha256") (str (p.sha256_hexdigest b)) no_fields))

abbrev pub is_null : Value → Bool
is_null null = true
is_null _ = false

-- Without a stored delivery, one is written before anything is sent.
unfoldable pub begin_delivery :
    Platform → ℕ → ℕ → Fields → Option Bytes → Option Fields → Exec Lane Fields
begin_delivery p offset next_offset first encoded (some fs) = Exec.pure fs
begin_delivery p offset next_offset first encoded none =
    if is_null (record_identity first)
    then Exec.raise (delivery_error no_identity)
    else Exec.◌>>=◌
        (lift (
          json_file p (obj (new_delivery p offset next_offset (record_identity first) encoded))
            max_delivery_bytes))
        λ file lane. (
          ok (new_delivery p offset next_offset (record_identity first) encoded),
          record lane { delivery = some file },
        )

abbrev pub same_number : ℕ → Option Value → Bool
same_number n (some (int (pos m))) = m == n
same_number n _ = false

abbrev pub same_text : Text → Option Value → Bool
same_text t (some (str s)) = text_eq s t
same_text t _ = false

-- The delivery state belongs to the records that were read.
unfoldable pub check_delivery : Platform → Fields → Option Bytes → Fields → Result (Unit {0})
check_delivery p first encoded fs = do
  raise_if
      (not (
        text_eq (python_str p (or_null (get (codes "record_identity") fs)))
          (python_str p (record_identity first))))
      (delivery_error identity_mismatch)
  elim encoded [
    | none ↦ ok tt
    | some b ↦
        raise_if
          (not (
            same_number (length b) (get (codes "request_bytes") fs)
            && same_text (p.sha256_hexdigest b) (get (codes "request_sha256") fs)))
          (delivery_error request_mismatch)
  ]

-- The body of the metric request, within its budget.
unfoldable pub request_of : Platform → Option ℕ → List Fields → Result (Option Bytes)
request_of p none points = ok none
request_of p (some budget) [] = ok none
request_of p (some budget) (first ∷ points) = do
  encoded ←
      encode_json_request p (
        metric_request (or_null (get (codes "sequence") first)) (items_of_records (first ∷ points)))
  raise_if (ltb budget (length encoded)) (delivery_error over_byte_budget)
  ok (some encoded)

-- `int(delivery["end_offset"])`: the check of the delivery has left only a positive integer.
unfoldable pub fixed_end_of : Option Fields → Option ℕ
fixed_end_of none = none
fixed_end_of (some fs) = elim (get (codes "end_offset") fs) [
  | some (int (pos n)) ↦ some n
  | _ ↦ some 0
]

abbrev pub misses : Option ℕ → ℕ → Bool
misses none position = false
misses (some e) position = not (position == e)
