-- ===== src/Protocol.antt =====
-- python/src/epochdeck/_protocol.py: the canonical request encoding and the checks of server
-- acknowledgements. The messages of the exceptions are not modelled.
pub mod Encoding
use epochdeck.Prelude.{
  ℕ, zero, suc, ◌≤◌, ◌≡◌, Bool, true, false, not, ◌&&◌, ◌||◌, Option, none, some, List, [], ◌∷◌,
  arith, ltb, leb, ◌==◌, if◌then◌else◌, length,
}
use epochdeck.Prelude.Int.{ℤ, pos, negsuc, eqb_ℤ}
use epochdeck.Text.{Text, Bytes, codes, text_eq}
use epochdeck.Text.Utf8.{utf8}
use epochdeck.Error.{
  Error, delivery_protocol_error, type_error, value_error, Result, ok, err, ◌>>=◌, ◌>>◌, raise_if,
  or_raise,
}
use epochdeck.Json.{
  Value, null, bool, int, float, str, arr, obj, Items, no_items, item, Fields, get, all_finite,
}
use epochdeck.Json.Dumps.{dumps}
use epochdeck.Platform.{Platform}

-- `encode_json_request`: `allow_nan=False` raises ValueError, and so does the encoding.
unfoldable pub encode_json_request : Platform → Value → Result Bytes
encode_json_request p v =
    if all_finite v
    then or_raise (utf8 (dumps p.float_repr true v)) value_error
    else err value_error

abbrev pub max_file_name_bytes : ℕ
max_file_name_bytes = 512

-- `ord(character) < 32 or 127 <= ord(character) <= 159`.
unfoldable pub is_control : ℕ → Bool
is_control c = ltb c 32 || (leb 127 c && leb c 159)

unfoldable pub has_control : Text → Bool
unfolding is_control
has_control [] = false
has_control (c ∷ cs) = is_control c || has_control cs

-- `character in text`.
unfoldable pub contains : ℕ → Text → Bool
contains c [] = false
contains c (d ∷ t) = c == d || contains c t

unfoldable pub is_empty {ℓ} : {A : Type ℓ} → List A → Bool
is_empty [] = true
is_empty (x ∷ xs) = false

unfoldable pub validate_blob_file_name : Value → Result (Option Text)
unfolding has_control contains is_empty
validate_blob_file_name null = ok none
validate_blob_file_name (str s) = do
  encoded ← or_raise (utf8 s) value_error
  raise_if
      (is_empty encoded
        || ltb max_file_name_bytes (length encoded)
        || contains b'/' s
        || contains b'\\' s
        || has_control s)
      value_error
  ok (some s)
validate_blob_file_name v = err type_error

unfoldable pub require_object : Fields → Text → Result Fields
require_object value name = elim (get name value) [
  | some (obj fs) ↦ ok fs
  | _ ↦ err delivery_protocol_error
]

unfoldable pub require_text : Fields → Text → Result Text
require_text value name = elim (get name value) [
  | some (str []) ↦ err delivery_protocol_error
  | some (str (c ∷ cs)) ↦ ok (c ∷ cs)
  | _ ↦ err delivery_protocol_error
]

unfoldable pub require_nonnegative_int : Fields → Text → Result ℕ
require_nonnegative_int value name = elim (get name value) [
  | some (int (pos n)) ↦ ok n
  | _ ↦ err delivery_protocol_error
]

unfoldable pub require_bool : Fields → Text → Result Bool
require_bool value name = elim (get name value) [
  | some (bool b) ↦ ok b
  | _ ↦ err delivery_protocol_error
]

abbrev pub items_length : Items → ℕ
items_length no_items = 0
items_length (item v xs) = suc (items_length xs)

unfoldable pub request_points : Fields → Result Items
request_points batch = elim (get (codes "points") batch) [
  | some (arr no_items) ↦ err delivery_protocol_error
  | some (arr (item v xs)) ↦ ok (item v xs)
  | _ ↦ err delivery_protocol_error
]

unfoldable pub request_sequence : Fields → Result ℤ
request_sequence batch = elim (get (codes "batch_sequence") batch) [
  | some (int n) ↦ ok n
  | _ ↦ err delivery_protocol_error
]

unfoldable pub validate_ingest_ack : Fields → Text → Fields → Result (Unit {0})
unfolding request_points request_sequence require_text require_nonnegative_int require_bool
validate_ingest_ack response run_id batch = do
  points ← request_points batch
  batch_sequence ← request_sequence batch
  acknowledged_run ← require_text response (codes "run_id")
  raise_if (not (text_eq acknowledged_run run_id)) delivery_protocol_error
  sequence ← require_nonnegative_int response (codes "batch_sequence")
  raise_if (not (eqb_ℤ (pos sequence) batch_sequence)) delivery_protocol_error
  accepted ← require_nonnegative_int response (codes "accepted_points")
  raise_if (not (accepted == items_length points)) delivery_protocol_error
  duplicate ← require_bool response (codes "duplicate")
  revision ← require_nonnegative_int response (codes "metric_revision")
  ok tt

unfoldable pub validate_record_ack : Fields → Text → Text → Text → Result (Unit {0})
unfolding require_object require_text require_bool
validate_record_ack response name identity_field expected_identity = do
  record_fields ← require_object response name
  identity ← require_text record_fields identity_field
  raise_if (not (text_eq identity expected_identity)) delivery_protocol_error
  duplicate ← require_bool response (codes "duplicate")
  ok tt

unfoldable pub validate_run_identity : Fields → Text → Result (Unit {0})
unfolding require_object require_text
validate_run_identity response expected_run_id = do
  run ← require_object response (codes "run")
  identity ← require_text run (codes "id")
  raise_if (not (text_eq identity expected_run_id)) delivery_protocol_error

unfoldable pub required_request_identity : Fields → Result Text
unfolding require_text
required_request_identity request = require_text request (codes "id")
