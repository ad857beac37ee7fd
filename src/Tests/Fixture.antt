-- ===== src/Tests/Fixture.antt =====
-- A runtime that decodes the files of the examples, and two alerts in a journal.
use epochdeck.Prelude.{true, Option, none, some, List, [], ◌∷◌, ◌++◌, arith, if◌then◌else◌}
use epochdeck.Prelude.Int.{pos}
use epochdeck.Text.{Text, Bytes, codes, text_eq}
use epochdeck.Json.{Value, float, int, str, obj, Fields, no_fields, field}
use epochdeck.Json.Dumps.{dumps}
use epochdeck.Platform.{Platform, FloatsPrintable}
use epochdeck.Spool.Lines.Framing.{framed}
use epochdeck.Spool.Entry.{Entry, content}
use epochdeck.Spool.Lane.{Lane}

abbrev pub alert : Text → Entry
alert name = record {
  fields = field (codes "id") (str name) no_fields;
  bytes = codes "{\"id\":\"" ++ name ++ codes "\"}";
}

abbrev pub first_alert : Entry
first_alert = alert (codes "a")

abbrev pub second_alert : Entry
second_alert = alert (codes "b")

-- The delivery state of the first alert, as it is written and as it is decoded.
abbrev pub first_file : Bytes
first_file = codes "{\"end_offset\":11,\"record_identity\":\"a\",\"start_offset\":0}"

abbrev pub first_delivery : Fields
first_delivery = field (codes "end_offset") (int (pos 11)) (
    field (codes "record_identity") (str (codes "a"))
      (field (codes "start_offset") (int (pos 0)) no_fields))

-- A metric point without values, and the delivery state of its batch.
abbrev pub point : Entry
point = record {
  fields = field (codes "sequence") (int (pos 1)) no_fields;
  bytes = codes "{\"sequence\":1}";
}

abbrev pub batch_file : Bytes
batch_file =
    codes
      "{\"end_offset\":15,\"record_identity\":\"1\",\"request_bytes\":46,\"request_sha256\":\"00\",\"start_offset\":0}"

abbrev pub batch_delivery : Fields
batch_delivery = field (codes "end_offset") (int (pos 15)) (
    field (codes "record_identity") (str (codes "1")) (
      field (codes "request_bytes") (int (pos 46)) (
        field (codes "request_sha256") (str (codes "00"))
          (field (codes "start_offset") (int (pos 0)) no_fields))))

-- An event with one metric.
abbrev pub event : Entry
event = record {
  fields = field (codes "metrics") (obj (field (codes "a") (float 5) no_fields)) no_fields;
  bytes = codes "{\"metrics\":{\"a\":0.5}}";
}

abbrev loads : Bytes → Option Value
loads b =
    if text_eq b (framed first_alert.bytes)
    then some (obj first_alert.fields)
    else if text_eq b (framed second_alert.bytes)
    then some (obj second_alert.fields)
    else if text_eq b first_file
    then some (obj first_delivery)
    else if text_eq b (framed point.bytes)
    then some (obj point.fields)
    else if text_eq b (framed event.bytes)
    then some (obj event.fields)
    else if text_eq b batch_file
    then some (obj batch_delivery)
    else none

abbrev pub runtime : Platform
runtime = record {
  json_loads = loads;
  float_repr = λ x. codes "0.5";
  float_of_int = λ n. some 0;
  sha256_hexdigest = λ b. codes "00";
  same_value = λ v w. text_eq (dumps (λ x. codes "0.5") true v) (dumps (λ x. codes "0.5") true w);
  container_str = λ v. codes "{}";
}

pub runtime-FloatsPrintable : FloatsPrintable runtime
runtime-FloatsPrintable = record { float_repr-IsPrintable = λ x. omega arith }

abbrev pub alerts : List Entry
alerts = first_alert ∷ second_alert ∷ []

-- Both alerts are in the journal, and nothing is acknowledged.
abbrev pub lane : Lane
lane = record { journal = content alerts; ack = none; delivery = none }

-- The delivery of the first alert has begun.
abbrev pub sending : Lane
sending = record lane { delivery = some first_file }

-- One metric point whose batch has begun.
abbrev pub sending_metrics : Lane
sending_metrics = record { journal = content (point ∷ []); ack = none; delivery = some batch_file }
