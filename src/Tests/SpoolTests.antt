-- ===== src/Tests/SpoolTests.antt =====
-- The spool theorems at two alerts.
use epochdeck.Prelude.{
  ℕ, ◌+◌, take, ◌≡◌, refl, false, none, some, [], ◌∷◌, ◌++◌, arith, length, All,
}
use epochdeck.Text.{Bytes, codes, text_eq, text_lt, text_eq_iff}
use epochdeck.Text.Utf8.{utf8}
use epochdeck.Error.{ok}
use epochdeck.Json.{null, obj, get, all_finite}
use epochdeck.Json.Dumps.{dumps}
use epochdeck.Protocol.{encode_json_request}
use epochdeck.Spool.Entry.{IsEntry, offset_of}
use epochdeck.Spool.Lane.{read_ack, read_json_object, acknowledge, delivery_offsets}
use epochdeck.Spool.Lane.View.{Holds, InFlight}
use epochdeck.Spool.Lane.Begin.{
  check_delivery, request_of, fixed_end_of, python_str, record_identity,
}
use epochdeck.Spool.Lane.Acknowledge.{acked_at, acknowledge-Holds}
use epochdeck.Spool.Lane.Read.{read_record_batch}
use epochdeck.Spool.Lane.Read.Replay.{read_record_batch_replay}
use epochdeck.Spool.Lane.Read.{read_one, read_points}
use epochdeck.Spool.Lane.Read.Begins.{SameFields, with_delivery}
use epochdeck.Spool.Lane.Read.First.{Written}
use epochdeck.Spool.Lane.Read.Next.{read_one_begins, read_points-longest}
use epochdeck.Spool.Lane.Begin.{new_delivery}
use epochdeck.Spool.Lane.{json_file, append_record, parse_ack}
use epochdeck.Spool.Lane.Append.{with_line, append_record-Holds}
use epochdeck.Spool.Lane.Ack.{parse_ack-decimal}
use epochdeck.Text.Decimal.{decimal}
use epochdeck.Spool.Lane.Recovery.{recover_interrupted_append, checkpoint_after}
use epochdeck.Spool.Lane.Recovery.Restores.{
  interrupted, recover_interrupted_append_idle, recover_interrupted_append_in_flight,
}
use epochdeck.Spool.Lane.Batch.{Reading, metric_request, metric_request_size, items_of_records}
use epochdeck.Spool.Lane.Batch.Loops.{fields_of, encoded_bytes}
use epochdeck.Spool.Lane.Batch.Longest.{Taken}
use epochdeck.Spool.Lane.Batch.Budget.{metric_request_size-encode}
use epochdeck.Json.Dumps.Printable.{IsPrintable}
use epochdeck.Protocol.Encoding.{encode_json_request-IsPrintable}
use epochdeck.Tests.Fixture.{
  first_alert, second_alert, alerts, lane, sending, runtime, runtime-FloatsPrintable, first_file,
  first_delivery,
}

first_alert-IsEntry : IsEntry runtime first_alert
unfolding encode_json_request dumps all_finite utf8 text_eq
first_alert-IsEntry = record { encodes = refl; fits = omega arith; decodes = refl }

second_alert-IsEntry : IsEntry runtime second_alert
unfolding encode_json_request dumps all_finite utf8 text_eq
second_alert-IsEntry = record { encodes = refl; fits = omega arith; decodes = refl }

pub sending-Holds : Holds runtime alerts 0 sending
unfolding read_ack
sending-Holds = record {
  valid = (first_alert-IsEntry, (second_alert-IsEntry, tt));
  journal = refl;
  acked = refl;
  bounded = omega arith;
}

abbrev pub sending-InFlight : InFlight runtime none alerts 0 1 first_delivery sending
unfolding read_json_object delivery_offsets fixed_end_of request_of check_delivery python_str
    record_identity get text_eq
sending-InFlight = record {
  file = first_file;
  encoded = none;
  stored = refl;
  reads = refl;
  offsets = refl;
  fixed = refl;
  request = refl;
  same = refl;
  room = omega arith;
}

read_record_batch_replay_example :
    read_record_batch runtime 1 none sending ≡ (ok (first_alert.fields ∷ [], 11), sending)
read_record_batch_replay_example =
    read_record_batch_replay runtime runtime-FloatsPrintable 1 none alerts 0 sending sending-Holds 1
      first_delivery sending-InFlight

lane-Holds : Holds runtime alerts 0 lane
unfolding read_ack
lane-Holds = record {
  valid = (first_alert-IsEntry, (second_alert-IsEntry, tt));
  journal = refl;
  acked = refl;
  bounded = omega arith;
}

-- Decoding has sorted the keys.
same_delivery :
    SameFields first_delivery (new_delivery runtime 0 11 (record_identity first_alert.fields) none)
unfolding get new_delivery python_str record_identity text_eq
same_delivery name = ground (
  arith,
  text_eq_iff name (codes "end_offset"),
  text_eq_iff name (codes "start_offset"),
  text_eq_iff name (codes "record_identity"),
)

first_file-Written : Written runtime 0 11 first_alert.fields none first_file first_delivery
unfolding record_identity get text_eq text_lt json_file new_delivery python_str dumps all_finite
    utf8
first_file-Written = record {
  identified = refl;
  written = refl;
  decodes = refl;
  same = same_delivery;
}

read_one_begins_example :
    (read_one runtime lane ≡ (ok (some first_alert.fields, 11), with_delivery lane first_file))
    × Holds runtime alerts 0 (with_delivery lane first_file)
    × InFlight runtime none alerts 0 1 first_delivery (with_delivery lane first_file)
read_one_begins_example =
    read_one_begins runtime runtime-FloatsPrintable alerts 0 lane lane-Holds first_alert first_file
      first_delivery refl refl first_file-Written (omega arith)

acknowledge-Holds_example :
    (acknowledge runtime 11 sending ≡ (ok tt, acked_at sending 11))
    × Holds runtime alerts 1 (acked_at sending 11)
    × ((acked_at sending 11).delivery ≡ none)
acknowledge-Holds_example =
    acknowledge-Holds runtime none alerts 0 1 first_delivery sending sending-Holds sending-InFlight
      (omega arith)

recover_interrupted_append_idle_example :
    recover_interrupted_append runtime false none (interrupted lane (codes "{\"id")) ≡ (ok tt, lane)
unfolding checkpoint_after
recover_interrupted_append_idle_example =
    recover_interrupted_append_idle runtime false none alerts 0 lane lane-Holds b'{' (codes "\"id")
      (omega arith) (omega arith) refl refl

recover_interrupted_append_in_flight_example :
    recover_interrupted_append runtime false none (interrupted sending (codes "{\"id"))
    ≡ (ok tt, sending)
unfolding checkpoint_after
recover_interrupted_append_in_flight_example =
    recover_interrupted_append_in_flight runtime false none alerts 0 sending sending-Holds b'{'
      (codes "\"id") (omega arith) (omega arith) refl none 1 first_delivery sending-InFlight

append_record-Holds_example :
    (append_record runtime (obj second_alert.fields) lane
      ≡ (ok 33, with_line lane second_alert.bytes))
    × Holds runtime (alerts ++ second_alert ∷ []) 0 (with_line lane second_alert.bytes)
append_record-Holds_example =
    append_record-Holds runtime alerts 0 second_alert lane lane-Holds (obj second_alert.fields)
      second_alert-IsEntry second_alert-IsEntry.encodes

read_points-longest_example :
    (m : ℕ) × (s : Reading) × (read_points runtime 5 (some 45) 0 none lane ≡ ok s)
    × (s.points ≡ fields_of (take m alerts))
    × (s.position ≡ offset_of alerts (0 + m))
    × Taken runtime 45 5 [] alerts m
unfolding encode_json_request metric_request dumps all_finite utf8 text_eq text_lt get
read_points-longest_example =
    read_points-longest runtime runtime-FloatsPrintable alerts 0 lane lane-Holds 5 45 (omega arith)

parse_ack-decimal_example : parse_ack 22 (decimal 11) ≡ ok 11
parse_ack-decimal_example = parse_ack-decimal 22 11 (omega arith) (omega arith)

encode_json_request-IsPrintable_example : All IsPrintable first_alert.bytes
encode_json_request-IsPrintable_example =
    encode_json_request-IsPrintable runtime runtime-FloatsPrintable (obj first_alert.fields)
      first_alert-IsEntry.encodes

metric_request_size-encode_example :
    (b : Bytes) × (encode_json_request runtime
        (metric_request null (items_of_records (fields_of alerts)))
      ≡ ok b)
    × (metric_request_size runtime null (encoded_bytes alerts) 2 ≡ ok (length b))
unfolding all_finite
metric_request_size-encode_example =
    metric_request_size-encode runtime runtime-FloatsPrintable null refl first_alert
      (second_alert ∷ []) (first_alert-IsEntry, (second_alert-IsEntry, tt))
