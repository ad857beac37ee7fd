-- ===== src/Tests/DeliveryTests.antt =====
-- The worker with a server that refuses some requests and keeps the others.
use epochdeck.Prelude.{Option, ℕ, zero, suc, ◌≡◌, ◌==◌, ◌||◌, refl, some, List, [], ◌∷◌, arith}
use mathlib.Core.List.{Memᴰ}
use epochdeck.Prelude.Int.{pos}
use epochdeck.Text.{codes, text_eq, text_lt}
use epochdeck.Text.Utf8.{utf8}
use epochdeck.Error.{ok, err, delivery_protocol_error}
use epochdeck.Json.{Value, int, obj, no_fields, get, all_finite}
use epochdeck.Json.Dumps.{dumps}
use epochdeck.Protocol.{encode_json_request}
use epochdeck.Exec.{Exec}
use epochdeck.Spool.Entry.{IsEntry}
use epochdeck.Spool.Lane.{read_ack, read_json_object, delivery_offsets}
use epochdeck.Spool.Lane.Acknowledge.{acked_at}
use epochdeck.Spool.Lane.Batch.{metric_request, items_of_records}
use epochdeck.Spool.Lane.Batch.Loops.{fields_of}
use epochdeck.Spool.Lane.Begin.{
  check_delivery, request_of, fixed_end_of, python_str, record_identity,
}
use epochdeck.Spool.Lane.View.{Holds, InFlight}
use epochdeck.Delivery.{
  Client, Site, deliver_one, deliver_metrics, attempt, backoff, next_delivery, search_from, Pending,
  max_metric_request_bytes,
}
use epochdeck.Delivery.InFlight.{deliver_one_in_flight, deliver_metrics_in_flight}
use epochdeck.Delivery.Retry.{accepts, refuses, deliver_one-retry}
use epochdeck.Delivery.Rotation.{rest, turn, next_delivery-fair}
use epochdeck.Tests.Fixture.{
  first_alert, alerts, sending, runtime, runtime-FloatsPrintable, first_delivery, point,
  batch_delivery, batch_file, sending_metrics,
}
use epochdeck.Tests.SpoolTests.{sending-Holds, sending-InFlight}

-- How many requests are still refused, and what was accepted.
abbrev Server : Type 0
Server = ℕ × List Value

abbrev receive : Value → Exec Server (Unit {0})
receive v (zero, received) = (ok tt, (zero, v ∷ received))
receive v (suc n, received) = (err delivery_protocol_error, (n, received))

abbrev client : Client Server
client = record {
  ingest_batch = receive;
  create_alert = λ fs. receive (obj fs);
  create_rich_value = λ fs. receive (obj fs);
  create_artifact = λ fs. receive (obj fs);
  use_artifact = λ t. receive (obj no_fields);
  upload_blob = λ t fs. receive (obj fs);
}

abbrev site : Site Server
site = record { lane = sending; server = (0, []) }

deliver_one_in_flight_example :
    deliver_one runtime client client.create_alert site
    ≡ (ok tt, record { lane = acked_at sending 11; server = (0, obj first_alert.fields ∷ []) })
deliver_one_in_flight_example =
    deliver_one_in_flight runtime runtime-FloatsPrintable client alerts 0 first_delivery site
      sending-Holds (omega arith) client.create_alert first_alert refl sending-InFlight

deliver_one-retry_example :
    (attempt 2
        (deliver_one runtime client client.create_alert)
        (record { lane = sending; server = (1, []) })
      ≡ record { lane = acked_at sending 11; server = (0, obj first_alert.fields ∷ []) })
    × Holds runtime alerts 1 (acked_at sending 11)
deliver_one-retry_example =
    deliver_one-retry runtime runtime-FloatsPrintable client alerts 0 first_delivery sending
      sending-Holds (omega arith) client.create_alert first_alert refl sending-InFlight 1
      (refuses refl (accepts refl))

point-IsEntry : IsEntry runtime point
unfolding encode_json_request dumps all_finite utf8 text_eq
point-IsEntry = record { encodes = refl; fits = omega arith; decodes = refl }

metrics-Holds : Holds runtime (point ∷ []) 0 sending_metrics
unfolding read_ack
metrics-Holds = record {
  valid = (point-IsEntry, tt);
  journal = refl;
  acked = refl;
  bounded = omega arith;
}

metrics-InFlight :
    InFlight runtime (some max_metric_request_bytes) (point ∷ []) 0 1 batch_delivery sending_metrics
unfolding read_json_object delivery_offsets fixed_end_of request_of check_delivery python_str
    record_identity get text_eq encode_json_request metric_request dumps all_finite utf8 text_lt
metrics-InFlight = record {
  file = batch_file;
  encoded = some (codes "{\"batch_sequence\":1,\"points\":[{\"sequence\":1}]}");
  stored = refl;
  reads = refl;
  offsets = refl;
  fixed = refl;
  request = refl;
  same = refl;
  room = omega arith;
}

deliver_metrics_in_flight_example :
    deliver_metrics runtime client 5 (record { lane = sending_metrics; server = (0, []) }) ≡ (
      ok tt,
      record {
        lane = acked_at sending_metrics 15;
        server = (0, metric_request (int (pos 1)) (items_of_records (fields_of (point ∷ []))) ∷ []);
      },
    )
unfolding get text_eq
deliver_metrics_in_flight_example =
    deliver_metrics_in_flight runtime runtime-FloatsPrintable client (point ∷ []) 0 batch_delivery
      (record { lane = sending_metrics; server = (0, []) }) metrics-Holds (omega arith) 5 1
      (int (pos 1)) point [] refl refl metrics-InFlight

-- Metrics and alerts are always pending.
abbrev two_pending : Pending
two_pending index = ok (index == 0 || index == 3)

next_delivery-fair_example : Memᴰ {A = Option ℕ} (some 3) (some 3 ∷ some 0 ∷ some 3 ∷ some 0 ∷ [])
unfolding next_delivery search_from
next_delivery-fair_example =
    next_delivery-fair {i = 3} {c = 1} {e = 1} (omega arith) (omega arith) refl (
      turn two_pending refl refl
        (turn two_pending refl refl (turn two_pending refl refl (turn two_pending refl refl rest))))

backoff_test : backoff (backoff (backoff (backoff (backoff 1)))) ≡ 20
unfolding backoff
backoff_test = refl
