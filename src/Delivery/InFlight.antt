-- ===== src/Delivery/InFlight.antt =====
-- What one attempt of the worker does when a delivery is in flight.
use epochdeck.Prelude.{
  ℕ, ◌+◌, ◌^◌, ◌<◌, ◌≡◌, refl, Option, none, some, List, [], ◌∷◌, length, take, drop,
}
use epochdeck.Text.{codes}
use epochdeck.Error.{Result, ok, err}
use epochdeck.Json.{Value, Fields}
use epochdeck.Platform.{Platform, FloatsPrintable}
use epochdeck.Exec.{Exec, continue}
use epochdeck.Spool.Entry.{Entry, offset_of}
use epochdeck.Spool.Lane.{acknowledge}
use epochdeck.Spool.Lane.Batch.{metric_request, items_of_records}
use epochdeck.Spool.Lane.Batch.Loops.{fields_of}
use epochdeck.Spool.Lane.View.{Holds, InFlight}
use epochdeck.Spool.Lane.Acknowledge.{acked_at, acknowledge-Holds}
use epochdeck.Spool.Lane.Read.{read_batch, read_one}
use epochdeck.Spool.Lane.Read.Replay.{read_record_batch_replay}
use epochdeck.Delivery.{
  Client, Site, on_lane, deliver_one, deliver_metrics, max_metric_request_bytes, require_key,
}

module _ {S : Type 0} where
  -- What is left after the server answered: the offset is acknowledged when it accepted, and the
  -- files are as before when it did not.
  abbrev pub answered : Site S → ℕ → Result (Unit {0}) × S → Result (Unit {0}) × Site S
  answered site stop (ok u, server) =
      (ok tt, record { lane = acked_at site.lane stop; server = server })
  answered site stop (err e, server) = (err e, record { lane = site.lane; server = server })

  answered-continue :
      (p : Platform) (site : Site S) (stop : ℕ) (r : Result (Unit {0}) × S)
      → acknowledge p stop site.lane ≡ (ok tt, acked_at site.lane stop)
      → continue (λ u. on_lane (acknowledge p stop)) (r.0, record site { server = r.1 })
        ≡ answered site stop r
  answered-continue p site stop (ok tt, server) h = rw h
  answered-continue p site stop (err e, server) h = refl

module _ {S : Type 0} (p : Platform) (floats : FloatsPrintable p) (client : Client S)
    (es : List Entry) (k : ℕ) (fs : Fields) (site : Site S) (holds : Holds p es k site.lane)
    (short : length site.lane.journal < 10 ^ 64) where
  acknowledged :
      (budget : Option ℕ) (m : ℕ)
      → InFlight p budget es k m fs site.lane
      → acknowledge p (offset_of es (k + m)) site.lane
        ≡ (ok tt, acked_at site.lane (offset_of es (k + m)))
  acknowledged budget m flight =
      (acknowledge-Holds p budget es k m fs site.lane holds flight short).0

  -- The attempt sends exactly the entry in flight.
  pub deliver_one_in_flight :
      (send : Fields → Exec S (Unit {0})) (e : Entry)
      → take 1 (drop k es) ≡ e ∷ []
      → InFlight p none es k 1 fs site.lane
      → deliver_one p client send site
        ≡ answered site (offset_of es (k + 1)) (send e.fields site.server)
  unfolding deliver_one read_one
  deliver_one_in_flight send e one flight =
      rw (read_record_batch_replay p floats 1 none es k site.lane holds 1 fs flight, one)
        (answered-continue p site (offset_of es (k + 1)) (send e.fields site.server)
          (acknowledged none 1 flight))

  -- With a metric batch in flight, whose first point has a sequence, one attempt sends one request with
  -- exactly its points; the batch is acknowledged if the server accepts, and no file changes if not.
  pub deliver_metrics_in_flight :
      (batch_size m : ℕ) (sequence : Value) (e : Entry) (rest : List Entry)
      → take m (drop k es) ≡ e ∷ rest
      → require_key (codes "sequence") e.fields ≡ ok sequence
      → InFlight p (some max_metric_request_bytes) es k m fs site.lane
      → deliver_metrics p client batch_size site
        ≡ answered site (offset_of es (k + m)) (
            client.ingest_batch
              (metric_request sequence (items_of_records (fields_of (e ∷ rest))))
              site.server)
  unfolding deliver_metrics read_batch
  deliver_metrics_in_flight batch_size m sequence e rest batch key flight =
      rw
        (
          read_record_batch_replay p floats batch_size (some max_metric_request_bytes) es k
              site.lane holds m fs flight,
          batch,
          key,
        )
        (answered-continue p site (offset_of es (k + m))
          (client.ingest_batch (metric_request sequence (items_of_records (fields_of (e ∷ rest))))
            site.server)
          (acknowledged (some max_metric_request_bytes) m flight))
