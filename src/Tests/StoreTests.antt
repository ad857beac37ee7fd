-- ===== src/Tests/StoreTests.antt =====
-- A spool whose alerts are not delivered yet.
use epochdeck.Prelude.{◌≡◌, none, []}
use epochdeck.Error.{err, delivery_error, undelivered_records}
use epochdeck.Spool.Store.{Spool, reclaim_delivered, reclaimed, new_lane}
use epochdeck.Spool.Store.Reclaim.{
  Shelves, Keeps, no_shelves, new_lane-Holds, reclaim_delivered-Keeps,
}
use epochdeck.Tests.Fixture.{alerts, sending, runtime}
use epochdeck.Tests.SpoolTests.{sending-Holds}

abbrev spool : Spool
spool = record {
  events = new_lane;
  alerts = sending;
  rich_values = new_lane;
  artifacts = new_lane;
  metadata = none;
  blobs = [];
}

abbrev shelves : Shelves
shelves = record no_shelves { alerts = record { entries = alerts; acked = 0 } }

spool-Keeps : Keeps runtime shelves spool
spool-Keeps = record {
  events = new_lane-Holds runtime;
  alerts = sending-Holds;
  rich_values = new_lane-Holds runtime;
  artifacts = new_lane-Holds runtime;
}

reclaim_delivered-Keeps_example :
    (reclaim_delivered spool ≡ (err (delivery_error undelivered_records), spool))
    × Keeps runtime no_shelves (reclaimed spool)
reclaim_delivered-Keeps_example = reclaim_delivered-Keeps runtime shelves spool spool-Keeps
