-- ===== src/Spool/Lane/Read/Steps.antt =====
-- `_read_record_batch` step by step.
use epochdeck.Prelude.{ℕ, ◌≤◌, ◌≡◌, ap, ◌∙◌, false, Option, none, some, arith, length, suc}
use epochdeck.Prelude.Int.{pos}
use epochdeck.Text.{Bytes}
use epochdeck.Error.{ok}
use epochdeck.Json.{Fields}
use epochdeck.Platform.{Platform}
use epochdeck.Spool.Lane.{
  Lane, read_ack, read_delivery, stored_delivery, read_json_object, delivery_offsets,
  checked_delivery, max_delivery_bytes,
}
use epochdeck.Spool.Lane.Batch.{Reading}
use epochdeck.Spool.Lane.Begin.{request_of, fixed_end_of, misses}
use epochdeck.Spool.Lane.Read.{read_points, read_record_batch, finish_batch}

module _ (p : Platform) (limit : ℕ) (budget : Option ℕ) (lane : Lane) where
  pub read_record_batch_steps :
      (offset : ℕ) (delivery : Option Fields) (lane' : Lane) (s : Reading) (encoded : Option Bytes)
      → read_ack lane ≡ ok offset
      → read_delivery p offset (length lane.journal) lane ≡ (ok delivery, lane')
      → read_points p limit budget offset (fixed_end_of delivery) lane' ≡ ok s
      → misses (fixed_end_of delivery) s.position ≡ false
      → request_of p budget s.points ≡ ok encoded
      → read_record_batch p limit budget lane
        ≡ finish_batch p offset delivery encoded s.points s.position lane'
  unfolding read_record_batch
  read_record_batch_steps offset delivery lane' s encoded h1 h2 h3 h4 h5 = rw (h1, h2, h3, h4, h5)

module _ (p : Platform) (lane : Lane) (offset size : ℕ) where
  -- A stored delivery that starts at the acknowledged offset and ends inside the journal is kept.
  pub read_delivery_stored :
      (file : Bytes) (fs : Fields) (stop : ℕ)
      → lane.delivery ≡ some file
      → read_json_object p max_delivery_bytes file ≡ ok fs
      → delivery_offsets fs ≡ ok (pos offset, pos stop)
      → suc offset ≤ stop
      → stop ≤ size
      → read_delivery p offset size lane ≡ (ok (some fs), lane)
  unfolding read_delivery checked_delivery
  read_delivery_stored file fs stop stored reads offsets starts ends =
      ap (λ d. stored_delivery p offset size d lane) stored ∙ rw (reads, offsets) (ground arith)

  pub read_delivery-none : lane.delivery ≡ none → read_delivery p offset size lane ≡ (ok none, lane)
  unfolding read_delivery
  read_delivery-none h = ap (λ d. stored_delivery p offset size d lane) h
