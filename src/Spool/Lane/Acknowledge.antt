-- ===== src/Spool/Lane/Acknowledge.antt =====
-- Acknowledging the batch that is in flight, and no other.
use epochdeck.Prelude.{
  ℕ, ◌+◌, ◌^◌, ◌≤◌, ◌<◌, ◌≡◌, refl, ap, ◌∙◌, Option, none, some, List, arith, ge→ltb, length, ◌==◌,
  ==_refl, if◌then◌else◌,
}
use native.Mathlib.Nat.{add-zero}
use epochdeck.Prelude.Int.{ℤ, pos, eqb_ℤ}
use epochdeck.Text.{Bytes, codes}
use epochdeck.Text.Decimal.{decimal, length-decimal}
use epochdeck.Error.{ok, err, delivery_error, ack_mismatch}
use epochdeck.Json.{Fields, get}
use epochdeck.Platform.{Platform}
use epochdeck.Spool.Entry.{Entry, offset_of, offset_of-le}
use epochdeck.Spool.Lane.{
  Lane, acknowledge, check_boundary, ends_at, read_json_object, read_ack, stored_ack,
  max_delivery_bytes, delivery_offsets,
}
use epochdeck.Spool.Lane.Ack.{parse_ack-decimal}
use epochdeck.Spool.Lane.View.{Holds, InFlight}

-- The lane after an acknowledgement.
abbrev pub acked_at : Lane → ℕ → Lane
acked_at lane offset = record lane { ack = some (decimal offset); delivery = none }

ends_at-delivery_offsets :
    (fs : Fields) (start : ℤ) (stop offset : ℕ)
    → delivery_offsets fs ≡ ok (start, pos stop)
    → ends_at offset (get (codes "end_offset") fs) ≡ eqb_ℤ (pos stop) (pos offset)
ends_at-delivery_offsets fs start stop offset h = unfold delivery_offsets in ground arith

module _ (p : Platform) (lane : Lane) (offset : ℕ) where
  acknowledge_ok :
      check_boundary p offset lane.delivery ≡ ok tt
      → offset < 10 ^ 64
      → acknowledge p offset lane ≡ (ok tt, acked_at lane offset)
  unfolding acknowledge
  acknowledge_ok boundary short =
      rw (boundary, ge→ltb 64 (length (decimal offset)) (length-decimal offset 63 short))

  module _ (file : Bytes) (fs : Fields) (start : ℤ) (stop : ℕ) (stored : lane.delivery ≡ some file)
      (reads : read_json_object p max_delivery_bytes file ≡ ok fs)
      (offsets : delivery_offsets fs ≡ ok (start, pos stop)) where
    check_boundary-stored :
        check_boundary p offset lane.delivery
        ≡ (if stop == offset then ok tt else err (delivery_error ack_mismatch))
    check_boundary-stored =
        ap (check_boundary p offset) stored
        ∙ rw (
          reads,
          ends_at-delivery_offsets fs start stop offset offsets,
          add-zero stop,
          add-zero offset,
        )

module _ (p : Platform) (budget : Option ℕ) (es : List Entry) (k m : ℕ) (fs : Fields) (lane : Lane)
    (holds : Holds p es k lane) (flight : InFlight p budget es k m fs lane)
    (short : length lane.journal < 10 ^ 64) where
  stop_inside : offset_of es (k + m) ≤ length lane.journal
  stop_inside = omega (arith, offset_of-le es (k + m), ap length holds.journal)

  acked_at-Holds : Holds p es (k + m) (acked_at lane (offset_of es (k + m)))
  acked_at-Holds = record {
    valid = holds.valid;
    journal = holds.journal;
    acked =
        unfold read_ack stored_ack in
        parse_ack-decimal (length lane.journal) (offset_of es (k + m)) stop_inside
          (omega (arith, stop_inside));
    bounded = flight.room;
  }

  -- Acknowledging the end of the batch in flight marks exactly its entries as delivered, and removes
  -- the delivery state.
  pub acknowledge-Holds :
      (acknowledge p (offset_of es (k + m)) lane ≡ (ok tt, acked_at lane (offset_of es (k + m))))
      × Holds p es (k + m) (acked_at lane (offset_of es (k + m)))
      × ((acked_at lane (offset_of es (k + m))).delivery ≡ none)
  acknowledge-Holds = (
    acknowledge_ok p lane (offset_of es (k + m))
        (check_boundary-stored p lane (offset_of es (k + m)) flight.file fs (pos (offset_of es k))
            (offset_of es (k + m)) flight.stored flight.reads flight.offsets
          ∙ rw ==_refl)
        (omega (arith, stop_inside)),
    acked_at-Holds,
    refl,
  )
