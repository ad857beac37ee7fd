-- ===== src/Spool/Lane/Append.antt =====
-- Appending a record adds one entry, and leaves a delivery that was begun as it is.
use epochdeck.Prelude.{
  ℕ, ◌+◌, ◌≤◌, ◌<◌, ◌≡◌, sym, ap, ◌∙◌, Option, List, [], ◌∷◌, ◌++◌, arith, lt→ltb, ge→ltb, length,
  length-append, take, drop, take-append_le, drop-append_le, take_all, length-drop, All-append,
}
use epochdeck.Text.{Bytes}
use epochdeck.Error.{ok, err, delivery_error, record_too_large}
use epochdeck.Json.{Value, Fields}
use epochdeck.Platform.{Platform}
use epochdeck.Protocol.{encode_json_request}
use epochdeck.Spool.Lines.{newline, max_journal_record_bytes}
use epochdeck.Spool.Entry.{Entry, IsEntry, content, content-append, offset_of}
use epochdeck.Spool.Lane.{Lane, append_record, read_ack}
use epochdeck.Spool.Lane.Ack.{stored_ack_mono}
use epochdeck.Spool.Lane.View.{Holds, InFlight}

-- The lane after the bytes of a record have been appended.
abbrev pub with_line : Lane → Bytes → Lane
with_line lane b = record lane { journal = lane.journal ++ (b ++ newline ∷ []) }

module _ (p : Platform) (value : Value) (lane : Lane) where
  pub append_record_ok :
      (b : Bytes)
      → encode_json_request p value ≡ ok b
      → length b ≤ max_journal_record_bytes
      → append_record p value lane ≡ (ok (length (with_line lane b).journal), with_line lane b)
  unfolding append_record
  append_record_ok b encodes fits = rw (encodes, ge→ltb max_journal_record_bytes (length b) fits)

  -- A record over the size limit is refused, and nothing is written.
  pub append_record_too_large :
      (b : Bytes)
      → encode_json_request p value ≡ ok b
      → max_journal_record_bytes < length b
      → append_record p value lane ≡ (err (delivery_error record_too_large), lane)
  unfolding append_record
  append_record_too_large b encodes long =
      rw (encodes, lt→ltb max_journal_record_bytes (length b) long)

module _ (p : Platform) (es : List Entry) (k : ℕ) (e : Entry) (lane : Lane)
    (holds : Holds p es k lane) where
  with_line-content : (with_line lane e.bytes).journal ≡ content (es ++ e ∷ [])
  with_line-content = rw (holds.journal, content-append es (e ∷ []))

  -- The offset of an old entry does not move.
  offset_of-append : (n : ℕ) → n ≤ length es → offset_of (es ++ e ∷ []) n ≡ offset_of es n
  offset_of-append n inside =
      ap (λ (l : List Entry). length (content l)) (take-append_le n es (e ∷ []) inside)

  with_line-read_ack : read_ack (with_line lane e.bytes) ≡ ok (offset_of es k)
  with_line-read_ack =
      unfold read_ack in
      stored_ack_mono (length lane.journal) (length (with_line lane e.bytes).journal)
        (offset_of es k) lane.ack
        (omega (arith, length-append {0} lane.journal (e.bytes ++ newline ∷ []))) holds.acked

  pub with_line-Holds : IsEntry p e → Holds p (es ++ e ∷ []) k (with_line lane e.bytes)
  with_line-Holds valid = record {
    valid = All-append (IsEntry p) es (e ∷ []) holds.valid (valid, tt);
    journal = with_line-content;
    acked = with_line-read_ack ∙ ap ok (sym (offset_of-append k holds.bounded));
    bounded = omega (arith, holds.bounded, length-append {0} es (e ∷ []));
  }

  pub with_line-InFlight :
      (budget : Option ℕ) (m : ℕ) (fs : Fields)
      → InFlight p budget es k m fs lane
      → InFlight p budget (es ++ e ∷ []) k m fs (with_line lane e.bytes)
  with_line-InFlight budget m fs flight =
      let batch : take m (drop k (es ++ e ∷ [])) ≡ take m (drop k es) =
        ap (take m) (drop-append_le k es (e ∷ []) holds.bounded)
        ∙ take-append_le m (drop k es) (e ∷ [])
            (omega (arith, flight.room, length-drop {0} k es)) in
      let start : offset_of (es ++ e ∷ []) k ≡ offset_of es k = offset_of-append k holds.bounded in
      let stop : offset_of (es ++ e ∷ []) (k + m) ≡ offset_of es (k + m) =
        offset_of-append (k + m) flight.room in
      record {
        file = flight.file;
        encoded = flight.encoded;
        stored = flight.stored;
        reads = flight.reads;
        offsets = rw (start, stop) flight.offsets;
        fixed = rw stop flight.fixed;
        request = rw batch flight.request;
        same = rw batch flight.same;
        room = omega (arith, flight.room, length-append {0} es (e ∷ []));
      }

  -- Appending the encoding of a valid entry to a lane succeeds, returns the offset behind the new
  -- entry, and adds that entry to what the lane holds.
  pub append_record-Holds :
      (value : Value)
      → IsEntry p e
      → encode_json_request p value ≡ ok e.bytes
      → (append_record p value lane
          ≡ (ok (offset_of (es ++ e ∷ []) (length es + 1)), with_line lane e.bytes))
        × Holds p (es ++ e ∷ []) k (with_line lane e.bytes)
  append_record-Holds value valid encodes =
      let end : length (with_line lane e.bytes).journal ≡ offset_of (es ++ e ∷ []) (length es + 1) =
        ap length with_line-content
        ∙ ap (λ (l : List Entry). length (content l))
            (sym (
              take_all (length es + 1) (es ++ e ∷ [])
                (omega (arith, length-append {0} es (e ∷ []))))) in
      (append_record_ok p value lane e.bytes encodes valid.fits ∙ rw end, with_line-Holds valid)
