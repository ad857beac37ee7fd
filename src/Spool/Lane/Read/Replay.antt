-- ===== src/Spool/Lane/Read/Replay.antt =====
-- A delivery that was begun is read again exactly as it was begun.
use epochdeck.Prelude.{
  ℕ, zero, suc, ◌+◌, ◌≤◌, ◌<◌, ◌≡◌, sym, ap, ◌∙◌, Option, some, List, [], ◌∷◌, arith, length, take,
  drop, All-take, All-drop, ==_refl, length-drop, length-take, take-append-drop,
}
use epochdeck.Text.{Bytes}
use epochdeck.Error.{ok}
use epochdeck.Json.{Fields}
use epochdeck.Platform.{Platform, FloatsPrintable}
use epochdeck.Spool.Entry.{
  Entry, IsEntry, content, offset_of, drop-offset_of, offset_of-le, offset_of-add,
  length-content_cons, length-le-content,
}
use epochdeck.Spool.Lane.{Lane}
use epochdeck.Spool.Lane.View.{Holds, InFlight, Matches}
use epochdeck.Spool.Lane.Batch.{Reading}
use epochdeck.Spool.Lane.Batch.Loops.{
  after_entries, fields_of, points-after_entries, position-after_entries, batch_loop-fixed,
}
use epochdeck.Spool.Lane.Begin.{begin_delivery}
use epochdeck.Spool.Lane.Read.{read_points, read_record_batch, finish_batch}
use epochdeck.Spool.Lane.Read.Steps.{read_record_batch_steps, read_delivery_stored}

module _ (p : Platform) (offset next_offset : ℕ) (fs : Fields) (encoded : Option Bytes) where
  finish_batch-Matches :
      (points : List Fields) (lane : Lane)
      → Matches p points encoded fs
      → finish_batch p offset (some fs) encoded points next_offset lane
        ≡ (ok (points, next_offset), lane)
  unfolding finish_batch begin_delivery
  finish_batch-Matches [] lane h = absurd h
  finish_batch-Matches (first ∷ points) lane h = rw h

-- A batch that matches a delivery is not empty.
Matches-content :
    (p : Platform) (encoded : Option Bytes) (fs : Fields) (xs : List Entry)
    → Matches p (fields_of xs) encoded fs
    → suc zero ≤ length (content xs)
Matches-content p encoded fs [] h = absurd h
Matches-content p encoded fs (x ∷ xs) h = omega (arith, length-content_cons x xs)

-- A batch in flight ends behind the acknowledged offset.
pub InFlight-begins :
    (p : Platform) (budget : Option ℕ) (es : List Entry) (k m : ℕ) (fs : Fields) (lane : Lane)
    → InFlight p budget es k m fs lane
    → suc (offset_of es k) ≤ offset_of es (k + m)
InFlight-begins p budget es k m fs lane flight = omega (
  arith,
  offset_of-add es k m,
  Matches-content p flight.encoded fs (take m (drop k es)) flight.same,
)

module _ (p : Platform) (floats : FloatsPrintable p) (limit : ℕ) (budget : Option ℕ)
    (es : List Entry) (k : ℕ) (lane : Lane) (holds : Holds p es k lane) where
  -- The variables of the loop before the first round.
  abbrev pub unread : Reading
  unread = record {
    points = [];
    encoded_point_bytes = 0;
    position = offset_of es k;
    rest = drop (offset_of es k) lane.journal;
  }

  pub unread-rest : unread.rest ≡ content (drop k es)
  unread-rest = ap (drop (offset_of es k)) holds.journal ∙ drop-offset_of es k

  pub enough_rounds : length (drop k es) < suc (length lane.journal)
  enough_rounds = omega (arith, ap length holds.journal, length-drop {0} k es, length-le-content es)

  read_points-fixed :
      (m : ℕ)
      → read_points p limit budget (offset_of es k) (some (offset_of es (k + m))) lane
        ≡ ok (after_entries unread (take m (drop k es)) (drop m (drop k es)))
  unfolding read_points
  read_points-fixed m =
      batch_loop-fixed p floats limit budget (offset_of es (k + m)) (take m (drop k es))
        (drop m (drop k es)) unread (suc (length lane.journal))
        (All-take (IsEntry p) m (drop k es) (All-drop (IsEntry p) k es holds.valid))
        (unread-rest ∙ ap content (sym (take-append-drop m (drop k es)))) (offset_of-add es k m)
        (omega (arith, enough_rounds, length-take {0} m (drop k es)))

  -- Reading again gives the batch that was begun, whatever the limit and whatever was appended
  -- since, and changes nothing on disk.
  pub read_record_batch_replay :
      (m : ℕ) (fs : Fields)
      → InFlight p budget es k m fs lane
      → read_record_batch p limit budget lane
        ≡ (ok (fields_of (take m (drop k es)), offset_of es (k + m)), lane)
  read_record_batch_replay m fs flight =
      let xs : List Entry = take m (drop k es) in
      let s : Reading = after_entries unread xs (drop m (drop k es)) in
      let points : s.points ≡ fields_of xs = points-after_entries unread xs (drop m (drop k es)) in
      let position : s.position ≡ offset_of es (k + m) =
        position-after_entries unread xs (drop m (drop k es)) ∙ offset_of-add es k m in
      let begins : suc (offset_of es k) ≤ offset_of es (k + m) =
        InFlight-begins p budget es k m fs lane flight in
      let ends : offset_of es (k + m) ≤ length lane.journal =
        omega (arith, offset_of-le es (k + m), ap length holds.journal) in
      read_record_batch_steps p limit budget lane (offset_of es k) (some fs) lane s flight.encoded
        holds.acked
        (read_delivery_stored p lane (offset_of es k) (length lane.journal) flight.file fs
          (offset_of es (k + m)) flight.stored flight.reads flight.offsets begins ends)
        (rw flight.fixed (read_points-fixed m)) (rw (flight.fixed, position, ==_refl))
        (rw points flight.request)
      ∙ rw (points, position)
          (finish_batch-Matches p (offset_of es k) (offset_of es (k + m)) fs flight.encoded
            (fields_of xs) lane flight.same)
