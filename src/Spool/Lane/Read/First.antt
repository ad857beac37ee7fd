-- ===== src/Spool/Lane/Read/First.antt =====
-- The first reading of a batch: the delivery state on disk describes what is returned.
use epochdeck.Prelude.{
  ℕ, ◌+◌, ◌≤◌, ◌≡◌, refl, ◌∙◌, false, Option, none, some, List, ◌∷◌, arith, length, take, drop, ltb,
}
use epochdeck.Text.{Bytes}
use epochdeck.Error.{ok}
use epochdeck.Json.{Value, obj, Fields}
use epochdeck.Platform.{Platform, FloatsPrintable}
use epochdeck.Spool.Entry.{Entry, offset_of, offset_of-add}
use epochdeck.Spool.Lane.{Lane, read_ack, read_json_object, json_file, max_delivery_bytes}
use epochdeck.Spool.Lane.View.{Holds, InFlight}
use epochdeck.Spool.Lane.Batch.{Reading}
use epochdeck.Spool.Lane.Batch.Loops.{
  after_entries, fields_of, points-after_entries, position-after_entries,
}
use epochdeck.Spool.Lane.Begin.{
  record_identity, new_delivery, is_null, begin_delivery, request_of, fixed_end_of,
}
use epochdeck.Spool.Lane.Read.{read_points, read_record_batch, finish_batch}
use epochdeck.Spool.Lane.Read.Steps.{read_record_batch_steps, read_delivery-none}
use epochdeck.Spool.Lane.Read.Replay.{unread}
use epochdeck.Spool.Lane.Read.Begins.{
  SameFields, with_delivery, new_delivery-offsets, new_delivery-fixed_end_of,
  new_delivery-check_delivery,
}

module _ (p : Platform) (value : Value) (maximum : ℕ) (file : Bytes) where
  json_file_bounded : json_file p value maximum ≡ ok file → ltb maximum (length file) ≡ false
  unfolding json_file
  json_file_bounded h = ground arith

module _ (p : Platform) (start stop : ℕ) (first : Fields) (encoded : Option Bytes) where
  -- What is written for a batch, and what the decoder makes of it.
  pub record Written (file : Bytes) (fs : Fields) : Type 0 where
    pub identified : is_null (record_identity first) ≡ false
    pub written :
        json_file p
          (obj (new_delivery p start stop (record_identity first) encoded))
          max_delivery_bytes
        ≡ ok file
    pub decodes : p.json_loads file ≡ some (obj fs)
    pub same : SameFields fs (new_delivery p start stop (record_identity first) encoded)

  Written-read_json_object :
      (file : Bytes) (fs : Fields)
      → Written file fs
      → read_json_object p max_delivery_bytes file ≡ ok fs
  unfolding read_json_object
  Written-read_json_object file fs w =
      rw (json_file_bounded p _ max_delivery_bytes file w.written, w.decodes, read_json_object)

  Written-finish_batch :
      (file : Bytes) (fs : Fields) (points : List Fields) (lane : Lane)
      → Written file fs
      → finish_batch p start none encoded (first ∷ points) stop lane
        ≡ (ok (first ∷ points, stop), with_delivery lane file)
  unfolding finish_batch begin_delivery
  Written-finish_batch file fs points lane w = rw (
    w.identified,
    w.written,
    new_delivery-check_delivery p start stop first
        (new_delivery p start stop (record_identity first) encoded) encoded (λ name. refl),
  )

module _ (p : Platform) (floats : FloatsPrintable p) (limit : ℕ) (budget : Option ℕ)
    (es : List Entry) (k : ℕ) (lane : Lane) (holds : Holds p es k lane)
    (idle : lane.delivery ≡ none) where
  -- When the loop stops after `m` entries, those are returned, and fixed on disk.
  pub read_record_batch_begins :
      (m : ℕ) (first : Fields) (points : List Fields) (encoded : Option Bytes) (file : Bytes)
      (fs : Fields)
      → read_points p limit budget (offset_of es k) none lane
        ≡ ok (
            after_entries
              (unread p floats limit budget es k lane holds)
              (take m (drop k es))
              (drop m (drop k es)))
      → fields_of (take m (drop k es)) ≡ first ∷ points
      → request_of p budget (first ∷ points) ≡ ok encoded
      → Written p (offset_of es k) (offset_of es (k + m)) first encoded file fs
      → k + m ≤ length es
      → (read_record_batch p limit budget lane
          ≡ (ok (first ∷ points, offset_of es (k + m)), with_delivery lane file))
        × Holds p es k (with_delivery lane file)
        × InFlight p budget es k m fs (with_delivery lane file)
  unfolding fixed_end_of read_ack
  read_record_batch_begins m first points encoded file fs loop batch request w room =
      let xs : List Entry = take m (drop k es) in
      let start : Reading = unread p floats limit budget es k lane holds in
      let s : Reading = after_entries start xs (drop m (drop k es)) in
      let s_points : s.points ≡ first ∷ points =
        points-after_entries start xs (drop m (drop k es)) ∙ batch in
      let position : s.position ≡ offset_of es (k + m) =
        position-after_entries start xs (drop m (drop k es)) ∙ offset_of-add es k m in
      (
        read_record_batch_steps p limit budget lane (offset_of es k) none lane s encoded holds.acked
              (read_delivery-none p lane (offset_of es k) (length lane.journal) idle) loop refl
              (rw s_points request)
            ∙ rw (s_points, position)
                (Written-finish_batch p (offset_of es k) (offset_of es (k + m)) first encoded file
                  fs points lane w),
        record {
          valid = holds.valid;
          journal = holds.journal;
          acked = holds.acked;
          bounded = holds.bounded;
        },
        record {
          file = file;
          encoded = encoded;
          stored = refl;
          reads =
              Written-read_json_object p (offset_of es k) (offset_of es (k + m)) first encoded file
                fs w;
          offsets =
              new_delivery-offsets p (offset_of es k) (offset_of es (k + m)) first fs encoded
                w.same;
          fixed =
              new_delivery-fixed_end_of p (offset_of es k) (offset_of es (k + m)) first fs encoded
                w.same;
          request = rw batch request;
          same = rw batch (
              new_delivery-check_delivery p (offset_of es k) (offset_of es (k + m)) first fs encoded
                w.same);
          room = room;
        },
      )
