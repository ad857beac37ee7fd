-- ===== src/Spool/Lane/Read/Next.antt =====
-- What the readers take next from an idle lane: one record, or the longest metric batch.
use epochdeck.Prelude.{
  ℕ, suc, ◌+◌, ◌≤◌, ◌≡◌, refl, ap, ◌∙◌, none, some, List, [], ◌∷◌, arith, length, take, drop,
  All-drop,
}
use epochdeck.Text.{Bytes}
use epochdeck.Error.{ok}
use epochdeck.Json.{Fields}
use epochdeck.Platform.{Platform, FloatsPrintable}
use epochdeck.Spool.Entry.{Entry, IsEntry, offset_of, offset_of-add}
use epochdeck.Spool.Lane.{Lane}
use epochdeck.Spool.Lane.View.{Holds, InFlight}
use epochdeck.Spool.Lane.Batch.{Reading}
use epochdeck.Spool.Lane.Batch.Loops.{
  after_entries, fields_of, points-after_entries, position-after_entries, batch_loop-limit,
}
use epochdeck.Spool.Lane.Batch.Longest.{request_size, Taken, batch_loop-budget}
use epochdeck.Spool.Lane.Begin.{request_of}
use epochdeck.Spool.Lane.Read.{read_points, read_one}
use epochdeck.Spool.Lane.Read.Replay.{unread, unread-rest, enough_rounds}
use epochdeck.Spool.Lane.Read.Begins.{with_delivery}
use epochdeck.Spool.Lane.Read.First.{Written, read_record_batch_begins}

module _ (p : Platform) (floats : FloatsPrintable p) (es : List Entry) (k : ℕ) (lane : Lane)
    (holds : Holds p es k lane) where
  -- The metric batch that is read next holds the longest run of undelivered entries that stays
  -- within the limit and the byte budget of the request, if the first of them alone fits it.
  pub read_points-longest :
      (limit budget : ℕ)
      → request_size p (take 1 (drop k es)) ≤ budget
      → (m : ℕ) × (s : Reading) × (read_points p limit (some budget) (offset_of es k) none lane
          ≡ ok s)
        × (s.points ≡ fields_of (take m (drop k es)))
        × (s.position ≡ offset_of es (k + m))
        × Taken p budget limit [] (drop k es) m
  read_points-longest limit budget first =
      let start : Reading = unread p floats limit (some budget) es k lane holds in
      let (m, reads, taken) =
        batch_loop-budget p floats limit budget limit [] (drop k es) start
          (suc (length lane.journal)) (record { points = refl; encoded = refl; valid = tt })
          (All-drop (IsEntry p) k es holds.valid)
          (unread-rest p floats limit (some budget) es k lane holds) (omega arith)
          (enough_rounds p floats limit (some budget) es k lane holds) (omega arith) (λ _. first) in
      (
        m,
        after_entries start (take m (drop k es)) (drop m (drop k es)),
        unfold read_points in reads,
        points-after_entries start (take m (drop k es)) (drop m (drop k es)),
        position-after_entries start (take m (drop k es)) (drop m (drop k es))
            ∙ offset_of-add es k m,
        taken,
      )

  read_points_one :
      read_points p 1 none (offset_of es k) none lane
      ≡ ok (
          after_entries
            (unread p floats 1 none es k lane holds)
            (take 1 (drop k es))
            (drop 1 (drop k es)))
  unfolding read_points
  read_points_one =
      batch_loop-limit p floats 1 1 (drop k es) (unread p floats 1 none es k lane holds)
        (suc (length lane.journal)) (All-drop (IsEntry p) k es holds.valid)
        (unread-rest p floats 1 none es k lane holds) (omega arith)
        (enough_rounds p floats 1 none es k lane holds)

  -- From an idle lane the readers of alerts, rich values and artifacts return the first entry that is
  -- not acknowledged, with the offset behind it, and fix it on disk as the delivery in flight, when
  -- its delivery state can be written and is decoded as the same dict.
  pub read_one_begins :
      (e : Entry) (file : Bytes) (fs : Fields)
      → lane.delivery ≡ none
      → take 1 (drop k es) ≡ e ∷ []
      → Written p (offset_of es k) (offset_of es (k + 1)) e.fields none file fs
      → k + 1 ≤ length es
      → (read_one p lane ≡ (ok (some e.fields, offset_of es (k + 1)), with_delivery lane file))
        × Holds p es k (with_delivery lane file)
        × InFlight p none es k 1 fs (with_delivery lane file)
  unfolding read_one
  read_one_begins e file fs idle next w room =
      let (reads, kept, flight) =
        read_record_batch_begins p floats 1 none es k lane holds idle 1 e.fields [] none file fs
          read_points_one (ap fields_of next) (unfold request_of in refl) w room in
      (rw reads, kept, flight)
