-- ===== src/Spool/Summary/Tail.antt =====
-- The summary of a restarted run is the one that the run had.
use epochdeck.Prelude.{
  ℕ, zero, suc, ◌+◌, ◌-◌, ◌≤◌, ◌<◌, ◌≡◌, ◌∙◌, refl, ap, Bool, some, List, [], ◌∷◌, ◌++◌, arith,
  length, take, drop, false, ◌&&◌, not, ◌==◌, ge→ltb, All, All-drop, length-drop,
}
use epochdeck.Prelude.Int.{pos}
use epochdeck.Text.{Bytes, codes}
use epochdeck.Error.{ok}
use epochdeck.Json.{bool, int, obj, Fields, get}
use epochdeck.Platform.{Platform, FloatsPrintable}
use epochdeck.Spool.Lines.{newline, read_journal_line}
use epochdeck.Spool.Lines.Framing.{framed, read_journal_line_end}
use epochdeck.Spool.Entry.{
  Entry, IsEntry, content, offset_of, read_journal_line-entry, drop-offset_of, offset_of-le,
  length-le-content, length-content_cons,
}
use epochdeck.Spool.Lane.Batch.Rounds.{decode_record-entry}
use epochdeck.Metrics.{
  Floats, normalize_metrics, merge_metric_preview, preview_points, max_derived_summary_keys,
}
use epochdeck.Metrics.Preview.{everything, window, preview_points-window}
use epochdeck.Spool.Summary.{
  recover_event, recover_events, recover_summary, splits_record, validate_recovered_metrics,
  validate_metric_summary_snapshot,
}

module _ (rest : Bytes) where
  splits_record-newline : (m : ℕ) → splits_record (newline ∷ rest) (suc m) ≡ splits_record rest m
  unfolding splits_record
  splits_record-newline zero = refl
  splits_record-newline (suc m) = refl

  splits_record-append :
      (line : Bytes) (m i : ℕ)
      → i ≡ suc (length line + m)
      → splits_record (line ++ newline ∷ rest) i ≡ splits_record rest m
  unfolding splits_record
  splits_record-append line m zero h = ground arith
  splits_record-append [] m (suc q) h =
      let same : q ≡ m = omega arith in
      ap (λ n. splits_record (newline ∷ rest) (suc n)) same ∙ splits_record-newline m
  splits_record-append (b ∷ line) m (suc zero) h = absurd (omega arith)
  splits_record-append (b ∷ line) m (suc (suc q)) h =
      splits_record-append line m (suc q) (omega arith)

-- The offset of an entry splits no record.
splits_record-offset_of :
    (es : List Entry) (k : ℕ) → splits_record (content es) (offset_of es k) ≡ false
unfolding splits_record
splits_record-offset_of es zero = refl
splits_record-offset_of [] (suc k) = refl
splits_record-offset_of (e ∷ es) (suc k) =
    splits_record-append (content es) e.bytes (offset_of es k) (offset_of (e ∷ es) (suc k))
      (length-content_cons e (take k es))
    ∙ splits_record-offset_of es k

-- The events hold these metric points.
abbrev pub Logged : Platform → List Entry → List Floats → Type 0
Logged p [] [] = Unit
Logged p [] (m ∷ ms) = ⊥
Logged p (e ∷ es) [] = ⊥
Logged p (e ∷ es) (m ∷ ms) =
    ((fs : Fields) × (get (codes "metrics") e.fields ≡ some (obj fs))
      × (normalize_metrics p fs ≡ ok m))
    × Logged p es ms

module _ (p : Platform) (max_tail_records : ℕ) where
  recover_events_step :
      (rounds count : ℕ) (s s' : Floats × Bool) (stream bs rest : Bytes)
      → read_journal_line stream ≡ ok (framed bs, rest)
      → count + 1 ≤ max_tail_records
      → recover_event p max_tail_records s.0 s.1 (framed bs) ≡ ok s'
      → recover_events p max_tail_records (suc rounds) count s stream
        ≡ recover_events p max_tail_records rounds (count + 1) s' rest
  unfolding recover_events
  recover_events_step rounds count s s' stream [] rest line room event =
      rw (line, recover_events, ge→ltb max_tail_records (count + 1) room, event)
  recover_events_step rounds count s s' stream (b ∷ bs) rest line room event =
      rw (line, recover_events, ge→ltb max_tail_records (count + 1) room, event)

  recover_event-entry :
      (summary m : Floats) (truncated : Bool) (e : Entry) (fs : Fields)
      → IsEntry p e
      → get (codes "metrics") e.fields ≡ some (obj fs)
      → normalize_metrics p fs ≡ ok m
      → recover_event p max_tail_records summary truncated (framed e.bytes)
        ≡ ok (merge_metric_preview summary m truncated)
  unfolding recover_event validate_recovered_metrics
  recover_event-entry summary m truncated e fs valid metrics number =
      rw (decode_record-entry p e valid, recover_event, metrics, number)

  module _ (floats : FloatsPrintable p) where
    recover_events-content :
        (es : List Entry) (ms : List Floats) (rounds count : ℕ) (summary : Floats)
        (truncated : Bool)
        → All (IsEntry p) es
        → Logged p es ms
        → length es < rounds
        → count + length es ≤ max_tail_records
        → recover_events p max_tail_records rounds count (summary, truncated) (content es)
          ≡ ok (preview_points summary truncated ms)
    unfolding recover_events preview_points
    recover_events-content [] [] (suc rounds) count summary truncated valid logged enough room =
        rw (read_journal_line_end, recover_events)
    recover_events-content [] (m ∷ ms) rounds count summary truncated valid logged enough room =
        absurd logged
    recover_events-content (e ∷ es) [] rounds count summary truncated valid logged enough room =
        absurd logged
    recover_events-content es ms zero count summary truncated valid logged enough room =
        ground arith
    recover_events-content (e ∷ es) (m ∷ ms) (suc rounds) count summary truncated valid
          ((fs, metrics, number), logged) enough room =
        let s' : Floats × Bool = merge_metric_preview summary m truncated in
        recover_events_step rounds count (summary, truncated) s' (content (e ∷ es)) e.bytes
          (content es) (read_journal_line-entry p floats e valid.0 es) (omega arith)
          (recover_event-entry summary m truncated e fs valid.0 metrics number)
        ∙ recover_events-content es ms rounds (count + 1) s'.0 s'.1 valid.1 logged (omega arith)
            (omega arith)

module _ (p : Platform) (floats : FloatsPrintable p) (es : List Entry) (k : ℕ)
    (valid : All (IsEntry p) es) (ms : List Floats) (logged : Logged p (drop k es) ms)
    (snapshot : Fields) (f : Floats) (truncated : Bool)
    (reads : validate_metric_summary_snapshot p snapshot ≡ ok (window f))
    (complete : (truncated && not (length (window f) == max_derived_summary_keys)) ≡ false)
    (max_tail_records max_tail_bytes : ℕ) (some_records : 1 ≤ max_tail_records)
    (some_bytes : 1 ≤ max_tail_bytes) (few : length (drop k es) ≤ max_tail_records)
    (small : length (content es) - offset_of es k ≤ max_tail_bytes) where
  recover_summary-tail :
      recover_summary p snapshot
        (bool truncated)
        (int (pos (offset_of es k)))
        max_tail_records
        max_tail_bytes
        (content es)
      ≡ ok (preview_points (window f) truncated ms, length (content es))
  unfolding recover_summary
  recover_summary-tail = rw (
    recover_summary,
    ge→ltb (length (content es)) (offset_of es k) (offset_of-le es k),
    ge→ltb max_tail_records 1 some_records,
    ge→ltb max_tail_bytes 1 some_bytes,
    ge→ltb max_tail_bytes (length (content es) - offset_of es k) small,
    reads,
    complete,
    splits_record-offset_of es k,
    drop-offset_of es k,
    recover_events-content p max_tail_records floats (drop k es) ms (suc (length (content es))) 0
        (window f) truncated (All-drop (IsEntry p) k es valid) logged
        (omega (arith, length-le-content es, length-drop {0} k es)) (omega (arith, few)),
  )

  -- With whole events in the journal, a checkpoint behind the first of them whose snapshot is the
  -- preview of a dict, and a tail within the bounds, recover_summary returns the size of the journal and
  -- the preview that the run would have kept: that of the dict with the tail's metrics in it.
  pub recover_summary-window :
      (recover_summary p snapshot
          (bool truncated)
          (int (pos (offset_of es k)))
          max_tail_records
          max_tail_bytes
          (content es)
        ≡ ok (preview_points (window f) truncated ms, length (content es)))
      × ((preview_points (window f) truncated ms).0 ≡ window (everything f ms))
  recover_summary-window = (recover_summary-tail, preview_points-window ms f truncated)
