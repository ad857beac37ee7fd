-- ===== src/Run/State/Tail.antt =====
-- A run can always be recovered: the events behind the checkpoint stay within the bounds that
-- `recover_summary` is given.
use epochdeck.Prelude.{
  ℕ, suc, sym, subst, append_assoc, append-nil, ◌+◌, ◌-◌, ◌≤◌, ◌<◌, ◌≡◌, ◌∙◌, ◌⊎◌, inl, inr, refl,
  ap, Bool, true, false, Bool-cases, Option, none, some, [], ◌∷◌, ◌++◌, arith, length,
  length-append, ltb,
}
use epochdeck.Text.{Bytes, codes, text_eq}
use epochdeck.Error
use epochdeck.Error.{
  Error, Result, ok, err, delivery_error, record_too_large, not_a_regular_file, or_raise,
}
use epochdeck.Exec.{continue, modify}
use epochdeck.Json.{Value, Fields, no_fields, field, bool, obj, get, insert, update, get-insert}
use epochdeck.Platform.{Platform}
use epochdeck.Protocol.{encode_json_request}
use epochdeck.Spool.Lines.{newline, max_journal_record_bytes}
use epochdeck.Spool.Lane.{Lane, append_record, json_file, read_json_object}
use epochdeck.Spool.Lane.Append.{with_line, append_record_ok, append_record_too_large}
use epochdeck.Spool.Lane.Recovery.{max_run_metadata_bytes}
use epochdeck.Spool.Store.{Spool, append, update_metadata, write_metadata}
use epochdeck.Run.Documents.{floats_value}
use epochdeck.Run.State.{
  Run, natural, summary_checkpoint_due, checkpoint_summary, checkpoint_when_due, append_point,
  summary_checkpoint_record_interval, summary_checkpoint_byte_interval,
  summary_recovery_max_tail_bytes, checkpointed, appended, checkpoint_if, checkpoint_updates,
  checkpoint_at, append_at,
}
use epochdeck.Run.State.Outcome.{Outcome}

-- The lines of these events, one after the other.
pub data Events (p : Platform) : Bytes → ℕ → Type 0 where
  no_events : Events p [] 0
  one_more :
      {lines line : Bytes} {n : ℕ} (value : Value)
      → Events p lines n
      → encode_json_request p value ≡ ok line
      → Events p (lines ++ (line ++ newline ∷ [])) (suc n)

-- The file run.json has this offset as its "summary_event_offset".
pub record Stored (p : Platform) (metadata : Option Bytes) (offset : ℕ) : Type 0 where
  pub fields : Fields
  pub file : Bytes
  pub kept : metadata ≡ some file
  pub encodes : json_file p (obj fields) max_run_metadata_bytes ≡ ok file
  pub has_offset : get (codes "summary_event_offset") fields ≡ some (natural offset)

-- The event journal is `latest` bytes long, and behind the first `event` bytes it has `records` events;
-- until the run is finished, run.json has the offset `event`.
pub record Journal (p : Platform) (s : Spool) (latest event records : ℕ) (finished : Bool)
    : Type 0 where
  pub size : length s.events.journal ≡ latest
  pub before : Bytes
  pub tail : Bytes
  pub split : s.events.journal ≡ before ++ tail
  pub offset : length before ≡ event
  pub events : Events p tail records
  pub stored : finished ≡ false → Stored p s.metadata event

-- There is a spool, with such a journal.
abbrev pub JournalAt : Platform → Option Spool → ℕ → ℕ → ℕ → Bool → Type 0
JournalAt p none latest event records finished = ⊥
JournalAt p (some s) latest event records finished = Journal p s latest event records finished

abbrev JournalOf : Platform → Run → Option Spool → Type 0
JournalOf p run o =
    JournalAt p o run.latest_event_offset run.summary_event_offset run.summary_tail_records
      run.finished

pub record Recoverable (p : Platform) (run : Run) : Type 0 where
  pub journal :
      JournalAt p run.spool run.latest_event_offset run.summary_event_offset
        run.summary_tail_records run.finished
  pub ordered : run.summary_event_offset ≤ run.latest_event_offset
  pub records : run.summary_tail_records ≤ summary_checkpoint_record_interval
  pub bytes : run.latest_event_offset - run.summary_event_offset ≤ summary_recovery_max_tail_bytes

-- No checkpoint is due.
pub record HasRoom (p : Platform) (run : Run) : Type 0 where
  pub journal :
      JournalAt p run.spool run.latest_event_offset run.summary_event_offset
        run.summary_tail_records run.finished
  pub ordered : run.summary_event_offset ≤ run.latest_event_offset
  pub records : run.summary_tail_records < summary_checkpoint_record_interval
  pub bytes : run.latest_event_offset - run.summary_event_offset < summary_checkpoint_byte_interval

pub HasRoom-Recoverable : (p : Platform) (run : Run) → HasRoom p run → Recoverable p run
HasRoom-Recoverable p run h = record {
  journal = h.journal;
  ordered = h.ordered;
  records = omega (arith, h.records);
  bytes = omega (arith, h.bytes);
}

-- What was kept of the spool keeps the journal.
pub same_Journal :
    (p : Platform) (s t : Spool) (latest event records : ℕ) (finished : Bool)
    → t.events ≡ s.events
    → t.metadata ≡ s.metadata
    → Journal p s latest event records finished
    → Journal p t latest event records finished
same_Journal p s t latest event records finished events metadata h = record {
  size = ap (λ lane. length lane.journal) events ∙ h.size;
  before = h.before;
  tail = h.tail;
  split = ap (λ lane. lane.journal) events ∙ h.split;
  offset = h.offset;
  events = h.events;
  stored = λ open_. subst (λ m. Stored p m event) (sym metadata) (h.stored open_);
}

module _ (p : Platform) where
  append_record_cases_at :
      (value : Value) (lane : Lane) (r : Result Bytes)
      → encode_json_request p value ≡ r
      → ((b : Bytes) × (encode_json_request p value ≡ ok b)
          × (length b ≤ max_journal_record_bytes)
          × (append_record p value lane
              ≡ (ok (length (with_line lane b).journal), with_line lane b)))
        ⊎ ((e : Error) × (append_record p value lane ≡ (err e, lane)))
  unfolding append_record
  append_record_cases_at value lane (err e) h = inr (e, rw h refl)
  append_record_cases_at value lane (ok b) h =
      elim (Bool-cases (ltb max_journal_record_bytes (length b))) [
        | inl long ↦ inr (
          delivery_error record_too_large,
          append_record_too_large p value lane b h (ground arith),
        )
        | inr short ↦ inl (b, h, ground arith, append_record_ok p value lane b h (ground arith))
      ]

  -- An append adds one line, or changes nothing.
  append_record_cases :
      (value : Value) (lane : Lane)
      → ((b : Bytes) × (encode_json_request p value ≡ ok b)
          × (length b ≤ max_journal_record_bytes)
          × (append_record p value lane
              ≡ (ok (length (with_line lane b).journal), with_line lane b)))
        ⊎ ((e : Error) × (append_record p value lane ≡ (err e, lane)))
  append_record_cases value lane =
      append_record_cases_at value lane (encode_json_request p value) refl

  -- An update of the metadata writes the file, or leaves the spool as it was; it never touches a journal.
  abbrev pub Updated : Fields → Spool → Result (Unit {0}) × Spool → Type 0
  Updated updates s (ok u, t) =
      (t.events ≡ s.events)
      × ((metadata : Fields) × (file : Bytes) × (t.metadata ≡ some file)
          × (json_file p (obj (update metadata updates)) max_run_metadata_bytes ≡ ok file))
  Updated updates s (err e, t) = (t.events ≡ s.events) × (t.metadata ≡ s.metadata)

  file_written-Updated :
      (r : Result Bytes) (metadata updates : Fields) (s : Spool)
      → json_file p (obj (update metadata updates)) max_run_metadata_bytes ≡ r
      → Updated updates s
          (continue (λ file. modify (λ s. record s { metadata = some file })) (r, s))
  file_written-Updated (ok file) metadata updates s h = (refl, (metadata, file, refl, h))
  file_written-Updated (err e) metadata updates s h = (refl, refl)

  read_then_write-Updated :
      (r : Result Fields) (updates : Fields) (s : Spool)
      → Updated updates s (continue (λ metadata. write_metadata p (update metadata updates)) (r, s))
  unfolding write_metadata
  read_then_write-Updated (ok metadata) updates s =
      file_written-Updated (json_file p (obj (update metadata updates)) max_run_metadata_bytes)
        metadata updates s refl
  read_then_write-Updated (err e) updates s = (refl, refl)

  pub update_metadata-Updated :
      (updates : Fields) (s : Spool) → Updated updates s (update_metadata p updates s)
  unfolding update_metadata write_metadata
  update_metadata-Updated updates s =
      read_then_write-Updated
        (Error.◌>>=◌ (or_raise s.metadata (delivery_error not_a_regular_file))
          λ b. read_json_object p max_run_metadata_bytes b)
        updates s

  -- The checkpoint's fields, with these updates, have the offset of the last event.
  abbrev pub Marks : Run → Fields → Type 0
  Marks run updates =
      (metadata : Fields)
      → get (codes "summary_event_offset") (update metadata (checkpoint_updates p run updates))
        ≡ some (natural run.latest_event_offset)

  checkpointed-HasRoom :
      (run : Run) (updates : Fields) (s : Spool) (r : Result (Unit {0}) × Spool)
      → Marks run updates
      → Recoverable p run
      → JournalOf p run (some s)
      → Updated (checkpoint_updates p run updates) s r
      → Outcome (Recoverable p) (λ u. HasRoom p) (checkpointed p r run)
  checkpointed-HasRoom run updates s (ok u, t) marks h at
        (events, (metadata, file, written, encodes)) =
      record {
        journal = record {
          size = ap (λ lane. length lane.journal) events ∙ at.size;
          before = t.events.journal;
          tail = [];
          split = sym (append-nil t.events.journal);
          offset = ap (λ lane. length lane.journal) events ∙ at.size;
          events = no_events;
          stored = λ _. record {
            fields = update metadata (checkpoint_updates p run updates);
            file = file;
            kept = written;
            encodes = encodes;
            has_offset = marks metadata;
          };
        };
        ordered = omega arith;
        records = omega arith;
        bytes = omega arith;
      }
  checkpointed-HasRoom run updates s (err e, t) marks h at (events, metadata) = record {
    journal =
        same_Journal p s t run.latest_event_offset run.summary_event_offset run.summary_tail_records
          run.finished events metadata at;
    ordered = h.ordered;
    records = h.records;
    bytes = h.bytes;
  }

  checkpoint_at-HasRoom :
      (updates : Fields) (o : Option Spool) (run : Run)
      → Marks run updates
      → JournalOf p run o
      → Recoverable p run
      → Outcome (Recoverable p) (λ u. HasRoom p) (checkpoint_at p updates o run)
  checkpoint_at-HasRoom updates none run marks at h = absurd at
  checkpoint_at-HasRoom updates (some s) run marks at h =
      checkpointed-HasRoom run updates s (update_metadata p (checkpoint_updates p run updates) s)
        marks h at (update_metadata-Updated (checkpoint_updates p run updates) s)

  -- A checkpoint starts a new tail; one that fails changes nothing in the journal.
  pub checkpoint_summary-HasRoom :
      (updates : Fields) (run : Run)
      → Marks run updates
      → Recoverable p run
      → Outcome (Recoverable p) (λ u. HasRoom p) (checkpoint_summary p updates run)
  unfolding checkpoint_summary
  checkpoint_summary-HasRoom updates run marks h =
      checkpoint_at-HasRoom updates run.spool run marks h.journal h

  pub no_updates-Marks : (run : Run) → Marks run no_fields
  unfolding update text_eq
  no_updates-Marks run metadata =
      get-insert (codes "summary_event_offset") (codes "summary_event_offset")
        (natural run.latest_event_offset)
        (insert (codes "summary_truncated") (bool run.summary_truncated) (
          insert (codes "metric_summary") (obj (floats_value run.metric_summary))
            (insert (codes "explicit_summary") (obj run.explicit_summary) metadata)))

  pub finishing-Marks : (run : Run) → Marks run (field (codes "finishing") (bool true) no_fields)
  unfolding update insert text_eq
  finishing-Marks run metadata =
      get-insert (codes "finishing") (codes "summary_event_offset") (bool true) (
        insert (codes "summary_event_offset") (natural run.latest_event_offset) (
          insert (codes "summary_truncated") (bool run.summary_truncated) (
            insert (codes "metric_summary") (obj (floats_value run.metric_summary))
              (insert (codes "explicit_summary") (obj run.explicit_summary) metadata))))
      ∙ get-insert (codes "summary_event_offset") (codes "summary_event_offset")
          (natural run.latest_event_offset)
          (insert (codes "summary_truncated") (bool run.summary_truncated) (
            insert (codes "metric_summary") (obj (floats_value run.metric_summary))
              (insert (codes "explicit_summary") (obj run.explicit_summary) metadata)))

  not_due-HasRoom :
      (run : Run) → Recoverable p run → summary_checkpoint_due run ≡ false → HasRoom p run
  unfolding summary_checkpoint_due
  not_due-HasRoom run h fresh = record {
    journal = h.journal;
    ordered = h.ordered;
    records = ground arith;
    bytes = ground arith;
  }

  checkpoint_if-HasRoom :
      (due : Bool) (run : Run)
      → summary_checkpoint_due run ≡ due
      → Recoverable p run
      → Outcome (Recoverable p) (λ u. HasRoom p) (checkpoint_if p due run)
  checkpoint_if-HasRoom true run e h =
      checkpoint_summary-HasRoom no_fields run (no_updates-Marks run) h
  checkpoint_if-HasRoom false run e h = not_due-HasRoom run h e

  pub checkpoint_when_due-HasRoom :
      (run : Run)
      → Recoverable p run
      → Outcome (Recoverable p) (λ u. HasRoom p) (checkpoint_when_due p run)
  unfolding checkpoint_when_due
  checkpoint_when_due-HasRoom run h = checkpoint_if-HasRoom (summary_checkpoint_due run) run refl h

  Appended : Lane → Result ℕ × Lane → Type 0
  Appended lane (ok n, after) =
      (value : Value) × (b : Bytes) × (encode_json_request p value ≡ ok b)
      × (after.journal ≡ lane.journal ++ (b ++ newline ∷ []))
      × (length after.journal ≡ n)
      × (length lane.journal ≤ n)
      × (n ≤ length lane.journal + (max_journal_record_bytes + 1))
  Appended lane (err e, after) = after ≡ lane

  append_record-Appended :
      (value : Value) (lane : Lane) → Appended lane (append_record p value lane)
  unfolding Appended
  append_record-Appended value lane = elim (append_record_cases value lane) [
    | inl (b, encodes, short, same) ↦ rw same (
      value,
      b,
      encodes,
      refl,
      refl,
      omega (arith, length-append {0} lane.journal (b ++ newline ∷ [])),
      omega (
        arith,
        short,
        length-append {0} lane.journal (b ++ newline ∷ []),
        length-append {0} b (newline ∷ []),
      ),
    )
    | inr (e, same) ↦ rw same refl
  ]

  appended-Recoverable :
      (run : Run) (s : Spool) (r : Result ℕ × Lane)
      → HasRoom p run
      → JournalOf p run (some s)
      → Appended s.events r
      → Outcome
          (Recoverable p)
          (λ u. Recoverable p)
          (appended p (r.0, record s { events = r.1 }) run)
  unfolding Appended
  appended-Recoverable run s (ok n, lane) h at (value, b, encodes, longer, size, grows, bound) =
      record {
        journal = record {
          size = size;
          before = at.before;
          tail = at.tail ++ (b ++ newline ∷ []);
          split =
              longer
              ∙ ap (λ j. j ++ (b ++ newline ∷ [])) at.split
              ∙ append_assoc at.before at.tail (b ++ newline ∷ []);
          offset = at.offset;
          events = one_more value at.events encodes;
          stored = at.stored;
        };
        ordered = omega (arith, h.ordered, at.size, grows);
        records = omega (arith, h.records);
        bytes = omega (arith, h.bytes, h.ordered, at.size, bound);
      }
  appended-Recoverable run s (err e, lane) h at same = record {
    journal =
        same_Journal p s (record s { events = lane }) run.latest_event_offset
          run.summary_event_offset run.summary_tail_records run.finished same refl at;
    ordered = h.ordered;
    records = omega (arith, h.records);
    bytes = omega (arith, h.bytes);
  }

  append_at-Recoverable :
      (point : Fields) (o : Option Spool) (run : Run)
      → JournalOf p run o
      → HasRoom p run
      → Outcome (Recoverable p) (λ u. Recoverable p) (append_at p point o run)
  unfolding append
  append_at-Recoverable point none run at h = absurd at
  append_at-Recoverable point (some s) run at h =
      appended-Recoverable run s (append_record p (obj point) s.events) h at
        (append_record-Appended (obj point) s.events)

  pub append_point-Recoverable :
      (point : Fields) (run : Run)
      → HasRoom p run
      → Outcome (Recoverable p) (λ u. Recoverable p) (append_point p point run)
  unfolding append_point
  append_point-Recoverable point run h = append_at-Recoverable point run.spool run h.journal h
