-- ===== src/Spool/Lane/Batch/Rounds.antt =====
-- One round of the batch loop at an entry of the journal, and at its end.
use epochdeck.Prelude.{
  ℕ, suc, ◌+◌, ◌≤◌, ◌≡◌, refl, ap, true, false, Option, none, some, List, [], ◌∷◌, ◌++◌, arith,
  lt→ltb, ge→ltb, length, ◌∙◌,
}
use epochdeck.Text.{Bytes}
use epochdeck.Error.{ok}
use epochdeck.Json.{Fields}
use epochdeck.Platform.{Platform, FloatsPrintable}
use epochdeck.Spool.Lines.{read_journal_line}
use epochdeck.Spool.Lines.Framing.{framed, length-framed, read_journal_line_end}
use epochdeck.Spool.Entry.{Entry, IsEntry, content, read_journal_line-entry}
use epochdeck.Spool.Lane.{decode_record}
use epochdeck.Spool.Lane.Batch.{
  Reading, again, stop, within_budget, past, read_record, wanted, batch_round,
}

module _ (p : Platform) where
  pub decode_record-entry :
      (e : Entry) → IsEntry p e → decode_record p (framed e.bytes) ≡ ok e.fields
  unfolding decode_record
  decode_record-entry e valid = rw (valid.decodes, decode_record)

  read_record-framed :
      (budget fixed_end : Option ℕ) (s : Reading) (l rest : Bytes) (fs : Fields)
      → decode_record p (framed l) ≡ ok fs
      → past p fixed_end (s.position + suc (length l)) ≡ false
      → read_record p budget fixed_end s (framed l, rest)
        ≡ within_budget p budget fixed_end s fs (length l) rest
  read_record-framed budget fixed_end s [] rest fs decodes inside = rw (inside, decodes)
  read_record-framed budget fixed_end s (b ∷ l) rest fs decodes inside =
      rw (length-framed l, inside, decodes)

-- The variables after an accepted entry.
abbrev pub after_entry : Reading → Entry → Bytes → Reading
after_entry s e rest = record {
  points = s.points ++ e.fields ∷ [];
  encoded_point_bytes = s.encoded_point_bytes + length e.bytes;
  position = s.position + (length e.bytes + 1);
  rest = rest;
}

-- Before a fixed end the budget does not count.
within_budget-fixed :
    (p : Platform) (budget : Option ℕ) (end : ℕ) (s : Reading) (e : Entry) (rest : Bytes)
    → within_budget p budget (some end) s e.fields (length e.bytes) rest
      ≡ ok (again (after_entry s e rest))
unfolding within_budget
within_budget-fixed p none end s e rest = refl
within_budget-fixed p (some b) end s e rest = refl

module _ (p : Platform) (floats : FloatsPrintable p) (limit : ℕ) (budget : Option ℕ) where
  -- A round at an entry reads the entry, and then looks at the byte budget.
  pub batch_round-entry :
      (fixed_end : Option ℕ) (s : Reading) (e : Entry) (es : List Entry)
      → IsEntry p e
      → s.rest ≡ content (e ∷ es)
      → wanted p limit fixed_end s ≡ true
      → past p fixed_end (s.position + suc (length e.bytes)) ≡ false
      → batch_round p limit budget fixed_end s
        ≡ within_budget p budget fixed_end s e.fields (length e.bytes) (content es)
  unfolding batch_round
  batch_round-entry fixed_end s e es valid rest goes inside =
      let line : read_journal_line s.rest ≡ ok (framed e.bytes, content es) =
        ap read_journal_line rest ∙ read_journal_line-entry p floats e valid es in
      rw (goes, line)
        (read_record-framed p budget fixed_end s e.bytes (content es) e.fields
          (decode_record-entry p e valid) inside)

  -- A round before a fixed end takes the entry.
  pub batch_round-fixed :
      (end : ℕ) (s : Reading) (e : Entry) (es : List Entry)
      → IsEntry p e
      → s.rest ≡ content (e ∷ es)
      → s.position + suc (length e.bytes) ≤ end
      → batch_round p limit budget (some end) s ≡ ok (again (after_entry s e (content es)))
  batch_round-fixed end s e es valid rest inside =
      batch_round-entry (some end) s e es valid rest (lt→ltb s.position end (omega arith))
        (ge→ltb end (s.position + suc (length e.bytes)) inside)
      ∙ within_budget-fixed p budget end s e (content es)

  -- A round at the end of the journal leaves the loop.
  pub batch_round_end :
      (fixed_end : Option ℕ) (s : Reading)
      → s.rest ≡ []
      → wanted p limit fixed_end s ≡ true
      → batch_round p limit budget fixed_end s ≡ ok (stop s)
  unfolding batch_round
  batch_round_end fixed_end s rest goes =
      let line : read_journal_line s.rest ≡ ok ([], []) =
        ap read_journal_line rest ∙ read_journal_line_end in
      rw (goes, line)

  -- A round that wants no more records leaves the loop.
  pub batch_round_unwanted :
      (fixed_end : Option ℕ) (s : Reading)
      → wanted p limit fixed_end s ≡ false
      → batch_round p limit budget fixed_end s ≡ ok (stop s)
  unfolding batch_round
  batch_round_unwanted fixed_end s stops = rw stops
