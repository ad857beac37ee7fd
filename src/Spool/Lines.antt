-- ===== src/Spool/Lines.antt =====
-- A journal file as its bytes, and the buffered reads of python/src/epochdeck/_spool.py on it: a
-- stream is its position and the bytes behind it.
pub mod Framing
use epochdeck.Prelude.{
  ℕ, zero, suc, ◌+◌, ◌-◌, ◌*◌, ◌≡◌, Bool, true, false, not, Option, none, some, List, [], ◌∷◌, ◌++◌,
  ltb, ◌==◌, if◌then◌else◌, length,
}
use epochdeck.Text.{Bytes}
use epochdeck.Error.{
  Error, delivery_error, record_too_large, record_incomplete, Result, ok, err, ◌>>=◌, ◌>>◌,
  raise_if,
}

abbrev pub newline : ℕ
newline = 10

abbrev pub max_journal_record_bytes : ℕ
max_journal_record_bytes = 2 * 1024 * 1024

abbrev cons_line : ℕ → Bytes × Bytes → Bytes × Bytes
cons_line b (line, rest) = (b ∷ line, rest)

-- `stream.readline(limit)`: the line read, and what is left of the stream.
unfoldable pub readline : ℕ → Bytes → Bytes × Bytes
readline zero bs = ([], bs)
readline (suc n) [] = ([], [])
readline (suc n) (b ∷ bs) =
    let more = cons_line b (readline n bs) in if b == newline then (b ∷ [], bs) else more

-- `data.endswith(b"\n")`.
unfoldable pub ends_with_newline : Bytes → Bool
ends_with_newline [] = false
ends_with_newline (b ∷ []) = b == newline
ends_with_newline (b ∷ c ∷ bs) = ends_with_newline (c ∷ bs)

-- `data.rfind(b"\n") + 1`.
unfoldable pub after_last_newline : Bytes → ℕ
after_last_newline [] = 0
after_last_newline (b ∷ bs) = elim (after_last_newline bs) [
  | zero ↦ if b == newline then 1 else 0
  | suc n ↦ suc (suc n)
]

-- The checks that `_read_journal_line` makes on what it read.
abbrev checked_line : Bytes × Bytes → Result (Bytes × Bytes)
checked_line ([], rest) = ok ([], rest)
checked_line (b ∷ line, rest) = do
  raise_if (ltb (max_journal_record_bytes + 1) (length (b ∷ line)))
      (delivery_error record_too_large)
  raise_if (not (ends_with_newline (b ∷ line))) (delivery_error record_incomplete)
  ok (b ∷ line, rest)

-- `_read_journal_line`: the empty line is the end of the file.
unfoldable pub read_journal_line : Bytes → Result (Bytes × Bytes)
read_journal_line stream = checked_line (readline (max_journal_record_bytes + 2) stream)
