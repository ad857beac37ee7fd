-- ===== src/Spool/Lines/Framing.antt =====
-- One line per record: reading a framed record gives it back, with the rest of the stream.
use epochdeck.Prelude.{
  ℕ, zero, suc, ◌+◌, ◌≤◌, ◌<◌, ◌≡◌, ◌≢◌, refl, true, [], ◌∷◌, ◌++◌, arith, ge→ltb, length,
  length-append, All,
}
use epochdeck.Text.{Bytes}
use epochdeck.Error.{ok}
use epochdeck.Spool.Lines.{
  newline, max_journal_record_bytes, readline, ends_with_newline, after_last_newline,
  read_journal_line, checked_line,
}

abbrev pub NoNewline : Bytes → Type 0
NoNewline l = All (λ b. b ≢ 10) l

-- A record and its line feed.
abbrev pub framed : Bytes → Bytes
framed l = l ++ newline ∷ []

pub length-framed : (l : Bytes) → length (framed l) ≡ suc (length l)
length-framed l = omega (arith, length-append {0} l (10 ∷ []))

-- Within the limit, a framed record is read whole, and no further.
readline-framed :
    (n : ℕ) (l rest : Bytes)
    → NoNewline l
    → length l < n
    → readline n (l ++ newline ∷ rest) ≡ (framed l, rest)
unfolding readline
readline-framed zero l rest clean h = absurd (omega arith)
readline-framed (suc n) [] rest clean h = refl
readline-framed (suc n) (b ∷ l) rest clean h =
    ground (arith, clean.0, readline-framed n l rest clean.1)

pub ends_with_newline-framed : (l : Bytes) → ends_with_newline (framed l) ≡ true
unfolding ends_with_newline
ends_with_newline-framed [] = refl
ends_with_newline-framed (b ∷ []) = refl
ends_with_newline-framed (b ∷ c ∷ l) = ends_with_newline-framed (c ∷ l)

checked_framed :
    (l rest : Bytes)
    → length l ≤ max_journal_record_bytes
    → checked_line (framed l, rest) ≡ ok (framed l, rest)
checked_framed [] rest fits = unfold ends_with_newline in refl
checked_framed (b ∷ l) rest fits = rw (
  ends_with_newline-framed (b ∷ l),
  ge→ltb (max_journal_record_bytes + 1) (length (framed (b ∷ l))) (omega (arith, length-framed l)),
)

module _ (l rest : Bytes) (clean : NoNewline l) (fits : length l ≤ max_journal_record_bytes) where
  pub read_journal_line-framed : read_journal_line (l ++ newline ∷ rest) ≡ ok (framed l, rest)
  unfolding read_journal_line
  read_journal_line-framed =
      rw (readline-framed (max_journal_record_bytes + 2) l rest clean (omega arith))
        (checked_framed l rest fits)

pub read_journal_line_end : read_journal_line [] ≡ ok ([], [])
unfolding read_journal_line readline
read_journal_line_end = refl

-- The boundary behind the last line feed: nothing is cut from whole lines, and an unfinished
-- record behind them is cut whole.
pub after_last_newline-partial : (l : Bytes) → NoNewline l → after_last_newline l ≡ 0
unfolding after_last_newline
after_last_newline-partial [] clean = refl
after_last_newline-partial (b ∷ l) clean =
    rw (after_last_newline-partial l clean.1) (ground (arith, clean.0))

pub after_last_newline-append :
    (whole l : Bytes)
    → NoNewline l
    → ends_with_newline whole ≡ true
    → after_last_newline (whole ++ l) ≡ length whole
unfolding after_last_newline ends_with_newline
after_last_newline-append [] l clean ends = cc
after_last_newline-append (b ∷ []) l clean ends =
    rw (after_last_newline-partial l clean) (ground arith)
after_last_newline-append (b ∷ c ∷ whole) l clean ends =
    rw (after_last_newline-append (c ∷ whole) l clean ends)
