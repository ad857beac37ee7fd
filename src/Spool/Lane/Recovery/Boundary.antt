-- ===== src/Spool/Lane/Recovery/Boundary.antt =====
-- The end of the last whole record is found from the tail of the journal alone.
use epochdeck.Prelude.{
  ℕ, zero, suc, ◌+◌, ◌-◌, ◌≤◌, ◌<◌, ◌≡◌, ◌⊎◌, ◌≢◌, refl, ap, ◌∙◌, inl, inr, true, List, [], ◌∷◌,
  ◌++◌, arith, length, length-append, length-drop, take, drop, take_all, drop-append_le,
}
use epochdeck.Text.{Bytes}
use epochdeck.Error.{ok}
use epochdeck.Spool.Lines.{newline, max_journal_record_bytes, ends_with_newline, after_last_newline}
use epochdeck.Spool.Lines.Framing.{NoNewline, after_last_newline-append, after_last_newline-partial}
use epochdeck.Spool.Entry.{Entry, content, length-content_cons}
use epochdeck.Spool.Lane.Recovery.{tail_start, tail_boundary, checked_end, journal_end}

-- Empty, or closed by a line feed.
abbrev pub IsWhole : Bytes → Type 0
IsWhole l = (l ≡ []) ⊎ (ends_with_newline l ≡ true)

pub ends_with_newline-append :
    (l : Bytes) (b : ℕ) (bs : Bytes) → ends_with_newline (l ++ b ∷ bs) ≡ ends_with_newline (b ∷ bs)
unfolding ends_with_newline
ends_with_newline-append [] b bs = refl
ends_with_newline-append (c ∷ []) b bs = refl
ends_with_newline-append (c ∷ d ∷ l) b bs = ends_with_newline-append (d ∷ l) b bs

ends_with_newline-cons :
    (b : ℕ) (l : Bytes) → 0 < length l → ends_with_newline (b ∷ l) ≡ ends_with_newline l
unfolding ends_with_newline
ends_with_newline-cons b [] h = absurd (omega arith)
ends_with_newline-cons b (c ∷ l) h = refl

ends_with_newline-content :
    (e : Entry) (es : List Entry) → ends_with_newline (content (e ∷ es)) ≡ true
ends_with_newline-content e [] =
    ends_with_newline-append e.bytes newline [] ∙ unfold ends_with_newline in refl
ends_with_newline-content e (x ∷ es) =
    ends_with_newline-append e.bytes newline (content (x ∷ es))
    ∙ ends_with_newline-cons newline (content (x ∷ es)) (omega (arith, length-content_cons x es))
    ∙ ends_with_newline-content x es

pub content-IsWhole : (es : List Entry) → IsWhole (content es)
content-IsWhole [] = inl refl
content-IsWhole (e ∷ es) = inr (ends_with_newline-content e es)

ends_with_newline-drop :
    (n : ℕ) (l : Bytes) → n < length l → ends_with_newline (drop n l) ≡ ends_with_newline l
unfolding ends_with_newline
ends_with_newline-drop zero l h = refl
ends_with_newline-drop (suc n) [] h = absurd (omega arith)
ends_with_newline-drop (suc n) (b ∷ []) h = absurd (omega arith)
ends_with_newline-drop (suc n) (b ∷ c ∷ l) h = ends_with_newline-drop n (c ∷ l) (omega arith)

drop-nil : (n : ℕ) → drop {A = ℕ} n [] ≡ []
drop-nil zero = refl
drop-nil (suc n) = refl

ends_with_newline-length : (l : Bytes) → ends_with_newline l ≡ true → 0 < length l
ends_with_newline-length [] h = unfold ends_with_newline in cc h
ends_with_newline-length (b ∷ l) h = omega arith

module _ (n : ℕ) (whole partial : Bytes) (clean : NoNewline partial)
    (short : length partial ≤ n) where
  abbrev start : ℕ
  start = length (whole ++ partial) - n - 1

  start-le : start ≤ length whole
  start-le = omega (arith, length-append {0} whole partial)

  tail_lem : take (n + 1) (drop start (whole ++ partial)) ≡ drop start whole ++ partial
  tail_lem =
      take_all (n + 1) (drop start (whole ++ partial))
        (omega (arith, length-drop {0} start (whole ++ partial)))
      ∙ drop-append_le start whole partial start-le

  boundary_lem :
      IsWhole whole
      → start + after_last_newline (take (n + 1) (drop start (whole ++ partial))) ≡ length whole
  boundary_lem (inl empty) =
      rw
        (tail_lem, ap (drop start) empty ∙ drop-nil start, after_last_newline-partial partial clean)
        (omega (arith, ap length empty, length-append {0} whole partial))
  boundary_lem (inr ends) =
      let inside : start < length whole =
        omega (arith, length-append {0} whole partial, ends_with_newline-length whole ends) in
      rw
        (
          tail_lem,
          after_last_newline-append (drop start whole) partial clean
              (ends_with_newline-drop start whole inside ∙ ends),
        )
        (omega (arith, inside, length-drop {0} start whole))

  boundary_pos :
      IsWhole whole
      → start ≢ 0
      → after_last_newline (take (n + 1) (drop start (whole ++ partial))) ≢ 0
  boundary_pos (inl empty) moved e =
      moved (omega (arith, ap length empty, length-append {0} whole partial))
  boundary_pos (inr ends) moved e = omega (
    arith,
    boundary_lem (inr ends),
    ends_with_newline-length whole ends,
    length-append {0} whole partial,
  )

checked_end_lem :
    (size start boundary stop : ℕ)
    → start + boundary ≡ stop
    → (start ≢ 0 → boundary ≢ 0)
    → size - stop ≤ max_journal_record_bytes
    → checked_end size start boundary ≡ ok stop
checked_end_lem size zero boundary stop found moved short = ground arith
checked_end_lem size (suc start) boundary stop found moved short =
    let some_boundary : boundary ≢ 0 = moved (ground arith) in ground arith

-- Behind whole records, an unfinished record that is not too long is found and left out.
pub journal_end-partial :
    (whole partial : Bytes)
    → NoNewline partial
    → length partial ≤ max_journal_record_bytes
    → IsWhole whole
    → journal_end (whole ++ partial) ≡ ok (length whole)
unfolding journal_end
journal_end-partial whole partial clean short h =
    checked_end_lem (length (whole ++ partial)) (tail_start (whole ++ partial))
      (tail_boundary (whole ++ partial)) (length whole)
      (boundary_lem max_journal_record_bytes whole partial clean short h)
      (boundary_pos max_journal_record_bytes whole partial clean short h)
      (omega (arith, length-append {0} whole partial))
