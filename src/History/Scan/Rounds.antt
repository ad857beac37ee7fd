-- ===== src/History/Scan/Rounds.antt =====
-- The rounds of `scan_history`.
use epochdeck.Prelude.{
  ℕ, zero, suc, ◌+◌, ◌≤◌, ◌≡◌, ◌∙◌, refl, ap, sym, subst, false, ◌||◌, Option, none, some, List, [],
  ◌∷◌, ◌++◌, map, map-append, arith, ltb, inl, inr, Bool-cases, if◌then◌else◌,
}
use epochdeck.Text.{Text, codes}
use epochdeck.Error.{Result, err, value_error}
use epochdeck.Json.{Fields}
use epochdeck.Platform.{Platform}
use epochdeck.Protocol.{is_empty}
use epochdeck.Normalization.{max_safe_integer}
use epochdeck.History.{HistoryRequest, among, last_of}
use epochdeck.History.Paging.{
  Yielded, Page, stops, goes_on, prepend, page, then_scan, scan_from, scan_history,
}
use epochdeck.History.Columns.{Behind, Increasing, number, sequence_of}
use epochdeck.History.Scan.{InOrder, Upto, Proper, page-Proper}

-- The pages of a scan that starts behind a cursor, and what it yields.
pub data Scans (p : Platform) (pages : Option ℕ → Page) : Option ℕ → Yielded → Type 0 where
  last : (after : Option ℕ) (y : Yielded) → pages after ≡ stops y → Scans p pages after y
  more :
      (after : Option ℕ) (rows : List Fields) (n : ℕ) (y : Yielded)
      → pages after ≡ goes_on rows n
      → Scans p pages (some n) y
      → Scans p pages after (prepend p rows y)

-- Rounds that are enough behind a cursor.
abbrev Enough : ℕ → Option ℕ → Type 0
Enough rounds none = max_safe_integer + 2 ≤ rounds
Enough rounds (some a) = (max_safe_integer + 1 ≤ rounds + a) × (a ≤ max_safe_integer)

Increasing-append :
    (p : Platform) (after : Option ℕ) (ns ms : List ℕ) (n : ℕ)
    → Increasing after ns
    → last_of p ns ≡ some n
    → Increasing (some n) ms
    → Increasing after (ns ++ ms)
Increasing-append p after [] ms n h g k = ground arith
Increasing-append p after (a ∷ []) ms n h g k = (
  h.0,
  subst (λ m. Increasing (some m) ms) (sym (ap (λ o. elim o [ none ↦ a | some m ↦ m ]) g)) k,
)
Increasing-append p after (a ∷ b ∷ ns) ms n h g k =
    (h.0, Increasing-append p (some a) (b ∷ ns) ms n h.1 g k)

InOrder-append :
    (p : Platform) (after : Option ℕ) (rows later : List Fields) (n : ℕ)
    → Upto p after rows n
    → InOrder (some n) later
    → InOrder after (rows ++ later)
InOrder-append p after rows later n (ns, numbered, rises, final) (ms, numbered_later, rises_later) =
    (
      ns ++ ms,
      map-append sequence_of rows later
          ∙ (λ i. numbered i ++ numbered_later i)
          ∙ sym (map-append some (map number ns) (map number ms))
          ∙ ap (map some) (sym (map-append number ns ms)),
      Increasing-append p after ns ms n rises final rises_later,
    )

module _ (p : Platform) (run_id : Text) (request : HistoryRequest → Result Fields)
    (keys : List Text) (page_size : ℕ) where
  abbrev pages : Option ℕ → Page
  pages = page p run_id request keys page_size

  fewer :
      (rounds : ℕ) (after : Option ℕ) (n : ℕ)
      → Enough (suc rounds) after
      → Behind after n
      → n ≤ max_safe_integer
      → Enough rounds (some n)
  fewer rounds none n e b s = ground arith
  fewer rounds (some a) n e b s = ground arith

  round_lem :
      (g : Page) (rounds : ℕ) (after : Option ℕ)
      → pages after ≡ g
      → Proper p (among (codes "_sequence") keys) after g
      → Enough (suc rounds) after
      → (rest : ℕ → Yielded) → ((n : ℕ) → Enough rounds (some n) → Scans p pages (some n) (rest n))
      → Scans p pages after (then_scan p rest g)
  round_lem (stops y) rounds after h proper e rest later = last after y h
  round_lem (goes_on rows n) rounds after h (behind, small, _) e rest later =
      more after rows n (rest n) h (later n (fewer rounds after n e behind small))

  scan_from_lem :
      (rounds : ℕ) (after : Option ℕ)
      → Enough rounds after
      → Scans p pages after (scan_from p run_id request keys page_size rounds after)
  unfolding scan_from
  scan_from_lem zero none e = absurd (ground (arith, e))
  scan_from_lem zero (some a) e = absurd (ground (arith, e))
  scan_from_lem (suc rounds) after e =
      round_lem (pages after) rounds after refl (page-Proper p run_id request keys page_size after)
        e _ λ n. scan_from_lem rounds (some n)

  scan_taken-Scans :
      (is_empty keys || ltb page_size 1 || ltb 5_000 page_size) ≡ false
      → Scans p pages none (scan_history p run_id request keys page_size)
  unfolding scan_history
  scan_taken-Scans h =
      subst
        (λ b. Scans p pages none (
          if b
          then record { rows = []; ended = err value_error }
          else scan_from p run_id request keys page_size (max_safe_integer + 2) none))
        (sym h) (scan_from_lem (max_safe_integer + 2) none (omega arith))

  Scans-InOrder :
      (after : Option ℕ) (y : Yielded)
      → among (codes "_sequence") keys ≡ false
      → Scans p pages after y
      → InOrder after y.rows
  Scans-InOrder after y plain (last _ _ h) =
      subst (Proper p (among (codes "_sequence") keys) after) h
        (page-Proper p run_id request keys page_size after) plain
  Scans-InOrder after y plain (more _ rows n z h s) =
      let (_, _, upto) =
        subst (Proper p (among (codes "_sequence") keys) after) h
          (page-Proper p run_id request keys page_size after) in
      InOrder-append p after rows z.rows n (upto plain) (Scans-InOrder (some n) z plain s)

  scan_rows-InOrder :
      among (codes "_sequence") keys ≡ false
      → InOrder none (scan_history p run_id request keys page_size).rows
  unfolding scan_history
  scan_rows-InOrder plain =
      elim (Bool-cases (is_empty keys || ltb page_size 1 || ltb 5_000 page_size)) [
        | inl refused ↦
            subst
              (λ b.
                InOrder none
                  (if b
                    then record { rows = []; ended = err value_error }
                    else scan_from p run_id request keys page_size (max_safe_integer + 2)
                        none).rows)
              (sym refused) ([], refl, tt)
        | inr taken ↦ Scans-InOrder none _ plain (scan_taken-Scans taken)
      ]

-- For any server, a scan with acceptable arguments needs no more rounds than the loop was given: what it
-- yields is the rows of the pages from the first one to the one that ends it, each asked for behind the
-- cursor of the page before it, with the outcome of the last page.
pub scan_history-Scans :
    (p : Platform) (run_id : Text) (request : HistoryRequest → Result Fields) (keys : List Text)
    (page_size : ℕ)
    → (is_empty keys || ltb page_size 1 || ltb 5_000 page_size) ≡ false
    → Scans p
        (page p run_id request keys page_size)
        none
        (scan_history p run_id request keys page_size)
scan_history-Scans p run_id request keys page_size h =
    scan_taken-Scans p run_id request keys page_size h

-- If no metric is named `_sequence`, the `_sequence` values of the rows that a scan yields are natural
-- numbers, each greater than the one before it, whatever the server answers and however the scan ends.
pub scan_history-InOrder :
    (p : Platform) (run_id : Text) (request : HistoryRequest → Result Fields) (keys : List Text)
    (page_size : ℕ)
    → among (codes "_sequence") keys ≡ false
    → InOrder none (scan_history p run_id request keys page_size).rows
scan_history-InOrder p run_id request keys page_size h =
    scan_rows-InOrder p run_id request keys page_size h
