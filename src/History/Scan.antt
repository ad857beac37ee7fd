-- ===== src/History/Scan.antt =====
-- One page of `scan_history`: its cursor and the order of its rows.
pub mod Rounds
use epochdeck.Prelude.{
  ℕ, zero, suc, ◌+◌, ◌≤◌, ◌<◌, ◌≡◌, ◌∙◌, refl, ap, sym, subst, Bool, true, false, not, ◌||◌, Option,
  none, some, List, [], ◌∷◌, ◌++◌, map, arith, leb, ltb, ◌==◌, length, if◌then◌else◌, ◌⊎◌, inl, inr,
}
use epochdeck.Prelude.Int.{ℤ, pos, negsuc}
use epochdeck.Text.{Text, codes}
use epochdeck.Error.{
  Error, Result, ok, err, delivery_protocol_error, out_of_rounds, raise_if, returned, passes_then,
  not_raised, ok_injective, ◌>>=◌, ◌>>◌,
}
use epochdeck.Json.{Value, null, bool, int, float, str, arr, obj, Fields, get}
use epochdeck.Platform.{Platform}
use epochdeck.Normalization.{max_safe_integer}
use epochdeck.History.{
  HistoryRequest, among, check_cursor, cursor_number, is_last, stays, last_of, position, is_given,
  history, validate_history_request, validate_history_response,
}
use epochdeck.History.Paging.{
  Yielded, Page, stops, goes_on, next_cursor, cursor_value, prepend, cursor_page, history_rows,
  response_page, rows_page, page, scan_from, scan_history,
}
use epochdeck.History.Columns.{
  Behind, Increasing, number, accepts, sequence_of, Validated, validate_history_response_lem,
}
use epochdeck.History.Rows.{history_rows_lem}

-- What a cursor that was accepted says.
record Cursor (after : Option ℕ) (last : Option ℕ) (n : ℕ) : Type 0 where
  behind : Behind after n
  small : n ≤ max_safe_integer
  final : last ≡ some n

behind_lem : (p : Platform) (after : Option ℕ) (n : ℕ) → stays p after n ≡ false → Behind after n
behind_lem p none n h = tt
behind_lem p (some a) n h = ground arith

is_last_lem : (p : Platform) (n : ℕ) (m : Option ℕ) → not (is_last p n m) ≡ false → m ≡ some n
is_last_lem p n none h = ground arith
is_last_lem p n (some m) h = ground arith

next_cursor_lem :
    (p : Platform) (after : Option ℕ) (ns : List ℕ) (v : Option Value)
    → check_cursor p after false ns v ≡ ok tt
    → (next_cursor p after v ≡ ok none)
      ⊎ ((n : ℕ) × (next_cursor p after v ≡ ok (some n)) × Cursor after (last_of p ns) n)
next_cursor_lem p after ns none h = inl refl
next_cursor_lem p after ns (some null) h = inl refl
next_cursor_lem p after ns (some (int (pos n))) h =
    let (m, read, h1) = returned (cursor_number p (int (pos n))) _ h in
    let (same, small) = accepts (leb n max_safe_integer) _ n m read in
    let (final, fresh) =
      passes_then (raise_if (not (is_last p n (last_of p ns))) delivery_protocol_error)
        (raise_if (stays p after n) delivery_protocol_error)
        (subst
          (λ k.
            (raise_if (not (is_last p k (last_of p ns))) delivery_protocol_error
              >> raise_if (stays p after k) delivery_protocol_error)
            ≡ ok tt)
          (sym same) h1) in
    let advances = not_raised (stays p after n) _ fresh in
    inr (
      n,
      ap (λ b. if b then err delivery_protocol_error else ok (some n)) advances,
      record {
        behind = behind_lem p after n advances;
        small = ground (arith, small);
        final = is_last_lem p n (last_of p ns) (not_raised _ _ final);
      },
    )
next_cursor_lem p after ns (some (int (negsuc n))) h = ground arith
next_cursor_lem p after ns (some (bool b)) h = ground arith
next_cursor_lem p after ns (some (float b)) h = ground arith
next_cursor_lem p after ns (some (str b)) h = ground arith
next_cursor_lem p after ns (some (arr b)) h = ground arith
next_cursor_lem p after ns (some (obj b)) h = ground arith

-- The rows have increasing sequence numbers, which come after the cursor.
abbrev pub InOrder : Option ℕ → List Fields → Type 0
InOrder after rows =
    (ns : List ℕ) × (map sequence_of rows ≡ map some (map number ns)) × Increasing after ns

-- The rows before a cursor.
abbrev pub Upto : Platform → Option ℕ → List Fields → ℕ → Type 0
Upto p after rows n =
    (ns : List ℕ) × (map sequence_of rows ≡ map some (map number ns))
    × Increasing after ns
    × (last_of p ns ≡ some n)

-- What is known of a page, where the keys of the metrics are not the names of the row's other values.
abbrev pub Proper : Platform → Bool → Option ℕ → Page → Type 0
Proper p clash after (stops y) = clash ≡ false → InOrder after y.rows
Proper p clash after (goes_on rows n) =
    Behind after n × (n ≤ max_safe_integer) × (clash ≡ false → Upto p after rows n)

position-cursor_value :
    (p : Platform) (after : Option ℕ) → position p (cursor_value p after) ≡ after
position-cursor_value p none = refl
position-cursor_value p (some n) = refl

module _ (p : Platform) (run_id : Text) (request : HistoryRequest → Result Fields)
    (r : HistoryRequest) where
  history_lem :
      (response : Fields)
      → history p run_id request r ≡ ok response
      → validate_history_response p run_id r.keys
          (position p r.after)
          (is_given p r.max_points)
          response
        ≡ ok tt
  unfolding history
  history_lem response h =
      let (_, h1) = passes_then (validate_history_request r) _ h in
      let (answer, _, h2) = returned (request r) _ h1 in
      let (valid, h3) =
        passes_then
          (validate_history_response p run_id r.keys (position p r.after) (is_given p r.max_points)
            answer)
          _ h2 in
      subst
        (λ a.
          validate_history_response p run_id r.keys (position p r.after) (is_given p r.max_points) a
          ≡ ok tt)
        (ok_injective answer response h3) valid

module _ (p : Platform) (run_id : Text) (request : HistoryRequest → Result Fields)
    (keys : List Text) (page_size : ℕ) where
  rows_page-Proper :
      (after : Option ℕ) (response : Fields) (rows : Result (List Fields))
      → history_rows p response keys ≡ rows
      → Validated p after false response
      → Proper p (among (codes "_sequence") keys) after (rows_page p after response rows)
  rows_page-Proper after response (err e) h v = λ plain. ([], refl, tt)
  rows_page-Proper after response (ok rows) h v =
      let kept : among (codes "_sequence") keys ≡ false
          → map sequence_of rows ≡ map some (map number v.sequence) =
        λ plain.
          history_rows_lem p response keys rows v.items plain v.column h
          ∙ ap (map some) v.numbers in
      elim (next_cursor_lem p after v.sequence (get (codes "next_after") response) v.cursor) [
        | inl last ↦
            subst (λ c. Proper p (among (codes "_sequence") keys) after (cursor_page p rows c))
              (sym last) λ plain. (v.sequence, kept plain, v.increasing)
        | inr (n, goes, c) ↦
            subst (λ c. Proper p (among (codes "_sequence") keys) after (cursor_page p rows c))
              (sym goes)
              (c.behind, c.small, λ plain. (v.sequence, kept plain, v.increasing, c.final))
      ]

  response_page-Proper :
      (after : Option ℕ) (response : Result Fields)
      → ((answer : Fields) → response ≡ ok answer → Validated p after false answer)
      → Proper p (among (codes "_sequence") keys) after (response_page p keys after response)
  response_page-Proper after (err e) v = λ plain. ([], refl, tt)
  response_page-Proper after (ok answer) v =
      rows_page-Proper after answer (history_rows p answer keys) refl (v answer refl)

  pub page-Proper :
      (after : Option ℕ)
      → Proper p (among (codes "_sequence") keys) after (page p run_id request keys page_size after)
  unfolding page
  page-Proper after = response_page-Proper after _ λ answer h.
      validate_history_response_lem p run_id keys after false answer (
        subst (λ a. validate_history_response p run_id keys a false answer ≡ ok tt)
          (position-cursor_value p after) (history_lem p run_id request _ answer h))
