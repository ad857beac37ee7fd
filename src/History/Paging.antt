-- ===== src/History/Paging.antt =====
-- The rows of a history and the scan of it by pages: `_history_rows` and `scan_history` of
-- python/src/epochdeck/public_api.py.
use epochdeck.Prelude.{
  ℕ, zero, suc, ◌+◌, not, ◌||◌, Option, none, some, List, [], ◌∷◌, ◌++◌, ltb, ◌==◌, if◌then◌else◌,
  length,
}
use epochdeck.Prelude.Int.{pos}
use epochdeck.Text.{Text, codes}
use epochdeck.Error.{
  delivery_protocol_error, value_error, out_of_rounds, Result, ok, err, ◌>>=◌, ◌>>◌, raise_if,
}
use epochdeck.Json.{Value, null, int, Fields, no_fields, field, get, update}
use epochdeck.Platform.{Platform}
use epochdeck.Protocol.{is_empty}
use epochdeck.Normalization.{max_safe_integer}
use epochdeck.History.{HistoryRequest, list_column, metrics_object, stays, history}

-- What a generator has yielded when it ends or raises.
pub record Yielded : Type 0 where
  pub rows : List Fields
  pub ended : Result (Unit {0})

-- One page of `scan_history`: the scan ends with it, or goes on behind a cursor.
pub data Page : Type 0 where
  stops : Yielded → Page
  goes_on : List Fields → ℕ → Page

module _ (p : Platform) where
  -- The columns of the requested keys.
  unfoldable pub key_columns : Fields → ℕ → List Text → Result (List (Text × List Value))
  key_columns metrics row_count [] = ok []
  key_columns metrics row_count (k ∷ ks) = do
    column ← list_column (get k metrics)
    raise_if (not (length column == row_count)) delivery_protocol_error
    columns ← key_columns metrics row_count ks
    ok ((k, column) ∷ columns)

  -- The first values of the columns, and what is left of them.
  unfoldable pub heads : List (Text × List Value) → Fields
  heads [] = no_fields
  heads ((k, []) ∷ columns) = heads columns
  heads ((k, v ∷ vs) ∷ columns) = field k v (heads columns)

  unfoldable pub tails : List (Text × List Value) → List (Text × List Value)
  tails [] = []
  tails ((k, []) ∷ columns) = (k, []) ∷ tails columns
  tails ((k, v ∷ vs) ∷ columns) = (k, vs) ∷ tails columns

  -- A row of the history.
  abbrev pub row : Value → Value → Value → List (Text × List Value) → Fields
  row q s t columns =
      update
        (field (codes "_sequence") q
          (field (codes "_step") s (field (codes "_timestamp_ms") t no_fields)))
        (heads columns)

  unfoldable pub rows_of :
      List Value → List Value → List Value → List (Text × List Value) → List Fields
  unfolding heads tails
  rows_of (q ∷ qs) (s ∷ ss) (t ∷ ts) columns = row q s t columns ∷ rows_of qs ss ts (tails columns)
  rows_of [] ss ts columns = []
  rows_of (q ∷ qs) [] ts columns = []
  rows_of (q ∷ qs) (s ∷ ss) [] columns = []

  -- `_history_rows`
  unfoldable pub history_rows : Fields → List Text → Result (List Fields)
  unfolding key_columns rows_of
  history_rows response keys = do
    sequence ← list_column (get (codes "sequence") response)
    step ← list_column (get (codes "step") response)
    timestamp ← list_column (get (codes "timestamp_ms") response)
    raise_if (not (length step == length sequence) || not (length timestamp == length sequence))
        delivery_protocol_error
    metrics ← metrics_object p (get (codes "metrics") response)
    columns ← key_columns metrics (length sequence) keys
    ok (rows_of sequence step timestamp columns)

  -- The check of the cursor in `scan_history`: `none` ends the scan. The response was validated, so the
  -- cursor is not negative.
  abbrev pub next_cursor : Option ℕ → Option Value → Result (Option ℕ)
  next_cursor after none = ok none
  next_cursor after (some null) = ok none
  next_cursor after (some (int (pos n))) =
      if stays p after n then err delivery_protocol_error else ok (some n)
  next_cursor after (some (int n)) = err delivery_protocol_error
  next_cursor after (some v) = err delivery_protocol_error

  abbrev pub cursor_value : Option ℕ → Option Value
  cursor_value none = none
  cursor_value (some n) = some (int (pos n))

  abbrev pub cursor_page : List Fields → Result (Option ℕ) → Page
  cursor_page rows (err e) = stops (record { rows = rows; ended = err e })
  cursor_page rows (ok none) = stops (record { rows = rows; ended = ok tt })
  cursor_page rows (ok (some n)) = goes_on rows n

  abbrev pub rows_page : Option ℕ → Fields → Result (List Fields) → Page
  rows_page after response (err e) = stops (record { rows = []; ended = err e })
  rows_page after response (ok rows) =
      cursor_page rows (next_cursor after (get (codes "next_after") response))

  abbrev pub response_page : List Text → Option ℕ → Result Fields → Page
  response_page keys after (err e) = stops (record { rows = []; ended = err e })
  response_page keys after (ok response) = rows_page after response (history_rows response keys)

  abbrev pub prepend : List Fields → Yielded → Yielded
  prepend rows y = record y { rows = rows ++ y.rows }

  abbrev pub then_scan : (ℕ → Yielded) → Page → Yielded
  then_scan rest (stops y) = y
  then_scan rest (goes_on rows n) = prepend rows (rest n)

  module _ (run_id : Text) (request : HistoryRequest → Result Fields) (keys : List Text)
      (page_size : ℕ) where
    unfoldable pub page : Option ℕ → Page
    page after = response_page keys after (
        history p run_id request (record {
          keys = keys;
          after = cursor_value after;
          limit = some (int (pos page_size));
          max_points = none;
        }))

    -- The loop. Its requests differ in their cursors, so a function of the request gives any answers.
    unfoldable pub scan_from : ℕ → Option ℕ → Yielded
    scan_from zero after = record { rows = []; ended = err out_of_rounds }
    scan_from (suc rounds) after = then_scan (λ n. scan_from rounds (some n)) (page after)

    -- `scan_history`: each round but the first starts behind a greater cursor.
    unfoldable pub scan_history : Yielded
    scan_history =
        if is_empty keys || ltb page_size 1 || ltb 5_000 page_size
        then record { rows = []; ended = err value_error }
        else scan_from (max_safe_integer + 2) none
