-- ===== src/Tests/HistoryTests.antt =====
-- A scan of two pages.
use epochdeck.Prelude.{ℕ, ◌≡◌, refl, false, Option, none, some, List, [], ◌∷◌, length}
use epochdeck.Prelude.Int.{pos}
use epochdeck.Text.{codes, text_eq}
use epochdeck.Error.{Result, ok}
use epochdeck.Json.{
  Value, null, bool, int, float, str, arr, obj, Items, no_items, item, Fields, no_fields, field,
  get,
}
use epochdeck.Protocol.{is_empty, require_text}
use epochdeck.History.{
  HistoryRequest, among, history, validate_history_request, validate_history_response,
}
use epochdeck.History.Paging.{Yielded, page, scan_from, history_rows, scan_history}
use epochdeck.History.Scan.{InOrder}
use epochdeck.History.Scan.Rounds.{Scans, scan_history-Scans, scan_history-InOrder}
use epochdeck.Tests.Fixture.{runtime}

abbrev column : List ℕ → Items
column [] = no_items
column (n ∷ ns) = item (int (pos n)) (column ns)

abbrev answer : List ℕ → Items → Value → Fields
answer ns losses next_after = field (codes "run_id") (str (codes "r1")) (
    field (codes "sequence") (arr (column ns)) (
      field (codes "step") (arr (column ns)) (
        field (codes "timestamp_ms") (arr (column ns)) (
          field (codes "metrics") (obj (field (codes "loss") (arr losses) no_fields)) (
            field (codes "sampled") (bool false)
              (field (codes "next_after") next_after no_fields))))))

abbrev served : Option Value → Result Fields
served none = ok (answer (4 ∷ 7 ∷ []) (item (float 5) (item null no_items)) (int (pos 7)))
served (some after) = ok (answer (9 ∷ []) (item (float 3) no_items) null)

abbrev server : HistoryRequest → Result Fields
server r = served r.after

abbrev scanned : Yielded
scanned = scan_history runtime (codes "r1") server (codes "loss" ∷ []) 2

scans_two_pages : length scanned.rows ≡ 3
unfolding scan_history is_empty scan_from page history validate_history_request
    validate_history_response require_text get text_eq history_rows
scans_two_pages = refl

scan_history-Scans_example :
    Scans runtime (page runtime (codes "r1") server (codes "loss" ∷ []) 2) none scanned
unfolding is_empty
scan_history-Scans_example =
    scan_history-Scans runtime (codes "r1") server (codes "loss" ∷ []) 2 refl

scan_history-InOrder_example : InOrder none scanned.rows
unfolding among text_eq
scan_history-InOrder_example =
    scan_history-InOrder runtime (codes "r1") server (codes "loss" ∷ []) 2 refl
