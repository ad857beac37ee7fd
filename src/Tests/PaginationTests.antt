-- ===== src/Tests/PaginationTests.antt =====
-- A response with a next cursor.
use epochdeck.Prelude.{◌≡◌, ◌≢◌, ◌↔◌, some}
use epochdeck.Text.{codes}
use epochdeck.Error.{ok}
use epochdeck.Json.{Fields, str, no_fields, field, get}
use epochdeck.Pagination.{next_text_cursor}
use epochdeck.Pagination.Cursors.{next_text_cursor_iff}

abbrev response : Fields
response = field (codes "next") (str (codes "b")) no_fields

next_text_cursor_iff_example :
    (next_text_cursor response (codes "next") (some (codes "a")) ≡ ok (some (codes "b"))) ↔ (
      (get (codes "next") response ≡ some (str (codes "b")))
      × (codes "b" ≢ codes "")
      × (some (codes "b") ≢ some (codes "a")))
next_text_cursor_iff_example =
    next_text_cursor_iff response (codes "next") (some (codes "a")) (codes "b")
