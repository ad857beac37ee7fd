-- ===== src/Pagination/Cursors.antt =====
-- Which cursors are followed.
use epochdeck.Prelude.{◌≡◌, ◌≢◌, ◌↔◌, true, Option, none, some, [], ◌∷◌, arith}
use epochdeck.Text.{Text, text_eq_iff}
use epochdeck.Error.{ok}
use epochdeck.Json.{Value, null, bool, int, float, arr, obj, str, Fields, get}
use epochdeck.Pagination.{next_text_cursor, text_cursor, repeats}

repeats_iff :
    (cursor : Text) (previous : Option Text)
    → (repeats cursor previous ≡ true) ↔ (some cursor ≡ previous)
repeats_iff cursor none = ground arith
repeats_iff cursor (some previous) = ground (arith, text_eq_iff cursor previous)

text_cursor_iff :
    (previous : Option Text) (value : Option Value) (cursor : Text)
    → (text_cursor previous value ≡ ok (some cursor))
      ↔ ((value ≡ some (str cursor)) × (cursor ≢ []) × (some cursor ≢ previous))
text_cursor_iff previous none cursor = ground arith
text_cursor_iff previous (some null) cursor = ground arith
text_cursor_iff previous (some (bool b)) cursor = ground arith
text_cursor_iff previous (some (int b)) cursor = ground arith
text_cursor_iff previous (some (float b)) cursor = ground arith
text_cursor_iff previous (some (arr b)) cursor = ground arith
text_cursor_iff previous (some (obj b)) cursor = ground arith
text_cursor_iff previous (some (str [])) cursor = ground arith
text_cursor_iff previous (some (str (c ∷ cs))) cursor =
    ground (arith, repeats_iff (c ∷ cs) previous)

-- next_text_cursor returns a cursor exactly when the field of the response is that text, which is
-- not empty and is not the cursor before.
pub next_text_cursor_iff :
    (response : Fields) (name : Text) (previous : Option Text) (cursor : Text)
    → (next_text_cursor response name previous ≡ ok (some cursor))
      ↔ ((get name response ≡ some (str cursor)) × (cursor ≢ []) × (some cursor ≢ previous))
unfolding next_text_cursor
next_text_cursor_iff response name previous cursor =
    text_cursor_iff previous (get name response) cursor
