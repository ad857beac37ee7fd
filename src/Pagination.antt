-- ===== src/Pagination.antt =====
-- python/src/epochdeck/_pagination.py: the cursor of the next page, from a decoded response.
pub mod Cursors
use epochdeck.Prelude.{
  Bool, true, false, not, ◌&&◌, ◌||◌, Option, none, some, [], ◌∷◌, if◌then◌else◌,
}
use epochdeck.Text.{Text, codes, text_eq}
use epochdeck.Error.{type_error, Result, ok, err}
use epochdeck.Json.{Value, null, str, Fields, get}

-- `cursor == previous`.
abbrev repeats : Text → Option Text → Bool
repeats cursor none = false
repeats cursor (some previous) = text_eq cursor previous

abbrev text_cursor : Option Text → Option Value → Result (Option Text)
text_cursor previous none = ok none
text_cursor previous (some null) = ok none
text_cursor previous (some (str [])) = err type_error
text_cursor previous (some (str (c ∷ cs))) =
    if repeats (c ∷ cs) previous then err type_error else ok (some (c ∷ cs))
text_cursor previous (some v) = err type_error

unfoldable pub next_text_cursor : Fields → Text → Option Text → Result (Option Text)
next_text_cursor response name previous = text_cursor previous (get name response)

-- The relation that a paired cursor names.
pub data CursorRelation : Type 0 where
  input output : CursorRelation

abbrev relation_eq : CursorRelation → CursorRelation → Bool
relation_eq input input = true
relation_eq output output = true
relation_eq _ _ = false

abbrev relation_of : Text → Result CursorRelation
relation_of t =
    if text_eq t (codes "input")
    then ok input
    else if text_eq t (codes "output")
    then ok output
    else err type_error

abbrev pair_repeats : Text × CursorRelation → Option (Text × CursorRelation) → Bool
pair_repeats pair none = false
pair_repeats (cursor, relation) (some (previous, other)) =
    text_eq cursor previous && relation_eq relation other

abbrev new_pair :
    Option (Text × CursorRelation)
    → Text
    → Result CursorRelation
    → Result (Option (Text × CursorRelation))
new_pair previous cursor (err e) = err e
new_pair previous cursor (ok relation) =
    if pair_repeats (cursor, relation) previous
    then err type_error
    else ok (some (cursor, relation))

abbrev is_none : Option Value → Bool
is_none none = true
is_none (some null) = true
is_none (some v) = false

abbrev paired_cursor :
    Option (Text × CursorRelation)
    → Option Value
    → Option Value
    → Result (Option (Text × CursorRelation))
paired_cursor previous (some (str (c ∷ cs))) (some (str t)) =
    new_pair previous (c ∷ cs) (relation_of t)
paired_cursor previous cursor relation =
    if is_none cursor && is_none relation then ok none else err type_error

unfoldable pub next_paired_cursor :
    Fields → Option (Text × CursorRelation) → Result (Option (Text × CursorRelation))
next_paired_cursor response previous =
    paired_cursor previous (get (codes "next_before") response)
      (get (codes "next_before_relation") response)
