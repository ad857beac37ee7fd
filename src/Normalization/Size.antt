-- ===== src/Normalization/Size.antt =====
-- The size that is added up while a value is normalized is the length of its encoding, whatever the
-- order of the keys in it.
use epochdeck.Prelude.{ℕ, suc, ◌+◌, ◌-◌, ◌≡◌, refl, false, List, [], ◌∷◌, arith}
use epochdeck.Text.{Text}
use epochdeck.Text.Width.{byte_length, byte_length-append}
use epochdeck.Json.{Value, str, arr, obj, Items, no_items, item, Fields, no_fields, field}
use epochdeck.Json.Dumps.{
  dumps, dumps_items, dumps_fields, quote, comma_separated, members, insert_member, sort_members,
  object_text, array_text,
}
use epochdeck.Platform.{Platform}
use epochdeck.Normalization.{append_item, append_field, comma_items, comma_fields}

-- The sum of the parts, each with one more byte.
abbrev parts_length : List Text → ℕ
parts_length [] = 0
parts_length (t ∷ ts) = suc (byte_length t) + parts_length ts

byte_length-comma_separated :
    (ts : List Text) → byte_length (comma_separated ts) ≡ parts_length ts - 1
unfolding comma_separated byte_length
byte_length-comma_separated [] = refl
byte_length-comma_separated (t ∷ []) = omega arith
byte_length-comma_separated (t ∷ u ∷ ts) = omega (
  arith,
  byte_length-append t (b',' ∷ comma_separated (u ∷ ts)),
  byte_length-comma_separated (u ∷ ts),
)

abbrev member_length : Text × Text → ℕ
member_length (k, t) = byte_length (quote false k) + 1 + byte_length t

abbrev members_length : List (Text × Text) → ℕ
members_length [] = 0
members_length (m ∷ ms) = suc (member_length m) + members_length ms

members_length-insert_member :
    (m : Text × Text) (ms : List (Text × Text))
    → members_length (insert_member m ms) ≡ suc (member_length m) + members_length ms
unfolding insert_member
members_length-insert_member m [] = refl
members_length-insert_member m (n ∷ ns) = ground (arith, members_length-insert_member m ns)

members_length-sort_members :
    (ms : List (Text × Text)) → members_length (sort_members ms) ≡ members_length ms
unfolding sort_members
members_length-sort_members [] = refl
members_length-sort_members (m ∷ ms) =
    omega (arith, members_length-insert_member m (sort_members ms), members_length-sort_members ms)

parts_length-members :
    (ms : List (Text × Text)) → parts_length (members false ms) ≡ members_length ms
unfolding members byte_length
parts_length-members [] = refl
parts_length-members ((k, t) ∷ ms) =
    omega (arith, byte_length-append (quote false k) (b':' ∷ t), parts_length-members ms)

byte_length-object_text :
    (ms : List (Text × Text)) → byte_length (object_text false ms) ≡ 2 + (members_length ms - 1)
unfolding object_text byte_length
byte_length-object_text ms = omega (
  arith,
  byte_length-append (comma_separated (members false (sort_members ms))) (b'}' ∷ []),
  byte_length-comma_separated (members false (sort_members ms)),
  parts_length-members (sort_members ms),
  members_length-sort_members ms,
)

byte_length-array_text : (ts : List Text) → byte_length (array_text ts) ≡ 2 + (parts_length ts - 1)
unfolding array_text byte_length
byte_length-array_text ts =
    omega
      (arith, byte_length-append (comma_separated ts) (b']' ∷ []), byte_length-comma_separated ts)

-- The sum that `_normalize_json_value` makes.
module _ (p : Platform) where
  unfoldable pub encoded_size : Value → ℕ
  encoded_size v = byte_length (dumps p.float_repr false v)

  -- Of the values of a list: each after the first has a comma before it.
  unfoldable pub items_size : Items → ℕ
  unfolding encoded_size
  items_size xs = parts_length (dumps_items p.float_repr false xs) - 1

  unfoldable pub fields_size : Fields → ℕ
  unfolding encoded_size
  fields_size fs = members_length (dumps_fields p.float_repr false fs) - 1

  pub encoded_size-arr : (xs : Items) → encoded_size (arr xs) ≡ 2 + items_size xs
  unfolding encoded_size items_size dumps
  encoded_size-arr xs = byte_length-array_text (dumps_items p.float_repr false xs)

  pub encoded_size-obj : (fs : Fields) → encoded_size (obj fs) ≡ 2 + fields_size fs
  unfolding encoded_size fields_size dumps
  encoded_size-obj fs = byte_length-object_text (dumps_fields p.float_repr false fs)

  parts_length-append_item :
      (xs : Items) (v : Value)
      → parts_length (dumps_items p.float_repr false (append_item xs v))
        ≡ parts_length (dumps_items p.float_repr false xs) + suc (encoded_size v)
  unfolding append_item dumps_items encoded_size
  parts_length-append_item no_items v = omega arith
  parts_length-append_item (item w xs) v = omega (arith, parts_length-append_item xs v)

  pub items_size-append_item :
      (xs : Items) (v : Value)
      → items_size (append_item xs v) ≡ items_size xs + (comma_items xs + encoded_size v)
  unfolding items_size dumps_items
  items_size-append_item no_items v = omega (arith, parts_length-append_item no_items v)
  items_size-append_item (item w xs) v = omega (arith, parts_length-append_item (item w xs) v)

  members_length-append_field :
      (fs : Fields) (k : Text) (v : Value)
      → members_length (dumps_fields p.float_repr false (append_field fs k v))
        ≡ members_length (dumps_fields p.float_repr false fs)
          + suc (byte_length (quote false k) + 1 + encoded_size v)
  unfolding append_field dumps_fields encoded_size
  members_length-append_field no_fields k v = omega arith
  members_length-append_field (field j w fs) k v = omega (arith, members_length-append_field fs k v)

  pub fields_size-append_field :
      (fs : Fields) (k : Text) (v : Value)
      → fields_size (append_field fs k v)
        ≡ fields_size fs + (comma_fields fs + encoded_size (str k) + 1 + encoded_size v)
  unfolding fields_size dumps_fields encoded_size dumps
  fields_size-append_field no_fields k v = omega (arith, members_length-append_field no_fields k v)
  fields_size-append_field (field j w fs) k v =
      omega (arith, members_length-append_field (field j w fs) k v)
