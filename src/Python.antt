-- ===== src/Python.antt =====
-- The Python objects that callers pass in: to `log`, as a config or a summary, as metadata. A mapping
-- is its items in order; `rich` is a `RichValue`, named by a number; `other` is any other object.
use epochdeck.Prelude.{ℕ, Bool, false, if◌then◌else◌}
use epochdeck.Prelude.Int.{ℤ}
use epochdeck.Text.{Text, text_eq}
use epochdeck.Json.{
  Value, null, bool, int, float, str, arr, obj, Items, no_items, item, Fields, no_fields, field,
}

-- A key of a mapping: a `str`, or something else.
pub data Key : Type 0 where
  text_key : Text → Key
  other_key : Key

mutual
  pub data Entries : Type 0 where
    no_entries : Entries
    entry : Key → Object → Entries → Entries

  pub data Objects : Type 0 where
    no_objects : Objects
    object : Object → Objects → Objects

  pub data Object : Type 0 where
    mapping : Entries → Object
    sequence : Objects → Object
    text : Text → Object
    boolean : Bool → Object
    integer : ℤ → Object
    number : ℕ → Object
    nothing : Object
    rich : ℕ → Object
    other : Object

-- The object that decoded JSON is.
unfoldable mutual
  pub of_value : Value → Object
  of_value null = nothing
  of_value (bool b) = boolean b
  of_value (int n) = integer n
  of_value (float x) = number x
  of_value (str s) = text s
  of_value (arr xs) = sequence (of_items xs)
  of_value (obj fs) = mapping (of_fields fs)

  pub of_items : Items → Objects
  of_items no_items = no_objects
  of_items (item v xs) = object (of_value v) (of_items xs)

  pub of_fields : Fields → Entries
  of_fields no_fields = no_entries
  of_fields (field k v fs) = entry (text_key k) (of_value v) (of_fields fs)

abbrev key_eq : Key → Key → Bool
key_eq (text_key s) (text_key t) = text_eq s t
key_eq k j = false

-- `d[key] = o`
unfoldable pub insert_entry : Key → Object → Entries → Entries
insert_entry k o no_entries = entry k o no_entries
insert_entry k o (entry j q es) =
    if key_eq k j then entry j o es else entry j q (insert_entry k o es)

-- `d.update(e)`
unfoldable pub update_entries : Entries → Entries → Entries
unfolding insert_entry
update_entries es no_entries = es
update_entries es (entry k o fs) = update_entries (insert_entry k o es) fs
