-- ===== src/Normalization/Measures.antt =====
-- The nodes and the levels of an object, and how a dict or a list grows by one entry.
use epochdeck.Prelude.{ℕ, suc, ◌+◌, ◌≡◌, refl, ap, max}
use epochdeck.Text.{Text}
use epochdeck.Json.{Value, Items, no_items, item, Fields, no_fields, field}
use epochdeck.Python.{
  text_key, Entries, no_entries, entry, Objects, no_objects, object, Object, mapping, sequence,
  of_value, of_fields, of_items,
}
use epochdeck.Normalization.{append_item, append_field}

unfoldable mutual
  -- How many nodes an object has, and how many levels lie below it.
  pub node_count : Object → ℕ
  node_count (mapping es) = suc (entry_count es)
  node_count (sequence os) = suc (object_count os)
  node_count o = 1

  pub entry_count : Entries → ℕ
  entry_count no_entries = 0
  entry_count (entry k o es) = node_count o + entry_count es

  pub object_count : Objects → ℕ
  object_count no_objects = 0
  object_count (object o os) = node_count o + object_count os

unfoldable mutual
  pub height : Object → ℕ
  height (mapping es) = entries_height es
  height (sequence os) = objects_height os
  height o = 0

  pub entries_height : Entries → ℕ
  entries_height no_entries = 0
  entries_height (entry k o es) = max (suc (height o)) (entries_height es)

  pub objects_height : Objects → ℕ
  objects_height no_objects = 0
  objects_height (object o os) = max (suc (height o)) (objects_height os)

unfoldable pub join_entries : Entries → Entries → Entries
join_entries no_entries es = es
join_entries (entry k o fs) es = entry k o (join_entries fs es)

unfoldable pub join_objects : Objects → Objects → Objects
join_objects no_objects os = os
join_objects (object o ps) os = object o (join_objects ps os)

pub of_fields-append_field :
    (fs : Fields) (k : Text) (v : Value) (es : Entries)
    → join_entries (of_fields (append_field fs k v)) es
      ≡ join_entries (of_fields fs) (entry (text_key k) (of_value v) es)
unfolding append_field of_fields join_entries
of_fields-append_field no_fields k v es = refl
of_fields-append_field (field j w fs) k v es =
    ap (entry (text_key j) (of_value w)) (of_fields-append_field fs k v es)

pub of_items-append_item :
    (xs : Items) (v : Value) (os : Objects)
    → join_objects (of_items (append_item xs v)) os
      ≡ join_objects (of_items xs) (object (of_value v) os)
unfolding append_item of_items join_objects
of_items-append_item no_items v os = refl
of_items-append_item (item w xs) v os = ap (object (of_value w)) (of_items-append_item xs v os)

pub join_entries_end : (es : Entries) → join_entries es no_entries ≡ es
unfolding join_entries
join_entries_end no_entries = refl
join_entries_end (entry k o es) = ap (entry k o) (join_entries_end es)

pub join_objects_end : (os : Objects) → join_objects os no_objects ≡ os
unfolding join_objects
join_objects_end no_objects = refl
join_objects_end (object o os) = ap (object o) (join_objects_end os)
