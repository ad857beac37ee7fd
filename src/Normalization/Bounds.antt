-- ===== src/Normalization/Bounds.antt =====
-- What a normalized value is: the object itself, within the bounds.
use epochdeck.Prelude.{ℕ, suc, ◌+◌, ◌≤◌, ◌≡◌, ◌∙◌, refl, ap, sym, not, arith, ltb}
use epochdeck.Error.{value_error, type_error, ok, err, raise_if, returned, ok_injective}
use epochdeck.Json.{
  Value, is_finite, null, bool, int, float, str, Items, no_items, Fields, no_fields, get,
}
use epochdeck.Platform.{Platform}
use epochdeck.Python.{
  text_key, other_key, Entries, no_entries, entry, Objects, no_objects, object, Object, mapping,
  sequence, text, boolean, integer, number, nothing, rich, other, of_value, of_fields, of_items,
}
use epochdeck.Normalization.{
  is_safe_integer, Budget, Normalized, validate_size, visit, json_scalar_size, normalize_value,
  normalize_entries, normalize_objects, normalize_json_value_with_stats, scalar, array_of, dict_of,
  comma_items, comma_fields, is_some,
}
use epochdeck.Normalization.Size.{encoded_size}
use epochdeck.Normalization.Measures.{
  node_count, entry_count, object_count, height, entries_height, objects_height,
}
use epochdeck.Normalization.Steps.{
  Accepted, AcceptedEntries, AcceptedObjects, scalar-Accepted, mapping-Accepted, sequence-Accepted,
  entries-Accepted_end, objects-Accepted_end, next_entry-Accepted, next_object-Accepted,
  json_scalar_size_lem, with_entry, with_item,
}

within_maximum :
    (size maximum : ℕ) → raise_if (ltb maximum size) value_error ≡ ok tt → size ≤ maximum
within_maximum size maximum h = ground arith

module _ (p : Platform) (budget : Budget) where
  mutual
    unfolding normalize_value normalize_entries normalize_objects of_value of_items of_fields
        node_count entry_count object_count height entries_height objects_height

    value-Accepted :
        (depth : ℕ) (o : Object) (nodes : ℕ) (r : Normalized Value)
        → normalize_value p budget depth o nodes ≡ ok r
        → Accepted p budget depth o nodes r
    value-Accepted depth nothing nodes r h =
        let (n, visited, made) = returned (visit p budget depth nodes) _ h in
        scalar-Accepted p budget depth nodes n nothing null r refl refl refl visited made
    value-Accepted depth (text s) nodes r h =
        let (n, visited, made) = returned (visit p budget depth nodes) _ h in
        scalar-Accepted p budget depth nodes n (text s) (str s) r refl refl refl visited made
    value-Accepted depth (boolean b) nodes r h =
        let (n, visited, made) = returned (visit p budget depth nodes) _ h in
        scalar-Accepted p budget depth nodes n (boolean b) (bool b) r refl refl refl visited made
    value-Accepted depth (integer i) nodes r h =
        let (n, visited, rest) = returned (visit p budget depth nodes) _ h in
        let (u, safe, made) =
          returned (raise_if (not (is_safe_integer i)) value_error) (λ u. scalar p budget (int i) n)
            rest in
        scalar-Accepted p budget depth nodes n (integer i) (int i) r refl refl refl visited made
    value-Accepted depth (number x) nodes r h =
        let (n, visited, rest) = returned (visit p budget depth nodes) _ h in
        let (u, finite, made) =
          returned (raise_if (not (is_finite x)) value_error) (λ u. scalar p budget (float x) n)
            rest in
        scalar-Accepted p budget depth nodes n (number x) (float x) r refl refl refl visited made
    value-Accepted depth (mapping es) nodes r h =
        let (n, visited, rest) = returned (visit p budget depth nodes) _ h in
        let start : Normalized Fields = record { value = no_fields; size = 2; nodes = n } in
        let (s, entries, made) = returned (normalize_entries p budget depth es start) _ rest in
        mapping-Accepted p budget depth es nodes n r s visited
          (entries-Accepted depth es start s entries)
          (sym (ok_injective (dict_of p budget s) r made))
    value-Accepted depth (sequence os) nodes r h =
        let (n, visited, rest) = returned (visit p budget depth nodes) _ h in
        let start : Normalized Items = record { value = no_items; size = 2; nodes = n } in
        let (s, objects, made) = returned (normalize_objects p budget depth os start) _ rest in
        sequence-Accepted p budget depth os nodes n r s visited
          (objects-Accepted depth os start s objects)
          (sym (ok_injective (array_of p budget s) r made))
    value-Accepted depth (rich i) nodes r h =
        let (n, visited, raised) = returned (visit p budget depth nodes) (λ n. err type_error) h in
        ground arith
    value-Accepted depth other nodes r h =
        let (n, visited, raised) = returned (visit p budget depth nodes) (λ n. err type_error) h in
        ground arith

    entries-Accepted :
        (depth : ℕ) (es : Entries) (r s : Normalized Fields)
        → normalize_entries p budget depth es r ≡ ok s
        → AcceptedEntries p budget depth es r s
    entries-Accepted depth no_entries r s h =
        entries-Accepted_end p budget depth r s (sym (ok_injective r s h))
    entries-Accepted depth (entry other_key o es) r s h = ground arith
    entries-Accepted depth (entry (text_key k) o es) r s h =
        let (u1, fresh, h1) =
          returned (raise_if (is_some (get k r.value)) value_error) (λ u. _) h in
        let (key_size, sized, h2) = returned (json_scalar_size p budget (str k)) _ h1 in
        let (u2, fits, h3) =
          returned (validate_size p budget (r.size + (comma_fields r.value + key_size + 1)))
            (λ u. _) h2 in
        let (nested, inner, h4) = returned (normalize_value p budget (suc depth) o r.nodes) _ h3 in
        let (u3, fitted, h5) =
          returned
            (validate_size p budget (r.size + (comma_fields r.value + key_size + 1) + nested.size))
            (λ u. _) h4 in
        next_entry-Accepted p budget depth k o es key_size r s nested
          (json_scalar_size_lem p budget (str k) key_size sized)
          (value-Accepted (suc depth) o r.nodes nested inner)
          (entries-Accepted depth es (with_entry p budget k key_size r nested) s h5)

    objects-Accepted :
        (depth : ℕ) (os : Objects) (r s : Normalized Items)
        → normalize_objects p budget depth os r ≡ ok s
        → AcceptedObjects p budget depth os r s
    objects-Accepted depth no_objects r s h =
        objects-Accepted_end p budget depth r s (sym (ok_injective r s h))
    objects-Accepted depth (object o os) r s h =
        let (nested, inner, h1) = returned (normalize_value p budget (suc depth) o r.nodes) _ h in
        let (u, fitted, h2) =
          returned (validate_size p budget (r.size + (comma_items r.value + nested.size))) (λ u. _)
            h1 in
        next_object-Accepted p budget depth o os r s nested
          (value-Accepted (suc depth) o r.nodes nested inner)
          (objects-Accepted depth os (with_item p budget r nested) s h2)

  -- A value that is accepted is the object itself; the size is the length of its encoding in UTF-8, the
  -- nodes are its nodes, and depth, nodes and size are within the bounds.
  pub normalize_json_value_with_stats_lem :
      (o : Object) (r : Normalized Value)
      → normalize_json_value_with_stats p budget o ≡ ok r
      → (of_value r.value ≡ o)
        × (r.size ≡ encoded_size p r.value)
        × (r.size ≤ budget.maximum)
        × (r.nodes ≡ node_count o)
        × (node_count o ≤ budget.maximum_nodes)
        × (height o ≤ budget.maximum_depth)
  unfolding normalize_json_value_with_stats validate_size
  normalize_json_value_with_stats_lem o r h =
      let (s, made, rest) = returned (normalize_value p budget 0 o 0) _ h in
      let (u, fits, same) =
        returned (raise_if (ltb budget.maximum s.size) value_error) (λ u. ok s) rest in
      let a : Accepted p budget 0 o 0 s = value-Accepted 0 o 0 s made in
      let e : s ≡ r = ok_injective s r same in
      let size : s.size ≡ r.size = ap (λ (r : Normalized Value). r.size) e in
      let nodes : s.nodes ≡ r.nodes = ap (λ (r : Normalized Value). r.nodes) e in
      let bound : s.size ≤ budget.maximum = within_maximum s.size budget.maximum fits in
      (
        ap (λ r. of_value r.value) (sym e) ∙ a.same,
        sym size ∙ a.size ∙ ap (λ r. encoded_size p r.value) e,
        omega (arith, size, bound),
        omega (arith, nodes, a.counted),
        omega (arith, a.counted, a.within),
        omega (arith, a.shallow),
      )
