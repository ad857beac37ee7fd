-- ===== src/Normalization/Steps.antt =====
-- One step of `_normalize_json_value`: what is known of a value once its parts are normalized.
use epochdeck.Prelude.{
  ℕ, suc, ◌+◌, ◌≤◌, ◌≡◌, ◌∙◌, refl, ap, sym, false, Option, none, some, arith, length,
}
use epochdeck.Text.{Text}
use epochdeck.Text.Utf8.{utf8}
use epochdeck.Text.Width.{length-utf8}
use epochdeck.Error.{Error, value_error, ok, or_raise, returned, ok_injective}
use epochdeck.Json.{Value, str, Items, no_items, Fields, no_fields}
use epochdeck.Json.Dumps.{dumps, dumps_items, dumps_fields}
use epochdeck.Platform.{Platform}
use epochdeck.Python.{
  text_key, Entries, no_entries, entry, Objects, no_objects, object, Object, mapping, sequence,
  of_value, of_fields, of_items,
}
use epochdeck.Normalization.{
  Budget, Normalized, append_item, append_field, validate_size, visit, json_scalar_size, scalar,
  check_text, array_of, dict_of, comma_items, comma_fields,
}
use epochdeck.Normalization.Size.{
  encoded_size, items_size, fields_size, encoded_size-arr, encoded_size-obj, items_size-append_item,
  fields_size-append_field,
}
use epochdeck.Normalization.Measures.{
  node_count, entry_count, object_count, height, entries_height, objects_height, join_entries,
  join_objects, of_fields-append_field, of_items-append_item, join_entries_end, join_objects_end,
}

or_raise-some : {A : Type 0} (o : Option A) (e : Error) (a : A) → or_raise o e ≡ ok a → o ≡ some a
or_raise-some none e a h = ground arith
or_raise-some (some b) e a h = ap some (ok_injective b a h)

module _ (p : Platform) (budget : Budget) where
  pub visit_lem :
      (depth nodes n : ℕ)
      → visit p budget depth nodes ≡ ok n
      → (n ≡ suc nodes) × (n ≤ budget.maximum_nodes) × (depth ≤ budget.maximum_depth)
  unfolding visit
  visit_lem depth nodes n h = ground arith

  pub json_scalar_size_lem :
      (v : Value) (size : ℕ) → json_scalar_size p budget v ≡ ok size → size ≡ encoded_size p v
  unfolding json_scalar_size encoded_size
  json_scalar_size_lem v size h =
      let (u, checked, rest) = returned (check_text p budget v) _ h in
      let (b, encodes, more) =
        returned (or_raise (utf8 (dumps p.float_repr false v)) value_error) _ rest in
      let (w, fits, done) =
        returned (validate_size p budget (length b)) (λ w. ok (length b)) more in
      sym (ok_injective (length b) size done)
      ∙ length-utf8 (dumps p.float_repr false v) b
          (or_raise-some (utf8 (dumps p.float_repr false v)) value_error b encodes)

  pub scalar_lem :
      (v : Value) (n : ℕ) (r : Normalized Value)
      → scalar p budget v n ≡ ok r
      → (r.value ≡ v) × (r.size ≡ encoded_size p v) × (r.nodes ≡ n)
  scalar_lem v n r h =
      let (size, counts, made) = returned (json_scalar_size p budget v) _ h in
      let same : r ≡ record { value = v; size = size; nodes = n } =
        sym (ok_injective (record { value = v; size = size; nodes = n }) r made) in
      (
        ap (λ r. r.value) same,
        ap (λ r. r.size) same ∙ json_scalar_size_lem v size counts,
        ap (λ r. r.nodes) same,
      )

  pub record Accepted (depth : ℕ) (o : Object) (nodes : ℕ) (r : Normalized Value) : Type 0 where
    pub same : of_value r.value ≡ o
    pub size : r.size ≡ encoded_size p r.value
    pub counted : r.nodes ≡ nodes + node_count o
    pub within : r.nodes ≤ budget.maximum_nodes
    pub shallow : depth + height o ≤ budget.maximum_depth

  pub record AcceptedEntries (depth : ℕ) (es : Entries) (r s : Normalized Fields) : Type 0 where
    pub same : of_fields s.value ≡ join_entries (of_fields r.value) es
    pub size : r.size ≡ 2 + fields_size p r.value → s.size ≡ 2 + fields_size p s.value
    pub counted : s.nodes ≡ r.nodes + entry_count es
    pub within : r.nodes ≤ budget.maximum_nodes → s.nodes ≤ budget.maximum_nodes
    pub shallow : depth ≤ budget.maximum_depth → depth + entries_height es ≤ budget.maximum_depth

  pub record AcceptedObjects (depth : ℕ) (os : Objects) (r s : Normalized Items) : Type 0 where
    pub same : of_items s.value ≡ join_objects (of_items r.value) os
    pub size : r.size ≡ 2 + items_size p r.value → s.size ≡ 2 + items_size p s.value
    pub counted : s.nodes ≡ r.nodes + object_count os
    pub within : r.nodes ≤ budget.maximum_nodes → s.nodes ≤ budget.maximum_nodes
    pub shallow : depth ≤ budget.maximum_depth → depth + objects_height os ≤ budget.maximum_depth

  pub scalar-Accepted :
      (depth nodes n : ℕ) (o : Object) (v : Value) (r : Normalized Value)
      → of_value v ≡ o
      → node_count o ≡ 1
      → height o ≡ 0
      → visit p budget depth nodes ≡ ok n
      → scalar p budget v n ≡ ok r
      → Accepted depth o nodes r
  scalar-Accepted depth nodes n o v r same one flat visited made =
      let (value, size, behind) = scalar_lem v n r made in
      let (count, within, shallow) = visit_lem depth nodes n visited in
      record {
        same = ap of_value value ∙ same;
        size = size ∙ ap (encoded_size p) (sym value);
        counted = omega (arith, behind, count);
        within = omega (arith, behind);
        shallow = omega (arith, flat);
      }

  pub mapping-Accepted :
      (depth : ℕ) (es : Entries) (nodes n : ℕ) (r : Normalized Value) (s : Normalized Fields)
      → visit p budget depth nodes ≡ ok n
      → AcceptedEntries depth es (record { value = no_fields; size = 2; nodes = n }) s
      → r ≡ dict_of p budget s
      → Accepted depth (mapping es) nodes r
  unfolding of_value of_fields join_entries node_count height fields_size dumps_fields
  mapping-Accepted depth es nodes n r s visited inside made =
      let (count, within, shallow) = visit_lem depth nodes n visited in
      record {
        same = ap (λ r. of_value r.value) made ∙ ap mapping inside.same;
        size =
            ap (λ r. r.size) made
            ∙ inside.size refl
            ∙ sym (encoded_size-obj p s.value)
            ∙ ap (λ r. encoded_size p r.value) (sym made);
        counted = omega (arith, ap (λ (r : Normalized Value). r.nodes) made, inside.counted, count);
        within = omega (arith, ap (λ (r : Normalized Value). r.nodes) made, inside.within within);
        shallow = inside.shallow shallow;
      }

  pub sequence-Accepted :
      (depth : ℕ) (os : Objects) (nodes n : ℕ) (r : Normalized Value) (s : Normalized Items)
      → visit p budget depth nodes ≡ ok n
      → AcceptedObjects depth os (record { value = no_items; size = 2; nodes = n }) s
      → r ≡ array_of p budget s
      → Accepted depth (sequence os) nodes r
  unfolding of_value of_items join_objects node_count height items_size dumps_items
  sequence-Accepted depth os nodes n r s visited inside made =
      let (count, within, shallow) = visit_lem depth nodes n visited in
      record {
        same = ap (λ r. of_value r.value) made ∙ ap sequence inside.same;
        size =
            ap (λ r. r.size) made
            ∙ inside.size refl
            ∙ sym (encoded_size-arr p s.value)
            ∙ ap (λ r. encoded_size p r.value) (sym made);
        counted = omega (arith, ap (λ (r : Normalized Value). r.nodes) made, inside.counted, count);
        within = omega (arith, ap (λ (r : Normalized Value). r.nodes) made, inside.within within);
        shallow = inside.shallow shallow;
      }

  pub entries-Accepted_end :
      (depth : ℕ) (r s : Normalized Fields) → s ≡ r → AcceptedEntries depth no_entries r s
  unfolding entry_count entries_height
  entries-Accepted_end depth r s same = record {
    same = ap (λ r. of_fields r.value) same ∙ sym (join_entries_end (of_fields r.value));
    size = λ h. ap (λ r. r.size) same ∙ h ∙ ap (λ r. 2 + fields_size p r.value) (sym same);
    counted = omega (arith, ap (λ (r : Normalized Fields). r.nodes) same);
    within = λ h. omega (arith, ap (λ (r : Normalized Fields). r.nodes) same);
    shallow = λ h. omega arith;
  }

  pub objects-Accepted_end :
      (depth : ℕ) (r s : Normalized Items) → s ≡ r → AcceptedObjects depth no_objects r s
  unfolding object_count objects_height
  objects-Accepted_end depth r s same = record {
    same = ap (λ r. of_items r.value) same ∙ sym (join_objects_end (of_items r.value));
    size = λ h. ap (λ r. r.size) same ∙ h ∙ ap (λ r. 2 + items_size p r.value) (sym same);
    counted = omega (arith, ap (λ (r : Normalized Items). r.nodes) same);
    within = λ h. omega (arith, ap (λ (r : Normalized Items). r.nodes) same);
    shallow = λ h. omega arith;
  }

  abbrev pub with_entry : Text → ℕ → Normalized Fields → Normalized Value → Normalized Fields
  with_entry k key_size r nested = record {
    value = append_field r.value k nested.value;
    size = r.size + (comma_fields r.value + key_size + 1) + nested.size;
    nodes = nested.nodes;
  }

  abbrev pub with_item : Normalized Items → Normalized Value → Normalized Items
  with_item r nested = record {
    value = append_item r.value nested.value;
    size = r.size + (comma_items r.value + nested.size);
    nodes = nested.nodes;
  }

  pub next_entry-Accepted :
      (depth : ℕ) (k : Text) (o : Object) (es : Entries) (key_size : ℕ) (r s : Normalized Fields)
      (nested : Normalized Value)
      → key_size ≡ encoded_size p (str k)
      → Accepted (suc depth) o r.nodes nested
      → AcceptedEntries depth es (with_entry k key_size r nested) s
      → AcceptedEntries depth (entry (text_key k) o es) r s
  unfolding entry_count entries_height
  next_entry-Accepted depth k o es key_size r s nested key inner later = record {
    same =
        later.same
        ∙ of_fields-append_field r.value k nested.value es
        ∙ ap (λ o. join_entries (of_fields r.value) (entry (text_key k) o es)) inner.same;
    size = λ h.
        later.size
          (omega (arith, h, key, inner.size, fields_size-append_field p r.value k nested.value));
    counted = omega (arith, later.counted, inner.counted);
    within = λ h. later.within inner.within;
    shallow = λ h. omega (arith, later.shallow h, inner.shallow);
  }

  pub next_object-Accepted :
      (depth : ℕ) (o : Object) (os : Objects) (r s : Normalized Items) (nested : Normalized Value)
      → Accepted (suc depth) o r.nodes nested
      → AcceptedObjects depth os (with_item r nested) s
      → AcceptedObjects depth (object o os) r s
  unfolding object_count objects_height
  next_object-Accepted depth o os r s nested inner later = record {
    same =
        later.same
        ∙ of_items-append_item r.value nested.value os
        ∙ ap (λ o. join_objects (of_items r.value) (object o os)) inner.same;
    size = λ h.
        later.size (omega (arith, h, inner.size, items_size-append_item p r.value nested.value));
    counted = omega (arith, later.counted, inner.counted);
    within = λ h. later.within inner.within;
    shallow = λ h. omega (arith, later.shallow h, inner.shallow);
  }
