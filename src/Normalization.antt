-- ===== src/Normalization.antt =====
-- python/src/epochdeck/_json_normalization.py: a Python object as a JSON value within bounds on its depth,
-- its nodes and its encoded size. Paths, which only the messages hold, are left out.
pub mod Size
pub mod Measures
pub mod Steps
pub mod Bounds
use epochdeck.Prelude.{
  ℕ, zero, suc, ◌+◌, ◌-◌, ◌^◌, Bool, true, false, not, ◌&&◌, ◌||◌, Option, none, some, List, [],
  ◌∷◌, ltb, leb, if◌then◌else◌, length,
}
use epochdeck.Prelude.Int.{ℤ, pos, negsuc}
use epochdeck.Text.{Text}
use epochdeck.Text.Utf8.{utf8}
use epochdeck.Error.{value_error, type_error, Result, ok, err, ◌>>=◌, ◌>>◌, raise_if, or_raise}
use epochdeck.Json.{
  Value, null, bool, int, float, str, arr, obj, Items, no_items, item, Fields, no_fields, field,
  get, is_finite,
}
use epochdeck.Json.Dumps.{dumps}
use epochdeck.Platform.{Platform}
use epochdeck.Python.{
  Key, text_key, other_key, Entries, no_entries, entry, Objects, no_objects, object, Object,
  mapping, sequence, text, boolean, integer, number, nothing, rich, other,
}

abbrev pub max_safe_integer : ℕ
max_safe_integer = 2 ^ 53 - 1

-- `-MAX_SAFE_INTEGER <= value <= MAX_SAFE_INTEGER`.
abbrev pub is_safe_integer : ℤ → Bool
is_safe_integer (pos n) = leb n max_safe_integer
is_safe_integer (negsuc n) = leb (suc n) max_safe_integer

-- `_JsonBudget` without the count of nodes.
pub record Budget : Type 0 where
  pub maximum : ℕ
  pub maximum_depth : ℕ
  pub maximum_nodes : ℕ

-- `NormalizedJson`, of a value, of the values of a list or of the entries of a dict.
pub record Normalized (A : Type 0) : Type 0 where
  pub value : A
  pub size : ℕ
  pub nodes : ℕ

-- A list or a dict that has entries already.
abbrev pub comma {ℓ} : {A : Type ℓ} → List A → ℕ
comma [] = 0
comma (x ∷ xs) = 1

abbrev pub comma_fields : Fields → ℕ
comma_fields no_fields = 0
comma_fields (field k v fs) = 1

abbrev pub comma_items : Items → ℕ
comma_items no_items = 0
comma_items (item v xs) = 1

-- `normalized_list.append(item)`.
unfoldable pub append_item : Items → Value → Items
append_item no_items v = item v no_items
append_item (item w xs) v = item w (append_item xs v)

-- `normalized[key] = value` of a new key.
unfoldable pub append_field : Fields → Text → Value → Fields
append_field no_fields k v = field k v no_fields
append_field (field j w fs) k v = field j w (append_field fs k v)

abbrev is_some {ℓ} : {A : Type ℓ} → Option A → Bool
is_some none = false
is_some (some a) = true

module _ (p : Platform) (budget : Budget) where
  -- `validate_size`
  unfoldable pub validate_size : ℕ → Result (Unit {0})
  validate_size size = raise_if (ltb budget.maximum size) value_error

  -- `visit`: the count of nodes behind it.
  unfoldable pub visit : ℕ → ℕ → Result ℕ
  visit depth nodes = do
    raise_if (ltb budget.maximum_depth depth) value_error
    raise_if (ltb budget.maximum_nodes (suc nodes)) value_error
    ok (suc nodes)

  -- The first check of `_json_scalar_size`, for text only.
  abbrev check_text : Value → Result (Unit {0})
  check_text (str s) = elim (ltb budget.maximum (length s)) [
    | true ↦ validate_size (length s + 2)
    | false ↦ ok tt
  ]
  check_text v = ok tt

  -- `_json_scalar_size`
  unfoldable pub json_scalar_size : Value → Result ℕ
  json_scalar_size v = do
    check_text v
    encoded ← or_raise (utf8 (dumps p.float_repr false v)) value_error
    validate_size (length encoded)
    ok (length encoded)

  abbrev scalar : Value → ℕ → Result (Normalized Value)
  scalar v nodes =
      json_scalar_size v >>= λ size. ok (record { value = v; size = size; nodes = nodes })

  abbrev pub array_of : Normalized Items → Normalized Value
  array_of n = record { value = arr n.value; size = n.size; nodes = n.nodes }

  abbrev pub dict_of : Normalized Fields → Normalized Value
  dict_of n = record { value = obj n.value; size = n.size; nodes = n.nodes }

  -- `_normalize_json_value`; the counts are those before and behind.
  unfoldable mutual
    pub normalize_value : ℕ → Object → ℕ → Result (Normalized Value)
    normalize_value depth nothing nodes = visit depth nodes >>= λ n. scalar null n
    normalize_value depth (text s) nodes = visit depth nodes >>= λ n. scalar (str s) n
    normalize_value depth (boolean b) nodes = visit depth nodes >>= λ n. scalar (bool b) n
    normalize_value depth (integer i) nodes = do
      n ← visit depth nodes
      raise_if (not (is_safe_integer i)) value_error
      scalar (int i) n
    normalize_value depth (number x) nodes = do
      n ← visit depth nodes
      raise_if (not (is_finite x)) value_error
      scalar (float x) n
    normalize_value depth (mapping es) nodes = do
      n ← visit depth nodes
      r ← normalize_entries depth es (record { value = no_fields; size = 2; nodes = n })
      ok (dict_of r)
    normalize_value depth (sequence os) nodes = do
      n ← visit depth nodes
      r ← normalize_objects depth os (record { value = no_items; size = 2; nodes = n })
      ok (array_of r)
    normalize_value depth (rich r) nodes = visit depth nodes >>= λ n. err type_error
    normalize_value depth other nodes = visit depth nodes >>= λ n. err type_error

    pub normalize_entries : ℕ → Entries → Normalized Fields → Result (Normalized Fields)
    normalize_entries depth no_entries r = ok r
    normalize_entries depth (entry other_key o es) r = err type_error
    normalize_entries depth (entry (text_key key) o es) r = do
      raise_if (is_some (get key r.value)) value_error
      key_size ← json_scalar_size (str key)
      validate_size (r.size + (comma_fields r.value + key_size + 1))
      nested ← normalize_value (suc depth) o r.nodes
      validate_size (r.size + (comma_fields r.value + key_size + 1) + nested.size)
      normalize_entries depth es (record {
        value = append_field r.value key nested.value;
        size = r.size + (comma_fields r.value + key_size + 1) + nested.size;
        nodes = nested.nodes;
      })

    pub normalize_objects : ℕ → Objects → Normalized Items → Result (Normalized Items)
    normalize_objects depth no_objects r = ok r
    normalize_objects depth (object o os) r = do
      nested ← normalize_value (suc depth) o r.nodes
      validate_size (r.size + (comma_items r.value + nested.size))
      normalize_objects depth os (record {
        value = append_item r.value nested.value;
        size = r.size + (comma_items r.value + nested.size);
        nodes = nested.nodes;
      })

  -- `normalize_json_value_with_stats`
  unfoldable pub normalize_json_value_with_stats : Object → Result (Normalized Value)
  normalize_json_value_with_stats o = do r ← normalize_value 0 o 0; validate_size r.size; ok r

  unfoldable pub normalize_json_value : Object → Result Value
  unfolding normalize_json_value_with_stats
  normalize_json_value o = normalize_json_value_with_stats o >>= λ r. ok r.value

  -- `normalize_json_object`: a mapping is normalized to a dict.
  abbrev dict_in : Value → Result Fields
  dict_in (obj fs) = ok fs
  dict_in v = err type_error

  unfoldable pub normalize_json_object : Object → Result Fields
  unfolding normalize_json_value
  normalize_json_object (mapping es) = normalize_json_value (mapping es) >>= dict_in
  normalize_json_object o = err type_error
