-- ===== src/Run/Flatten.antt =====
-- `_flatten_values` of python/src/epochdeck/_run.py: nested log data as one level of keys. The source keeps
-- a stack of iterators, which visits the entries in the order of this recursion.
pub mod Keys
use epochdeck.Prelude.{
  ℕ, zero, suc, ◌+◌, ◌≡◌, Bool, true, false, not, ◌&&◌, ◌||◌, Option, none, some, List, [], ◌∷◌,
  ◌++◌, ltb, leb, if◌then◌else◌, length,
}
use epochdeck.Prelude.Int.{ℤ, pos}
use epochdeck.Text.{Text, text_eq}
use epochdeck.Error.{value_error, type_error, Result, ok, err, ◌>>=◌, ◌>>◌, raise_if}
use epochdeck.Json.{is_finite, int, bool, float}
use epochdeck.Platform.{Platform}
use epochdeck.Metrics.{Floats, number_of}
use epochdeck.Python.{
  Key, text_key, other_key, Entries, no_entries, entry, Objects, no_objects, object, Object,
  mapping, sequence, text, boolean, integer, number, nothing, rich, other,
}
use epochdeck.Run.Documents.{validate_label}

abbrev pub max_log_value_depth : ℕ
max_log_value_depth = 64

abbrev pub max_log_value_nodes : ℕ
max_log_value_nodes = 65_536

abbrev pub max_values_per_log : ℕ
max_values_per_log = 256

-- The variables of the loop.
pub record Flattened : Type 0 where
  pub metrics : Floats
  pub rich_values : List (Text × ℕ)
  pub seen : List Text
  pub visited : ℕ

-- `f"{prefix}/{raw_key}" if prefix else raw_key`
abbrev pub joined : Text → Text → Text
joined [] raw_key = raw_key
joined (c ∷ prefix) raw_key = (c ∷ prefix) ++ (b'/' ∷ raw_key)

unfoldable pub is_seen : Text → List Text → Bool
is_seen key [] = false
is_seen key (k ∷ seen) = text_eq key k || is_seen key seen

-- `_reserve_flattened_key`
unfoldable pub reserve : Text → Flattened → Result Flattened
unfolding is_seen
reserve key s =
    if is_seen key s.seen then err value_error else ok (record s { seen = key ∷ s.seen })

module _ (p : Platform) (allow_rich : Bool) where
  -- A number under a key that is still free.
  unfoldable pub add_metric : Text → Result ℕ → Flattened → Result Flattened
  unfolding reserve
  add_metric key value s = do
    r ← reserve key s
    raise_if (leb max_values_per_log (length r.metrics)) value_error
    x ← value
    ok (record r { metrics = r.metrics ++ (key, x) ∷ [] })

  unfoldable pub add_rich : Text → ℕ → Flattened → Result Flattened
  unfolding reserve
  add_rich key value s = do
    raise_if (not allow_rich) type_error
    r ← reserve key s
    raise_if (leb max_values_per_log (length r.rich_values)) value_error
    ok (record r { rich_values = r.rich_values ++ (key, value) ∷ [] })

  -- The count of one more entry.
  unfoldable pub count_node : Flattened → Result Flattened
  count_node s = do
    raise_if (ltb max_log_value_nodes (suc s.visited)) value_error
    ok (record s { visited = suc s.visited })

  unfoldable mutual
    unfolding validate_label count_node add_metric add_rich

    pub flatten_entries : Text → ℕ → Entries → Flattened → Result Flattened
    flatten_entries prefix depth no_entries s = ok s
    flatten_entries prefix depth (entry other_key o es) s = count_node s >>= λ r. err type_error
    flatten_entries prefix depth (entry (text_key raw_key) o es) s = do
      r ← count_node s
      validate_label 256 (joined prefix raw_key)
      t ← flatten_object (joined prefix raw_key) depth o r
      flatten_entries prefix depth es t

    pub flatten_object : Text → ℕ → Object → Flattened → Result Flattened
    flatten_object key depth (mapping es) s = do
      raise_if (leb max_log_value_depth depth) value_error
      flatten_entries key (suc depth) es s
    flatten_object key depth (rich value) s = add_rich key value s
    flatten_object key depth (boolean b) s = add_metric key (number_of p (bool b)) s
    flatten_object key depth (integer n) s = add_metric key (number_of p (int n)) s
    flatten_object key depth (number x) s = add_metric key (number_of p (float x)) s
    flatten_object key depth (sequence os) s = err type_error
    flatten_object key depth (text t) s = err type_error
    flatten_object key depth nothing s = err type_error
    flatten_object key depth other s = err type_error

  unfoldable pub flatten_values : Object → Result Flattened
  flatten_values (mapping es) =
      flatten_entries [] 0 es (record { metrics = []; rich_values = []; seen = []; visited = 1 })
  flatten_values o = err type_error
