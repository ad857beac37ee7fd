-- ===== src/Json.antt =====
-- The JSON values that Python code handles, and `json.dumps` with `separators=(",", ":")` and
-- `sort_keys=True` (python/src/epochdeck/_protocol.py, _spool.py, _wandb_state.py).
-- A float is its 64-bit pattern. A `dict` is its entries in insertion order.
pub mod Dumps
use epochdeck.Prelude.{
  ℕ, ◌/◌, ◌%◌, ◌^◌, ◌≡◌, refl, Bool, true, false, ◌&&◌, not, Option, none, some, List, [], ◌∷◌,
  arith, ◌==◌, if◌then◌else◌,
}
use epochdeck.Prelude.Int.{ℤ}
use epochdeck.Text.{Text, text_eq, text_eq_iff}

mutual
  pub data Fields : Type 0 where
    no_fields : Fields
    field : Text → Value → Fields → Fields

  pub data Items : Type 0 where
    no_items : Items
    item : Value → Items → Items

  pub data Value : Type 0 where
    obj : Fields → Value
    arr : Items → Value
    str : Text → Value
    bool : Bool → Value
    int : ℤ → Value
    float : ℕ → Value
    null : Value

-- A list of values, as a JSON array.
abbrev pub items_of : List Value → Items
items_of [] = no_items
items_of (v ∷ vs) = item v (items_of vs)

-- `d.get(key)`.
unfoldable pub get : Text → Fields → Option Value
get k no_fields = none
get k (field j v fs) = if text_eq k j then some v else get k fs

-- `d[key] = v`: an entry that is there keeps its place.
unfoldable pub insert : Text → Value → Fields → Fields
insert k v no_fields = field k v no_fields
insert k v (field j w fs) = if text_eq k j then field j v fs else field j w (insert k v fs)

-- `d.update(e)`.
unfoldable pub update : Fields → Fields → Fields
unfolding insert
update fs no_fields = fs
update fs (field k v gs) = update (insert k v fs) gs

-- `d.pop(key, None)`: what is left of the dict.
unfoldable pub without : Text → Fields → Fields
without k no_fields = no_fields
without k (field j v fs) = if text_eq k j then fs else field j v (without k fs)

pub get-insert :
    (k j : Text) (v : Value) (fs : Fields)
    → get j (insert k v fs) ≡ (if text_eq j k then some v else get j fs)
unfolding get insert
get-insert k j v no_fields = refl
get-insert k j v (field i w fs) =
    ground (arith, get-insert k j v fs, text_eq_iff k i, text_eq_iff j i, text_eq_iff j k)

-- `math.isfinite(x)`: the exponent field of the pattern is not all ones.
abbrev pub is_finite : ℕ → Bool
is_finite x = not (x / 2 ^ 52 % 2048 == 2047)

-- `allow_nan=False` accepts the value: no float in it is an infinity or a NaN.
unfoldable mutual
  pub all_finite : Value → Bool
  all_finite null = true
  all_finite (bool b) = true
  all_finite (int n) = true
  all_finite (float x) = is_finite x
  all_finite (str s) = true
  all_finite (arr xs) = all_finite_items xs
  all_finite (obj fs) = all_finite_fields fs

  pub all_finite_items : Items → Bool
  all_finite_items no_items = true
  all_finite_items (item v xs) = all_finite v && all_finite_items xs

  pub all_finite_fields : Fields → Bool
  all_finite_fields no_fields = true
  all_finite_fields (field k v fs) = all_finite v && all_finite_fields fs
