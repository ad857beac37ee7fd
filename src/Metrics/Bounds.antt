-- ===== src/Metrics/Bounds.antt =====
-- What is accepted as a metric point.
use epochdeck.Prelude.{
  ℕ, suc, ◌+◌, ◌≤◌, ◌≡◌, ◌∙◌, refl, ap, sym, true, false, none, some, Option, Bool, Bool-cases, ltb,
  ◌||◌, ◌==◌, inl, inr, subst, [], ◌∷◌, arith, length, All, if◌then◌else◌,
}
use epochdeck.Prelude.Int.{pos}
use epochdeck.Text.{Text, text_eq}
use epochdeck.Error.{value_error, raise_if, ok, err, returned, ◌>>=◌}
use epochdeck.Json.{
  Value, null, bool, int, float, str, arr, obj, Fields, no_fields, field, is_finite,
}
use epochdeck.Platform.{Platform}
use epochdeck.Metrics.{
  Floats, set_float, checked_number, check_key, number_of, normalize_each, fields_length,
  normalize_metrics, max_metrics_per_point,
}

-- A key that passes the checks, with a finite number.
abbrev pub IsMetric : Text × ℕ → Type 0
IsMetric (key, x) = (check_key key ≡ ok tt) × (is_finite x ≡ true)

length-set_float : (k : Text) (x : ℕ) (m : Floats) → length (set_float k x m) ≤ suc (length m)
unfolding set_float
length-set_float k x [] = ground arith
length-set_float k x ((j, y) ∷ m) = ground (arith, length-set_float k x m)

set_float-IsMetric :
    (k : Text) (x : ℕ) (m : Floats)
    → IsMetric (k, x)
    → All IsMetric m
    → All IsMetric (set_float k x m)
unfolding set_float
set_float-IsMetric k x [] h hs = (h, tt)
set_float-IsMetric k x ((j, y) ∷ m) h hs = elim (Bool-cases (text_eq k j)) [
  | inl same ↦ rw same ((hs.0.0, h.1), hs.1)
  | inr other ↦ rw other (hs.0, set_float-IsMetric k x m h hs.1)
]

accepted :
    (b : Bool) (y x : ℕ) → (if b then ok y else err value_error) ≡ ok x → (b ≡ true) × (y ≡ x)
accepted true y x h = (refl, ground arith)
accepted false y x h = ground arith

same_result : (m n : Floats) → ok m ≡ ok n → m ≡ n
same_result m n h = ground arith

checked_number-is_finite : (o : Option ℕ) (x : ℕ) → checked_number o ≡ ok x → is_finite x ≡ true
checked_number-is_finite none x h = ground arith
checked_number-is_finite (some y) x h =
    let (finite, same) = accepted (is_finite y) y x h in ap is_finite (sym same) ∙ finite

point_size :
    (n : ℕ)
    → raise_if (n == 0 || ltb max_metrics_per_point n) value_error ≡ ok tt
    → n ≤ max_metrics_per_point
point_size n h = ground arith

module _ (p : Platform) where
  number_of-is_finite : (v : Value) (x : ℕ) → number_of p v ≡ ok x → is_finite x ≡ true
  unfolding number_of
  number_of-is_finite (bool true) x h = checked_number-is_finite (p.float_of_int (pos 1)) x h
  number_of-is_finite (bool false) x h = checked_number-is_finite (p.float_of_int (pos 0)) x h
  number_of-is_finite (int n) x h = checked_number-is_finite (p.float_of_int n) x h
  number_of-is_finite (float y) x h = checked_number-is_finite (some y) x h
  number_of-is_finite null x h = ground arith
  number_of-is_finite (str s) x h = ground arith
  number_of-is_finite (arr xs) x h = ground arith
  number_of-is_finite (obj fs) x h = ground arith

  normalize_each-Bounds :
      (fs : Fields) (m n : Floats)
      → All IsMetric m
      → normalize_each p fs m ≡ ok n
      → All IsMetric n × (length n ≤ fields_length p fs + length m)
  unfolding normalize_each
  normalize_each-Bounds no_fields m n hs h =
      let same : m ≡ n = same_result m n h in
      (subst (All IsMetric) same hs, omega (arith, ap length same))
  normalize_each-Bounds (field k v fs) m n hs h =
      let (u, key, rest) =
        returned (check_key k) (λ u. number_of p v >>= λ x. normalize_each p fs (set_float k x m))
          h in
      let (x, number, more) =
        returned (number_of p v) (λ x. normalize_each p fs (set_float k x m)) rest in
      let (metrics, bound) =
        normalize_each-Bounds fs (set_float k x m) n
          (set_float-IsMetric k x m (key, number_of-is_finite v x number) hs) more in
      (metrics, omega (arith, length-set_float k x m))

  -- An accepted metric point has at most 256 metrics; each has a key that passes the checks and a
  -- finite number.
  pub normalize_metrics-Bounds :
      (fs : Fields) (m : Floats)
      → normalize_metrics p fs ≡ ok m
      → All IsMetric m × (length m ≤ max_metrics_per_point)
  unfolding normalize_metrics
  normalize_metrics-Bounds fs m h =
      let (u, small, each) =
        returned
          (raise_if (fields_length p fs == 0 || ltb max_metrics_per_point (fields_length p fs))
            value_error)
          (λ u. normalize_each p fs []) h in
      let (metrics, bound) = normalize_each-Bounds fs [] m tt each in
      (metrics, omega (arith, bound, point_size (fields_length p fs) small))
