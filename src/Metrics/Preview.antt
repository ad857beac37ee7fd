-- ===== src/Metrics/Preview.antt =====
-- The preview that is kept while a run logs is the preview of everything that was logged.
use epochdeck.Prelude.{
  ℕ, zero, suc, ◌≡◌, ◌∙◌, refl, ap, sym, Bool, true, false, List, [], ◌∷◌, arith, take, Bool-cases,
  inl, inr,
}
use epochdeck.Text.{Text, codes, text_eq, text_eq_iff}
use epochdeck.Text.Order.{text_lt_trans, text_lt_asym, text_lt_total}
use epochdeck.Metrics.Sorted.{sorted-Ascending, take-Ascending, sorted-same}
use epochdeck.Metrics.{
  preview_points, Floats, set_float, put, sorted, add_metrics, starts_with, merge_metric_preview,
  max_derived_summary_keys,
}

take-take-suc : {A : Type 0} (n : ℕ) (m : List A) → take n (take (suc n) m) ≡ take n m
take-take-suc zero m = refl
take-take-suc (suc n) [] = refl
take-take-suc (suc n) (a ∷ m) = ap (λ l. a ∷ l) (take-take-suc n m)

take-cons_take : {A : Type 0} (n : ℕ) (a : A) (m : List A) → take n (a ∷ take n m) ≡ take n (a ∷ m)
take-cons_take zero a m = refl
take-cons_take (suc n) a m = ap (λ l. a ∷ l) (take-take-suc n m)

take-take_same : {A : Type 0} (n : ℕ) (m : List A) → take n (take n m) ≡ take n m
take-take_same zero m = refl
take-take_same (suc n) [] = refl
take-take_same (suc n) (a ∷ m) = ap (λ l. a ∷ l) (take-take_same n m)

-- What does not fit the window does not come back into it.
take-put :
    (n : ℕ) (k : Text) (x : ℕ) (m : Floats) → take n (put k x (take n m)) ≡ take n (put k x m)
unfolding put
take-put zero k x m = refl
take-put (suc n) k x [] = refl
take-put (suc n) k x ((j, y) ∷ m) =
    ground (arith, take-put n k x m, take-cons_take n (j, y) m, take-take_same n m)

put-put_same :
    (k j : Text) (x y : ℕ) (m : Floats) → text_eq k j ≡ true → put k x (put j y m) ≡ put j x m
unfolding put
put-put_same k j x y [] same = ground (arith, text_eq_iff k j)
put-put_same k j x y ((i, z) ∷ m) same = ground (arith, text_eq_iff k j, put-put_same k j x y m)

put-put_other :
    (k j : Text) (x y : ℕ) (m : Floats)
    → text_eq k j ≡ false
    → put k x (put j y m) ≡ put j y (put k x m)
unfolding put
put-put_other k j x y [] other =
    ground (arith, text_eq_iff k j, text_eq_iff j k, text_lt_asym k j, text_lt_total k j)
put-put_other k j x y ((i, z) ∷ m) other = ground (
  arith,
  text_eq_iff k j,
  text_eq_iff j k,
  text_eq_iff k i,
  text_eq_iff j i,
  text_eq_iff i i,
  text_lt_asym k j,
  text_lt_total k j,
  text_lt_total k i,
  text_lt_total j i,
  text_lt_trans k i j,
  text_lt_trans j i k,
  put-put_other k j x y m other,
)

sorted-set_float : (k : Text) (x : ℕ) (m : Floats) → sorted (set_float k x m) ≡ put k x (sorted m)
unfolding sorted set_float
sorted-set_float k x [] = refl
sorted-set_float k x ((j, y) ∷ m) = elim (Bool-cases (text_eq k j)) [
  | inl same ↦ rw same (sym (put-put_same k j x y (sorted m) same))
  | inr other ↦ rw (other, sorted-set_float k x m) (sym (put-put_other k j x y (sorted m) other))
]

-- Two dicts with the same first n keys, in order, and the same values for them.
abbrev pub Alike : ℕ → Floats → Floats → Type 0
Alike n c f = take n (sorted c) ≡ take n (sorted f)

set_float-Alike :
    (n : ℕ) (k : Text) (x : ℕ) (c f : Floats)
    → Alike n c f
    → Alike n (set_float k x c) (set_float k x f)
set_float-Alike n k x c f alike =
    rw (sorted-set_float k x c, sorted-set_float k x f)
      (sym (take-put n k x (sorted c))
        ∙ ap (λ m. take n (put k x m)) alike
        ∙ take-put n k x (sorted f))

add_metrics-Alike :
    (n : ℕ) (c f metrics : Floats)
    → Alike n c f
    → Alike n (add_metrics c metrics) (add_metrics f metrics)
unfolding add_metrics
add_metrics-Alike n c f [] alike = alike
add_metrics-Alike n c f ((k, x) ∷ metrics) alike =
    elim (Bool-cases (starts_with (codes "system/") k)) [
      | inl system ↦ rw system (add_metrics-Alike n c f metrics alike)
      | inr user ↦ rw user (
          add_metrics-Alike n (set_float k x c) (set_float k x f) metrics
            (set_float-Alike n k x c f alike))
    ]

-- The dict that no window would have cut.
unfoldable pub everything : Floats → List Floats → Floats
everything f [] = f
everything f (metrics ∷ points) = everything (add_metrics f metrics) points

-- The first keys of a dict, in order.
abbrev pub window : Floats → Floats
window f = take max_derived_summary_keys (sorted f)

window-Alike : (f : Floats) → Alike max_derived_summary_keys (window f) f
window-Alike f =
    ap (take max_derived_summary_keys) (
      sorted-same (window f)
        (take-Ascending max_derived_summary_keys (sorted f) (sorted-Ascending f)))
    ∙ take-take_same max_derived_summary_keys (sorted f)

merge_metric_preview-window :
    (f metrics : Floats) (truncated : Bool)
    → (merge_metric_preview (window f) metrics truncated).0 ≡ window (add_metrics f metrics)
unfolding merge_metric_preview
merge_metric_preview-window f metrics truncated =
    add_metrics-Alike max_derived_summary_keys (window f) f metrics (window-Alike f)

-- From the first 256 keys, in order, of a dict on, the preview that is merged point by point holds the
-- first 256 keys, in order, of the dict that collects every metric logged but the system metrics,
-- with the latest value of each.
pub preview_points-window :
    (points : List Floats) (f : Floats) (truncated : Bool)
    → (preview_points (window f) truncated points).0 ≡ window (everything f points)
unfolding preview_points everything
preview_points-window [] f truncated = refl
preview_points-window (metrics ∷ points) f truncated =
    let kept : Floats × Bool = merge_metric_preview (window f) metrics truncated in
    ap (λ m. (preview_points m kept.1 points).0) (merge_metric_preview-window f metrics truncated)
    ∙ preview_points-window points (add_metrics f metrics) kept.1
