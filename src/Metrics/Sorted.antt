-- ===== src/Metrics/Sorted.antt =====
-- `sorted` puts the entries of a dict in the strict order of their keys.
use epochdeck.Prelude.{ℕ, zero, suc, ◌≡◌, ◌∙◌, refl, ap, true, [], ◌∷◌, arith, take}
use epochdeck.Text.{Text, text_eq_iff, text_lt}
use epochdeck.Text.Order.{text_lt_differs, text_lt_total}
use epochdeck.Metrics.{Floats, put, sorted}

abbrev pub Before : Text → Floats → Type 0
Before k [] = Unit
Before k ((j, y) ∷ m) = text_lt k j ≡ true

abbrev pub Ascending : Floats → Type 0
Ascending [] = Unit
Ascending ((k, x) ∷ m) = Before k m × Ascending m

put-Before :
    (i k : Text) (x : ℕ) (m : Floats) → text_lt i k ≡ true → Before i m → Before i (put k x m)
unfolding put
put-Before i k x [] h b = h
put-Before i k x ((j, y) ∷ m) h b = ground (arith, text_eq_iff k j)

put-Ascending : (k : Text) (x : ℕ) (m : Floats) → Ascending m → Ascending (put k x m)
unfolding put
put-Ascending k x [] h = (tt, tt)
put-Ascending k x ((j, y) ∷ m) h = ground (
  arith,
  text_eq_iff k j,
  text_eq_iff j k,
  text_lt_total k j,
  put-Ascending k x m,
  put-Before j k x m,
)

pub sorted-Ascending : (m : Floats) → Ascending (sorted m)
unfolding sorted
sorted-Ascending [] = tt
sorted-Ascending ((k, x) ∷ m) = put-Ascending k x (sorted m) (sorted-Ascending m)

pub take-Ascending : (n : ℕ) (m : Floats) → Ascending m → Ascending (take n m)
take-Ascending zero m h = tt
take-Ascending (suc n) [] h = tt
take-Ascending (suc zero) ((k, x) ∷ m) h = (tt, tt)
take-Ascending (suc (suc n)) ((k, x) ∷ []) h = (tt, tt)
take-Ascending (suc (suc n)) ((k, x) ∷ (j, y) ∷ m) h =
    (h.0, take-Ascending (suc n) ((j, y) ∷ m) h.1)

put-first : (k : Text) (x : ℕ) (m : Floats) → Before k m → put k x m ≡ (k, x) ∷ m
unfolding put
put-first k x [] h = refl
put-first k x ((j, y) ∷ m) h = rw (text_lt_differs k j h, h)

pub sorted-same : (m : Floats) → Ascending m → sorted m ≡ m
unfolding sorted
sorted-same [] h = refl
sorted-same ((k, x) ∷ m) h = ap (put k x) (sorted-same m h.1) ∙ put-first k x m h.0
