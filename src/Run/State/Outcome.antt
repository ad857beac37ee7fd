-- ===== src/Run/State/Outcome.antt =====
-- What holds of the state behind a method, whether it returns or raises.
use epochdeck.Error.{Result, ok, err}
use epochdeck.Exec.{Exec, continue}

module _ {S A : Type 0} where
  -- `P` behind a raise, `Q` behind a return.
  abbrev pub Outcome : (S → Type 0) → (A → S → Type 0) → Result A × S → Type 0
  Outcome P Q (ok a, s) = Q a s
  Outcome P Q (err e, s) = P s

  pub Outcome-weaken :
      (P P' : S → Type 0) (Q Q' : A → S → Type 0) (r : Result A × S)
      → ((s : S) → P s → P' s)
      → ((a : A) (s : S) → Q a s → Q' a s)
      → Outcome P Q r
      → Outcome P' Q' r
  Outcome-weaken P P' Q Q' (ok a, s) raised returned h = returned a s h
  Outcome-weaken P P' Q Q' (err e, s) raised returned h = raised s h

  pub Outcome-lift : (P : S → Type 0) (r : Result A) (s : S) → P s → Outcome P (λ a. P) (r, s)
  Outcome-lift P (ok a) s h = h
  Outcome-lift P (err e) s h = h

module _ {S A B : Type 0} where
  pub Outcome-continue :
      (P : S → Type 0) (Q : A → S → Type 0) (R : B → S → Type 0) (f : A → Exec S B)
      (r : Result A × S)
      → Outcome P Q r
      → ((a : A) (s : S) → Q a s → Outcome P R (f a s))
      → Outcome P R (continue f r)
  Outcome-continue P Q R f (ok a, s) h next = next a s h
  Outcome-continue P Q R f (err e, s) h next = h
