-- ===== src/Exec/Ensures.antt =====
-- What a method ensures: one predicate of the result and the state when it returns, another of the state
-- when it raises.
use epochdeck.Prelude.{◌≡◌, refl, sym, subst, Bool, true, false, if◌then◌else◌}
use epochdeck.Error.{Error, Result, ok, err, raise_if}
use epochdeck.Exec.{Exec, continue, lift, ◌>>=◌, ◌>>◌}

module _ {ℓ κ} {S : Type ℓ} (E : S → Type κ) where
  abbrev pub Ensures {ι} : {A : Type ι} → (A → S → Type κ) → Result A × S → Type κ
  Ensures P (ok a, s) = P a s
  Ensures P (err e, s) = E s

  continue-Ensures {ι μ} :
      {A : Type ι} {B : Type μ} (P : A → S → Type κ) (Q : B → S → Type κ) (f : A → Exec S B)
      (outcome : Result A × S)
      → Ensures P outcome
      → ((a : A) (s : S) → P a s → Ensures Q (f a s))
      → Ensures Q (continue f outcome)
  continue-Ensures P Q f (ok a, s) h g = g a s h
  continue-Ensures P Q f (err e, s) h g = h

  -- A method and what follows it.
  pub bind-Ensures {ι μ} :
      {A : Type ι} {B : Type μ} (P : A → S → Type κ) (Q : B → S → Type κ) (m : Exec S A)
      (f : A → Exec S B) (s : S)
      → Ensures P (m s)
      → ((a : A) (t : S) → P a t → Ensures Q (f a t))
      → Ensures Q ((m >>= f) s)
  bind-Ensures P Q m f s h g = continue-Ensures P Q f (m s) h g

  pub lift-Ensures {ι μ} :
      {A : Type ι} {B : Type μ} (Q : B → S → Type κ) (r : Result A) (f : A → Exec S B) (s : S)
      → E s
      → ((a : A) → r ≡ ok a → Ensures Q (f a s))
      → Ensures Q ((lift r >>= f) s)
  lift-Ensures Q (ok a) f s h g = g a refl
  lift-Ensures Q (err e) f s h g = h

  pub guard-Ensures {ι} :
      {B : Type ι} (Q : B → S → Type κ) (b : Bool) (e : Error) (m : Exec S B) (s : S)
      → E s
      → (b ≡ false → Ensures Q (m s))
      → Ensures Q ((lift (raise_if b e) >> m) s)
  guard-Ensures Q true e m s h g = h
  guard-Ensures Q false e m s h g = g refl

  pub guard_passes {ι} :
      {B : Type ι} (Q : B → S → Type κ) (b : Bool) (e : Error) (m : Exec S B) (s : S)
      → b ≡ false
      → Ensures Q (m s)
      → Ensures Q ((lift (raise_if b e) >> m) s)
  guard_passes Q true e m s passes h = absurd (cc passes)
  guard_passes Q false e m s passes h = h

  pub lift_passes {ι μ} :
      {A : Type ι} {B : Type μ} (Q : B → S → Type κ) (r : Result A) (a : A) (f : A → Exec S B)
      (s : S)
      → r ≡ ok a
      → Ensures Q (f a s)
      → Ensures Q ((lift r >>= f) s)
  lift_passes Q r a f s same h = subst (λ x. Ensures Q ((lift x >>= f) s)) (sym same) h

  pub if_Ensures {ι} :
      {B : Type ι} (Q : B → S → Type κ) (b : Bool) (m n : Exec S B) (s : S)
      → (b ≡ true → Ensures Q (m s))
      → (b ≡ false → Ensures Q (n s))
      → Ensures Q ((if b then m else n) s)
  if_Ensures Q true m n s h g = h refl
  if_Ensures Q false m n s h g = g refl

  pub map-Ensures {ι} :
      {A : Type ι} (P Q : A → S → Type κ) (outcome : Result A × S)
      → Ensures P outcome
      → ((a : A) (s : S) → P a s → Q a s)
      → Ensures Q outcome
  map-Ensures P Q (ok a, s) h g = g a s h
  map-Ensures P Q (err e, s) h g = h
