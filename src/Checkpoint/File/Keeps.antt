-- ===== src/Checkpoint/File/Keeps.antt =====
-- Methods of a checkpoint that keep a predicate on it, whether they raise or not.
use epochdeck.Prelude.{◌≡◌, refl, Bool, true, false}
use epochdeck.Error.{import_error, Result, ok, err, raise_if}
use epochdeck.Exec.{Exec, continue, lift, modify, ◌>>=◌, ◌>>◌}
use epochdeck.Checkpoint.File.{Checkpoint, when}

module _ {ℓ} (P : Checkpoint → Type ℓ) where
  abbrev pub Keeps {κ} : {A : Type κ} → Exec Checkpoint A → Type ℓ
  Keeps m = (c : Checkpoint) → P c → P ((m c).1)

  continue-Keeps {κ ι} :
      {A : Type κ} {B : Type ι} (f : A → Exec Checkpoint B)
      → ((a : A) → Keeps (f a))
      → (r : Result A) (c : Checkpoint) → P c
      → P ((continue f (r, c)).1)
  continue-Keeps f hf (ok a) c h = hf a c h
  continue-Keeps f hf (err e) c h = h

  pub bind-Keeps {κ ι} :
      {A : Type κ} {B : Type ι} (m : Exec Checkpoint A) (f : A → Exec Checkpoint B)
      → Keeps m
      → ((a : A) → Keeps (f a))
      → Keeps (m >>= f)
  bind-Keeps m f hm hf c h = continue-Keeps f hf ((m c).0) ((m c).1) (hm c h)

  pub lift-Keeps {κ ι} :
      {A : Type κ} {B : Type ι} (r : Result A) (f : A → Exec Checkpoint B)
      → ((a : A) → r ≡ ok a → Keeps (f a))
      → Keeps (lift r >>= f)
  lift-Keeps (ok a) f h c s = h a refl c s
  lift-Keeps (err e) f h c s = s

  pub guard-Keeps :
      (b : Bool) (f : Checkpoint → Checkpoint) (c : Checkpoint)
      → P c
      → (b ≡ false → P (f c))
      → P (((lift (raise_if b import_error) >> modify f) c).1)
  guard-Keeps true f c h g = h
  guard-Keeps false f c h g = g refl

  pub when-Keeps : (b : Bool) (m : Exec Checkpoint (Unit {0})) → Keeps m → Keeps (when b m)
  when-Keeps true m h = h
  when-Keeps false m h = λ c s. s
