-- ===== src/Error.antt =====
-- Python exceptions as values: the class that is raised and, for `DeliveryError`, which check
-- failed. The texts of the messages are not modelled.
use epochdeck.Prelude.{
  ◌≡◌, refl, ap, sym, if◌then◌else◌, arith, Bool, true, false, Option, none, some,
}

-- The checks of _spool.py and _protocol.py that raise `DeliveryError`, named by their messages.
pub data Fault : Type 0 where
  record_too_large record_incomplete invalid_event : Fault
  file_too_large invalid_document not_json_compatible not_a_regular_file : Fault
  invalid_ack ack_outside_journal : Fault
  invalid_delivery delivery_outside_journal boundary_splits_record : Fault
  tail_acknowledged tail_checkpointed : Fault
  over_byte_budget no_identity identity_mismatch request_mismatch : Fault
  ack_mismatch undelivered_records invalid_digest : Fault
  invalid_metadata bad_summary_offset summary_tail_too_long bad_truncation_flag : Fault
  snapshot_unbounded snapshot_incomplete summary_splits_record : Fault
  no_metric_object invalid_metric_point unknown_operation : Fault

pub data Error : Type 0 where
  delivery_error : Fault → Error
  delivery_protocol_error : Error
  type_error value_error key_error index_error runtime_error overflow_error : Error
  import_error : Error
  -- Not an exception of the source: a loop of the model was given too few rounds.
  out_of_rounds : Error

-- A call returns a value, or raises.
pub data Result {ℓ} (Returned : Type ℓ) : Type ℓ where
  err : Error → Result Returned
  ok : Returned → Result Returned

-- The statements behind a call run only if it returns.
module _ {ℓ κ} {X : Type ℓ} {Y : Type κ} where
  infixl 4 ◌>>=◌
  abbrev pub ◌>>=◌ : Result X → (X → Result Y) → Result Y
  err raised >>= next = err raised
  ok value >>= next = next value

  -- The parts of a call that returned.
  pub returned :
      (r : Result X) (f : X → Result Y) {y : Y}
      → (r >>= f) ≡ ok y
      → (x : X) × (r ≡ ok x) × (f x ≡ ok y)
  returned (ok x) f h = (x, refl, h)
  returned (err e) f h = ground arith

infixl 4 ◌>>◌
abbrev pub ◌>>◌ {ℓ} : {Y : Type ℓ} → Result (Unit {0}) → Result Y → Result Y
first >> next = first >>= λ _. next

-- `if test: raise error`.
abbrev pub raise_if : Bool → Error → Result (Unit {0})
raise_if true e = err e
raise_if false e = ok tt

abbrev pub or_raise {ℓ} : {A : Type ℓ} → Option A → Error → Result A
or_raise none e = err e
or_raise (some a) e = ok a

abbrev result_or {ℓ} : {A : Type ℓ} → A → Result A → A
result_or a (ok b) = b
result_or a (err e) = a

pub ok_injective {ℓ} : {A : Type ℓ} (a b : A) → ok a ≡ ok b → a ≡ b
ok_injective a b h = ap (result_or a) h

-- A test that did not raise.
pub passes {ℓ} :
    {A : Type ℓ} (b : Bool) (e : Error) (a c : A)
    → (if b then err e else ok a) ≡ ok c
    → (b ≡ false) × (c ≡ a)
passes true e a c h = ground arith
passes false e a c h = (refl, sym (ok_injective a c h))

pub passes_then {ℓ} :
    {Y : Type ℓ} (r : Result (Unit {0})) (s : Result Y) {y : Y}
    → (r >> s) ≡ ok y
    → (r ≡ ok tt) × (s ≡ ok y)
passes_then (ok done) s h = (refl, h)
passes_then (err e) s h = ground arith

pub not_raised : (b : Bool) (e : Error) → raise_if b e ≡ ok tt → b ≡ false
not_raised true e h = ground arith
not_raised false e h = refl
