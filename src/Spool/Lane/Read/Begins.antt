-- ===== src/Spool/Lane/Read/Begins.antt =====
-- Without a stored delivery, reading fixes the next batch on disk before it returns it.
use epochdeck.Prelude.{ℕ, ◌≡◌, refl, ◌∙◌, Option, none, some, length, ==_refl}
use epochdeck.Prelude.Int.{pos}
use epochdeck.Text.{Text, Bytes, codes, text_eq, text_eq_refl}
use epochdeck.Error.{ok}
use epochdeck.Json.{Value, str, Fields, get}
use epochdeck.Platform.{Platform}
use epochdeck.Spool.Lane.{Lane, delivery_offsets}
use epochdeck.Spool.Lane.Begin.{
  number, python_str, record_identity, new_delivery, check_delivery, fixed_end_of,
}

-- Two dicts with the same values: decoding does not keep the order of the keys.
abbrev pub SameFields : Fields → Fields → Type 0
SameFields fs gs = (name : Text) → get name fs ≡ get name gs

-- The lane with a stored delivery state.
abbrev pub with_delivery : Lane → Bytes → Lane
with_delivery lane file = record lane { delivery = some file }

module _ (p : Platform) (start stop : ℕ) (identity : Value) where
  get-new_delivery-start :
      (encoded : Option Bytes)
      → get (codes "start_offset") (new_delivery p start stop identity encoded)
        ≡ some (number start)
  unfolding get new_delivery text_eq
  get-new_delivery-start none = refl
  get-new_delivery-start (some b) = refl

  get-new_delivery_end :
      (encoded : Option Bytes)
      → get (codes "end_offset") (new_delivery p start stop identity encoded) ≡ some (number stop)
  unfolding get new_delivery text_eq
  get-new_delivery_end none = refl
  get-new_delivery_end (some b) = refl

  get-new_delivery_identity :
      (encoded : Option Bytes)
      → get (codes "record_identity") (new_delivery p start stop identity encoded)
        ≡ some (str (python_str p identity))
  unfolding get new_delivery text_eq
  get-new_delivery_identity none = refl
  get-new_delivery_identity (some b) = refl

  get-new_delivery_bytes :
      (b : Bytes)
      → get (codes "request_bytes") (new_delivery p start stop identity (some b))
        ≡ some (number (length b))
  unfolding get new_delivery text_eq
  get-new_delivery_bytes b = refl

  get-new_delivery_sha256 :
      (b : Bytes)
      → get (codes "request_sha256") (new_delivery p start stop identity (some b))
        ≡ some (str (p.sha256_hexdigest b))
  unfolding get new_delivery text_eq
  get-new_delivery_sha256 b = refl

-- A decoded delivery state passes every check against the batch that it was written for.
module _ (p : Platform) (start stop : ℕ) (first : Fields) (fs : Fields) where
  pub new_delivery-offsets :
      (encoded : Option Bytes)
      → SameFields fs (new_delivery p start stop (record_identity first) encoded)
      → delivery_offsets fs ≡ ok (pos start, pos stop)
  unfolding delivery_offsets
  new_delivery-offsets encoded same = rw (
    same (codes "start_offset") ∙ get-new_delivery-start p start stop _ encoded,
    same (codes "end_offset") ∙ get-new_delivery_end p start stop _ encoded,
    same (codes "record_identity") ∙ get-new_delivery_identity p start stop _ encoded,
  )

  pub new_delivery-fixed_end_of :
      (encoded : Option Bytes)
      → SameFields fs (new_delivery p start stop (record_identity first) encoded)
      → fixed_end_of (some fs) ≡ some stop
  unfolding fixed_end_of
  new_delivery-fixed_end_of encoded same =
      rw (same (codes "end_offset") ∙ get-new_delivery_end p start stop _ encoded, fixed_end_of)

  pub new_delivery-check_delivery :
      (encoded : Option Bytes)
      → SameFields fs (new_delivery p start stop (record_identity first) encoded)
      → check_delivery p first encoded fs ≡ ok tt
  unfolding check_delivery python_str
  new_delivery-check_delivery none same =
      rw (
        same (codes "record_identity") ∙ get-new_delivery_identity p start stop _ none,
        text_eq_refl,
      )
  new_delivery-check_delivery (some b) same = rw (
    same (codes "record_identity") ∙ get-new_delivery_identity p start stop _ (some b),
    same (codes "request_bytes") ∙ get-new_delivery_bytes p start stop _ b,
    same (codes "request_sha256") ∙ get-new_delivery_sha256 p start stop _ b,
    text_eq_refl (python_str p (record_identity first)),
    ==_refl (length b),
    text_eq_refl (p.sha256_hexdigest b),
  )
