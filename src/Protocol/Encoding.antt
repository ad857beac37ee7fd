-- ===== src/Protocol/Encoding.antt =====
-- The canonical encoding of a request succeeds exactly on finite values, and is printable ASCII.
use epochdeck.Prelude.{◌<◌, ◌≡◌, true, [], ◌∷◌, arith, All, Bool-cases, inl, inr}
use epochdeck.Text.{Bytes, Text}
use epochdeck.Text.Utf8.{utf8-ascii}
use epochdeck.Error.{ok}
use epochdeck.Json.{Value, all_finite}
use epochdeck.Json.Dumps.{dumps}
use epochdeck.Json.Dumps.Printable.{IsPrintable, dumps-IsPrintable}
use epochdeck.Platform.{Platform, FloatsPrintable}
use epochdeck.Protocol.{encode_json_request}

IsPrintable-ascii : (t : Text) → All IsPrintable t → All (λ c. c < 128) t
IsPrintable-ascii [] h = tt
IsPrintable-ascii (c ∷ cs) h = (omega arith, IsPrintable-ascii cs h.1)

module _ (p : Platform) (floats : FloatsPrintable p) (v : Value) where
  -- A finite value is encoded as its own ASCII text.
  pub encode_json_request_finite :
      all_finite v ≡ true → encode_json_request p v ≡ ok (dumps p.float_repr true v)
  unfolding encode_json_request
  encode_json_request_finite h = rw (
    h,
    utf8-ascii _
        (IsPrintable-ascii _ (dumps-IsPrintable p.float_repr floats.float_repr-IsPrintable v)),
  )

  -- What was encoded was finite, and its encoding is the ASCII text.
  pub encode_json_request-eq-ok :
      {b : Bytes}
      → encode_json_request p v ≡ ok b
      → (all_finite v ≡ true) × (b ≡ dumps p.float_repr true v)
  encode_json_request-eq-ok e = elim (Bool-cases (all_finite v)) [
    | inl h ↦ (h, cc (encode_json_request_finite h))
    | inr h ↦ unfold encode_json_request in cc (rw h at e)
  ]

  -- An encoded request is printable ASCII.
  pub encode_json_request-IsPrintable :
      {b : Bytes} → encode_json_request p v ≡ ok b → All IsPrintable b
  encode_json_request-IsPrintable e =
      rw (encode_json_request-eq-ok e).1
        (dumps-IsPrintable p.float_repr floats.float_repr-IsPrintable v)
