-- ===== src/Spool/Lane/Batch/Budget.antt =====
-- `_metric_request_size` is the exact size of the request that is sent.
use epochdeck.Prelude.{
  ◌+◌, ◌≡◌, refl, ap, ◌∙◌, true, List, [], ◌∷◌, ◌++◌, arith, length, length-append, All,
}
use epochdeck.Text.{Text, Bytes, codes, text_lt}
use epochdeck.Error.{ok}
use epochdeck.Json.{Value, obj, Items, no_items, all_finite, all_finite_items}
use epochdeck.Json.Dumps.{dumps, dumps_items, object_text, array_text, comma_separated}
use epochdeck.Platform.{Platform, FloatsPrintable}
use epochdeck.Protocol.{encode_json_request}
use epochdeck.Protocol.Encoding.{encode_json_request_finite, encode_json_request-eq-ok}
use epochdeck.Spool.Entry.{Entry, IsEntry}
use epochdeck.Spool.Lane.Batch.{metric_request, metric_request_size, items_of_records}
use epochdeck.Spool.Lane.Batch.Loops.{fields_of, encoded_bytes}

-- The text of a request with these two rendered members.
abbrev request_text : Text → Text → Text
request_text sequence points =
    object_text true ((codes "batch_sequence", sequence) ∷ (codes "points", points) ∷ [])

length-request_text : (t u : Text) → length (request_text t u) ≡ 29 + length t + length u
unfolding object_text text_lt
length-request_text t u =
    let points : Text = b',' ∷ (codes "\"points\"" ++ b':' ∷ u) in
    omega (arith, length-append {0} (t ++ points) (b'}' ∷ []), length-append {0} t points)

-- The rendered points are the bytes of the entries.
rendered : List Entry → List Text
rendered [] = []
rendered (e ∷ es) = e.bytes ∷ rendered es

module _ (p : Platform) (floats : FloatsPrintable p) where
  dumps_items-rendered :
      (es : List Entry)
      → All (IsEntry p) es
      → dumps_items p.float_repr true (items_of_records (fields_of es)) ≡ rendered es
  unfolding dumps_items rendered
  dumps_items-rendered [] h = refl
  dumps_items-rendered (e ∷ es) h = rw (
    ← (encode_json_request-eq-ok p floats (obj e.fields) h.0.encodes).1,
    dumps_items-rendered es h.1,
  )

  finite_records :
      (es : List Entry)
      → All (IsEntry p) es
      → all_finite_items (items_of_records (fields_of es)) ≡ true
  unfolding all_finite_items
  finite_records [] h = refl
  finite_records (e ∷ es) h =
      rw ((encode_json_request-eq-ok p floats (obj e.fields) h.0.encodes).0, finite_records es h.1)

-- One comma between two points.
length-comma_separated :
    (e : Entry) (es : List Entry)
    → length (comma_separated (rendered (e ∷ es))) ≡ encoded_bytes (e ∷ es) + length es
unfolding comma_separated rendered
length-comma_separated e [] = omega arith
length-comma_separated e (x ∷ es) = omega (
  arith,
  length-comma_separated x es,
  length-append {0} e.bytes (b',' ∷ comma_separated (rendered (x ∷ es))),
)

length-array_text : (ts : List Text) → length (array_text ts) ≡ length (comma_separated ts) + 2
unfolding array_text
length-array_text ts = omega (arith, length-append {0} (comma_separated ts) (b']' ∷ []))

module _ (p : Platform) (floats : FloatsPrintable p) (sequence : Value)
    (finite : all_finite sequence ≡ true) where
  encode-metric_request :
      (items : Items)
      → all_finite_items items ≡ true
      → encode_json_request p (metric_request sequence items)
        ≡ ok (
            request_text
              (dumps p.float_repr true sequence)
              (array_text (dumps_items p.float_repr true items)))
  unfolding metric_request all_finite dumps
  encode-metric_request items h =
      encode_json_request_finite p floats (metric_request sequence items) (rw (finite, h))

  -- For a nonempty batch, the size that the loop computes from the lengths of the lines is the
  -- number of bytes of the request that is sent.
  pub metric_request_size-encode :
      (e : Entry) (es : List Entry)
      → All (IsEntry p) (e ∷ es)
      → (b : Bytes) × (encode_json_request p
            (metric_request sequence (items_of_records (fields_of (e ∷ es))))
          ≡ ok b)
        × (metric_request_size p sequence (encoded_bytes (e ∷ es)) (length (e ∷ es))
            ≡ ok (length b))
  unfolding metric_request_size all_finite_items object_text text_lt dumps
  metric_request_size-encode e es valid =
      let t : Text = dumps p.float_repr true sequence in
      let points : Text = array_text (rendered (e ∷ es)) in
      (
        request_text t points,
        encode-metric_request (items_of_records (fields_of (e ∷ es)))
              (finite_records p floats (e ∷ es) valid)
            ∙ ap (λ ts. ok (request_text t (array_text ts)))
                (dumps_items-rendered p floats (e ∷ es) valid),
        rw (encode-metric_request no_items refl) (
            ap ok (
              omega (
                arith,
                length-request_text t points,
                length-request_text t (array_text []),
                length-array_text (rendered (e ∷ es)),
                length-comma_separated e es,
                length-array_text [],
              ))),
      )
