-- ===== src/Spool/Lane/Batch/Longest.antt =====
-- A metric batch is the longest run of entries within the limit and the request byte budget.
use epochdeck.Prelude.{
  ℕ, zero, suc, ◌+◌, ◌≤◌, ◌<◌, ◌≡◌, ◌⊎◌, refl, sym, ap, ◌∙◌, inl, inr, true, false, none, some,
  List, [], ◌∷◌, ◌++◌, arith, ltb, lt→ltb, ge→ltb, ltb→lt, ltb→ge, length, length-append, take,
  drop, take-append-drop, All, All-append, append_assoc, append-nil, Bool-cases,
}
use epochdeck.Text.{Text, Bytes, codes}
use epochdeck.Error.{Result, ok, err}
use epochdeck.Json.{Value, obj, Fields, no_fields, field, get, all_finite, all_finite_fields}
use epochdeck.Platform.{Platform, FloatsPrintable}
use epochdeck.Protocol.{encode_json_request}
use epochdeck.Protocol.Encoding.{encode_json_request-eq-ok}
use epochdeck.Spool.Entry.{Entry, IsEntry, content}
use epochdeck.Spool.Lane.Batch.{
  Reading, stop, budgeted, is_nil, within_budget, batch_round, batch_loop, metric_request,
  metric_request_size, items_of_records, or_null, batch_sequence,
}
use epochdeck.Spool.Lane.Batch.Rounds.{
  after_entry, batch_round-entry, batch_round_end, batch_round_unwanted,
}
use epochdeck.Spool.Lane.Batch.Loops.{
  after_entries, fields_of, encoded_bytes, batch_loop_stop, batch_loop_again,
}
use epochdeck.Spool.Lane.Batch.Budget.{metric_request_size-encode}

abbrev encoded_length : Result Bytes → ℕ
encoded_length (ok b) = length b
encoded_length (err e) = 0

abbrev pub sequence_of : Entry → Value
sequence_of e = or_null (get (codes "sequence") e.fields)

-- The number of bytes of the request that sends these entries.
abbrev pub request_size : Platform → List Entry → ℕ
request_size p [] = 0
request_size p (x ∷ xs) =
    encoded_length (
      encode_json_request p
        (metric_request (sequence_of x) (items_of_records (fields_of (x ∷ xs)))))

all_finite-get :
    (name : Text) (fs : Fields)
    → all_finite_fields fs ≡ true
    → all_finite (or_null (get name fs)) ≡ true
unfolding all_finite_fields get
all_finite-get name no_fields h = refl
all_finite-get name (field k v fs) h = ground (arith, all_finite-get name fs)

fields_of-append : (xs ys : List Entry) → fields_of (xs ++ ys) ≡ fields_of xs ++ fields_of ys
fields_of-append [] ys = refl
fields_of-append (x ∷ xs) ys = rw (fields_of-append xs ys)

length-fields_of : (es : List Entry) → length (fields_of es) ≡ length es
length-fields_of [] = refl
length-fields_of (e ∷ es) = ap suc (length-fields_of es)

encoded_bytes-append :
    (xs ys : List Entry) → encoded_bytes (xs ++ ys) ≡ encoded_bytes xs + encoded_bytes ys
encoded_bytes-append [] ys = omega arith
encoded_bytes-append (x ∷ xs) ys = omega (arith, encoded_bytes-append xs ys)

-- The loop has read these entries.
pub record HasRead (p : Platform) (acc : List Entry) (s : Reading) : Type 0 where
  pub points : s.points ≡ fields_of acc
  pub encoded : s.encoded_point_bytes ≡ encoded_bytes acc
  pub valid : All (IsEntry p) acc

module _ (p : Platform) (floats : FloatsPrintable p) where
  sequence_of-all_finite : (e : Entry) → IsEntry p e → all_finite (sequence_of e) ≡ true
  sequence_of-all_finite e valid =
      all_finite-get (codes "sequence") e.fields
        (unfold all_finite in (encode_json_request-eq-ok p floats (obj e.fields) valid.encodes).0)

  metric_request_size-request_size :
      (x : Entry) (xs : List Entry)
      → All (IsEntry p) (x ∷ xs)
      → metric_request_size p (sequence_of x) (encoded_bytes (x ∷ xs)) (length (x ∷ xs))
        ≡ ok (request_size p (x ∷ xs))
  metric_request_size-request_size x xs valid =
      let (b, encodes, size) =
        metric_request_size-encode p floats (sequence_of x) (sequence_of-all_finite x valid.0) x xs
          valid in
      rw (encodes) size

  -- The size that the loop computes for one more entry is the size of that request.
  candidate_size :
      (acc : List Entry) (s : Reading) (e : Entry)
      → HasRead p acc s
      → IsEntry p e
      → metric_request_size p
          (batch_sequence s.points e.fields)
          (s.encoded_point_bytes + length e.bytes)
          (length s.points + 1)
        ≡ ok (request_size p (acc ++ e ∷ []))
  candidate_size [] s e h valid =
      let sequence : batch_sequence s.points e.fields ≡ sequence_of e =
        ap (λ l. batch_sequence l e.fields) h.points in
      let bytes : s.encoded_point_bytes + length e.bytes ≡ encoded_bytes (e ∷ []) =
        omega (arith, h.encoded) in
      let count : length s.points + 1 ≡ length (e ∷ []) = omega (arith, ap length h.points) in
      rw (sequence, bytes, count) (metric_request_size-request_size e [] (valid, tt))
  candidate_size (x ∷ acc) s e h valid =
      let sequence : batch_sequence s.points e.fields ≡ sequence_of x =
        ap (λ l. batch_sequence l e.fields) h.points in
      let bytes : s.encoded_point_bytes + length e.bytes ≡ encoded_bytes (x ∷ (acc ++ e ∷ [])) =
        omega (arith, h.encoded, encoded_bytes-append acc (e ∷ [])) in
      let count : length s.points + 1 ≡ length (x ∷ (acc ++ e ∷ [])) =
        omega (arith, ap length h.points, length-fields_of acc, length-append {0} acc (e ∷ [])) in
      rw (sequence, bytes, count)
        (metric_request_size-request_size x (acc ++ e ∷ [])
          (h.valid.0, All-append (IsEntry p) acc (e ∷ []) h.valid.1 (valid, tt)))

  after_entry-HasRead :
      (acc : List Entry) (s : Reading) (e : Entry) (rest : Bytes)
      → HasRead p acc s
      → IsEntry p e
      → HasRead p (acc ++ e ∷ []) (after_entry s e rest)
  after_entry-HasRead acc s e rest h valid = record {
    points = rw (h.points, fields_of-append acc (e ∷ []));
    encoded = omega (arith, h.encoded, encoded_bytes-append acc (e ∷ []));
    valid = All-append (IsEntry p) acc (e ∷ []) h.valid (valid, tt);
  }

module _ (p : Platform) (floats : FloatsPrintable p) (limit budget : ℕ) where
  -- A round at an entry asks whether the request with that entry fits the budget.
  batch_round-budget :
      (acc : List Entry) (s : Reading) (e : Entry) (es : List Entry)
      → HasRead p acc s
      → IsEntry p e
      → s.rest ≡ content (e ∷ es)
      → length s.points < limit
      → batch_round p limit (some budget) none s
        ≡ budgeted p s (after_entry s e (content es)) (ltb budget (request_size p (acc ++ e ∷ [])))
  batch_round-budget acc s e es h valid rest room =
      batch_round-entry p floats limit (some budget) none s e es valid rest
        (lt→ltb (length s.points) limit room) refl
      ∙ (unfold within_budget in rw (candidate_size p floats acc s e h valid))

-- Why a batch ends: the limit, the end of the journal, or the next entry does not fit.
abbrev pub Ends : Platform → ℕ → ℕ → List Entry → List Entry → ℕ → Type 0
Ends p budget more acc es m =
    (m ≡ more) ⊎ (m ≡ length es) ⊎ (budget < request_size p (acc ++ take (suc m) es))

-- The number of entries that are taken, with what is known of it.
abbrev pub Taken : Platform → ℕ → ℕ → List Entry → List Entry → ℕ → Type 0
Taken p budget more acc es m =
    (m ≤ more)
    × (m ≤ length es)
    × (request_size p (acc ++ take m es) ≤ budget)
    × Ends p budget more acc es m

not-snoc-nil : (acc : List Entry) (e : Entry) → ¬ (acc ++ e ∷ [] ≡ [])
not-snoc-nil acc e empty = omega (arith, ap length empty, length-append {0} acc (e ∷ []))

is_nil-HasRead :
    (p : Platform) (x : Entry) (acc : List Entry) (s : Reading)
    → HasRead p (x ∷ acc) s
    → is_nil s.points ≡ false
is_nil-HasRead p x acc s h = ap is_nil h.points

-- One more entry that fits.
Taken-suc :
    (p : Platform) (budget more : ℕ) (acc : List Entry) (e : Entry) (es : List Entry) (m : ℕ)
    → Taken p budget more (acc ++ e ∷ []) es m
    → Taken p budget (suc more) acc (e ∷ es) (suc m)
Taken-suc p budget more acc e es m (limited, inside, fits, ends) = (
  omega arith,
  omega arith,
  rw (← append_assoc acc (e ∷ []) (take m es)) fits,
  elim ends [
    | inl all ↦ inl (ap suc all)
    | inr (inl all) ↦ inr (inl (ap suc all))
    | inr (inr long) ↦ inr (inr (rw (← append_assoc acc (e ∷ []) (take (suc m) es)) long))
  ],
)

module _ (p : Platform) (floats : FloatsPrintable p) (limit budget : ℕ) where
  abbrev Reads : ℕ → List Entry → List Entry → Reading → ℕ → Type 0
  Reads more acc es s fuel =
      (m : ℕ) × (batch_loop p fuel limit (some budget) none s
        ≡ ok (after_entries s (take m es) (drop m es)))
      × Taken p budget more acc es m

  nothing_more :
      (more : ℕ) (acc es : List Entry) (s : Reading) (fuel : ℕ)
      → batch_round p limit (some budget) none s ≡ ok (stop s)
      → request_size p acc ≤ budget
      → Ends p budget more acc es 0
      → Reads more acc es s (suc fuel)
  nothing_more more acc es s fuel stops fits ends = (
    0,
    batch_loop_stop p limit (some budget) none fuel s s stops,
    (omega arith, omega arith, rw (append-nil acc) fits, ends),
  )

  -- A second entry that does not fit ends the loop.
  round_over :
      (acc : List Entry) (s : Reading) (e : Entry) (es : List Entry)
      → HasRead p acc s
      → IsEntry p e
      → s.rest ≡ content (e ∷ es)
      → length s.points < limit
      → ltb budget (request_size p (acc ++ e ∷ [])) ≡ true
      → (acc ≡ [] → request_size p (take 1 (e ∷ es)) ≤ budget)
      → batch_round p limit (some budget) none s ≡ ok (stop s)
  round_over [] s e es h valid rest room over first =
      let fits : request_size p (e ∷ []) ≤ budget = first refl in
      let long : budget < request_size p (e ∷ []) = ltb→lt budget (request_size p (e ∷ [])) over in
      absurd (omega arith)
  round_over (x ∷ acc) s e es h valid rest room over first =
      batch_round-budget p floats limit budget (x ∷ acc) s e es h valid rest room
      ∙ rw (over, is_nil-HasRead p x acc s h)

  -- The loop takes the longest run of entries that the limit and the budget allow.
  pub batch_loop-budget :
      (more : ℕ) (acc es : List Entry) (s : Reading) (fuel : ℕ)
      → HasRead p acc s
      → All (IsEntry p) es
      → s.rest ≡ content es
      → length s.points + more ≡ limit
      → length es < fuel
      → request_size p acc ≤ budget
      → (acc ≡ [] → request_size p (take 1 es) ≤ budget)
      → Reads more acc es s fuel
  batch_loop-budget more acc es s zero h valid rest room enough fits first = absurd (omega arith)
  batch_loop-budget zero acc es s (suc fuel) h valid rest room enough fits first =
      nothing_more zero acc es s fuel
        (batch_round_unwanted p floats limit (some budget) none s
          (ge→ltb (length s.points) limit (omega arith)))
        fits (inl refl)
  batch_loop-budget (suc more) acc [] s (suc fuel) h valid rest room enough fits first =
      nothing_more (suc more) acc [] s fuel
        (batch_round_end p floats limit (some budget) none s rest
          (lt→ltb (length s.points) limit (omega arith)))
        fits (inr (inl refl))
  batch_loop-budget (suc more) acc (e ∷ es) s (suc fuel) h valid rest room enough fits first =
      elim (Bool-cases (ltb budget (request_size p (acc ++ e ∷ [])))) [
        | inl over ↦
            nothing_more (suc more) acc (e ∷ es) s fuel
              (round_over acc s e es h valid.0 rest (omega arith) over first) fits
              (inr (inr (ltb→lt budget (request_size p (acc ++ e ∷ [])) over)))
        | inr under ↦
            let next : Reading = after_entry s e (content es) in
            let (m, reads, taken) =
              batch_loop-budget more (acc ++ e ∷ []) es next fuel
                (after_entry-HasRead p floats acc s e (content es) h valid.0) valid.1 refl
                (omega (arith, length-append {0} s.points (e.fields ∷ []))) (omega arith)
                (ltb→ge budget (request_size p (acc ++ e ∷ [])) under)
                (λ empty. absurd (not-snoc-nil acc e empty)) in
            (
              suc m,
              batch_loop_again p limit (some budget) none fuel s next (
                    batch_round-budget p floats limit budget acc s e es h valid.0 rest (omega arith)
                    ∙ rw under)
                  ∙ reads
                  ∙ ap (λ rest. ok (after_entries (after_entry s e rest) (take m es) (drop m es)))
                      (ap content (sym (take-append-drop m es))),
              Taken-suc p budget more acc e es m taken,
            )
      ]
