-- ===== src/Spool/Lane/Batch/Loops.antt =====
-- The batch loop over a journal of whole entries: up to a fixed end, and up to the limit.
use epochdeck.Prelude.{
  ℕ, zero, suc, ◌+◌, ◌<◌, ◌≡◌, refl, ap, sym, Option, none, some, List, [], ◌∷◌, ◌++◌, arith,
  lt→ltb, ge→ltb, length, length-append, take, drop, take-append-drop, All, ◌∙◌, append_assoc,
  append-nil,
}
use epochdeck.Error.{ok}
use epochdeck.Json.{Fields}
use epochdeck.Platform.{Platform, FloatsPrintable}
use epochdeck.Spool.Entry.{Entry, IsEntry, content, length-content_cons}
use epochdeck.Spool.Lane.Batch.{Reading, again, stop, within_budget, batch_round, batch_loop}
use epochdeck.Spool.Lane.Batch.Rounds.{
  after_entry, batch_round-entry, batch_round-fixed, batch_round_end, batch_round_unwanted,
}

-- The variables after `xs` has been read, with `ys` behind it.
abbrev pub after_entries : Reading → List Entry → List Entry → Reading
after_entries s [] ys = s
after_entries s (x ∷ xs) ys = after_entries (after_entry s x (content (xs ++ ys))) xs ys

abbrev pub fields_of : List Entry → List Fields
fields_of [] = []
fields_of (e ∷ es) = e.fields ∷ fields_of es

-- The bytes of the encoded entries, without the line feeds.
abbrev pub encoded_bytes : List Entry → ℕ
encoded_bytes [] = 0
encoded_bytes (e ∷ es) = length e.bytes + encoded_bytes es

pub points-after_entries :
    (s : Reading) (xs ys : List Entry) → (after_entries s xs ys).points ≡ s.points ++ fields_of xs
points-after_entries s [] ys = sym (append-nil s.points)
points-after_entries s (x ∷ xs) ys =
    points-after_entries (after_entry s x (content (xs ++ ys))) xs ys
    ∙ append_assoc s.points (x.fields ∷ []) (fields_of xs)

pub position-after_entries :
    (s : Reading) (xs ys : List Entry)
    → (after_entries s xs ys).position ≡ s.position + length (content xs)
position-after_entries s [] ys = omega arith
position-after_entries s (x ∷ xs) ys = omega (
  arith,
  position-after_entries (after_entry s x (content (xs ++ ys))) xs ys,
  length-content_cons x xs,
)

pub encoded_point_bytes-after_entries :
    (s : Reading) (xs ys : List Entry)
    → (after_entries s xs ys).encoded_point_bytes ≡ s.encoded_point_bytes + encoded_bytes xs
encoded_point_bytes-after_entries s [] ys = omega arith
encoded_point_bytes-after_entries s (x ∷ xs) ys =
    omega (arith, encoded_point_bytes-after_entries (after_entry s x (content (xs ++ ys))) xs ys)

module _ (p : Platform) (limit : ℕ) (budget fixed_end : Option ℕ) (fuel : ℕ) (s s' : Reading) where
  pub batch_loop_stop :
      batch_round p limit budget fixed_end s ≡ ok (stop s')
      → batch_loop p (suc fuel) limit budget fixed_end s ≡ ok s'
  unfolding batch_loop
  batch_loop_stop h = rw (h, batch_loop)

  pub batch_loop_again :
      batch_round p limit budget fixed_end s ≡ ok (again s')
      → batch_loop p (suc fuel) limit budget fixed_end s
        ≡ batch_loop p fuel limit budget fixed_end s'
  unfolding batch_loop
  batch_loop_again h = rw (h, batch_loop)

module _ (p : Platform) (floats : FloatsPrintable p) (limit : ℕ) (budget : Option ℕ) where
  -- Up to a fixed end, the loop reads the entries before it, whatever the limit and the budget.
  pub batch_loop-fixed :
      (end : ℕ) (xs ys : List Entry) (s : Reading) (fuel : ℕ)
      → All (IsEntry p) xs
      → s.rest ≡ content (xs ++ ys)
      → s.position + length (content xs) ≡ end
      → length xs < fuel
      → batch_loop p fuel limit budget (some end) s ≡ ok (after_entries s xs ys)
  batch_loop-fixed end xs ys s zero valid rest stops enough = absurd (omega arith)
  batch_loop-fixed end [] ys s (suc fuel) valid rest stops enough =
      batch_loop_stop p limit budget (some end) fuel s s (
        batch_round_unwanted p floats limit budget (some end) s
          (ge→ltb s.position end (omega arith)))
  batch_loop-fixed end (x ∷ xs) ys s (suc fuel) valid rest stops enough =
      batch_loop_again p limit budget (some end) fuel s (after_entry s x (content (xs ++ ys))) (
        batch_round-fixed p floats limit budget end s x (xs ++ ys) valid.0 rest
          (omega (arith, length-content_cons x xs)))
      ∙ batch_loop-fixed end xs ys (after_entry s x (content (xs ++ ys))) fuel valid.1 refl
          (omega (arith, length-content_cons x xs)) (omega arith)

module _ (p : Platform) (floats : FloatsPrintable p) (limit : ℕ) where
  -- Without a budget, the loop reads up to the limit, or all there is.
  pub batch_loop-limit :
      (more : ℕ) (es : List Entry) (s : Reading) (fuel : ℕ)
      → All (IsEntry p) es
      → s.rest ≡ content es
      → length s.points + more ≡ limit
      → length es < fuel
      → batch_loop p fuel limit none none s ≡ ok (after_entries s (take more es) (drop more es))
  batch_loop-limit more es s zero valid rest room enough = absurd (omega arith)
  batch_loop-limit zero es s (suc fuel) valid rest room enough =
      batch_loop_stop p limit none none fuel s s (
        batch_round_unwanted p floats limit none none s
          (ge→ltb (length s.points) limit (omega arith)))
  batch_loop-limit (suc more) [] s (suc fuel) valid rest room enough =
      batch_loop_stop p limit none none fuel s s (
        batch_round_end p floats limit none none s rest
          (lt→ltb (length s.points) limit (omega arith)))
  batch_loop-limit (suc more) (e ∷ es) s (suc fuel) valid rest room enough =
      let next : Reading = after_entry s e (content es) in
      let split : content es ≡ content (take more es ++ drop more es) =
        ap content (sym (take-append-drop more es)) in
      batch_loop_again p limit none none fuel s next (
        batch_round-entry p floats limit none none s e es valid.0 rest
          (lt→ltb (length s.points) limit (omega arith)) refl
        ∙ unfold within_budget in refl)
      ∙ batch_loop-limit more es next fuel valid.1 refl
          (omega (arith, length-append {0} s.points (e.fields ∷ []))) (omega arith)
      ∙ ap (λ rest. ok (after_entries (after_entry s e rest) (take more es) (drop more es))) split
