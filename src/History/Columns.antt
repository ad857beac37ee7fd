-- ===== src/History/Columns.antt =====
-- The columns of a history response behind `_validate_history_response`.
use epochdeck.Prelude.{
  ℕ, ◌<◌, ◌≡◌, ◌∙◌, refl, ap, Bool, true, false, Option, none, some, List, [], ◌∷◌, map, arith, leb,
  length, if◌then◌else◌,
}
use epochdeck.Prelude.Int.{pos, negsuc}
use epochdeck.Text.{Text, codes, text_eq}
use epochdeck.Error.{Error, ok, err, raise_if, returned, passes_then, not_raised, ok_injective}
use epochdeck.Json.{
  Value, null, bool, int, float, str, arr, obj, Items, Fields, no_fields, field, get, insert,
  update, get-insert,
}
use epochdeck.Protocol.{require_text}
use epochdeck.Platform.{Platform}
use epochdeck.Normalization.{max_safe_integer}
use epochdeck.History.{
  naturals, history_integer_column, any_step_back, starts_before, list_column, list_of,
  safe_natural, validate_history_response, check_cursor, metric_columns, metrics_object,
  optional_position,
}

pub accepts {ℓ} :
    {A : Type ℓ} (b : Bool) (e : Error) (a c : A)
    → (if b then ok a else err e) ≡ ok c
    → (a ≡ c) × (b ≡ true)
accepts true e a c h = (ok_injective a c h, refl)
accepts false e a c h = ground arith

-- Each number is greater than the one before it, and the first than the cursor.
abbrev pub Behind : Option ℕ → ℕ → Type 0
Behind none n = Unit
Behind (some after) n = after < n

abbrev pub Increasing : Option ℕ → List ℕ → Type 0
Increasing after [] = Unit
Increasing after (n ∷ ns) = Behind after n × Increasing (some n) ns

pub any_step_back-Increasing :
    (after : Option ℕ) (ns : List ℕ)
    → any_step_back ns ≡ false
    → starts_before after ns ≡ false
    → Increasing after ns
unfolding any_step_back
any_step_back-Increasing none [] h g = tt
any_step_back-Increasing (some a) [] h g = tt
any_step_back-Increasing none (n ∷ []) h g = (tt, tt)
any_step_back-Increasing (some a) (n ∷ []) h g = (ground arith, tt)
any_step_back-Increasing none (n ∷ m ∷ ns) h g =
    (tt, any_step_back-Increasing (some n) (m ∷ ns) (ground arith) (ground arith))
any_step_back-Increasing (some a) (n ∷ m ∷ ns) h g =
    (ground arith, any_step_back-Increasing (some n) (m ∷ ns) (ground arith) (ground arith))

abbrev pub number : ℕ → Value
number n = int (pos n)

safe_natural_lem : (v : Value) (n : ℕ) → safe_natural v ≡ ok n → v ≡ number n
safe_natural_lem (int (pos m)) n h = ap number (accepts (leb m max_safe_integer) _ m n h).0
safe_natural_lem (int (negsuc m)) n h = ground arith
safe_natural_lem null n h = ground arith
safe_natural_lem (bool b) n h = ground arith
safe_natural_lem (float b) n h = ground arith
safe_natural_lem (str b) n h = ground arith
safe_natural_lem (arr b) n h = ground arith
safe_natural_lem (obj b) n h = ground arith

pub naturals_lem : (vs : List Value) (ns : List ℕ) → naturals vs ≡ ok ns → vs ≡ map number ns
unfolding naturals
naturals_lem [] ns h = ap (map number) (ok_injective [] ns h)
naturals_lem (v ∷ vs) ns h =
    let (n, first, h1) = returned (safe_natural v) _ h in
    let (ms, later, h2) = returned (naturals vs) (λ ms. ok (n ∷ ms)) h1 in
    (λ i. safe_natural_lem v n first i ∷ naturals_lem vs ms later i)
    ∙ ap (map number) (ok_injective (n ∷ ms) ns h2)

-- The sequence of a row.
abbrev pub sequence_of : Fields → Option Value
sequence_of fs = get (codes "_sequence") fs

get-cons :
    (k j : Text) (v : Value) (fs : Fields)
    → get k (field j v fs) ≡ none
    → (text_eq k j ≡ false) × (get k fs ≡ none)
unfolding get
get-cons k j v fs h = ground arith

pub get-update_other :
    (k : Text) (fs gs : Fields) → get k gs ≡ none → get k (update fs gs) ≡ get k fs
unfolding update
get-update_other k fs no_fields h = refl
get-update_other k fs (field j v gs) h =
    let (other, rest) = get-cons k j v gs h in
    get-update_other k (insert j v fs) gs rest
    ∙ get-insert j k v fs
    ∙ ap (λ b. if b then some v else get k fs) other

-- What the validation lets through.
pub record Validated (p : Platform) (after : Option ℕ) (sampled : Bool) (response : Fields)
    : Type 0 where
  pub items : Items
  pub sequence : List ℕ
  pub column : get (codes "sequence") response ≡ some (arr items)
  pub numbers : list_of items ≡ map number sequence
  pub increasing : Increasing after sequence
  pub cursor : check_cursor p after sampled sequence (get (codes "next_after") response) ≡ ok tt

list_column_lem :
    (v : Option Value) (vs : List Value)
    → list_column v ≡ ok vs
    → (xs : Items) × (v ≡ some (arr xs)) × (list_of xs ≡ vs)
list_column_lem (some (arr xs)) vs h = (xs, refl, ok_injective (list_of xs) vs h)
list_column_lem none vs h = ground arith
list_column_lem (some null) vs h = ground arith
list_column_lem (some (bool b)) vs h = ground arith
list_column_lem (some (int b)) vs h = ground arith
list_column_lem (some (float b)) vs h = ground arith
list_column_lem (some (str b)) vs h = ground arith
list_column_lem (some (obj b)) vs h = ground arith

pub validate_history_response_lem :
    (p : Platform) (run_id : Text) (keys : List Text) (after : Option ℕ) (sampled : Bool)
    (response : Fields)
    → validate_history_response p run_id keys after sampled response ≡ ok tt
    → Validated p after sampled response
unfolding validate_history_response history_integer_column
validate_history_response_lem p run_id keys after sampled response h =
    let (response_run, _, h1) = returned (require_text response (codes "run_id")) _ h in
    let (_, h2) = passes_then (raise_if _ _) _ h1 in
    let (sequence, first, h3) =
      returned (history_integer_column response (codes "sequence")) _ h2 in
    let (step, _, h4) = returned (history_integer_column response (codes "step")) _ h3 in
    let (stamps, _, h5) = returned (history_integer_column response (codes "timestamp_ms")) _ h4 in
    let (_, h6) = passes_then (raise_if _ _) _ h5 in
    let (rises, h7) = passes_then (raise_if _ _) _ h6 in
    let (behind, h8) = passes_then (raise_if _ _) _ h7 in
    let (metrics, _, h9) = returned (metrics_object p (get (codes "metrics") response)) _ h8 in
    let (_, h10) = passes_then (raise_if _ _) _ h9 in
    let (_, h11) = passes_then (metric_columns p metrics (length sequence) keys) _ h10 in
    let (_, h12) = passes_then (raise_if _ _) _ h11 in
    let (_, h13) = passes_then (optional_position p (get (codes "source_points") response)) _ h12 in
    let (_, h14) =
      passes_then (optional_position p (get (codes "source_last_sequence") response)) _ h13 in
    let (vs, listed, h15) = returned (list_column (get (codes "sequence") response)) _ first in
    let (xs, column, same) = list_column_lem (get (codes "sequence") response) vs listed in
    record {
      items = xs;
      sequence = sequence;
      column = column;
      numbers = same ∙ naturals_lem vs sequence h15;
      increasing =
          any_step_back-Increasing after sequence (not_raised _ _ rises) (not_raised _ _ behind);
      cursor = h14;
    }
