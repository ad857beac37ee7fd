-- ===== src/History/Rows.antt =====
-- The sequence numbers in the rows that `_history_rows` makes.
use epochdeck.Prelude.{
  ℕ, ◌≡◌, ◌∙◌, refl, ap, sym, subst, false, not, ◌||◌, none, some, List, [], ◌∷◌, map, arith, ◌==◌,
  length,
}
use epochdeck.Text.{Text, codes, text_eq}
use epochdeck.Error.{Error, ok, raise_if, returned, passes_then, ok_injective}
use epochdeck.Json.{Value, arr, Items, Fields, get}
use epochdeck.Platform.{Platform}
use epochdeck.History.{among, list_of, list_column, metrics_object}
use epochdeck.History.Paging.{key_columns, heads, tails, row, rows_of, history_rows}
use epochdeck.History.Columns.{sequence_of, get-update_other}

abbrev NoColumn : Text → List (Text × List Value) → Type 0
NoColumn k [] = Unit
NoColumn k ((j, vs) ∷ columns) = (text_eq k j ≡ false) × NoColumn k columns

module _ (p : Platform) (k : Text) where
  key_columns-NoColumn :
      (metrics : Fields) (n : ℕ) (keys : List Text) (columns : List (Text × List Value))
      → among k keys ≡ false
      → key_columns p metrics n keys ≡ ok columns
      → NoColumn k columns
  unfolding key_columns among
  key_columns-NoColumn metrics n [] columns h g = subst (NoColumn k) (ok_injective [] columns g) tt
  key_columns-NoColumn metrics n (j ∷ keys) columns h g =
      let other : (text_eq k j ≡ false) × (among k keys ≡ false) = ground arith in
      let (column, _, g1) = returned (list_column (get j metrics)) _ g in
      let (_, g2) = passes_then (raise_if _ _) _ g1 in
      let (rest, later, g3) = returned (key_columns p metrics n keys) _ g2 in
      subst (NoColumn k) (ok_injective ((j, column) ∷ rest) columns g3)
        (other.0, key_columns-NoColumn metrics n keys rest other.1 later)

  heads-none :
      (columns : List (Text × List Value)) → NoColumn k columns → get k (heads p columns) ≡ none
  unfolding heads get
  heads-none [] h = refl
  heads-none ((j, []) ∷ columns) h = heads-none columns h.1
  heads-none ((j, v ∷ vs) ∷ columns) h = ground (arith, h, heads-none columns h.1)

  tails-NoColumn :
      (columns : List (Text × List Value)) → NoColumn k columns → NoColumn k (tails p columns)
  unfolding tails
  tails-NoColumn [] h = tt
  tails-NoColumn ((j, []) ∷ columns) h = (h.0, tails-NoColumn columns h.1)
  tails-NoColumn ((j, v ∷ vs) ∷ columns) h = (h.0, tails-NoColumn columns h.1)

sequence_of-row :
    (p : Platform) (q s t : Value) (columns : List (Text × List Value))
    → NoColumn (codes "_sequence") columns
    → sequence_of (row p q s t columns) ≡ some q
unfolding get text_eq
sequence_of-row p q s t columns h =
    get-update_other (codes "_sequence") _ (heads p columns)
      (heads-none p (codes "_sequence") columns h)

rows_of_lem :
    (p : Platform) (qs ss ts : List Value) (columns : List (Text × List Value))
    → NoColumn (codes "_sequence") columns
    → length ss ≡ length qs
    → length ts ≡ length qs
    → map sequence_of (rows_of p qs ss ts columns) ≡ map some qs
unfolding rows_of
rows_of_lem p [] ss ts columns h e f = refl
rows_of_lem p (q ∷ qs) [] ts columns h e f = absurd (omega arith)
rows_of_lem p (q ∷ qs) (s ∷ ss) [] columns h e f = absurd (omega arith)
rows_of_lem p (q ∷ qs) (s ∷ ss) (t ∷ ts) columns h e f = λ i.
    sequence_of-row p q s t columns h i
    ∷ rows_of_lem p qs ss ts (tails p columns) (tails-NoColumn p (codes "_sequence") columns h)
        (omega arith) (omega arith) i

aligned_lem :
    (m l n : ℕ) (e : Error) → raise_if (not (m == n) || not (l == n)) e ≡ ok tt → (m ≡ n) × (l ≡ n)
aligned_lem m l n e h = ground arith

pub history_rows_lem :
    (p : Platform) (response : Fields) (keys : List Text) (rows : List Fields) (xs : Items)
    → among (codes "_sequence") keys ≡ false
    → get (codes "sequence") response ≡ some (arr xs)
    → history_rows p response keys ≡ ok rows
    → map sequence_of rows ≡ map some (list_of xs)
unfolding history_rows
history_rows_lem p response keys rows xs plain column h =
    let (qs, listed, h1) = returned (list_column (get (codes "sequence") response)) _ h in
    let (ss, _, h2) = returned (list_column (get (codes "step") response)) _ h1 in
    let (ts, _, h3) = returned (list_column (get (codes "timestamp_ms") response)) _ h2 in
    let (aligned, h4) = passes_then (raise_if _ _) _ h3 in
    let (metrics, _, h5) = returned (metrics_object p (get (codes "metrics") response)) _ h4 in
    let (columns, kept, h6) = returned (key_columns p metrics (length qs) keys) _ h5 in
    let same = ok_injective (list_of xs) qs (ap list_column (sym column) ∙ listed) in
    let (even, level) = aligned_lem _ _ _ _ aligned in
    ap (map sequence_of) (sym (ok_injective (rows_of p qs ss ts columns) rows h6))
    ∙ rows_of_lem p qs ss ts columns
        (key_columns-NoColumn p (codes "_sequence") metrics (length qs) keys columns plain kept)
        even level
    ∙ ap (map some) (sym same)
