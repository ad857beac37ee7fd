-- ===== src/Wandb/History/Resuming.antt =====
-- Imports that are interrupted, and those that go on from the saved progress.
use epochdeck.Prelude.{
  ℕ, suc, ◌+◌, ◌≤◌, ◌≡◌, ◌∙◌, refl, sym, ap, subst, List, [], ◌∷◌, ◌++◌, map, arith, ◌==◌,
  if◌then◌else◌, length,
}
use epochdeck.Error.{Error, Result, ok, err}
use epochdeck.Exec.Ensures.{Ensures}
use epochdeck.Wandb.{Point, Row, skipped_values}
use epochdeck.Wandb.History.{Setup, Saved, Import}
use epochdeck.Wandb.History.Loop.{import_history}
use epochdeck.Wandb.History.Spec.{
  points_from, flatten, cons_row, readable, Progress, at_start, after,
}
use epochdeck.Wandb.History.Spec.Sending.{Stopped}
use epochdeck.Wandb.History.Spec.Returning.{Returns, Calm, Takes}
use epochdeck.Wandb.History.Spec.Completing.{history_items}
use epochdeck.Wandb.History.Spec.Ending.{import_history_Runs}
use epochdeck.Wandb.History.Spec.Importing.{Imported, import_history-Imported}

-- The rows that are to be imported.
abbrev pub rows_of : {S Raw : Type 0} → Setup S Raw → List (Result Raw) → List Row
rows_of setup items = readable setup.read_row 0 (if setup.limit == 0 then [] else items)

-- From any saved progress of a history, an import that raises at any call has sent the points of
-- the remaining rows in order from the first one on, each request with 1 to 512 points within the
-- byte budget, and has saved a progress of the history whose points are all acknowledged; an
-- import that returns had all points acknowledged, and returns and has saved the progress at the
-- history's end.
pub import_history-Ensures :
    {S Raw : Type 0} (setup : Setup S Raw) (items : List (Result Raw)) (media_rows : ℕ)
    (s : Import S) (rest : List Row)
    → s.sent ≡ []
    → s.acknowledged ≡ []
    → Progress (skipped_values setup.include_files) (rows_of setup items) s.saved rest
    → Ensures
        (Stopped setup.env setup.json_size
          (skipped_values setup.include_files)
          (rows_of setup items)
          (points_from s.saved.next_sequence rest))
        (λ result t.
          Imported setup (rows_of setup items) (points_from s.saved.next_sequence rest) result.0 t)
        (import_history setup items media_rows s)
import_history-Ensures setup items media_rows s rest none_sent none_acknowledged reached =
    import_history-Imported setup (rows_of setup items) (points_from s.saved.next_sequence rest)
      items media_rows s rest refl none_sent none_acknowledged reached refl

-- What two imports, the first of them interrupted, sent together.
pub record Resumed (skipped : Row → ℕ) (rows : List Row) (points : List Point)
    (first second : List (List Point)) (saved : Saved) : Type 0 where
  pub kept : List Point
  pub again : List Point
  pub received : kept ++ again ≡ flatten first
  pub continued : kept ++ flatten second ≡ points
  pub to_the_end : Progress skipped rows saved []

-- When an import of a history that started from a saved progress raises, and another import that
-- starts from what the first one saved, over a source whose rows read the same, returns, then what
-- the first one had acknowledged begins with points `kept`, and `kept` followed by what the second
-- one had acknowledged is exactly the points of the rows that were to be imported, each once, in
-- order and with its sequence number; the progress saved at last is that of the whole history.
pub import_history-Resumed :
    {S Raw : Type 0} (setup : Setup S Raw) (items more_items : List (Result Raw))
    (media_rows more_media_rows : ℕ) (s t u v : Import S) (rest : List Row) (e : Error)
    (result : Saved × ℕ)
    → s.sent ≡ []
    → s.acknowledged ≡ []
    → Progress (skipped_values setup.include_files) (rows_of setup more_items) s.saved rest
    → rows_of setup items ≡ rows_of setup more_items
    → import_history setup items media_rows s ≡ (err e, t)
    → u.sent ≡ []
    → u.acknowledged ≡ []
    → u.saved ≡ t.saved
    → import_history setup more_items more_media_rows u ≡ (ok result, v)
    → Resumed
        (skipped_values setup.include_files)
        (rows_of setup more_items)
        (points_from s.saved.next_sequence rest)
        t.acknowledged
        v.acknowledged
        v.saved
import_history-Resumed {S = S} setup items more_items media_rows more_media_rows s t u v rest e
      result none_sent none_acknowledged reached same_rows raised none_sent_again
      none_acknowledged_again same returns =
    let skips = skipped_values setup.include_files in
    let rows = rows_of setup more_items in
    let points = points_from s.saved.next_sequence rest in
    let Done : List Point → Saved × ℕ → Import S → Type 0 =
      λ ps r w. Imported setup rows ps r.0 w in
    let Fail : List Point → Import S → Type 0 =
      λ ps w. Stopped setup.env setup.json_size skips rows ps w in
    let stopped : Stopped setup.env setup.json_size skips rows points t =
      subst (Ensures (Fail points) (Done points)) raised (
        import_history-Imported setup rows points items media_rows s rest same_rows none_sent
          none_acknowledged reached refl) in
    let stored = stopped.stored in
    let later = points_from t.saved.next_sequence stored.rest in
    let done : Done later result v = subst (Ensures (Fail later) (Done later)) returns (
      import_history-Imported setup rows later more_items more_media_rows u stored.rest refl
        none_sent_again none_acknowledged_again
        (subst (λ k. Progress skips rows k stored.rest) (sym same) stored.reached)
        (ap (λ k. points_from k.next_sequence stored.rest) same)) in
    record {
      kept = stored.before;
      again = stored.more;
      received = stored.sent_before;
      continued = ap (λ ps. stored.before ++ ps) done.all_sent ∙ stored.splits;
      to_the_end = subst (λ k. Progress skips rows k []) (sym done.now) done.to_the_end;
    }

Progress-length :
    {skipped : Row → ℕ} {rows : List Row} {s : Saved} {rest : List Row}
    → Progress skipped rows s rest
    → s.rows_committed + length rest ≡ length rows
Progress-length at_start = omega arith
Progress-length (after p) = omega (arith, Progress-length p)

length-map : {A B : Type 0} (f : A → B) (xs : List A) → length (map f xs) ≡ length xs
length-map f [] = refl
length-map f (x ∷ xs) = ap suc (length-map f xs)

length-cons_row :
    {Raw : Type 0} (read_row : ℕ → Raw → Result Row) (r : Result Row) (rows : List Row)
    → length (cons_row read_row r rows) ≤ length rows + 1
length-cons_row read_row (ok row) rows = omega arith
length-cons_row read_row (err e) rows = omega arith

length-readable :
    {Raw : Type 0} (read_row : ℕ → Raw → Result Row) (n : ℕ) (items : List (Result Raw))
    → length (readable read_row n items) ≤ length items
unfolding readable
length-readable read_row n [] = omega arith
length-readable read_row n (err e ∷ items) = omega arith
length-readable read_row n (ok raw ∷ items) = omega (
  arith,
  length-cons_row read_row (read_row n raw) (readable read_row (n + 1) items),
  length-readable read_row (n + 1) items,
)

returning :
    {S A : Type 0} (E : S → Type 0) (P : A → S → Type 0) (outcome : Result A × S)
    → Ensures E P outcome
    → Returns (λ _ _. Unit {0}) outcome
    → Returns P outcome
returning E P (ok a, s) h r = h
returning E P (err e, s) h r = absurd r

-- From any saved progress of a history of as many rows as the source declares, of which each can
-- be read, has valid keys and at most 4096 metrics, and gives points within the byte budget, an
-- import in which no call raises returns, with all points acknowledged and the history's end
-- saved, if no more media rows were committed than there are rows.
pub import_history-Returns :
    {S Raw : Type 0} (setup : Setup S Raw) (raws : List Raw) (media_rows : ℕ) (s : Import S)
    (rest : List Row)
    → Calm setup.env
    → Takes setup.json_size setup.read_row 0 raws
    → length raws ≡ setup.limit
    → media_rows ≤ setup.limit
    → s.sent ≡ []
    → s.acknowledged ≡ []
    → Progress (skipped_values setup.include_files) (rows_of setup (map ok raws)) s.saved rest
    → Returns
        (λ result t.
          Imported setup
            (rows_of setup (map ok raws))
            (points_from s.saved.next_sequence rest)
            result.0
            t)
        (import_history setup (map ok raws) media_rows s)
import_history-Returns setup raws media_rows s rest calm takes count media none_sent
      none_acknowledged reached =
    let rows = rows_of setup (map ok raws) in
    let items = if setup.limit == 0 then [] else map ok raws in
    let points = points_from s.saved.next_sequence rest in
    returning (Stopped setup.env setup.json_size (skipped_values setup.include_files) rows points) _
      _
      (import_history-Imported setup rows points (map ok raws) media_rows s rest refl none_sent
        none_acknowledged reached refl)
      (import_history_Runs setup calm raws media_rows s count takes
        (omega (
          arith,
          Progress-length reached,
          length-readable setup.read_row 0 items,
          ap length (history_items setup.limit raws count),
          length-map ok raws,
          count,
        ))
        media)
