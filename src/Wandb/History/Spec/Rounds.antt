-- ===== src/Wandb/History/Spec/Rounds.antt =====
-- The rounds of the loop over a history.
use epochdeck.Prelude.{
  ℕ, zero, suc, ◌+◌, ◌<◌, ◌≡◌, ◌∙◌, refl, ap, sym, subst, ◌⊎◌, inl, inr, List, [], ◌∷◌, ◌++◌, drop,
  arith, ltb, leb, if◌then◌else◌, length,
}
use epochdeck.Error.{import_error, Result, ok}
use epochdeck.Exec.{Exec, pure}
use epochdeck.Exec.Ensures.{
  Ensures, bind-Ensures, map-Ensures, lift-Ensures, guard-Ensures, if_Ensures,
}
use epochdeck.Wandb.{Point, Row, skipped_values}
use epochdeck.Wandb.History.{Setup, Saved, Import, Scan, check}
use epochdeck.Wandb.History.Loop.{take_row, schedule_media, import_row, import_rows, start}
use epochdeck.Wandb.History.Spec.{points_from, cons_row, readable, advance, Progress}
use epochdeck.Wandb.History.Spec.Scanning.{Ok, Bad, At, flushed-At}
use epochdeck.Wandb.History.Spec.Sending.{Clear-Stopped, on_world-Clear}
use epochdeck.Wandb.History.Spec.Dividing.{take_row-Done}

pub drop-suc :
    {A : Type 0} (n : ℕ) (xs : List A) {x : A} {rest : List A}
    → drop n xs ≡ x ∷ rest
    → drop (suc n) xs ≡ rest
drop-suc zero [] h = absurd (ground (arith, ap length h))
drop-suc zero (y ∷ xs) h = ap (drop 1) h
drop-suc (suc n) [] h = absurd (ground (arith, ap length h))
drop-suc (suc n) (y ∷ xs) h = drop-suc n xs h

readable-cons :
    {Raw : Type 0} (read_row : ℕ → Raw → Result Row) (n : ℕ) (item : Result Raw)
    (items : List (Result Raw)) (raw : Raw) (row : Row)
    → item ≡ ok raw
    → read_row n raw ≡ ok row
    → readable read_row n (item ∷ items) ≡ row ∷ readable read_row (n + 1) items
unfolding readable
readable-cons read_row n item items raw row same read =
    ap (λ i. readable read_row n (i ∷ items)) same
    ∙ ap (λ r. cons_row read_row r (readable read_row (n + 1) items)) read

module _ {S Raw : Type 0} (setup : Setup S Raw) (rows : List Row) (points : List Point) where
  abbrev skips : Row → ℕ
  skips row = skipped_values setup.include_files row

  abbrev Good : List Point → Saved → Import S → Type 0
  Good later saved s = Ok setup rows points later saved s

  abbrev Fail : Import S → Type 0
  Fail s = Bad setup rows points s

  abbrev Done : Scan → Saved → List Row → Import S → Type 0
  Done l s rest st = At setup rows points l s rest st

  -- All rows are taken.
  pub record Through (l : Scan) (st : Import S) : Type 0 where
    pub last : Saved
    pub at : Done l last [] st

  abbrev what_follows : Scan → Row → Exec (Import S) Scan
  what_follows next row =
      if leb next.scanned_rows next.rows_committed then pure next else take_row setup next row

  schedule_Good :
      (n : ℕ) (row : Row) (later : List Point) (kept : Saved) (st : Import S)
      → Good later kept st
      → Ensures Fail (λ _ t. Good later kept t) (schedule_media setup n row st)
  schedule_Good n row later kept st c =
      if_Ensures Fail (λ _ t. Good later kept t) setup.include_files _ _ st
        (λ _.
          on_world-Clear setup.env setup.json_size skips rows points (setup.env.schedule n row)
            later kept st c)
        (λ _. c)

  -- What precedes the taking of a row changes what is outside only.
  import_row_front :
      (P : Scan → Import S → Type 0) (l : Scan) (item : Result Raw) (later : List Point)
      (kept : Saved) (st : Import S)
      → Good later kept st
      → ((raw : Raw) (row : Row) (t : Import S)
          → item ≡ ok raw
          → setup.read_row l.scanned_rows raw ≡ ok row
          → Good later kept t
          → Ensures Fail P (what_follows (record l { scanned_rows = l.scanned_rows + 1 }) row t))
      → Ensures Fail P (import_row setup l item st)
  unfolding import_row
  import_row_front P l item later kept st c then_ =
      let fails : (s : Import S) → Good later kept s → Fail s =
        λ s g. Clear-Stopped setup.env setup.json_size skips rows points later kept s g in
      lift-Ensures Fail P item _ st (fails st c) λ raw given.
        bind-Ensures Fail (λ _ t. Good later kept t) P (check setup.env setup.json_size) _ st
          (on_world-Clear setup.env setup.json_size skips rows points setup.env.check_cancelled
            later kept st c)
          λ _ t d.
            guard-Ensures Fail P (ltb setup.limit (l.scanned_rows + 1)) import_error _ t (fails t d)
              λ _.
                lift-Ensures Fail P (setup.read_row l.scanned_rows raw) _ t (fails t d) λ row read.
                  bind-Ensures Fail (λ _ u. Good later kept u) P
                    (schedule_media setup (l.scanned_rows + 1) row) _ t
                    (schedule_Good (l.scanned_rows + 1) row later kept t d)
                    λ _ u g. then_ raw row u given read g

  -- A row at a round's end, and the rows behind it.
  abbrev After : List (Result Raw) → Scan → Import S → Type 0
  After items m t = (u : Saved) × Done m u (readable setup.read_row m.scanned_rows items) t

  took_row :
      (items : List (Result Raw)) (l : Scan) (s : Saved) (row : Row) (ahead : List Row)
      (st t : Import S)
      → (at : Done l s ahead st)
      → Good (l.batch ++ points_from s.next_sequence ahead) at.near.kept t
      → ahead ≡ row ∷ readable setup.read_row (l.scanned_rows + 1) items
      → Ensures Fail
          (After items)
          (what_follows (record l { scanned_rows = l.scanned_rows + 1 }) row t)
  took_row items l s row ahead st t at g now =
      let rest = readable setup.read_row (l.scanned_rows + 1) items in
      let next = record l { scanned_rows = l.scanned_rows + 1 } in
      if_Ensures Fail (After items) (leb next.scanned_rows next.rows_committed) _ _ t
        (λ behind. absurd (ground (arith, behind, at.near.scanned, at.near.committed)))
        (λ _.
          map-Ensures Fail _ (After items) _
            (take_row-Done setup rows points next s row rest t (record {
              kept = at.near.kept;
              clear =
                  subst (λ r. Good (l.batch ++ points_from s.next_sequence r) at.near.kept t) now g;
              reached = subst (λ r. Progress skips rows s r) now at.near.reached;
              scanned = omega (arith, at.near.scanned);
              sequence = at.near.sequence;
              unsupported = at.near.unsupported;
              filling = at.near.filling;
              committed = at.near.committed;
              ends = at.ends;
              free = at.free;
            }))
            λ m u done. (
              advance skips s row,
              subst (λ r. Done m (advance skips s row) r u)
                  (ap (λ n. readable setup.read_row n items)
                    (omega (arith, done.near.scanned, at.near.scanned)))
                  done,
            ))

  -- The rest of the rows from a round's end.
  rows-Through :
      (items : List (Result Raw)) (l : Scan) (s : Saved) (st : Import S)
      → Done l s (readable setup.read_row l.scanned_rows items) st
      → Ensures Fail Through (import_rows setup l items st)
  unfolding import_rows readable
  rows-Through [] l s st at = record { last = s; at = at }
  rows-Through (item ∷ items) l s st at =
      let rest = readable setup.read_row l.scanned_rows (item ∷ items) in
      bind-Ensures Fail (After items) Through (import_row setup l item) _ st
        (import_row_front (After items) l item (l.batch ++ points_from s.next_sequence rest)
          at.near.kept st at.near.clear
          λ raw row t given read g.
            took_row items l s row rest st t at g
              (readable-cons setup.read_row l.scanned_rows item items raw row given read))
        λ m t (u, h). rows-Through items m u t h

  -- The rows that were committed before are read again, and `k` of them are left.
  abbrev Skipped : Scan → Import S → Type 0
  Skipped m t = Through m t ⊎ (m.scanned_rows < m.rows_committed × Fail t)

  pub rows-Skip :
      (items : List (Result Raw)) (n k : ℕ) (s : Saved) (rest : List Row) (st : Import S)
      → n + k ≡ s.rows_committed
      → Progress skips rows s rest
      → Good (points_from s.next_sequence rest) s st
      → drop k (readable setup.read_row n items) ≡ rest
      → Ensures Fail Skipped (import_rows setup (start setup n s) items st)
  unfolding import_rows
  rows-Skip items n zero s rest st count reached c from =
      let l = start setup n s in
      map-Ensures Fail Through Skipped _
        (rows-Through items l s st (
          subst (λ r. Done l s r st) (sym from)
            (flushed-At setup rows points l s rest st reached (omega (arith, count)) refl refl c)))
        λ m t h. inl h
  rows-Skip [] n (suc k) s rest st count reached c from = inr (
    omega (arith, count),
    Clear-Stopped setup.env setup.json_size skips rows points (points_from s.next_sequence rest) s
        st c,
  )
  rows-Skip (item ∷ items) n (suc k) s rest st count reached c from =
      let l = start setup n s in
      let next = start setup (n + 1) s in
      let Reread : Scan → Import S → Type 0 = λ m t.
        (m ≡ next)
        × Good (points_from s.next_sequence rest) s t
        × (drop k (readable setup.read_row (n + 1) items) ≡ rest) in
      bind-Ensures Fail Reread Skipped (import_row setup l item) _ st
        (import_row_front Reread l item (points_from s.next_sequence rest) s st c
          λ raw row t given read g.
            if_Ensures Fail Reread (leb next.scanned_rows next.rows_committed) _ _ t
              (λ _. (
                refl,
                g,
                sym (
                      ap (drop (suc k))
                        (readable-cons setup.read_row n item items raw row given read))
                    ∙ from,
              ))
              (λ ahead. absurd (ground (arith, ahead, count))))
        λ m t (same, g, from_next).
          subst (λ x. Ensures Fail Skipped (import_rows setup x items t)) (sym same)
            (rows-Skip items (n + 1) k s rest t (omega (arith, count)) reached g from_next)
