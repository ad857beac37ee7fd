-- ===== src/Wandb/History/Spec/Importing.antt =====
-- An import of a history from its first round to its end, and one after the other.
use epochdeck.Prelude.{
  ℕ, suc, ◌+◌, ◌<◌, ◌≡◌, ◌∙◌, refl, ap, sym, subst, ◌⊎◌, inl, inr, max, Bool, true, not, ◌&&◌, ◌||◌,
  List, [], ◌++◌, append-nil, drop, arith, ltb, ◌==◌, if◌then◌else◌, length, All,
}
use epochdeck.Error.{import_error, Result, ok, err, raise_if}
use epochdeck.Exec.{pure, lift, ◌>>◌}
use epochdeck.Exec.Ensures.{Ensures, bind-Ensures, guard-Ensures, if_Ensures}
use epochdeck.Protocol.{is_empty}
use epochdeck.Wandb.{Point, Row, skipped_values}
use epochdeck.Wandb.History.{Setup, Saved, Import, Scan, commit_metric_batch, save}
use epochdeck.Wandb.History.Loop.{
  import_rows, finish_batch, finish_rows, start, import_items, aborted, finish_media,
  import_history,
}
use epochdeck.Wandb.History.Spec.{points_from, flatten, readable, Progress, at_start, after, Fits}
use epochdeck.Wandb.History.Spec.Scanning.{Ok, Bad, Near}
use epochdeck.Wandb.History.Spec.Sending.{
  Clear-Stopped, Stopped-world, outside_keeps, commit_Clear, save-Clear,
}
use epochdeck.Wandb.History.Spec.Splitting.{Filling-Fits, empty_lem}
use epochdeck.Wandb.History.Spec.Rounds.{Through, drop-suc, rows-Skip}

Progress-drop :
    {skipped : Row → ℕ} {rows : List Row} {s : Saved} {rest : List Row}
    → Progress skipped rows s rest
    → drop s.rows_committed rows ≡ rest
Progress-drop at_start = refl
Progress-drop {rows = rows} (after {s = s} {row = row} {rest = rest} p) =
    ap (λ n. drop n rows) {x = s.rows_committed + 1} {y = suc s.rows_committed} (omega arith)
    ∙ drop-suc s.rows_committed rows (Progress-drop p)

module _ {S Raw : Type 0} (setup : Setup S Raw) (rows : List Row) (points : List Point) where
  abbrev skips : Row → ℕ
  skips row = skipped_values setup.include_files row

  abbrev Good : List Point → Saved → Import S → Type 0
  Good later saved s = Ok setup rows points later saved s

  abbrev Fail : Import S → Type 0
  Fail s = Bad setup rows points s

  -- After an import that returns: all points are acknowledged, and the end of the history is saved.
  pub record Imported (progress : Saved) (s : Import S) : Type 0 where
    pub stopped : Fail s
    pub all_sent : flatten s.acknowledged ≡ points
    pub to_the_end : Progress skips rows progress []
    pub now : s.saved ≡ progress

  send_rest :
      (l : Scan) (last : Saved) (st : Import S)
      → (near : Near setup rows points l last [] st)
      → Ensures Fail
          (λ _ t. Good [] near.kept t)
          ((if is_empty l.batch
              then pure tt
              else commit_metric_batch setup.env setup.json_size l.batch)
            st)
  unfolding points_from
  send_rest l last st near =
      if_Ensures Fail (λ _ t. Good [] near.kept t) (is_empty l.batch) _ _ st
        (λ none_left.
          subst (λ b. Good (b ++ []) near.kept st) (empty_lem l.batch none_left) near.clear)
        (λ more.
          commit_Clear setup.env setup.json_size skips rows points l.batch [] near.kept st
            (Filling-Fits setup.json_size l.batch l.batch_bytes more near.filling) near.clear)

  Clear-Imported :
      (progress last : Saved) (st : Import S)
      → Progress skips rows last []
      → progress ≡ last
      → Good [] last st
      → Imported progress st
  Clear-Imported progress last st end same c = record {
    stopped = Clear-Stopped setup.env setup.json_size skips rows points [] last st c;
    all_sent = sym (append-nil (flatten st.acknowledged)) ∙ c.stream;
    to_the_end = subst (λ p. Progress skips rows p []) (sym same) end;
    now = c.now ∙ sym same;
  }

  save_rest :
      (l : Scan) (progress last : Saved) (st t : Import S)
      → (near : Near setup rows points l last [] st) → progress ≡ last
      → Good [] near.kept t
      → Ensures Fail
          (λ p u. Imported p u)
          (((if ltb l.rows_committed l.scanned_rows
                then save setup.env setup.json_size progress
                else pure tt)
              >> pure progress)
            t)
  unfolding points_from
  save_rest l progress last st t near same c =
      bind-Ensures Fail (λ _ u. Good [] last u) (λ p u. Imported p u)
        (if ltb l.rows_committed l.scanned_rows
          then save setup.env setup.json_size progress
          else pure tt)
        _ t
        (if_Ensures Fail (λ _ u. Good [] last u) (ltb l.rows_committed l.scanned_rows) _ _ t
          (λ _.
            subst (λ p. Ensures Fail (λ _ u. Good [] last u) (save setup.env setup.json_size p t))
              (sym same)
              (save-Clear setup.env setup.json_size skips rows points [] near.kept last [] t
                near.reached refl c))
          (λ saved.
            subst (λ p. Good [] p t)
              (near.saved_all (ground (arith, saved, near.scanned, near.committed))) c))
        λ _ u g. Clear-Imported progress last u near.reached same g

  finish_rows-Imported :
      (in_history : Bool) (media_rows : ℕ) (l : Scan) (st : Import S)
      → (Through setup rows points l st ⊎ (l.scanned_rows < l.rows_committed × Fail st))
      → Ensures Fail Imported (finish_rows setup in_history media_rows l st)
  unfolding finish_rows
  finish_rows-Imported in_history media_rows l st (inl h) =
      let near = h.at.near in
      let progress : Saved = record {
        rows_committed = max l.rows_committed l.scanned_rows;
        next_sequence = l.next_sequence + length l.batch;
        unsupported_values = l.unsupported_values;
      } in
      let reached_rows : max l.rows_committed l.scanned_rows ≡ h.last.rows_committed =
        omega (arith, near.committed, near.scanned) in
      let same : progress ≡ h.last = λ i. record {
        rows_committed = reached_rows i;
        next_sequence = near.sequence i;
        unsupported_values = near.unsupported i;
      } in
      let fails : Fail st =
        Clear-Stopped setup.env setup.json_size skips rows points
          (l.batch ++ points_from h.last.next_sequence []) near.kept st near.clear in
      let tail = finish_batch setup l in
      let short = ltb l.scanned_rows l.rows_committed || ltb l.scanned_rows media_rows in
      guard-Ensures Fail Imported (in_history && not (l.scanned_rows == setup.limit)) import_error
        (lift (raise_if short import_error) >> tail) st fails
        λ _. guard-Ensures Fail Imported short import_error tail st fails λ _.
          bind-Ensures Fail (λ _ t. Good [] near.kept t) Imported
            (if is_empty l.batch
              then pure tt
              else commit_metric_batch setup.env setup.json_size l.batch)
            _ st (send_rest l h.last st near) λ _ t d. save_rest l progress h.last st t near same d
  finish_rows-Imported in_history media_rows l st (inr (short, fails)) =
      let tail = finish_batch setup l in
      let is_short = ltb l.scanned_rows l.rows_committed || ltb l.scanned_rows media_rows in
      guard-Ensures Fail Imported (in_history && not (l.scanned_rows == setup.limit)) import_error
        (lift (raise_if is_short import_error) >> tail) st fails
        λ _.
          guard-Ensures Fail Imported is_short import_error tail st fails
            λ long. absurd (ground (arith, short, long))

  -- Before the first round.
  start_Good :
      (s : Import S) (rest : List Row)
      → s.sent ≡ []
      → s.acknowledged ≡ []
      → Progress skips rows s.saved rest
      → points_from s.saved.next_sequence rest ≡ points
      → Good points s.saved s
  unfolding flatten
  start_Good s rest none_sent none_acknowledged reached from = record {
    stream = ap (λ bs. flatten bs ++ points) none_acknowledged;
    same = none_sent ∙ sym none_acknowledged;
    stored = record {
      rest = rest;
      reached = reached;
      before = [];
      more = [];
      splits = from;
      sent_before = ap flatten (sym none_acknowledged);
    };
    fits = subst (All (Fits setup.json_size)) (sym none_sent) tt;
    now = refl;
  }

  import_items-Imported :
      (items : List (Result Raw)) (media_rows : ℕ) (s : Import S) (rest : List Row)
      → readable setup.read_row 0 (if setup.limit == 0 then [] else items) ≡ rows
      → s.sent ≡ []
      → s.acknowledged ≡ []
      → Progress skips rows s.saved rest
      → points_from s.saved.next_sequence rest ≡ points
      → Ensures Fail Imported (import_items setup items media_rows s)
  unfolding import_items
  import_items-Imported items media_rows s rest history none_sent none_acknowledged reached from =
      bind-Ensures Fail _ Imported
        (import_rows setup (start setup 0 s.saved) (if setup.limit == 0 then [] else items)) _ s
        (rows-Skip setup rows points (if setup.limit == 0 then [] else items) 0
          s.saved.rows_committed s.saved rest s (omega arith) reached
          (subst (λ ps. Good ps s.saved s) (sym from)
            (start_Good s rest none_sent none_acknowledged reached from))
          (ap (drop s.saved.rows_committed) history ∙ Progress-drop reached))
        λ l t h. finish_rows-Imported true media_rows l t h

  aborted-Ensures :
      {A : Type 0} (P : A → Import S → Type 0) (outcome : Result A × Import S)
      → Ensures Fail P outcome
      → Ensures Fail P (aborted setup outcome)
  aborted-Ensures P (ok a, s) h = h
  aborted-Ensures P (err e, s) h =
      Stopped-world setup.env setup.json_size skips rows points s
        (if setup.include_files then setup.env.abort_media s.world else s.world) h

  Imported-world :
      (progress : Saved) (s : Import S) (w : S)
      → Imported progress s
      → Imported progress (record s { world = w })
  Imported-world progress s w h = record {
    stopped = Stopped-world setup.env setup.json_size skips rows points s w h.stopped;
    all_sent = h.all_sent;
    to_the_end = h.to_the_end;
    now = h.now;
  }

  finish_media-Imported :
      (media_rows : ℕ) (progress : Saved) (s : Import S)
      → Imported progress s
      → Ensures Fail (λ _ t. Imported progress t) (finish_media setup media_rows s)
  finish_media-Imported media_rows progress s h =
      if_Ensures Fail (λ _ t. Imported progress t) setup.include_files _ _ s
        (λ _.
          outside_keeps setup.env setup.json_size skips rows points (Imported progress)
            (λ t g. g.stopped) (Imported-world progress) s (setup.env.finish_media s.world) h)
        (λ _. h)

  pub import_history-Imported :
      (items : List (Result Raw)) (media_rows : ℕ) (s : Import S) (rest : List Row)
      → readable setup.read_row 0 (if setup.limit == 0 then [] else items) ≡ rows
      → s.sent ≡ []
      → s.acknowledged ≡ []
      → Progress skips rows s.saved rest
      → points_from s.saved.next_sequence rest ≡ points
      → Ensures Fail (λ result t. Imported result.0 t) (import_history setup items media_rows s)
  unfolding import_history
  import_history-Imported items media_rows s rest history none_sent none_acknowledged reached from =
      let Post : Saved × ℕ → Import S → Type 0 = λ result t. Imported result.0 t in
      aborted-Ensures Post _ (
        bind-Ensures Fail Imported Post (import_items setup items media_rows) _ s
          (import_items-Imported items media_rows s rest history none_sent none_acknowledged reached
            from)
          λ progress t done.
            bind-Ensures Fail (λ _ u. Imported progress u) Post (finish_media setup media_rows) _ t
              (finish_media-Imported media_rows progress t done) λ rows_done u h. h)
