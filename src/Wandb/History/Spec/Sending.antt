-- ===== src/Wandb/History/Spec/Sending.antt =====
-- Sending a batch and saving the progress.
use epochdeck.Prelude.{
  ℕ, ◌≡◌, ◌∙◌, refl, ap, sym, List, [], ◌∷◌, ◌++◌, append_assoc, append-nil, All, All-append,
}
use epochdeck.Error.{Result, ok, err}
use epochdeck.Exec.{Exec}
use epochdeck.Exec.Ensures.{Ensures, bind-Ensures}
use epochdeck.Wandb.{Point, Row}
use epochdeck.Wandb.History.{
  Saved, Import, Env, with_world, on_world, check, commit_metric_batch, save,
}
use epochdeck.Wandb.History.Spec.{points_from, flatten, Progress, Fits, Stored}

flatten-append : (bs cs : List (List Point)) → flatten (bs ++ cs) ≡ flatten bs ++ flatten cs
unfolding flatten
flatten-append [] cs = refl
flatten-append (b ∷ bs) cs =
    ap (λ ps. b ++ ps) (flatten-append bs cs) ∙ sym (append_assoc b (flatten bs) (flatten cs))

pub flatten-snoc :
    (bs : List (List Point)) (b : List Point) → flatten (bs ++ b ∷ []) ≡ flatten bs ++ b
flatten-snoc bs b =
    flatten-append bs (b ∷ []) ∙ ap (λ ps. flatten bs ++ ps) (unfold flatten in append-nil b)

module _ {S : Type 0} (env : Env S) (json_size : Point → ℕ) (skipped : Row → ℕ) (rows : List Row)
    (points : List Point) where
  -- After an exception: what was sent is a part of the points from the first one on.
  pub record Stopped (s : Import S) : Type 0 where
    pub later : List Point
    pub stream : flatten s.sent ++ later ≡ points
    pub stored : Stored skipped rows points s.acknowledged s.saved
    pub fits : All (Fits json_size) s.sent

  -- Between two requests: `later` is to be sent, and `saved` is saved.
  pub record Clear (later : List Point) (saved : Saved) (s : Import S) : Type 0 where
    pub stream : flatten s.acknowledged ++ later ≡ points
    pub same : s.sent ≡ s.acknowledged
    pub stored : Stored skipped rows points s.acknowledged s.saved
    pub fits : All (Fits json_size) s.sent
    pub now : s.saved ≡ saved

  pub Clear-Stopped :
      (later : List Point) (saved : Saved) (s : Import S) → Clear later saved s → Stopped s
  Clear-Stopped later saved s c = record {
    later = later;
    stream = ap (λ bs. flatten bs ++ later) c.same ∙ c.stream;
    stored = c.stored;
    fits = c.fits;
  }

  pub Stopped-world : (s : Import S) (w : S) → Stopped s → Stopped (record s { world = w })
  Stopped-world s w h = record {
    later = h.later;
    stream = h.stream;
    stored = h.stored;
    fits = h.fits;
  }

  -- What is outside changes its own state only.
  pub outside_keeps :
      {A : Type 0} (P : Import S → Type 0)
      → ((s : Import S) → P s → Stopped s)
      → ((s : Import S) (w : S) → P s → P (record s { world = w }))
      → (s : Import S) (outcome : Result A × S) → P s
      → Ensures Stopped (λ (_ : A) t. P t) (with_world env json_size s outcome)
  outside_keeps P stops keeps s (ok a, w) h = keeps s w h
  outside_keeps P stops keeps s (err e, w) h = Stopped-world s w (stops s h)

  Clear-world :
      (later : List Point) (saved : Saved) (s : Import S) (w : S)
      → Clear later saved s
      → Clear later saved (record s { world = w })
  Clear-world later saved s w c = record {
    stream = c.stream;
    same = c.same;
    stored = c.stored;
    fits = c.fits;
    now = c.now;
  }

  pub on_world-Clear :
      {A : Type 0} (m : Exec S A) (later : List Point) (saved : Saved) (s : Import S)
      → Clear later saved s
      → Ensures Stopped (λ (_ : A) t. Clear later saved t) (on_world env json_size m s)
  on_world-Clear m later saved s c =
      outside_keeps (Clear later saved) (Clear-Stopped later saved) (Clear-world later saved) s
        (m s.world) c

  -- While a batch is sent.
  record Asked (batch later : List Point) (saved : Saved) (s : Import S) : Type 0 where
    stream : flatten s.acknowledged ++ (batch ++ later) ≡ points
    same : s.sent ≡ s.acknowledged ++ batch ∷ []
    stored : Stored skipped rows points s.acknowledged s.saved
    fits : All (Fits json_size) s.sent
    now : s.saved ≡ saved

  Asked-Stopped :
      (batch later : List Point) (saved : Saved) (s : Import S)
      → Asked batch later saved s
      → Stopped s
  Asked-Stopped batch later saved s a = record {
    later = later;
    stream =
        ap (λ bs. flatten bs ++ later) a.same
        ∙ ap (λ ps. ps ++ later) (flatten-snoc s.acknowledged batch)
        ∙ append_assoc (flatten s.acknowledged) batch later
        ∙ a.stream;
    stored = a.stored;
    fits = a.fits;
  }

  Asked-world :
      (batch later : List Point) (saved : Saved) (s : Import S) (w : S)
      → Asked batch later saved s
      → Asked batch later saved (record s { world = w })
  Asked-world batch later saved s w c = record {
    stream = c.stream;
    same = c.same;
    stored = c.stored;
    fits = c.fits;
    now = c.now;
  }

  Clear-Asked :
      (batch later : List Point) (saved : Saved) (s : Import S)
      → Fits json_size batch
      → Clear (batch ++ later) saved s
      → Asked batch later saved (record s { sent = s.sent ++ batch ∷ [] })
  Clear-Asked batch later saved s fits c = record {
    stream = c.stream;
    same = ap (λ bs. bs ++ batch ∷ []) c.same;
    stored = c.stored;
    fits = All-append (Fits json_size) s.sent (batch ∷ []) c.fits (fits, tt);
    now = c.now;
  }

  Asked-Clear :
      (batch later : List Point) (saved : Saved) (s : Import S)
      → Asked batch later saved s
      → Clear later saved (record s { acknowledged = s.acknowledged ++ batch ∷ [] })
  Asked-Clear batch later saved s a = record {
    stream =
        ap (λ ps. ps ++ later) (flatten-snoc s.acknowledged batch)
        ∙ append_assoc (flatten s.acknowledged) batch later
        ∙ a.stream;
    same = a.same;
    stored = record {
      rest = a.stored.rest;
      reached = a.stored.reached;
      before = a.stored.before;
      more = a.stored.more ++ batch;
      splits = a.stored.splits;
      sent_before =
          sym (append_assoc a.stored.before a.stored.more batch)
          ∙ ap (λ ps. ps ++ batch) a.stored.sent_before
          ∙ sym (flatten-snoc s.acknowledged batch);
    };
    fits = a.fits;
    now = a.now;
  }

  -- A batch that is the first of what is to be sent.
  pub commit_Clear :
      (batch later : List Point) (saved : Saved) (s : Import S)
      → Fits json_size batch
      → Clear (batch ++ later) saved s
      → Ensures Stopped (λ _ t. Clear later saved t) (commit_metric_batch env json_size batch s)
  unfolding commit_metric_batch
  commit_Clear batch later saved s fits c =
      bind-Ensures Stopped (λ _ t. Clear (batch ++ later) saved t) (λ _ t. Clear later saved t)
        (check env json_size) _ s (on_world-Clear env.check_cancelled (batch ++ later) saved s c)
        λ _ t d.
          let asking = record t { sent = t.sent ++ batch ∷ [] } in
          bind-Ensures Stopped (λ _ u. Asked batch later saved u) (λ _ u. Clear later saved u)
            (on_world env json_size (env.ingest_batch batch)) _ asking
            (outside_keeps (Asked batch later saved) (Asked-Stopped batch later saved)
              (Asked-world batch later saved) asking (env.ingest_batch batch t.world)
              (Clear-Asked batch later saved t fits d))
            λ _ u a.
              on_world-Clear env.check_cancelled later saved
                (record u { acknowledged = u.acknowledged ++ batch ∷ [] })
                (Asked-Clear batch later saved u a)

  -- Saving the progress after the rows whose points are all acknowledged.
  pub save-Clear :
      (later : List Point) (old new : Saved) (rest : List Row) (s : Import S)
      → Progress skipped rows new rest
      → later ≡ points_from new.next_sequence rest
      → Clear later old s
      → Ensures Stopped (λ _ t. Clear later new t) (save env json_size new s)
  unfolding save
  save-Clear later old new rest s reached from c =
      bind-Ensures Stopped (λ _ t. Clear later old t) (λ _ t. Clear later new t)
        (on_world env json_size (env.update_checkpoint new)) _ s
        (on_world-Clear (env.update_checkpoint new) later old s c)
        λ _ t d. record {
          stream = d.stream;
          same = d.same;
          stored = record {
            rest = rest;
            reached = reached;
            before = flatten t.acknowledged;
            more = [];
            splits = ap (λ ps. flatten t.acknowledged ++ ps) (sym from) ∙ d.stream;
            sent_before = append-nil (flatten t.acknowledged);
          };
          fits = d.fits;
          now = refl;
        }
