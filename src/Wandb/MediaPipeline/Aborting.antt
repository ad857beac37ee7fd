-- ===== src/Wandb/MediaPipeline/Aborting.antt =====
-- The abortion of the media pipeline.
use epochdeck.Prelude.{
  ℕ, ◌≡◌, refl, ap, ◌⊎◌, inl, inr, Bool, true, false, not, List, [], ◌∷◌, ◌++◌, arith, ◌==◌,
  if◌then◌else◌,
}
use epochdeck.Error.{Error, Result, ok, err}
use epochdeck.Exec.{Exec, continue, pure, modify}
use epochdeck.Exec.Ensures.{Ensures, if_Ensures}
use epochdeck.Wandb.{Row}
use epochdeck.Wandb.MediaPipeline.{Services, Pipeline, with_world, persist, shut_down, abort}
use epochdeck.Wandb.MediaPipeline.Watermark.{Sound}
use epochdeck.Wandb.MediaPipeline.Persisted.{Written, Sound-Written}

module _ {S : Type 0} (services : Services S) (history : ℕ → Row) (first : ℕ) where
  abbrev Good : Pipeline S → Type 0
  Good p = Written services history first p

  abbrev Fine : Pipeline S → Type 0
  Fine p = Sound services history first p

  -- The executor was shut down once.
  pub record Down (wait : Bool) (p : Pipeline S) : Type 0 where
    pub written : Good p
    pub shut : p.shutdowns ≡ wait ∷ []

  -- The update of the checkpoint raised.
  pub record NotSaved (p : Pipeline S) : Type 0 where
    pub before : S
    pub after : S
    pub error : Error
    pub raised : services.update_checkpoint p.committed_rows before ≡ (err error, after)

  -- The pipeline was aborted: its executor is shut down; without a cancellation the executor has waited
  -- and the watermark is saved, if the checkpoint does not raise.
  pub record Aborted (p : Pipeline S) : Type 0 where
    pub wait : Bool
    pub down : Down wait p
    pub ends :
        ((p.closed ≡ true) × (wait ≡ true → p.saved ≡ p.committed_rows))
        ⊎ ((wait ≡ true) × NotSaved p)

  same_Written :
      (p : Pipeline S) (w : S) (waits : List Bool) (closed : Bool)
      → Good p
      → Good (record p { world = w; shutdowns = waits; closed = closed })
  same_Written p w waits closed h = record {
    rows = h.rows;
    saved_rows = h.saved_rows;
    more = h.more;
    imported = h.imported;
    few = h.few;
  }

  -- The watermark saved.
  abbrev with_saved : Pipeline S → Pipeline S
  with_saved p = record p { saved = p.committed_rows; persisted_rows = p.committed_rows }

  saved_Written : (p : Pipeline S) → Fine p → Good (with_saved p)
  saved_Written p s =
      let h = s.ordered in
      Sound-Written services history first (with_saved p) (record {
        part = s.part;
        ordered = record {
          k = h.k;
          closed_rows = h.closed_rows;
          stream = h.stream;
          counts = h.counts;
          above = h.above;
          written = refl;
          persisted = omega arith;
          behind = h.behind;
          base = omega (arith, h.base, h.persisted);
          few = h.few;
          is_open = h.is_open;
          running = h.running;
        };
      })

  abbrev Unsaved : Pipeline S → Type 0
  Unsaved q = Down true q × NotSaved q

  abbrev Saved : Pipeline S → Type 0
  Saved q = Down true q × (q.saved ≡ q.committed_rows)

  updated :
      (p : Pipeline S) (w : S) (waits : List Bool) (outcome : Result (Unit {0}) × S)
      → Fine p
      → waits ≡ true ∷ []
      → services.update_checkpoint p.committed_rows w ≡ outcome
      → Ensures Unsaved
          (λ _ r. Saved r)
          (continue
            (λ _.
              modify
                (λ q. record q { saved = p.committed_rows; persisted_rows = p.committed_rows }))
            (with_world services (record p { world = w; shutdowns = waits }) outcome))
  updated p w waits (ok u, v) s shut from = (
    record {
      written = same_Written (with_saved p) v waits p.closed (saved_Written p s);
      shut = shut;
    },
    refl,
  )
  updated p w waits (err e, v) s shut from = (
    record {
      written = same_Written p v waits p.closed (Sound-Written services history first p s);
      shut = shut;
    },
    record { before = w; after = v; error = e; raised = from },
  )

  persist_down :
      (p : Pipeline S) (w : S) (waits : List Bool)
      → Fine p
      → waits ≡ true ∷ []
      → Ensures Unsaved
          (λ _ r. Saved r)
          (persist services true (record p { world = w; shutdowns = waits }))
  unfolding persist
  persist_down p w waits s shut =
      let q = record p { world = w; shutdowns = waits } in
      if_Ensures Unsaved (λ _ r. Saved r) (p.committed_rows == p.persisted_rows) _ _ q
        (λ same. (
          record {
            written = same_Written p w waits p.closed (Sound-Written services history first p s);
            shut = shut;
          },
          ground (arith, same, s.ordered.written),
        ))
        (λ _. updated p w waits (services.update_checkpoint p.committed_rows w) s shut refl)

  closing :
      (outcome : Result (Unit {0}) × Pipeline S)
      → Ensures Unsaved (λ _ r. Saved r) outcome
      → Aborted (continue (λ _. modify (λ q. record q { closed = true })) outcome).1
  closing (ok u, q) (down, saved) = record {
    wait = true;
    down = record {
      written = same_Written q q.world q.shutdowns true down.written;
      shut = down.shut;
    };
    ends = inl (refl, λ _. saved);
  }
  closing (err e, q) (down, raised) = record { wait = true; down = down; ends = inr (refl, raised) }

  aborting :
      (cancelled : Bool) (p : Pipeline S) (w : S) (waits : List Bool)
      → Fine p
      → waits ≡ not cancelled ∷ []
      → Aborted
          (continue
            (λ _. modify (λ q. record q { closed = true }))
            ((if cancelled then pure tt else persist services true)
              (record p { world = w; shutdowns = waits }))).1
  aborting true p w waits s shut = record {
    wait = false;
    down = record {
      written = same_Written p w waits true (Sound-Written services history first p s);
      shut = shut;
    };
    ends = inl (refl, λ waited. absurd (cc waited));
  }
  aborting false p w waits s shut =
      closing (persist services true (record p { world = w; shutdowns = waits }))
        (persist_down p w waits s shut)

  closed_or :
      (b : Bool) (m : Exec (Pipeline S) (Unit {0})) (p : Pipeline S)
      → b ≡ false
      → Aborted (m p).1
      → Aborted ((if b then pure tt else m) p).1
  closed_or true m p open_ h = absurd (cc open_)
  closed_or false m p open_ h = h

  pub abort-Aborted : (p : Pipeline S) → Fine p → Aborted (abort services p).1
  unfolding abort
  abort-Aborted p s =
      let down = shut_down services (not (services.is_cancelled p.world)) p in
      closed_or p.closed _ p s.ordered.is_open (
        aborting (services.is_cancelled p.world) p down.world down.shutdowns s
          (ap (λ waits. waits ++ not (services.is_cancelled p.world) ∷ []) s.ordered.running))
