-- ===== src/Wandb/MediaPipeline/Advancing.antt =====
-- Saving the watermark, and advancing it.
use epochdeck.Prelude.{
  ℕ, zero, suc, ◌+◌, ◌-◌, ◌<◌, ◌≡◌, ◌∙◌, refl, ap, sym, Bool, true, false, not, ◌&&◌, Option, none,
  some, List, [], ◌∷◌, arith, ltb, ◌==◌, if◌then◌else◌, All,
}
use epochdeck.Exec.Ensures.{Ensures, map-Ensures, if_Ensures}
use epochdeck.Wandb.{Row}
use epochdeck.Wandb.MediaPipeline.{
  Job, Services, Pipeline, counted, is_none, advance_rows, persist, advance_watermark,
}
use epochdeck.Wandb.MediaPipeline.Watermark.{count, Ordered, Sound, outside-Ordered}

next_above :
    (c : ℕ) (jobs : List Job)
    → All (λ j. c < j.row_number) jobs
    → count (c + 1) jobs ≡ 0
    → All (λ j. c + 1 < j.row_number) jobs
unfolding count
next_above c [] h none_left = tt
next_above c (job ∷ jobs) (first, h) none_left =
    (ground (arith, first, none_left), next_above c jobs h (ground (arith, none_left)))

counted_none : (n : ℕ) → is_none (counted n) ≡ true → n ≡ 0
counted_none n h = ground (arith, h)

if_lem :
    {A : Type 0} (P : A → Type 0) (b : Bool) {x y : A}
    → (b ≡ true → P x)
    → (b ≡ false → P y)
    → P (if b then x else y)
if_lem P true h g = h refl
if_lem P false h g = g refl

and_right : (a b : Bool) → (a && b) ≡ true → b ≡ true
and_right true b h = h
and_right false b h = absurd (cc h)

blocked :
    (c l : ℕ) (remaining : Option ℕ)
    → c < l
    → (ltb c l && is_none remaining) ≡ false
    → remaining ≡ none
    → ⊥
blocked c l none under stays h = ground (arith, under, stays)
blocked c l (some n) under stays h = ground (arith, h)

module _ {S : Type 0} (services : Services S) (history : ℕ → Row) (first : ℕ) where
  abbrev Fine : Pipeline S → Type 0
  Fine p = Sound services history first p

  pub persist-Ordered :
      (force : Bool) (part : List Job) (p : Pipeline S)
      → Ordered services history first part p
      → Ensures Fine
          (λ _ q.
            Ordered services history first part q
            × (q.pending ≡ p.pending)
            × (q.committed_rows ≡ p.committed_rows)
            × (q.last_closed_row ≡ p.last_closed_row)
            × (force ≡ true → q.saved ≡ q.committed_rows))
          (persist services force p)
  unfolding persist
  persist-Ordered force part p h =
      let Post : Unit {0} → Pipeline S → Type 0 = λ _ q.
        Ordered services history first part q
        × (q.pending ≡ p.pending)
        × (q.committed_rows ≡ p.committed_rows)
        × (q.last_closed_row ≡ p.last_closed_row)
        × (force ≡ true → q.saved ≡ q.committed_rows) in
      if_Ensures Fine Post (p.committed_rows == p.persisted_rows) _ _ p
        (λ same. (h, refl, refl, refl, λ _. ground (arith, same, h.written)))
        (λ _.
          if_Ensures Fine Post (not force && ltb (p.committed_rows - p.persisted_rows) 256) _ _ p
            (λ unforced. (h, refl, refl, refl, λ forced. absurd (ground (arith, forced, unforced))))
            (λ _.
              outside-Ordered services history first Post
                (services.update_checkpoint p.committed_rows) _ part p h
                λ _ w g. (
                  record {
                    k = g.k;
                    closed_rows = g.closed_rows;
                    stream = g.stream;
                    counts = g.counts;
                    above = g.above;
                    written = refl;
                    persisted = omega arith;
                    behind = g.behind;
                    base = omega (arith, g.base, g.persisted);
                    few = g.few;
                    is_open = g.is_open;
                    running = g.running;
                  },
                  refl,
                  refl,
                  refl,
                  λ _. refl,
                )))

  -- What the rounds of the watermark's loop leave as it was, and where they end without pending jobs.
  pub record Advanced (part : List Job) (p q : Pipeline S) : Type 0 where
    pub ordered : Ordered services history first part q
    pub same_pending : q.pending ≡ p.pending
    pub same_closed : q.last_closed_row ≡ p.last_closed_row
    pub all_rows : p.pending ≡ [] → q.committed_rows ≡ p.last_closed_row

  advance_rows-Advanced :
      (n : ℕ) (part : List Job) (p : Pipeline S)
      → n + p.committed_rows ≡ p.last_closed_row
      → Ordered services history first part p
      → Advanced part p (advance_rows n p)
  unfolding advance_rows count
  advance_rows-Advanced zero part p rounds h = record {
    ordered = h;
    same_pending = refl;
    same_closed = refl;
    all_rows = λ _. omega (arith, rounds);
  }
  advance_rows-Advanced (suc n) part p rounds h =
      let next = record p { committed_rows = p.committed_rows + 1 } in
      if_lem (Advanced part p)
        (ltb p.committed_rows p.last_closed_row
          && is_none (p.remaining_by_row (p.committed_rows + 1)))
        (λ free.
          let none_left : count (p.committed_rows + 1) p.pending ≡ 0 =
            counted_none (count (p.committed_rows + 1) p.pending) (
              sym (ap is_none (h.counts (p.committed_rows + 1)))
              ∙ and_right (ltb p.committed_rows p.last_closed_row) _ free) in
          let later = advance_rows-Advanced n part next (omega (arith, rounds)) (record {
            k = h.k;
            closed_rows = h.closed_rows;
            stream = h.stream;
            counts = h.counts;
            above = next_above p.committed_rows p.pending h.above none_left;
            written = h.written;
            persisted = omega (arith, h.persisted);
            behind = omega (arith, rounds);
            base = h.base;
            few = h.few;
            is_open = h.is_open;
            running = h.running;
          }) in
          record {
            ordered = later.ordered;
            same_pending = later.same_pending;
            same_closed = later.same_closed;
            all_rows = later.all_rows;
          })
        (λ stays. record {
          ordered = h;
          same_pending = refl;
          same_closed = refl;
          all_rows = λ no_jobs. absurd (
              blocked p.committed_rows p.last_closed_row (p.remaining_by_row (p.committed_rows + 1))
                (omega (arith, rounds)) stays
                (h.counts (p.committed_rows + 1)
                  ∙ ap (λ js. counted (count (p.committed_rows + 1) js)) no_jobs));
        })

  pub advance_watermark-Advanced :
      (part : List Job) (p : Pipeline S)
      → Ordered services history first part p
      → Ensures Fine (λ _ q. Advanced part p q) (advance_watermark services p)
  unfolding advance_watermark
  advance_watermark-Advanced part p h =
      let q = advance_rows (p.last_closed_row - p.committed_rows) p in
      let a =
        advance_rows-Advanced (p.last_closed_row - p.committed_rows) part p
          (omega (arith, h.behind)) h in
      map-Ensures Fine _ (λ _ r. Advanced part p r) (persist services false q)
        (persist-Ordered false part q a.ordered)
        λ _ r (ordered, same_pending, same_committed, same_closed, _). record {
          ordered = ordered;
          same_pending = same_pending ∙ a.same_pending;
          same_closed = same_closed ∙ a.same_closed;
          all_rows = λ no_jobs. same_committed ∙ a.all_rows no_jobs;
        }
