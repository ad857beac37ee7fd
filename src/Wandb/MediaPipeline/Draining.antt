-- ===== src/Wandb/MediaPipeline/Draining.antt =====
-- Taking the result of the first pending job, and submitting another one.
use epochdeck.Prelude.{
  ℕ, suc, ◌+◌, ◌-◌, ◌≤◌, ◌<◌, ◌≡◌, ◌∙◌, refl, ap, sym, subst, Bool, true, false, Option, some, List,
  [], ◌∷◌, ◌++◌, append_assoc, arith, ◌==◌, if◌then◌else◌, length, All,
}
use epochdeck.Exec.{◌>>◌}
use epochdeck.Exec.Ensures.{Ensures, map-Ensures}
use epochdeck.Wandb.{Row}
use epochdeck.Wandb.MediaPipeline.{
  Job, Services, Pipeline, set_row, or_zero, counted, advance_watermark, count_down, drain,
  drain_one,
}
use epochdeck.Wandb.MediaPipeline.Watermark.{count, Ordered, Sound, outside-Ordered}
use epochdeck.Wandb.MediaPipeline.Advancing.{advance_watermark-Advanced}

count-snoc :
    (n : ℕ) (jobs : List Job) (job : Job)
    → count n (jobs ++ job ∷ [])
      ≡ (if n == job.row_number then suc (count n jobs) else count n jobs)
unfolding count
count-snoc n [] job = refl
count-snoc n (j ∷ jobs) job = ground (arith, count-snoc n jobs job)

or_zero-counted : (n : ℕ) → or_zero (counted n) ≡ n
or_zero-counted n = ground arith

counted-some : (n : ℕ) → counted (n + 1) ≡ some (n + 1)
counted-some n = ground arith

if_both :
    {A : Type 0} (b : Bool) {x y z : A}
    → (b ≡ true → x ≡ z)
    → (b ≡ false → y ≡ z)
    → (if b then x else y) ≡ z
if_both true h g = h refl
if_both false h g = g refl

pub added :
    (jobs : List Job) (job : Job) (remaining : ℕ → Option ℕ)
    → ((n : ℕ) → remaining n ≡ counted (count n jobs))
    → (n : ℕ)
    → set_row job.row_number (some (or_zero (remaining job.row_number) + 1)) remaining n
      ≡ counted (count n (jobs ++ job ∷ []))
added jobs job remaining h n =
    if_both (n == job.row_number)
      (λ same.
        ap (λ k. some (k + 1))
          (ap or_zero (h job.row_number)
            ∙ or_zero-counted (count job.row_number jobs)
            ∙ ap (λ m. count m jobs) {x = job.row_number} {y = n} (ground (arith, same)))
        ∙ sym (counted-some (count n jobs))
        ∙ ap counted {x = count n jobs + 1} {y = count n (jobs ++ job ∷ [])}
            (ground (arith, count-snoc n jobs job, same)))
      (λ other.
        h n
        ∙ ap counted {x = count n jobs} {y = count n (jobs ++ job ∷ [])}
            (ground (arith, count-snoc n jobs job, other)))

taken_off :
    (jobs : List Job) (job : Job) (remaining : ℕ → Option ℕ)
    → ((n : ℕ) → remaining n ≡ counted (count n (job ∷ jobs)))
    → (n : ℕ)
    → set_row job.row_number (counted (count job.row_number jobs)) remaining n
      ≡ counted (count n jobs)
unfolding count
taken_off jobs job remaining h n =
    if_both (n == job.row_number)
      (λ same. ap (λ m. counted (count m jobs)) {x = job.row_number} {y = n} (ground (arith, same)))
      (λ other.
        h n ∙ ap counted {x = count n (job ∷ jobs)} {y = count n jobs} (ground (arith, other)))

first_count :
    (jobs : List Job) (job : Job)
    → counted (count job.row_number (job ∷ jobs)) ≡ some (count job.row_number jobs + 1)
unfolding count
first_count jobs job =
    ap counted {x = count job.row_number (job ∷ jobs)} {y = count job.row_number jobs + 1}
      (ground arith)
    ∙ counted-some (count job.row_number jobs)

module _ {S : Type 0} (services : Services S) (history : ℕ → Row) (first : ℕ) where
  abbrev Kept : List Job → Pipeline S → Type 0
  Kept part p = Ordered services history first part p

  abbrev Fine : Pipeline S → Type 0
  Fine p = Sound services history first p

  -- A job less is pending.
  pub record Drained (part : List Job) (p q : Pipeline S) : Type 0 where
    pub ordered : Kept part q
    pub shorter : length q.pending + 1 ≡ length p.pending
    pub same_closed : q.last_closed_row ≡ p.last_closed_row

  drain-Drained :
      (jobs : List Job) (part : List Job) (p : Pipeline S)
      → p.pending ≡ jobs
      → 1 ≤ length jobs
      → Kept part p
      → Ensures Fine (λ _ q. Drained part p q) (drain services jobs p)
  drain-Drained [] part p same more h = absurd (omega (arith, more))
  drain-Drained (job ∷ jobs) part p same more h =
      let Post : Unit {0} → Pipeline S → Type 0 = λ _ q. Drained part p q in
      outside-Ordered services history first Post (services.result job) _ part p h λ _ w g.
        let popped = record p { world = w; pending = jobs; completed = p.completed ++ job ∷ [] } in
        let n = count job.row_number jobs in
        let settled = record popped {
          remaining_by_row = set_row job.row_number (counted (n + 1 - 1)) p.remaining_by_row;
        } in
        let is_some : p.remaining_by_row job.row_number ≡ some (n + 1) =
          h.counts job.row_number
          ∙ ap (λ js. counted (count job.row_number js)) same
          ∙ first_count jobs job in
        let ordered : Kept part settled = record {
          k = h.k;
          closed_rows = h.closed_rows;
          stream =
              append_assoc p.completed (job ∷ []) jobs
              ∙ ap (λ js. p.completed ++ js) (sym same)
              ∙ h.stream;
          counts = λ m.
              ap (λ c. set_row job.row_number (counted c) p.remaining_by_row m) {x = n + 1 - 1}
                {y = n} (omega arith)
              ∙ taken_off jobs job p.remaining_by_row
                  (λ i. h.counts i ∙ ap (λ js. counted (count i js)) same) m;
          above = (subst (All (λ j. p.committed_rows < j.row_number)) same h.above).1;
          written = h.written;
          persisted = h.persisted;
          behind = h.behind;
          base = h.base;
          few = omega (arith, h.few, ap length same);
          is_open = h.is_open;
          running = h.running;
        } in
        subst
          (λ r.
            Ensures Fine Post
              ((count_down services job.row_number r >> advance_watermark services) popped))
          (sym is_some)
          (map-Ensures Fine _ Post (advance_watermark services settled)
            (advance_watermark-Advanced services history first part settled ordered)
            λ _ q a. record {
              ordered = a.ordered;
              shorter = omega (arith, ap length a.same_pending, ap length same);
              same_closed = a.same_closed;
            })

  pub drain_one-Drained :
      (part : List Job) (p : Pipeline S)
      → 1 ≤ length p.pending
      → Kept part p
      → Ensures Fine (λ _ q. Drained part p q) (drain_one services p)
  unfolding drain_one
  drain_one-Drained part p more h = drain-Drained p.pending part p refl more h

  -- Only the pending and the completed jobs changed.
  abbrev pub Waiting : List Job → Pipeline S → Pipeline S → Type 0
  Waiting part p q = Kept part q × (q.last_closed_row ≡ p.last_closed_row)
