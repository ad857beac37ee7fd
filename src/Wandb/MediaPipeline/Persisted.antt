-- ===== src/Wandb/MediaPipeline/Persisted.antt =====
-- The media whose rows the checkpoint has as committed.
use epochdeck.Prelude.{
  true, ◌∷◌, ℕ, zero, suc, ◌+◌, ◌-◌, ◌≤◌, ◌<◌, ◌≡◌, ◌∙◌, refl, ap, sym, List, [], ◌++◌,
  append_assoc, append-nil, arith, length, All, All-append,
}
use epochdeck.Wandb.{Media, Row, max_pending_media}
use epochdeck.Wandb.MediaPipeline.{Job, Services, Pipeline}
use epochdeck.Wandb.MediaPipeline.Watermark.{jobs_from, rows_jobs, Ordered, Sound}

abbrev tail_of : List Job → List Job
tail_of [] = []
tail_of (j ∷ js) = js

abbrev head_or : Job → List Job → Job
head_or d [] = d
head_or d (j ∷ js) = j

-- The completed jobs begin with all jobs of the rows up to `x`, when none of these is pending.
prefix_lem :
    (x : ℕ) (completed pending early late : List Job)
    → completed ++ pending ≡ early ++ late
    → All (λ j. j.row_number ≤ x) early
    → All (λ j. x < j.row_number) pending
    → (more : List Job) × (completed ≡ early ++ more)
prefix_lem x completed pending [] late h low high = (completed, refl)
prefix_lem x [] [] (a ∷ early) late h low high = absurd (ground (arith, ap length h))
prefix_lem x [] (j ∷ pending) (a ∷ early) late h (low, _) (high, _) =
    let same : j.row_number ≡ a.row_number = ap (λ js. (head_or a js).row_number) h in
    absurd (omega (arith, low, high, same))
prefix_lem x (c ∷ completed) pending (a ∷ early) late h (low, lows) high =
    let (more, same) = prefix_lem x completed pending early late (ap tail_of h) lows high in
    (more, λ i. head_or a (h i) ∷ same i)

All-weaken :
    {A : Type 0} (P Q : A → Type 0) (xs : List A) → ((x : A) → P x → Q x) → All P xs → All Q xs
All-weaken P Q [] f h = tt
All-weaken P Q (x ∷ xs) f (h, hs) = (f x h, All-weaken P Q xs f hs)

jobs_from-low :
    (x n : ℕ) (row : Row) (occurrence : ℕ) (media : List Media)
    → n ≤ x
    → All (λ j. j.row_number ≤ x) (jobs_from n row occurrence media)
unfolding jobs_from
jobs_from-low x n row occurrence [] h = tt
jobs_from-low x n row occurrence (m ∷ media) h = (h, jobs_from-low x n row (occurrence + 1) media h)

module _ {S : Type 0} (services : Services S) (history : ℕ → Row) (first : ℕ) where
  abbrev jobs : ℕ → List Job
  jobs k = rows_jobs services history first k

  abbrev Kept : Pipeline S → Type 0
  Kept p = Ordered services history first [] p

  abbrev Fine : Pipeline S → Type 0
  Fine p = Sound services history first p

  rows_jobs-low : (x k : ℕ) → first + k ≤ x → All (λ j. j.row_number ≤ x) (jobs k)
  unfolding rows_jobs
  rows_jobs-low x zero h = tt
  rows_jobs-low x (suc k) h =
      All-append (λ j. j.row_number ≤ x) (jobs k) _ (rows_jobs-low x k (omega (arith, h)))
        (jobs_from-low x (first + suc k) (history (first + suc k)) 0 (history (first + suc k)).media
          h)

  rows_jobs-prefix : (c d : ℕ) → (rest : List Job) × (jobs (d + c) ≡ jobs c ++ rest)
  unfolding rows_jobs
  rows_jobs-prefix c zero =
      ([], ap jobs {x = 0 + c} {y = c} (omega arith) ∙ sym (append-nil (jobs c)))
  rows_jobs-prefix c (suc d) =
      let (rest, same) = rows_jobs-prefix c d in
      let n = first + suc (d + c) in
      let new = jobs_from n (history n) 0 (history n).media in
      (
        rest ++ new,
        ap jobs {x = suc d + c} {y = suc (d + c)} (omega arith)
            ∙ ap (λ js. js ++ new) same
            ∙ append_assoc (jobs c) rest new,
      )

  -- The media of all rows behind the first ones up to those that the checkpoint has are imported.
  pub record Written (p : Pipeline S) : Type 0 where
    pub rows : ℕ
    pub saved_rows : p.saved ≡ first + rows
    pub more : List Job
    pub imported : p.completed ≡ jobs rows ++ more
    pub few : length p.pending ≤ max_pending_media

  pub Sound-Written : (p : Pipeline S) → Fine p → Written p
  Sound-Written p s =
      let h = s.ordered in
      let rows = p.saved - first in
      let reached : p.saved ≡ first + rows = omega (arith, h.written, h.base) in
      let (rest, split) = rows_jobs-prefix rows (h.k - rows) in
      let all_rows : jobs h.k ≡ jobs rows ++ rest =
        ap jobs {x = h.k} {y = h.k - rows + rows}
          (omega (arith, h.written, h.persisted, h.behind, h.closed_rows))
        ∙ split in
      let (more, imported) =
        prefix_lem p.saved p.completed p.pending (jobs rows) (rest ++ s.part)
          (h.stream ∙ ap (λ js. js ++ s.part) all_rows ∙ append_assoc (jobs rows) rest s.part)
          (rows_jobs-low p.saved rows (omega (arith, reached)))
          (All-weaken _ (λ j. p.saved < j.row_number) p.pending
            (λ j under. omega (arith, under, h.written, h.persisted)) h.above) in
      record { rows = rows; saved_rows = reached; more = more; imported = imported; few = h.few }

  -- The media of the rows up to `last` are imported, and the checkpoint has them.
  pub record Finished (last : ℕ) (p : Pipeline S) : Type 0 where
    pub rows : ℕ
    pub to_the_end : last ≡ first + rows
    pub all_imported : p.completed ≡ jobs rows
    pub all_saved : p.saved ≡ last
    pub none_pending : length p.pending ≡ 0
    pub is_closed : p.closed ≡ true
    pub shut : p.shutdowns ≡ true ∷ []
