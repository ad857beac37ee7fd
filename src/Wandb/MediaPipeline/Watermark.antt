-- ===== src/Wandb/MediaPipeline/Watermark.antt =====
-- The rows whose media are imported, and the jobs that are pending.
use epochdeck.Prelude.{
  ℕ, zero, suc, ◌+◌, ◌≤◌, ◌<◌, ◌≡◌, refl, sym, subst, false, List, [], ◌∷◌, ◌++◌, ◌==◌,
  if◌then◌else◌, length, All,
}
use epochdeck.Error.{Result, ok, err}
use epochdeck.Exec.{Exec, ◌>>=◌}
use epochdeck.Exec.Ensures.{Ensures, bind-Ensures}
use epochdeck.Wandb.{Media, Row, max_pending_media}
use epochdeck.Wandb.MediaPipeline.{Job, Services, Pipeline, counted, with_world, on_world}

-- The pending jobs of a row.
unfoldable pub count : ℕ → List Job → ℕ
count n [] = 0
count n (job ∷ jobs) = let rest = count n jobs in if n == job.row_number then suc rest else rest

unfoldable pub jobs_from : ℕ → Row → ℕ → List Media → List Job
jobs_from n row occurrence [] = []
jobs_from n row occurrence (media ∷ rest) =
    record {
      row_number = n;
      occurrence = occurrence;
      step = row.step;
      timestamp_ms = row.timestamp_ms;
      media = media;
    }
    ∷ jobs_from n row (occurrence + 1) rest

module _ {S : Type 0} (services : Services S) (history : ℕ → Row) (first : ℕ) where
  -- The jobs of the `k` rows behind the first ones, in their order.
  unfoldable pub rows_jobs : ℕ → List Job
  unfolding jobs_from
  rows_jobs zero = []
  rows_jobs (suc k) =
      rows_jobs k
      ++ jobs_from (first + suc k) (history (first + suc k)) 0 (history (first + suc k)).media

  -- The jobs of the closed rows and `part` are completed or pending, in their order.
  pub record Ordered (part : List Job) (p : Pipeline S) : Type 0 where
    pub k : ℕ
    pub closed_rows : p.last_closed_row ≡ first + k
    pub stream : p.completed ++ p.pending ≡ rows_jobs k ++ part
    pub counts : (n : ℕ) → p.remaining_by_row n ≡ counted (count n p.pending)
    pub above : All (λ j. p.committed_rows < j.row_number) p.pending
    pub written : p.saved ≡ p.persisted_rows
    pub persisted : p.persisted_rows ≤ p.committed_rows
    pub behind : p.committed_rows ≤ p.last_closed_row
    pub base : first ≤ p.persisted_rows
    pub few : length p.pending ≤ max_pending_media
    pub is_open : p.closed ≡ false
    pub running : p.shutdowns ≡ []

  pub record Sound (p : Pipeline S) : Type 0 where
    pub part : List Job
    pub ordered : Ordered part p

  Ordered-Sound : (part : List Job) (p : Pipeline S) → Ordered part p → Sound p
  Ordered-Sound part p h = record { part = part; ordered = h }

  pub Ordered-world :
      (part : List Job) (p : Pipeline S) (w : S)
      → Ordered part p
      → Ordered part (record p { world = w })
  Ordered-world part p w h = record {
    k = h.k;
    closed_rows = h.closed_rows;
    stream = h.stream;
    counts = h.counts;
    above = h.above;
    written = h.written;
    persisted = h.persisted;
    behind = h.behind;
    base = h.base;
    few = h.few;
    is_open = h.is_open;
    running = h.running;
  }

  with_world_lem :
      {A : Type 0} (part : List Job) (p : Pipeline S) (outcome : Result A × S)
      → Ordered part p
      → Ensures Sound
          (λ (_ : A) q. (w : S) × (q ≡ record p { world = w }))
          (with_world services p outcome)
  with_world_lem part p (ok a, w) h = (w, refl)
  with_world_lem part p (err e, w) h =
      Ordered-Sound part (record p { world = w }) (Ordered-world part p w h)

  -- What is outside changes its own state only.
  pub outside-Ordered :
      {A B : Type 0} (Q : B → Pipeline S → Type 0) (m : Exec S A) (f : A → Exec (Pipeline S) B)
      (part : List Job) (p : Pipeline S)
      → Ordered part p
      → ((a : A) (w : S)
          → Ordered part (record p { world = w })
          → Ensures Sound Q (f a (record p { world = w })))
      → Ensures Sound Q ((on_world services m >>= f) p)
  outside-Ordered Q m f part p h then_ =
      bind-Ensures Sound (λ _ q. (w : S) × (q ≡ record p { world = w })) Q (on_world services m) f p
        (with_world_lem part p (m p.world) h)
        λ a q (w, same).
          subst (λ r. Ensures Sound Q (f a r)) (sym same) (then_ a w (Ordered-world part p w h))
