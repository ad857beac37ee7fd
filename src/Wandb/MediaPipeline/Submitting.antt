-- ===== src/Wandb/MediaPipeline/Submitting.antt =====
-- Submitting the jobs of a row.
use epochdeck.Prelude.{
  ℕ, zero, suc, ◌+◌, ◌≤◌, ◌<◌, ◌≡◌, ◌∙◌, refl, ap, sym, subst, List, [], ◌∷◌, ◌++◌, append_assoc,
  append-nil, arith, leb, length, length-append, All-append,
}
use epochdeck.Exec.Ensures.{Ensures, bind-Ensures, map-Ensures, lift-Ensures, if_Ensures}
use epochdeck.Wandb.{Media, Row, max_pending_media}
use epochdeck.Wandb.Rows.{safe_artifact_path}
use epochdeck.Wandb.MediaPipeline.{
  Job, Services, Pipeline, drain_one, make_room, add_pending, submit_one, job_of, submit_all,
}
use epochdeck.Wandb.MediaPipeline.Watermark.{jobs_from, rows_jobs, Ordered, Sound, outside-Ordered}
use epochdeck.Wandb.MediaPipeline.Draining.{added, Drained, drain_one-Drained, Waiting}

module _ {S : Type 0} (services : Services S) (history : ℕ → Row) (first : ℕ) where
  abbrev Kept : List Job → Pipeline S → Type 0
  Kept part p = Ordered services history first part p

  abbrev Fine : Pipeline S → Type 0
  Fine p = Sound services history first p

  make_room-Waiting :
      (n : ℕ) (part : List Job) (p : Pipeline S)
      → length p.pending ≤ n
      → Kept part p
      → Ensures Fine
          (λ _ q. Waiting services history first part p q × (length q.pending < max_pending_media))
          (make_room services n p)
  unfolding make_room
  make_room-Waiting zero part p enough h = ((h, refl), omega (arith, enough))
  make_room-Waiting (suc n) part p enough h =
      let Post : Unit {0} → Pipeline S → Type 0 =
        λ _ q. Waiting services history first part p q × (length q.pending < max_pending_media) in
      if_Ensures Fine Post (leb max_pending_media (length p.pending)) _ _ p
        (λ full.
          bind-Ensures Fine (λ _ q. Drained services history first part p q) Post
            (drain_one services) _ p
            (drain_one-Drained services history first part p (ground (arith, full)) h)
            λ _ q d.
              outside-Ordered services history first Post services.check_cancelled _ part q
                d.ordered
                λ _ w g.
                  map-Ensures Fine _ Post (make_room services n (record q { world = w }))
                    (make_room-Waiting n part (record q { world = w })
                      (omega (arith, enough, d.shorter)) g)
                    λ _ r ((ordered, same), room). ((ordered, same ∙ d.same_closed), room))
        (λ room. ((h, refl), ground (arith, room)))

  add_pending-Kept :
      (job : Job) (part : List Job) (p : Pipeline S)
      → length p.pending < max_pending_media
      → job.row_number ≡ p.last_closed_row + 1
      → Kept part p
      → Kept (part ++ job ∷ []) (add_pending services job p)
  add_pending-Kept job part p room row h = record {
    k = h.k;
    closed_rows = h.closed_rows;
    stream =
        sym (append_assoc p.completed p.pending (job ∷ []))
        ∙ ap (λ js. js ++ job ∷ []) h.stream
        ∙ append_assoc (rows_jobs services history first h.k) part (job ∷ []);
    counts = added p.pending job p.remaining_by_row h.counts;
    above =
        All-append (λ j. p.committed_rows < j.row_number) p.pending (job ∷ []) h.above
          (omega (arith, row, h.behind), tt);
    written = h.written;
    persisted = h.persisted;
    behind = h.behind;
    base = h.base;
    few = omega (arith, room, length-append p.pending (job ∷ []));
    is_open = h.is_open;
    running = h.running;
  }

  submit_one-Waiting :
      (job : Job) (part : List Job) (p : Pipeline S)
      → job.row_number ≡ p.last_closed_row + 1
      → Kept part p
      → Ensures Fine
          (λ _ q. Waiting services history first (part ++ job ∷ []) p q)
          (submit_one services job p)
  unfolding submit_one
  submit_one-Waiting job part p row h =
      let Post : Unit {0} → Pipeline S → Type 0 =
        λ _ q. Waiting services history first (part ++ job ∷ []) p q in
      bind-Ensures Fine
        (λ _ q. Waiting services history first part p q × (length q.pending < max_pending_media))
        Post (λ q. make_room services (length q.pending) q) _ p
        (make_room-Waiting (length p.pending) part p (omega arith) h)
        λ _ q ((ordered, same), room).
          lift-Ensures Fine Post (safe_artifact_path services.posix_str job.media.path) _ q
            (record { part = part; ordered = ordered })
            λ path _.
              outside-Ordered services history first Post services.check_cancelled _ part q ordered
                λ _ v g.
                  outside-Ordered services history first Post (services.find_file path) _ part
                    (record q { world = v }) g
                    λ _ w o.
                      outside-Ordered services history first Post (services.submit job) _ part
                        (record q { world = w }) o
                        λ _ x k. (
                          add_pending-Kept job part (record q { world = x }) room
                              (omega (arith, row, same)) k,
                          same,
                        )

  pub submit_all-Waiting :
      (n : ℕ) (row : Row) (occurrence : ℕ) (media : List Media) (part : List Job) (p : Pipeline S)
      → n ≡ p.last_closed_row + 1
      → Kept part p
      → Ensures Fine
          (λ _ q. Waiting services history first (part ++ jobs_from n row occurrence media) p q)
          (submit_all services n row occurrence media p)
  unfolding submit_all jobs_from
  submit_all-Waiting n row occurrence [] part p closed h =
      (subst (λ js. Kept js p) (sym (append-nil part)) h, refl)
  submit_all-Waiting n row occurrence (m ∷ media) part p closed h =
      let job = job_of services n row occurrence m in
      let Post : Unit {0} → Pipeline S → Type 0 = λ _ q.
        Waiting services history first (part ++ jobs_from n row occurrence (m ∷ media)) p q in
      bind-Ensures Fine (λ _ q. Waiting services history first (part ++ job ∷ []) p q) Post
        (submit_one services job) _ p (submit_one-Waiting job part p closed h)
        λ _ q (ordered, same).
          map-Ensures Fine _ Post (submit_all services n row (occurrence + 1) media q)
            (submit_all-Waiting n row (occurrence + 1) media (part ++ job ∷ []) q
              (omega (arith, closed, same)) ordered)
            λ _ r (done, later). (
              subst (λ js. Kept js r)
                  (append_assoc part (job ∷ []) (jobs_from n row (occurrence + 1) media)) done,
              later ∙ same,
            )
