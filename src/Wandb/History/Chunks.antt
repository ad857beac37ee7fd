-- ===== src/Wandb/History/Chunks.antt =====
-- The chunks that the metrics of a row are split into.
use epochdeck.Prelude.{
  ℕ, ◌≤◌, ◌+◌, ◌≤◌, ◌<◌, ◌*◌, ◌≡◌, refl, ap, subst, Bool, true, false, List, [], ◌∷◌, ◌++◌,
  append_assoc, ◌==◌, if◌then◌else◌, length, length-append, All, arith,
}
use epochdeck.Metrics.{Floats, put, sorted}
use epochdeck.Text.{Text}
use epochdeck.Protocol.{is_empty}
use epochdeck.Wandb.{max_metrics_per_point}
use epochdeck.Wandb.History.{chunks_from, metric_chunks}

unfoldable pub joined : List Floats → Floats
joined [] = []
joined (c ∷ cs) = c ++ joined cs

-- A chunk that a point can carry.
pub record IsChunk (chunk : Floats) : Type 0 where
  pub some_metrics : is_empty chunk ≡ false
  pub few : length chunk ≤ max_metrics_per_point

-- The chunks are the metrics, in their order, and as few as there can be.
pub record Cuts (metrics : Floats) (chunks : List Floats) : Type 0 where
  pub whole : joined chunks ≡ metrics
  pub each : All IsChunk chunks
  pub tight : length chunks * max_metrics_per_point < length metrics + max_metrics_per_point

is_empty-snoc : {A : Type 0} (xs : List A) (x : A) → is_empty (xs ++ x ∷ []) ≡ false
unfolding is_empty
is_empty-snoc [] x = refl
is_empty-snoc (y ∷ xs) x = refl

one_chunk :
    (chunk : Floats)
    → length chunk < max_metrics_per_point
    → Cuts (chunk ++ []) (if is_empty chunk then [] else chunk ∷ [])
unfolding is_empty joined
one_chunk [] room = record { whole = refl; each = tt; tight = omega arith }
one_chunk (m ∷ chunk) room = record {
  whole = refl;
  each = (record { some_metrics = refl; few = omega (arith, room) }, tt);
  tight = omega (arith, length-append chunk []);
}

if_Cuts :
    (b : Bool) {metrics : Floats} {chunks others : List Floats}
    → (b ≡ true → Cuts metrics chunks)
    → (b ≡ false → Cuts metrics others)
    → Cuts metrics (if b then chunks else others)
if_Cuts true h g = h refl
if_Cuts false h g = g refl

full_chunk :
    (chunk metrics : Floats) (chunks : List Floats)
    → is_empty chunk ≡ false
    → length chunk ≡ max_metrics_per_point
    → Cuts metrics chunks
    → Cuts (chunk ++ metrics) (chunk ∷ chunks)
unfolding joined
full_chunk chunk metrics chunks some_metrics full cuts = record {
  whole = ap (λ ms. chunk ++ ms) cuts.whole;
  each = (record { some_metrics = some_metrics; few = omega (arith, full) }, cuts.each);
  tight = omega (arith, full, cuts.tight, length-append chunk metrics);
}

chunks_from-Cuts :
    (chunk metrics : Floats)
    → length chunk < max_metrics_per_point
    → Cuts (chunk ++ metrics) (chunks_from chunk metrics)
unfolding chunks_from
chunks_from-Cuts chunk [] room = one_chunk chunk room
chunks_from-Cuts chunk (m ∷ metrics) room =
    let next = chunk ++ m ∷ [] in
    let size : length next ≡ length chunk + 1 = length-append chunk (m ∷ []) in
    subst (λ ms. Cuts ms (chunks_from chunk (m ∷ metrics))) (append_assoc chunk (m ∷ []) metrics)
      (if_Cuts (length next == max_metrics_per_point)
        (λ full.
          full_chunk next metrics (chunks_from [] metrics) (is_empty-snoc chunk m)
            (ground (arith, full)) (chunks_from-Cuts [] metrics (omega arith)))
        (λ free. chunks_from-Cuts next metrics (ground (arith, free, size, room))))

-- The chunks of a row's metrics are, one after the other, the metrics sorted by key; each has 1 to
-- 256 metrics, and there are no more chunks than that takes.
pub metric_chunks-Cuts : (metrics : Floats) → Cuts (sorted metrics) (metric_chunks metrics)
unfolding metric_chunks
metric_chunks-Cuts metrics = chunks_from-Cuts [] (sorted metrics) (omega arith)

length-put : (k : Text) (x : ℕ) (m : Floats) → length (put k x m) ≤ length m + 1
unfolding put
length-put k x [] = omega arith
length-put k x ((j, y) ∷ m) = ground (arith, length-put k x m)

pub length-sorted : (m : Floats) → length (sorted m) ≤ length m
unfolding sorted
length-sorted [] = omega arith
length-sorted ((k, x) ∷ m) = omega (arith, length-put k x (sorted m), length-sorted m)
