-- ===== src/Wandb/History/Spec/Splitting.antt =====
-- Sending a row of more than 256 metrics.
use epochdeck.Prelude.{
  ℕ, suc, ◌+◌, ◌≤◌, ◌<◌, ◌≡◌, ◌∙◌, refl, ap, sym, subst, Bool, true, false, not, ◌&&◌, List, [],
  ◌∷◌, ◌++◌, append_assoc, arith, ltb, leb, if◌then◌else◌, length, length-append,
}
use epochdeck.Error.{import_error}
use epochdeck.Exec.{pure, ◌>>◌}
use epochdeck.Exec.Ensures.{Ensures, bind-Ensures, map-Ensures, guard-Ensures, if_Ensures}
use epochdeck.Metrics.{Floats}
use epochdeck.Protocol.{is_empty}
use epochdeck.Wandb.{
  Point, Row, metric_batch_size, metric_batch_bytes, max_metric_points_per_source_row,
}
use epochdeck.Wandb.History.{
  Saved, Import, Env, commit_metric_batch, has_no_room, make_room, split_chunks,
}
use epochdeck.Wandb.History.Spec.{numbered, total, Fits}
use epochdeck.Wandb.History.Spec.Sending.{Stopped, Clear, Clear-Stopped, commit_Clear}

-- A batch that is being filled.
pub record Filling (json_size : Point → ℕ) (batch : List Point) (batch_bytes : ℕ) : Type 0 where
  pub counted : batch_bytes ≡ total json_size batch
  pub within : batch_bytes ≤ metric_batch_bytes
  pub few : length batch ≤ metric_batch_size

pub Filling-Fits :
    (json_size : Point → ℕ) (batch : List Point) (batch_bytes : ℕ)
    → is_empty batch ≡ false
    → Filling json_size batch batch_bytes
    → Fits json_size batch
Filling-Fits json_size batch batch_bytes more f = record {
  some_points = more;
  few = f.few;
  small = omega (arith, f.counted, f.within);
}

total-append :
    (json_size : Point → ℕ) (ps : List Point) (q : Point)
    → total json_size (ps ++ q ∷ []) ≡ total json_size ps + (json_size q + 1)
total-append json_size [] q = omega arith
total-append json_size (p ∷ ps) q = omega (arith, total-append json_size ps q)

pub Filling-append :
    (json_size : Point → ℕ) (batch : List Point) (batch_bytes : ℕ) (q : Point)
    → Filling json_size batch batch_bytes
    → length batch < metric_batch_size
    → batch_bytes + (json_size q + 1) ≤ metric_batch_bytes
    → Filling json_size (batch ++ q ∷ []) (batch_bytes + (json_size q + 1))
Filling-append json_size batch batch_bytes q f room small = record {
  counted = omega (arith, f.counted, total-append json_size batch q);
  within = small;
  few = omega (arith, room, length-append batch (q ∷ []));
}

pub Filling-empty : (json_size : Point → ℕ) → Filling json_size [] 0
Filling-empty json_size = record { counted = refl; within = omega arith; few = omega arith }

pub empty_lem : {A : Type 0} (xs : List A) → is_empty xs ≡ true → xs ≡ []
unfolding is_empty
empty_lem [] h = refl
empty_lem (x ∷ xs) h = ground arith

pub and_more :
    {A : Type 0} (xs : List A) (b : Bool) → (not (is_empty xs) && b) ≡ true → is_empty xs ≡ false
unfolding is_empty
and_more [] b h = ground arith
and_more (x ∷ xs) b h = refl

module _ {S : Type 0} (env : Env S) (json_size : Point → ℕ) (skipped : Row → ℕ) (rows : List Row)
    (points : List Point) where
  abbrev Ok : List Point → Saved → Import S → Type 0
  Ok later saved s = Clear env json_size skipped rows points later saved s

  abbrev Bad : Import S → Type 0
  Bad s = Stopped env json_size skipped rows points s

  -- Room for a point of this many bytes.
  record Roomy (point_bytes : ℕ) (later : List Point) (saved : Saved) (room : List Point × ℕ)
      (s : Import S) : Type 0 where
    clear : Ok (room.0 ++ later) saved s
    filling : Filling json_size room.0 room.1
    free : length room.0 < metric_batch_size
    fits : room.1 + point_bytes ≤ metric_batch_bytes

  has_no_room_lem :
      (batch : List Point) (batch_bytes point_bytes : ℕ)
      → Filling json_size batch batch_bytes
      → point_bytes ≤ metric_batch_bytes
      → has_no_room env json_size batch batch_bytes point_bytes ≡ false
      → (length batch < metric_batch_size) × (batch_bytes + point_bytes ≤ metric_batch_bytes)
  unfolding is_empty
  has_no_room_lem [] batch_bytes point_bytes f small h =
      (omega arith, omega (arith, f.counted, small))
  has_no_room_lem (p ∷ ps) batch_bytes point_bytes f small h = (ground arith, ground arith)

  make_room-Roomy :
      (batch later : List Point) (batch_bytes point_bytes : ℕ) (saved : Saved) (s : Import S)
      → Filling json_size batch batch_bytes
      → point_bytes ≤ metric_batch_bytes
      → Ok (batch ++ later) saved s
      → Ensures Bad
          (λ room t. Roomy point_bytes later saved room t)
          (make_room env json_size batch batch_bytes point_bytes s)
  unfolding make_room
  make_room-Roomy batch later batch_bytes point_bytes saved s f small c =
      if_Ensures Bad (λ room t. Roomy point_bytes later saved room t)
        (has_no_room env json_size batch batch_bytes point_bytes)
        (commit_metric_batch env json_size batch >> pure ([], 0)) (pure (batch, batch_bytes)) s
        (λ full.
          bind-Ensures Bad (λ _ t. Ok later saved t)
            (λ room t. Roomy point_bytes later saved room t)
            (commit_metric_batch env json_size batch) _ s
            (commit_Clear env json_size skipped rows points batch later saved s
              (Filling-Fits json_size batch batch_bytes (and_more batch _ full) f) c)
            λ _ t d. record {
              clear = d;
              filling = Filling-empty json_size;
              free = omega arith;
              fits = omega (arith, small);
            })
        (λ open_.
          let (free, fits) = has_no_room_lem batch batch_bytes point_bytes f small open_ in
          record { clear = c; filling = f; free = free; fits = fits })

  pub split_chunks-Clear :
      (row : Row) (next : ℕ) (chunks : List Floats) (batch later : List Point)
      (batch_bytes count : ℕ) (saved : Saved) (s : Import S)
      → Filling json_size batch batch_bytes
      → Ok (batch ++ (numbered row (next + count) chunks ++ later)) saved s
      → Ensures Bad
          (λ n t. (n ≡ count + length chunks) × Ok later saved t)
          (split_chunks env json_size row next chunks batch batch_bytes count s)
  unfolding split_chunks numbered
  split_chunks-Clear row next [] batch later batch_bytes count saved s f c =
      bind-Ensures Bad (λ _ t. Ok later saved t) (λ n t. (n ≡ count + 0) × Ok later saved t)
        (if is_empty batch then pure tt else commit_metric_batch env json_size batch)
        (λ _. pure count) s
        (if_Ensures Bad (λ _ t. Ok later saved t) (is_empty batch) (pure tt)
          (commit_metric_batch env json_size batch) s
          (λ none_left.
            subst (λ ps. Ok ps saved s) (ap (λ b. b ++ later) (empty_lem batch none_left)) c)
          (λ more.
            commit_Clear env json_size skipped rows points batch later saved s
              (Filling-Fits json_size batch batch_bytes more f) c))
        λ _ t d. (omega arith, d)
  split_chunks-Clear row next (metrics ∷ chunks) batch later batch_bytes count saved s f c =
      let point : Point = record {
        sequence = next + count;
        step = row.step;
        timestamp_ms = row.timestamp_ms;
        metrics = metrics;
      } in
      let size = json_size point + 1 in
      let rest = numbered row (next + count + 1) chunks ++ later in
      let stop =
        Clear-Stopped env json_size skipped rows points (batch ++ point ∷ rest) saved s c in
      guard-Ensures Bad (λ n t. (n ≡ count + suc (length chunks)) × Ok later saved t)
        (leb max_metric_points_per_source_row count) import_error _ s stop
        λ _.
          guard-Ensures Bad (λ n t. (n ≡ count + suc (length chunks)) × Ok later saved t)
            (ltb metric_batch_bytes size) import_error _ s stop
            λ small.
              bind-Ensures Bad (λ room t. Roomy size (point ∷ rest) saved room t)
                (λ n t. (n ≡ count + suc (length chunks)) × Ok later saved t)
                (make_room env json_size batch batch_bytes size) _ s
                (make_room-Roomy batch (point ∷ rest) batch_bytes size saved s f
                  (ground (arith, small)) c)
                λ room t r.
                  let next_point : next + (count + 1) ≡ next + count + 1 = omega arith in
                  let here : (room.0 ++ point ∷ [])
                        ++ (numbered row (next + (count + 1)) chunks ++ later)
                      ≡ room.0 ++ point ∷ rest =
                    ap (λ k. (room.0 ++ point ∷ []) ++ (numbered row k chunks ++ later)) next_point
                    ∙ append_assoc room.0 (point ∷ []) rest in
                  map-Ensures Bad (λ n u. (n ≡ count + 1 + length chunks) × Ok later saved u)
                    (λ n u. (n ≡ count + suc (length chunks)) × Ok later saved u) _
                    (split_chunks-Clear row next chunks (room.0 ++ point ∷ []) later (room.1 + size)
                      (count + 1) saved t
                      (Filling-append json_size room.0 room.1 point r.filling r.free r.fits)
                      (subst (λ ps. Ok ps saved t) (sym here) r.clear))
                    λ n u (made, d). (omega (arith, made), d)
