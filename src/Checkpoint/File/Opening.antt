-- ===== src/Checkpoint/File/Opening.antt =====
-- Opening a checkpoint: `__init__` of class `Checkpoint`, on the file that is at the path. The file that
-- it leaves when it raises is not part of the model.
use epochdeck.Prelude.{
  ℕ, zero, suc, ◌+◌, ◌≤◌, ◌≡◌, ◌∙◌, refl, ap, sym, subst, Bool, true, false, not, ◌&&◌, ◌||◌,
  Option, none, some, List, [], ◌∷◌, ◌++◌, arith, ltb, ◌==◌, length, take, length-take,
  length-append, Bool-cases, ◌⊎◌, inl, inr, if◌then◌else◌,
}
use epochdeck.Text.{Text, Bytes, codes}
use epochdeck.Error.{
  import_error, Result, ok, err, raise_if, returned, passes_then, ok_injective, ◌>>=◌, ◌>>◌,
}
use epochdeck.Exec.{Exec, continue, modify}
use epochdeck.Json.{Fields, str, no_fields}
use epochdeck.Platform.{Platform, FloatsPrintable}
use epochdeck.Protocol.{is_empty}
use epochdeck.Spool.Lines.{newline, ends_with_newline, after_last_newline}
use epochdeck.Checkpoint.{
  Data, max_import_runs, max_checkpoint_bytes, is_str, cut, complete, splitlines, load_lines, load,
  loaded_from, has_data, checkpoint_line,
}
use epochdeck.Checkpoint.File.{Checkpoint, fields_length, compact, header_value, snapshot_value}
use epochdeck.Checkpoint.File.Bounds.{Sound, after_updates, after_updates-Sound, line-ends}

-- The data of a new checkpoint.
abbrev pub new_data : Text → Text → Text → Data
new_data entity project target_project = record {
  source = str (codes "wandb");
  entity = str entity;
  project = str project;
  target_project = str target_project;
  runs = no_fields;
}

module _ (p : Platform) where
  -- The checks of `__init__` on the data.
  abbrev pub check_data : Text → Text → Text → Data → Result (Unit {0})
  check_data entity project target_project d = do
    raise_if (not (is_str (codes "wandb") d.source)) import_error
    raise_if
        (not (
          is_str entity d.entity
          && is_str project d.project
          && is_str target_project d.target_project))
        import_error
    raise_if (ltb max_import_runs (fields_length d.runs)) import_error

  abbrev pub written : Result (Unit {0}) × Checkpoint → Result Checkpoint
  written (err e, c) = err e
  written (ok done, c) = ok c

  -- `__init__`, on the file that is at the path.
  unfoldable pub open_checkpoint : Text → Text → Text → Option Bytes → Result Checkpoint
  unfolding compact
  open_checkpoint entity project target_project (some raw) = do
    raise_if (ltb max_checkpoint_bytes (length raw)) import_error
    (kept, d, n) ← load p raw
    check_data entity project target_project d
    ok (record { file = kept; held = d; updates = n })
  open_checkpoint entity project target_project none =
      check_data entity project target_project (new_data entity project target_project) >>= λ _.
      written (
        compact p
          (record { file = []; held = new_data entity project target_project; updates = 0 }))

ends-cons : (b : ℕ) (bs : Bytes) → ends_with_newline bs ≡ true → ends_with_newline (b ∷ bs) ≡ true
unfolding ends_with_newline
ends-cons b [] h = ground arith
ends-cons b (c ∷ bs) h = h

newline_only :
    (b n : ℕ) → (if b == newline then 1 else 0) ≡ suc n → ((b == newline) ≡ true) × (n ≡ 0)
newline_only b n h = ground arith

take-ends_at :
    (b : ℕ) (bs : Bytes) (m n : ℕ)
    → ((k : ℕ) → m ≡ suc k → ends_with_newline (take (suc k) bs) ≡ true)
    → elim m [ zero ↦ if b == newline then 1 else 0 | suc k ↦ suc (suc k) ] ≡ suc n
    → ends_with_newline (b ∷ take n bs) ≡ true
take-ends_at b bs zero n ih h =
    let (last, first) = newline_only b n h in
    subst (λ j. ends_with_newline (b ∷ take j bs) ≡ true) (sym first)
      (unfold ends_with_newline in last)
take-ends_at b bs (suc k) n ih h =
    let same : suc k ≡ n = omega (arith, h) in
    subst (λ j. ends_with_newline (b ∷ take j bs) ≡ true) same
      (ends-cons b (take (suc k) bs) (ih k refl))

take-ends :
    (bs : Bytes) (n : ℕ)
    → after_last_newline bs ≡ suc n
    → ends_with_newline (take (suc n) bs) ≡ true
unfolding after_last_newline ends_with_newline
take-ends [] n h = ground arith
take-ends (b ∷ bs) n h = take-ends_at b bs (after_last_newline bs) n (λ k. take-ends bs k) h

module _ (p : Platform) where
  cut-ends :
      (bs kept : Bytes) (n : ℕ)
      → after_last_newline bs ≡ n
      → cut p n bs ≡ ok kept
      → (ends_with_newline kept ≡ true) × (length kept ≤ length bs)
  unfolding cut
  cut-ends bs kept zero h e = ground arith
  cut-ends bs kept (suc n) h e =
      let same = ok_injective (take (suc n) bs) kept e in
      (
        ap ends_with_newline (sym same) ∙ take-ends bs n h,
        subst (λ l. length l ≤ length bs) same (omega (arith, length-take (suc n) bs)),
      )

  whole_or_empty :
      (raw : Bytes) (n : ℕ)
      → (is_empty raw || ends_with_newline raw) ≡ true
      → length raw ≤ n
      → (is_empty raw ≡ true) ⊎ ((ends_with_newline raw ≡ true) × (length raw ≤ n))
  whole_or_empty raw n h g = elim (Bool-cases (is_empty raw)) [
    | inl none_left ↦ inl none_left
    | inr more ↦ inr (ground (arith, h, more), g)
  ]

  complete-ends :
      (raw kept : Bytes)
      → complete p raw ≡ ok kept
      → (is_empty kept ≡ true) ⊎ (ends_with_newline kept ≡ true) × (length kept ≤ length raw)
  unfolding complete
  complete-ends raw kept h = elim (Bool-cases (is_empty raw || ends_with_newline raw)) [
    | inl e ↦
        let same : raw ≡ kept = ok_injective raw kept (rw e at h) in
        subst (λ k. (is_empty k ≡ true) ⊎ ((ends_with_newline k ≡ true) × (length k ≤ length raw)))
          same (whole_or_empty raw (length raw) e (omega arith))
    | inr e ↦ inr (cut-ends raw kept (after_last_newline raw) refl (rw e at h))
  ]

  loaded_from-is_empty :
      (kept : Bytes) (t : Bytes × Data × ℕ) → loaded_from p kept ≡ ok t → is_empty kept ≡ false
  unfolding splitlines load_lines is_empty
  loaded_from-is_empty [] t h = ground arith
  loaded_from-is_empty (b ∷ bs) t h = refl

  load-ends :
      (raw kept : Bytes) (d : Data) (n : ℕ)
      → load p raw ≡ ok (kept, d, n)
      → (ends_with_newline kept ≡ true) × (length kept ≤ length raw)
  unfolding load
  load-ends raw kept d n h =
      let (k, completed, h1) = returned (complete p raw) _ h in
      let (l, loads, h2) =
        returned
          (load_lines p true (record { loaded = none; updates_since_compaction = 0 })
            (splitlines k))
          _ h1 in
      let (e, has, h3) = returned (has_data p l.loaded) _ h2 in
      let same = ap (λ t. t.0) (ok_injective (k, e, l.updates_since_compaction) (kept, d, n) h3) in
      subst (λ b. (ends_with_newline b ≡ true) × (length b ≤ length raw)) same
        elim (complete-ends raw k completed) [
          | inl none_left ↦ absurd (ground (arith, none_left, loaded_from-is_empty k _ h1))
          | inr whole ↦ whole
        ]

pub written_lift {ℓ} :
    {A : Type ℓ} (p : Platform) (r : Result A) (f : A → Exec Checkpoint (Unit {0}))
    (c d : Checkpoint)
    → written p (continue f (r, c)) ≡ ok d
    → (a : A) × (r ≡ ok a) × (written p (f a c) ≡ ok d)
written_lift p (ok a) f c d h = (a, refl, h)
written_lift p (err e) f c d h = ground arith

pub written_guard :
    (p : Platform) (b : Bool) (f : Checkpoint → Checkpoint) (c d : Checkpoint)
    → written p (continue {B = Unit {0}} (λ (_ : Unit {0}). modify f) (raise_if b import_error, c))
      ≡ ok d
    → (b ≡ false) × (f c ≡ d)
written_guard p true f c d h = ground arith
written_guard p false f c d h = (refl, ok_injective (f c) d h)

module _ (p : Platform) (floats : FloatsPrintable p) (entity project target_project : Text) where
  compacted-Sound : (c d : Checkpoint) → written p (compact p c) ≡ ok d → Sound d
  unfolding compact
  compacted-Sound c d h =
      let (header, _, h1) = written_lift p (checkpoint_line p (header_value c.held)) _ c d h in
      let (snapshot, e, h2) = written_lift p (checkpoint_line p (snapshot_value c.held)) _ c d h1 in
      let (fits, h3) =
        written_guard p (ltb max_checkpoint_bytes (length header + length snapshot))
          (λ c. record c { file = header ++ snapshot; updates = 0 }) c d h2 in
      subst Sound h3 (record {
        bounded = ground (arith, fits, length-append header snapshot);
        whole = line-ends p floats (snapshot_value c.held) snapshot e header;
      })

  opened-Sound :
      (file : Option Bytes) (c : Checkpoint)
      → open_checkpoint p entity project target_project file ≡ ok c
      → Sound c
  unfolding open_checkpoint
  opened-Sound none c h =
      let (_, h1) =
        passes_then
          (check_data p entity project target_project (new_data entity project target_project)) _
          h in
      compacted-Sound
        (record { file = []; held = new_data entity project target_project; updates = 0 }) c h1
  opened-Sound (some raw) c h =
      let (fits, h1) =
        passes_then (raise_if (ltb max_checkpoint_bytes (length raw)) import_error) _ h in
      let ((kept, d, n), loads, h2) = returned (load p raw) _ h1 in
      let (_, h3) = passes_then (check_data p entity project target_project d) _ h2 in
      let (ends, short) = load-ends p raw kept d n loads in
      subst Sound (ok_injective _ c h3)
        (record { bounded = ground (arith, fits, short); whole = ends })

-- From a checkpoint that was opened on any file, or on none, calls of `update`, those that raise included,
-- lead to a file of at most 64 MiB that ends with a newline, so every line in it is whole.
pub opened_updates-Sound :
    (p : Platform) (floats : FloatsPrintable p) (entity project target_project : Text)
    (file : Option Bytes) (c : Checkpoint) (calls : List (Text × Fields))
    → open_checkpoint p entity project target_project file ≡ ok c
    → Sound (after_updates p calls c)
opened_updates-Sound p floats entity project target_project file c calls h =
    after_updates-Sound p floats calls c
      (opened-Sound p floats entity project target_project file c h)
