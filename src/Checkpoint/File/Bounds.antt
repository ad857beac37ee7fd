-- ===== src/Checkpoint/File/Bounds.antt =====
-- The size and the last byte of a checkpoint file around calls of `update`.
use epochdeck.Prelude.{
  ◌+◌, ◌≤◌, ◌≡◌, sym, subst, Bool, true, ◌&&◌, List, [], ◌∷◌, ◌++◌, arith, ltb, leb, length,
}
use epochdeck.Prelude.{length-append}
use epochdeck.Text.{Text, Bytes}
use epochdeck.Error.{import_error, ok, raise_if}
use epochdeck.Exec.{Exec, lift, gets, modify, ◌>>=◌, ◌>>◌}
use epochdeck.Json.{Value, Fields, get}
use epochdeck.Json.Dumps.{dumps}
use epochdeck.Platform.{Platform, FloatsPrintable}
use epochdeck.Spool.Lines.{ends_with_newline}
use epochdeck.Checkpoint.{max_checkpoint_bytes, max_import_runs, checkpoint_line, update_run}
use epochdeck.Checkpoint.Line.{checkpoint_line_lem}
use epochdeck.Checkpoint.Loading.{ends-framed}
use epochdeck.Checkpoint.File.Keeps.{Keeps, bind-Keeps, lift-Keeps, guard-Keeps, when-Keeps}
use epochdeck.Checkpoint.File.{
  Checkpoint, header_value, snapshot_value, update_value, compact, is_due, overflows, compact_if,
  append_update, update_state, is_absent, fields_length,
}

-- The checkpoint after calls of `update`, which may raise.
unfoldable pub after_updates : Platform → List (Text × Fields) → Checkpoint → Checkpoint
unfolding update_state
after_updates p [] c = c
after_updates p ((source_id, updates) ∷ calls) c =
    after_updates p calls ((update_state p source_id updates c).1)

pub record Sound (c : Checkpoint) : Type 0 where
  pub bounded : length c.file ≤ max_checkpoint_bytes
  pub whole : ends_with_newline c.file ≡ true

abbrev KeepsSound {ℓ} : {A : Type ℓ} → Exec Checkpoint A → Type 0
KeepsSound m = Keeps Sound m

module _ (p : Platform) (floats : FloatsPrintable p) where
  pub line-ends :
      (v : Value) (b : Bytes)
      → checkpoint_line p v ≡ ok b
      → (before : Bytes) → ends_with_newline (before ++ b) ≡ true
  line-ends v b e before =
      subst (λ l. ends_with_newline (before ++ l) ≡ true) (sym (checkpoint_line_lem p floats v b e))
        (ends-framed before (dumps p.float_repr true v))

  replace-Sound :
      (header snapshot : Bytes)
      → ends_with_newline (header ++ snapshot) ≡ true
      → KeepsSound (
          lift (raise_if (ltb max_checkpoint_bytes (length header + length snapshot)) import_error)
          >> modify (λ c. record c { file = header ++ snapshot; updates = 0 }))
  replace-Sound header snapshot ends c h =
      guard-Keeps Sound (ltb max_checkpoint_bytes (length header + length snapshot))
        (λ c. record c { file = header ++ snapshot; updates = 0 }) c h
        λ fits. record { bounded = ground (arith, length-append header snapshot); whole = ends }

  compact-Sound : KeepsSound (compact p)
  unfolding compact
  compact-Sound c =
      lift-Keeps Sound (checkpoint_line p (header_value c.held)) _
        (λ header _. lift-Keeps Sound (checkpoint_line p (snapshot_value c.held)) _ (λ snapshot e.
          replace-Sound header snapshot (line-ends (snapshot_value c.held) snapshot e header)))
        c

  compact_if-Sound : (test : Checkpoint → Bool) → KeepsSound (compact_if p test)
  compact_if-Sound test c h = when-Keeps Sound (test c) (compact p) compact-Sound c h

  extend-Sound :
      (encoded : Bytes)
      → ((before : Bytes) → ends_with_newline (before ++ encoded) ≡ true)
      → KeepsSound (
          gets (overflows p encoded) >>= λ too_large.
          lift (raise_if too_large import_error)
          >> modify (λ c. record c { file = c.file ++ encoded; updates = c.updates + 1 }))
  extend-Sound encoded ends c h =
      guard-Keeps Sound (overflows p encoded c)
        (λ c. record c { file = c.file ++ encoded; updates = c.updates + 1 }) c h
        λ fits. record {
          bounded = ground (arith, length-append c.file encoded);
          whole = ends c.file;
        }

  append_update-Sound :
      (source_id : Text) (updates : Fields) → KeepsSound (append_update p source_id updates)
  unfolding append_update
  append_update-Sound source_id updates =
      lift-Keeps Sound (checkpoint_line p (update_value source_id updates)) _ λ encoded e.
        bind-Keeps Sound (compact_if p (is_due p)) _ (compact_if-Sound (is_due p)) λ _.
          bind-Keeps Sound (compact_if p (overflows p encoded)) _
            (compact_if-Sound (overflows p encoded))
            λ _. extend-Sound encoded (line-ends (update_value source_id updates) encoded e)

  update_state-Sound :
      (source_id : Text) (updates : Fields) → KeepsSound (update_state p source_id updates)
  unfolding update_state
  update_state-Sound source_id updates c h =
      lift-Keeps Sound
        (raise_if
          (is_absent (get source_id c.held.runs) && leb max_import_runs (fields_length c.held.runs))
          import_error)
        _
        (λ _ _. lift-Keeps Sound (update_run source_id updates c.held.runs) _ λ changed _ d s.
          append_update-Sound source_id updates
            (record d { held = record d.held { runs = changed } })
            (record { bounded = s.bounded; whole = s.whole }))
        c h

  pub after_updates-Sound :
      (calls : List (Text × Fields)) (c : Checkpoint) → Sound c → Sound (after_updates p calls c)
  unfolding after_updates
  after_updates-Sound [] c h = h
  after_updates-Sound ((source_id, updates) ∷ calls) c h =
      after_updates-Sound calls ((update_state p source_id updates c).1)
        (update_state-Sound source_id updates c h)
