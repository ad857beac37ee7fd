-- ===== src/Checkpoint/File/Memory.antt =====
-- The states of the runs in memory around an update.
use epochdeck.Prelude.{
  ◌+◌, ◌≡◌, ◌∙◌, refl, ap, sym, Bool, false, ◌&&◌, some, ◌++◌, arith, leb, ltb, length,
  if◌then◌else◌,
}
use epochdeck.Text.{Text, text_eq, text_eq_refl}
use epochdeck.Error.{import_error, Result, ok, err, raise_if, returned, ok_injective, ◌>>=◌}
use epochdeck.Json.{obj, Fields, get, insert, update, get-insert}
use epochdeck.Platform.{Platform}
use epochdeck.Checkpoint.{
  Data, max_import_runs, max_checkpoint_bytes, run_state, update_run, checkpoint_line,
}
use epochdeck.Checkpoint.File.Keeps.{Keeps, bind-Keeps, lift-Keeps, guard-Keeps, when-Keeps}
use epochdeck.Checkpoint.File.Opening.{written, written_lift}
use epochdeck.Checkpoint.File.{
  Checkpoint, header_value, snapshot_value, update_value, is_absent, fields_length, compact, is_due,
  overflows, compact_if, append_update, update_state, state,
}

module _ (p : Platform) (d : Data) where
  abbrev Holding : Checkpoint → Type 0
  Holding c = c.held ≡ d

  compact-Holding : Keeps Holding (compact p)
  unfolding compact
  compact-Holding c =
      lift-Keeps Holding (checkpoint_line p (header_value c.held)) _
        (λ header _.
          lift-Keeps Holding (checkpoint_line p (snapshot_value c.held)) _ (λ snapshot _ b h.
            guard-Keeps Holding (ltb max_checkpoint_bytes (length header + length snapshot))
              (λ c. record c { file = header ++ snapshot; updates = 0 }) b h λ _. h))
        c

  compact_if-Holding : (test : Checkpoint → Bool) → Keeps Holding (compact_if p test)
  compact_if-Holding test c h = when-Keeps Holding (test c) (compact p) compact-Holding c h

  append_update-Holding :
      (source_id : Text) (updates : Fields) → Keeps Holding (append_update p source_id updates)
  unfolding append_update
  append_update-Holding source_id updates =
      lift-Keeps Holding (checkpoint_line p (update_value source_id updates)) _ λ encoded _.
        bind-Keeps Holding (compact_if p (is_due p)) _ (compact_if-Holding (is_due p)) λ _.
          bind-Keeps Holding (compact_if p (overflows p encoded)) _
            (compact_if-Holding (overflows p encoded))
            λ _ c h.
              guard-Keeps Holding (overflows p encoded c)
                (λ c. record c { file = c.file ++ encoded; updates = c.updates + 1 }) c h λ _. h

written-state :
    (p : Platform) (outcome : Result (Unit {0}) × Checkpoint) (c : Checkpoint)
    → written p outcome ≡ ok c
    → outcome.1 ≡ c
written-state p (ok done, b) c h = ok_injective b c h
written-state p (err e, b) c h = ground arith

update_run-state :
    (source_id : Text) (updates runs changed : Fields)
    → update_run source_id updates runs ≡ ok changed
    → (current : Fields) × (run_state (get source_id runs) ≡ ok current)
      × (insert source_id (obj (update current updates)) runs ≡ changed)
unfolding update_run
update_run-state source_id updates runs changed h =
    let (current, held, h1) = returned (run_state (get source_id runs)) _ h in
    (current, held, ok_injective (insert source_id (obj (update current updates)) runs) changed h1)

-- After an update that returns, the state of the run is the state before it with the updates, and the
-- states of the other runs are what they were, a compaction of the file included.
pub update_state-state :
    (p : Platform) (source_id : Text) (updates : Fields) (c d : Checkpoint)
    → update_state p source_id updates c ≡ (ok tt, d)
    → (state p source_id d ≡ (state p source_id c >>= λ current. ok (update current updates)))
      × ((other : Text) → text_eq other source_id ≡ false → state p other d ≡ state p other c)
unfolding update_state state
update_state-state p source_id updates c d h =
    let (_, _, h1) =
      written_lift p
        (raise_if
          (is_absent (get source_id c.held.runs) && leb max_import_runs (fields_length c.held.runs))
          import_error)
        _ c d (ap (written p) h) in
    let (changed, e, h2) = written_lift p (update_run source_id updates c.held.runs) _ c d h1 in
    let (current, before, inserted) = update_run-state source_id updates c.held.runs changed e in
    let next = record c { held = record c.held { runs = changed } } in
    let held =
      sym (ap (λ x. x.held.runs) (written-state p (append_update p source_id updates next) d h2))
      ∙ ap (λ x. x.runs) (append_update-Holding p next.held source_id updates next refl)
      ∙ sym inserted in
    let after = obj (update current updates) in
    (
      ap run_state (
            ap (get source_id) held
            ∙ get-insert source_id source_id after c.held.runs
            ∙ ap (λ b. if b then some after else get source_id c.held.runs)
                (text_eq_refl source_id))
          ∙ ap (λ r. r >>= λ current. ok (update current updates)) (sym before),
      λ other differs. ap run_state (
          ap (get other) held
          ∙ get-insert source_id other after c.held.runs
          ∙ ap (λ b. if b then some after else get other c.held.runs) differs),
    )
