-- ===== src/Tests/CheckpointTests.antt =====
-- A new checkpoint, and one update of it.
use epochdeck.Prelude.{
  ℕ, ◌≡◌, ◌<◌, refl, true, false, Option, none, some, List, [], ◌∷◌, ◌++◌, if◌then◌else◌, length,
  take,
}
use epochdeck.Prelude.Int.{pos}
use epochdeck.Text.{Text, Bytes, codes, text_eq, text_lt}
use epochdeck.Text.Utf8.{utf8}
use epochdeck.Error.{ok}
use epochdeck.Json.{Value, int, str, obj, Fields, no_fields, field, get, insert, update, all_finite}
use epochdeck.Json.Dumps.{dumps}
use epochdeck.Platform.{Platform, FloatsPrintable}
use epochdeck.Spool.Lines.{ends_with_newline}
use epochdeck.Checkpoint.{Data, update_run, load, load_line, checkpoint_line}
use epochdeck.Checkpoint.File.{
  Checkpoint, state, update_state, compact, fields_length, header_value, snapshot_value,
  update_value,
}
use epochdeck.Checkpoint.File.Bounds.{Sound, after_updates}
use epochdeck.Checkpoint.File.Compacted.{Reads, compact-load}
use epochdeck.Checkpoint.File.Durable.{Decodes, update_durable}
use epochdeck.Checkpoint.File.Memory.{update_state-state}
use epochdeck.Checkpoint.File.Opening.{new_data, open_checkpoint, opened_updates-Sound}
use epochdeck.Tests.Fixture.{runtime, runtime-FloatsPrintable}

abbrev fresh : Data
fresh = new_data (codes "e") (codes "p") (codes "t")

abbrev steps : Fields
steps = field (codes "step") (int (pos 3)) no_fields

abbrev text_of : Value → Bytes
text_of v = dumps (λ x. codes "0.5") true v

abbrev decode : List Value → Bytes → Option Value
decode [] b = none
decode (v ∷ vs) b = if text_eq b (text_of v) then some v else decode vs b

-- Decodes the lines of the checkpoint.
abbrev reader : Platform
reader = record runtime {
  json_loads =
      decode (header_value fresh ∷ snapshot_value fresh ∷ update_value (codes "r") steps ∷ []);
}

reader-FloatsPrintable : FloatsPrintable reader
reader-FloatsPrintable = record {
  float_repr-IsPrintable = runtime-FloatsPrintable.float_repr-IsPrintable;
}

abbrev new_file : Bytes
new_file = (text_of (header_value fresh) ++ 10 ∷ []) ++ (text_of (snapshot_value fresh) ++ 10 ∷ [])

abbrev update_line : Bytes
update_line = text_of (update_value (codes "r") steps) ++ 10 ∷ []

steps-Decodes : Decodes reader (codes "r") steps steps
unfolding get text_eq text_lt dumps
steps-Decodes = record {
  decoded_update =
      field (codes "type") (str (codes "update")) (
        field (codes "source_id") (str (codes "r"))
          (field (codes "updates") (obj steps) no_fields));
  decodes = refl;
  kind = refl;
  identity = refl;
  members = refl;
}

update_durable_example :
    ((k : ℕ)
      → k < length update_line
      → load reader (new_file ++ take k update_line) ≡ ok (new_file, fresh, 0))
    × (load reader (new_file ++ update_line)
        ≡ ok (
          new_file ++ update_line,
          record fresh { runs = field (codes "r") (obj steps) no_fields },
          1,
        ))
unfolding load load_line dumps text_lt text_eq ends_with_newline checkpoint_line update_run get
    insert update all_finite utf8
update_durable_example =
    update_durable reader reader-FloatsPrintable (codes "r") steps steps new_file update_line fresh
      0 (field (codes "r") (obj steps) no_fields) steps-Decodes refl refl refl refl

opened_updates-Sound_example : Sound (
    after_updates reader
      ((codes "r", steps) ∷ [])
      (record { file = new_file; held = fresh; updates = 0 }))
unfolding open_checkpoint text_eq text_lt fields_length checkpoint_line all_finite utf8 dumps
opened_updates-Sound_example =
    opened_updates-Sound reader reader-FloatsPrintable (codes "e") (codes "p") (codes "t") none
      (record { file = new_file; held = fresh; updates = 0 }) ((codes "r", steps) ∷ []) refl

abbrev members_of : Value → Fields
members_of (obj fs) = fs
members_of v = no_fields

fresh-Reads : Reads reader fresh no_fields
unfolding get text_eq text_lt dumps
fresh-Reads = record {
  header = members_of (header_value fresh);
  snapshot = members_of (snapshot_value fresh);
  decodes_header = refl;
  header_type = refl;
  source = refl;
  entity = refl;
  project = refl;
  target_project = refl;
  decodes_snapshot = refl;
  snapshot_type = refl;
  runs = refl;
}

compact-load_example : load reader new_file ≡ ok (new_file, fresh, 0)
unfolding compact checkpoint_line all_finite utf8 dumps text_lt
compact-load_example =
    compact-load reader reader-FloatsPrintable (record { file = []; held = fresh; updates = 5 })
      (record { file = new_file; held = fresh; updates = 0 }) no_fields fresh-Reads refl

abbrev opened : Checkpoint
opened = record { file = new_file; held = fresh; updates = 0 }

abbrev updated : Checkpoint
updated = record {
  file = new_file ++ update_line;
  held = record fresh { runs = field (codes "r") (obj steps) no_fields };
  updates = 1;
}

update_state-state_example :
    (state reader (codes "r") updated ≡ ok steps)
    × ((other : Text)
        → text_eq other (codes "r") ≡ false
        → state reader other updated ≡ state reader other opened)
unfolding update_state state get checkpoint_line all_finite utf8 dumps text_lt insert update
update_state-state_example = update_state-state reader (codes "r") steps opened updated refl
