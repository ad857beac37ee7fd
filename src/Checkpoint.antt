-- ===== src/Checkpoint.antt =====
-- The checkpoint of a W&B import, class `Checkpoint` of python/src/epochdeck/_wandb_state.py. A file is its
-- bytes; `none` is a file that is not there. WandbImportError is `import_error`. Locks, the directory and
-- the permissions are left out, and reading and writing do not fail.
pub mod Line
pub mod Loading
pub mod File
use epochdeck.Prelude.{
  ℕ, zero, suc, ◌+◌, ◌*◌, ◌≡◌, Bool, true, false, not, ◌&&◌, ◌||◌, Option, none, some, List, [],
  ◌∷◌, ◌++◌, ltb, leb, ◌==◌, if◌then◌else◌, length, take,
}
use epochdeck.Text.{Text, Bytes, codes, text_eq}
use epochdeck.Text.Utf8.{utf8}
use epochdeck.Error.{Error, import_error, Result, ok, err, ◌>>=◌, ◌>>◌, raise_if, or_raise}
use epochdeck.Json.{
  Value, null, bool, int, float, str, arr, obj, Items, Fields, no_fields, field, get, insert,
  update, all_finite,
}
use epochdeck.Json.Dumps.{dumps}
use epochdeck.Platform.{Platform}
use epochdeck.Protocol.{is_empty}
use epochdeck.Spool.Lines.{newline, ends_with_newline, after_last_newline}

abbrev pub max_import_runs : ℕ
max_import_runs = 100_000

abbrev pub max_checkpoint_bytes : ℕ
max_checkpoint_bytes = 64 * 1024 * 1024

abbrev pub checkpoint_compact_bytes : ℕ
checkpoint_compact_bytes = 8 * 1024 * 1024

abbrev pub checkpoint_compact_updates : ℕ
checkpoint_compact_updates = 10_000

-- `_data`; the key "runs" holds a dict in every state that the class reaches.
pub record Data : Type 0 where
  pub source : Value
  pub entity : Value
  pub project : Value
  pub target_project : Value
  pub runs : Fields

-- `_data` and `_updates_since_compaction` while the file is loaded.
pub record Loaded : Type 0 where
  pub loaded : Option Data
  pub updates_since_compaction : ℕ

-- `record.get(name)`
abbrev pub or_null : Option Value → Value
or_null none = null
or_null (some v) = v

abbrev pub member : Text → Fields → Value
member name record_ = or_null (get name record_)

abbrev pub is_str : Text → Value → Bool
is_str t (str s) = text_eq s t
is_str t v = false

abbrev header_data : Fields → Data
header_data r = record {
  source = member (codes "source") r;
  entity = member (codes "entity") r;
  project = member (codes "project") r;
  target_project = member (codes "target_project") r;
  runs = no_fields;
}

-- `data["runs"] = runs`
abbrev set_runs : Data → Value → Result Data
set_runs d (obj runs) = ok (record d { runs = runs })
set_runs d v = err import_error

-- `runs.setdefault(source_id, {})`, if it is a dict.
abbrev pub run_state : Option Value → Result Fields
run_state none = ok no_fields
run_state (some (obj current)) = ok current
run_state (some v) = err import_error

-- `runs.setdefault(source_id, {}).update(updates)`
unfoldable pub update_run : Text → Fields → Fields → Result Fields
update_run source_id updates runs = do
  current ← run_state (get source_id runs)
  ok (insert source_id (obj (update current updates)) runs)

abbrev apply_update : Data → Value → Value → Result Data
apply_update d (str source_id) (obj updates) = do
  runs ← update_run source_id updates d.runs
  ok (record d { runs = runs })
apply_update d source_id updates = err import_error

-- A record behind the first line: its type and the members that the types have.
abbrev pub apply_change : Data → ℕ → Value → Value → Value → Value → Result Loaded
apply_change d n kind runs source_id updates =
    if is_str (codes "snapshot") kind
    then (set_runs d runs >>= λ e. ok (record { loaded = some e; updates_since_compaction = n }))
    else if is_str (codes "update") kind
    then (apply_update d source_id updates >>= λ e.
        ok (record { loaded = some e; updates_since_compaction = n + 1 }))
    else err import_error

abbrev with_data : ℕ → Option Data → Fields → Result Loaded
with_data n none r = err import_error
with_data n (some d) r =
    apply_change d n (member (codes "type") r) (member (codes "runs") r)
      (member (codes "source_id") r) (member (codes "updates") r)

abbrev pub apply_record : Bool → Loaded → Fields → Result Loaded
apply_record first l r =
    if first && is_str (codes "header") (member (codes "type") r)
    then ok (record l { loaded = some (header_data r) })
    else with_data l.updates_since_compaction l.loaded r

abbrev pub decoded_record : Option Value → Result Fields
decoded_record (some (obj r)) = ok r
decoded_record v = err import_error

-- The first line joined with a byte before it.
abbrev pub cons_first : ℕ → List Bytes → List Bytes
cons_first b [] = (b ∷ []) ∷ []
cons_first b (line ∷ lines) = (b ∷ line) ∷ lines

abbrev pub starts_with_newline : Bytes → Bool
starts_with_newline [] = false
starts_with_newline (b ∷ bs) = b == newline

unfoldable pub add_byte : ℕ → Bool → List Bytes → List Bytes
add_byte b before_newline rest =
    if b == newline
    then [] ∷ rest
    else if b == 13
    then (if before_newline then rest else [] ∷ rest)
    else cons_first b rest

-- `raw.splitlines()`: a line ends with `\n`, `\r` or `\r\n`.
unfoldable pub splitlines : Bytes → List Bytes
unfolding add_byte
splitlines [] = []
splitlines (b ∷ bs) = add_byte b (starts_with_newline bs) (splitlines bs)

module _ (p : Platform) where
  -- One line; `json_loads` does not tell a line that is not UTF-8, on which UnicodeDecodeError escapes,
  -- from one that is not JSON.
  unfoldable pub load_line : Bool → Loaded → Bytes → Result Loaded
  unfolding update_run
  load_line first l line = do r ← decoded_record (p.json_loads line); apply_record first l r

  unfoldable pub load_lines : Bool → Loaded → List Bytes → Result Loaded
  load_lines first l [] = ok l
  load_lines first l (line ∷ lines) = do m ← load_line first l line; load_lines false m lines

  unfoldable pub cut : ℕ → Bytes → Result Bytes
  cut zero raw = err import_error
  cut (suc n) raw = ok (take (suc n) raw)

  -- What is left of the file when an incomplete last line is cut off.
  unfoldable pub complete : Bytes → Result Bytes
  unfolding ends_with_newline after_last_newline cut is_empty
  complete raw =
      if is_empty raw || ends_with_newline raw then ok raw else cut (after_last_newline raw) raw

  abbrev pub has_data : Option Data → Result Data
  has_data none = err import_error
  has_data (some d) = ok d

  -- What `_load` leaves and returns: the file, the data and the number of updates.
  abbrev pub finished : Bytes → Loaded → Result (Bytes × Data × ℕ)
  finished kept l = has_data l.loaded >>= λ d. ok (kept, d, l.updates_since_compaction)

  abbrev pub loaded_from : Bytes → Result (Bytes × Data × ℕ)
  loaded_from kept =
      load_lines true (record { loaded = none; updates_since_compaction = 0 }) (splitlines kept)
      >>= finished kept

  -- `_load`
  unfoldable pub load : Bytes → Result (Bytes × Data × ℕ)
  unfolding splitlines load_lines complete
  load raw = complete raw >>= loaded_from

  -- `_checkpoint_line`
  unfoldable pub checkpoint_line : Value → Result Bytes
  checkpoint_line v =
      if all_finite v
      then or_raise (utf8 (dumps p.float_repr true v ++ newline ∷ [])) import_error
      else err import_error
