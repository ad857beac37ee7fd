-- ===== src/Tests/RunTests.antt =====
-- A run that logs.
use epochdeck.Prelude.{ℕ, ◌≡◌, ◌≤◌, refl, true, false, none, some, [], ◌∷◌, arith, length}
use epochdeck.Text.{codes, text_eq}
use epochdeck.Text.Utf8.{utf8}
use epochdeck.Error.{err, type_error}
use epochdeck.Exec.{Exec}
use epochdeck.Json.{no_fields, field, get, all_finite}
use epochdeck.Json.Dumps.{dumps}
use epochdeck.Spool.Lane.{json_file}
use epochdeck.Python.{Object, Entries, mapping, entry, no_entries, text_key, number, rich}
use epochdeck.Spool.Store.{Spool, new_lane}
use epochdeck.Protocol.{is_empty, has_control}
use epochdeck.Metrics.{number_of}
use epochdeck.Run.Flatten.{Flattened, flatten_values, flatten_entries, max_values_per_log}
use epochdeck.Run.Flatten.Keys.{metric_leaves, rich_leaves, leaf_keys, Distinct, flatten_values_lem}
use epochdeck.Run.State.{natural, Run, Env, Prepared, log, offline}
use epochdeck.Run.State.Tail.{Recoverable, no_events}
use epochdeck.Run.State.Reached.{here, then_step, logs, Reached-Recoverable}
use epochdeck.Tests.Fixture.{runtime}

abbrev values : Entries
values = entry (text_key (codes "loss")) (number 5) (
    entry (text_key (codes "media"))
      (mapping (entry (text_key (codes "image")) (rich 0) no_entries)) no_entries)

abbrev flattened : Flattened
flattened = record {
  metrics = (codes "loss", 5) ∷ [];
  rich_values = (codes "media/image", 0) ∷ [];
  seen = codes "media/image" ∷ codes "loss" ∷ [];
  visited = 4;
}

flatten_values_lem_example :
    (flattened.metrics ≡ metric_leaves runtime [] values)
    × (flattened.rich_values ≡ rich_leaves [] values)
    × Distinct (leaf_keys [] values [])
    × (length flattened.metrics ≤ max_values_per_log)
    × (length flattened.rich_values ≤ max_values_per_log)
unfolding flatten_values flatten_entries utf8 is_empty has_control number_of text_eq
flatten_values_lem_example = flatten_values_lem runtime true values flattened refl

abbrev start : Run
start = record {
  mode = offline;
  closed = false;
  finished = false;
  finishing = false;
  next_sequence = 1;
  next_step = 0;
  last_user_step = none;
  summary_event_offset = 0;
  latest_event_offset = 0;
  summary_tail_records = 0;
  explicit_summary = no_fields;
  metric_summary = [];
  summary_truncated = false;
  summary = no_fields;
  spool = some (record {
    events = new_lane;
    alerts = new_lane;
    rich_values = new_lane;
    artifacts = new_lane;
    metadata = some (codes "{\"summary_event_offset\":0}");
    blobs = [];
  });
}

start-Recoverable : Recoverable runtime start
unfolding json_file dumps all_finite utf8 text_eq get
start-Recoverable = record {
  journal = record {
    size = refl;
    before = [];
    tail = [];
    split = refl;
    offset = refl;
    events = no_events;
    stored = λ _. record {
      fields = field (codes "summary_event_offset") (natural 0) no_fields;
      file = codes "{\"summary_event_offset\":0}";
      kept = refl;
      encodes = refl;
      has_offset = refl;
    };
  };
  ordered = omega arith;
  records = omega arith;
  bytes = omega arith;
}

abbrev prepare : ℕ → Exec Spool Prepared
prepare n s = (err type_error, s)

abbrev env : Env
env = record { timestamp_ms = 7; id = λ n. codes "id" }

abbrev loss : Object
loss = mapping (entry (text_key (codes "loss")) (number 5) no_entries)

Reached-Recoverable_example : Recoverable runtime (log runtime prepare env loss none start).1
Reached-Recoverable_example =
    Reached-Recoverable runtime prepare (λ n s. (refl, refl)) start-Recoverable
      (then_step here (logs env loss none refl))
