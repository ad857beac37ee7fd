-- ===== src/Tests/NormalizationTests.antt =====
-- A small object and its bounds.
use epochdeck.Prelude.{◌≡◌, ◌≤◌, refl}
use epochdeck.Prelude.Int.{pos}
use epochdeck.Text.{codes}
use epochdeck.Text.Utf8.{utf8}
use epochdeck.Json.{Value, get, int, obj, no_fields, field}
use epochdeck.Json.Dumps.{dumps}
use epochdeck.Python.{Object, mapping, entry, no_entries, text_key, integer, of_value}
use epochdeck.Normalization.{
  Budget, Normalized, normalize_json_value_with_stats, normalize_value, visit, json_scalar_size,
  validate_size, append_field,
}
use epochdeck.Normalization.Size.{encoded_size}
use epochdeck.Normalization.Measures.{node_count, height}
use epochdeck.Normalization.Bounds.{normalize_json_value_with_stats_lem}
use epochdeck.Tests.Fixture.{runtime}

abbrev settings : Object
settings = mapping (entry (text_key (codes "a")) (integer (pos 1)) no_entries)

abbrev budget : Budget
budget = record { maximum = 100; maximum_depth = 4; maximum_nodes = 10 }

abbrev normalized : Normalized Value
normalized = record { value = obj (field (codes "a") (int (pos 1)) no_fields); size = 7; nodes = 2 }

normalize_json_value_with_stats_lem_example :
    (of_value normalized.value ≡ settings)
    × (normalized.size ≡ encoded_size runtime normalized.value)
    × (normalized.size ≤ budget.maximum)
    × (normalized.nodes ≡ node_count settings)
    × (node_count settings ≤ budget.maximum_nodes)
    × (height settings ≤ budget.maximum_depth)
unfolding normalize_json_value_with_stats normalize_value visit get json_scalar_size utf8 dumps
    validate_size append_field
normalize_json_value_with_stats_lem_example =
    normalize_json_value_with_stats_lem runtime budget settings normalized refl
