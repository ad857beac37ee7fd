-- ===== src/Tests/MetricsTests.antt =====
-- Metric points and previews of them.
use epochdeck.Prelude.{◌≡◌, ◌≤◌, refl, false, List, [], ◌∷◌, length, All}
use epochdeck.Prelude.Int.{pos}
use epochdeck.Text.{codes, text_eq, text_lt}
use epochdeck.Text.Utf8.{utf8}
use epochdeck.Json.{Fields, no_fields, field, int, float}
use epochdeck.Metrics.{
  Floats, set_float, check_key, number_of, normalize_each, normalize_metrics, preview_points,
  starts_with, add_metrics, sorted, max_metrics_per_point,
}
use epochdeck.Protocol.{is_empty, has_control}
use epochdeck.Metrics.Bounds.{IsMetric, normalize_metrics-Bounds}
use epochdeck.Metrics.Preview.{everything, preview_points-window}
use epochdeck.Tests.Fixture.{runtime}

abbrev point : Fields
point = field (codes "loss") (float 5) (field (codes "step") (int (pos 1)) no_fields)

abbrev normalized : Floats
normalized = (codes "loss", 5) ∷ (codes "step", 0) ∷ []

normalize_metrics-Bounds_example :
    All IsMetric normalized × (length normalized ≤ max_metrics_per_point)
unfolding normalize_metrics check_key utf8 set_float text_eq normalize_each is_empty has_control
    number_of
normalize_metrics-Bounds_example = normalize_metrics-Bounds runtime point normalized refl

abbrev points : List Floats
points = ((codes "b", 1) ∷ []) ∷ ((codes "a", 2) ∷ (codes "system/cpu", 3) ∷ []) ∷ []

preview_points-window_example :
    (preview_points [] false points).0 ≡ (codes "a", 2) ∷ (codes "b", 1) ∷ []
unfolding everything sorted add_metrics set_float starts_with text_eq text_lt
preview_points-window_example = preview_points-window points [] false
