-- ===== src/Tests/SummaryTests.antt =====
-- A run that is restarted with one event behind its checkpoint.
use epochdeck.Prelude.{◌≡◌, refl, false, [], ◌∷◌, arith}
use epochdeck.Prelude.Int.{pos}
use epochdeck.Text.{codes, text_eq, text_lt}
use epochdeck.Text.Utf8.{utf8}
use epochdeck.Error.{ok}
use epochdeck.Json.{Fields, bool, int, float, no_fields, field, get, all_finite}
use epochdeck.Json.Dumps.{dumps}
use epochdeck.Protocol.{encode_json_request, is_empty, has_control}
use epochdeck.Spool.Entry.{IsEntry, content}
use epochdeck.Spool.Summary.{
  recover_summary, validate_metric_summary_snapshot, validate_recovered_metrics,
}
use epochdeck.Spool.Summary.Tail.{recover_summary-window}
use epochdeck.Metrics.{
  Floats, normalize_metrics, normalize_each, check_key, number_of, set_float, sorted,
  preview_points,
}
use epochdeck.Metrics.Preview.{everything, window}
use epochdeck.Tests.Fixture.{event, runtime, runtime-FloatsPrintable}

event-IsEntry : IsEntry runtime event
unfolding encode_json_request dumps all_finite utf8 text_eq
event-IsEntry = record { encodes = refl; fits = omega arith; decodes = refl }

abbrev logged_before : Floats
logged_before = (codes "a", 7) ∷ []

abbrev snapshot : Fields
snapshot = field (codes "a") (float 7) no_fields

recover_summary-window_example :
    (recover_summary runtime snapshot
        (bool false)
        (int (pos 22))
        128
        1000
        (content (event ∷ event ∷ []))
      ≡ ok (preview_points logged_before false (((codes "a", 5) ∷ []) ∷ []), 44))
    × ((preview_points logged_before false (((codes "a", 5) ∷ []) ∷ [])).0
        ≡ window (everything logged_before (((codes "a", 5) ∷ []) ∷ [])))
unfolding validate_metric_summary_snapshot validate_recovered_metrics normalize_metrics
    normalize_each check_key number_of set_float sorted utf8 is_empty has_control text_eq text_lt
    get
recover_summary-window_example =
    recover_summary-window runtime runtime-FloatsPrintable (event ∷ event ∷ []) 1
      (event-IsEntry, (event-IsEntry, tt)) (((codes "a", 5) ∷ []) ∷ []) ((_, refl, refl), tt)
      snapshot logged_before false refl refl 128 1000 (omega arith) (omega arith) (omega arith)
      (omega arith)
