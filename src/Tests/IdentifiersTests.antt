-- ===== src/Tests/IdentifiersTests.antt =====
-- The number of a UUID.
use epochdeck.Prelude.{◌/◌, ◌%◌, ◌^◌, ◌*◌, ◌+◌, ◌<◌, ◌≡◌, refl, arith}
use epochdeck.Identifiers.{uuid7}
use epochdeck.Identifiers.Layout.{uuid7_layout}

uuid7_layout_example :
    let v = 1_700_000_000_123 * 2 ^ 80 + 7 * 2 ^ 76 + 5 * 2 ^ 64 + 2 * 2 ^ 62 + 9 in
    (v < 2 ^ 128)
    × (v / 2 ^ 80 ≡ 1_700_000_000_123_456_789 / 1_000_000)
    × (v / 2 ^ 76 % 16 ≡ 7)
    × (v / 2 ^ 62 % 4 ≡ 2)
unfolding uuid7
uuid7_layout_example = uuid7_layout 1_700_000_000_123_456_789 5 9 _ (omega arith) (omega arith) refl
