-- ===== src/Spool/Store/Reclaim.antt =====
-- The spool is given up only when the server has everything.
use epochdeck.Prelude.{
  ℕ, ◌+◌, ◌≤◌, ◌≡◌, refl, ap, Bool, true, false, ◌&&◌, List, [], ◌∷◌, arith, length, length-append,
  length-drop, take, drop, ltb, ◌==◌, if◌then◌else◌,
}
use epochdeck.Error.{ok, err, delivery_error, undelivered_records}
use epochdeck.Platform.{Platform}
use epochdeck.Spool.Entry.{Entry, content, offset_of, content-split, length-le-content}
use epochdeck.Spool.Lane.{Lane, is_pending, read_ack}
use epochdeck.Spool.Lane.View.{Holds}
use epochdeck.Spool.Store.{Spool, any_pending, journals, reclaim_delivered, reclaimed, new_lane}

-- The abstract view of a journal: its entries, and how many are acknowledged.
pub record Shelf : Type 0 where
  pub entries : List Entry
  pub acked : ℕ

abbrev pub all_acked : Shelf → Bool
all_acked s = s.acked == length s.entries

pub record Shelves : Type 0 where
  pub events : Shelf
  pub alerts : Shelf
  pub rich_values : Shelf
  pub artifacts : Shelf

pub record Keeps (p : Platform) (v : Shelves) (s : Spool) : Type 0 where
  pub events : Holds p v.events.entries v.events.acked s.events
  pub alerts : Holds p v.alerts.entries v.alerts.acked s.alerts
  pub rich_values : Holds p v.rich_values.entries v.rich_values.acked s.rich_values
  pub artifacts : Holds p v.artifacts.entries v.artifacts.acked s.artifacts

abbrev pub everything_acked : Shelves → Bool
everything_acked v =
    all_acked v.events && (all_acked v.alerts && (all_acked v.rich_values && all_acked v.artifacts))

abbrev pub empty_shelf : Shelf
empty_shelf = record { entries = []; acked = 0 }

abbrev pub no_shelves : Shelves
no_shelves = record {
  events = empty_shelf;
  alerts = empty_shelf;
  rich_values = empty_shelf;
  artifacts = empty_shelf;
}

content-length_zero : (xs : List Entry) → length xs ≡ 0 → length (content xs) ≡ 0
content-length_zero [] h = refl
content-length_zero (x ∷ xs) h = omega arith

module _ (es : List Entry) (k : ℕ) (inside : k ≤ length es) where
  content-split_length : offset_of es k + length (content (drop k es)) ≡ length (content es)
  content-split_length = omega (
    arith,
    ap length (content-split es k),
    length-append {0} (content (take k es)) (content (drop k es)),
  )

  content-drop_zero : k ≡ length es → length (content (drop k es)) ≡ 0
  content-drop_zero all = content-length_zero (drop k es) (omega (arith, length-drop {0} k es))

  -- The offset is before the end of the journal exactly when an entry is left.
  offset_before_end :
      ltb (offset_of es k) (length (content es)) ≡ (if k == length es then false else true)
  offset_before_end = ground (
    arith,
    content-split_length,
    content-drop_zero,
    length-le-content (drop k es),
    length-drop {0} k es,
  )

module _ (p : Platform) where
  pub is_pending-Holds :
      (es : List Entry) (k : ℕ) (lane : Lane)
      → Holds p es k lane
      → is_pending lane ≡ ok (if k == length es then false else true)
  unfolding is_pending
  is_pending-Holds es k lane holds =
      rw (holds.acked, ap length holds.journal) (ap ok (offset_before_end es k holds.bounded))

  pub new_lane-Holds : Holds p [] 0 new_lane
  unfolding read_ack
  new_lane-Holds = record { valid = tt; journal = refl; acked = refl; bounded = omega arith }

  any_pending-Keeps :
      (v : Shelves) (s : Spool)
      → Keeps p v s
      → any_pending (journals s) ≡ ok (if everything_acked v then false else true)
  unfolding any_pending
  any_pending-Keeps v s keeps =
      rw
        (
          is_pending-Holds v.events.entries v.events.acked s.events keeps.events,
          is_pending-Holds v.alerts.entries v.alerts.acked s.alerts keeps.alerts,
          is_pending-Holds v.rich_values.entries v.rich_values.acked s.rich_values
              keeps.rich_values,
          is_pending-Holds v.artifacts.entries v.artifacts.acked s.artifacts keeps.artifacts,
        )
        (ground arith)

  -- With an unacknowledged entry in any of the four journals, reclaim_delivered raises and changes
  -- nothing; otherwise it succeeds; the reclaimed spool is a spool of empty journals.
  pub reclaim_delivered-Keeps :
      (v : Shelves) (s : Spool)
      → Keeps p v s
      → (reclaim_delivered s ≡ (
          if everything_acked v
          then (ok tt, reclaimed s)
          else (err (delivery_error undelivered_records), s)))
        × Keeps p no_shelves (reclaimed s)
  unfolding reclaim_delivered
  reclaim_delivered-Keeps v s keeps = (
    rw (any_pending-Keeps v s keeps) (ground arith),
    record {
      events = new_lane-Holds;
      alerts = new_lane-Holds;
      rich_values = new_lane-Holds;
      artifacts = new_lane-Holds;
    },
  )
