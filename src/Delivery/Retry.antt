-- ===== src/Delivery/Retry.antt =====
-- A delivery is tried until the server accepts it.
use epochdeck.Prelude.{
  ℕ, zero, suc, ◌+◌, ◌^◌, ◌<◌, ◌≡◌, ap, ◌∙◌, none, List, [], ◌∷◌, length, take, drop,
}
use epochdeck.Error.{Error, ok, err}
use epochdeck.Json.{Fields}
use epochdeck.Platform.{Platform, FloatsPrintable}
use epochdeck.Exec.{Exec}
use epochdeck.Spool.Entry.{Entry, offset_of}
use epochdeck.Spool.Lane.{Lane}
use epochdeck.Spool.Lane.View.{Holds, InFlight}
use epochdeck.Spool.Lane.Acknowledge.{acked_at, acknowledge-Holds}
use epochdeck.Delivery.{Client, deliver_one, attempt}
use epochdeck.Delivery.InFlight.{answered, deliver_one_in_flight}

-- The server refuses the request so many times, then accepts it.
pub data Accepts {S : Type 0} (request : Exec S (Unit {0})) : S → ℕ → S → Type 0 where
  accepts : {before after : S} → request before ≡ (ok tt, after) → Accepts request before 0 after
  refuses :
      {before between after : S} {n : ℕ} {e : Error}
      → request before ≡ (err e, between)
      → Accepts request between n after
      → Accepts request before (suc n) after

module _ {S : Type 0} (p : Platform) (floats : FloatsPrintable p) (client : Client S)
    (es : List Entry) (k : ℕ) (fs : Fields) (lane : Lane) (holds : Holds p es k lane)
    (short : length lane.journal < 10 ^ 64) (send : Fields → Exec S (Unit {0})) (e : Entry)
    (one : take 1 (drop k es) ≡ e ∷ []) (flight : InFlight p none es k 1 fs lane) where
  attempt-once :
      (server : S)
      → (deliver_one p client send (record { lane = lane; server = server })).1
        ≡ (answered
            (record { lane = lane; server = server })
            (offset_of es (k + 1))
            (send e.fields server)).1
  attempt-once server =
      ap (λ r. r.1)
        (deliver_one_in_flight p floats client es k fs (record { lane = lane; server = server })
          holds short send e one flight)

  attempt-Accepts :
      (n : ℕ) {before after : S}
      → Accepts (send e.fields) before n after
      → attempt (suc n) (deliver_one p client send) (record { lane = lane; server = before })
        ≡ record { lane = acked_at lane (offset_of es (k + 1)); server = after }
  unfolding attempt
  attempt-Accepts zero {before} (accepts h) = attempt-once before ∙ rw h
  attempt-Accepts (suc n) {before} (refuses h later) =
      rw (attempt-once before, h) (attempt-Accepts n later)

  -- With a single entry in flight, and a server that refuses n requests for it and then accepts, n + 1
  -- attempts leave the server in the state that those requests alone lead to, and the lane with
  -- exactly that entry acknowledged.
  pub deliver_one-retry :
      (n : ℕ) {before after : S}
      → Accepts (send e.fields) before n after
      → (attempt (suc n) (deliver_one p client send) (record { lane = lane; server = before })
          ≡ record { lane = acked_at lane (offset_of es (k + 1)); server = after })
        × Holds p es (k + 1) (acked_at lane (offset_of es (k + 1)))
  deliver_one-retry n accepted =
      (attempt-Accepts n accepted, (acknowledge-Holds p none es k 1 fs lane holds flight short).1)
