-- ===== src/Delivery/Rotation.antt =====
-- The rotation of the worker is fair: a journal that stays pending is served within four turns.
use epochdeck.Prelude.{
  ℕ, zero, suc, ◌+◌, ◌-◌, ◌%◌, ◌≤◌, ◌<◌, ◌≡◌, ◌≢◌, sym, ◌⊎◌, inl, inr, refl, ap, ◌∙◌, true, false,
  Option, some, arith, List, [], ◌∷◌, length,
}
use mathlib.Core.List.{Memᴰ}
use epochdeck.Error.{ok}
use epochdeck.Delivery.{Pending, search_from, next_delivery}

-- How many journals stand before this one in the rotation.
abbrev pub distance : ℕ → ℕ → ℕ
distance cursor index = (index + 4 - cursor) % 4

found_closer :
    (offset cursor i j c : ℕ)
    → cursor < 4
    → i < 4
    → offset < 4
    → offset ≤ distance cursor i
    → j ≡ (cursor + offset) % 4
    → c ≡ ((cursor + offset) % 4 + 1) % 4
    → (j ≡ i) ⊎ (distance c i < distance cursor i)
found_closer offset cursor i j c hc hi ho near at next = omega arith

passed_over :
    (offset cursor i : ℕ)
    → cursor < 4
    → i < 4
    → offset ≤ distance cursor i
    → (cursor + offset) % 4 ≢ i
    → offset + 1 ≤ distance cursor i
passed_over offset cursor i hc hi near other = omega arith

-- One round of the search.
search_round :
    (rounds offset cursor : ℕ) (pending : Pending) (o : Option ℕ) (c : ℕ)
    → search_from (suc rounds) offset cursor pending ≡ ok (o, c)
    → ((o ≡ some ((cursor + offset) % 4)) × (c ≡ ((cursor + offset) % 4 + 1) % 4))
      ⊎ ((pending ((cursor + offset) % 4) ≡ ok false)
          × (search_from rounds (offset + 1) cursor pending ≡ ok (o, c)))
unfolding search_from
search_round rounds offset cursor pending o c h = ground arith

-- A search that reaches the end has passed over a pending journal, which is impossible.
search_from-progress :
    (rounds offset cursor : ℕ) (pending : Pending) (i : ℕ) (o : Option ℕ) {c : ℕ}
    → cursor < 4
    → i < 4
    → offset + rounds ≡ 4
    → offset ≤ distance cursor i
    → pending i ≡ ok true
    → search_from rounds offset cursor pending ≡ ok (o, c)
    → (c < 4) × ((o ≡ some i) ⊎ (distance c i < distance cursor i))
unfolding search_from
search_from-progress zero offset cursor pending i o hc hi sum near ready h =
    absurd (omega (arith, sum, near))
search_from-progress (suc rounds) offset cursor pending i o hc hi sum near ready h =
    elim (search_round rounds offset cursor pending o _ h) [
      | inl (at, next) ↦ (
        omega (arith, next),
        elim (found_closer offset cursor i ((cursor + offset) % 4) _ hc hi (omega arith) near refl
            next) [ inl here ↦ inl (at ∙ ap (λ n. some n) here) | inr closer ↦ inr closer ],
      )
      | inr (idle, later) ↦
          search_from-progress rounds (offset + 1) cursor pending i o hc hi (omega arith)
            (passed_over offset cursor i hc hi near λ here. ground arith) ready later
    ]

-- Consecutive turns of the worker, each with its own state of the journals, in which journal `i` is
-- always pending: the cursor before, what the turns served, the cursor behind. A turn may serve nothing.
pub data Turns (i : ℕ) : ℕ → List (Option ℕ) → ℕ → Type 0 where
  rest : {c : ℕ} → Turns i c [] c
  turn :
      {c d e : ℕ} {o : Option ℕ} {served : List (Option ℕ)} (pending : Pending)
      → pending i ≡ ok true
      → next_delivery pending c ≡ ok (o, d)
      → Turns i d served e
      → Turns i c (o ∷ served) e

served_within :
    {i c e : ℕ} {served : List (Option ℕ)}
    → i < 4
    → c < 4
    → distance c i < length served
    → Turns i c served e
    → Memᴰ (some i) served
unfolding next_delivery
served_within hi hc enough rest = absurd (omega arith)
served_within {i} {c} hi hc enough (turn {d = d} {o = o} pending ready h later) =
    let (inside, step) = search_from-progress 4 0 c pending i o hc hi refl (omega arith) ready h in
    elim step [
      | inl here ↦ Memᴰ.head (sym here)
      | inr closer ↦ Memᴰ.tail (served_within hi inside (omega arith) later)
    ]

-- A journal that is pending at each of four consecutive choices, none of which raises, is chosen
-- by one of them, whatever the others hold; that a choice finds nothing is not excluded
-- beforehand.
pub next_delivery-fair :
    {i c e : ℕ} {served : List (Option ℕ)}
    → i < 4
    → c < 4
    → length served ≡ 4
    → Turns i c served e
    → Memᴰ (some i) served
next_delivery-fair {i} {c} hi hc four turns = served_within hi hc (omega arith) turns
