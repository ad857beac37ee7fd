-- ===== src/Spool/Lane/Ack.antt =====
-- The acknowledgement file: what is written is read back, and a longer journal does not change it.
use epochdeck.Prelude.{
  ℕ, ◌^◌, ◌≤◌, ◌<◌, ◌≡◌, refl, true, Option, none, some, [], ◌∷◌, arith, lt→ltb, ge→ltb, length,
  All,
}
use epochdeck.Text.{Bytes}
use epochdeck.Text.Decimal.{decimal, int_text-decimal, decimal-IsDigit, length-decimal}
use epochdeck.Error.{ok}
use epochdeck.Spool.Lane.{is_ascii, parse_ack, stored_ack}

is_ascii_digits : (l : Bytes) → All (λ c. (48 ≤ c) × (c ≤ 57)) l → is_ascii l ≡ true
unfolding is_ascii
is_ascii_digits [] h = refl
is_ascii_digits (c ∷ cs) h = rw (lt→ltb c 128 (omega arith), is_ascii_digits cs h.1)

-- An offset that was written is read back, as long as it lies in the journal.
pub parse_ack-decimal :
    (size offset : ℕ)
    → offset ≤ size
    → offset < 10 ^ 64
    → parse_ack size (decimal offset) ≡ ok offset
parse_ack-decimal size offset inside short =
    let digits : length (decimal offset) ≤ 64 = length-decimal offset 63 short in
    unfold parse_ack in
    rw (
      ge→ltb 64 (length (decimal offset)) digits,
      is_ascii_digits (decimal offset) (decimal-IsDigit offset),
      int_text-decimal offset,
      ge→ltb size offset inside,
    )

-- An acknowledged offset stays the same when the journal grows.
parse_ack_mono :
    (size size' offset : ℕ) (b : Bytes)
    → size ≤ size'
    → parse_ack size b ≡ ok offset
    → parse_ack size' b ≡ ok offset
parse_ack_mono size size' offset b grows h = unfold parse_ack in ground arith

pub stored_ack_mono :
    (size size' offset : ℕ) (ack : Option Bytes)
    → size ≤ size'
    → stored_ack size ack ≡ ok offset
    → stored_ack size' ack ≡ ok offset
unfolding stored_ack
stored_ack_mono size size' offset none grows h = h
stored_ack_mono size size' offset (some b) grows h = parse_ack_mono size size' offset b grows h
