-- ===== src/Spool/Lane/Recovery/Restores.antt =====
-- Recovery after a crash in the middle of an append restores the journal of before the append.
use epochdeck.Prelude.{
  ℕ, ◌+◌, ◌≤◌, ◌≡◌, refl, sym, ap, ◌∙◌, inl, inr, Bool, true, false, Option, none, some, List, [],
  ◌∷◌, ◌++◌, arith, ge→ltb, length, length-append, take, take-append_self,
}
use epochdeck.Text.{Bytes}
use epochdeck.Error.{ok}
use epochdeck.Json.{Fields}
use epochdeck.Platform.{Platform}
use epochdeck.Spool.Lines.{max_journal_record_bytes, ends_with_newline}
use epochdeck.Spool.Lines.Framing.{NoNewline}
use epochdeck.Spool.Entry.{Entry, content, offset_of, offset_of-le}
use epochdeck.Spool.Lane.{Lane, read_ack, read_delivery}
use epochdeck.Spool.Lane.Ack.{stored_ack_mono}
use epochdeck.Spool.Lane.View.{Holds, InFlight}
use epochdeck.Spool.Lane.Read.Steps.{read_delivery-none, read_delivery_stored}
use epochdeck.Spool.Lane.Read.Replay.{InFlight-begins}
use epochdeck.Spool.Lane.Recovery.{
  is_complete, checkpoint_after, truncate_tail, recover_interrupted_append, journal_end,
}
use epochdeck.Spool.Lane.Recovery.Boundary.{
  IsWhole, journal_end-partial, content-IsWhole, ends_with_newline-append,
}

-- The lane as a crash leaves it: some bytes of the next record, and not its line feed.
abbrev pub interrupted : Lane → Bytes → Lane
interrupted lane partial = record lane { journal = lane.journal ++ partial }

ends_with_newline-NoNewline :
    (b : ℕ) (bs : Bytes) → NoNewline (b ∷ bs) → ends_with_newline (b ∷ bs) ≡ false
unfolding ends_with_newline
ends_with_newline-NoNewline b [] clean = ground (arith, clean.0)
ends_with_newline-NoNewline b (c ∷ bs) clean = ends_with_newline-NoNewline c bs clean.1

is_complete-partial :
    (l : Bytes) (b : ℕ) (bs : Bytes) → NoNewline (b ∷ bs) → is_complete (l ++ b ∷ bs) ≡ false
is_complete-partial [] b bs clean = ends_with_newline-NoNewline b bs clean
is_complete-partial (c ∷ l) b bs clean =
    ends_with_newline-append (c ∷ l) b bs ∙ ends_with_newline-NoNewline b bs clean

is_complete-IsWhole : (l : Bytes) → IsWhole l → is_complete l ≡ true
is_complete-IsWhole [] h = refl
is_complete-IsWhole (b ∷ l) (inl e) = cc
is_complete-IsWhole (b ∷ l) (inr e) = e

module _ (p : Platform) (is_events : Bool) (metadata : Option Bytes) (es : List Entry) (k : ℕ)
    (lane : Lane) (holds : Holds p es k lane) where
  -- A journal of whole records is left as it is.
  pub recover_interrupted_append_whole :
      recover_interrupted_append p is_events metadata lane ≡ (ok tt, lane)
  unfolding recover_interrupted_append
  recover_interrupted_append_whole =
      rw (ap is_complete holds.journal ∙ is_complete-IsWhole (content es) (content-IsWhole es))

  module _ (b : ℕ) (bs : Bytes) (clean : NoNewline (b ∷ bs))
      (short : length (b ∷ bs) ≤ max_journal_record_bytes)
      (unread : checkpoint_after p is_events metadata (length (content es)) ≡ ok false) where
    interrupted-read_ack : read_ack (interrupted lane (b ∷ bs)) ≡ ok (offset_of es k)
    interrupted-read_ack =
        unfold read_ack in
        stored_ack_mono (length lane.journal) (length (lane.journal ++ b ∷ bs)) (offset_of es k)
          lane.ack (omega (arith, length-append {0} lane.journal (b ∷ bs))) holds.acked

    interrupted-journal_end : journal_end (lane.journal ++ b ∷ bs) ≡ ok (length (content es))
    interrupted-journal_end =
        ap (λ l. journal_end (l ++ b ∷ bs)) holds.journal
        ∙ journal_end-partial (content es) (b ∷ bs) clean short (content-IsWhole es)

    truncated : take (length (content es)) (lane.journal ++ b ∷ bs) ≡ lane.journal
    truncated =
        ap (λ l. take (length l) (lane.journal ++ b ∷ bs)) (sym holds.journal)
        ∙ take-append_self lane.journal (b ∷ bs)

    -- If the delivery state is kept, the truncation gives the lane of before the append.
    recover-kept :
        (delivery : Option Fields)
        → read_delivery p (offset_of es k) (length (content es)) (interrupted lane (b ∷ bs))
          ≡ (ok delivery, interrupted lane (b ∷ bs))
        → recover_interrupted_append p is_events metadata (interrupted lane (b ∷ bs))
          ≡ (ok tt, lane)
    unfolding recover_interrupted_append truncate_tail
    recover-kept delivery kept =
        rw
          (
            is_complete-partial lane.journal b bs clean,
            interrupted-journal_end,
            interrupted-read_ack,
            ge→ltb (length (content es)) (offset_of es k) (offset_of-le es k),
            kept,
            unread,
          )
          (ap (λ j. (ok tt, record lane { journal = j })) truncated)

    -- A crash in the middle of an append, with no delivery begun: recovery gives the lane of before.
    pub recover_interrupted_append_idle :
        lane.delivery ≡ none
        → recover_interrupted_append p is_events metadata (interrupted lane (b ∷ bs))
          ≡ (ok tt, lane)
    recover_interrupted_append_idle idle = recover-kept none (
        read_delivery-none p (interrupted lane (b ∷ bs)) (offset_of es k) (length (content es))
          idle)

    -- The same while a batch is in flight: its delivery state is kept.
    pub recover_interrupted_append_in_flight :
        (budget : Option ℕ) (m : ℕ) (fs : Fields)
        → InFlight p budget es k m fs lane
        → recover_interrupted_append p is_events metadata (interrupted lane (b ∷ bs))
          ≡ (ok tt, lane)
    recover_interrupted_append_in_flight budget m fs flight = recover-kept (some fs) (
        read_delivery_stored p (interrupted lane (b ∷ bs)) (offset_of es k) (length (content es))
          flight.file fs (offset_of es (k + m)) flight.stored flight.reads flight.offsets
          (InFlight-begins p budget es k m fs lane flight) (offset_of-le es (k + m)))
