-- ===== src/Sending/Attempts/Once.antt =====
-- An attempt is taken once, and what is sent or cancelled is not taken again.
use hedwig.Prelude.{
  Option, ap, beq_refl, false, first?, first?-exists, first?-passes, first?-update_self,
  nat_beq_iff, nat_eq, none, option_eq, refl, some, string_eq, true, update_where, ℕ, ◌==◌, ◌≡◌,
}
use hedwig.Enums.{DirectionType, EmailStatus}
use hedwig.Exec.{Result, get_or_raise, ok}
use hedwig.Sending.Attempts.{
  back_to_draft, cancel_scheduled_send, cancelled_attempt, find_attempt, find_message, is_attempt,
  is_message, is_pending_of, is_taken, reserve_attempt_for_sending, started_attempt,
}
use hedwig.Tables.{Db, EmailMessage, OutboundSendAttempt}

abbrev answered : Option OutboundSendAttempt → Db → Result (Option OutboundSendAttempt) × Db
answered a s = (ok a, s)

module _ (now : ℕ) (i : ℕ) (s : Db) where
  pub id-find_attempt : (a : OutboundSendAttempt) → find_attempt i s ≡ some a → a.id ≡ i
  id-find_attempt a found = (nat_beq_iff a.id i).0 (first?-passes (is_attempt i) s.attempts a found)

  -- A pending or failed attempt is taken: it is sending from then on, in the database and in the
  -- answer, and nothing but the table of attempts changes. Any other is refused with no change.
  pub reserve-taken :
      (a : OutboundSendAttempt)
      → find_attempt i s ≡ some a
      → is_taken a.status ≡ true
      → reserve_attempt_for_sending now i s ≡ answered none s
  unfolding reserve_attempt_for_sending
  reserve-taken a found taken = rw (found, get_or_raise) (rw taken refl)

  pub reserve-free :
      (a : OutboundSendAttempt)
      → find_attempt i s ≡ some a
      → is_taken a.status ≡ false
      → reserve_attempt_for_sending now i s
        ≡ answered
            (some (started_attempt now a))
            (record s { attempts = update_where (is_attempt i) (started_attempt now) s.attempts })
  unfolding reserve_attempt_for_sending
  reserve-free a found free = rw (found, get_or_raise) (rw (free, id-find_attempt a found) refl)

  pub find_attempt-update :
      (f : OutboundSendAttempt → OutboundSendAttempt)
      → ((a : OutboundSendAttempt) → (f a).id ≡ a.id)
      → (a : OutboundSendAttempt) → find_attempt i s ≡ some a
      → first? (is_attempt i) (update_where (is_attempt i) f s.attempts) ≡ some (f a)
  find_attempt-update f keep a found =
      first?-update_self (is_attempt i) f (λ x. ap (λ (n : ℕ). n == i) (keep x)) s.attempts a found

-- Whoever takes a pending or failed attempt takes it alone: every later try, at any time, gets
-- nothing and changes nothing, until something else writes to the attempt.
pub reserve_once :
    (now now' i : ℕ) (s : Db) (a : OutboundSendAttempt)
    → find_attempt i s ≡ some a
    → is_taken a.status ≡ false
    → let s' = (reserve_attempt_for_sending now i s).1 in
      ((reserve_attempt_for_sending now i s).0 ≡ ok (some (started_attempt now a)))
      × (reserve_attempt_for_sending now' i s' ≡ answered none s')
reserve_once now now' i s a found free = rw (reserve-free now i s a found free) (
  refl,
  reserve-taken now' i _ (started_attempt now a)
      (find_attempt-update now i s (started_attempt now) (λ x. refl) a found) refl,
)

abbrev pub cancelled_state : ℕ → EmailMessage → OutboundSendAttempt → Db → Db
cancelled_state now m a s = record s {
  attempts = update_where (is_attempt a.id) (cancelled_attempt now) s.attempts;
  messages = update_where (is_message m.id) back_to_draft s.messages;
}

module _ (now : ℕ) (m : EmailMessage) (a : OutboundSendAttempt) (s : Db)
    (out : m.direction ≡ DirectionType.outbound) (queued : m.status ≡ EmailStatus.queued)
    (pending : first? (is_pending_of m.id) s.attempts ≡ some a) where
  pub cancel_lem : cancel_scheduled_send now m s ≡ (ok true, cancelled_state now m a s)
  unfolding cancel_scheduled_send
  cancel_lem = simp (out, queued, pending)

  -- Cancelling a queued outbound message that has a pending attempt succeeds, leaves the message a
  -- draft, and no worker takes the attempt afterwards.
  pub cancel_blocks_send :
      (now' : ℕ)
      → find_message m.id s ≡ some m
      → let s' = (cancel_scheduled_send now m s).1 in
        ((cancel_scheduled_send now m s).0 ≡ ok true)
        × (find_message m.id s' ≡ some (back_to_draft m))
        × (reserve_attempt_for_sending now' a.id s' ≡ answered none s')
  cancel_blocks_send now' found =
      let (b, same) =
        first?-exists (is_pending_of m.id) (is_attempt a.id) s.attempts a pending (beq_refl a.id) in
      rw cancel_lem (
        refl,
        first?-update_self (is_message m.id) back_to_draft (λ x. refl) s.messages m found,
        reserve-taken now' a.id _ (cancelled_attempt now b)
            (find_attempt-update now a.id s (cancelled_attempt now) (λ x. refl) b same) refl,
      )
