-- ===== src/Sending/Dispatch/Branches.antt =====
-- The branches of a dispatch: what each reply writes, and which sends never reach the provider.
use hedwig.Prelude.{
  Bool, Bool-cases, List, Option, String, ap, arith, false, first?, first?-update_self,
  if◌then◌else◌, inl, inr, leb, nat_eq, none, not, option_eq, refl, some, string_eq, true,
  update_where, ℕ, ◌&&◌, ◌==◌, ◌||◌, ◌∷◌, ◌≡◌,
}
use hedwig.Enums.{EmailStatus, SendAttemptStatus}
use hedwig.Exec.{Exc, Result, err, ok}
use hedwig.Sending.Attempts.{
  failed_attempt, failed_message, find_attempt, find_message, is_attempt, is_message,
  mark_send_failed,
}
use hedwig.Sending.Attempts.Once.{find_attempt-update}
use hedwig.Sending.Dispatch.{disabled, send_from, settle_reply, suppressed_error}
use hedwig.Sending.Suppression.{recheck_suppressed_recipients}
use hedwig.Services.{Response, Services}
use hedwig.Tables.{Db, Domain, EmailMessage, EmailProvider, Mailbox, OutboundSendAttempt}

abbrev pub status_of : Option OutboundSendAttempt → Option SendAttemptStatus
status_of none = none
status_of (some a) = some a.status

abbrev pub mail_status_of : Option EmailMessage → Option EmailStatus
mail_status_of none = none
mail_status_of (some m) = some m.status

abbrev pub succeeded : {A : Type 0} → Result A → Bool
succeeded (ok a) = true
succeeded (err e) = false

module _ (now : ℕ) (m : EmailMessage) (a : OutboundSendAttempt) (s : Db)
    (has_attempt : find_attempt a.id s ≡ some a) (has_message : find_message m.id s ≡ some m) where
  attempt_after :
      (f : OutboundSendAttempt → OutboundSendAttempt)
      → ((x : OutboundSendAttempt) → (f x).id ≡ x.id)
      → status_of (first? (is_attempt a.id) (update_where (is_attempt a.id) f s.attempts))
        ≡ some (f a).status
  attempt_after f keep = ap status_of (find_attempt-update now a.id s f keep a has_attempt)

  message_after :
      (f : EmailMessage → EmailMessage)
      → ((x : EmailMessage) → (f x).id ≡ x.id)
      → mail_status_of (first? (is_message m.id) (update_where (is_message m.id) f s.messages))
        ≡ some (f m).status
  message_after f keep = ap mail_status_of (
      first?-update_self (is_message m.id) f (λ x. ap (λ (n : ℕ). n == m.id) (keep x)) s.messages m
        has_message)

  -- Where both rows are stored, after a reply the attempt and the message are both sent or both
  -- failed: sent exactly if the call returned, whatever the provider answered.
  pub settle_reply_statuses :
      (reply : Response)
      → let r = settle_reply now m a reply s in
        (status_of (find_attempt a.id r.1)
          ≡ some (if succeeded r.0 then SendAttemptStatus.sent else SendAttemptStatus.failed))
        × (mail_status_of (find_message m.id r.1)
            ≡ some (if succeeded r.0 then EmailStatus.sent else EmailStatus.failed))
  unfolding settle_reply mark_send_failed
  settle_reply_statuses (Response.request_failed e) =
      (attempt_after _ (λ x. refl), message_after _ (λ x. refl))
  settle_reply_statuses (Response.not_json e) =
      (attempt_after _ (λ x. refl), message_after _ (λ x. refl))
  settle_reply_statuses (Response.answered status code message message_id) =
      elim (Bool-cases (leb 400 status || not (code == 0))) [
        | inl e ↦ rw e (attempt_after _ (λ x. refl), message_after _ (λ x. refl))
        | inr e ↦ rw e (attempt_after _ (λ x. refl), message_after _ (λ x. refl))
      ]

-- A send that is refused before the provider is called: sending is disabled, a recipient is
-- suppressed, or no slot is left.
abbrev pub refused_state : ℕ → EmailMessage → OutboundSendAttempt → String → String → Db → Db
refused_state now m a code error s = record s {
  attempts = update_where (is_attempt a.id) (failed_attempt now code error) s.attempts;
  messages = update_where (is_message m.id) failed_message s.messages;
}

module _ (now : ℕ) (services : Services) (mailbox : Mailbox) (domain : Domain)
    (provider : EmailProvider) (m : EmailMessage) (a : OutboundSendAttempt) (s : Db) where
  abbrev pub refusal : String → Result (Unit {0})
  refusal error = err (Exc.permanent_send_error error)

  -- With sending switched off for the mailbox or its domain nothing is sent: the attempt and the
  -- message are marked failed, and nothing else changes.
  pub send_from-disabled :
      mailbox.send_enabled && domain.outbound_enabled ≡ false
      → send_from now services mailbox domain provider m a s
        ≡ (refusal disabled, refused_state now m a "send_disabled" disabled s)
  unfolding send_from mark_send_failed
  send_from-disabled off = ground arith

  -- A recipient that is suppressed for the mailbox stops the whole message.
  pub send_from-suppressed :
      (e : String) (es : List String)
      → mailbox.send_enabled && domain.outbound_enabled ≡ true
      → recheck_suppressed_recipients now mailbox m s ≡ e ∷ es
      → send_from now services mailbox domain provider m a s ≡ (
        refusal (suppressed_error (e ∷ es)),
        refused_state now m a "recipient_suppressed" (suppressed_error (e ∷ es)) s,
      )
  unfolding send_from mark_send_failed
  send_from-suppressed e es on found = ground arith
