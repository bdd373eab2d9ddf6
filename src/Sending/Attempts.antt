-- ===== src/Sending/Attempts.antt =====
-- The life of a send attempt: hedwig/tasks.py, `mark_send_failed` of providers/postmark.py and
-- `cancel_scheduled_send` of hedwig/manager.py. A `save(update_fields=…)` writes the named fields
-- of its row.
pub mod Once
use hedwig.Prelude.Text.{prefix}
use hedwig.Prelude.{
  Bool, Option, String, false, first?, if◌then◌else◌, leb, length, map, nat_eq, none, not,
  option_eq, select, some, string_eq, true, update_where, ℕ, ◌&&◌, ◌++◌, ◌==◌, ◌||◌,
}
use hedwig.Enums.{
  DirectionType, EmailStatus, Folder, SendAttemptStatus, direction_type_eq, email_status_eq,
  send_attempt_status_eq,
}
use hedwig.Exec.{Exec, atomic, get_or_raise, gets, modify, pure, ◌>>=◌, ◌>>◌}
use hedwig.Tables.{Db, EmailMessage, OutboundSendAttempt, Task}

abbrev pub is_attempt : ℕ → OutboundSendAttempt → Bool
is_attempt i a = a.id == i

abbrev pub is_message : ℕ → EmailMessage → Bool
is_message i m = m.id == i

abbrev pub update_attempt : ℕ → (OutboundSendAttempt → OutboundSendAttempt) → Exec (Unit {0})
update_attempt i f = modify (λ s. record s { attempts = update_where (is_attempt i) f s.attempts })

abbrev pub update_message : ℕ → (EmailMessage → EmailMessage) → Exec (Unit {0})
update_message i f = modify (λ s. record s { messages = update_where (is_message i) f s.messages })

abbrev pub find_attempt : ℕ → Db → Option OutboundSendAttempt
find_attempt i s = first? (is_attempt i) s.attempts

abbrev pub find_message : ℕ → Db → Option EmailMessage
find_message i s = first? (is_message i) s.messages

-- The set tested by `reserve_attempt_for_sending`.
abbrev pub is_taken : SendAttemptStatus → Bool
is_taken SendAttemptStatus.sending = true
is_taken SendAttemptStatus.sent = true
is_taken SendAttemptStatus.cancelled = true
is_taken _ = false

abbrev pub started_attempt : ℕ → OutboundSendAttempt → OutboundSendAttempt
started_attempt now a = record a { status = SendAttemptStatus.sending; started_at = some now }

abbrev reserve_found : ℕ → OutboundSendAttempt → Exec (Option OutboundSendAttempt)
reserve_found now a =
    if is_taken a.status
    then pure none
    else do update_attempt a.id (started_attempt now); pure (some (started_attempt now a))

unfoldable pub reserve_attempt_for_sending : ℕ → ℕ → Exec (Option OutboundSendAttempt)
reserve_attempt_for_sending now i =
    atomic do found ← gets (find_attempt i); a ← get_or_raise found; reserve_found now a

abbrev pub failed_attempt : ℕ → String → String → OutboundSendAttempt → OutboundSendAttempt
failed_attempt now code message a = record a {
  status = SendAttemptStatus.failed;
  error_code = code;
  error_message = message;
  finished_at = some now;
}

abbrev pub failed_message : EmailMessage → EmailMessage
failed_message m = record m { status = EmailStatus.failed }

abbrev mark_found : ℕ → String → String → Option OutboundSendAttempt → Exec (Unit {0})
mark_found now code message none = pure tt
mark_found now code message (some a) = if a.status == SendAttemptStatus.sent then pure tt else do
  update_attempt a.id (failed_attempt now code message)
  update_message a.message failed_message

unfoldable pub mark_attempt_failed : ℕ → ℕ → String → String → Exec (Unit {0})
unfolding prefix
mark_attempt_failed now i code message =
    atomic do found ← gets (find_attempt i); mark_found now (prefix 100 code) message found

-- On the rows that the caller holds.
unfoldable pub mark_send_failed :
    ℕ → EmailMessage → OutboundSendAttempt → String → String → Exec (Unit {0})
mark_send_failed now m a code error = do
  update_attempt a.id (failed_attempt now code error)
  update_message m.id failed_message

abbrev pub is_pending_of : ℕ → OutboundSendAttempt → Bool
is_pending_of i a = a.message == i && a.status == SendAttemptStatus.pending

abbrev pub cancelled_attempt : ℕ → OutboundSendAttempt → OutboundSendAttempt
cancelled_attempt now a = record a { status = SendAttemptStatus.cancelled; finished_at = some now }

abbrev pub back_to_draft : EmailMessage → EmailMessage
back_to_draft m = record m {
  status = EmailStatus.draft;
  folder = Folder.drafts;
  scheduled_at = none;
}

abbrev cancel_found : ℕ → EmailMessage → Option OutboundSendAttempt → Exec Bool
cancel_found now m none = pure false
cancel_found now m (some a) =
    atomic
      do update_attempt a.id (cancelled_attempt now); update_message m.id back_to_draft; pure true

-- `m` is the row that the caller loaded.
unfoldable pub cancel_scheduled_send : ℕ → EmailMessage → Exec Bool
cancel_scheduled_send now m =
    if not (m.direction == DirectionType.outbound) || not (m.status == EmailStatus.queued)
    then pure false
    else do found ← gets (λ s. first? (is_pending_of m.id) s.attempts); cancel_found now m found

abbrev due_at : ℕ → Option ℕ → Bool
due_at now none = false
due_at now (some t) = leb t now

abbrev due_message : ℕ → Option EmailMessage → Bool
due_message now none = false
due_message now (some m) =
    m.direction == DirectionType.outbound
    && m.status == EmailStatus.queued
    && due_at now m.scheduled_at

-- The filter of the sweep, with its joins to the message.
abbrev pub is_due : ℕ → Db → OutboundSendAttempt → Bool
is_due now s a = a.status == SendAttemptStatus.pending && due_message now (find_message a.message s)

abbrev pub send_task : OutboundSendAttempt → Task
send_task a = Task.send_email_message a.message a.id

-- The number of sends enqueued.
unfoldable pub dispatch_due_scheduled_sends_task : ℕ → Exec ℕ
dispatch_due_scheduled_sends_task now = do
  due ← gets (λ s. select (is_due now s) s.attempts)
  modify (λ s. record s { queue = s.queue ++ map send_task due })
  pure (length due)
