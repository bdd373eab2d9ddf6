-- ===== src/Sending/Dispatch/Redelivery.antt =====
-- A task delivered again, and the retry after a failed upload.
use hedwig.Prelude.Text.{truthy}
use hedwig.Prelude.{
  List, Option, [], ap, arith, false, first?, inl, inr, lt→ltb, map, nat_eq, none, option_eq, refl,
  select, some, string_eq, true, update_where, ℕ, ◌&&◌, ◌++◌, ◌<◌, ◌==◌, ◌∙◌, ◌∷◌, ◌≡◌, ◌⊎◌,
}
use hedwig.Attachments.{store_attachment_content}
use hedwig.Enums.{SendAttemptStatus}
use hedwig.Exec.{Exc, Result, err, get_or_raise, ok, try_except}
use hedwig.Sending.Attempts.{find_attempt, find_message, is_attempt, is_taken, started_attempt}
use hedwig.Sending.Attempts.Once.{find_attempt-update, reserve-free, reserve-taken}
use hedwig.Sending.DailyLog.{date_of, get_daily_send_limit, release_send_slot, reserve_send_slot}
use hedwig.Sending.DailyLog.Bounds.{reached, sent_count}
use hedwig.Sending.Dispatch.{
  SendOutcome, attachments_of, deliver, find_domain, find_mailbox, find_provider, give_back,
  materialize_attachments, materialize_from, materialize_one, max_retries, not_stored_error,
  send_email_message_task, send_with_provider,
}
use hedwig.Sending.Dispatch.Slots.{send_from-deliver}
use hedwig.Sending.Suppression.{recheck_suppressed_recipients, suppressed_emails}
use hedwig.Services.{Services}
use hedwig.Tables.{
  Db, Domain, EmailAttachment, EmailMessage, EmailProvider, Mailbox, OutboundSendAttempt, Task,
}

abbrev outcome : SendOutcome → Db → Result SendOutcome × Db
outcome o s = (ok o, s)

-- In flight, sent or cancelled.
abbrev pub IsUnderWay : SendAttemptStatus → Type 0
IsUnderWay status =
    (status ≡ SendAttemptStatus.sending)
    ⊎ (status ≡ SendAttemptStatus.sent)
    ⊎ (status ≡ SendAttemptStatus.cancelled)

is_taken-IsUnderWay : (status : SendAttemptStatus) → IsUnderWay status → is_taken status ≡ true
is_taken-IsUnderWay status (inl e) = ap is_taken e
is_taken-IsUnderWay status (inr (inl e)) = ap is_taken e
is_taken-IsUnderWay status (inr (inr e)) = ap is_taken e

task_skipped :
    (now : ℕ) (services : Services) (retries m i : ℕ) (s : Db) (a : OutboundSendAttempt)
    → find_attempt i s ≡ some a
    → IsUnderWay a.status
    → send_email_message_task now services retries m i s ≡ outcome SendOutcome.skipped s
unfolding send_email_message_task
task_skipped now services retries m i s a found under_way =
    rw (reserve-taken now i s a found (is_taken-IsUnderWay a.status under_way)) refl

-- A delivery of a task: when, with which services, after how many retries and for which message.
pub record TaskRun : Type 0 where
  pub now : ℕ
  pub services : Services
  pub retries : ℕ
  pub message : ℕ

-- The outcomes of the deliveries of one attempt's task, and the database after them.
unfoldable pub run_tasks : ℕ → List TaskRun → Db → List (Result SendOutcome) × Db
run_tasks i [] s = ([], s)
run_tasks i (x ∷ xs) s =
    let r = send_email_message_task x.now x.services x.retries x.message i s in
    let rest = run_tasks i xs r.1 in (r.0 ∷ rest.0, rest.1)

-- However often the task of an attempt that is in flight, sent or cancelled is delivered, at any
-- times, every run is skipped, and together they change nothing.
pub redelivery_skipped :
    (xs : List TaskRun) (i : ℕ) (s : Db) (a : OutboundSendAttempt)
    → find_attempt i s ≡ some a
    → IsUnderWay a.status
    → run_tasks i xs s ≡ (map (λ x. ok SendOutcome.skipped) xs, s)
unfolding run_tasks
redelivery_skipped [] i s a found under_way = refl
redelivery_skipped (x ∷ xs) i s a found under_way =
    rw
      (
        task_skipped x.now x.services x.retries x.message i s a found under_way,
        redelivery_skipped xs i s a found under_way,
      )
      refl

-- The first attachment still waits for its upload, and the upload fails.
pub record StorageFails (services : Services) (m : EmailMessage) (s : Db) : Type 0 where
  pub first : EmailAttachment
  pub rest : List EmailAttachment
  pub rows : attachments_of m.id s ≡ first ∷ rest
  pub pending : truthy first.pending_content_b64 ≡ true
  pub not_uploaded : truthy first.file ≡ false
  pub fails :
      truthy
        (store_attachment_content services m.mailbox first.filename
          first.pending_content_b64).file_url
      ≡ false

module _ (now : ℕ) (services : Services) (m : EmailMessage) (s : Db)
    (f : StorageFails services m s) where
  deliver_storage :
      (d : Domain) (a : OutboundSendAttempt)
      → deliver now services d m a s
        ≡ (err (Exc.transient_send_error (not_stored_error f.first.filename)), s)
  unfolding deliver materialize_attachments materialize_from materialize_one
  deliver_storage d a = ground (arith, f.rows, f.pending, f.not_uploaded, f.fails)

attempts-reserve_slot :
    (now d : ℕ) (limit : Option ℕ) (s : Db)
    → (reserve_send_slot now d limit s).1.attempts ≡ s.attempts
unfolding reserve_send_slot
attempts-reserve_slot now d none s = ground arith
attempts-reserve_slot now d (some limit) s = ground arith

attachments-reserve_slot :
    (now d : ℕ) (limit : Option ℕ) (s : Db)
    → (reserve_send_slot now d limit s).1.attachments ≡ s.attachments
unfolding reserve_send_slot
attachments-reserve_slot now d none s = ground arith
attachments-reserve_slot now d (some limit) s = ground arith

-- The rows that the task loads, with sending on, nobody suppressed and room under the limit.
pub record Ready (now i : ℕ) (s : Db) : Type 0 where
  pub attempt : OutboundSendAttempt
  pub message : EmailMessage
  pub mailbox : Mailbox
  pub domain : Domain
  pub provider : EmailProvider
  pub has_attempt : find_attempt i s ≡ some attempt
  pub free : is_taken attempt.status ≡ false
  pub has_message : find_message attempt.message s ≡ some message
  pub has_mailbox : find_mailbox message.mailbox s ≡ some mailbox
  pub has_domain : find_domain mailbox.domain s ≡ some domain
  pub has_provider : find_provider domain.provider s ≡ some provider
  pub on : mailbox.send_enabled && domain.outbound_enabled ≡ true
  pub clear : recheck_suppressed_recipients now mailbox message s ≡ []
  pub room :
      reached (get_daily_send_limit domain provider) (sent_count domain.id (date_of now) s) ≡ false

module _ (now : ℕ) (services : Services) (i : ℕ) (s : Db) (r : Ready now i s) where
  open r use {attempt, message, mailbox, domain, provider}

  abbrev taken_state : Db
  taken_state = record s { attempts = update_where (is_attempt i) (started_attempt now) s.attempts }

  abbrev slot_state : Db
  slot_state =
      (reserve_send_slot now domain.id (get_daily_send_limit domain provider) taken_state).1

  send_ready :
      send_with_provider now services message (started_attempt now attempt) taken_state
      ≡ try_except
          (deliver now services domain message (started_attempt now attempt))
          (give_back now domain.id)
          slot_state
  unfolding send_with_provider recheck_suppressed_recipients suppressed_emails
  send_ready =
      rw (r.has_mailbox, get_or_raise)
        (rw (r.has_domain, get_or_raise)
          (rw (r.has_provider, get_or_raise)
            (send_from-deliver now services mailbox domain provider message
              (started_attempt now attempt) taken_state r.on r.clear r.room)))

  -- The state after a failed upload: the slot is given back, and the task is queued again.
  abbrev outage_state : Db
  outage_state =
      let t = (release_send_slot now domain.id slot_state).1 in
      record t { queue = t.queue ++ Task.send_email_message attempt.message i ∷ [] }

  still_fails : StorageFails services message s → StorageFails services message slot_state
  still_fails f = record {
    first = f.first;
    rest = f.rest;
    rows =
        ap (λ rows. select (λ (a : EmailAttachment). a.message == message.id) rows)
          (attachments-reserve_slot now domain.id (get_daily_send_limit domain provider)
            taken_state)
        ∙ f.rows;
    pending = f.pending;
    not_uploaded = f.not_uploaded;
    fails = f.fails;
  }

  outage_lem :
      (retries : ℕ)
      → retries < max_retries
      → StorageFails services message s
      → send_email_message_task now services retries attempt.message i s
        ≡ outcome SendOutcome.retried outage_state
  unfolding send_email_message_task release_send_slot
  outage_lem retries left f = rw (reserve-free now i s attempt r.has_attempt r.free) (
      rw (r.has_message, get_or_raise)
        (rw send_ready (
          rw
            (deliver_storage now services message slot_state (still_fails f) domain
              (started_attempt now attempt))
            (rw (lt→ltb retries max_retries left) refl))))

  attempts_outage : outage_state.attempts ≡ taken_state.attempts
  unfolding release_send_slot
  attempts_outage =
      attempts-reserve_slot now domain.id (get_daily_send_limit domain provider) taken_state

  -- With every row there, sending on, nobody suppressed, room under the limit and a retry left, a
  -- failed upload strands the send. The task asks for a retry, but the attempt is left `sending`,
  -- so the retry, and every later task for it, is skipped and changes nothing.
  pub storage_outage_strands :
      (retries : ℕ)
      → retries < max_retries
      → StorageFails services message s
      → let t = send_email_message_task now services retries attempt.message i s in
        (t.0 ≡ ok SendOutcome.retried)
        × ((now' : ℕ) (services' : Services) (retries' : ℕ)
            → send_email_message_task now' services' retries' attempt.message i t.1
              ≡ outcome SendOutcome.skipped t.1)
  storage_outage_strands retries left f = rw (outage_lem retries left f) (
    refl,
    λ now' services' retries'.
        task_skipped now' services' retries' attempt.message i outage_state
          (started_attempt now attempt)
          (ap (first? (is_attempt i)) attempts_outage
            ∙ find_attempt-update now i s (started_attempt now) (λ x. refl) attempt r.has_attempt)
          (inl refl),
  )
