-- ===== src/Tests/Sends.antt =====
-- The properties of sending, at the office.
use hedwig.Prelude.Text.{truthy, lower, strip}
use hedwig.Prelude.Base64.{decoded_size}
use hedwig.Sending.DailyLog.{date_of, get_daily_send_limit}
use hedwig.Prelude.{
  List, String, [], arith, if◌then◌else◌, min, none, refl, some, true, ℕ, ◌+◌, ◌-◌, ◌∷◌, ◌≡◌, ◌≤◌,
  map, inl, Mem,
}
use hedwig.Attachments.{store_attachment_content}
use hedwig.Delivery.{create_delivery_event, new_event, record_event, suppression_reason}
use hedwig.Delivery.Ranks.{mail_rank, mail_rank-create_delivery_event}
use hedwig.Delivery.Repeats.{AnsweredFirst, create_delivery_event_again}
use hedwig.Delivery.Suppresses.{event_blocks_sends}
use hedwig.Enums.{EmailStatus, SendAttemptStatus}
use hedwig.Exec.{Exc, err, ok}
use hedwig.Sending.Attempts.{
  back_to_draft, cancel_scheduled_send, find_attempt, find_message, reserve_attempt_for_sending,
  started_attempt,
}
use hedwig.Sending.Attempts.Once.{cancel_blocks_send, reserve_once}
use hedwig.Sending.DailyLog.Bounds.{
  SlotStep, granted-reserves, reserves, run_slots, run_slots-le-limit, sent_count,
}
use hedwig.Sending.DailyLog.Counter.{Shows, SlotCall, answers, calls, calls-counts, counts}
use hedwig.Sending.Dispatch.{
  SendOutcome, send_email_message_task, send_from, settle_reply, suppressed_error,
}
use hedwig.Sending.Dispatch.Branches.{
  mail_status_of, refused_state, settle_reply_statuses, status_of, succeeded,
}
use hedwig.Sending.Dispatch.Redelivery.{
  Ready, StorageFails, TaskRun, redelivery_skipped, run_tasks, storage_outage_strands,
}
use hedwig.Sending.Dispatch.Slots.{keeps_slot, send_from-sent_count}
use hedwig.Sending.Suppression.{recheck_suppressed_recipients}
use hedwig.Services.{Response, Services}
use hedwig.Tables.{Db, DeliveryEvent}
use hedwig.Tests.Office.{
  ann, attachment, attempt, bounce, domain, letter, office, provider, services,
}

reserve_once_example :
    ((reserve_attempt_for_sending 1 20 office).0 ≡ ok (some (started_attempt 1 attempt)))
    × (reserve_attempt_for_sending 2 20 (reserve_attempt_for_sending 1 20 office).1
        ≡ (ok none, (reserve_attempt_for_sending 1 20 office).1))
reserve_once_example = reserve_once 1 2 20 office attempt refl refl

cancel_blocks_send_example :
    ((cancel_scheduled_send 1 letter office).0 ≡ ok true)
    × (find_message 10 (cancel_scheduled_send 1 letter office).1 ≡ some (back_to_draft letter))
    × (reserve_attempt_for_sending 2 20 (cancel_scheduled_send 1 letter office).1
        ≡ (ok none, (cancel_scheduled_send 1 letter office).1))
cancel_blocks_send_example = cancel_blocks_send 1 letter attempt office refl refl refl 2 refl

run_slots-le-limit_example :
    sent_count 1
      (date_of 1)
      (run_slots 1 1
        (some 2)
        (SlotStep.reserve ∷ SlotStep.release ∷ SlotStep.reserve ∷ [])
        office).1
    ≤ 2
run_slots-le-limit_example =
    run_slots-le-limit 1 1 2 (SlotStep.reserve ∷ SlotStep.release ∷ SlotStep.reserve ∷ []) office
      (omega arith)

abbrev two_days : List SlotCall
two_days =
    SlotCall.reserve 1 1 (some 1)
    ∷ SlotCall.reserve 2 1 (some 1)
    ∷ SlotCall.release 3 1
    ∷ SlotCall.failure 4 2
    ∷ SlotCall.reserve 90000 1 none
    ∷ []

calls-counts_example :
    ((calls two_days office).0 ≡ map ok (answers two_days (λ d t. 0)))
    × Shows (calls two_days office).1 (counts two_days (λ d t. 0))
calls-counts_example = calls-counts two_days office (λ d t. 0) (λ d t. refl)

granted-reserves_example :
    (run_slots 1 1 (some 2) (reserves 3) office).0 ≡ min 3 (2 - sent_count 1 (date_of 1) office)
granted-reserves_example = granted-reserves 1 1 2 3 office

send_from-sent_count_example :
    sent_count 1 (date_of 1) (send_from 1 services ann domain provider letter attempt office).1 ≡ (
      if keeps_slot (send_from 1 services ann domain provider letter attempt office).0
      then sent_count 1 (date_of 1) office + 1
      else sent_count 1 (date_of 1) office)
unfolding recheck_suppressed_recipients get_daily_send_limit
send_from-sent_count_example =
    send_from-sent_count 1 services ann domain provider letter attempt office refl refl refl

settle_reply_statuses_example :
    (status_of (find_attempt 20 (settle_reply 1 letter attempt (Response.not_json "") office).1)
      ≡ some (
          if succeeded (settle_reply 1 letter attempt (Response.not_json "") office).0
          then SendAttemptStatus.sent
          else SendAttemptStatus.failed))
    × (mail_status_of
          (find_message 10 (settle_reply 1 letter attempt (Response.not_json "") office).1)
        ≡ some (
            if succeeded (settle_reply 1 letter attempt (Response.not_json "") office).0
            then EmailStatus.sent
            else EmailStatus.failed))
settle_reply_statuses_example =
    settle_reply_statuses 1 letter attempt office refl refl (Response.not_json "")

abbrev taken : Db
taken = record office { attempts = started_attempt 1 attempt ∷ [] }

abbrev deliveries : List TaskRun
deliveries =
    (record { now = 2; services = services; retries = 0; message = 10 })
    ∷ (record { now = 3; services = services; retries = 1; message = 10 })
    ∷ []

redelivery_skipped_example :
    run_tasks 20 deliveries taken ≡ (ok SendOutcome.skipped ∷ ok SendOutcome.skipped ∷ [], taken)
redelivery_skipped_example =
    redelivery_skipped deliveries 20 taken (started_attempt 1 attempt) refl (inl refl)

office_ready : Ready 1 20 office
unfolding recheck_suppressed_recipients get_daily_send_limit
office_ready = record {
  attempt = attempt;
  message = letter;
  mailbox = ann;
  domain = domain;
  provider = provider;
  has_attempt = refl;
  free = refl;
  has_message = refl;
  has_mailbox = refl;
  has_domain = refl;
  has_provider = refl;
  on = refl;
  clear = refl;
  room = refl;
}

storage_down : StorageFails services letter office
unfolding truthy store_attachment_content decoded_size
storage_down = record {
  first = attachment;
  rest = [];
  rows = refl;
  pending = refl;
  not_uploaded = refl;
  fails = refl;
}

storage_outage_strands_example :
    ((send_email_message_task 1 services 0 10 20 office).0 ≡ ok SendOutcome.retried)
    × ((now' : ℕ) (services' : Services) (retries' : ℕ)
        → send_email_message_task now' services' retries' 10 20
            (send_email_message_task 1 services 0 10 20 office).1
          ≡ (ok SendOutcome.skipped, (send_email_message_task 1 services 0 10 20 office).1))
unfolding office_ready
storage_outage_strands_example =
    storage_outage_strands 1 services 20 office office_ready 0 (omega arith) storage_down

event_blocks_sends_example :
    (x : String) × (xs : List String) × (send_from 2 services ann domain provider letter attempt
        (create_delivery_event 1 (some 1) bounce 40 office).1
      ≡ (
        err (Exc.permanent_send_error (suppressed_error (x ∷ xs))),
        refused_state 2 letter attempt "recipient_suppressed"
            (suppressed_error (x ∷ xs))
            (create_delivery_event 1 (some 1) bounce 40 office).1,
      ))
unfolding record_event suppression_reason truthy lower strip
event_blocks_sends_example =
    event_blocks_sends 1 1 40 bounce letter (new_event 1 letter bounce 40) "bounce" office refl refl
      refl (refl, refl) refl 2 services ann domain provider letter attempt refl refl refl

mail_rank-create_delivery_event_example :
    mail_rank (find_message 10 office)
    ≤ mail_rank (find_message 10 (create_delivery_event 1 (some 1) bounce 40 office).1)
mail_rank-create_delivery_event_example =
    mail_rank-create_delivery_event 1 (some 1) bounce 40 10 office (refl, (refl, tt))

create_delivery_event_again_example :
    (e : DeliveryEvent) × (create_delivery_event 2 none bounce 41
        (create_delivery_event 1 (some 1) bounce 40 office).1
      ≡ (ok (some e), (create_delivery_event 1 (some 1) bounce 40 office).1))
    × Mem e (create_delivery_event 1 (some 1) bounce 40 office).1.events
    × (e.message ≡ letter.id)
    × (e.provider_event_id ≡ bounce.provider_event_id)
    × AnsweredFirst e (create_delivery_event 1 (some 1) bounce 40 office).0
unfolding truthy
create_delivery_event_again_example =
    create_delivery_event_again 1 2 (some 1) none bounce 40 41 letter office refl refl
