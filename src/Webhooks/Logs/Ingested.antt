-- ===== src/Webhooks/Logs/Ingested.antt =====
-- Ingestion and delivery events leave the webhooks' rows alone.
use hedwig.Prelude.{Bool, List, Option, String, [], arith, none, some, ℕ, refl, ◌∷◌}
use hedwig.Exec.Unchanged.{
  Unchanged, Unchanged-bind, Unchanged-if, Unchanged-pure, Unchanged-try, unchanged_rules,
}
use hedwig.Rules.{}
use hedwig.Services.{Services}
use hedwig.Tables.{EmailMessage, Mailbox}
use hedwig.Delivery.{
  advance_message, advance_recipients, apply_event, create_delivery_event, event_for, record_event,
  suppress_address, suppress_recipient,
}
use hedwig.Enums.{EmailStatus}
use hedwig.Exec.{Exc, Exec}
use hedwig.Webhooks.{drop_over_quota, handle_parsed, ingest_for, ingest_in}
use hedwig.Ingest.Inbound.{
  add_used, admit, check_quota, complete, create_inbound_message, existing_or, forward_all,
  store_each, store_one,
}
use hedwig.Normalized.{
  ParsedWebhookEvent, ProviderImpl, NormalizedAttachment, NormalizedDeliveryEvent,
  NormalizedInboundMessage,
}
use hedwig.Tables.{ProviderWebhookLog}
use hedwig.Webhooks.Logs.{
  logs, fresh-logs, modify-logs, insert_message-logs, update_message-logs, update_thread_logs,
  evaluate_rules-logs, forward_logs,
}

store_one-logs :
    (services : Services) (owner message : ℕ) (a : NormalizedAttachment)
    → Unchanged logs (store_one services owner message a)
unfolding store_one
store_one-logs services owner message a = record { same = λ s. refl }

store_each-logs :
    (services : Services) (owner message : ℕ) (items : List NormalizedAttachment)
    → Unchanged logs (store_each services owner message items)
unfolding store_each
store_each-logs services owner message [] = Unchanged-pure _
store_each-logs services owner message (a ∷ more) =
    Unchanged-bind _ _ (store_one-logs services owner message a) (λ k.
      Unchanged-bind _ _ (store_each-logs services owner message more) (λ l. Unchanged-pure _))

add_used-logs : (i size : ℕ) → Unchanged logs (add_used i size)
add_used-logs i size = record { same = λ s. refl }

forward_all-logs :
    (now : ℕ) (services : Services) (m : EmailMessage) (to_email : String)
    → Unchanged logs (forward_all now services m to_email)
forward_all-logs now services m to_email =
    Unchanged-if _ _ _ (forward_logs now services m to_email "mailbox_forward_to")
      (Unchanged-pure _)

complete-logs :
    (now : ℕ) (services : Services) (box : Mailbox) (recipient : String)
    (n : NormalizedInboundMessage) (m : EmailMessage)
    → Unchanged logs (complete now services box recipient n m)
unfolding complete
complete-logs now services box recipient n m =
    search
      (
        unchanged_rules, modify-logs, store_each-logs, update_message-logs, add_used-logs,
        update_thread_logs, evaluate_rules-logs, forward_all-logs,
      )
      depth 14

check_quota-logs :
    (services : Services) (box : Mailbox) (size : ℕ)
    → Unchanged logs (check_quota services box size)
unfolding check_quota
check_quota-logs services box size = search unchanged_rules

admit-logs :
    (now : ℕ) (services : Services) (provider : ℕ) (box : Mailbox) (recipient : String)
    (n : NormalizedInboundMessage)
    → Unchanged logs (admit now services provider box recipient n)
unfolding admit
admit-logs now services provider box recipient n =
    search (unchanged_rules, fresh-logs, insert_message-logs, complete-logs) depth 14

existing_logs :
    (o : Option EmailMessage) (m : Exec (EmailMessage × Bool))
    → Unchanged logs m
    → Unchanged logs (existing_or o m)
existing_logs none m h = h
existing_logs (some x) m h = Unchanged-pure _

pub create_inbound_logs :
    (now : ℕ) (services : Services) (provider : ℕ) (box : Mailbox) (recipient : String)
    (n : NormalizedInboundMessage)
    → Unchanged logs (create_inbound_message now services provider box recipient n)
unfolding create_inbound_message
create_inbound_logs now services provider box recipient n =
    search (unchanged_rules, existing_logs, check_quota-logs, admit-logs) depth 14

advance_message-logs :
    (m : EmailMessage) (new : Option EmailStatus) → Unchanged logs (advance_message m new)
unfolding advance_message
advance_message-logs m none = search unchanged_rules
advance_message-logs m (some new) = record { same = λ s. ground arith }

advance_recipients-logs :
    (m : EmailMessage) (email : String) (new : Option EmailStatus)
    → Unchanged logs (advance_recipients m email new)
unfolding advance_recipients
advance_recipients-logs m email new = record { same = λ s. ground arith }

suppress_recipient-logs :
    (domain : Option ℕ) (m : EmailMessage) (email : String) (raw : ℕ) (reason : Option String)
    → Unchanged logs (suppress_recipient domain m email raw reason)
unfolding suppress_recipient suppress_address
suppress_recipient-logs none m email raw reason = record { same = λ s. ground arith }
suppress_recipient-logs (some d) m email raw reason = record { same = λ s. ground arith }

apply_event-logs :
    (domain : Option ℕ) (m : EmailMessage) (n : NormalizedDeliveryEvent) (raw : ℕ)
    → Unchanged logs (apply_event domain m n raw)
unfolding apply_event
apply_event-logs domain m n raw =
    search (unchanged_rules, advance_message-logs, advance_recipients-logs, suppress_recipient-logs)

record_event-logs :
    (now : ℕ) (m : EmailMessage) (n : NormalizedDeliveryEvent) (raw : ℕ)
    → Unchanged logs (record_event now m n raw)
unfolding record_event
record_event-logs now m n raw = record { same = λ s. ground arith }

event_for-logs :
    (now : ℕ) (domain : Option ℕ) (n : NormalizedDeliveryEvent) (raw : ℕ) (o : Option EmailMessage)
    → Unchanged logs (event_for now domain n raw o)
event_for-logs now domain n raw none = Unchanged-pure _
event_for-logs now domain n raw (some m) =
    search (unchanged_rules, record_event-logs, apply_event-logs) depth 14

pub create_delivery_event-logs :
    (now : ℕ) (domain : Option ℕ) (n : NormalizedDeliveryEvent) (raw : ℕ)
    → Unchanged logs (create_delivery_event now domain n raw)
unfolding create_delivery_event
create_delivery_event-logs now domain n raw = search (unchanged_rules, event_for-logs) depth 14

dropped_logs : (d : ℕ) (e : Exc) → Unchanged logs (drop_over_quota d e)
dropped_logs d (Exc.quota_exceeded message) = record { same = λ s. refl }
dropped_logs d Exc.integrity_error = record { same = λ s. refl }
dropped_logs d Exc.does_not_exist = record { same = λ s. refl }
dropped_logs d (Exc.transient_send_error m) = record { same = λ s. refl }
dropped_logs d (Exc.permanent_send_error m) = record { same = λ s. refl }
dropped_logs d (Exc.validation_error m) = record { same = λ s. refl }
dropped_logs d (Exc.value_error m) = record { same = λ s. refl }
dropped_logs d (Exc.permission_denied m) = record { same = λ s. refl }
dropped_logs d (Exc.not_found m) = record { same = λ s. refl }
dropped_logs d (Exc.request_error m) = record { same = λ s. refl }

ingest_for-logs :
    (now : ℕ) (services : Services) (provider d : ℕ) (n : NormalizedInboundMessage)
    (o : Option (Mailbox × String))
    → Unchanged logs (ingest_for now services provider d n o)
ingest_for-logs now services provider d n none = Unchanged-pure _
ingest_for-logs now services provider d n (some found) =
    Unchanged-try _ _
      (Unchanged-bind _ _ (create_inbound_logs now services provider found.0 found.1 n)
        (λ a. Unchanged-pure _))
      (λ e. dropped_logs d e)

ingest_in-logs :
    (now : ℕ) (services : Services) (provider : ℕ) (n : NormalizedInboundMessage) (o : Option ℕ)
    → Unchanged logs (ingest_in now services provider n o)
ingest_in-logs now services provider n none = Unchanged-pure _
ingest_in-logs now services provider n (some d) = search (unchanged_rules, ingest_for-logs) depth 14

pub handle_parsed-logs :
    (now : ℕ) (services : Services) (impl : ProviderImpl) (provider : ℕ) (w : ProviderWebhookLog)
    (parsed : ParsedWebhookEvent)
    → Unchanged logs (handle_parsed now services impl provider w parsed)
unfolding handle_parsed
handle_parsed-logs now services impl provider w (ParsedWebhookEvent.inbound n) =
    search (unchanged_rules, ingest_in-logs) depth 14
handle_parsed-logs now services impl provider w (ParsedWebhookEvent.delivery_event n) =
    search (unchanged_rules, create_delivery_event-logs) depth 14
handle_parsed-logs now services impl provider w (ParsedWebhookEvent.unknown kind) = Unchanged-pure _
