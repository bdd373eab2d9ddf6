-- ===== src/Webhooks/Logs.antt =====
-- Composing, forwarding and the rules leave the webhooks' rows alone.
pub mod Ingested
use hedwig.Prelude.{
  Bool, List, Option, String, [], any, any-update, ap, arith, none, some, true, ℕ, ◌∙◌, refl, ◌∷◌,
  ◌≡◌,
}
use hedwig.Enums.{Folder}
use hedwig.Exec.{modify}
use hedwig.Exec.Unchanged.{
  Unchanged, Unchanged-bind, Unchanged-if, Unchanged-pure, Unchanged-try, unchanged_rules,
}
use hedwig.Ingest.Threads.{fresh, or_create, update_thread_for_message}
use hedwig.Outbound.Compose.{Composed, create_attempt, create_outbound_message}
use hedwig.Outbound.Rows.{
  NewAttachment, insert_attempt, insert_message, record_contact, record_contacts, stage_attachments,
  stage_each, stage_one,
}
use hedwig.Rules.{
  add_label, apply_actions, evaluate_rules, label_or_create, link_label, move_to, run_rule,
  run_rules,
}
use hedwig.Rules.Forwarding.{copy_attachments, copy_each, copy_one, forward_message, save_copied}
use hedwig.Sending.Attempts.{is_message, update_message}
use hedwig.Services.{Services}
use hedwig.Tables.{
  Actions, Address, Db, EmailAttachment, EmailLabel, EmailMessage, EmailThread, Mailbox,
  MailboxRule, OutboundSendAttempt,
}
use hedwig.Delivery.{
  advance_message, advance_recipients, apply_event, create_delivery_event, event_for, get_or_add,
  record_event, suppress_address, suppress_recipient,
}
use hedwig.Enums.{EmailStatus}
use hedwig.Exec.{Exc, Exec}
use hedwig.Webhooks.{drop_over_quota, handle_parsed, ingest_for, ingest_in}
use hedwig.Ingest.Inbound.{
  add_used, admit, check_quota, complete, create_inbound_message, existing_or, forward_all,
  store_each, store_one,
}
use hedwig.Normalized.{
  ParsedWebhookEvent, ProviderImpl, NormalizedAttachment, NormalizedDeliveryEvent,
  NormalizedInboundMessage,
}
use hedwig.Tables.{DeliveryEvent, ProviderWebhookLog}

abbrev pub logs : Db → List ProviderWebhookLog
logs s = s.webhook_logs

pub update_message-logs :
    (i : ℕ) (f : EmailMessage → EmailMessage) → Unchanged logs (update_message i f)
update_message-logs i f = record { same = λ s. refl }

pub modify-logs :
    (f : Db → Db) → ((s : Db) → (f s).webhook_logs ≡ s.webhook_logs) → Unchanged logs (modify f)
modify-logs f same = record { same = same }

pub fresh-logs : Unchanged logs fresh
fresh-logs = record { same = λ s. refl }

pub insert_message-logs : (m : EmailMessage) → Unchanged logs (insert_message m)
unfolding insert_message
insert_message-logs m = record { same = λ s. ground arith }

pub insert_attempt-logs : (a : OutboundSendAttempt) → Unchanged logs (insert_attempt a)
unfolding insert_attempt
insert_attempt-logs a = record { same = λ s. ground arith }

or_create-logs :
    (now mailbox : ℕ) (m : EmailMessage) (o : Option EmailThread)
    → Unchanged logs (or_create now mailbox m o)
or_create-logs now mailbox m (some t) = Unchanged-pure _
or_create-logs now mailbox m none = record { same = λ s. refl }

pub update_thread_logs :
    (now mailbox : ℕ) (m : EmailMessage) → Unchanged logs (update_thread_for_message now mailbox m)
unfolding update_thread_for_message
update_thread_logs now mailbox m =
    search (unchanged_rules, or_create-logs, update_message-logs, modify-logs)

record_contact-logs :
    (now mailbox : ℕ) (r : Address) → Unchanged logs (record_contact now mailbox r)
unfolding record_contact
record_contact-logs now mailbox r = record { same = λ s. ground arith }

record_contacts-logs :
    (now mailbox : ℕ) (rs : List Address) → Unchanged logs (record_contacts now mailbox rs)
unfolding record_contacts
record_contacts-logs now mailbox [] = Unchanged-pure _
record_contacts-logs now mailbox (r ∷ rs) =
    Unchanged-bind _ _ (record_contact-logs now mailbox r)
      (λ _. record_contacts-logs now mailbox rs)

stage_one-logs : (i : ℕ) (a : NewAttachment) → Unchanged logs (stage_one i a)
unfolding stage_one
stage_one-logs i a = record { same = λ s. refl }

stage_each-logs : (i : ℕ) (items : List NewAttachment) → Unchanged logs (stage_each i items)
unfolding stage_each
stage_each-logs i [] = Unchanged-pure _
stage_each-logs i (a ∷ more) =
    Unchanged-bind _ _ (stage_one-logs i a)
      (λ n. Unchanged-bind _ _ (stage_each-logs i more) (λ k. Unchanged-pure _))

pub stage_attachments-logs :
    (m : EmailMessage) (items : List NewAttachment) → Unchanged logs (stage_attachments m items)
unfolding stage_attachments
stage_attachments-logs m [] = Unchanged-pure _
stage_attachments-logs m (a ∷ more) =
    search (unchanged_rules, stage_each-logs, update_message-logs) depth 14

create_attempt-logs :
    (services : Services) (m : EmailMessage) (provider : ℕ)
    → Unchanged logs (create_attempt services m provider)
create_attempt-logs services m provider =
    search (unchanged_rules, fresh-logs, insert_attempt-logs) depth 14

create_outbound_logs :
    (now : ℕ) (services : Services) (mailbox : Mailbox) (c : Composed)
    → Unchanged logs (create_outbound_message now services mailbox c)
unfolding create_outbound_message
create_outbound_logs now services mailbox c =
    search
      (
        unchanged_rules, modify-logs, fresh-logs, insert_message-logs, update_thread_logs,
        record_contacts-logs, stage_attachments-logs, create_attempt-logs,
      )
      depth 14

copy_one-logs : (i : ℕ) (a : EmailAttachment) → Unchanged logs (copy_one i a)
unfolding copy_one
copy_one-logs i a = record { same = λ s. refl }

copy_each-logs : (i : ℕ) (rows : List EmailAttachment) → Unchanged logs (copy_each i rows)
unfolding copy_each
copy_each-logs i [] = Unchanged-pure _
copy_each-logs i (a ∷ more) =
    Unchanged-bind _ _ (copy_one-logs i a)
      (λ n. Unchanged-bind _ _ (copy_each-logs i more) (λ k. Unchanged-pure _))

save_copied-logs :
    (m : EmailMessage) (rows : List EmailAttachment) → Unchanged logs (save_copied m rows)
save_copied-logs m [] = Unchanged-pure _
save_copied-logs m (a ∷ more) =
    search (unchanged_rules, copy_each-logs, update_message-logs) depth 14

pub forward_logs :
    (now : ℕ) (services : Services) (m : EmailMessage) (to_email reason : String)
    → Unchanged logs (forward_message now services m to_email reason)
unfolding forward_message copy_attachments
forward_logs now services m to_email reason =
    search (unchanged_rules, modify-logs, create_outbound_logs, save_copied-logs) depth 14

label_or_create-logs :
    (mailbox : ℕ) (name : String) (o : Option EmailLabel)
    → Unchanged logs (label_or_create mailbox name o)
label_or_create-logs mailbox name (some l) = Unchanged-pure _
label_or_create-logs mailbox name none = record { same = λ s. refl }

link_label-logs : (message label : ℕ) → Unchanged logs (link_label message label)
link_label-logs message label = record { same = λ s. ground arith }

add_label_logs :
    (mailbox message : ℕ) (name : String) → Unchanged logs (add_label mailbox message name)
unfolding add_label
add_label_logs mailbox message name =
    search (unchanged_rules, label_or_create-logs, link_label-logs) depth 14

move_to-logs : (m : EmailMessage) (o : Option Folder) → Unchanged logs (move_to m o)
move_to-logs m none = Unchanged-pure _
move_to-logs m (some f) = search (unchanged_rules, update_message-logs) depth 14

apply_actions-logs :
    (now : ℕ) (services : Services) (mailbox : ℕ) (m : EmailMessage) (a : Actions)
    → Unchanged logs (apply_actions now services mailbox m a)
unfolding apply_actions
apply_actions-logs now services mailbox m a =
    search (unchanged_rules, add_label_logs, move_to-logs, forward_logs) depth 14

run_rule-logs :
    (now : ℕ) (services : Services) (mailbox : ℕ) (r : MailboxRule) (m : EmailMessage)
    → Unchanged logs (run_rule now services mailbox r m)
unfolding run_rule
run_rule-logs now services mailbox r m = search (unchanged_rules, apply_actions-logs) depth 14

run_rules-logs :
    (now : ℕ) (services : Services) (mailbox : ℕ) (rules : List MailboxRule) (m : EmailMessage)
    → Unchanged logs (run_rules now services mailbox rules m)
unfolding run_rules
run_rules-logs now services mailbox [] m = Unchanged-pure _
run_rules-logs now services mailbox (r ∷ rs) m =
    Unchanged-bind _ _ (run_rule-logs now services mailbox r m) (λ done.
      Unchanged-if done.1 _ _ (Unchanged-pure _) (run_rules-logs now services mailbox rs done.0))

pub evaluate_rules-logs :
    (now : ℕ) (services : Services) (mailbox : ℕ) (m : EmailMessage)
    → Unchanged logs (evaluate_rules now services mailbox m)
unfolding evaluate_rules
evaluate_rules-logs now services mailbox m = search (unchanged_rules, run_rules-logs) depth 14
