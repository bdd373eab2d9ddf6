-- ===== src/Tests/Mails.antt =====
-- The properties of what comes in, and of the rows around it, at the office.
use hedwig.Prelude.Json.{Json}
use hedwig.Prelude.Sort.{sort}
use hedwig.Prelude.Text.{lower, prefix, starts_with, lower_char, truthy, strip}
use hedwig.Ingest.Resolve.{resolve_mailbox}
use hedwig.Prelude.{
  Bool, [], arith, false, min, none, refl, some, true, ◌+◌, ◌∷◌, ◌≡◌, ◌≤◌, Mem, all, if◌then◌else◌,
  or_else,
}
use hedwig.Access.{User, expire_user_mailbox_access_task, for_api_user, writable_for_user}
use hedwig.Access.Expiry.{expiry_is_invisible}
use hedwig.Exec.{Exc, Result, err, ok}
use hedwig.Housekeeping.{reconcile_mailbox_used_bytes_task}
use hedwig.Housekeeping.UsedBytes.{is_in_sync, reconcile_settles}
use hedwig.Ingest.Inbound.{
  admit, check_quota, complete, create_inbound_message, inbound_row, incoming_size, store_each,
}
use hedwig.Ingest.Inbound.Again.{IsDelivery, create_inbound_message_again}
use hedwig.Ingest.Inbound.Quota.{admitted, create_inbound_message-quota, fits, refused}
use hedwig.Ingest.Resolve.Routes.{Routable, resolve_mailbox-Routable}
use hedwig.Ingest.Subjects.{after_reply_prefix, normalize_subject}
use hedwig.Ingest.Subjects.Loop.{Strips, normalize_subject_lem}
use hedwig.Ingest.Threads.{update_thread_for_message}
use hedwig.Outbound.Cancelled.{promote_draft_to_send-second}
use hedwig.Outbound.Drafts.Second.{create_draft_message-second}
use hedwig.Outbound.Compose.{
  create_outbound_message, Composed, create_draft_message, promote_draft_to_send,
}
use hedwig.Outbound.Rows.{
  record_contact, insert_attempt, record_contacts, insert_message, stage_attachments,
}
use hedwig.Rules.{evaluate_rules, run_rules}
use hedwig.Rules.Forwarding.{
  copy_attachments, copy_each, copy_one, current_forward_depth, forward_message, forwarded,
}
use hedwig.Rules.Hops.{Forwards, Relayed, hops_bounded}
use hedwig.Postmark.Headers.{sent_headers}
use hedwig.Sending.Attempts.{find_message}
use hedwig.Tables.{Db, EmailMessage, ProviderWebhookLog}
use hedwig.Tests.Office.{ann, domain, impl, letter, log, mail, office, services, webhook_settings}
use hedwig.Webhooks.{find_log, claim, handle_parsed, process_webhook_log}
use hedwig.Webhooks.Claims.{claim_excludes}
use hedwig.Webhooks.Outcomes.{is_final, process_webhook_log-is_final}

-- A mailbox with room for the mail, and one without.
abbrev roomy : Db
roomy = record office { mailboxes = record ann { used_bytes = 0 } ∷ [] }

abbrev full : Db
full = record office { mailboxes = record ann { used_bytes = 99 } ∷ [] }

create_inbound_message-quota_example :
    create_inbound_message 1 services 1 ann "ann@a.b" mail full ≡ (
      if fits (record ann { used_bytes = 99 }) (incoming_size mail)
      then admitted 1 services 1 ann "ann@a.b" mail full
      else refused services (record ann { used_bytes = 99 }) (incoming_size mail) full)
unfolding truthy
create_inbound_message-quota_example =
    create_inbound_message-quota 1 services 1 ann "ann@a.b" mail full
      (record ann { used_bytes = 99 }) refl refl

abbrev value_or : {A : Type 0} → A → Result A → A
value_or d (ok a) = a
value_or d (err e) = d

abbrev first_delivery : Result (EmailMessage × Bool) × Db
first_delivery = create_inbound_message 1 services 1 ann "ann@a.b" mail roomy

create_inbound_message_again_example :
    (m : EmailMessage) × (create_inbound_message 2 services 1 ann "ann@a.b" mail first_delivery.1
      ≡ (ok (m, false), first_delivery.1))
    × Mem m first_delivery.1.messages
    × IsDelivery 1 ann.id mail m
unfolding create_inbound_message check_quota truthy incoming_size admit insert_message inbound_row
    complete store_each update_thread_for_message lower_char evaluate_rules run_rules sort
create_inbound_message_again_example =
    create_inbound_message_again 1 2 services 1 ann "ann@a.b" mail roomy
      (value_or (letter, true) first_delivery.0) refl refl

abbrev processed_row : ProviderWebhookLog
processed_row = value_or log (process_webhook_log 1 services impl log roomy).0

process_webhook_log-is_final_example :
    (is_final processed_row.status ≡ true)
    × ((y : ProviderWebhookLog) × (find_log log.id (process_webhook_log 1 services impl log roomy).1
          ≡ some y)
        × (y.status ≡ processed_row.status))
unfolding process_webhook_log handle_parsed resolve_mailbox create_inbound_message check_quota
    truthy incoming_size admit insert_message inbound_row complete store_each
    update_thread_for_message lower_char evaluate_rules run_rules sort
process_webhook_log-is_final_example =
    process_webhook_log-is_final 1 services impl log log processed_row roomy refl refl

normalize_subject_lem_example :
    Strips (strip "Re: FWD: hi") (normalize_subject "Re: FWD: hi")
    × (after_reply_prefix (normalize_subject "Re: FWD: hi") ≡ none)
    × (strip (normalize_subject "Re: FWD: hi") ≡ normalize_subject "Re: FWD: hi")
    × (normalize_subject (normalize_subject "Re: FWD: hi") ≡ normalize_subject "Re: FWD: hi")
normalize_subject_lem_example = normalize_subject_lem "Re: FWD: hi"

resolve_mailbox-Routable_example : Routable 1 office ann
unfolding resolve_mailbox
resolve_mailbox-Routable_example = resolve_mailbox-Routable domain mail office (ann, "ann@a.b") refl

abbrev empty_office : Db
empty_office = record office { messages = [] }

abbrev after_hop : Db
after_hop = (forward_message 1 services letter "c@d.e" "rule" empty_office).1

abbrev hop_row : EmailMessage
hop_row = or_else (find_message empty_office.next_id after_hop) letter

abbrev hop_arrived : EmailMessage
hop_arrived = record letter { raw_headers = sent_headers hop_row }

hop-Forwards : Forwards services letter hop_row
unfolding forward_message create_outbound_message insert_message update_thread_for_message
    record_contacts insert_attempt stage_attachments copy_attachments lower current_forward_depth
    forwarded starts_with record_contact prefix copy_each copy_one
hop-Forwards = record {
  now = 1;
  to_email = "c@d.e";
  reason = "rule";
  before = empty_office;
  key = empty_office.next_id;
  free = refl;
  made = refl;
}

hops_bounded_example : 1 + min 3 (current_forward_depth letter) ≤ 3
hops_bounded_example =
    hops_bounded services letter hop_arrived 1
      (Relayed.hop letter hop_row hop_arrived 0 Relayed.start hop-Forwards refl)

claim_excludes_example :
    claim 5 webhook_settings 40 (claim 1 webhook_settings 40 office).1
    ≡ (ok false, (claim 1 webhook_settings 40 office).1)
unfolding claim
claim_excludes_example = claim_excludes 1 5 webhook_settings 40 office (refl, tt) (omega arith) refl

abbrev note : Composed
note = record {
  created_by = none;
  sender_identity = none;
  to_addresses = [];
  cc_addresses = [];
  bcc_addresses = [];
  subject = "n";
  body_text = "";
  body_html = "";
  reply_to = "";
  metadata = Json.null;
  scheduled_at = none;
  attachments = [];
  thread = none;
  in_reply_to = "";
  references = "";
  raw_headers = [];
}

abbrev first_draft : Result EmailMessage × Db
first_draft = create_draft_message 1 ann note empty_office

create_draft_message-second_example :
    create_draft_message 2 ann note first_draft.1 ≡ (err Exc.integrity_error, first_draft.1)
unfolding create_draft_message insert_message stage_attachments
create_draft_message-second_example =
    create_draft_message-second 1 2 ann note note (value_or letter first_draft.0) empty_office refl

promote_draft_to_send-second_example :
    promote_draft_to_send 1 services letter office ≡ (err Exc.integrity_error, office)
promote_draft_to_send-second_example =
    promote_draft_to_send-second 1 services letter ann domain office refl refl refl

reconcile_settles_example :
    ((reconcile_mailbox_used_bytes_task office).1.messages ≡ office.messages)
    × (all
          (is_in_sync (reconcile_mailbox_used_bytes_task office).1.messages)
          (reconcile_mailbox_used_bytes_task office).1.mailboxes
        ≡ true)
    × (reconcile_mailbox_used_bytes_task (reconcile_mailbox_used_bytes_task office).1
        ≡ (ok 0, (reconcile_mailbox_used_bytes_task office).1))
reconcile_settles_example = reconcile_settles office

abbrev clerk : User
clerk = record { id = 5; is_staff = false; is_superuser = false }

expiry_is_invisible_example :
    (for_api_user 4 (some clerk) (expire_user_mailbox_access_task 4 office).1
      ≡ for_api_user 4 (some clerk) office)
    × (writable_for_user 4 (some clerk) (expire_user_mailbox_access_task 4 office).1
        ≡ writable_for_user 4 (some clerk) office)
expiry_is_invisible_example = expiry_is_invisible 4 (some clerk) office
