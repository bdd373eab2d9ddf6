-- ===== src/Sending/Dispatch.antt =====
-- providers/sending.py, `send_message` of providers/postmark.py from the reply on, and
-- `send_email_message_task` of hedwig/tasks.py. The request payload is not modelled.
pub mod Branches
pub mod Slots
pub mod Redelivery
use hedwig.Prelude.Text.{truthy}
use hedwig.Prelude.Decimal.{print}
use hedwig.Prelude.Sort.{sorted_set, join}
use hedwig.Prelude.{
  Bool, List, Option, String, [], append, false, first?, if◌then◌else◌, leb, ltb, nat_eq, none, not,
  option_eq, or_else, select, some, string_eq, true, update_where, ℕ, ◌&&◌, ◌++◌, ◌+◌, ◌==◌, ◌||◌,
  ◌∷◌,
}
use hedwig.Attachments.{Stored, store_attachment_content}
use hedwig.Enums.{EmailStatus, ProviderType, SendAttemptStatus, provider_type_eq}
use hedwig.Exec.{Exc, Exec, get_or_raise, gets, modify, pure, raise, try_except, ◌>>=◌, ◌>>◌}
use hedwig.Sending.Attempts.{
  failed_attempt, failed_message, find_message, mark_attempt_failed, mark_send_failed,
  reserve_attempt_for_sending, started_attempt, update_attempt, update_message,
}
use hedwig.Sending.DailyLog.{
  get_daily_send_limit, record_send_failure, release_send_slot, reserve_send_slot,
}
use hedwig.Sending.Suppression.{recheck_suppressed_recipients}
use hedwig.Services.{Response, Services}
use hedwig.Tables.{
  Db, Domain, EmailAttachment, EmailMessage, EmailProvider, Mailbox, OutboundSendAttempt, Task,
}

abbrev pub is_attachment : ℕ → EmailAttachment → Bool
is_attachment i a = a.id == i

abbrev pub attachments_of : ℕ → Db → List EmailAttachment
attachments_of i s = select (λ a. a.message == i) s.attachments

abbrev uploaded : Stored → EmailAttachment → EmailAttachment
uploaded stored a = record a {
  file = stored.file_url;
  storage_key = stored.storage_key;
  checksum_sha256 = stored.checksum;
  size_bytes = stored.size_bytes;
  pending_content_b64 = "";
}

abbrev pub not_stored_error : String → String
not_stored_error filename =
    append "Could not store attachment '" (append filename "' before sending.")

-- One round of the loop: the size that it adds.
unfoldable pub materialize_one : Services → ℕ → EmailAttachment → Exec ℕ
materialize_one services mailbox a =
    if truthy a.pending_content_b64 && not (truthy a.file)
    then (let stored = store_attachment_content services mailbox a.filename a.pending_content_b64 in
        if not (truthy stored.file_url)
        then raise (Exc.transient_send_error (not_stored_error a.filename))
        else do
          modify (λ s. record s {
            attachments = update_where (is_attachment a.id) (uploaded stored) s.attachments;
          })
          pure stored.size_bytes)
    else pure a.size_bytes

unfoldable pub materialize_from : Services → ℕ → List EmailAttachment → Exec ℕ
materialize_from services mailbox [] = pure 0
materialize_from services mailbox (a ∷ more) = do
  size ← materialize_one services mailbox a
  rest ← materialize_from services mailbox more
  pure (size + rest)

abbrev pub save_size : ℕ → List EmailAttachment → ℕ → Exec (Unit {0})
save_size i [] total = pure tt
save_size i (a ∷ more) total = update_message i (λ m. record m { size_bytes = total })

unfoldable pub materialize_attachments : Services → EmailMessage → Exec (Unit {0})
materialize_attachments services m = do
  rows ← gets (attachments_of m.id)
  total ← materialize_from services m.mailbox rows
  save_size m.id rows total

abbrev error_code_of : ℕ → ℕ → String
error_code_of status code = print (if code == 0 then status else code)

-- What follows the reply of the provider.
unfoldable pub settle_reply : ℕ → EmailMessage → OutboundSendAttempt → Response → Exec (Unit {0})
settle_reply now m a (Response.request_failed error) = do
  mark_send_failed now m a "request_error" error
  raise (Exc.transient_send_error error)
settle_reply now m a (Response.not_json body) = do
  mark_send_failed now m a "invalid_response" body
  raise (Exc.transient_send_error "Postmark returned a non-JSON response.")
settle_reply now m a (Response.answered status code message message_id) =
    if leb 400 status || not (code == 0)
    then (do
      update_message m.id failed_message
      update_attempt a.id (failed_attempt now (error_code_of status code) message)
      raise (
          if leb 500 status
          then Exc.transient_send_error message
          else Exc.permanent_send_error message))
    else do
      update_message m.id (λ r. record r {
        status = EmailStatus.sent;
        provider_message_id = some message_id;
        sent_at = some now;
      })
      update_attempt a.id (λ r. record r {
        status = SendAttemptStatus.sent;
        provider_message_id = message_id;
        finished_at = some now;
      })

-- `PostmarkClient(provider).send_message(message, attempt)`
unfoldable pub send_message :
    ℕ → Services → EmailProvider → EmailMessage → OutboundSendAttempt → Exec (Unit {0})
send_message now services provider m a =
    if not (truthy provider.server_token)
    then raise (Exc.validation_error "Postmark provider is missing a server token.")
    else do
      update_attempt a.id (started_attempt now)
      settle_reply now m a (services.post_email m a)

-- `get_provider(…).send(message, attempt)` of providers/registry.py
unfoldable pub provider_send :
    ℕ → Services → EmailProvider → EmailMessage → OutboundSendAttempt → Exec (Unit {0})
provider_send now services provider m a =
    if provider.provider_type == ProviderType.postmark
    then send_message now services provider m a
    else raise (Exc.value_error "No provider implementation registered.")

abbrev pub find_mailbox : ℕ → Db → Option Mailbox
find_mailbox i s = first? (λ r. r.id == i) s.mailboxes

abbrev pub find_domain : ℕ → Db → Option Domain
find_domain i s = first? (λ r. r.id == i) s.domains

abbrev pub find_provider : ℕ → Db → Option EmailProvider
find_provider i s = first? (λ r. r.id == i) s.providers

-- The `try` block of `send_with_provider`.
unfoldable pub deliver :
    ℕ → Services → Domain → EmailMessage → OutboundSendAttempt → Exec (Unit {0})
deliver now services domain m a = do
  materialize_attachments services m
  found ← gets (find_provider (or_else m.provider domain.provider))
  provider ← get_or_raise found
  provider_send now services provider m a

-- Its two `except` clauses.
abbrev pub give_back : ℕ → ℕ → Exc → Exec (Unit {0})
give_back now domain (Exc.transient_send_error e) = do
  release_send_slot now domain
  raise (Exc.transient_send_error e)
give_back now domain (Exc.permanent_send_error e) = do
  release_send_slot now domain
  record_send_failure now domain
  raise (Exc.permanent_send_error e)
give_back now domain e = raise e

abbrev pub disabled : String
disabled = "Sending is disabled for this mailbox or domain."

abbrev pub limit_reached : String
limit_reached = "Daily send limit reached for this domain."

abbrev pub suppressed_error : List String → String
suppressed_error emails = append "Recipient(s) suppressed: " (join ", " (sorted_set emails))

abbrev is_empty : List String → Bool
is_empty [] = true
is_empty (e ∷ es) = false

unfoldable pub send_from :
    ℕ
    → Services
    → Mailbox
    → Domain
    → EmailProvider
    → EmailMessage
    → OutboundSendAttempt
    → Exec (Unit {0})
send_from now services mailbox domain provider m a =
    if not mailbox.send_enabled || not domain.outbound_enabled
    then (do
      mark_send_failed now m a "send_disabled" disabled
      raise (Exc.permanent_send_error disabled))
    else do
      suppressed ← gets (recheck_suppressed_recipients now mailbox m)
      if not (is_empty suppressed)
          then (do
            mark_send_failed now m a "recipient_suppressed" (suppressed_error suppressed)
            raise (Exc.permanent_send_error (suppressed_error suppressed)))
          else do
            granted ← reserve_send_slot now domain.id (get_daily_send_limit domain provider)
            if not granted
                then (do
                  record_send_failure now domain.id
                  mark_send_failed now m a "daily_limit_exceeded" limit_reached
                  raise (Exc.permanent_send_error limit_reached))
                else try_except (deliver now services domain m a) (give_back now domain.id)

unfoldable pub send_with_provider :
    ℕ → Services → EmailMessage → OutboundSendAttempt → Exec (Unit {0})
send_with_provider now services m a = do
  mailbox_row ← gets (find_mailbox m.mailbox)
  mailbox ← get_or_raise mailbox_row
  domain_row ← gets (find_domain mailbox.domain)
  domain ← get_or_raise domain_row
  provider_row ← gets (find_provider domain.provider)
  provider ← get_or_raise provider_row
  send_from now services mailbox domain provider m a

pub data SendOutcome : Type 0 where
  skipped sent failed retried : SendOutcome

abbrev pub max_retries : ℕ
max_retries = 3

-- `self.retry(exc=exc)` enqueues the same call, or raises `exc` when no retry is left.
abbrev pub handle_send_error : ℕ → ℕ → ℕ → ℕ → Exc → Exec SendOutcome
handle_send_error now retries m i (Exc.transient_send_error e) =
    if ltb retries max_retries
    then (do
      modify (λ s. record s { queue = s.queue ++ Task.send_email_message m i ∷ [] })
      pure SendOutcome.retried)
    else raise (Exc.transient_send_error e)
handle_send_error now retries m i (Exc.permanent_send_error e) = do
  mark_attempt_failed now i "validation_error" e
  pure SendOutcome.failed
handle_send_error now retries m i (Exc.validation_error e) = do
  mark_attempt_failed now i "validation_error" e
  pure SendOutcome.failed
handle_send_error now retries m i (Exc.value_error e) = do
  mark_attempt_failed now i "ValueError" e
  raise (Exc.value_error e)
handle_send_error now retries m i (Exc.quota_exceeded e) = do
  mark_attempt_failed now i "MailboxQuotaExceeded" e
  raise (Exc.quota_exceeded e)
handle_send_error now retries m i (Exc.permission_denied e) = do
  mark_attempt_failed now i "PermissionDenied" e
  raise (Exc.permission_denied e)
handle_send_error now retries m i (Exc.request_error e) = do
  mark_attempt_failed now i "RequestException" e
  raise (Exc.request_error e)
handle_send_error now retries m i (Exc.not_found e) = do
  mark_attempt_failed now i "NotFound" e
  raise (Exc.not_found e)
handle_send_error now retries m i Exc.integrity_error = do
  mark_attempt_failed now i "IntegrityError" ""
  raise Exc.integrity_error
handle_send_error now retries m i Exc.does_not_exist = do
  mark_attempt_failed now i "DoesNotExist" ""
  raise Exc.does_not_exist

abbrev pub send_reserved : ℕ → Services → Option OutboundSendAttempt → Exec SendOutcome
send_reserved now services none = pure SendOutcome.skipped
send_reserved now services (some a) = do
  message_row ← gets (find_message a.message)
  m ← get_or_raise message_row
  send_with_provider now services m a
  pure SendOutcome.sent

unfoldable pub send_email_message_task : ℕ → Services → ℕ → ℕ → ℕ → Exec SendOutcome
send_email_message_task now services retries m i =
    try_except (do attempt ← reserve_attempt_for_sending now i; send_reserved now services attempt)
      (handle_send_error now retries m i)
