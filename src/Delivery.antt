-- ===== src/Delivery.antt =====
-- `create_delivery_event` of providers/ingest.py.
pub mod Ranks
pub mod Repeats
pub mod Suppresses
use hedwig.Prelude.Text.{truthy, lower}
use hedwig.Prelude.{
  Bool, Option, String, any, false, first?, if◌then◌else◌, leb, ltb, nat_eq, none, not, option_eq,
  or_else, some, string_eq, true, update_where, ℕ, ◌&&◌, ◌==◌, ◌∷◌,
}
use hedwig.Enums.{
  DirectionType, EmailStatus, EventType, direction_type_eq, email_status_eq, event_type_eq,
}
use hedwig.Exec.{Exc, Exec, get_or_raise, gets, modify, pure, raise, ◌>>=◌, ◌>>◌}
use hedwig.Normalized.{NormalizedDeliveryEvent}
use hedwig.Sending.Attempts.{update_message}
use hedwig.Sending.Dispatch.{find_mailbox}
use hedwig.Tables.{DeliveryEvent, EmailMessage, EmailRecipient, SuppressedAddress}

-- DELIVERY_EVENT_STATUS_MAP
unfoldable pub delivery_event_status : EventType → Option EmailStatus
delivery_event_status EventType.delivered = some EmailStatus.delivered
delivery_event_status EventType.bounced = some EmailStatus.bounced
delivery_event_status EventType.opened = some EmailStatus.opened
delivery_event_status EventType.clicked = some EmailStatus.clicked
delivery_event_status EventType.complained = some EmailStatus.spam
delivery_event_status EventType.failed = some EmailStatus.failed
delivery_event_status _ = none

-- EMAIL_STATUS_RANK
unfoldable pub email_status_rank : EmailStatus → Option ℕ
email_status_rank EmailStatus.queued = some 0
email_status_rank EmailStatus.sending = some 1
email_status_rank EmailStatus.sent = some 2
email_status_rank EmailStatus.delivered = some 3
email_status_rank EmailStatus.opened = some 4
email_status_rank EmailStatus.clicked = some 5
email_status_rank EmailStatus.bounced = some 6
email_status_rank EmailStatus.spam = some 6
email_status_rank EmailStatus.failed = some 6
email_status_rank EmailStatus.cancelled = some 6
email_status_rank _ = none

-- EMAIL_STATUS_RANK.get(status, 0)
unfoldable pub rank_or_zero : EmailStatus → ℕ
unfolding email_status_rank
rank_or_zero status = or_else (email_status_rank status) 0

-- SUPPRESSION_REASONS, whose keys are SUPPRESSING_EVENT_TYPES
unfoldable pub suppression_reason : EventType → Option String
suppression_reason EventType.bounced = some "bounce"
suppression_reason EventType.complained = some "complaint"
suppression_reason EventType.unsubscribed = some "unsubscribe"
suppression_reason _ = none

abbrev pub is_target : NormalizedDeliveryEvent → EmailMessage → Bool
is_target n m =
    m.provider_message_id == some n.provider_message_id && m.direction == DirectionType.outbound

abbrev pub is_event : EmailMessage → NormalizedDeliveryEvent → DeliveryEvent → Bool
is_event m n e =
    e.message == m.id
    && e.event_type == n.event_type
    && e.recipient == n.recipient
    && e.provider_event_id == n.provider_event_id

abbrev pub new_event : ℕ → EmailMessage → NormalizedDeliveryEvent → ℕ → DeliveryEvent
new_event now m n raw = record {
  message = m.id;
  event_type = n.event_type;
  provider_event_id = n.provider_event_id;
  reason = n.reason;
  link_url = n.link_url;
  recipient = n.recipient;
  occurred_at = or_else n.occurred_at now;
  metadata = n.metadata;
  raw_webhook = raw;
}

abbrev pub add_event : DeliveryEvent → Exec (DeliveryEvent × Bool)
add_event e = do modify (λ s. record s { events = e ∷ s.events }); pure (e, true)

abbrev pub get_or_add : Option DeliveryEvent → DeliveryEvent → Exec (DeliveryEvent × Bool)
get_or_add (some old) e = pure (old, false)
get_or_add none e = add_event e

-- The event, and whether it is new. Without an id of the provider it is always new.
unfoldable pub record_event :
    ℕ → EmailMessage → NormalizedDeliveryEvent → ℕ → Exec (DeliveryEvent × Bool)
unfolding truthy
record_event now m n raw =
    if truthy n.provider_event_id
    then (do
      old ← gets (λ s. first? (is_event m n) s.events)
      get_or_add old (new_event now m n raw))
    else add_event (new_event now m n raw)

abbrev pub set_status : EmailStatus → EmailMessage → EmailMessage
set_status status m = record m { status = status }

-- A status moves only to a higher rank.
unfoldable pub advance_message : EmailMessage → Option EmailStatus → Exec (Unit {0})
unfolding rank_or_zero
advance_message m none = pure tt
advance_message m (some new) =
    if ltb (rank_or_zero m.status) (rank_or_zero new)
    then update_message m.id (set_status new)
    else pure tt

-- `rank >= new_rank` for a status that has a rank.
abbrev not_lower : ℕ → Option ℕ → Bool
not_lower new none = false
not_lower new (some rank) = leb new rank

abbrev pub advances : EmailMessage → String → EmailStatus → EmailRecipient → Bool
advances m email new r =
    r.message == m.id
    && r.email == email
    && not (not_lower (rank_or_zero new) (email_status_rank r.status))

unfoldable pub advance_recipients : EmailMessage → String → Option EmailStatus → Exec (Unit {0})
unfolding rank_or_zero truthy
advance_recipients m email none = pure tt
advance_recipients m email (some new) =
    if truthy email
    then modify (λ s. record s {
      recipients =
          update_where (advances m email new) (λ r. record r { status = new }) s.recipients;
    })
    else pure tt

abbrev pub is_suppressed_row : ℕ → String → SuppressedAddress → Bool
is_suppressed_row domain email r = r.domain == domain && r.mailbox == none && r.email == email

-- The constraint `unique_domain_suppressed_address` compares lower-cased addresses.
abbrev pub same_suppressed_row : ℕ → String → SuppressedAddress → Bool
same_suppressed_row domain email r =
    r.domain == domain && r.mailbox == none && lower r.email == lower email

abbrev pub new_suppressed : ℕ → String → String → ℕ → SuppressedAddress
new_suppressed domain email reason raw = record {
  domain = domain;
  mailbox = none;
  email = email;
  reason = reason;
  source = "webhook";
  raw_event = some raw;
  expires_at = none;
}

-- `get_or_create` of a suppression of the whole domain.
unfoldable pub suppress_address : ℕ → String → String → ℕ → Exec (Unit {0})
suppress_address domain email reason raw = do
  rows ← gets (λ s. s.suppressed)
  if any (is_suppressed_row domain email) rows
      then pure tt
      else if any (same_suppressed_row domain email) rows
      then raise Exc.integrity_error
      else modify
          (λ s. record s { suppressed = new_suppressed domain email reason raw ∷ s.suppressed })

abbrev pub domain_of_message : EmailMessage → Exec ℕ
domain_of_message m = do
  found ← gets (find_mailbox m.mailbox)
  mailbox ← get_or_raise found
  pure mailbox.domain

abbrev domain_or : Option ℕ → EmailMessage → Exec ℕ
domain_or (some d) m = pure d
domain_or none m = domain_of_message m

unfoldable pub suppress_recipient :
    Option ℕ → EmailMessage → String → ℕ → Option String → Exec (Unit {0})
unfolding truthy
suppress_recipient domain m email raw none = pure tt
suppress_recipient domain m email raw (some reason) =
    if truthy email
    then (do d ← domain_or domain m; suppress_address d email reason raw)
    else pure tt

unfoldable pub apply_event : Option ℕ → EmailMessage → NormalizedDeliveryEvent → ℕ → Exec (Unit {0})
apply_event domain m n raw = do
  advance_message m (delivery_event_status n.event_type)
  advance_recipients m n.recipient (delivery_event_status n.event_type)
  suppress_recipient domain m n.recipient raw (suppression_reason n.event_type)

abbrev pub event_for :
    ℕ → Option ℕ → NormalizedDeliveryEvent → ℕ → Option EmailMessage → Exec (Option DeliveryEvent)
event_for now domain n raw none = pure none
event_for now domain n raw (some m) = do
  recorded ← record_event now m n raw
  if not recorded.1
      then pure (some recorded.0)
      else do apply_event domain m n raw; pure (some recorded.0)

unfoldable pub create_delivery_event :
    ℕ → Option ℕ → NormalizedDeliveryEvent → ℕ → Exec (Option DeliveryEvent)
create_delivery_event now domain n raw = do
  found ← gets (λ s. first? (is_target n) s.messages)
  event_for now domain n raw found
