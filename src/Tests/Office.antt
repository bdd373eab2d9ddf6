-- ===== src/Tests/Office.antt =====
-- The rows of the office that the witnesses start from.
use hedwig.Prelude.Json.{Json, end}
use hedwig.Prelude.{[], false, none, some, true, ◌∷◌}
use hedwig.Enums.{
  AccessType, DirectionType, DomainStatus, EmailStatus, EventType, Folder, MailboxPermissionType,
  ProviderType, ProviderWebhookStatus, SendAttemptStatus,
}
use hedwig.Exec.{ok}
use hedwig.Normalized.{
  NormalizedDeliveryEvent, NormalizedInboundMessage, ParsedWebhookEvent, ProviderImpl,
}
use hedwig.Services.{Response, Services}
use hedwig.Tables.{
  Address, Db, Domain, EmailAttachment, EmailMessage, EmailProvider, Mailbox, OutboundSendAttempt,
  ProviderWebhookLog, UserMailboxAccess,
}
use hedwig.Webhooks.{WebhookSettings}

abbrev pub provider : EmailProvider
provider = record {
  id = 1;
  provider_type = ProviderType.postmark;
  server_token = "token";
  account_token = "account";
  webhook_signing_secret = "";
  max_send_per_day = 2;
  last_health_check_at = none;
  last_health_check_error = "";
  is_active = true;
}

abbrev pub domain : Domain
domain = record {
  id = 1;
  name = "a.b";
  provider = 1;
  status = DomainStatus.verified;
  provider_domain_id = "";
  outbound_enabled = true;
  inbound_enabled = true;
  webhook_secret = "";
  max_send_per_day = 0;
  is_active = true;
  verified_at = none;
  dns_checked_at = none;
  last_error = "";
}

abbrev pub ann : Mailbox
ann = record {
  id = 1;
  domain = 1;
  local_part = "ann";
  display_name = "Ann";
  is_catch_all = false;
  forward_to = "";
  send_enabled = true;
  receive_enabled = true;
  quota_bytes = 100;
  used_bytes = 90;
  is_active = true;
}

abbrev pub bob_address : Address
bob_address = record { email = "bob@x.y"; name = "" }

abbrev pub letter : EmailMessage
letter = record {
  id = 10;
  mailbox = 1;
  thread = none;
  sender_identity = none;
  created_by = none;
  direction = DirectionType.outbound;
  status = EmailStatus.queued;
  folder = Folder.sent;
  rfc_message_id = some "<1@a.b>";
  from_address = "ann@a.b";
  from_name = "Ann";
  envelope_sender = "";
  envelope_recipient = "";
  to_addresses = bob_address ∷ [];
  cc_addresses = [];
  bcc_addresses = [];
  reply_to = "";
  subject = "hi";
  in_reply_to = "";
  references = "";
  body_text = "x";
  body_html = "";
  snippet = "x";
  raw_headers = [];
  provider = some 1;
  provider_message_id = some "p1";
  is_read = true;
  is_starred = false;
  has_attachments = true;
  size_bytes = 1;
  spam_score = none;
  metadata = Json.null;
  scheduled_at = none;
  sent_at = none;
  received_at = none;
}

abbrev pub draft : EmailMessage
draft = record letter {
  id = 11;
  status = EmailStatus.draft;
  rfc_message_id = some "";
  provider_message_id = none;
}

abbrev pub attempt : OutboundSendAttempt
attempt = record {
  id = 20;
  message = 10;
  provider = 1;
  attempt_number = 1;
  status = SendAttemptStatus.pending;
  provider_message_id = "";
  idempotency_key = "k";
  error_code = "";
  error_message = "";
  started_at = none;
  finished_at = none;
}

abbrev pub attachment : EmailAttachment
attachment = record {
  id = 30;
  message = 10;
  filename = "f";
  content_type = "";
  size_bytes = 1;
  file = "";
  storage_key = "";
  checksum_sha256 = "";
  content_id = "";
  content_disposition = "";
  is_inline = false;
  pending_content_b64 = "eA==";
}

abbrev pub log : ProviderWebhookLog
log = record {
  id = 40;
  provider = some 1;
  domain = some 1;
  provider_event_id = "";
  event_type = "";
  headers = Json.obj end;
  payload = Json.obj end;
  status = ProviderWebhookStatus.pending;
  signature_valid = none;
  error_message = "";
  attempt_count = 0;
  received_at = 0;
  locked_at = none;
  processed_at = none;
}

abbrev pub grant : UserMailboxAccess
grant = record {
  user = 5;
  access_type = AccessType.mailbox;
  mailbox = some 1;
  domain = none;
  permission = MailboxPermissionType.read_write;
  expires_at = some 3;
  is_active = true;
}

abbrev pub office : Db
office = record {
  next_id = 100;
  providers = provider ∷ [];
  domains = domain ∷ [];
  dns_records = [];
  send_logs = [];
  webhook_logs = log ∷ [];
  events = [];
  mailboxes = ann ∷ [];
  aliases = [];
  identities = [];
  accesses = grant ∷ [];
  labels = [];
  message_labels = [];
  rules = [];
  suppressed = [];
  contacts = [];
  threads = [];
  messages = letter ∷ draft ∷ [];
  recipients = [];
  user_states = [];
  attempts = attempt ∷ [];
  attachments = attachment ∷ [];
  queue = [];
}

-- Uploads fail here, and Postmark accepts everything.
abbrev pub services : Services
services = record {
  upload_file = λ owner name content. "";
  extract_file_key = λ url. url;
  sha256 = λ content. "";
  uuid_text = λ i. "u";
  post_email = λ m a. Response.answered 200 0 "" "p2";
}

abbrev pub bounce : NormalizedDeliveryEvent
bounce = record {
  event_type = EventType.bounced;
  provider_message_id = "p1";
  provider_event_id = "e1";
  recipient = "bob@x.y";
  reason = "";
  link_url = "";
  occurred_at = none;
  metadata = Json.null;
}

abbrev pub mail : NormalizedInboundMessage
mail = record {
  from_address = "bob@x.y";
  from_name = "";
  to = [];
  cc = [];
  bcc = [];
  envelope_sender = "";
  envelope_recipient = "ann@a.b";
  reply_to = "";
  subject = "s";
  body_text = "";
  body_html = "";
  rfc_message_id = some "<2@x.y>";
  in_reply_to = "";
  references = "";
  raw_headers = [];
  attachments = [];
  provider_message_id = "q1";
  received_at = none;
  size_bytes = 5;
  spam_score = none;
  metadata = Json.null;
}

-- Every webhook carries that mail.
abbrev pub impl : ProviderImpl
impl = record {
  resolve_domain = λ payload s. some 1;
  parse_webhook = λ payload. ok (ParsedWebhookEvent.inbound mail);
}

abbrev pub webhook_settings : WebhookSettings
webhook_settings = record {
  stale_seconds = 10;
  max_attempts = 3;
  payload_retention = 100;
  send_log_retention_days = 9;
}
