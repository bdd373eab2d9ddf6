-- ===== src/Outbound/Compose.antt =====
-- `create_outbound_message`, `create_draft_message` and `promote_draft_to_send` of
-- hedwig/manager.py.
use hedwig.Prelude.Text.{strip, truthy, newlines_to_spaces, prefix}
use hedwig.Prelude.Sort.{sorted_set}
use hedwig.Prelude.Json.{Json}
use hedwig.Prelude.{
  List, Option, String, [], append, false, if◌then◌else◌, map, none, or_else, select, some, true, ℕ,
  ◌++◌, ◌∷◌,
}
use hedwig.Enums.{DirectionType, EmailStatus, Folder, SendAttemptStatus}
use hedwig.Exec.{Exec, atomic, get_or_raise, gets, modify, pure, ◌>>=◌, ◌>>◌}
use hedwig.Ingest.Subjects.{normalize_subject}
use hedwig.Ingest.Threads.{fresh, update_thread_for_message}
use hedwig.Outbound.Rows.{
  NewAttachment, create_recipients, insert_attempt, insert_message, record_contacts,
  stage_attachments,
}
use hedwig.Sending.Attempts.{update_message}
use hedwig.Sending.Dispatch.{find_domain, find_mailbox}
use hedwig.Services.{Services}
use hedwig.Tables.{
  Address, Domain, EmailMessage, EmailThread, Mailbox, OutboundSendAttempt, SenderIdentity,
}

-- The keyword arguments that both constructors take.
pub record Composed : Type 0 where
  pub created_by : Option ℕ
  pub sender_identity : Option SenderIdentity
  pub to_addresses : List Address
  pub cc_addresses : List Address
  pub bcc_addresses : List Address
  pub subject : String
  pub body_text : String
  pub body_html : String
  pub reply_to : String
  pub metadata : Json
  pub scheduled_at : Option ℕ
  pub attachments : List NewAttachment
  pub thread : Option ℕ
  pub in_reply_to : String
  pub references : String
  pub raw_headers : List (String × String)

-- `Mailbox.email_address`
abbrev pub email_address : Mailbox → Domain → String
email_address mailbox domain = append mailbox.local_part (append "@" domain.name)

abbrev pub sender_email : Mailbox → Domain → Option SenderIdentity → String
sender_email mailbox domain none = email_address mailbox domain
sender_email mailbox domain (some i) = i.email

abbrev pub sender_name : Mailbox → Option SenderIdentity → String
sender_name mailbox none = mailbox.display_name
sender_name mailbox (some i) =
    if truthy i.display_name then i.display_name else mailbox.display_name

abbrev pub identity_id : Option SenderIdentity → Option ℕ
identity_id none = none
identity_id (some i) = some i.id

unfoldable pub snippet_of : String → String
snippet_of body = prefix 500 (newlines_to_spaces (strip body))

abbrev pub new_rfc_id : Services → ℕ → Domain → String
new_rfc_id services i domain =
    append "<" (append (services.uuid_text i) (append "@" (append domain.name ">")))

-- The row that both constructors make, but for its status, folder, thread and identifier.
abbrev pub outbound_row :
    Mailbox → Domain → Composed → EmailStatus → Folder → Option ℕ → String → ℕ → EmailMessage
outbound_row mailbox domain c status folder thread rfc i = record {
  id = i;
  mailbox = mailbox.id;
  thread = thread;
  sender_identity = identity_id c.sender_identity;
  created_by = c.created_by;
  direction = DirectionType.outbound;
  status = status;
  folder = folder;
  rfc_message_id = some rfc;
  from_address = sender_email mailbox domain c.sender_identity;
  from_name = sender_name mailbox c.sender_identity;
  envelope_sender = "";
  envelope_recipient = "";
  to_addresses = c.to_addresses;
  cc_addresses = c.cc_addresses;
  bcc_addresses = c.bcc_addresses;
  reply_to = c.reply_to;
  subject = c.subject;
  in_reply_to = c.in_reply_to;
  references = c.references;
  body_text = c.body_text;
  body_html = c.body_html;
  snippet = snippet_of c.body_text;
  raw_headers = c.raw_headers;
  provider = some domain.provider;
  provider_message_id = none;
  is_read = true;
  is_starred = false;
  has_attachments = false;
  size_bytes = 0;
  spam_score = none;
  metadata = c.metadata;
  scheduled_at = c.scheduled_at;
  sent_at = none;
  received_at = none;
}

abbrev pub first_attempt : Services → ℕ → ℕ → ℕ → OutboundSendAttempt
first_attempt services message provider i = record {
  id = i;
  message = message;
  provider = provider;
  attempt_number = 1;
  status = SendAttemptStatus.pending;
  provider_message_id = "";
  idempotency_key = prefix 16 (services.uuid_text i);
  error_code = "";
  error_message = "";
  started_at = none;
  finished_at = none;
}

abbrev pub domain_of_mailbox : Mailbox → Exec Domain
domain_of_mailbox mailbox = do found ← gets (find_domain mailbox.domain); get_or_raise found

abbrev pub all_addresses : EmailMessage → List Address
all_addresses m = m.to_addresses ++ m.cc_addresses ++ m.bcc_addresses

-- What both ways of sending end with: recipients, contacts, and the attempt.
abbrev pub create_attempt : Services → EmailMessage → ℕ → Exec OutboundSendAttempt
create_attempt services m provider = do
  i ← fresh
  insert_attempt (first_attempt services m.id provider i)
  pure (first_attempt services m.id provider i)

unfoldable pub create_outbound_message :
    ℕ → Services → Mailbox → Composed → Exec (EmailMessage × OutboundSendAttempt)
create_outbound_message now services mailbox c = do
  domain ← domain_of_mailbox mailbox
  atomic do
    i ← fresh
    let m =
        outbound_row mailbox domain c EmailStatus.queued Folder.sent c.thread
          (new_rfc_id services i domain) i
    insert_message m
    update_thread_for_message now mailbox.id m
    create_recipients m
    record_contacts now mailbox.id (all_addresses m)
    stage_attachments m c.attachments
    a ← create_attempt services m domain.provider
    pure (m, a)

abbrev draft_participants : Mailbox → Domain → Composed → List String
draft_participants mailbox domain c = sorted_set (
    sender_email mailbox domain c.sender_identity
    ∷ select truthy (map (λ r. r.email) (c.to_addresses ++ c.cc_addresses ++ c.bcc_addresses)))

abbrev pub draft_thread : ℕ → Mailbox → Domain → Composed → ℕ → EmailThread
draft_thread now mailbox domain c i = record {
  id = i;
  mailbox = mailbox.id;
  subject = c.subject;
  normalized_subject = normalize_subject c.subject;
  root_message_id = "";
  participants = draft_participants mailbox domain c;
  message_count = 1;
  has_unread = false;
  last_message_at = some now;
}

abbrev pub thread_or_create : ℕ → Mailbox → Domain → Composed → Option ℕ → Exec ℕ
thread_or_create now mailbox domain c (some t) = pure t
thread_or_create now mailbox domain c none = do
  i ← fresh
  modify (λ s. record s { threads = draft_thread now mailbox domain c i ∷ s.threads })
  pure i

abbrev unanswering : Composed → Composed
unanswering c = record c { in_reply_to = ""; references = ""; raw_headers = [] }

-- The row of a draft: its `rfc_message_id` is the empty text.
abbrev pub draft_row : Mailbox → Domain → Composed → ℕ → ℕ → EmailMessage
draft_row mailbox domain c thread i =
    outbound_row mailbox domain (unanswering c) EmailStatus.draft Folder.drafts (some thread) "" i

-- The block of `with transaction.atomic()`.
abbrev pub insert_draft : ℕ → Mailbox → Domain → Composed → Option ℕ → Exec EmailMessage
insert_draft now mailbox domain c thread = atomic do
  t ← thread_or_create now mailbox domain c thread
  i ← fresh
  insert_message (draft_row mailbox domain c t i)
  stage_attachments (draft_row mailbox domain c t i) c.attachments
  pure (draft_row mailbox domain c t i)

unfoldable pub create_draft_message : ℕ → Mailbox → Composed → Exec EmailMessage
create_draft_message now mailbox c = do
  domain ← domain_of_mailbox mailbox
  insert_draft now mailbox domain c c.thread

abbrev pub rfc_or_new : Services → Domain → EmailMessage → ℕ → String
rfc_or_new services domain m i =
    let rfc = or_else m.rfc_message_id "" in
    if truthy rfc then rfc else new_rfc_id services i domain

abbrev pub promoted : String → ℕ → EmailMessage → EmailMessage
promoted rfc provider m = record m {
  rfc_message_id = some rfc;
  status = EmailStatus.queued;
  folder = Folder.sent;
  is_read = true;
  provider = some provider;
}

-- `m` is the row that the caller loaded.
unfoldable pub promote_draft_to_send :
    ℕ → Services → EmailMessage → Exec (EmailMessage × OutboundSendAttempt)
promote_draft_to_send now services m = do
  mailbox_row ← gets (find_mailbox m.mailbox)
  mailbox ← get_or_raise mailbox_row
  domain ← domain_of_mailbox mailbox
  atomic do
    i ← fresh
    let rfc = rfc_or_new services domain m i
    update_message m.id (promoted rfc domain.provider)
    create_recipients m
    record_contacts now m.mailbox (all_addresses m)
    a ← create_attempt services m domain.provider
    pure (promoted rfc domain.provider m, a)
