-- ===== src/Ingest/Inbound.antt =====
-- `estimate_inbound_message_size` and `create_inbound_message` of providers/ingest.py.
pub mod Quota
pub mod Again
use hedwig.Prelude.Text.{strip, truthy, newlines_to_spaces, prefix}
use hedwig.Prelude.Sort.{join}
use hedwig.Prelude.Decimal.{print}
use Prim.Native.Char.{code}
use hedwig.Prelude.{
  Bool, List, Option, String, [], append, false, first?, if◌then◌else◌, leb, ltb, map, nat_eq, none,
  option_eq, or_else, select, some, string_eq, sum_by, true, update_where, ℕ, ◌&&◌, ◌++◌, ◌+◌, ◌==◌,
  ◌∷◌,
}
use hedwig.Attachments.{Stored, store_attachment_content}
use hedwig.Enums.{
  DirectionType, EmailStatus, Folder, RecipientType, direction_type_eq, email_status_eq, folder_eq,
  recipient_type_eq,
}
use hedwig.Exec.{Exc, Exec, atomic, get_or_raise, gets, modify, pure, raise, ◌>>=◌, ◌>>◌}
use hedwig.Ingest.Threads.{fresh, update_thread_for_message}
use hedwig.Normalized.{NormalizedAttachment, NormalizedInboundMessage}
use hedwig.Outbound.Rows.{insert_message}
use hedwig.Rules.{evaluate_rules}
use hedwig.Rules.Forwarding.{forward_message}
use hedwig.Sending.Attempts.{update_message}
use hedwig.Sending.Dispatch.{find_mailbox}
use hedwig.Services.{Services}
use hedwig.Tables.{Address, EmailAttachment, EmailMessage, EmailRecipient, Mailbox, Score}

-- The bytes of one character in UTF-8.
abbrev utf8_width : ℕ → ℕ
utf8_width n = if ltb n 128 then 1 else if ltb n 2048 then 2 else if ltb n 65536 then 3 else 4

-- `len(s.encode("utf-8"))`
unfoldable pub utf8_length : String → ℕ
utf8_length String.[] = 0
utf8_length (String.◌∷◌ c s) = utf8_width (code c) + utf8_length s

abbrev emails : List Address → List String
emails = map (λ r. r.email)

abbrev size_parts : NormalizedInboundMessage → List String
size_parts n =
    (n.from_address
      ∷ n.from_name
      ∷ n.envelope_sender
      ∷ n.envelope_recipient
      ∷ n.reply_to
      ∷ n.subject
      ∷ n.body_text
      ∷ n.body_html
      ∷ or_else n.rfc_message_id ""
      ∷ n.in_reply_to
      ∷ n.references
      ∷ [])
    ++ emails n.to
    ++ emails n.cc
    ++ emails n.bcc
    ++ map (λ h. append h.0 (append ": " h.1)) n.raw_headers

unfoldable pub estimate_inbound_message_size : NormalizedInboundMessage → ℕ
unfolding utf8_length
estimate_inbound_message_size n = utf8_length (join "\n" (select truthy (size_parts n)))

-- The parameters that the calls of one ingestion share, `None` texts as absent options.
abbrev pub is_inbound_copy : ℕ → ℕ → NormalizedInboundMessage → EmailMessage → Bool
is_inbound_copy provider mailbox n m =
    if truthy n.provider_message_id
    then m.provider == some provider
      && m.provider_message_id == some n.provider_message_id
      && m.direction == DirectionType.inbound
    else (truthy (or_else n.rfc_message_id "")
        && m.mailbox == mailbox
        && m.rfc_message_id == n.rfc_message_id
        && m.direction == DirectionType.inbound)

abbrev is_spam : Option Score → Bool
is_spam none = false
is_spam (some (Score.thousandths n)) = leb 5000 n
is_spam (some (Score.below_zero n)) = false

unfoldable pub folder_for : Option Score → Folder
folder_for score = if is_spam score then Folder.spam else Folder.inbox

unfoldable pub stored_message_size : NormalizedInboundMessage → ℕ
unfolding estimate_inbound_message_size
stored_message_size n = if ltb 0 n.size_bytes then n.size_bytes else estimate_inbound_message_size n

unfoldable pub incoming_size : NormalizedInboundMessage → ℕ
unfolding stored_message_size
incoming_size n = stored_message_size n + sum_by (λ a. a.declared_size) n.attachments

abbrev or_text : String → String → String
or_text a b = if truthy a then a else b

-- A `provider_message_id` that the provider did not send is the empty text here and in the row.
unfoldable pub inbound_row : ℕ → ℕ → String → NormalizedInboundMessage → ℕ → EmailMessage
unfolding stored_message_size folder_for
inbound_row provider mailbox recipient n i = record {
  id = i;
  mailbox = mailbox;
  thread = none;
  sender_identity = none;
  created_by = none;
  direction = DirectionType.inbound;
  status = EmailStatus.received;
  folder = folder_for n.spam_score;
  rfc_message_id = n.rfc_message_id;
  from_address = n.from_address;
  from_name = n.from_name;
  envelope_sender = n.envelope_sender;
  envelope_recipient = or_text recipient n.envelope_recipient;
  to_addresses = n.to;
  cc_addresses = n.cc;
  bcc_addresses = n.bcc;
  reply_to = n.reply_to;
  subject = n.subject;
  in_reply_to = n.in_reply_to;
  references = n.references;
  body_text = n.body_text;
  body_html = n.body_html;
  snippet = prefix 500 (newlines_to_spaces (strip n.body_text));
  raw_headers = n.raw_headers;
  provider = some provider;
  provider_message_id = some n.provider_message_id;
  is_read = false;
  is_starred = false;
  has_attachments = false;
  size_bytes = stored_message_size n;
  spam_score = n.spam_score;
  metadata = n.metadata;
  scheduled_at = none;
  sent_at = none;
  received_at = n.received_at;
}

abbrev inbound_recipient : ℕ → ℕ → String → RecipientType → Address → EmailRecipient
inbound_recipient message mailbox recipient kind r = record {
  message = message;
  recipient_type = kind;
  email = r.email;
  name = r.name;
  delivered_to_mailbox = if r.email == recipient then some mailbox else none;
  status = EmailStatus.queued;
}

abbrev inbound_recipients : ℕ → ℕ → String → NormalizedInboundMessage → List EmailRecipient
inbound_recipients message mailbox recipient n =
    map (inbound_recipient message mailbox recipient RecipientType.to) n.to
    ++ map (inbound_recipient message mailbox recipient RecipientType.cc) n.cc
    ++ map (inbound_recipient message mailbox recipient RecipientType.bcc) n.bcc

abbrev size_or : ℕ → ℕ → ℕ
size_or stored declared = if ltb 0 stored then stored else declared

abbrev stored_attachment : ℕ → ℕ → Stored → NormalizedAttachment → EmailAttachment
stored_attachment message i stored a = record {
  id = i;
  message = message;
  filename = a.filename;
  content_type = a.content_type;
  size_bytes = size_or stored.size_bytes a.declared_size;
  file = stored.file_url;
  storage_key = stored.storage_key;
  checksum_sha256 = stored.checksum;
  content_id = a.content_id;
  content_disposition = if a.is_inline then "inline" else "attachment";
  is_inline = a.is_inline;
  pending_content_b64 = "";
}

-- One round of the loop over the attachments, with the size that it adds.
unfoldable pub store_one : Services → ℕ → ℕ → NormalizedAttachment → Exec ℕ
store_one services mailbox message a = do
  let stored = store_attachment_content services mailbox a.filename a.content_b64
  i ← fresh
  modify (λ s. record s { attachments = stored_attachment message i stored a ∷ s.attachments })
  pure (size_or stored.size_bytes a.declared_size)

unfoldable pub store_each : Services → ℕ → ℕ → List NormalizedAttachment → Exec ℕ
store_each services mailbox message [] = pure 0
store_each services mailbox message (a ∷ more) = do
  size ← store_one services mailbox message a
  rest ← store_each services mailbox message more
  pure (size + rest)

abbrev is_empty : List NormalizedAttachment → Bool
is_empty [] = true
is_empty (a ∷ more) = false

abbrev pub add_used : ℕ → ℕ → Exec (Unit {0})
add_used mailbox size = modify (λ s. record s {
  mailboxes =
      update_where (λ b. b.id == mailbox) (λ b. record b { used_bytes = b.used_bytes + size })
        s.mailboxes;
})

abbrev pub over_quota : Mailbox → ℕ → Bool
over_quota locked size =
    ltb 0 locked.quota_bytes && ltb locked.quota_bytes (locked.used_bytes + size)

abbrev pub quota_message : Services → Mailbox → ℕ → String
quota_message services locked size = append "Mailbox " (
    append (services.uuid_text locked.id) (
      append " quota exceeded (" (
        append (print (locked.used_bytes + size))
          (append "/" (append (print locked.quota_bytes) " bytes).")))))

abbrev pub with_attachments : ℕ → NormalizedInboundMessage → EmailMessage → EmailMessage
with_attachments total n m =
    if is_empty n.attachments then m else record m { has_attachments = true; size_bytes = total }

abbrev pub forward_all : ℕ → Services → EmailMessage → String → Exec (Unit {0})
forward_all now services m to_email =
    if truthy to_email
    then forward_message now services m to_email "mailbox_forward_to"
    else pure tt

-- What follows the creation of the row `m`.
unfoldable pub complete :
    ℕ → Services → Mailbox → String → NormalizedInboundMessage → EmailMessage → Exec EmailMessage
complete now services mailbox recipient n m = do
  modify (λ s. record s {
    recipients = inbound_recipients m.id mailbox.id recipient n ++ s.recipients;
  })
  stored ← store_each services mailbox.id m.id n.attachments
  let total = stored_message_size n + stored
  update_message m.id (with_attachments total n)
  add_used mailbox.id total
  update_thread_for_message now mailbox.id (with_attachments total n m)
  ruled ← evaluate_rules now services mailbox.id (with_attachments total n m)
  forward_all now services ruled mailbox.forward_to
  pure ruled

-- The block behind the quota check. `mailbox` is the row that the caller resolved.
unfoldable pub admit :
    ℕ → Services → ℕ → Mailbox → String → NormalizedInboundMessage → Exec EmailMessage
admit now services provider mailbox recipient n = do
  i ← fresh
  insert_message (inbound_row provider mailbox.id recipient n i)
  complete now services mailbox recipient n (inbound_row provider mailbox.id recipient n i)

unfoldable pub check_quota : Services → Mailbox → ℕ → Exec (Unit {0})
unfolding print
check_quota services locked size =
    if over_quota locked size
    then raise (Exc.quota_exceeded (quota_message services locked size))
    else pure tt

-- What `with transaction.atomic()` holds.
abbrev pub create_new :
    ℕ → Services → ℕ → Mailbox → String → NormalizedInboundMessage → Exec (EmailMessage × Bool)
create_new now services provider mailbox recipient n = do
  row ← gets (find_mailbox mailbox.id)
  locked ← get_or_raise row
  check_quota services locked (incoming_size n)
  m ← admit now services provider mailbox recipient n
  pure (m, true)

abbrev pub existing_or :
    Option EmailMessage → Exec (EmailMessage × Bool) → Exec (EmailMessage × Bool)
existing_or none k = k
existing_or (some m) k = pure (m, false)

-- The message, and whether it is new.
unfoldable pub create_inbound_message :
    ℕ → Services → ℕ → Mailbox → String → NormalizedInboundMessage → Exec (EmailMessage × Bool)
create_inbound_message now services provider mailbox recipient n = do
  existing ← gets (λ s. first? (is_inbound_copy provider mailbox.id n) s.messages)
  existing_or existing (atomic (create_new now services provider mailbox recipient n))
