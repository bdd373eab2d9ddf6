-- ===== src/Outbound/Rows.antt =====
-- hedwig/manager.py: `_stage_attachments`, `ContactManager.record_contact` and the creation of
-- message, recipient and attempt rows, with the unique constraints of hedwig/models.py.
use hedwig.Prelude.Text.{strip, lower, truthy}
use hedwig.Prelude.Base64.{decoded_size}
use hedwig.Prelude.{
  Bool, List, String, [], any, false, if◌then◌else◌, is_some, map, nat_eq, none, not, option_eq,
  or_else, some, string_eq, true, update_where, ℕ, ◌&&◌, ◌++◌, ◌+◌, ◌==◌, ◌||◌, ◌∷◌,
}
use hedwig.Enums.{EmailStatus, RecipientType, email_status_eq, recipient_type_eq}
use hedwig.Exec.{Exc, Exec, err, modify, ok, pure, ◌>>=◌, ◌>>◌}
use hedwig.Ingest.Threads.{fresh}
use hedwig.Sending.Attempts.{update_message}
use hedwig.Tables.{
  Address, Contact, EmailAttachment, EmailMessage, EmailRecipient, OutboundSendAttempt,
}

-- Rows that may not stand beside `m`: `unique_rfc_message_per_mailbox`, whose condition exempts
-- NULL but not the empty text, and `unique_provider_message_id`.
abbrev pub same_rfc_id : EmailMessage → EmailMessage → Bool
same_rfc_id m x =
    x.mailbox == m.mailbox && is_some m.rfc_message_id && x.rfc_message_id == m.rfc_message_id

abbrev pub same_provider_id : EmailMessage → EmailMessage → Bool
same_provider_id m x =
    is_some m.provider
    && x.provider == m.provider
    && truthy (or_else m.provider_message_id "")
    && x.provider_message_id == m.provider_message_id

abbrev pub clashes : EmailMessage → EmailMessage → Bool
clashes m x = same_rfc_id m x || same_provider_id m x

-- `EmailMessage.objects.create`
unfoldable pub insert_message : EmailMessage → Exec (Unit {0})
insert_message m s =
    if any (clashes m) s.messages
    then (err Exc.integrity_error, s)
    else (ok tt, record s { messages = m ∷ s.messages })

-- `unique_send_attempt_number` and `unique_provider_send_idempotency_key`
abbrev pub attempt_clashes : OutboundSendAttempt → OutboundSendAttempt → Bool
attempt_clashes a x =
    (x.message == a.message && x.attempt_number == a.attempt_number)
    || (truthy a.idempotency_key
        && x.provider == a.provider
        && x.idempotency_key == a.idempotency_key)

-- `OutboundSendAttempt.objects.create`
unfoldable pub insert_attempt : OutboundSendAttempt → Exec (Unit {0})
insert_attempt a s =
    if any (attempt_clashes a) s.attempts
    then (err Exc.integrity_error, s)
    else (ok tt, record s { attempts = a ∷ s.attempts })

abbrev new_recipient : ℕ → RecipientType → Address → EmailRecipient
new_recipient message kind r = record {
  message = message;
  recipient_type = kind;
  email = r.email;
  name = r.name;
  delivered_to_mailbox = none;
  status = EmailStatus.queued;
}

abbrev pub recipient_rows : EmailMessage → List EmailRecipient
recipient_rows m =
    map (new_recipient m.id RecipientType.to) m.to_addresses
    ++ map (new_recipient m.id RecipientType.cc) m.cc_addresses
    ++ map (new_recipient m.id RecipientType.bcc) m.bcc_addresses

-- The loop of `bulk_create` over the three address lists.
abbrev pub create_recipients : EmailMessage → Exec (Unit {0})
create_recipients m = modify (λ s. record s { recipients = recipient_rows m ++ s.recipients })

abbrev pub is_contact : ℕ → String → Contact → Bool
is_contact mailbox email c = c.mailbox == mailbox && c.email == email

abbrev pub contacted : ℕ → String → Contact → Contact
contacted now name c = record c {
  times_contacted = c.times_contacted + 1;
  last_contacted_at = some now;
  name = if truthy name && not (truthy c.name) then name else c.name;
}

abbrev pub new_contact : ℕ → ℕ → String → String → Contact
new_contact now mailbox email name = record {
  mailbox = mailbox;
  email = email;
  name = name;
  times_contacted = 1;
  last_contacted_at = some now;
}

unfoldable pub record_contact : ℕ → ℕ → Address → Exec (Unit {0})
record_contact now mailbox r s =
    let email = lower (strip r.email) in
    if not (truthy email)
    then (ok tt, s)
    else if any (is_contact mailbox email) s.contacts
    then (
      ok tt,
      record s {
        contacts = update_where (is_contact mailbox email) (contacted now r.name) s.contacts;
      },
    )
    else (ok tt, record s { contacts = new_contact now mailbox email r.name ∷ s.contacts })

unfoldable pub record_contacts : ℕ → ℕ → List Address → Exec (Unit {0})
record_contacts now mailbox [] = pure tt
record_contacts now mailbox (r ∷ rs) =
    record_contact now mailbox r >> record_contacts now mailbox rs

-- An item of the `attachments` argument; an absent text is empty.
pub record NewAttachment : Type 0 where
  pub filename : String
  pub content_type : String
  pub content : String
  pub content_id : String

abbrev or_text : String → String → String
or_text a b = if truthy a then a else b

abbrev pub staged_size : NewAttachment → ℕ
staged_size a = if truthy a.content then or_else (decoded_size false a.content) 0 else 0

abbrev staged : ℕ → ℕ → NewAttachment → EmailAttachment
staged message i a = record {
  id = i;
  message = message;
  filename = or_text a.filename "attachment";
  content_type = or_text a.content_type "application/octet-stream";
  size_bytes = staged_size a;
  file = "";
  storage_key = "";
  checksum_sha256 = "";
  content_id = a.content_id;
  content_disposition = "";
  is_inline = truthy a.content_id;
  pending_content_b64 = a.content;
}

-- One round of the loop over the attachments, with the size that it adds.
unfoldable pub stage_one : ℕ → NewAttachment → Exec ℕ
stage_one message a = do
  i ← fresh
  modify (λ s. record s { attachments = staged message i a ∷ s.attachments })
  pure (staged_size a)

unfoldable pub stage_each : ℕ → List NewAttachment → Exec ℕ
stage_each message [] = pure 0
stage_each message (a ∷ more) = do
  size ← stage_one message a
  rest ← stage_each message more
  pure (size + rest)

-- `has_attachments` and `size_bytes` are added to what the row of `m`, as the caller holds it, has.
unfoldable pub stage_attachments : EmailMessage → List NewAttachment → Exec (Unit {0})
stage_attachments m [] = pure tt
stage_attachments m (a ∷ more) = do
  size ← stage_each m.id (a ∷ more)
  update_message m.id (λ r. record r { has_attachments = true; size_bytes = m.size_bytes + size })
