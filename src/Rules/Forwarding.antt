-- ===== src/Rules/Forwarding.antt =====
-- hedwig/rules.py: `forward_message`, `_current_forward_depth` and `_copy_attachments`.
use hedwig.Prelude.Text.{lower, strip, truthy, starts_with}
use hedwig.Prelude.Json.{Json, field, end}
use hedwig.Tables.{SenderIdentity}
use hedwig.Outbound.Compose.{Composed}
use hedwig.Prelude.Decimal.{print, parse}
use hedwig.Prelude.{
  Bool, List, Option, String, [], append, first?, if◌then◌else◌, leb, nat_eq, none, option_eq,
  or_else, some, string_eq, true, ℕ, ◌&&◌, ◌++◌, ◌+◌, ◌==◌, ◌||◌, ◌∷◌,
}
use hedwig.Exec.{Exec, get_or_raise, gets, modify, pure, ◌>>=◌, ◌>>◌}
use hedwig.Ingest.Threads.{fresh}
use hedwig.Outbound.Compose.{create_outbound_message}
use hedwig.Sending.Attempts.{update_message}
use hedwig.Sending.Dispatch.{attachments_of, find_mailbox}
use hedwig.Services.{Services}
use hedwig.Tables.{EmailAttachment, EmailMessage, Task}

abbrev pub max_forward_depth : ℕ
max_forward_depth = 3

abbrev pub forward_depth_header : String
forward_depth_header = "X-Hedwig-Forward-Depth"

-- `headers.get(name)`
unfoldable pub header : String → List (String × String) → Option String
header name [] = none
header name (h ∷ hs) = if h.0 == name then some h.1 else header name hs

abbrev pub depth_of : Option String → ℕ
depth_of none = 0
depth_of (some raw) = or_else (parse raw) 0

unfoldable pub current_forward_depth : EmailMessage → ℕ
unfolding header
current_forward_depth m = depth_of (header forward_depth_header m.raw_headers)

abbrev copied : ℕ → ℕ → EmailAttachment → EmailAttachment
copied target i a = record a { id = i; message = target; pending_content_b64 = "" }

-- One round of the loop, with the size that it adds.
unfoldable pub copy_one : ℕ → EmailAttachment → Exec ℕ
copy_one target a = do
  i ← fresh
  modify (λ s. record s { attachments = copied target i a ∷ s.attachments })
  pure a.size_bytes

unfoldable pub copy_each : ℕ → List EmailAttachment → Exec ℕ
copy_each target [] = pure 0
copy_each target (a ∷ more) = do
  size ← copy_one target a
  rest ← copy_each target more
  pure (size + rest)

abbrev pub save_copied : EmailMessage → List EmailAttachment → Exec (Unit {0})
save_copied m [] = pure tt
save_copied m (a ∷ more) = do
  size ← copy_each m.id (a ∷ more)
  update_message m.id (λ r. record r { has_attachments = true; size_bytes = m.size_bytes + size })

unfoldable pub copy_attachments : ℕ → EmailMessage → Exec (Unit {0})
copy_attachments source target = do
  attachments ← gets (attachments_of source)
  save_copied target attachments

abbrev pub goes_back : EmailMessage → String → Bool
goes_back m to_email =
    truthy to_email && truthy m.from_address && lower to_email == lower m.from_address

abbrev pub forwarded_subject : String → String
forwarded_subject subject =
    if starts_with "fwd:" (lower subject) then subject else strip (append "Fwd: " subject)

abbrev forwarded_body : EmailMessage → String
forwarded_body m = append "---------- Forwarded message ----------\n" (
    append "From: " (
      append m.from_name (
        append " <" (
          append m.from_address
            (append ">\n" (append "Subject: " (append m.subject (append "\n\n" m.body_text))))))))

abbrev pub is_default_of : ℕ → SenderIdentity → Bool
is_default_of mailbox i = i.mailbox == mailbox && i.is_default && i.is_active

-- The arguments of `create_outbound_message`.
unfoldable pub forwarded :
    Services → EmailMessage → String → String → Option SenderIdentity → Composed
unfolding current_forward_depth print
forwarded services m to_email reason identity = record {
  created_by = none;
  sender_identity = identity;
  to_addresses = (record { email = to_email; name = "" }) ∷ [];
  cc_addresses = [];
  bcc_addresses = [];
  subject = forwarded_subject m.subject;
  body_text = forwarded_body m;
  body_html = m.body_html;
  reply_to = "";
  metadata = Json.obj (
      field "forwarded_from" (Json.text (services.uuid_text m.id))
        (field "forward_reason" (Json.text reason) end));
  scheduled_at = none;
  attachments = [];
  thread = none;
  in_reply_to = "";
  references = "";
  raw_headers = (forward_depth_header, print (current_forward_depth m + 1)) ∷ [];
}

-- What `transaction.on_commit` defers joins the queue here: an enclosing block that fails undoes
-- it.
abbrev pub enqueue : ℕ → ℕ → Exec (Unit {0})
enqueue message attempt =
    modify (λ s. record s { queue = s.queue ++ (Task.send_email_message message attempt ∷ []) })

unfoldable pub forward_message : ℕ → Services → EmailMessage → String → String → Exec (Unit {0})
forward_message now services m to_email reason =
    if goes_back m to_email || leb max_forward_depth (current_forward_depth m) then pure tt else do
      mailbox_row ← gets (find_mailbox m.mailbox)
      mailbox ← get_or_raise mailbox_row
      identity ← gets (λ s. first? (is_default_of mailbox.id) s.identities)
      made ←
          create_outbound_message now services mailbox
            (forwarded services m to_email reason identity)
      if m.has_attachments then copy_attachments m.id made.0 else pure tt
      enqueue made.0.id made.1.id
