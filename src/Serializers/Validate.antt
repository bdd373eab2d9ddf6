-- ===== src/Serializers/Validate.antt =====
-- `SendEmailSerializer` of hedwig/serializers.py: `validate` and `create`.
use hedwig.Prelude.Json.{Json, Fields, get}
use hedwig.Prelude.Text.{truthy as text_truthy}
use hedwig.Prelude.{
  Bool, List, Option, String, [], append, false, if◌then◌else◌, length, ltb, map, nat_eq, none, not,
  option_eq, or_else, select, some, string_eq, ℕ, ◌&&◌, ◌++◌, ◌==◌, ◌∷◌,
}
use hedwig.Access.{User}
use hedwig.Exec.{Result, ok}
use hedwig.Outbound.Compose.{Composed}
use hedwig.Outbound.Rows.{NewAttachment}
use hedwig.Postmark.Parse.{then_result}
use hedwig.Prelude.Decimal.{parse, print}
use hedwig.Prelude.Sort.{join, sorted_set}
use hedwig.Sending.Suppression.{suppressed_emails}
use hedwig.Serializers.{
  SendRequest, normalize_address_rows, recipient_rows, refuse_if, validate_attachments,
  validate_message_metadata, validate_scheduled_at,
}
use hedwig.Tables.{Address, Db, EmailMessage, EmailThread, Mailbox, SenderIdentity}

-- `int(configured)`, and the default where it raises.
abbrev limit_of : Json → ℕ
limit_of (Json.num n) = n
limit_of (Json.bool b) = if b then 1 else 0
limit_of (Json.text s) = or_else (parse s) 50
limit_of v = 50

abbrev unless_null : Json → Json → Json
unless_null Json.null v = v
unless_null w v = w

-- `_max_recipients`, from the capabilities of the provider.
unfoldable pub max_recipients : Json → ℕ
max_recipients capabilities = limit_of (
    unless_null (get "max_recipients_per_message" capabilities)
      (unless_null (get "max_recipients" capabilities) (Json.num 50)))

abbrev pub Recipients : Type 0
Recipients = List Address × List Address × List Address

-- The three lists of recipients.
unfoldable pub recipients_of : (String → Result String) → SendRequest → Result Recipients
unfolding normalize_address_rows
recipients_of email_field r = then_result (recipient_rows r.to r.to_addresses) (λ to_rows.
    then_result (normalize_address_rows email_field to_rows) (λ to.
      then_result (recipient_rows r.cc r.cc_addresses) (λ cc_rows.
        then_result (normalize_address_rows email_field cc_rows) (λ cc.
          then_result (recipient_rows r.bcc r.bcc_addresses) (λ bcc_rows.
            then_result (normalize_address_rows email_field bcc_rows) (λ bcc. ok (to, cc, bcc)))))))

abbrev pub all_of : Recipients → List Address
all_of (to, cc, bcc) = to ++ cc ++ bcc

abbrev pub foreign_identity : ℕ → Option SenderIdentity → Bool
foreign_identity mailbox none = false
foreign_identity mailbox (some i) = not (i.mailbox == mailbox)

abbrev pub foreign_thread : ℕ → Option (Option EmailThread) → Bool
foreign_thread mailbox (some (some t)) = not (t.mailbox == mailbox)
foreign_thread mailbox o = false

abbrev pub foreign_reply : ℕ → Option EmailMessage → Bool
foreign_reply mailbox none = false
foreign_reply mailbox (some m) = not (m.mailbox == mailbox)

abbrev key_of : Option EmailThread → Option ℕ
key_of none = none
key_of (some t) = some t.id

-- `setdefault("thread", …)`: an explicit null stays.
abbrev thread_for : Option (Option EmailThread) → Option EmailMessage → Option ℕ
thread_for (some o) m = key_of o
thread_for none none = none
thread_for none (some m) = m.thread

abbrev answered_id : String → Option EmailMessage → String
answered_id given none = given
answered_id given (some m) = if text_truthy given then given else or_else m.rfc_message_id ""

abbrev references_of : Option EmailMessage → String
references_of none = ""
references_of (some m) =
    join " " (select text_truthy (m.references ∷ or_else m.rfc_message_id "" ∷ []))

abbrev pub composed :
    User → SendRequest → Recipients → Json → Option ℕ → List NewAttachment → Composed
composed user r (to, cc, bcc) metadata scheduled_at attachments = record {
  created_by = some user.id;
  sender_identity = r.sender_identity;
  to_addresses = to;
  cc_addresses = cc;
  bcc_addresses = bcc;
  subject = r.subject;
  body_text = r.body_text;
  body_html = r.body_html;
  reply_to = r.reply_to;
  metadata = metadata;
  scheduled_at = scheduled_at;
  attachments = attachments;
  thread = thread_for r.thread r.reply_to_message;
  in_reply_to = answered_id r.in_reply_to r.reply_to_message;
  references = references_of r.reply_to_message;
  raw_headers = [];
}

-- `_suppressed_recipients`
abbrev pub suppressed_recipients : ℕ → Mailbox → Recipients → Db → List String
suppressed_recipients now mailbox rs s =
    suppressed_emails now mailbox (map (λ a. a.email) (all_of rs)) s

-- The tests of `validate` on the recipients and the rows that they go with.
abbrev pub check_request :
    {A : Type 0} → ℕ → Json → SendRequest → Recipients → Db → Result A → Result A
check_request now capabilities r rs s rest =
    refuse_if (length rs.0 == 0) "This field is required." (
      refuse_if (ltb (max_recipients capabilities) (length (all_of rs)))
        (append "This provider allows at most "
          (append (print (max_recipients capabilities)) " recipients."))
        (refuse_if (not (text_truthy r.body_text) && not (text_truthy r.body_html))
          "Provide body_text or body_html."
          (refuse_if (foreign_identity r.mailbox.id r.sender_identity)
            "Sender identity must belong to mailbox."
            (refuse_if (foreign_thread r.mailbox.id r.thread) "Thread must belong to mailbox." (
              refuse_if (foreign_reply r.mailbox.id r.reply_to_message)
                "Message must belong to mailbox."
                (refuse_if (not (length (suppressed_recipients now r.mailbox rs s) == 0))
                  (append "Recipient(s) suppressed and cannot receive mail: "
                    (join ", " (sorted_set (suppressed_recipients now r.mailbox rs s))))
                  rest))))))

-- What the fields' validators read besides the request: `EmailField`, the size of `json.dumps`, and
-- the capabilities of the mailbox's provider.
pub record Validators : Type 0 where
  pub email_field : String → Result String
  pub dumped_size : Fields → ℕ
  pub capabilities : Json

-- The arguments that an accepted request gives `create_outbound_message`.
unfoldable pub validate : ℕ → Validators → User → SendRequest → Db → Result Composed
unfolding validate_message_metadata validate_scheduled_at recipients_of validate_attachments
validate now v user r s =
    then_result (validate_message_metadata v.dumped_size r.metadata) (λ metadata.
      then_result (validate_scheduled_at now r.scheduled_at) (λ scheduled_at.
        then_result (recipients_of v.email_field r) (λ rs. check_request now v.capabilities r rs s (
          then_result (validate_attachments r.attachments)
            (λ attachments. ok (composed user r rs metadata scheduled_at attachments))))))
