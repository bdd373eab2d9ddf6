-- ===== src/Serializers/Drafts.antt =====
-- `DraftEmailSerializer` of hedwig/serializers.py for a partial update, and the action
-- `draft_update` of hedwig/views.py.
pub mod Kept
use hedwig.Prelude.{
  Bool, List, Option, String, [], if◌then◌else◌, length, ltb, map, nat_eq, none, not, some,
  string_eq, ℕ, ◌+◌, ◌++◌, ◌==◌, ◌∷◌,
}
use hedwig.Access.{User}
use hedwig.Api.{get_editable_draft}
use hedwig.Exec.{Exec, Result, err, ok, ◌>>=◌}
use hedwig.Outbound.Drafts.{DraftItem, DraftPatch, update_draft_message}
use hedwig.Outbound.Rows.{NewAttachment}
use hedwig.Postmark.Parse.{then_result}
use hedwig.Prelude.Json.{Json}
use hedwig.Serializers.{
  AddressInput, AttachmentInput, max_attachments, normalize_address_rows, recipient_rows, refuse_if,
  validate_attachments, validate_message_metadata, validate_scheduled_at,
}
use hedwig.Serializers.Validate.{Validators, foreign_identity, foreign_reply, foreign_thread}
use hedwig.Tables.{Address, EmailMessage, EmailThread, Mailbox, SenderIdentity}

-- An item of the `attachments` of a draft.
pub data DraftAttachment : Type 0 where
  reference : ℕ → DraftAttachment
  fresh_item : AttachmentInput → DraftAttachment

unfoldable pub references_in : List DraftAttachment → List DraftItem
references_in [] = []
references_in (DraftAttachment.reference i ∷ more) = DraftItem.staged_before i ∷ references_in more
references_in (DraftAttachment.fresh_item a ∷ more) = references_in more

unfoldable pub new_inputs : List DraftAttachment → List AttachmentInput
new_inputs [] = []
new_inputs (DraftAttachment.reference i ∷ more) = new_inputs more
new_inputs (DraftAttachment.fresh_item a ∷ more) = a ∷ new_inputs more

-- `_validate_draft_attachments`
unfoldable pub validate_draft_attachments : List DraftAttachment → Result (List DraftItem)
validate_draft_attachments items =
    let references = references_in items in
    then_result (validate_attachments (new_inputs items)) (λ made.
      refuse_if (ltb max_attachments (length references + length made))
        "At most 10 attachments are allowed." (ok (references ++ map DraftItem.added made)))

-- The body of the request, `none` for a field that it leaves out.
pub record DraftRequest : Type 0 where
  pub mailbox : Option Mailbox
  pub sender_identity : Option (Option SenderIdentity)
  pub to : Option (List AddressInput)
  pub to_addresses : Option (List AddressInput)
  pub cc : Option (List AddressInput)
  pub cc_addresses : Option (List AddressInput)
  pub bcc : Option (List AddressInput)
  pub bcc_addresses : Option (List AddressInput)
  pub subject : Option String
  pub body_text : Option String
  pub body_html : Option String
  pub reply_to : Option String
  pub thread : Option (Option EmailThread)
  pub reply_to_message : Option EmailMessage
  pub metadata : Option Json
  pub scheduled_at : Option (Option ℕ)
  pub attachments : Option (List DraftAttachment)

-- A validator of a field that may be left out.
abbrev pub if_given : {A B : Type 0} → (A → Result B) → Option A → Result (Option B)
if_given f none = ok none
if_given f (some a) = then_result (f a) (λ b. ok (some b))

-- What `_recipient_rows` and `normalize_address_rows` make of one kind of recipient.
abbrev rows_given :
    (String → Result String)
    → Option (List AddressInput)
    → Option (List AddressInput)
    → Result (Option (List Address))
rows_given email_field none none = ok none
rows_given email_field a b =
    then_result (recipient_rows a b)
      (λ rows. then_result (normalize_address_rows email_field rows) (λ rs. ok (some rs)))

abbrev mailbox_or : Option Mailbox → ℕ → ℕ
mailbox_or none old = old
mailbox_or (some b) old = b.id

abbrev given_identity : Option (Option SenderIdentity) → Option SenderIdentity
given_identity none = none
given_identity (some o) = o

-- The rows that the request names belong to the mailbox.
abbrev pub check_draft_rows : {A : Type 0} → ℕ → DraftRequest → Result A → Result A
check_draft_rows mailbox r rest =
    refuse_if (foreign_identity mailbox (given_identity r.sender_identity))
      "Sender identity must belong to mailbox."
      (refuse_if (foreign_thread mailbox r.thread) "Thread must belong to mailbox." (
        refuse_if (foreign_reply mailbox r.reply_to_message) "Message must belong to mailbox."
          rest))

-- `validate` and the arguments that `update` passes on, for a draft of a mailbox.
unfoldable pub draft_patch : ℕ → Validators → EmailMessage → DraftRequest → Result DraftPatch
draft_patch now v m r =
    then_result (if_given (validate_message_metadata v.dumped_size) r.metadata) (λ metadata.
      then_result (if_given (validate_scheduled_at now) r.scheduled_at) (λ scheduled_at.
        then_result (rows_given v.email_field r.to r.to_addresses) (λ to.
          then_result (rows_given v.email_field r.cc r.cc_addresses) (λ cc.
            then_result (rows_given v.email_field r.bcc r.bcc_addresses) (λ bcc.
              check_draft_rows (mailbox_or r.mailbox m.mailbox) r (
                then_result (if_given validate_draft_attachments r.attachments) (λ attachments.
                  ok (record {
                    sender_identity = r.sender_identity;
                    to_addresses = to;
                    cc_addresses = cc;
                    bcc_addresses = bcc;
                    subject = r.subject;
                    body_text = r.body_text;
                    body_html = r.body_html;
                    reply_to = r.reply_to;
                    metadata = metadata;
                    scheduled_at = scheduled_at;
                    attachments = attachments;
                  }))))))))

abbrev pub save_draft : EmailMessage → Result DraftPatch → Exec EmailMessage
save_draft m (ok p) = update_draft_message m p
save_draft m (err e) = λ s. (err e, s)

-- The action; its answer is the row that is then serialized.
unfoldable pub draft_update : ℕ → Validators → User → ℕ → DraftRequest → Exec EmailMessage
draft_update now v user i r = do
  m ← get_editable_draft now user i
  save_draft m (draft_patch now v m r)
