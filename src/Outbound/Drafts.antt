-- ===== src/Outbound/Drafts.antt =====
-- `update_draft_message` of hedwig/manager.py.
use hedwig.Prelude.Json.{Fields, Json, truthy}
pub mod Sizes
pub mod Second
use hedwig.Prelude.{
  Bool, List, Option, String, [], any, if◌then◌else◌, length, nat_eq, none, not, or_else, some,
  sum_by, ℕ, ◌==◌, ◌∷◌, ◌&&◌, select, option_eq, string_eq,
}
use hedwig.Exec.{Exec, atomic, get_or_raise, gets, pure, ◌>>=◌, ◌>>◌}
use hedwig.Housekeeping.Deleting.{delete_attachments}
use hedwig.Outbound.Compose.{domain_of_mailbox, identity_id, sender_email, sender_name, snippet_of}
use hedwig.Outbound.Rows.{NewAttachment, stage_attachments}
use hedwig.Sending.Attempts.{find_message, update_message}
use hedwig.Sending.Dispatch.{attachments_of, find_mailbox}
use hedwig.Tables.{Address, EmailAttachment, EmailMessage, SenderIdentity}

-- An item of the desired set: `{"id": ...}`, a new attachment, or what is no dict.
pub data DraftItem : Type 0 where
  staged_before : ℕ → DraftItem
  added : NewAttachment → DraftItem
  ignored_item : DraftItem

-- The keyword arguments, `none` for `_UNSET`.
pub record DraftPatch : Type 0 where
  pub sender_identity : Option (Option SenderIdentity)
  pub to_addresses : Option (List Address)
  pub cc_addresses : Option (List Address)
  pub bcc_addresses : Option (List Address)
  pub subject : Option String
  pub body_text : Option String
  pub body_html : Option String
  pub reply_to : Option String
  pub metadata : Option Json
  pub scheduled_at : Option (Option ℕ)
  pub attachments : Option (List DraftItem)

unfoldable pub keep_ids : List DraftItem → List ℕ
keep_ids [] = []
keep_ids (DraftItem.staged_before i ∷ more) = i ∷ keep_ids more
keep_ids (DraftItem.added a ∷ more) = keep_ids more
keep_ids (DraftItem.ignored_item ∷ more) = keep_ids more

unfoldable pub new_items : List DraftItem → List NewAttachment
new_items [] = []
new_items (DraftItem.staged_before i ∷ more) = new_items more
new_items (DraftItem.added a ∷ more) = a ∷ new_items more
new_items (DraftItem.ignored_item ∷ more) = new_items more

abbrev pub dropped : ℕ → List ℕ → EmailAttachment → Bool
dropped message keep a = a.message == message && not (any (λ i. i == a.id) keep)

abbrev pub total_size : List EmailAttachment → ℕ
total_size rows = sum_by (λ a. a.size_bytes) rows

abbrev pub resized : List EmailAttachment → EmailMessage → EmailMessage
resized kept m = record m { has_attachments = not (length kept == 0); size_bytes = total_size kept }

-- `_reconcile_draft_attachments`
unfoldable pub reconcile_draft_attachments : EmailMessage → List DraftItem → Exec (Unit {0})
reconcile_draft_attachments m items = do
  gone ← gets (λ s. select (dropped m.id (keep_ids items)) s.attachments)
  delete_attachments gone
  kept ← gets (attachments_of m.id)
  update_message m.id (resized kept)
  stage_attachments (resized kept m) (new_items items)

abbrev pub reconcile_if : EmailMessage → Option (List DraftItem) → Exec (Unit {0})
reconcile_if m none = pure tt
reconcile_if m (some items) = reconcile_draft_attachments m items

-- The three fields of the sender.
unfoldable pub sender_fields :
    EmailMessage → Option (Option SenderIdentity) → Exec (EmailMessage → EmailMessage)
sender_fields m none = pure (λ r. r)
sender_fields m (some identity) = do
  row ← gets (find_mailbox m.mailbox)
  mailbox ← get_or_raise row
  domain ← domain_of_mailbox mailbox
  pure (λ r. record r {
    sender_identity = identity_id identity;
    from_address = sender_email mailbox domain identity;
    from_name = sender_name mailbox identity;
  })

abbrev metadata_or : Json → Json
metadata_or j = if truthy j then j else Json.obj Fields.end

abbrev new_metadata : Option Json → Json → Json
new_metadata none old = old
new_metadata (some j) old = metadata_or j

abbrev new_snippet : Option String → String → String
new_snippet none old = old
new_snippet (some body) old = snippet_of body

abbrev pub redrafted : DraftPatch → EmailMessage → EmailMessage
redrafted p r = record r {
  to_addresses = or_else p.to_addresses r.to_addresses;
  cc_addresses = or_else p.cc_addresses r.cc_addresses;
  bcc_addresses = or_else p.bcc_addresses r.bcc_addresses;
  subject = or_else p.subject r.subject;
  reply_to = or_else p.reply_to r.reply_to;
  metadata = new_metadata p.metadata r.metadata;
  scheduled_at = or_else p.scheduled_at r.scheduled_at;
  body_text = or_else p.body_text r.body_text;
  snippet = new_snippet p.body_text r.snippet;
  body_html = or_else p.body_html r.body_html;
}

-- Only the given fields are saved, so a row that nothing is given for stays as it is.
unfoldable pub update_draft_message : EmailMessage → DraftPatch → Exec EmailMessage
update_draft_message m p = do
  from ← sender_fields m p.sender_identity
  atomic do reconcile_if m p.attachments; update_message m.id (λ r. redrafted p (from r))
  found ← gets (find_message m.id)
  get_or_raise found
