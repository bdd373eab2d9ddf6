-- ===== src/Tests/Drafts.antt =====
-- The change of a draft at the office.
use hedwig.Prelude.{
  ℕ, any, ◌==◌, List, length, sum_by, ◌≤◌, [], nat_eq, none, option_eq, refl, some, string_eq, ◌∷◌,
  ◌≡◌,
}
use hedwig.Exec.{ok}
use hedwig.Postmark.Parse.{then_result}
use hedwig.Prelude.Base64.{decoded_size}
use hedwig.Prelude.Text.{strip, truthy}
use hedwig.Serializers.{AttachmentInput, refuse_if, validate_attachments}
use hedwig.Serializers.Accepted.{content_size}
use hedwig.Serializers.Drafts.{
  DraftAttachment, new_inputs, references_in, validate_draft_attachments,
}
use hedwig.Serializers.Drafts.Kept.{refers_to, validate_draft_attachments-bounded}
use hedwig.Outbound.Drafts.{DraftItem, DraftPatch, keep_ids, new_items, update_draft_message}
use hedwig.Outbound.Drafts.Sizes.{TellsSizes, update_draft_message-TellsSizes}
use hedwig.Outbound.Rows.{NewAttachment}
use hedwig.Sending.Attempts.{find_message}
use hedwig.Tables.{EmailMessage}
use hedwig.Tests.Office.{ann, domain, letter, office}

abbrev page : NewAttachment
page = record { filename = "page"; content_type = ""; content = "eA=="; content_id = "" }

abbrev retitled : DraftPatch
retitled = record {
  sender_identity = some none;
  to_addresses = none;
  cc_addresses = none;
  bcc_addresses = none;
  subject = some "new";
  body_text = some "text";
  body_html = none;
  reply_to = none;
  metadata = none;
  scheduled_at = none;
  attachments = some (DraftItem.staged_before 1 ∷ DraftItem.added page ∷ []);
}

update_draft_message-TellsSizes_example :
    let r = update_draft_message letter retitled office in
    (x : EmailMessage) × (r.0 ≡ ok x)
    × (find_message letter.id r.1 ≡ some x)
    × TellsSizes letter.id x r.1
update_draft_message-TellsSizes_example =
    update_draft_message-TellsSizes letter letter retitled
      (DraftItem.staged_before 1 ∷ DraftItem.added page ∷ []) ann domain office refl refl refl refl

abbrev asked : List DraftAttachment
asked =
    DraftAttachment.fresh_item (AttachmentInput.attachment "f" "" "eA==" "")
    ∷ DraftAttachment.reference 1
    ∷ []

abbrev wanted : List DraftItem
wanted =
    DraftItem.staged_before 1
    ∷ DraftItem.added (record {
      filename = "f";
      content_type = "application/octet-stream";
      content = "eA==";
      content_id = "";
    })
    ∷ []

validate_draft_attachments-bounded_example :
    (length wanted ≤ 10)
    × (length wanted ≡ length asked)
    × ((i : ℕ) → any (λ j. j == i) (keep_ids wanted) ≡ any (refers_to i) asked)
    × (sum_by content_size (new_items wanted) ≤ 10485760)
unfolding validate_draft_attachments then_result validate_attachments refuse_if new_inputs truthy
    strip decoded_size references_in
validate_draft_attachments-bounded_example = validate_draft_attachments-bounded asked wanted refl
