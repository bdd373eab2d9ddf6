-- ===== src/Serializers.antt =====
-- hedwig/serializers.py: what a request to send must satisfy. The fields' own validation by Django
-- REST framework is a parameter or has happened: keys are resolved to rows the user may use, and
-- dates and texts have their types. Names of
-- fields and of metadata keys in error messages are left out.
use hedwig.Prelude.Json.{Json, Fields, get, truthy, field, end}
use hedwig.Prelude.Text.{lower, strip, truthy as text_truthy}
pub mod Validate
pub mod Rows
pub mod Grants
pub mod Accepted
pub mod Drafts
use hedwig.Prelude.{
  Bool, List, Option, String, [], append, if◌then◌else◌, leb, length, ltb, none, not, some, true, ℕ,
  ◌&&◌, ◌*◌, ◌+◌, ◌∷◌,
}
use hedwig.Exec.{Exc, Result, err, ok}
use hedwig.Outbound.Rows.{NewAttachment}
use hedwig.Postmark.{one_of, or_text}
use hedwig.Postmark.Parse.{then_result}
use hedwig.Prelude.Base64.{decoded_size}
use hedwig.Tables.{Address, EmailMessage, EmailThread, Mailbox, SenderIdentity}

-- A row of a recipient list: a text, an object with its `email` and `name`, or something else.
pub data AddressInput : Type 0 where
  plain : String → AddressInput
  object : String → String → AddressInput
  other : AddressInput

abbrev row_of : String → Result String → Result Address
row_of name (ok email) = ok (record { email = lower email; name = name })
row_of name (err e) = err e

-- One round of `normalize_address_rows`; `email_field` is `EmailField().run_validation`.
abbrev normalize_row : (String → Result String) → AddressInput → Result Address
normalize_row email_field (AddressInput.plain s) = row_of "" (email_field s)
normalize_row email_field (AddressInput.object email name) = row_of name (email_field email)
normalize_row email_field AddressInput.other =
    err (Exc.validation_error "Recipients must be emails or objects.")

unfoldable pub normalize_address_rows :
    (String → Result String) → List AddressInput → Result (List Address)
normalize_address_rows email_field [] = ok []
normalize_address_rows email_field (x ∷ xs) =
    then_result (normalize_row email_field x)
      (λ r. then_result (normalize_address_rows email_field xs) (λ rs. ok (r ∷ rs)))

-- `_recipient_rows`: at most one of the two spellings of a field.
abbrev pub recipient_rows :
    Option (List AddressInput) → Option (List AddressInput) → Result (List AddressInput)
recipient_rows none none = ok []
recipient_rows none (some rows) = ok rows
recipient_rows (some rows) none = ok rows
recipient_rows (some rows) (some others) =
    err (Exc.validation_error "Use one name of a field, not both.")

-- An item of `attachments`, an absent text as the empty text, or something that is no object.
pub data AttachmentInput : Type 0 where
  attachment : String → String → String → String → AttachmentInput
  other : AttachmentInput

-- `raise ValidationError(message)` if the test passes.
unfoldable pub refuse_if : {A : Type 0} → Bool → String → Result A → Result A
refuse_if b message rest = if b then err (Exc.validation_error message) else rest

-- What an item becomes, with its decoded size.
abbrev pub sized_item : NewAttachment → Option ℕ → Result (NewAttachment × ℕ)
sized_item a none = err (
    Exc.validation_error
      (append "Attachment '" (append a.filename "' has invalid base64 content.")))
sized_item a (some size) = ok (a, size)

abbrev checked_item : NewAttachment → Result (NewAttachment × ℕ)
checked_item a = refuse_if (not (text_truthy a.filename)) "Each attachment requires a filename." (
    refuse_if (not (text_truthy a.content)) "Each attachment requires base64-encoded content."
      (sized_item a (decoded_size true a.content)))

abbrev pub item_of : String → String → String → String → NewAttachment
item_of filename content_type content content_id = record {
  filename = strip filename;
  content_type = or_text content_type "application/octet-stream";
  content = content;
  content_id = content_id;
}

abbrev pub check_item : AttachmentInput → Result (NewAttachment × ℕ)
check_item (AttachmentInput.attachment filename content_type content content_id) =
    checked_item (item_of filename content_type content content_id)
check_item AttachmentInput.other = err (Exc.validation_error "Each attachment must be an object.")

unfoldable pub check_items : List AttachmentInput → Result (List NewAttachment × ℕ)
check_items [] = ok ([], 0)
check_items (x ∷ xs) =
    then_result (check_item x)
      (λ a. then_result (check_items xs) (λ rest. ok (a.0 ∷ rest.0, a.1 + rest.1)))

abbrev pub max_attachments : ℕ
max_attachments = 10

abbrev pub max_total_attachment_bytes : ℕ
max_total_attachment_bytes = 10 * 1024 * 1024

abbrev pub within_size : List NewAttachment × ℕ → Result (List NewAttachment)
within_size r =
    refuse_if (ltb max_total_attachment_bytes r.1) "Total attachment size exceeds the 10MB limit."
      (ok r.0)

-- `_validate_attachments`
unfoldable pub validate_attachments : List AttachmentInput → Result (List NewAttachment)
unfolding check_items
validate_attachments items =
    refuse_if (ltb max_attachments (length items)) "At most 10 attachments are allowed."
      (then_result (check_items items) within_size)

abbrev pub max_schedule_horizon : ℕ
max_schedule_horizon = 365 * 86400

-- `validate_scheduled_at`
unfoldable pub validate_scheduled_at : ℕ → Option ℕ → Result (Option ℕ)
validate_scheduled_at now none = ok none
validate_scheduled_at now (some t) = refuse_if (leb t now) "scheduled_at must be in the future." (
    refuse_if (ltb (now + max_schedule_horizon) t) "scheduled_at must be within 365 days."
      (ok (some t)))

abbrev reserved_metadata_keys : List String
reserved_metadata_keys = "forwarded_from" ∷ "forward_reason" ∷ []

abbrev supported_metadata_keys : List String
supported_metadata_keys =
    "is_important" ∷ "importance" ∷ "tag" ∷ "message_stream" ∷ "track_opens" ∷ "track_links"
    ∷ "postmark_metadata" ∷ []

unfoldable pub without_reserved : Fields → Fields
without_reserved Fields.end = Fields.end
without_reserved (Fields.field k v rest) =
    let more = without_reserved rest in
    if one_of k reserved_metadata_keys then more else Fields.field k v more

unfoldable pub all_supported : Fields → Bool
all_supported Fields.end = true
all_supported (Fields.field k v rest) = one_of k supported_metadata_keys && all_supported rest

abbrev capped : (Fields → ℕ) → Fields → Result Json
capped size fields =
    if not (all_supported fields)
    then err (Exc.validation_error "Unsupported metadata key(s).")
    else if ltb 4096 (size fields)
    then err (Exc.validation_error "metadata must be at most 4096 bytes when serialized.")
    else ok (Json.obj fields)

-- `size` is the number of bytes of `json.dumps` of an object.
unfoldable pub validate_message_metadata : (Fields → ℕ) → Json → Result Json
unfolding without_reserved all_supported
validate_message_metadata size (Json.obj fields) = capped size (without_reserved fields)
validate_message_metadata size v =
    if truthy v then err (Exc.validation_error "metadata must be an object.") else ok (Json.obj end)

-- The validated fields of a request, before `validate`.
pub record SendRequest : Type 0 where
  pub mailbox : Mailbox
  pub sender_identity : Option SenderIdentity
  pub to : Option (List AddressInput)
  pub to_addresses : Option (List AddressInput)
  pub cc : Option (List AddressInput)
  pub cc_addresses : Option (List AddressInput)
  pub bcc : Option (List AddressInput)
  pub bcc_addresses : Option (List AddressInput)
  pub subject : String
  pub body_text : String
  pub body_html : String
  pub reply_to : String
  pub in_reply_to : String
  -- Absent, null, or a thread.
  pub thread : Option (Option EmailThread)
  pub reply_to_message : Option EmailMessage
  pub metadata : Json
  pub scheduled_at : Option ℕ
  pub attachments : List AttachmentInput
