-- ===== src/Postmark/Headers.antt =====
-- The headers that `send_message` of providers/postmark.py writes into its payload, and the rest of
-- that payload.
use hedwig.Prelude.Json.{Json, Items, Fields, end, field, get, get_field, truthy}
use hedwig.Prelude.Text.{truthy as text_truthy, prefix}
pub mod RoundTrip
use hedwig.Prelude.{
  Bool, List, Option, String, [], append, false, if◌then◌else◌, is_some, length, map, nat_eq, none,
  not, option_eq, or_else, some, string_eq, ℕ, ◌==◌, ◌∷◌,
}
use hedwig.Postmark.{set_key}
use hedwig.Prelude.Sort.{join}
use hedwig.Tables.{Address, EmailMessage, OutboundSendAttempt}

unfoldable pub format_address : String → String → String
format_address email name =
    if text_truthy name then append name (append " <" (append email ">")) else email

unfoldable pub join_addresses : List Address → String
unfolding format_address
join_addresses rows = join ", " (map (λ r. format_address r.email r.name) rows)

abbrev pub set_if : String → String → List (String × String) → List (String × String)
set_if k v headers = if text_truthy v then set_key k v headers else headers

-- `headers`, from `dict(message.raw_headers)` on.
unfoldable pub sent_headers : EmailMessage → List (String × String)
unfolding set_key
sent_headers m =
    set_if "Message-ID" (or_else m.rfc_message_id "")
      (set_if "References" m.references (set_if "In-Reply-To" m.in_reply_to m.raw_headers))

abbrev pub header_item : String × String → Json
header_item h = Json.obj (field "Name" (Json.text h.0) (field "Value" (Json.text h.1) end))

unfoldable pub header_items : List (String × String) → Items
header_items [] = Items.nil
header_items (h ∷ hs) = Items.cons (header_item h) (header_items hs)

-- The key "Headers", left out where there is no header.
abbrev pub headers_field : List (String × String) → Fields → Fields
headers_field [] rest = rest
headers_field (h ∷ hs) rest = field "Headers" (Json.arr (header_items (h ∷ hs))) rest

-- `normalize_postmark_metadata`, where `text` is `str` of a value: null values go, keys are cut to
-- 20 characters and values to 80.
unfoldable pub normalize_postmark_metadata :
    (Json → String) → Fields → List (String × String) → List (String × String)
unfolding set_key
normalize_postmark_metadata text Fields.end done = done
normalize_postmark_metadata text (Fields.field k Json.null rest) done =
    normalize_postmark_metadata text rest done
normalize_postmark_metadata text (Fields.field k v rest) done =
    normalize_postmark_metadata text rest (set_key (prefix 20 k) (prefix 80 (text v)) done)

abbrev fields_of : Json → Fields
fields_of (Json.obj fs) = fs
fields_of v = Fields.end

unfoldable pub pairs_json : List (String × String) → Fields
pairs_json [] = Fields.end
pairs_json (h ∷ hs) = Fields.field h.0 (Json.text h.1) (pairs_json hs)

-- `metadata` with the two keys of the program, which win.
unfoldable pub request_metadata :
    (Json → String) → (ℕ → String) → EmailMessage → OutboundSendAttempt → List (String × String)
unfolding normalize_postmark_metadata
request_metadata text uuid_text m a =
    normalize_postmark_metadata text
      (Fields.field "hedwig_msg_id" (Json.text (uuid_text m.id))
        (Fields.field "hedwig_idem" (Json.text (prefix 16 a.idempotency_key)) Fields.end))
      (normalize_postmark_metadata text (fields_of (get "postmark_metadata" m.metadata)) [])

-- A key that is set under a condition.
pub record OptionalField : Type 0 where
  pub present : Bool
  pub name : String
  pub value : Json

unfoldable pub with_fields : List OptionalField → Fields → Fields
with_fields [] rest = rest
with_fields (o ∷ os) rest =
    let more = with_fields os rest in if o.present then Fields.field o.name o.value more else more

abbrev field_if : Bool → String → Json → OptionalField
field_if b k v = record { present = b; name = k; value = v }

abbrev has_field : String → Json → Bool
has_field k (Json.obj fs) = is_some (get_field k fs)
has_field k v = false

abbrev stream_of : Option Json → Json
stream_of none = Json.text "outbound"
stream_of (some v) = v

abbrev lookup : String → Json → Option Json
lookup k (Json.obj fs) = get_field k fs
lookup k v = none

abbrev pub optional_fields : EmailMessage → List OptionalField
optional_fields m =
    field_if (not (length m.cc_addresses == 0)) "Cc" (Json.text (join_addresses m.cc_addresses))
    ∷ field_if (not (length m.bcc_addresses == 0)) "Bcc"
        (Json.text (join_addresses m.bcc_addresses))
    ∷ field_if (text_truthy m.reply_to) "ReplyTo" (Json.text m.reply_to)
    ∷ field_if (truthy (get "tag" m.metadata)) "Tag" (get "tag" m.metadata)
    ∷ field_if (has_field "track_opens" m.metadata) "TrackOpens" (get "track_opens" m.metadata)
    ∷ field_if (has_field "track_links" m.metadata) "TrackLinks" (get "track_links" m.metadata)
    ∷ []

abbrev pub attachments_field : Items → List OptionalField
attachments_field attachments =
    field_if (truthy (Json.arr attachments)) "Attachments" (Json.arr attachments) ∷ []

-- The body of the request, with the attachments that `_build_attachments_payload` made.
unfoldable pub request_payload :
    (Json → String) → (ℕ → String) → EmailMessage → OutboundSendAttempt → Items → Json
unfolding request_metadata join_addresses pairs_json header_items get_field with_fields
request_payload text uuid_text m a attachments = Json.obj (
    Fields.field "From" (Json.text (format_address m.from_address m.from_name)) (
      Fields.field "To" (Json.text (join_addresses m.to_addresses)) (
        Fields.field "Subject" (Json.text m.subject) (
          Fields.field "TextBody" (Json.text m.body_text) (
            Fields.field "HtmlBody" (Json.text m.body_html) (
              Fields.field "MessageStream" (stream_of (lookup "message_stream" m.metadata)) (
                Fields.field "Metadata"
                  (Json.obj (pairs_json (request_metadata text uuid_text m a)))
                  (with_fields (optional_fields m) (
                    headers_field (sent_headers m)
                      (with_fields (attachments_field attachments) Fields.end))))))))))
