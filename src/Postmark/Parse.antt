-- ===== src/Postmark/Parse.antt =====
-- `PostmarkProvider` of providers/postmark.py, as far as it reads webhooks.
use hedwig.Prelude.Json.{Json, get, truthy, field, end}
use hedwig.Prelude.Text.{truthy as text_truthy}
use Prim.Native.Char.{Char, code}
use hedwig.Prelude.{
  Bool, List, Option, String, [], first?, if◌then◌else◌, map, nat_beq, nat_eq, none, not, option_eq,
  or_else, select, some, string_eq, true, ℕ, ◌&&◌, ◌++◌, ◌==◌, ◌||◌, ◌∷◌,
}
use hedwig.Enums.{EventType, event_type_eq, event_type_of}
use hedwig.Exec.{Exc, Result, err, ok}
use hedwig.Normalized.{
  NormalizedAttachment, NormalizedDeliveryEvent, NormalizedInboundMessage, ParsedWebhookEvent,
  ProviderImpl,
}
use hedwig.Postmark.{
  Parsers, address_string_to_rows, event_type_from_payload, full_to_rows, get_text, items_of,
  normalize_email, one_of, or_text, parse_postmark_date, payload_headers_to_dict,
  payload_recipients, provider_event_id_for,
}
use hedwig.Prelude.Decimal.{parse}
use hedwig.Prelude.Sort.{sort, text_le}
use hedwig.Prelude.Text.{contains}
use hedwig.Rules.Forwarding.{header}
use hedwig.Tables.{Address, Db, Domain}

unfoldable pub last_part_from : String → String → String
last_part_from best String.[] = best
last_part_from best (String.◌∷◌ c s) =
    if nat_beq (code c) b'@' then last_part_from s s else last_part_from best s

-- `email.rsplit("@", 1)[1]`
abbrev pub last_part : String → String
last_part s = last_part_from s s

abbrev has_at : String → Bool
has_at s = contains "@" s

abbrev domains_of : List Address → List String
domains_of rows = map (λ r. last_part r.email) (select (λ r. has_at r.email) rows)

unfoldable pub recipient_domain_names : Parsers → Json → List String
recipient_domain_names parsers payload =
    let full : String → List String = λ k. domains_of (full_to_rows (items_of (get k payload))) in
    let text : String → List String =
      λ k. domains_of (address_string_to_rows parsers (get_text k payload)) in
    full "ToFull"
    ++ full "CcFull"
    ++ full "BccFull"
    ++ text "To"
    ++ text "Cc"
    ++ text "Bcc"
    ++ text "OriginalRecipient"
    ++ text "DeliveredTo"

-- `first_payload_recipient`
unfoldable pub first_payload_recipient : Parsers → Json → List String → String
first_payload_recipient parsers payload [] = ""
first_payload_recipient parsers payload (k ∷ ks) =
    elim (address_string_to_rows parsers (get_text k payload)) [
      | [] ↦ first_payload_recipient parsers payload ks
      | r ∷ rs ↦ r.email
    ]

abbrev is_angle : Char → Bool
is_angle c = nat_beq (code c) b'<' || nat_beq (code c) b'>'

unfoldable pub lstrip_angles : String → String
lstrip_angles String.[] = String.[]
lstrip_angles (String.◌∷◌ c s) = if is_angle c then lstrip_angles s else String.◌∷◌ c s

unfoldable pub rstrip_angles : String → String
rstrip_angles String.[] = String.[]
rstrip_angles (String.◌∷◌ c s) =
    let rest = rstrip_angles s in
    if is_angle c && not (text_truthy rest) then String.[] else String.◌∷◌ c rest

abbrev header_or_empty : String → List (String × String) → String
header_or_empty name headers = or_else (header name headers) ""

unfoldable pub extract_envelope_sender : List (String × String) → String
unfolding lstrip_angles rstrip_angles
extract_envelope_sender headers = normalize_email (
    rstrip_angles (
      lstrip_angles
        (or_text (header_or_empty "Return-Path" headers) (header_or_empty "Return-path" headers))))

-- `int(v or 0)`, a negative number as 0: `int` raises on a text that is no number.
abbrev int_of : Json → Result ℕ
int_of (Json.num n) = ok n
int_of (Json.bool true) = ok 1
int_of (Json.text s) =
    if not (text_truthy s)
    then ok 0
    else elim (parse s) [ none ↦ err (Exc.value_error "invalid literal for int()") | some n ↦ ok n ]
int_of v = ok 0

unfoldable pub then_result : {A B : Type 0} → Result A → (A → Result B) → Result B
then_result (ok a) f = f a
then_result (err e) f = err e

abbrev attachment_of : Json → ℕ → NormalizedAttachment
attachment_of v size = record {
  filename = or_text (get_text "Name" v) "attachment";
  content_type = or_text (get_text "ContentType" v) "application/octet-stream";
  content_b64 = get_text "Content" v;
  content_id = get_text "ContentID" v;
  is_inline = truthy (get "ContentID" v);
  declared_size = size;
}

unfoldable pub parse_attachments : List Json → Result (List NormalizedAttachment)
parse_attachments [] = ok []
parse_attachments (v ∷ vs) =
    then_result (int_of (get "ContentLength" v))
      (λ size. then_result (parse_attachments vs) (λ rest. ok (attachment_of v size ∷ rest)))

abbrev or_absent : Option String → Option String
or_absent none = none
or_absent (some s) = if text_truthy s then some s else none

abbrev inbound_of :
    Parsers
    → ℕ
    → Json
    → List (String × String)
    → List NormalizedAttachment
    → ℕ
    → NormalizedInboundMessage
inbound_of parsers now payload headers attachments size =
    let from_full = get "FromFull" payload in
    let from_address =
      normalize_email (or_text (get_text "Email" from_full) (get_text "From" payload)) in
    record {
      from_address = from_address;
      from_name = or_text (get_text "Name" from_full) (get_text "FromName" payload);
      to = payload_recipients parsers payload "ToFull" "To";
      cc = payload_recipients parsers payload "CcFull" "Cc";
      bcc = payload_recipients parsers payload "BccFull" "Bcc";
      envelope_sender = or_text (extract_envelope_sender headers) from_address;
      envelope_recipient =
          first_payload_recipient parsers payload
            ("OriginalRecipient" ∷ "DeliveredTo" ∷ "Recipient" ∷ []);
      reply_to = get_text "ReplyTo" payload;
      subject = get_text "Subject" payload;
      body_text = get_text "TextBody" payload;
      body_html = get_text "HtmlBody" payload;
      rfc_message_id = or_absent (header "Message-ID" headers);
      in_reply_to = header_or_empty "In-Reply-To" headers;
      references = header_or_empty "References" headers;
      raw_headers = headers;
      attachments = attachments;
      provider_message_id = get_text "MessageID" payload;
      received_at = some (parse_postmark_date parsers now (get_text "Date" payload));
      size_bytes = size;
      spam_score = parsers.float (header_or_empty "X-Spam-Score" headers);
      metadata = Json.obj (
          field "postmark"
            (Json.obj (
              field "mailbox_hash" (Json.text (get_text "MailboxHash" payload)) (
                field "stripped_text_reply" (Json.text (get_text "StrippedTextReply" payload))
                  (field "tag" (Json.text (get_text "Tag" payload)) end))))
            end);
    }

-- `_parse_inbound`; its `auth_results` are left out.
unfoldable pub parse_inbound : Parsers → ℕ → Json → Result NormalizedInboundMessage
parse_inbound parsers now payload =
    then_result (parse_attachments (items_of (get "Attachments" payload))) (λ attachments.
      then_result (int_of (get "MessageSize" payload)) (λ size.
        ok (inbound_of parsers now payload (payload_headers_to_dict payload) attachments size)))

abbrev event_date : Json → String
event_date payload = or_text (get_text "DeliveredAt" payload) (
    or_text (get_text "BouncedAt" payload) (
      or_text (get_text "ReceivedAt" payload)
        (or_text (get_text "ChangedAt" payload) (get_text "Received" payload))))

-- `_parse_delivery_event`: `name` is the value of `event_type`.
unfoldable pub parse_delivery_event :
    Parsers → ℕ → Json → EventType → String → NormalizedDeliveryEvent
parse_delivery_event parsers now payload event_type name = record {
  event_type = event_type;
  provider_message_id = or_text (get_text "MessageID" payload) (get_text "MessageId" payload);
  provider_event_id = provider_event_id_for payload name;
  recipient = normalize_email (or_text (get_text "Email" payload) (get_text "Recipient" payload));
  reason =
      or_text (get_text "Description" payload)
        (or_text (get_text "Details" payload) (get_text "Type" payload));
  link_url = or_text (get_text "OriginalLink" payload) (get_text "Url" payload);
  occurred_at = some (parse_postmark_date parsers now (event_date payload));
  metadata = Json.obj (field "postmark" payload end);
}

-- `kind`, `event_type` and `provider_event_id`.
pub data Kind : Type 0 where
  inbound delivery_event unknown : Kind

pub record Classified : Type 0 where
  pub kind : Kind
  pub event_type : String
  pub provider_event_id : String

unfoldable pub kind_of : String → Kind
unfolding event_type_of
kind_of name =
    if name == "inbound"
    then Kind.inbound
    else elim (event_type_of name) [ none ↦ Kind.unknown | some t ↦ Kind.delivery_event ]

unfoldable pub classify_webhook : Json → Classified
unfolding kind_of
classify_webhook payload =
    let name = event_type_from_payload payload in
    record {
      kind = kind_of name;
      event_type = name;
      provider_event_id = provider_event_id_for payload name;
    }

abbrev pub of_inbound : Result NormalizedInboundMessage → Result ParsedWebhookEvent
of_inbound (ok n) = ok (ParsedWebhookEvent.inbound n)
of_inbound (err e) = err e

-- `_parse_delivery_event`, for the member of `EventType` that the name stands for.
abbrev pub of_event : Parsers → ℕ → Json → String → Option EventType → Result ParsedWebhookEvent
of_event parsers now payload name none = ok (ParsedWebhookEvent.unknown name)
of_event parsers now payload name (some t) =
    ok (ParsedWebhookEvent.delivery_event (parse_delivery_event parsers now payload t name))

abbrev pub of_kind : Parsers → ℕ → Json → String → Kind → Result ParsedWebhookEvent
of_kind parsers now payload name Kind.inbound = of_inbound (parse_inbound parsers now payload)
of_kind parsers now payload name Kind.delivery_event =
    of_event parsers now payload name (event_type_of name)
of_kind parsers now payload name Kind.unknown = ok (ParsedWebhookEvent.unknown name)

unfoldable pub parse_webhook : Parsers → ℕ → Json → Result ParsedWebhookEvent
parse_webhook parsers now payload =
    let c = classify_webhook payload in of_kind parsers now payload c.event_type c.kind

abbrev domain_before : Domain → Domain → Bool
domain_before a b = text_le a.name b.name

-- `Domain.objects.inbound_enabled().filter(provider=…)`, in the order of `Domain.Meta`.
abbrev inbound_domains : ℕ → Db → List Domain
inbound_domains provider s =
    sort domain_before
      (select (λ d. d.inbound_enabled && d.is_active && d.provider == provider) s.domains)

abbrev only_one : List Domain → Option ℕ
only_one (d ∷ []) = some d.id
only_one ds = none

-- `resolve_domain` of a provider row; without domain names the filter by name is skipped.
unfoldable pub resolve_domain : Parsers → ℕ → Json → Db → Option ℕ
unfolding recipient_domain_names
resolve_domain parsers provider payload s =
    let ds = inbound_domains provider s in
    elim (first? (λ d. one_of d.name (recipient_domain_names parsers payload)) ds) [
      | some d ↦ some d.id
      | none ↦ only_one ds
    ]

-- The interface that ingestion uses, for one provider row.
abbrev pub postmark_impl : Parsers → ℕ → ℕ → ProviderImpl
postmark_impl parsers now provider = record {
  resolve_domain = resolve_domain parsers provider;
  parse_webhook = parse_webhook parsers now;
}
