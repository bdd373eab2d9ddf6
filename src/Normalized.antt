-- ===== src/Normalized.antt =====
-- providers/base.py: the shapes to which a provider normalizes its webhooks, and the interface that
-- every provider implements, as far as ingestion uses it.
use hedwig.Prelude.{Bool, List, Option, String, ℕ}
use hedwig.Enums.{EventType}
use hedwig.Exec.{Result}
use hedwig.Prelude.Json.{Json}
use hedwig.Tables.{Address, Db, Score}

pub record NormalizedAttachment : Type 0 where
  pub filename : String
  pub content_type : String
  pub content_b64 : String
  pub content_id : String
  pub is_inline : Bool
  pub declared_size : ℕ

-- An absent text is the empty text.
pub record NormalizedInboundMessage : Type 0 where
  pub from_address : String
  pub from_name : String
  pub to : List Address
  pub cc : List Address
  pub bcc : List Address
  pub envelope_sender : String
  pub envelope_recipient : String
  pub reply_to : String
  pub subject : String
  pub body_text : String
  pub body_html : String
  pub rfc_message_id : Option String
  pub in_reply_to : String
  pub references : String
  pub raw_headers : List (String × String)
  pub attachments : List NormalizedAttachment
  pub provider_message_id : String
  pub received_at : Option ℕ
  pub size_bytes : ℕ
  pub spam_score : Option Score
  pub metadata : Json

pub record NormalizedDeliveryEvent : Type 0 where
  pub event_type : EventType
  pub provider_message_id : String
  pub provider_event_id : String
  pub recipient : String
  pub reason : String
  pub link_url : String
  pub occurred_at : Option ℕ
  pub metadata : Json

-- `ParsedWebhookEvent`: its `kind` with the part that the kind comes with.
pub data ParsedWebhookEvent : Type 0 where
  inbound : NormalizedInboundMessage → ParsedWebhookEvent
  delivery_event : NormalizedDeliveryEvent → ParsedWebhookEvent
  unknown : String → ParsedWebhookEvent

-- `BaseEmailProvider`, for one provider row. Parsing may raise.
pub record ProviderImpl : Type 0 where
  pub resolve_domain : Json → Db → Option ℕ
  pub parse_webhook : Json → Result ParsedWebhookEvent
