-- ===== src/Tables/Mail.antt =====
-- hedwig/models.py: messages and what belongs to them. Times are seconds. Optional text is the
-- empty text, but for `rfc_message_id` and `provider_message_id`, whose constraints tell NULL from
-- it.
use hedwig.Prelude.{ℕ, String, Bool, Option, List}
use hedwig.Prelude.Json.{Json}
use hedwig.Enums.{DirectionType, EmailStatus, Folder, RecipientType, SendAttemptStatus}

-- A row of an address list, `{"email": …, "name": …}`.
pub record Address : Type 0 where
  pub email : String
  pub name : String

pub record EmailThread : Type 0 where
  pub id : ℕ
  pub mailbox : ℕ
  pub subject : String
  pub normalized_subject : String
  pub root_message_id : String
  pub participants : List String
  pub message_count : ℕ
  pub has_unread : Bool
  pub last_message_at : Option ℕ

-- A spam score in thousandths, `below_zero n` for -n/1000.
pub data Score : Type 0 where
  thousandths : ℕ → Score
  below_zero : ℕ → Score

pub record EmailMessage : Type 0 where
  pub id : ℕ
  pub mailbox : ℕ
  pub thread : Option ℕ
  pub sender_identity : Option ℕ
  pub created_by : Option ℕ
  pub direction : DirectionType
  pub status : EmailStatus
  pub folder : Folder
  pub rfc_message_id : Option String
  pub from_address : String
  pub from_name : String
  pub envelope_sender : String
  pub envelope_recipient : String
  pub to_addresses : List Address
  pub cc_addresses : List Address
  pub bcc_addresses : List Address
  pub reply_to : String
  pub subject : String
  pub in_reply_to : String
  pub references : String
  pub body_text : String
  pub body_html : String
  pub snippet : String
  pub raw_headers : List (String × String)
  pub provider : Option ℕ
  pub provider_message_id : Option String
  pub is_read : Bool
  pub is_starred : Bool
  pub has_attachments : Bool
  pub size_bytes : ℕ
  pub spam_score : Option Score
  pub metadata : Json
  pub scheduled_at : Option ℕ
  pub sent_at : Option ℕ
  pub received_at : Option ℕ

pub record EmailRecipient : Type 0 where
  pub message : ℕ
  pub recipient_type : RecipientType
  pub email : String
  pub name : String
  pub delivered_to_mailbox : Option ℕ
  pub status : EmailStatus

pub record EmailMessageUserState : Type 0 where
  pub user : ℕ
  pub message : ℕ
  pub folder : Folder
  pub is_read : Bool
  pub is_starred : Bool
  pub is_important : Bool
  pub archived_at : Option ℕ
  pub snoozed_until : Option ℕ
  pub deleted_at : Option ℕ
  pub last_seen_at : Option ℕ

pub record OutboundSendAttempt : Type 0 where
  pub id : ℕ
  pub message : ℕ
  pub provider : ℕ
  pub attempt_number : ℕ
  pub status : SendAttemptStatus
  pub provider_message_id : String
  pub idempotency_key : String
  pub error_code : String
  pub error_message : String
  pub started_at : Option ℕ
  pub finished_at : Option ℕ

-- `pending_content_b64` is that key of `metadata`, empty when it is absent.
pub record EmailAttachment : Type 0 where
  pub id : ℕ
  pub message : ℕ
  pub filename : String
  pub content_type : String
  pub size_bytes : ℕ
  pub file : String
  pub storage_key : String
  pub checksum_sha256 : String
  pub content_id : String
  pub content_disposition : String
  pub is_inline : Bool
  pub pending_content_b64 : String
