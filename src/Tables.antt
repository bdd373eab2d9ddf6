-- ===== src/Tables.antt =====
-- The database: a list of rows for each table, and the Celery queue. A table's newest row stands
-- first, the order `-created_at` of `EmailMessage.Meta`. `next_id` makes fresh primary keys.
mod Providers
mod Mail
mod Mailboxes
pub use Providers.*
pub use Mail.*
pub use Mailboxes.*
use hedwig.Prelude.{ℕ, String, List}

-- A queued Celery call.
pub data Task : Type 0 where
  send_email_message : ℕ → ℕ → Task
  process_webhook_log : ℕ → Task
  check_provider_health : ℕ → Task
  check_domain_dns : ℕ → Task
  delete_attachment_file : String → String → Task

pub record Db : Type 0 where
  pub next_id : ℕ
  pub providers : List EmailProvider
  pub domains : List Domain
  pub dns_records : List DomainDnsRecord
  pub send_logs : List DailyDomainSendLog
  pub webhook_logs : List ProviderWebhookLog
  pub events : List DeliveryEvent
  pub mailboxes : List Mailbox
  pub aliases : List MailboxAlias
  pub identities : List SenderIdentity
  pub accesses : List UserMailboxAccess
  pub labels : List EmailLabel
  pub message_labels : List EmailMessageLabel
  pub rules : List MailboxRule
  pub suppressed : List SuppressedAddress
  pub contacts : List Contact
  pub threads : List EmailThread
  pub messages : List EmailMessage
  pub recipients : List EmailRecipient
  pub user_states : List EmailMessageUserState
  pub attempts : List OutboundSendAttempt
  pub attachments : List EmailAttachment
  pub queue : List Task
