-- ===== src/Tables/Providers.antt =====
-- providers/models.py: the rows of the provider side. Times are seconds, a date is a day number.
-- Optional text is the empty text. Display names, audit times and
-- the raw answer in `Domain.dns_records` are left out.
use hedwig.Prelude.{ℕ, String, Bool, Option}
use hedwig.Prelude.Json.{Json}
use hedwig.Enums.{
  DnsRecordStatus, DnsRecordType, ProviderType, DomainStatus, ProviderWebhookStatus, EventType,
}

pub record EmailProvider : Type 0 where
  pub id : ℕ
  pub provider_type : ProviderType
  pub server_token : String
  pub account_token : String
  pub webhook_signing_secret : String
  pub max_send_per_day : ℕ
  pub last_health_check_at : Option ℕ
  pub last_health_check_error : String
  pub is_active : Bool

pub record Domain : Type 0 where
  pub id : ℕ
  pub name : String
  pub provider : ℕ
  pub status : DomainStatus
  pub provider_domain_id : String
  pub outbound_enabled : Bool
  pub inbound_enabled : Bool
  pub webhook_secret : String
  pub max_send_per_day : ℕ
  pub is_active : Bool
  pub verified_at : Option ℕ
  pub dns_checked_at : Option ℕ
  pub last_error : String

-- Its primary key is left out: `unique_dns_requirement_per_domain` makes the first five a key.
pub record DomainDnsRecord : Type 0 where
  pub domain : ℕ
  pub record_type : DnsRecordType
  pub host : String
  pub value : String
  pub purpose : String
  pub status : DnsRecordStatus
  pub last_checked_at : Option ℕ
  pub last_error : String

pub record DailyDomainSendLog : Type 0 where
  pub domain : ℕ
  pub date : ℕ
  pub sent_count : ℕ
  pub failed_count : ℕ

pub record ProviderWebhookLog : Type 0 where
  pub id : ℕ
  pub provider : Option ℕ
  pub domain : Option ℕ
  pub provider_event_id : String
  pub event_type : String
  pub headers : Json
  pub payload : Json
  pub status : ProviderWebhookStatus
  pub signature_valid : Option Bool
  pub error_message : String
  pub attempt_count : ℕ
  pub received_at : ℕ
  pub locked_at : Option ℕ
  pub processed_at : Option ℕ

pub record DeliveryEvent : Type 0 where
  pub message : ℕ
  pub event_type : EventType
  pub provider_event_id : String
  pub reason : String
  pub link_url : String
  pub recipient : String
  pub occurred_at : ℕ
  pub metadata : Json
  pub raw_webhook : ℕ
