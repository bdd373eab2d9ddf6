-- ===== src/Enums/Providers.antt =====
-- utils/enums.py: the choices of the provider side. The index of a choice decides equality.
use hedwig.Prelude.{ℕ, ◌≡◌, ◌↔◌, arith, nat_beq, Eq, true}

pub data ProviderType : Type 0 where
  aws_ses postmark mailgun sendgrid : ProviderType

abbrev pub provider_type_index : ProviderType → ℕ
provider_type_index ProviderType.aws_ses = 0
provider_type_index ProviderType.postmark = 1
provider_type_index ProviderType.mailgun = 2
provider_type_index ProviderType.sendgrid = 3

pub provider_type_index_iff :
    (a b : ProviderType)
    → (nat_beq (provider_type_index a) (provider_type_index b) ≡ true) ↔ (a ≡ b)
provider_type_index_iff a b = ((λ h. ground arith), (λ h. ground arith))

instance abbrev pub provider_type_eq : Eq ProviderType
provider_type_eq = record {
  beq = λ a b. nat_beq (provider_type_index a) (provider_type_index b);
  beq_iff = provider_type_index_iff;
}

pub data DomainStatus : Type 0 where
  pending verified failed suspended : DomainStatus

abbrev pub domain_status_index : DomainStatus → ℕ
domain_status_index DomainStatus.pending = 0
domain_status_index DomainStatus.verified = 1
domain_status_index DomainStatus.failed = 2
domain_status_index DomainStatus.suspended = 3

pub domain_status_index_iff :
    (a b : DomainStatus)
    → (nat_beq (domain_status_index a) (domain_status_index b) ≡ true) ↔ (a ≡ b)
domain_status_index_iff a b = ((λ h. ground arith), (λ h. ground arith))

instance abbrev pub domain_status_eq : Eq DomainStatus
domain_status_eq = record {
  beq = λ a b. nat_beq (domain_status_index a) (domain_status_index b);
  beq_iff = domain_status_index_iff;
}

pub data DnsRecordStatus : Type 0 where
  pending verified failed : DnsRecordStatus

abbrev pub dns_record_status_index : DnsRecordStatus → ℕ
dns_record_status_index DnsRecordStatus.pending = 0
dns_record_status_index DnsRecordStatus.verified = 1
dns_record_status_index DnsRecordStatus.failed = 2

pub dns_record_status_index_iff :
    (a b : DnsRecordStatus)
    → (nat_beq (dns_record_status_index a) (dns_record_status_index b) ≡ true) ↔ (a ≡ b)
dns_record_status_index_iff a b = ((λ h. ground arith), (λ h. ground arith))

instance abbrev pub dns_record_status_eq : Eq DnsRecordStatus
dns_record_status_eq = record {
  beq = λ a b. nat_beq (dns_record_status_index a) (dns_record_status_index b);
  beq_iff = dns_record_status_index_iff;
}

pub data DnsRecordType : Type 0 where
  a_record cname mx txt : DnsRecordType

abbrev pub dns_record_type_index : DnsRecordType → ℕ
dns_record_type_index DnsRecordType.a_record = 0
dns_record_type_index DnsRecordType.cname = 1
dns_record_type_index DnsRecordType.mx = 2
dns_record_type_index DnsRecordType.txt = 3

pub dns_record_type_index_iff :
    (a b : DnsRecordType)
    → (nat_beq (dns_record_type_index a) (dns_record_type_index b) ≡ true) ↔ (a ≡ b)
dns_record_type_index_iff a b = ((λ h. ground arith), (λ h. ground arith))

instance abbrev pub dns_record_type_eq : Eq DnsRecordType
dns_record_type_eq = record {
  beq = λ a b. nat_beq (dns_record_type_index a) (dns_record_type_index b);
  beq_iff = dns_record_type_index_iff;
}

pub data ProviderWebhookStatus : Type 0 where
  pending processing processed failed ignored : ProviderWebhookStatus

abbrev pub provider_webhook_status_index : ProviderWebhookStatus → ℕ
provider_webhook_status_index ProviderWebhookStatus.pending = 0
provider_webhook_status_index ProviderWebhookStatus.processing = 1
provider_webhook_status_index ProviderWebhookStatus.processed = 2
provider_webhook_status_index ProviderWebhookStatus.failed = 3
provider_webhook_status_index ProviderWebhookStatus.ignored = 4

pub provider_webhook_status_index_iff :
    (a b : ProviderWebhookStatus)
    → (nat_beq (provider_webhook_status_index a) (provider_webhook_status_index b) ≡ true) ↔ (a ≡ b)
provider_webhook_status_index_iff a b = ((λ h. ground arith), (λ h. ground arith))

instance abbrev pub provider_webhook_status_eq : Eq ProviderWebhookStatus
provider_webhook_status_eq = record {
  beq = λ a b. nat_beq (provider_webhook_status_index a) (provider_webhook_status_index b);
  beq_iff = provider_webhook_status_index_iff;
}

pub data EventType : Type 0 where
  queued sent delivered opened clicked bounced complained unsubscribed failed : EventType

abbrev pub event_type_index : EventType → ℕ
event_type_index EventType.queued = 0
event_type_index EventType.sent = 1
event_type_index EventType.delivered = 2
event_type_index EventType.opened = 3
event_type_index EventType.clicked = 4
event_type_index EventType.bounced = 5
event_type_index EventType.complained = 6
event_type_index EventType.unsubscribed = 7
event_type_index EventType.failed = 8

pub event_type_index_iff :
    (a b : EventType) → (nat_beq (event_type_index a) (event_type_index b) ≡ true) ↔ (a ≡ b)
event_type_index_iff a b = ((λ h. ground arith), (λ h. ground arith))

instance abbrev pub event_type_eq : Eq EventType
event_type_eq = record {
  beq = λ a b. nat_beq (event_type_index a) (event_type_index b);
  beq_iff = event_type_index_iff;
}
