-- ===== src/Postmark/Checks.antt =====
-- The health and DNS tasks of providers/tasks.py, with `check_health` of providers/postmark.py.
use hedwig.Prelude.Json.{Json}
use hedwig.Prelude.Text.{prefix, truthy as text_truthy}
use hedwig.Prelude.{
  Bool, Option, String, false, first?, if◌then◌else◌, leb, length, map, nat_eq, none, not,
  option_eq, select, some, string_eq, true, update_where, ℕ, ◌&&◌, ◌++◌, ◌==◌,
}
use hedwig.Enums.{
  DomainStatus, ProviderType, domain_status_eq, email_status_eq, provider_type_eq,
  provider_webhook_status_eq, send_attempt_status_eq,
}
use hedwig.Exec.{Exc, Exec, get_or_raise, gets, modify, pure, raise, try_except, ◌>>=◌, ◌>>◌}
use hedwig.Postmark.Dns.{DomainsApi, Reply, check_domain, message_or, register_domain}
use hedwig.Sending.Dispatch.{find_domain, find_provider}
use hedwig.Tables.{Domain, EmailProvider, Task}

abbrev body_message : Option Json → String → String
body_message none text = text
body_message (some body) text = message_or text body

-- `check_health`: whether the provider answers, and the error if not.
unfoldable pub check_health : Reply → Bool × String
check_health (Reply.down e) = (false, e)
check_health (Reply.reply status body text) =
    if leb 400 status then (false, prefix 500 (body_message body text)) else (true, "")

-- `health_check`: the message of the exception of `PostmarkClient` if no token is set.
unfoldable pub health_check : DomainsApi → EmailProvider → Bool × String
unfolding check_health
health_check api provider =
    if not (text_truthy provider.server_token)
    then (false, "Postmark provider is missing a server token.")
    else check_health (api.get_server provider.server_token)

abbrev checked_health : ℕ → Bool × String → EmailProvider → EmailProvider
checked_health now r p = record p {
  last_health_check_at = some now;
  last_health_check_error = if r.0 then "" else r.1;
}

pub data Health : Type 0 where
  missing healthy unhealthy : Health

abbrev is_provider : ℕ → EmailProvider → Bool
is_provider i p = p.id == i

abbrev record_health : ℕ → ℕ → Bool × String → Exec Health
record_health now i r = do
  modify (λ s. record s {
    providers = update_where (is_provider i) (checked_health now r) s.providers;
  })
  pure (if r.0 then Health.healthy else Health.unhealthy)

-- `get_provider` raises for a type without an implementation.
abbrev health_of : ℕ → DomainsApi → Option EmailProvider → Exec Health
health_of now api none = pure Health.missing
health_of now api (some p) =
    if p.provider_type == ProviderType.postmark
    then record_health now p.id (health_check api p)
    else raise (Exc.value_error "No provider implementation registered.")

unfoldable pub check_provider_health_task : ℕ → DomainsApi → ℕ → Exec Health
unfolding health_check
check_provider_health_task now api i = do
  found ← gets (λ s. first? (λ p. p.is_active && is_provider i p) s.providers)
  health_of now api found

unfoldable pub check_all_providers_health_task : Exec ℕ
check_all_providers_health_task = do
  active ← gets (λ s. select (λ p. p.is_active) s.providers)
  modify (λ s. record s { queue = s.queue ++ map (λ p. Task.check_provider_health p.id) active })
  pure (length active)

-- How `check_domain_dns_task` ends: with the row's status, with no row, or with `self.retry`.
pub data DnsOutcome : Type 0 where
  checked : Option DomainStatus → DnsOutcome
  missing : DnsOutcome
  retried : Exc → DnsOutcome

abbrev is_domain : ℕ → Domain → Bool
is_domain i d = d.id == i

abbrev failed_check : ℕ → String → Domain → Domain
failed_check now message d = record d {
  status = DomainStatus.failed;
  last_error = message;
  dns_checked_at = some now;
}

-- `except Exception`: `describe` is `str(exc)`.
abbrev fail_check : ℕ → (Exc → String) → ℕ → Exc → Exec DnsOutcome
fail_check now describe i e = do
  modify (λ s. record s {
    domains = update_where (is_domain i) (failed_check now (describe e)) s.domains;
  })
  pure (DnsOutcome.retried e)

abbrev status_of_domain : Option Domain → Option DomainStatus
status_of_domain none = none
status_of_domain (some d) = some d.status

abbrev check_or_register : ℕ → ℕ → DomainsApi → EmailProvider → Domain → Exec (Unit {0})
check_or_register fuel now api provider d =
    if text_truthy d.provider_domain_id
    then check_domain now api provider d
    else register_domain fuel now api provider d

abbrev check_with : ℕ → ℕ → DomainsApi → (Exc → String) → Domain → EmailProvider → Exec DnsOutcome
check_with fuel now api describe d provider =
    if provider.provider_type == ProviderType.postmark
    then try_except
        (do
          check_or_register fuel now api provider d
          after ← gets (find_domain d.id)
          pure (DnsOutcome.checked (status_of_domain after)))
        (fail_check now describe d.id)
    else raise (Exc.value_error "No provider implementation registered.")

abbrev dns_of : ℕ → ℕ → DomainsApi → (Exc → String) → Option Domain → Exec DnsOutcome
dns_of fuel now api describe none = pure DnsOutcome.missing
dns_of fuel now api describe (some d) = do
  row ← gets (find_provider d.provider)
  provider ← get_or_raise row
  check_with fuel now api describe d provider

unfoldable pub check_domain_dns_task : ℕ → ℕ → DomainsApi → (Exc → String) → ℕ → Exec DnsOutcome
check_domain_dns_task fuel now api describe i = do
  found ← gets (find_domain i)
  dns_of fuel now api describe found

unfoldable pub check_pending_domains_dns_task : Exec ℕ
check_pending_domains_dns_task = do
  waiting ←
      gets (λ s. select (λ d. d.is_active && not (d.status == DomainStatus.verified)) s.domains)
  modify (λ s. record s { queue = s.queue ++ map (λ d. Task.check_domain_dns d.id) waiting })
  pure (length waiting)
