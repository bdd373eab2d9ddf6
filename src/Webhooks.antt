-- ===== src/Webhooks.antt =====
-- `process_webhook_log` of providers/ingest.py and the webhook tasks of providers/tasks.py.
pub mod Claims
pub mod Logs
pub mod Outcomes
use hedwig.Prelude.Text.{truthy}
use hedwig.Prelude.Json.{Json, end}
use hedwig.Ingest.Resolve.{resolve_mailbox}
use hedwig.Prelude.{
  Bool, Option, String, any, append, false, first?, if◌then◌else◌, is_some, length, ltb, map,
  nat_eq, none, not, option_eq, select, some, string_eq, true, update_where, ℕ, ◌&&◌, ◌++◌, ◌+◌,
  ◌==◌, ◌||◌,
}
use hedwig.Delivery.{create_delivery_event}
use hedwig.Enums.{
  ProviderWebhookStatus, domain_status_eq, email_status_eq, provider_webhook_status_eq,
  send_attempt_status_eq,
}
use hedwig.Exec.{
  Exc, Exec, Result, err, get_or_raise, gets, modify, ok, pure, raise, try_except, ◌>>=◌, ◌>>◌,
}
use hedwig.Ingest.Inbound.{create_inbound_message}
use hedwig.Normalized.{NormalizedInboundMessage, ParsedWebhookEvent, ProviderImpl}
use hedwig.Sending.Dispatch.{find_domain}
use hedwig.Services.{Services}
use hedwig.Tables.{DailyDomainSendLog, Db, DeliveryEvent, Mailbox, ProviderWebhookLog, Task}

abbrev pub is_log : ℕ → ProviderWebhookLog → Bool
is_log i w = w.id == i

abbrev pub update_log : ℕ → (ProviderWebhookLog → ProviderWebhookLog) → Exec (Unit {0})
update_log i f = modify (λ s. record s { webhook_logs = update_where (is_log i) f s.webhook_logs })

abbrev pub find_log : ℕ → Db → Option ProviderWebhookLog
find_log i s = first? (is_log i) s.webhook_logs

-- The status, the domain and the error that a webhook is saved with.
pub record Outcome : Type 0 where
  pub status : ProviderWebhookStatus
  pub domain : Option ℕ
  pub error_message : String

abbrev pub ignored : Option ℕ → String → Outcome
ignored domain message = record {
  status = ProviderWebhookStatus.ignored;
  domain = domain;
  error_message = message;
}

abbrev pub processed : Option ℕ → Outcome
processed domain = record {
  status = ProviderWebhookStatus.processed;
  domain = domain;
  error_message = "";
}

-- `except MailboxQuotaExceeded`
abbrev pub drop_over_quota : ℕ → Exc → Exec Outcome
drop_over_quota domain (Exc.quota_exceeded message) = pure (ignored (some domain) message)
drop_over_quota domain e = raise e

abbrev pub ingest_for :
    ℕ → Services → ℕ → ℕ → NormalizedInboundMessage → Option (Mailbox × String) → Exec Outcome
ingest_for now services provider domain n none =
    pure (ignored (some domain) "No mailbox matched the inbound recipients.")
ingest_for now services provider domain n (some found) =
    try_except
      (do
        _ ← create_inbound_message now services provider found.0 found.1 n
        pure (processed (some domain)))
      (drop_over_quota domain)

abbrev pub ingest_in : ℕ → Services → ℕ → NormalizedInboundMessage → Option ℕ → Exec Outcome
ingest_in now services provider n none =
    pure (ignored none "Could not resolve a domain for this inbound message.")
ingest_in now services provider n (some d) = do
  row ← gets (find_domain d)
  domain ← get_or_raise row
  found ← gets (resolve_mailbox domain n)
  ingest_for now services provider domain.id n found

abbrev pub event_outcome : Option ℕ → Option DeliveryEvent → Outcome
event_outcome domain none = ignored domain "No matching outbound message for this delivery event."
event_outcome domain (some e) = processed domain

abbrev pub or_resolved : Option ℕ → Option ℕ → Option ℕ
or_resolved none o = o
or_resolved (some d) o = some d

-- The branches on `parsed.kind`.
unfoldable pub handle_parsed :
    ℕ → Services → ProviderImpl → ℕ → ProviderWebhookLog → ParsedWebhookEvent → Exec Outcome
handle_parsed now services impl provider w (ParsedWebhookEvent.inbound n) = do
  resolved ← gets (impl.resolve_domain w.payload)
  ingest_in now services provider n (or_resolved w.domain resolved)
handle_parsed now services impl provider w (ParsedWebhookEvent.delivery_event n) = do
  event ← create_delivery_event now w.domain n w.id
  pure (event_outcome w.domain event)
handle_parsed now services impl provider w (ParsedWebhookEvent.unknown kind) =
    pure (ignored w.domain (append "Unrecognized event type: " kind))

abbrev pub of_result : {A : Type 0} → Result A → Exec A
of_result (ok a) = pure a
of_result (err e) = raise e

-- The two `save` calls, the first of which leaves `locked_at`.
abbrev pub settled : ℕ → Outcome → ProviderWebhookLog → ProviderWebhookLog
settled now o w = record w {
  status = o.status;
  domain = o.domain;
  error_message = o.error_message;
  processed_at = some now;
  locked_at = none;
}

abbrev pub unprovided : ℕ → ProviderWebhookLog → ProviderWebhookLog
unprovided now w = record w {
  status = ProviderWebhookStatus.ignored;
  error_message = "No provider associated with this webhook.";
  processed_at = some now;
}

abbrev pub process_with :
    ℕ → Services → ProviderImpl → ProviderWebhookLog → Option ℕ → Exec ProviderWebhookLog
process_with now services impl w none = do update_log w.id (unprovided now); pure (unprovided now w)
process_with now services impl w (some provider) = do
  parsed ← of_result (impl.parse_webhook w.payload)
  o ← handle_parsed now services impl provider w parsed
  update_log w.id (settled now o)
  pure (settled now o w)

unfoldable pub process_webhook_log :
    ℕ → Services → ProviderImpl → ProviderWebhookLog → Exec ProviderWebhookLog
process_webhook_log now services impl w = process_with now services impl w w.provider

-- The settings of the webhook tasks: WEBHOOK_LOG_RETRY_STALE_MINUTES in seconds,
-- WEBHOOK_LOG_MAX_ATTEMPTS, WEBHOOK_LOG_PAYLOAD_RETENTION_DAYS in seconds, and
-- DAILY_SEND_LOG_RETENTION_DAYS.
pub record WebhookSettings : Type 0 where
  pub stale_seconds : ℕ
  pub max_attempts : ℕ
  pub payload_retention : ℕ
  pub send_log_retention_days : ℕ

-- `t < now - stale`
abbrev pub is_before : ℕ → ℕ → Option ℕ → Bool
is_before now stale none = false
is_before now stale (some t) = ltb (t + stale) now

-- The filter of the conditional UPDATE.
abbrev pub is_claimable : ℕ → WebhookSettings → ProviderWebhookLog → Bool
is_claimable now config w =
    w.status == ProviderWebhookStatus.pending
    || w.status == ProviderWebhookStatus.failed
    || (w.status == ProviderWebhookStatus.processing
        && is_before now config.stale_seconds w.locked_at)

abbrev pub claimed : ℕ → ProviderWebhookLog → ProviderWebhookLog
claimed now w = record w {
  status = ProviderWebhookStatus.processing;
  locked_at = some now;
  attempt_count = w.attempt_count + 1;
}

-- The UPDATE, and whether it matched.
unfoldable pub claim : ℕ → WebhookSettings → ℕ → Exec Bool
claim now config i s =
    let target = λ (w : ProviderWebhookLog). is_log i w && is_claimable now config w in
    if any target s.webhook_logs
    then (ok true, record s { webhook_logs = update_where target (claimed now) s.webhook_logs })
    else (ok false, s)

-- How the task ends: with the row's status, with no row, or with `self.retry`.
pub data TaskOutcome : Type 0 where
  finished : ProviderWebhookStatus → TaskOutcome
  missing : TaskOutcome
  retried : Exc → TaskOutcome

abbrev status_of : Option ProviderWebhookLog → TaskOutcome
status_of none = TaskOutcome.missing
status_of (some w) = TaskOutcome.finished w.status

abbrev failed : String → ProviderWebhookLog → ProviderWebhookLog
failed message w = record w { status = ProviderWebhookStatus.failed; error_message = message }

-- `except Exception`: `describe` is `str(exc)`.
abbrev fail_log : (Exc → String) → ℕ → Exc → Exec TaskOutcome
fail_log describe i e = do update_log i (failed (describe e)); pure (TaskOutcome.retried e)

abbrev process_claimed : ℕ → Services → ProviderImpl → (Exc → String) → ℕ → Exec TaskOutcome
process_claimed now services impl describe i = do
  row ← gets (find_log i)
  w ← get_or_raise row
  try_except
      (do done ← process_webhook_log now services impl w; pure (TaskOutcome.finished done.status))
      (fail_log describe i)

unfoldable pub process_webhook_log_task :
    ℕ → WebhookSettings → Services → ProviderImpl → (Exc → String) → ℕ → Exec TaskOutcome
process_webhook_log_task now config services impl describe i = do
  won ← claim now config i
  if won then process_claimed now services impl describe i else gets (λ s. status_of (find_log i s))

abbrev is_retryable : ProviderWebhookStatus → Bool
is_retryable status =
    status == ProviderWebhookStatus.pending
    || status == ProviderWebhookStatus.processing
    || status == ProviderWebhookStatus.failed

abbrev is_stale : ℕ → WebhookSettings → ProviderWebhookLog → Bool
is_stale now config w =
    is_retryable w.status
    && ltb w.attempt_count config.max_attempts
    && ((not (is_some w.locked_at) && is_before now config.stale_seconds (some w.received_at))
        || is_before now config.stale_seconds w.locked_at)

unfoldable pub retry_stale_webhook_logs_task : ℕ → WebhookSettings → Exec ℕ
retry_stale_webhook_logs_task now config = do
  stale ← gets (λ s. select (is_stale now config) s.webhook_logs)
  modify (λ s. record s { queue = s.queue ++ map (λ w. Task.process_webhook_log w.id) stale })
  pure (length stale)

abbrev is_blank : Json → Bool
is_blank (Json.obj end) = true
is_blank _ = false

abbrev is_redactable : ℕ → WebhookSettings → ProviderWebhookLog → Bool
is_redactable now config w =
    is_before now config.payload_retention (some w.received_at)
    && not (is_retryable w.status)
    && not (is_blank w.payload && is_blank w.headers)

abbrev redacted : ProviderWebhookLog → ProviderWebhookLog
redacted w = record w { payload = Json.obj end; headers = Json.obj end }

unfoldable pub redact_old_webhook_payloads_task : ℕ → WebhookSettings → Exec ℕ
redact_old_webhook_payloads_task now config = do
  old ← gets (λ s. select (is_redactable now config) s.webhook_logs)
  modify (λ s. record s {
    webhook_logs = update_where (is_redactable now config) redacted s.webhook_logs;
  })
  pure (length old)

abbrev is_past : ℕ → WebhookSettings → DailyDomainSendLog → Bool
is_past today config l = ltb (l.date + config.send_log_retention_days) today

unfoldable pub cleanup_daily_send_logs_task : ℕ → WebhookSettings → Exec ℕ
cleanup_daily_send_logs_task today config = do
  past ← gets (λ s. select (is_past today config) s.send_logs)
  modify (λ s. record s { send_logs = select (λ l. not (is_past today config l)) s.send_logs })
  pure (length past)
