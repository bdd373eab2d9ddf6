-- ===== src/Postmark/Endpoint.antt =====
-- `ProviderWebhookViewSet` of providers/views.py, with `resolve_provider_for_webhook` and
-- `verify_webhook` of providers/postmark.py. Throttling is left out.
use hedwig.Prelude.Json.{Json, get, truthy, field, end, Fields}
use hedwig.Prelude.Text.{lower, truthy as text_truthy}
pub mod Guarded
pub mod Replay
use hedwig.Prelude.{
  Bool, List, Option, String, [], append, false, first?, if◌then◌else◌, nat_eq, none, not,
  option_eq, or_else, select, some, string_eq, true, ℕ, ◌&&◌, ◌++◌, ◌==◌, ◌∷◌,
}
use hedwig.Api.{found_or_404}
use hedwig.Enums.{ProviderType, ProviderWebhookStatus, provider_type_eq, provider_webhook_status_eq}
use hedwig.Exec.{Exc, Exec, Result, err, gets, modify, ok, pure, raise, ◌>>=◌, ◌>>◌}
use hedwig.Ingest.Threads.{fresh}
use hedwig.Postmark.{Parsers, one_of, or_text, or_value}
use hedwig.Postmark.Headers.{pairs_json}
use hedwig.Postmark.Parse.{Classified, Kind, classify_webhook, resolve_domain}
use hedwig.Rules.Forwarding.{header}
use hedwig.Sending.Dispatch.{find_domain}
use hedwig.Tables.{Db, Domain, EmailProvider, ProviderWebhookLog, Task}
use hedwig.Webhooks.{find_log, update_log}

-- `request.headers`, its query parameters and its body; `read_key` reads the text of a primary key.
pub record WebhookRequest : Type 0 where
  pub provider_type : String
  pub headers : List (String × String)
  pub query : List (String × String)
  pub payload : Json

-- `request.headers.get(name)`, which ignores case.
abbrev pub header_named : String → List (String × String) → String
header_named name hs = elim (first? (λ h. lower h.0 == lower name) hs) [ none ↦ "" | some h ↦ h.1 ]

abbrev safe_webhook_headers : List String
safe_webhook_headers =
    "content-type" ∷ "content-length" ∷ "user-agent" ∷ "accept" ∷ "accept-encoding"
    ∷ "accept-language" ∷ "host" ∷ "x-forwarded-for" ∷ "x-forwarded-proto" ∷ "x-forwarded-host"
    ∷ "x-request-id" ∷ []

-- `_sanitized_webhook_headers`
unfoldable pub sanitized_webhook_headers : WebhookRequest → List (String × String)
sanitized_webhook_headers r = select (λ h. one_of (lower h.0) safe_webhook_headers) r.headers

abbrev pub headers_json : List (String × String) → Json
headers_json hs = Json.obj (pairs_json hs)

abbrev pub is_postmark : EmailProvider → Bool
is_postmark p = p.provider_type == ProviderType.postmark && p.is_active

abbrev pub requested_provider : WebhookRequest → Json
requested_provider r =
    or_value (Json.text (or_else (header "provider" r.query) "")) (get "HedwigProviderID" r.payload)

abbrev ambiguous : String
ambiguous = "Postmark provider is ambiguous. Pass ?provider=<provider_id>."

abbrev pub the_only : List EmailProvider → Result EmailProvider
the_only (p ∷ []) = ok p
the_only ps = err (Exc.validation_error ambiguous)

abbrev found_provider : Option EmailProvider → Result EmailProvider
found_provider none = err Exc.does_not_exist
found_provider (some p) = ok p

-- A text that is no primary key raises `ValidationError`.
abbrev pub provider_by : Option ℕ → Db → Result EmailProvider
provider_by none s = err (Exc.validation_error "is not a valid UUID.")
provider_by (some i) s = found_provider (first? (λ p. is_postmark p && p.id == i) s.providers)

unfoldable pub resolve_provider_for_webhook :
    (Json → Option ℕ) → WebhookRequest → Db → Result EmailProvider
resolve_provider_for_webhook read_key r s =
    if truthy (requested_provider r)
    then provider_by (read_key (requested_provider r)) s
    else the_only (select is_postmark s.providers)

abbrev secret_of : Option Domain → String
secret_of none = ""
secret_of (some d) = d.webhook_secret

abbrev pub expected_secret : EmailProvider → Option Domain → String
expected_secret p d = or_text (secret_of d) p.webhook_signing_secret

abbrev pub supplied_secret : WebhookRequest → String
supplied_secret r = or_text (header_named "X-Hedwig-Webhook-Secret" r.headers) (
    or_text (header_named "X-Hookdeck-Webhook-Secret" r.headers)
      (or_else (header "secret" r.query) ""))

-- None where no secret is configured.
unfoldable pub verify_webhook : WebhookRequest → EmailProvider → Option Domain → Option Bool
verify_webhook r p d =
    let expected = expected_secret p d in
    if not (text_truthy expected) then none else some (supplied_secret r == expected)

abbrev pub new_log :
    ℕ → ℕ → WebhookRequest → Option ℕ → Option ℕ → Classified → Option Bool → ProviderWebhookLog
new_log now i r provider domain c valid = record {
  id = i;
  provider = provider;
  domain = domain;
  provider_event_id = c.provider_event_id;
  event_type = c.event_type;
  headers = headers_json (sanitized_webhook_headers r);
  payload = r.payload;
  status = ProviderWebhookStatus.pending;
  signature_valid = valid;
  error_message = "";
  attempt_count = 0;
  received_at = now;
  locked_at = none;
  processed_at = none;
}

abbrev pub insert_log : ProviderWebhookLog → Exec (Unit {0})
insert_log w = modify (λ s. record s { webhook_logs = w ∷ s.webhook_logs })

-- What the response says: the row's key and status, and `result`.
pub record HookResponse : Type 0 where
  pub id : ℕ
  pub status : ProviderWebhookStatus
  pub result : String

abbrev unresolved : Classified
unresolved = record {
  kind = Kind.unknown;
  event_type = "provider_resolution_failed";
  provider_event_id = "";
}

abbrev unresolved_log : ℕ → ℕ → WebhookRequest → String → ProviderWebhookLog
unresolved_log now i r message = record (new_log now i r none none unresolved none) {
  status = ProviderWebhookStatus.ignored;
  error_message = message;
  processed_at = some now;
}

unfoldable pub ignored_resolution_response : ℕ → WebhookRequest → String → Exec HookResponse
unfolding sanitized_webhook_headers
ignored_resolution_response now r message = do
  i ← fresh
  insert_log (unresolved_log now i r message)
  pure (record { id = i; status = ProviderWebhookStatus.ignored; result = "ignored" })

-- The lookup of `get_or_create`.
abbrev pub is_event_log : ℕ → String → ProviderWebhookLog → Bool
is_event_log provider event_id w = w.provider == some provider && w.provider_event_id == event_id

abbrev pub seen_log : ℕ → Classified → Db → Option ProviderWebhookLog
seen_log provider c s =
    if text_truthy c.provider_event_id
    then first? (is_event_log provider c.provider_event_id) s.webhook_logs
    else none

abbrev pub unrecognized : ℕ → Classified → ProviderWebhookLog → ProviderWebhookLog
unrecognized now c w = record w {
  status = ProviderWebhookStatus.ignored;
  error_message = append "Unrecognized event type: " c.event_type;
  processed_at = some now;
}

abbrev pub after_create : ℕ → Classified → Kind → ProviderWebhookLog → Exec HookResponse
after_create now c Kind.unknown w = do
  update_log w.id (unrecognized now c)
  pure (record { id = w.id; status = ProviderWebhookStatus.ignored; result = "ignored" })
after_create now c _ w = do
  modify (λ s. record s { queue = s.queue ++ (Task.process_webhook_log w.id ∷ []) })
  pure (record { id = w.id; status = w.status; result = "pending" })

abbrev pub log_or_skip :
    ℕ
    → WebhookRequest
    → ℕ
    → Option ℕ
    → Option Bool
    → Classified
    → Option ProviderWebhookLog
    → Exec HookResponse
log_or_skip now r provider domain valid c (some w) =
    pure (record { id = w.id; status = w.status; result = "duplicate" })
log_or_skip now r provider domain valid c none = do
  i ← fresh
  insert_log (new_log now i r (some provider) domain c valid)
  after_create now c c.kind (new_log now i r (some provider) domain c valid)

abbrev pub accept : ℕ → WebhookRequest → EmailProvider → Option ℕ → Option Bool → Exec HookResponse
accept now r p domain valid = do
  seen ← gets (seen_log p.id (classify_webhook r.payload))
  log_or_skip now r p.id domain valid (classify_webhook r.payload) seen

abbrev pub no_secret : String
no_secret = "No webhook secret configured for this provider/domain."

-- The two guards on the signature.
abbrev pub accept_verified :
    ℕ → Bool → WebhookRequest → EmailProvider → Option ℕ → Option Bool → Exec HookResponse
accept_verified now debug r p domain (some false) =
    raise (Exc.permission_denied "Invalid webhook signature.")
accept_verified now debug r p domain none =
    if not debug then raise (Exc.permission_denied no_secret) else accept now r p domain none
accept_verified now debug r p domain (some true) = accept now r p domain (some true)

abbrev pub domain_row : Option ℕ → Db → Option Domain
domain_row none s = none
domain_row (some d) s = find_domain d s

abbrev pub receive_for :
    ℕ → Bool → Parsers → WebhookRequest → (Exc → String) → Result EmailProvider → Exec HookResponse
receive_for now debug parsers r describe (err e) = ignored_resolution_response now r (describe e)
receive_for now debug parsers r describe (ok p) = do
  domain ← gets (resolve_domain parsers p.id r.payload)
  row ← gets (domain_row domain)
  accept_verified now debug r p domain (verify_webhook r p row)

-- `create`; `describe` is the text of an exception, and a provider type without an implementation
-- is one that cannot be resolved.
unfoldable pub receive :
    ℕ → Bool → (Json → Option ℕ) → Parsers → (Exc → String) → WebhookRequest → Exec HookResponse
receive now debug read_key parsers describe r =
    if not (r.provider_type == "postmark")
    then ignored_resolution_response now r
        (append "No provider implementation registered for '" (append r.provider_type "'."))
    else do
      resolved ← gets (resolve_provider_for_webhook read_key r)
      receive_for now debug parsers r describe resolved

abbrev pub requeued : ProviderWebhookLog → ProviderWebhookLog
requeued w = record w {
  status = ProviderWebhookStatus.pending;
  error_message = "";
  locked_at = none;
  processed_at = none;
}

-- The action `process` on a log.
unfoldable pub process : ℕ → Exec (Unit {0})
process i = do
  found ← gets (find_log i)
  w ← found_or_404 found
  update_log w.id requeued
  modify (λ s. record s { queue = s.queue ++ (Task.process_webhook_log w.id ∷ []) })
