-- ===== src/Postmark/Endpoint/Guarded.antt =====
-- What the endpoint of webhooks lets through.
use hedwig.Prelude.Json.{Json}
use hedwig.Prelude.Text.{truthy as text_truthy}
use hedwig.Prelude.{
  Bool, Bool-cases, List, Option, String, ap, arith, false, inl, inr, is_some, nat_eq, option_eq,
  refl, select, string_eq, ℕ, ◌&&◌, ◌==◌, ◌≡◌,
}
use hedwig.Enums.{provider_type_eq}
use hedwig.Exec.{Exc, Result, err, ok}
use hedwig.Postmark.{Parsers}
use hedwig.Postmark.Endpoint.{
  WebhookRequest, accept_verified, domain_row, expected_secret, ignored_resolution_response,
  receive, receive_for, resolve_provider_for_webhook, supplied_secret, verify_webhook,
}
use hedwig.Postmark.Parse.{resolve_domain}
use hedwig.Tables.{Db, Domain, EmailProvider, ProviderWebhookLog, Task}

-- The rows that a provider is named in, and the Celery queue.
abbrev pub trusted : Db → List ProviderWebhookLog × List Task
trusted s = (select (λ w. is_some w.provider) s.webhook_logs, s.queue)

-- The request carries the secret that is configured for the provider or its domain.
abbrev pub is_authentic : WebhookRequest → EmailProvider → Option Domain → Bool
is_authentic r p d = text_truthy (expected_secret p d) && supplied_secret r == expected_secret p d

module _ (now : ℕ) (r : WebhookRequest) where
  ignored_untrusted :
      (message : String) (s : Db)
      → trusted (ignored_resolution_response now r message s).1 ≡ trusted s
  unfolding ignored_resolution_response
  ignored_untrusted message s = refl

  unsigned_refused :
      (p : EmailProvider) (domain : Option ℕ) (d : Option Domain) (s : Db)
      → is_authentic r p d ≡ false
      → (accept_verified now false r p domain (verify_webhook r p d) s).1 ≡ s
  unfolding verify_webhook
  unsigned_refused p domain d s h = elim (Bool-cases (text_truthy (expected_secret p d))) [
    | inl e ↦
        let wrong : (supplied_secret r == expected_secret p d) ≡ false = ground arith in
        rw (e, wrong) refl
    | inr e ↦ rw e refl
  ]

-- Outside debug mode a webhook that does not carry the configured secret, or for whose provider and
-- domain none is configured, or whose provider cannot be resolved, makes no row that names a
-- provider, changes no such row, and queues no task.
pub receive-trusted :
    (now : ℕ) (read_key : Json → Option ℕ) (parsers : Parsers) (describe : Exc → String)
    (r : WebhookRequest) (s : Db)
    → ((p : EmailProvider)
        → resolve_provider_for_webhook read_key r s ≡ ok p
        → is_authentic r p (domain_row (resolve_domain parsers p.id r.payload s) s) ≡ false)
    → trusted (receive now false read_key parsers describe r s).1 ≡ trusted s
unfolding receive ignored_resolution_response
receive-trusted now read_key parsers describe r s h =
    elim (Bool-cases (r.provider_type == "postmark")) [
      | inr e ↦ rw e refl
      | inl e ↦ rw e (resolved_cases (resolve_provider_for_webhook read_key r s) h)
    ]
  where
    resolved_cases :
        (o : Result EmailProvider)
        → ((p : EmailProvider)
            → o ≡ ok p
            → is_authentic r p (domain_row (resolve_domain parsers p.id r.payload s) s) ≡ false)
        → trusted (receive_for now false parsers r describe o s).1 ≡ trusted s
    resolved_cases (err x) g = refl
    resolved_cases (ok p) g = ap trusted (
        unsigned_refused now r p (resolve_domain parsers p.id r.payload s)
          (domain_row (resolve_domain parsers p.id r.payload s) s) s (g p refl))
