-- ===== src/Postmark/Endpoint/Replay.antt =====
-- A webhook that is delivered again.
use hedwig.Prelude.Json.{Json, truthy}
use hedwig.Prelude.Text.{truthy as text_truthy}
use hedwig.Prelude.{
  Bool, Bool-cases, List, Option, String, ap, beq_refl, false, first?, inl, inr, nat_eq, none,
  option_eq, refl, select, some, string_eq, sym, true, update_where, ℕ, ◌&&◌, ◌+◌, ◌==◌, ◌∙◌, ◌∷◌,
  ◌≡◌, ◌≢◌,
}
use hedwig.Enums.{provider_type_eq}
use hedwig.Exec.{Exc, Result, ok}
use hedwig.Postmark.{Parsers}
use hedwig.Postmark.Dns.{named}
use hedwig.Postmark.Endpoint.{
  HookResponse, WebhookRequest, accept, accept_verified, after_create, domain_row, is_event_log,
  is_postmark, log_or_skip, new_log, provider_by, receive, receive_for, requested_provider,
  resolve_provider_for_webhook, seen_log, the_only, unrecognized, verify_webhook,
}
use hedwig.Postmark.Parse.{Classified, Kind, classify_webhook, resolve_domain}
use hedwig.Tables.{Db, Domain, EmailProvider, ProviderWebhookLog}
use hedwig.Webhooks.{is_log}

-- The answer to a repeated event: the key of the row that the first one made, and no change.
abbrev pub Duplicate : HookResponse → Db → Result HookResponse × Db → Type 0
Duplicate x s out =
    (y : HookResponse) × (out ≡ (ok y, s)) × (y.id ≡ x.id) × (y.result ≡ "duplicate")

-- What the resolution of a webhook reads.
abbrev registry : Db → List EmailProvider × List Domain
registry s = (s.providers, s.domains)

-- The row of the event is there, under the key that the response gave.
abbrev Recorded : ℕ → Classified → HookResponse → Db → Type 0
Recorded provider c x t =
    (w : ProviderWebhookLog) × (seen_log provider c t ≡ some w) × (w.id ≡ x.id)

id_eq : (a b : HookResponse) → Result.ok a ≡ Result.ok b → a.id ≡ b.id
id_eq a b h = cc

both_hold : {a b : Bool} → a ≡ true → b ≡ true → (a && b) ≡ true
both_hold {a} {b} h k = rw (h, k) refl

module _ (now : ℕ) (r : WebhookRequest) (provider : ℕ) (domain : Option ℕ) (valid : Option Bool)
    (c : Classified) (named : text_truthy c.provider_event_id ≡ true) where
  found_first :
      (w : ProviderWebhookLog) (logs : List ProviderWebhookLog)
      → w.provider ≡ some provider
      → w.provider_event_id ≡ c.provider_event_id
      → first? (is_event_log provider c.provider_event_id) (w ∷ logs) ≡ some w
  found_first w logs a b =
      let here : is_event_log provider c.provider_event_id w ≡ true =
        both_hold ((option_eq.beq_iff w.provider (some provider)).1 a)
          ((string_eq.beq_iff w.provider_event_id c.provider_event_id).1 b) in
      rw here refl

  created-Recorded :
      (k : Kind) (i : ℕ) (s : Db) (x : HookResponse)
      → let w = new_log now i r (some provider) domain c valid in
        let out = after_create now c k w (record s { webhook_logs = w ∷ s.webhook_logs }) in
        out.0 ≡ ok x → Recorded provider c x out.1
  created-Recorded Kind.unknown i s x h =
      let w = unrecognized now c (new_log now i r (some provider) domain c valid) in
      (
        w,
        rw (named, beq_refl i)
            (found_first w (update_where (is_log i) (unrecognized now c) s.webhook_logs) refl refl),
        id_eq _ _ h,
      )
  created-Recorded Kind.inbound i s x h =
      let w = new_log now i r (some provider) domain c valid in
      (w, rw named (found_first w s.webhook_logs refl refl), id_eq _ _ h)
  created-Recorded Kind.delivery_event i s x h =
      let w = new_log now i r (some provider) domain c valid in
      (w, rw named (found_first w s.webhook_logs refl refl), id_eq _ _ h)

  logged-Recorded :
      (o : Option ProviderWebhookLog) (s : Db) (x : HookResponse)
      → seen_log provider c s ≡ o
      → (log_or_skip now r provider domain valid c o s).0 ≡ ok x
      → Recorded provider c x (log_or_skip now r provider domain valid c o s).1
  logged-Recorded (some w) s x seen h = (w, seen, id_eq _ _ h)
  logged-Recorded none s x seen h =
      created-Recorded c.kind s.next_id (record s { next_id = s.next_id + 1 }) x h

module _ (r : WebhookRequest) (p : EmailProvider) where
  accept_again :
      (now : ℕ) (domain : Option ℕ) (valid : Option Bool) (t : Db) (x : HookResponse)
      → Recorded p.id (classify_webhook r.payload) x t
      → Duplicate x t (accept now r p domain valid t)
  accept_again now domain valid t x (w, seen, same) =
      (record { id = w.id; status = w.status; result = "duplicate" }, rw seen refl, same, refl)

  -- What the endpoint does next, when it accepts: the signature holds, or none is needed.
  accepts : Bool → Option Bool → Bool
  accepts debug none = debug
  accepts debug (some b) = b

  accepted :
      (now : ℕ) (debug : Bool) (domain : Option ℕ) (valid : Option Bool) (s : Db)
      → accepts debug valid ≡ true
      → accept_verified now debug r p domain valid s ≡ accept now r p domain valid s
  unfolding accepts
  accepted now true domain none s h = refl
  accepted now false domain none s h = cc
  accepted now debug domain (some true) s h = refl
  accepted now debug domain (some false) s h = cc

  refused :
      (now : ℕ) (debug : Bool) (domain : Option ℕ) (valid : Option Bool) (s : Db) (x : HookResponse)
      → accepts debug valid ≡ false
      → (accept_verified now debug r p domain valid s).0 ≢ ok x
  unfolding accepts
  refused now true domain none s x h = cc
  refused now false domain none s x h = λ k. cc
  refused now debug domain (some true) s x h = cc
  refused now debug domain (some false) s x h = λ k. cc

  after_create-registry :
      (now : ℕ) (c : Classified) (k : Kind) (w : ProviderWebhookLog) (s : Db)
      → registry (after_create now c k w s).1 ≡ registry s
  after_create-registry now c Kind.unknown w s = refl
  after_create-registry now c Kind.inbound w s = refl
  after_create-registry now c Kind.delivery_event w s = refl

  log_or_skip-registry :
      (now : ℕ) (domain : Option ℕ) (valid : Option Bool) (c : Classified)
      (o : Option ProviderWebhookLog) (s : Db)
      → registry (log_or_skip now r p.id domain valid c o s).1 ≡ registry s
  log_or_skip-registry now domain valid c (some w) s = refl
  log_or_skip-registry now domain valid c none s = after_create-registry now c c.kind _ _

-- Resolution reads providers and domains alone.
module _ (read_key : Json → Option ℕ) (parsers : Parsers) (r : WebhookRequest) (s t : Db)
    (same : registry t ≡ registry s) where
  provider_by-same : (o : Option ℕ) → provider_by o t ≡ provider_by o s
  provider_by-same none = refl
  provider_by-same (some i) = rw (ap (λ q. q.0) same) refl

  resolve-same :
      resolve_provider_for_webhook read_key r t ≡ resolve_provider_for_webhook read_key r s
  unfolding resolve_provider_for_webhook
  resolve-same = elim (Bool-cases (truthy (requested_provider r))) [
    | inl e ↦ rw e (provider_by-same (read_key (requested_provider r)))
    | inr e ↦ rw e (ap (λ q. the_only (select is_postmark q.0)) same)
  ]

  domain-same :
      (i : ℕ) → resolve_domain parsers i r.payload t ≡ resolve_domain parsers i r.payload s
  unfolding resolve_domain
  domain-same i = rw (ap (λ q. q.1) same) refl

  row-same : (o : Option ℕ) → domain_row o t ≡ domain_row o s
  row-same none = refl
  row-same (some i) = ap (λ q. first? (λ x. x.id == i) q.1) same

-- Past resolution the endpoint is the guards on the signature.
receive_step :
    (now : ℕ) (debug : Bool) (read_key : Json → Option ℕ) (parsers : Parsers)
    (describe : Exc → String) (r : WebhookRequest) (p : EmailProvider) (t : Db) (d : Option ℕ)
    (v : Option Bool)
    → r.provider_type ≡ "postmark"
    → resolve_provider_for_webhook read_key r t ≡ ok p
    → resolve_domain parsers p.id r.payload t ≡ d
    → verify_webhook r p (domain_row d t) ≡ v
    → receive now debug read_key parsers describe r t ≡ accept_verified now debug r p d v t
unfolding receive
receive_step now debug read_key parsers describe r p t d v postmark resolved dom valid =
    let open_gate : (r.provider_type == "postmark") ≡ true =
      (string_eq.beq_iff r.provider_type "postmark").1 postmark in
    rw open_gate (
      ap (λ o. receive_for now debug parsers r describe o t) resolved
      ∙ ap (λ o. accept_verified now debug r p o (verify_webhook r p (domain_row o t)) t) dom
      ∙ ap (λ o. accept_verified now debug r p d o t) valid)

-- A webhook whose event has an identifier and that was answered, with whatever answer, is answered
-- as a duplicate when it comes again at any time, under the same key, and nothing changes: no
-- second row, and no second task.
pub receive_again :
    (now now' : ℕ) (debug : Bool) (read_key : Json → Option ℕ) (parsers : Parsers)
    (describe : Exc → String) (r : WebhookRequest) (s : Db) (x : HookResponse) (p : EmailProvider)
    → r.provider_type ≡ "postmark"
    → resolve_provider_for_webhook read_key r s ≡ ok p
    → text_truthy (classify_webhook r.payload).provider_event_id ≡ true
    → (receive now debug read_key parsers describe r s).0 ≡ ok x
    → let s' = (receive now debug read_key parsers describe r s).1 in
      Duplicate x s' (receive now' debug read_key parsers describe r s')
unfolding receive
receive_again now now' debug read_key parsers describe r s x p postmark resolved named h =
    let c = classify_webhook r.payload in
    let d = resolve_domain parsers p.id r.payload s in
    let v = verify_webhook r p (domain_row d s) in
    let first =
      receive_step now debug read_key parsers describe r p s d v postmark resolved refl refl in
    elim (Bool-cases (accepts r p debug v)) [
      | inl a ↦
          let e = first ∙ accepted r p now debug d v s a in
          let t : Db = (accept now r p d v s).1 in
          let same = log_or_skip-registry r p now d v c (seen_log p.id c s) s in
          let recorded =
            logged-Recorded now r p.id d v c named (seen_log p.id c s) s x refl
              (sym (ap (λ q. q.0) e) ∙ h) in
          let second =
            receive_step now' debug read_key parsers describe r p t d v postmark
              (resolve-same read_key parsers r s t same ∙ resolved)
              (domain-same read_key parsers r s t same p.id)
              (ap (verify_webhook r p) (row-same read_key parsers r s t same d))
            ∙ accepted r p now' debug d v t a in
          rw e (rw second (accept_again r p now' d v t x recorded))
      | inr a ↦ elim (refused r p now debug d v s x a (sym (ap (λ q. q.0) first) ∙ h)) [ ]
    ]
