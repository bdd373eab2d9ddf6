-- ===== src/Tests/Payloads.antt =====
-- The properties of Postmark's payloads, of DNS checks and of accepted requests, at the office.
use hedwig.Prelude.Json.{Json, Items, end, field, get, truthy}
use hedwig.Prelude.Text.{lower, strip, truthy as text_truthy}
use hedwig.Prelude.{
  String, [], all, arith, false, length, nat_eq, none, not, option_eq, refl, some, string_eq, sym,
  true, ◌&&◌, ◌==◌, ◌∷◌, ◌≡◌, ◌≢◌,
}
use hedwig.Access.{User}
use hedwig.Enums.{
  DomainStatus, ProviderWebhookStatus, domain_status_eq, email_status_eq, event_type_eq,
  provider_webhook_status_eq, send_attempt_status_eq,
}
use hedwig.Exec.{ok}
use hedwig.Outbound.Compose.{Composed}
use hedwig.Postmark.{
  Parsers, address_string_to_rows, event_type_from_payload, full_to_rows, payload_headers_to_dict,
  provider_event_id_for, str,
}
use hedwig.Postmark.Dns.{
  DomainsApi, Reply, Search, apply_domain_response, domain_response, find_from,
}
use hedwig.Postmark.Dns.Pages.{AtMost, find_from-terminates}
use hedwig.Postmark.Dns.Verified.{apply_domain_response-verified, is_verified_row, rows_of}
use hedwig.Postmark.Endpoint.{
  HookResponse, WebhookRequest, domain_row, receive, resolve_provider_for_webhook, verify_webhook,
}
use hedwig.Postmark.Endpoint.Guarded.{is_authentic, receive-trusted, trusted}
use hedwig.Postmark.Endpoint.Replay.{Duplicate, receive_again}
use hedwig.Postmark.Headers.{request_payload, sent_headers}
use hedwig.Postmark.Headers.RoundTrip.{payload_headers_to_dict-request_payload}
use hedwig.Postmark.Parse.{classify_webhook, resolve_domain, then_result}
use hedwig.Prelude.Base64.{decoded_size}
use hedwig.Prelude.Sort.{sort}
use hedwig.Rules.Forwarding.{header}
use hedwig.Sending.Dispatch.{find_domain}
use hedwig.Sending.Suppression.{suppressed_emails}
use hedwig.Serializers.{AddressInput, AttachmentInput, SendRequest, item_of, refuse_if}
use hedwig.Serializers.Accepted.{Acceptable, ok_inv, validate-Acceptable}
use hedwig.Serializers.Validate.{Validators, composed, max_recipients, validate}
use hedwig.Tables.{Db, Domain, EmailMessage, EmailProvider}
use hedwig.Tests.Office.{ann, attempt, bob_address, domain, letter, office, provider}

-- Texts are one address; dates and scores are not read.
abbrev parsers : Parsers
parsers = record { getaddresses = λ s. ("", s) ∷ []; parsedate = λ s. none; float = λ s. none }

abbrev opened : Json
opened = Json.obj (field "RecordType" (Json.text "Open") (field "MessageID" (Json.text "p1") end))

abbrev reply_letter : EmailMessage
reply_letter = record letter {
  in_reply_to = "<3@x.y>";
  raw_headers = ("X-Hedwig-Forward-Depth", "1") ∷ [];
}

payload_headers_to_dict-request_payload_example :
    payload_headers_to_dict (request_payload str (λ i. "u") reply_letter attempt Items.nil)
    ≡ sent_headers reply_letter
unfolding text_truthy
payload_headers_to_dict-request_payload_example =
    payload_headers_to_dict-request_payload str (λ i. "u") reply_letter attempt Items.nil
      (refl, refl, tt)

abbrev verified_body : Json
verified_body = Json.obj (
    field "ID" (Json.num 7) (
      field "SPFHost" (Json.text "a.b")
        (field "SPFTextValue" (Json.text "v=spf1") (field "SPFVerified" (Json.bool true) end))))

apply_domain_response-verified_example :
    let s' = (apply_domain_response 1 domain verified_body office).1 in
    (x : Domain) × (find_domain 1 s' ≡ some x)
    × ((x.status == DomainStatus.verified)
        ≡ (not (length (rows_of 1 s') == 0) && all is_verified_row (rows_of 1 s')))
apply_domain_response-verified_example =
    apply_domain_response-verified 1 domain verified_body office refl

-- An account without domains.
abbrev no_domains : Json
no_domains = Json.obj (field "TotalCount" (Json.num 0) end)

abbrev empty_account : DomainsApi
empty_account = record {
  create_domain = λ token name. Reply.down "";
  get_domain = λ token i. Reply.down "";
  list_domains = λ token offset. Reply.reply 200 (some no_domains) "";
  recheck_dkim = λ token i. Reply.down "";
  recheck_return_path = λ token i. Reply.down "";
  get_server = λ token. Reply.down "";
}

few : AtMost empty_account "account" 0
unfolding domain_response get text_truthy truthy
few offset body e = rw (sym (ok_inv no_domains body e)) (omega arith)

find_from-terminates_example : find_from 1 empty_account "account" "a.b" 0 ≢ Search.unfinished
find_from-terminates_example = find_from-terminates empty_account "account" "a.b" 0 few

abbrev hook : String → WebhookRequest
hook secret = record {
  provider_type = "postmark";
  headers = ("X-Hedwig-Webhook-Secret", secret) ∷ [];
  query = [];
  payload = opened;
}

abbrev guarded_provider : EmailProvider
guarded_provider = record provider { webhook_signing_secret = "secret" }

abbrev guarded_office : Db
guarded_office = record office { providers = guarded_provider ∷ [] }

guess_refused :
    (p : EmailProvider)
    → resolve_provider_for_webhook (λ v. none) (hook "guess") guarded_office ≡ ok p
    → is_authentic
        (hook "guess")
        p
        (domain_row (resolve_domain parsers p.id opened guarded_office) guarded_office)
      ≡ false
unfolding resolve_provider_for_webhook truthy header get classify_webhook provider_event_id_for
    event_type_from_payload lower receive verify_webhook resolve_domain sort full_to_rows
    address_string_to_rows strip
guess_refused p e = rw (sym (ok_inv guarded_provider p e)) refl

receive-trusted_example :
    trusted (receive 1 false (λ v. none) parsers (λ e. "") (hook "guess") guarded_office).1
    ≡ trusted guarded_office
receive-trusted_example =
    receive-trusted 1 (λ v. none) parsers (λ e. "") (hook "guess") guarded_office guess_refused

abbrev answer : HookResponse
answer = record { id = 100; status = ProviderWebhookStatus.pending; result = "pending" }

receive_again_example :
    let first = receive 1 false (λ v. none) parsers (λ e. "") (hook "secret") guarded_office in
    Duplicate answer first.1 (receive 2 false (λ v. none) parsers (λ e. "") (hook "secret") first.1)
unfolding resolve_provider_for_webhook truthy header get classify_webhook provider_event_id_for
    event_type_from_payload lower receive verify_webhook resolve_domain sort full_to_rows
    address_string_to_rows strip
receive_again_example =
    receive_again 1 2 false (λ v. none) parsers (λ e. "") (hook "secret") guarded_office answer
      guarded_provider refl refl refl refl

abbrev validators : Validators
validators = record { email_field = λ s. ok s; dumped_size = λ fs. 2; capabilities = Json.null }

abbrev request : SendRequest
request = record {
  mailbox = ann;
  sender_identity = none;
  to = some (AddressInput.plain "Bob@x.y" ∷ []);
  to_addresses = none;
  cc = none;
  cc_addresses = none;
  bcc = none;
  bcc_addresses = none;
  subject = "hi";
  body_text = "x";
  body_html = "";
  reply_to = "";
  in_reply_to = "";
  thread = none;
  reply_to_message = none;
  metadata = Json.null;
  scheduled_at = some 5;
  attachments = AttachmentInput.attachment "f" "" "eA==" "" ∷ [];
}

abbrev writer : User
writer = record { id = 5; is_staff = false; is_superuser = false }

abbrev arguments : Composed
arguments =
    composed writer request (bob_address ∷ [], [], []) (Json.obj end) (some 5)
      (item_of "f" "" "eA==" "" ∷ [])

validate-Acceptable_example : Acceptable 1 validators request office arguments
unfolding validate then_result truthy refuse_if max_recipients get suppressed_emails strip
    decoded_size lower
validate-Acceptable_example = validate-Acceptable 1 validators writer request office arguments refl
