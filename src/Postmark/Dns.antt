-- ===== src/Postmark/Dns.antt =====
-- The registration of domains of providers/postmark.py and the health and DNS tasks of
-- providers/tasks.py.
use hedwig.Prelude.Json.{Json, Fields, get, truthy}
use hedwig.Prelude.Text.{lower, contains, prefix, truthy as text_truthy}
pub mod Records
pub mod Verified
pub mod Pages
use hedwig.Prelude.{
  Bool, List, Option, String, [], all, any, false, first?, if◌then◌else◌, leb, nat_eq, none, not,
  option_eq, select, some, string_eq, suc, true, update_where, zero, ℕ, ◌&&◌, ◌++◌, ◌+◌, ◌==◌, ◌||◌,
  ◌∷◌,
}
use hedwig.Enums.{
  DnsRecordStatus, DnsRecordType, DomainStatus, dns_record_status_eq, dns_record_type_eq,
  domain_status_eq,
}
use hedwig.Exec.{Exc, Exec, Result, err, ok, raise, ◌>>=◌, ◌>>◌}
use hedwig.Postmark.{get_text, items_of, or_text, str}
use hedwig.Tables.{Domain, DomainDnsRecord, EmailProvider}
use hedwig.Webhooks.{of_result}

-- How a request to Postmark's API for domains or for the server ends: with `RequestException`, or
-- with a status, a body that is JSON or not, and its text.
pub data Reply : Type 0 where
  down : String → Reply
  reply : ℕ → Option Json → String → Reply

-- The requests, each with the account's or the server's token.
pub record DomainsApi : Type 0 where
  pub create_domain : String → String → Reply
  pub get_domain : String → String → Reply
  -- The page of 300 entries from an offset on.
  pub list_domains : String → ℕ → Reply
  pub recheck_dkim : String → String → Reply
  pub recheck_return_path : String → String → Reply
  pub get_server : String → Reply

abbrev pub message_or : String → Json → String
message_or text body = elim (get "Message" body) [ Json.text m ↦ m | _ ↦ text ]

-- `_domain_response`
unfoldable pub domain_response : Reply → Result Json
domain_response (Reply.down e) = err (Exc.request_error e)
domain_response (Reply.reply status none text) =
    err (Exc.validation_error "Postmark returned a non-JSON response.")
domain_response (Reply.reply status (some body) text) =
    if leb 400 status || truthy (get "ErrorCode" body)
    then err (Exc.validation_error (prefix 500 (message_or text body)))
    else ok body

-- `_account_headers` comes before each request.
abbrev with_account : String → (String → Reply) → Result Json
with_account token request =
    if not (text_truthy token)
    then err (
        Exc.validation_error
          "Postmark provider is missing an account token (credentials.account_token) required for domain management.")
    else domain_response (request token)

abbrev pub number_of : Json → ℕ
number_of (Json.num n) = n
number_of v = 0

-- How `find_domain_by_name` ends, or that its fuel was too little.
pub data Search : Type 0 where
  found : Json → Search
  absent : Search
  failed : Exc → Search
  unfinished : Search

abbrev pub named : String → Json → Bool
named name entry = lower (get_text "Name" entry) == lower name

abbrev pub page : DomainsApi → String → ℕ → Result Json
page api token offset = with_account token (λ t. api.list_domains t offset)

abbrev pub on_entry : Option Json → Bool → Search → Search
on_entry (some entry) is_last rest = Search.found entry
on_entry none true rest = Search.absent
on_entry none false rest = rest

abbrev pub on_page : String → ℕ → Result Json → Search → Search
on_page name offset (err e) rest = Search.failed e
on_page name offset (ok body) rest =
    on_entry (first? (named name) (items_of (get "Domains" body)))
      (leb (number_of (get "TotalCount" body)) (offset + 300)) rest

-- The loop of `find_domain_by_name`.
unfoldable pub find_from : ℕ → DomainsApi → String → String → ℕ → Search
find_from zero api token name offset = Search.unfinished
find_from (suc fuel) api token name offset =
    let rest = find_from fuel api token name (offset + 300) in
    on_page name offset (page api token offset) rest

-- A tuple of `record_specs`.
pub record Spec : Type 0 where
  pub record_type : DnsRecordType
  pub host : String
  pub value : String
  pub purpose : String
  pub verified : Bool

abbrev spec_if : DnsRecordType → String → String → String → Bool → List Spec
spec_if kind purpose host value verified =
    if text_truthy host && text_truthy value
    then (record {
      record_type = kind;
      host = host;
      value = value;
      purpose = purpose;
      verified = verified;
    })
      ∷ []
    else []

unfoldable pub record_specs : Json → List Spec
record_specs body =
    spec_if DnsRecordType.txt "dkim"
      (or_text (get_text "DKIMPendingHost" body) (get_text "DKIMHost" body))
      (or_text (get_text "DKIMPendingTextValue" body) (get_text "DKIMTextValue" body))
      (truthy (get "DKIMVerified" body))
    ++ spec_if DnsRecordType.cname "return_path" (get_text "ReturnPathDomain" body)
        (get_text "ReturnPathDomainCNAMEValue" body) (truthy (get "ReturnPathDomainVerified" body))
    ++ spec_if DnsRecordType.txt "spf" (get_text "SPFHost" body) (get_text "SPFTextValue" body)
        (truthy (get "SPFVerified" body))

-- The lookup of `update_or_create`, on the key of `unique_dns_requirement_per_domain`.
abbrev pub is_row_of : ℕ → Spec → DomainDnsRecord → Bool
is_row_of d x r =
    r.domain == d
    && r.record_type == x.record_type
    && r.host == x.host
    && r.value == x.value
    && r.purpose == x.purpose

abbrev pub status_for : Spec → DnsRecordStatus
status_for x = if x.verified then DnsRecordStatus.verified else DnsRecordStatus.pending

abbrev pub checked_row : ℕ → Spec → DomainDnsRecord → DomainDnsRecord
checked_row now x r = record r {
  status = status_for x;
  last_checked_at = some now;
  last_error = "";
}

abbrev pub new_row : ℕ → ℕ → Spec → DomainDnsRecord
new_row now d x = record {
  domain = d;
  record_type = x.record_type;
  host = x.host;
  value = x.value;
  purpose = x.purpose;
  status = status_for x;
  last_checked_at = some now;
  last_error = "";
}

abbrev pub update_or_create : ℕ → ℕ → Spec → List DomainDnsRecord → List DomainDnsRecord
update_or_create now d x rows =
    if any (is_row_of d x) rows
    then update_where (is_row_of d x) (checked_row now x) rows
    else new_row now d x ∷ rows

unfoldable pub write_specs : ℕ → ℕ → List Spec → List DomainDnsRecord → List DomainDnsRecord
write_specs now d [] rows = rows
write_specs now d (x ∷ xs) rows = write_specs now d xs (update_or_create now d x rows)

-- The rows whose key one of the specs has are those of `kept_ids`.
abbrev pub is_kept : ℕ → List Spec → DomainDnsRecord → Bool
is_kept d specs r = not (r.domain == d) || any (λ x. is_row_of d x r) specs

abbrev pub all_verified : List Spec → Bool
all_verified [] = false
all_verified (x ∷ xs) = all (λ y. y.verified) (x ∷ xs)

abbrev verified_since : ℕ → Bool → Option ℕ → Option ℕ
verified_since now true none = some now
verified_since now b o = o

abbrev pub applied : ℕ → Json → List Spec → Domain → Domain
applied now body specs d = record d {
  provider_domain_id = or_text (str (get "ID" body)) d.provider_domain_id;
  last_error = "";
  dns_checked_at = some now;
  status = if all_verified specs then DomainStatus.verified else DomainStatus.pending;
  verified_at = verified_since now (all_verified specs) d.verified_at;
}

-- `_apply_domain_response`; the copy of `data` in the row is left out.
unfoldable pub apply_domain_response : ℕ → Domain → Json → Exec (Unit {0})
apply_domain_response now domain body s =
    let specs = record_specs body in
    (
      ok tt,
      record s {
        dns_records =
            select (is_kept domain.id specs) (write_specs now domain.id specs s.dns_records);
        domains = update_where (λ x. x.id == domain.id) (applied now body specs) s.domains;
      },
    )

abbrev adopt : ℕ → DomainsApi → String → Domain → Exc → Search → Exec (Unit {0})
adopt now api token domain original (Search.found entry) = do
  body ← of_result (with_account token (λ t. api.get_domain t (str (get "ID" entry))))
  apply_domain_response now domain body
adopt now api token domain original (Search.failed e) = raise e
adopt now api token domain original _ = raise original

abbrev on_refusal : ℕ → ℕ → DomainsApi → String → Domain → Exc → Exec (Unit {0})
on_refusal fuel now api token domain (Exc.validation_error message) =
    if not (contains "already exists" (lower message))
    then raise (Exc.validation_error message)
    else adopt now api token domain (Exc.validation_error message)
        (find_from fuel api token domain.name 0)
on_refusal fuel now api token domain e = raise e

-- What follows `create_domain`.
abbrev after_create : ℕ → ℕ → DomainsApi → String → Domain → Result Json → Exec (Unit {0})
after_create fuel now api token domain (ok body) = apply_domain_response now domain body
after_create fuel now api token domain (err e) = on_refusal fuel now api token domain e

-- `PostmarkClient(provider)`
abbrev with_client : EmailProvider → Exec (Unit {0}) → Exec (Unit {0})
with_client provider run =
    if not (text_truthy provider.server_token)
    then raise (Exc.validation_error "Postmark provider is missing a server token.")
    else run

-- `fuel` bounds the pages that are searched.
unfoldable pub register_domain : ℕ → ℕ → DomainsApi → EmailProvider → Domain → Exec (Unit {0})
unfolding find_from
register_domain fuel now api provider domain = with_client provider (
    after_create fuel now api provider.account_token domain
      (with_account provider.account_token (λ t. api.create_domain t domain.name)))

unfoldable pub over : Fields → Fields → Fields
over Fields.end a = a
over (Fields.field k v b) a = Fields.field k v (over b a)

-- `a.update(b)`: the keys of `b` are found first.
abbrev merged : Json → Json → Json
merged (Json.obj a) (Json.obj b) = Json.obj (over b a)
merged a b = a

abbrev recheck : ℕ → DomainsApi → String → Domain → Exec (Unit {0})
recheck now api token domain = do
  dkim ← of_result (with_account token (λ t. api.recheck_dkim t domain.provider_domain_id))
  path ← of_result (with_account token (λ t. api.recheck_return_path t domain.provider_domain_id))
  apply_domain_response now domain (merged dkim path)

unfoldable pub check_domain : ℕ → DomainsApi → EmailProvider → Domain → Exec (Unit {0})
unfolding over
check_domain now api provider domain =
    with_client provider (recheck now api provider.account_token domain)
