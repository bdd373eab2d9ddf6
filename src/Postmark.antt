-- ===== src/Postmark.antt =====
-- providers/postmark.py: reading the payloads of Postmark. A payload's values have the types that
-- Postmark documents: where the code expects a text, an object or a list, a value of another type,
-- on which Python would raise, reads as an absent one. The email, date and number parsers of
-- Python's library are parameters.
pub mod Parse
pub mod Headers
pub mod Dns
pub mod Checks
pub mod Endpoint
use hedwig.Prelude.Json.{Json, Items, get, truthy}
use hedwig.Prelude.Text.{strip, lower, truthy as text_truthy}
use hedwig.Prelude.{
  Bool, List, Option, String, [], any, append, if◌then◌else◌, length, nat_eq, option_eq, or_else,
  string_eq, ℕ, ◌==◌, ◌||◌, ◌∷◌,
}
use hedwig.Prelude.Decimal.{print}
use hedwig.Tables.{Address, Score}

-- `email.utils.getaddresses` on one text, as pairs of a name and an address; the time in seconds
-- that `parsedate_to_datetime` reads, a naive one as UTC, and none where it raises; `float`.
pub record Parsers : Type 0 where
  pub getaddresses : String → List (String × String)
  pub parsedate : String → Option ℕ
  pub float : String → Option Score

abbrev pub text_of : Json → String
text_of (Json.text s) = s
text_of v = ""

unfoldable pub list_of : Items → List Json
list_of Items.nil = []
list_of (Items.cons v vs) = v ∷ list_of vs

abbrev pub items_of : Json → List Json
items_of (Json.arr vs) = list_of vs
items_of v = []

-- `d.get(k) or ""`
unfoldable pub get_text : String → Json → String
unfolding get
get_text k v = text_of (get k v)

-- `a or b` on texts.
abbrev pub or_text : String → String → String
or_text a b = if text_truthy a then a else b

-- `normalize_email`
unfoldable pub normalize_email : String → String
normalize_email s = lower (strip s)

abbrev row_if : String → String → List Address → List Address
row_if email name rows =
    if text_truthy email then (record { email = email; name = name }) ∷ rows else rows

-- The loop of `postmark_full_to_rows`; the mailbox hash of a row is never read.
unfoldable pub full_to_rows : List Json → List Address
unfolding normalize_email get_text
full_to_rows [] = []
full_to_rows (v ∷ vs) =
    row_if (normalize_email (get_text "Email" v)) (get_text "Name" v) (full_to_rows vs)

-- `address_string_to_rows`
unfoldable pub named_to_rows : List (String × String) → List Address
unfolding normalize_email
named_to_rows [] = []
named_to_rows (p ∷ ps) = row_if (normalize_email p.1) p.0 (named_to_rows ps)

unfoldable pub address_string_to_rows : Parsers → String → List Address
unfolding named_to_rows
address_string_to_rows parsers s = named_to_rows (parsers.getaddresses s)

-- `payload_recipients`
unfoldable pub payload_recipients : Parsers → Json → String → String → List Address
unfolding full_to_rows address_string_to_rows get_text
payload_recipients parsers payload full_key text_key =
    let rows = full_to_rows (items_of (get full_key payload)) in
    if length rows == 0 then address_string_to_rows parsers (get_text text_key payload) else rows

-- `d[k] = v`: a key keeps its place.
unfoldable pub set_key : String → String → List (String × String) → List (String × String)
set_key k v [] = (k, v) ∷ []
set_key k v (h ∷ hs) = if h.0 == k then (k, v) ∷ hs else h ∷ set_key k v hs

unfoldable pub add_headers : List Json → List (String × String) → List (String × String)
unfolding set_key get_text
add_headers [] headers = headers
add_headers (v ∷ vs) headers =
    let name = get_text "Name" v in
    add_headers vs (if text_truthy name then set_key name (get_text "Value" v) headers else headers)

-- `payload_headers_to_dict`
unfoldable pub payload_headers_to_dict : Json → List (String × String)
unfolding add_headers get
payload_headers_to_dict payload = add_headers (items_of (get "Headers" payload)) []

-- `parse_postmark_date`
unfoldable pub parse_postmark_date : Parsers → ℕ → String → ℕ
parse_postmark_date parsers now s = if text_truthy s then or_else (parsers.parsedate s) now else now

abbrev pub one_of : String → List String → Bool
one_of s = any (λ t. t == s)

-- The answer of `event_type_from_payload`, for a record type in lower case.
unfoldable pub event_type_for : String → String
event_type_for t =
    if one_of t ("delivery" ∷ "delivered" ∷ [])
    then "delivered"
    else if one_of t ("bounce" ∷ "hardbounce" ∷ "softbounce" ∷ [])
    then "bounced"
    else if t == "open"
    then "opened"
    else if t == "click"
    then "clicked"
    else if one_of t ("spamcomplaint" ∷ "spam complaint" ∷ [])
    then "complained"
    else if one_of t ("subscriptionchange" ∷ "unsubscribe" ∷ "unsubscribed" ∷ [])
    then "unsubscribed"
    else or_text t "unknown"

unfoldable pub event_type_from_payload : Json → String
unfolding event_type_for get_text
event_type_from_payload payload =
    if lower (get_text "MessageStream" payload) == "inbound"
      || truthy (get "FromFull" payload)
      || truthy (get "TextBody" payload)
    then "inbound"
    else event_type_for (lower (get_text "RecordType" payload))

-- `a or b` on values.
abbrev pub or_value : Json → Json → Json
or_value a b = if truthy a then a else b

-- `str(v)` of a text or a number.
unfoldable pub str : Json → String
unfolding print
str (Json.num n) = print n
str v = text_of v

unfoldable pub provider_event_id_for : Json → String → String
unfolding str
provider_event_id_for payload event_type =
    let raw =
      or_value (get "ID" payload) (or_value (get "MessageID" payload) (get "MessageId" payload)) in
    if truthy raw then append event_type (append ":" (str raw)) else ""
