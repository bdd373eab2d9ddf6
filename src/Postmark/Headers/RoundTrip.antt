-- ===== src/Postmark/Headers/RoundTrip.antt =====
-- Headers written into a payload and read from one.
use hedwig.Prelude.Json.{get, get_field}
use hedwig.Prelude.Text.{truthy as text_truthy}
use mathlib.Core.List.{append-nil, append_assoc}
use hedwig.Prelude.{
  Bool, Bool-cases, List, Option, String, [], all, any, any-append, ap, arith, beq_comm, false,
  if◌then◌else◌, inl, inr, nat_eq, none, not, option_eq, or_else, refl, some, string_eq, sym, true,
  ℕ, ◌++◌, ◌==◌, ◌||◌, ◌∙◌, ◌∷◌, ◌≡◌,
}
use hedwig.Postmark.{add_headers, get_text, items_of, list_of, payload_headers_to_dict, set_key}
use hedwig.Postmark.Dns.{named}
use hedwig.Postmark.Headers.{
  OptionalField, attachments_field, header_items, headers_field, optional_fields, request_payload,
  sent_headers, set_if, with_fields,
}
use hedwig.Prelude.Json.{Fields, Items, Json}
use hedwig.Tables.{EmailMessage, OutboundSendAttempt}

abbrev pub Dict : Type 0
Dict = List (String × String)

abbrev pub has_key : String → Dict → Bool
has_key k = any (λ h. h.0 == k)

-- The keys of a dict are distinct, and here none is the empty text.
abbrev pub Keyed : Dict → Type 0
Keyed [] = Unit
Keyed (h ∷ hs) = (text_truthy h.0 ≡ true) × (has_key h.0 hs ≡ false) × Keyed hs

-- A new key is added at the end.
set_key-new : (k v : String) (d : Dict) → has_key k d ≡ false → set_key k v d ≡ d ++ ((k, v) ∷ [])
unfolding set_key
set_key-new k v [] h = refl
set_key-new k v (x ∷ d) h =
    let e : (x.0 == k) ≡ false = ground arith in
    rw e (ap (λ xs. x ∷ xs) (set_key-new k v d (ground arith)))

or_same : (a b : Bool) → (a || b) ≡ (a || (a || b))
or_same true b = refl
or_same false b = refl

or_swap : (a b c : Bool) → (a || (b || c)) ≡ (b || (a || c))
or_swap true true c = refl
or_swap true false c = refl
or_swap false b c = refl

-- The keys after an assignment.
has_key-set_key : (j k v : String) (d : Dict) → has_key j (set_key k v d) ≡ (k == j || has_key j d)
unfolding set_key
has_key-set_key j k v [] = refl
has_key-set_key j k v (x ∷ d) = elim (Bool-cases (x.0 == k)) [
  | inl e ↦ rw (e, (string_eq.beq_iff x.0 k).0 e) (or_same (k == j) (has_key j d))
  | inr e ↦ rw e (rw (has_key-set_key j k v d) (or_swap (x.0 == j) (k == j) (has_key j d)))
]

Keyed-set_key : (k v : String) (d : Dict) → text_truthy k ≡ true → Keyed d → Keyed (set_key k v d)
unfolding set_key
Keyed-set_key k v [] t d = (t, refl, tt)
Keyed-set_key k v (x ∷ d) t (named, out, more) = elim (Bool-cases (x.0 == k)) [
  | inl e ↦ rw e (t, ap (λ j. has_key j d) (sym ((string_eq.beq_iff x.0 k).0 e)) ∙ out, more)
  | inr e ↦ rw e (
    named,
    has_key-set_key x.0 k v d ∙ rw (sym (beq_comm x.0 k)) (ground arith),
    Keyed-set_key k v d t more,
  )
]

-- None of the keys of the second dict is a key of the first.
abbrev Apart : Dict → Dict → Type 0
Apart d [] = Unit
Apart d (h ∷ hs) = (has_key h.0 d ≡ false) × Apart d hs

Apart-snoc :
    (d : Dict) (k v : String) (hs : Dict)
    → has_key k hs ≡ false
    → Apart d hs
    → Apart (d ++ ((k, v) ∷ [])) hs
Apart-snoc d k v [] out a = tt
Apart-snoc d k v (h ∷ hs) out (new, more) = (
  any-append (λ x. x.0 == h.0) d ((k, v) ∷ []) ∙ rw (beq_comm k h.0) (ground arith),
  Apart-snoc d k v hs (ground arith) more,
)

add_headers-items :
    (hs d : Dict) → Keyed hs → Apart d hs → add_headers (list_of (header_items hs)) d ≡ d ++ hs
unfolding add_headers list_of header_items get_text get get_field
add_headers-items [] d keyed apart = sym (append-nil d)
add_headers-items (h ∷ hs) d (named, out, more) (new, apart) =
    let rest = λ (e : Dict). add_headers (list_of (header_items hs)) e in
    let step : add_headers (list_of (header_items (h ∷ hs))) d
        ≡ rest (if text_truthy h.0 then set_key h.0 h.1 d else d) =
      refl in
    step
    ∙ ap (λ b. rest (if b then set_key h.0 h.1 d else d)) named
    ∙ ap rest (set_key-new h.0 h.1 d new)
    ∙ add_headers-items hs (d ++ ((h.0, h.1) ∷ [])) more (Apart-snoc d h.0 h.1 hs out apart)
    ∙ append_assoc d ((h.0, h.1) ∷ []) hs

Apart-nil : (hs : Dict) → Apart [] hs
Apart-nil [] = tt
Apart-nil (h ∷ hs) = (refl, Apart-nil hs)

skip_fields :
    (k : String) (os : List OptionalField) (rest : Fields)
    → all (λ o. not (o.name == k)) os ≡ true
    → get_field k (with_fields os rest) ≡ get_field k rest
unfolding get_field with_fields
skip_fields k [] rest h = refl
skip_fields k (o ∷ os) rest h =
    let other : (o.name == k) ≡ false = ground arith in
    let more = skip_fields k os rest (ground arith) in
    elim (Bool-cases o.present) [ inl e ↦ rw (e, other) more | inr e ↦ rw e more ]

Keyed-set_if : (k v : String) (d : Dict) → text_truthy k ≡ true → Keyed d → Keyed (set_if k v d)
Keyed-set_if k v d t keyed = elim (Bool-cases (text_truthy v)) [
  | inl e ↦ rw e (Keyed-set_key k v d t keyed)
  | inr e ↦ rw e keyed
]

Keyed-sent_headers : (m : EmailMessage) → Keyed m.raw_headers → Keyed (sent_headers m)
unfolding sent_headers text_truthy
Keyed-sent_headers m keyed = Keyed-set_if "Message-ID" (or_else m.rfc_message_id "") _ refl (
    Keyed-set_if "References" m.references _ refl
      (Keyed-set_if "In-Reply-To" m.in_reply_to m.raw_headers refl keyed))

value_or_null : Option Json → Json
value_or_null none = Json.null
value_or_null (some v) = v

headers_in : Option Json → Dict
unfolding value_or_null
headers_in o = add_headers (items_of (value_or_null o)) []

dict-get_field :
    (fs : Fields) → payload_headers_to_dict (Json.obj fs) ≡ headers_in (get_field "Headers" fs)
unfolding payload_headers_to_dict get headers_in value_or_null
dict-get_field fs = cases (get_field "Headers" fs)
  where
    cases :
        (o : Option Json)
        → add_headers (items_of (elim o [ none ↦ Json.null | some v ↦ v ])) [] ≡ headers_in o
    cases none = refl
    cases (some v) = refl

headers_read :
    (hs : Dict) (rest : Fields)
    → Keyed hs
    → get_field "Headers" rest ≡ none
    → headers_in (get_field "Headers" (headers_field hs rest)) ≡ hs
unfolding headers_in get_field value_or_null add_headers
headers_read [] rest keyed none_left = rw none_left refl
headers_read (h ∷ hs) rest keyed none_left =
    add_headers-items (h ∷ hs) [] keyed (Apart-nil (h ∷ hs))

pub payload_headers_to_dict-request_payload :
    (text : Json → String) (uuid_text : ℕ → String) (m : EmailMessage) (a : OutboundSendAttempt)
    (attachments : Items)
    → Keyed m.raw_headers
    → payload_headers_to_dict (request_payload text uuid_text m a attachments) ≡ sent_headers m
unfolding request_payload get_field
payload_headers_to_dict-request_payload text uuid_text m a attachments keyed =
    let after = with_fields (attachments_field attachments) Fields.end in
    let rest = headers_field (sent_headers m) after in
    dict-get_field _
    ∙ ap headers_in (skip_fields "Headers" (optional_fields m) rest refl)
    ∙ headers_read (sent_headers m) after (Keyed-sent_headers m keyed)
        (skip_fields "Headers" (attachments_field attachments) Fields.end refl)
