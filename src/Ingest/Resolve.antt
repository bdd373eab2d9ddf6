-- ===== src/Ingest/Resolve.antt =====
-- `resolve_mailbox` of providers/ingest.py. A lookup with `__iexact` compares lower-cased texts.
pub mod Routes
use hedwig.Prelude.Text.{lower, strip, truthy, partition}
use hedwig.Prelude.{
  Bool, List, Option, String, [], first?, if◌then◌else◌, map, nat_eq, none, option_eq, some,
  string_eq, ℕ, ◌&&◌, ◌++◌, ◌==◌, ◌∷◌,
}
use hedwig.Normalized.{NormalizedInboundMessage}
use hedwig.Sending.Dispatch.{find_mailbox}
use hedwig.Tables.{Address, Db, Domain, Mailbox, MailboxAlias}

abbrev pub is_receiving : ℕ → Mailbox → Bool
is_receiving d m = m.domain == d && m.is_active && m.receive_enabled

abbrev pub has_local_part : ℕ → String → Mailbox → Bool
has_local_part d local m = is_receiving d m && lower m.local_part == lower local

abbrev pub is_receiving_alias : ℕ → String → MailboxAlias → Bool
is_receiving_alias d local a =
    a.domain == d && lower a.local_part == lower local && a.is_active && a.can_receive

abbrev pub mailbox_of_alias : Option MailboxAlias → Db → Option Mailbox
mailbox_of_alias none s = none
mailbox_of_alias (some a) s = find_mailbox a.mailbox s

abbrev pub or_option : {A : Type 0} → Option A → Option A → Option A
or_option none o = o
or_option (some a) o = some a

-- One round of the loop: the mailbox of an address, or that of an alias.
unfoldable pub route : Domain → String → Db → Option Mailbox
unfolding partition lower
route domain email s =
    let parts = partition b'@' email in
    if lower parts.1 == lower domain.name
    then or_option (first? (has_local_part domain.id parts.0) s.mailboxes)
        (mailbox_of_alias (first? (is_receiving_alias domain.id parts.0) s.aliases) s)
    else none

unfoldable pub route_first : Domain → List String → Db → Option (Mailbox × String)
unfolding route
route_first domain [] s = none
route_first domain (email ∷ rest) s = elim (route domain email s) [
  | none ↦ route_first domain rest s
  | some mailbox ↦ some (mailbox, email)
]

abbrev emails_of : List Address → List String
emails_of = map (λ r. r.email)

unfoldable pub recipient_emails : NormalizedInboundMessage → List String
unfolding lower strip truthy
recipient_emails n =
    let envelope = lower (strip n.envelope_recipient) in
    let others = emails_of (n.to ++ n.cc ++ n.bcc) in
    if truthy envelope then envelope ∷ others else others

abbrev pub is_catch_all : ℕ → Mailbox → Bool
is_catch_all d m = is_receiving d m && m.is_catch_all

abbrev head_or : List String → String → String
head_or [] d = d
head_or (x ∷ xs) d = x

abbrev pub with_recipient : String → Option Mailbox → Option (Mailbox × String)
with_recipient email none = none
with_recipient email (some m) = some (m, email)

unfoldable pub resolve_mailbox : Domain → NormalizedInboundMessage → Db → Option (Mailbox × String)
unfolding route_first recipient_emails
resolve_mailbox domain n s = or_option (route_first domain (recipient_emails n) s) (
    with_recipient (head_or (recipient_emails n) n.envelope_recipient)
      (first? (is_catch_all domain.id) s.mailboxes))
