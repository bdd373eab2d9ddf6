-- ===== src/Sending/Suppression.antt =====
-- `suppressed_emails` of hedwig/manager.py and `recheck_suppressed_recipients` of
-- providers/sending.py. A set is a list that may repeat.
use hedwig.Prelude.Text.{strip, lower, truthy}
use hedwig.Prelude.{
  Bool, List, Option, String, [], any, if◌then◌else◌, ltb, map, nat_eq, none, option_eq, select,
  some, string_eq, true, ℕ, ◌&&◌, ◌++◌, ◌==◌, ◌||◌, ◌∷◌,
}
use hedwig.Tables.{Db, EmailMessage, Mailbox, SuppressedAddress}

-- `expires_at` is absent or later than `now`.
abbrev pub unexpired : ℕ → Option ℕ → Bool
unexpired now none = true
unexpired now (some t) = ltb now t

unfoldable pub normalized_emails : List String → List String
normalized_emails [] = []
normalized_emails (e ∷ es) =
    if truthy e then lower (strip e) ∷ normalized_emails es else normalized_emails es

abbrev pub mem_text : String → List String → Bool
mem_text e = any (λ x. x == e)

abbrev pub suppresses : ℕ → Mailbox → List String → SuppressedAddress → Bool
suppresses now mailbox emails row =
    unexpired now row.expires_at
    && ((row.domain == mailbox.domain && row.mailbox == none) || row.mailbox == some mailbox.id)
    && mem_text row.email emails

unfoldable pub suppressed_emails : ℕ → Mailbox → List String → Db → List String
unfolding normalized_emails
suppressed_emails now mailbox emails s =
    map (λ r. r.email) (select (suppresses now mailbox (normalized_emails emails)) s.suppressed)

abbrev pub recipient_emails : EmailMessage → List String
recipient_emails m = map (λ r. r.email) (m.to_addresses ++ m.cc_addresses ++ m.bcc_addresses)

unfoldable pub recheck_suppressed_recipients : ℕ → Mailbox → EmailMessage → Db → List String
unfolding suppressed_emails
recheck_suppressed_recipients now mailbox m = suppressed_emails now mailbox (recipient_emails m)
