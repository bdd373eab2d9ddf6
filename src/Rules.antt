-- ===== src/Rules.antt =====
-- hedwig/rules.py: the rules of a mailbox and the forwarding of a message.
pub mod Forwarding
pub mod Wire
pub mod Hops
pub mod Keeps
use hedwig.Prelude.Text.{lower, contains, truthy}
use hedwig.Prelude.Sort.{sort, text_le}
use hedwig.Prelude.{
  Bool, List, Option, String, [], any, false, first?, if◌then◌else◌, is_some, ltb, nat_eq, none,
  not, option_eq, or_else, select, some, string_eq, true, ℕ, ◌&&◌, ◌==◌, ◌||◌, ◌∷◌,
}
use hedwig.Enums.{Folder, folder_eq, folder_of}
use hedwig.Exec.{Exec, gets, modify, ok, pure, ◌>>=◌, ◌>>◌}
use hedwig.Ingest.Threads.{fresh}
use hedwig.Rules.Forwarding.{forward_message}
use hedwig.Sending.Attempts.{update_message}
use hedwig.Services.{Services}
use hedwig.Tables.{Actions, Address, Conditions, Db, EmailLabel, EmailMessage, MailboxRule}

abbrev text_or_empty : Option String → String
text_or_empty o = or_else o ""

-- A text condition that is absent or empty holds.
abbrev holds_if_set : (String → Bool) → Option String → Bool
holds_if_set p o = not (truthy (text_or_empty o)) || p (text_or_empty o)

unfoldable pub contains_lower : String → String → Bool
contains_lower needle haystack = contains (lower needle) (lower haystack)

unfoldable pub rows_contain : List Address → String → Bool
unfolding contains_lower
rows_contain rows value = any (λ r. contains_lower value r.email) rows

abbrev pub is_label : ℕ → String → EmailLabel → Bool
is_label mailbox name l = l.mailbox == mailbox && l.name == name

-- `message.message_labels.filter(label__name=name).exists()`
abbrev pub is_labelled : ℕ → String → Db → Bool
is_labelled message name s =
    any (λ ml. ml.message == message && any (λ l. l.id == ml.label && l.name == name) s.labels)
      s.message_labels

abbrev has_condition : Conditions → Bool
has_condition c =
    is_some c.from_contains
    || is_some c.subject_contains
    || is_some c.to_contains
    || is_some c.cc_contains
    || is_some c.has_attachment
    || is_some c.has_label

abbrev attachment_holds : Option Bool → Bool → Bool
attachment_holds none actual = true
attachment_holds (some true) actual = actual
attachment_holds (some false) actual = not actual

-- A condition of each kind must hold, and a rule without any condition matches nothing.
unfoldable pub rule_matches : Conditions → EmailMessage → Db → Bool
unfolding contains_lower rows_contain truthy
rule_matches c m s =
    has_condition c
    && holds_if_set (λ v. contains_lower v m.from_address) c.from_contains
    && holds_if_set (λ v. contains_lower v m.subject) c.subject_contains
    && holds_if_set (rows_contain m.to_addresses) c.to_contains
    && holds_if_set (rows_contain m.cc_addresses) c.cc_contains
    && attachment_holds c.has_attachment m.has_attachments
    && holds_if_set (λ v. is_labelled m.id v s) c.has_label

abbrev pub link_label : ℕ → ℕ → Exec (Unit {0})
link_label message label s =
    if any (λ ml. ml.message == message && ml.label == label) s.message_labels
    then (ok tt, s)
    else (
      ok tt,
      record s {
        message_labels = (record { message = message; label = label }) ∷ s.message_labels;
      },
    )

abbrev pub label_or_create : ℕ → String → Option EmailLabel → Exec ℕ
label_or_create mailbox name (some l) = pure l.id
label_or_create mailbox name none = do
  i ← fresh
  modify (λ s. record s { labels = (record { id = i; mailbox = mailbox; name = name }) ∷ s.labels })
  pure i

-- The two `get_or_create` of the action `add_label`.
unfoldable pub add_label : ℕ → ℕ → String → Exec (Unit {0})
add_label mailbox message name = do
  found ← gets (λ s. first? (is_label mailbox name) s.labels)
  label ← label_or_create mailbox name found
  link_label message label

abbrev pub move_to : EmailMessage → Option Folder → Exec EmailMessage
move_to m none = pure m
move_to m (some f) =
    if f == m.folder
    then pure m
    else do update_message m.id (λ r. record r { folder = f }); pure (record m { folder = f })

abbrev pub is_false : Option Bool → Bool
is_false (some false) = true
is_false _ = false

-- The message as the rest of the loop holds it, and whether the loop stops.
unfoldable pub apply_actions :
    ℕ → Services → ℕ → EmailMessage → Actions → Exec (EmailMessage × Bool)
apply_actions now services mailbox m a = do
  if truthy a.add_label then add_label mailbox m.id a.add_label else pure tt
  moved ← move_to m (folder_of a.move_to_folder)
  if truthy a.forward_to then forward_message now services moved a.forward_to "rule" else pure tt
  pure (moved, a.stop || is_false a.continue)

-- `order_by("priority", "name")`
abbrev pub rule_before : MailboxRule → MailboxRule → Bool
rule_before a b = ltb a.priority b.priority || (a.priority == b.priority && text_le a.name b.name)

abbrev rule_applies : ℕ → MailboxRule → Bool
rule_applies mailbox r = r.is_active && r.mailbox == mailbox

-- One round of the loop.
unfoldable pub run_rule : ℕ → Services → ℕ → MailboxRule → EmailMessage → Exec (EmailMessage × Bool)
run_rule now services mailbox r m = do
  matches ← gets (rule_matches r.conditions m)
  if matches then apply_actions now services mailbox m r.actions else pure (m, false)

unfoldable pub run_rules : ℕ → Services → ℕ → List MailboxRule → EmailMessage → Exec EmailMessage
run_rules now services mailbox [] m = pure m
run_rules now services mailbox (r ∷ rs) m = do
  done ← run_rule now services mailbox r m
  if done.1 then pure done.0 else run_rules now services mailbox rs done.0

unfoldable pub evaluate_rules : ℕ → Services → ℕ → EmailMessage → Exec EmailMessage
evaluate_rules now services mailbox m = do
  rules ← gets (λ s. sort rule_before (select (rule_applies mailbox) s.rules))
  run_rules now services mailbox rules m
