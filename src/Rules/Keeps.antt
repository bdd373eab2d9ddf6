-- ===== src/Rules/Keeps.antt =====
-- Composing, forwarding and the rules never remove a message, nor change what identifies it.
use hedwig.Exec.Keeps.{Keeps, Keeps-modify, Keeps-pure}
use hedwig.Prelude.{
  Bool, List, Option, String, [], any, any-update, ap, arith, none, some, true, ℕ, ◌∙◌, ◌∷◌, ◌≡◌,
}
use hedwig.Enums.{Folder}
use hedwig.Exec.{modify}
use hedwig.Exec.Keeps.{Keeps-bind, Keeps-if, keeps_rules}
use hedwig.Ingest.Threads.{fresh, or_create, update_thread_for_message}
use hedwig.Outbound.Compose.{Composed, create_attempt, create_outbound_message}
use hedwig.Outbound.Rows.{
  NewAttachment, insert_attempt, insert_message, record_contact, record_contacts, stage_attachments,
  stage_each, stage_one,
}
use hedwig.Rules.{
  add_label, apply_actions, evaluate_rules, label_or_create, link_label, move_to, run_rule,
  run_rules,
}
use hedwig.Rules.Forwarding.{copy_attachments, copy_each, copy_one, forward_message, save_copied}
use hedwig.Sending.Attempts.{is_message, update_message}
use hedwig.Services.{Services}
use hedwig.Tables.{
  Actions, Address, Db, EmailAttachment, EmailLabel, EmailMessage, EmailThread, Mailbox,
  MailboxRule, OutboundSendAttempt,
}

-- A test of messages that the writes of the inbound and outbound code leave alone.
pub record Stable (q : EmailMessage → Bool) : Type 0 where
  pub thread : (m : EmailMessage) (t : Option ℕ) → q (record m { thread = t }) ≡ q m
  pub folder : (m : EmailMessage) (f : Folder) → q (record m { folder = f }) ≡ q m
  pub size :
      (m : EmailMessage) (n : ℕ) → q (record m { has_attachments = true; size_bytes = n }) ≡ q m

abbrev pub has : (EmailMessage → Bool) → Db → Bool
has q s = any q s.messages

module _ (q : EmailMessage → Bool) (stable : Stable q) where
  pub update_message-has :
      (i : ℕ) (f : EmailMessage → EmailMessage)
      → ((m : EmailMessage) → q (f m) ≡ q m)
      → Keeps (has q) (update_message i f)
  update_message-has i f same =
      Keeps-modify _ (λ s h. any-update q (is_message i) f same s.messages ∙ h)

  modify-has : (f : Db → Db) → ((s : Db) → (f s).messages ≡ s.messages) → Keeps (has q) (modify f)
  modify-has f same = Keeps-modify f (λ s h. ap (any q) (same s) ∙ h)

  pub fresh-has : Keeps (has q) fresh
  fresh-has = record { kept = λ s h. h }

  pub insert_message-has : (m : EmailMessage) → Keeps (has q) (insert_message m)
  unfolding insert_message
  insert_message-has m = record { kept = λ s h. ground arith }

  pub insert_attempt-has : (a : OutboundSendAttempt) → Keeps (has q) (insert_attempt a)
  unfolding insert_attempt
  insert_attempt-has a = record { kept = λ s h. ground arith }

  or_create-has :
      (now mailbox : ℕ) (m : EmailMessage) (o : Option EmailThread)
      → Keeps (has q) (or_create now mailbox m o)
  or_create-has now mailbox m (some t) = Keeps-pure _
  or_create-has now mailbox m none = record { kept = λ s h. h }

  pub update_thread_has :
      (now mailbox : ℕ) (m : EmailMessage) → Keeps (has q) (update_thread_for_message now mailbox m)
  unfolding update_thread_for_message
  update_thread_has now mailbox m =
      search (keeps_rules, or_create-has, update_message-has, modify-has, stable.thread)

  record_contact-has :
      (now mailbox : ℕ) (r : Address) → Keeps (has q) (record_contact now mailbox r)
  unfolding record_contact
  record_contact-has now mailbox r = record { kept = λ s h. ground arith }

  record_contacts-has :
      (now mailbox : ℕ) (rs : List Address) → Keeps (has q) (record_contacts now mailbox rs)
  unfolding record_contacts
  record_contacts-has now mailbox [] = Keeps-pure _
  record_contacts-has now mailbox (r ∷ rs) =
      Keeps-bind _ _ (record_contact-has now mailbox r) (λ _. record_contacts-has now mailbox rs)

  stage_one-has : (i : ℕ) (a : NewAttachment) → Keeps (has q) (stage_one i a)
  unfolding stage_one
  stage_one-has i a = record { kept = λ s h. h }

  stage_each-has : (i : ℕ) (items : List NewAttachment) → Keeps (has q) (stage_each i items)
  unfolding stage_each
  stage_each-has i [] = Keeps-pure _
  stage_each-has i (a ∷ more) =
      Keeps-bind _ _ (stage_one-has i a)
        (λ n. Keeps-bind _ _ (stage_each-has i more) (λ k. Keeps-pure _))

  pub stage_attachments-has :
      (m : EmailMessage) (items : List NewAttachment) → Keeps (has q) (stage_attachments m items)
  unfolding stage_attachments
  stage_attachments-has m [] = Keeps-pure _
  stage_attachments-has m (a ∷ more) =
      search (keeps_rules, modify-has, stage_each-has, update_message-has, stable.size) depth 14

  create_attempt-has :
      (services : Services) (m : EmailMessage) (provider : ℕ)
      → Keeps (has q) (create_attempt services m provider)
  create_attempt-has services m provider =
      search (keeps_rules, fresh-has, insert_attempt-has) depth 14

  create_outbound_has :
      (now : ℕ) (services : Services) (mailbox : Mailbox) (c : Composed)
      → Keeps (has q) (create_outbound_message now services mailbox c)
  unfolding create_outbound_message
  create_outbound_has now services mailbox c =
      search
        (
          keeps_rules, modify-has, fresh-has, insert_message-has, update_thread_has,
          record_contacts-has, stage_attachments-has, create_attempt-has,
        )
        depth 14

  copy_one-has : (i : ℕ) (a : EmailAttachment) → Keeps (has q) (copy_one i a)
  unfolding copy_one
  copy_one-has i a = record { kept = λ s h. h }

  copy_each-has : (i : ℕ) (rows : List EmailAttachment) → Keeps (has q) (copy_each i rows)
  unfolding copy_each
  copy_each-has i [] = Keeps-pure _
  copy_each-has i (a ∷ more) =
      Keeps-bind _ _ (copy_one-has i a)
        (λ n. Keeps-bind _ _ (copy_each-has i more) (λ k. Keeps-pure _))

  save_copied-has :
      (m : EmailMessage) (rows : List EmailAttachment) → Keeps (has q) (save_copied m rows)
  save_copied-has m [] = Keeps-pure _
  save_copied-has m (a ∷ more) =
      search (keeps_rules, modify-has, copy_each-has, update_message-has, stable.size) depth 14

  pub forward_has :
      (now : ℕ) (services : Services) (m : EmailMessage) (to_email reason : String)
      → Keeps (has q) (forward_message now services m to_email reason)
  unfolding forward_message copy_attachments
  forward_has now services m to_email reason =
      search (keeps_rules, modify-has, create_outbound_has, save_copied-has) depth 14

  label_or_create-has :
      (mailbox : ℕ) (name : String) (o : Option EmailLabel)
      → Keeps (has q) (label_or_create mailbox name o)
  label_or_create-has mailbox name (some l) = Keeps-pure _
  label_or_create-has mailbox name none = record { kept = λ s h. h }

  link_label-has : (message label : ℕ) → Keeps (has q) (link_label message label)
  link_label-has message label = record { kept = λ s h. ground arith }

  add_label_has :
      (mailbox message : ℕ) (name : String) → Keeps (has q) (add_label mailbox message name)
  unfolding add_label
  add_label_has mailbox message name =
      search (keeps_rules, label_or_create-has, link_label-has) depth 14

  move_to-has : (m : EmailMessage) (o : Option Folder) → Keeps (has q) (move_to m o)
  move_to-has m none = Keeps-pure _
  move_to-has m (some f) =
      search (keeps_rules, modify-has, update_message-has, stable.folder) depth 14

  apply_actions-has :
      (now : ℕ) (services : Services) (mailbox : ℕ) (m : EmailMessage) (a : Actions)
      → Keeps (has q) (apply_actions now services mailbox m a)
  unfolding apply_actions
  apply_actions-has now services mailbox m a =
      search (keeps_rules, add_label_has, move_to-has, forward_has) depth 14

  run_rule-has :
      (now : ℕ) (services : Services) (mailbox : ℕ) (r : MailboxRule) (m : EmailMessage)
      → Keeps (has q) (run_rule now services mailbox r m)
  unfolding run_rule
  run_rule-has now services mailbox r m = search (keeps_rules, apply_actions-has) depth 14

  run_rules-has :
      (now : ℕ) (services : Services) (mailbox : ℕ) (rules : List MailboxRule) (m : EmailMessage)
      → Keeps (has q) (run_rules now services mailbox rules m)
  unfolding run_rules
  run_rules-has now services mailbox [] m = Keeps-pure _
  run_rules-has now services mailbox (r ∷ rs) m =
      Keeps-bind _ _ (run_rule-has now services mailbox r m)
        (λ done. Keeps-if done.1 _ _ (Keeps-pure _) (run_rules-has now services mailbox rs done.0))

  pub evaluate_rules-has :
      (now : ℕ) (services : Services) (mailbox : ℕ) (m : EmailMessage)
      → Keeps (has q) (evaluate_rules now services mailbox m)
  unfolding evaluate_rules
  evaluate_rules-has now services mailbox m = search (keeps_rules, run_rules-has) depth 14
