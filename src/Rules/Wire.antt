-- ===== src/Rules/Wire.antt =====
-- The depth header of the message that a forward composes, as it goes over the wire.
use hedwig.Prelude.Decimal.{print, parse}
use hedwig.Prelude.Text.{truthy}
use hedwig.Prelude.{
  Bool, Bool-cases, List, Option, String, [], any, any-update, beq_refl, ap, arith, false, inl, inr,
  leb, nat_eq, none, not, refl, some, suc, zero, ℕ, ◌&&◌, ◌+◌, ◌<◌, ◌==◌, ◌∙◌, ◌∷◌, ◌≡◌,
}
use hedwig.Enums.{EmailStatus, Folder}
use hedwig.Exec.{modify}
use hedwig.Exec.Keeps.{Keeps, Keeps-bind, Keeps-modify, Keeps-pure, keeps_rules}
use hedwig.Ingest.Threads.{fresh, or_create, update_thread_for_message}
use hedwig.Outbound.Compose.{Composed, create_attempt, create_outbound_message, outbound_row}
use hedwig.Outbound.Rows.{
  insert_attempt, insert_message, record_contact, record_contacts, stage_attachments,
}
use hedwig.Postmark.{set_key}
use hedwig.Postmark.Headers.{sent_headers}
use hedwig.Rules.Forwarding.{
  copy_attachments, copy_each, copy_one, current_forward_depth, depth_of, forward_depth_header,
  forward_message, forwarded, header, max_forward_depth, save_copied,
}
use hedwig.Rules.Keeps.{Stable}
use hedwig.Sending.Attempts.{is_message, update_message}
use hedwig.Services.{Services}
use hedwig.Tables.{
  Address, Db, Domain, EmailAttachment, EmailMessage, EmailThread, Mailbox, OutboundSendAttempt,
  SenderIdentity,
}

-- The depth that the headers of a sent message tell.
unfoldable pub wire_depth : EmailMessage → ℕ
wire_depth y = depth_of (header forward_depth_header (sent_headers y))

-- A row of the key that tells another depth.
abbrev pub tells_other : ℕ → ℕ → EmailMessage → Bool
tells_other i d z = z.id == i && not (wire_depth z == d)

-- No row passes the test.
abbrev pub lacks : (EmailMessage → Bool) → Db → Bool
lacks q s = not (any q s.messages)

tells_other-Stable : (i d : ℕ) → Stable (tells_other i d)
unfolding wire_depth sent_headers
tells_other-Stable i d = record { thread = λ m t. refl; folder = λ m f. refl; size = λ m k. refl }

module _ (q : EmailMessage → Bool) (stable : Stable q) where
  update_message-lacks :
      (i : ℕ) (f : EmailMessage → EmailMessage)
      → ((m : EmailMessage) → q (f m) ≡ q m)
      → Keeps (lacks q) (update_message i f)
  update_message-lacks i f same =
      Keeps-modify _ (λ s h. ap not (any-update q (is_message i) f same s.messages) ∙ h)

  modify-lacks :
      (f : Db → Db) → ((s : Db) → (f s).messages ≡ s.messages) → Keeps (lacks q) (modify f)
  modify-lacks f same = Keeps-modify f (λ s h. ap (λ ms. not (any q ms)) (same s) ∙ h)

  fresh-lacks : Keeps (lacks q) fresh
  fresh-lacks = record { kept = λ s h. h }

  insert_message-lacks : (m : EmailMessage) → q m ≡ false → Keeps (lacks q) (insert_message m)
  unfolding insert_message
  insert_message-lacks m other = record { kept = λ s h. ground (arith, other) }

  insert_attempt-lacks : (a : OutboundSendAttempt) → Keeps (lacks q) (insert_attempt a)
  unfolding insert_attempt
  insert_attempt-lacks a = record { kept = λ s h. ground arith }

  or_create-lacks :
      (now mailbox : ℕ) (m : EmailMessage) (o : Option EmailThread)
      → Keeps (lacks q) (or_create now mailbox m o)
  or_create-lacks now mailbox m (some t) = Keeps-pure _
  or_create-lacks now mailbox m none = record { kept = λ s h. h }

  update_thread_lacks :
      (now mailbox : ℕ) (m : EmailMessage)
      → Keeps (lacks q) (update_thread_for_message now mailbox m)
  unfolding update_thread_for_message
  update_thread_lacks now mailbox m =
      search (keeps_rules, or_create-lacks, update_message-lacks, modify-lacks, stable.thread)

  record_contact-lacks :
      (now mailbox : ℕ) (r : Address) → Keeps (lacks q) (record_contact now mailbox r)
  unfolding record_contact
  record_contact-lacks now mailbox r = record { kept = λ s h. ground arith }

  record_contacts-lacks :
      (now mailbox : ℕ) (rs : List Address) → Keeps (lacks q) (record_contacts now mailbox rs)
  unfolding record_contacts
  record_contacts-lacks now mailbox [] = Keeps-pure _
  record_contacts-lacks now mailbox (r ∷ rs) =
      Keeps-bind _ _ (record_contact-lacks now mailbox r)
        (λ _. record_contacts-lacks now mailbox rs)

  create_attempt-lacks :
      (services : Services) (m : EmailMessage) (provider : ℕ)
      → Keeps (lacks q) (create_attempt services m provider)
  create_attempt-lacks services m provider =
      search (keeps_rules, fresh-lacks, insert_attempt-lacks) depth 14

  copy_one-lacks : (i : ℕ) (a : EmailAttachment) → Keeps (lacks q) (copy_one i a)
  unfolding copy_one
  copy_one-lacks i a = record { kept = λ s h. h }

  copy_each-lacks : (i : ℕ) (rows : List EmailAttachment) → Keeps (lacks q) (copy_each i rows)
  unfolding copy_each
  copy_each-lacks i [] = Keeps-pure _
  copy_each-lacks i (a ∷ more) =
      Keeps-bind _ _ (copy_one-lacks i a)
        (λ n. Keeps-bind _ _ (copy_each-lacks i more) (λ k. Keeps-pure _))

  save_copied-lacks :
      (m : EmailMessage) (rows : List EmailAttachment) → Keeps (lacks q) (save_copied m rows)
  save_copied-lacks m [] = Keeps-pure _
  save_copied-lacks m (a ∷ more) =
      search (keeps_rules, modify-lacks, copy_each-lacks, update_message-lacks, stable.size) depth
        14

  create_outbound_lacks :
      (now : ℕ) (services : Services) (mailbox : Mailbox) (c : Composed)
      → ((domain : Domain) (rfc : String) (i : ℕ)
          → q (outbound_row mailbox domain c EmailStatus.queued Folder.sent c.thread rfc i) ≡ false)
      → ((m : EmailMessage) → Keeps (lacks q) (stage_attachments m c.attachments))
      → Keeps (lacks q) (create_outbound_message now services mailbox c)
  unfolding create_outbound_message
  create_outbound_lacks now services mailbox c agrees stages =
      search
        (
          keeps_rules, modify-lacks, fresh-lacks, insert_message-lacks, agrees, update_thread_lacks,
          record_contacts-lacks, stages, create_attempt-lacks,
        )
        depth 14

  -- What a forward composes has no attachment to stage.
  stage_none-lacks : (m : EmailMessage) → Keeps (lacks q) (stage_attachments m [])
  unfolding stage_attachments
  stage_none-lacks m = Keeps-pure _

depth_parsed : (d : ℕ) → d < 3 → depth_of (some (print (d + 1))) ≡ d + 1
unfolding print parse
depth_parsed zero h = refl
depth_parsed (suc zero) h = refl
depth_parsed (suc (suc zero)) h = refl
depth_parsed (suc (suc (suc d))) h = ground arith

module _ (services : Services) (k : EmailMessage) (to_email reason : String)
    (low : leb max_forward_depth (current_forward_depth k) ≡ false) where
  -- The row of the forward tells one hop more.
  wire_depth-forwarded :
      (mailbox : Mailbox) (domain : Domain) (identity : Option SenderIdentity) (rfc : String)
      (i : ℕ)
      → wire_depth (
          outbound_row mailbox domain
            (forwarded services k to_email reason identity)
            EmailStatus.queued
            Folder.sent
            none
            rfc
            i)
        ≡ current_forward_depth k + 1
  unfolding wire_depth sent_headers set_key header forwarded truthy
  wire_depth-forwarded mailbox domain identity rfc i = elim (Bool-cases (truthy rfc)) [
    | inl e ↦ rw e (depth_parsed (current_forward_depth k) (ground arith))
    | inr e ↦ rw e (depth_parsed (current_forward_depth k) (ground arith))
  ]

  row_agrees :
      (j i : ℕ) (mailbox : Mailbox) (domain : Domain) (identity : Option SenderIdentity)
      (rfc : String)
      → tells_other j (current_forward_depth k + 1) (
          outbound_row mailbox domain
            (forwarded services k to_email reason identity)
            EmailStatus.queued
            Folder.sent
            none
            rfc
            i)
        ≡ false
  row_agrees j i mailbox domain identity rfc =
      rw (wire_depth-forwarded mailbox domain identity rfc i)
        (rw (beq_refl (current_forward_depth k + 1)) (ground arith))

  module _ (j : ℕ) where
    abbrev other : EmailMessage → Bool
    other = tells_other j (current_forward_depth k + 1)

    other-Stable : Stable other
    other-Stable = tells_other-Stable j (current_forward_depth k + 1)

    create_forwarded-lacks :
        (now : ℕ) (mailbox : Mailbox) (identity : Option SenderIdentity)
        → Keeps (lacks other) (
            create_outbound_message now services mailbox
              (forwarded services k to_email reason identity))
    unfolding forwarded
    create_forwarded-lacks now mailbox identity =
        create_outbound_lacks other other-Stable now services mailbox
          (forwarded services k to_email reason identity)
          (λ domain rfc i. row_agrees j i mailbox domain identity rfc)
          (λ m. stage_none-lacks other other-Stable m)

    -- A forward makes no row under the key that tells another depth than one hop more.
    pub forward_message-lacks :
        (now : ℕ) → Keeps (lacks other) (forward_message now services k to_email reason)
    unfolding forward_message copy_attachments
    forward_message-lacks now =
        search
          (
            keeps_rules,
            modify-lacks other other-Stable,
            create_forwarded-lacks,
            save_copied-lacks other other-Stable,
          )
          depth 14
