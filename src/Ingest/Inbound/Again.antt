-- ===== src/Ingest/Inbound/Again.antt =====
-- The same message delivered twice.
use hedwig.Prelude.Text.{truthy}
use hedwig.Exec.Keeps.{Keeps, keeps_rules, Keeps-pure, Keeps-bind, Keeps-if}
use hedwig.Exec.Gives.{Gives, Gives-rest, Gives-first}
use hedwig.Rules.Keeps.{
  Stable, has, update_message-has, update_thread_has, evaluate_rules-has, forward_has,
}
use hedwig.Prelude.{option_eq, nat_eq, string_eq}
use hedwig.Prelude.{
  Bool, Bool-cases, List, Mem, Mem-first?, Option, beq-eq, first?-passes, ◌==◌, String, [], any,
  any-of_first?, arith, beq_refl, false, first?, first?-of_any, inl, inr, none, or_else, refl, some,
  true, ℕ, ◌&&◌, ◌||◌, ◌∷◌, ◌≡◌,
}
use hedwig.Enums.{DirectionType, direction_type_eq}
use hedwig.Exec.{Exec, atomic, get_or_raise, gets, modify, ok}
use hedwig.Exec.Gives.{Gives-atomic}
use hedwig.Ingest.Inbound.{
  add_used, admit, check_quota, complete, create_inbound_message, create_new, existing_or,
  forward_all, inbound_row, incoming_size, is_inbound_copy, store_each, store_one, with_attachments,
}
use hedwig.Ingest.Threads.{fresh}
use hedwig.Normalized.{NormalizedAttachment, NormalizedInboundMessage}
use hedwig.Outbound.Rows.{clashes, insert_message}
use hedwig.Sending.Dispatch.{find_mailbox}
use hedwig.Services.{Services}
use hedwig.Tables.{Db, EmailMessage, EmailRecipient, Mailbox}

-- What a message can be told by: the provider's identifier or, without it, its Message-ID.
abbrev pub is_identified : NormalizedInboundMessage → Bool
is_identified n = truthy n.provider_message_id || truthy (or_else n.rfc_message_id "")

both : (a b : Bool) → a ≡ true → b ≡ true → (a && b && true) ≡ true
both a b h k = ground arith

all_three : (a b c : Bool) → a ≡ true → b ≡ true → c ≡ true → (a && b && c && true) ≡ true
all_three a b c h k l = ground arith

module _ (provider : ℕ) (box : Mailbox) (n : NormalizedInboundMessage) where
  copy-Stable : Stable (is_inbound_copy provider box.id n)
  copy-Stable = record { thread = λ m t. refl; folder = λ m f. refl; size = λ m k. refl }

  row_is_copy :
      (recipient : String) (i : ℕ)
      → is_identified n ≡ true
      → is_inbound_copy provider box.id n (inbound_row provider box.id recipient n i) ≡ true
  unfolding inbound_row
  row_is_copy recipient i known = elim (Bool-cases (truthy n.provider_message_id)) [
    | inl e ↦ rw e (both _ _ (beq_refl (some provider)) (beq_refl (some n.provider_message_id)))
    | inr e ↦
        rw e (all_three _ _ _ (ground (arith, e)) (beq_refl box.id) (beq_refl n.rfc_message_id))
  ]

  insert-Gives :
      (m : EmailMessage)
      → is_inbound_copy provider box.id n m ≡ true
      → Gives (has (is_inbound_copy provider box.id n)) (insert_message m)
  unfolding insert_message
  insert-Gives m copy = record {
    given = λ s a h. elim (Bool-cases (any (clashes m) s.messages)) [
      | inl e ↦ ground (arith, e)
      | inr e ↦ rw (e, copy) refl
    ];
  }

  store_one-has :
      (services : Services) (owner message : ℕ) (a : NormalizedAttachment)
      → Keeps (has (is_inbound_copy provider box.id n)) (store_one services owner message a)
  unfolding store_one
  store_one-has services owner message a = record { kept = λ s h. h }

  store_each-has :
      (services : Services) (owner message : ℕ) (items : List NormalizedAttachment)
      → Keeps (has (is_inbound_copy provider box.id n)) (store_each services owner message items)
  unfolding store_each
  store_each-has services owner message [] = Keeps-pure _
  store_each-has services owner message (a ∷ more) =
      Keeps-bind _ _ (store_one-has services owner message a)
        (λ k. Keeps-bind _ _ (store_each-has services owner message more) (λ l. Keeps-pure _))

  with_attachments_copy :
      (total : ℕ) (items : List NormalizedAttachment) (m : EmailMessage)
      → is_inbound_copy provider box.id n
          (with_attachments total (record n { attachments = items }) m)
        ≡ is_inbound_copy provider box.id n m
  with_attachments_copy total [] m = refl
  with_attachments_copy total (a ∷ more) m = refl

  add_used-has : (i size : ℕ) → Keeps (has (is_inbound_copy provider box.id n)) (add_used i size)
  add_used-has i size = record { kept = λ s h. h }

  add_recipients_has :
      (f : Db → List EmailRecipient)
      → Keeps
          (has (is_inbound_copy provider box.id n))
          (modify (λ s. record s { recipients = f s }))
  add_recipients_has f = record { kept = λ s h. h }

  forward_all-has :
      (now : ℕ) (services : Services) (m : EmailMessage) (to_email : String)
      → Keeps (has (is_inbound_copy provider box.id n)) (forward_all now services m to_email)
  forward_all-has now services m to_email =
      Keeps-if _ _ _ (forward_has _ copy-Stable now services m to_email "mailbox_forward_to")
        (Keeps-pure _)

  sized :
      (total : ℕ) (m : EmailMessage)
      → is_inbound_copy provider box.id n (with_attachments total n m)
        ≡ is_inbound_copy provider box.id n m
  sized total m = with_attachments_copy total n.attachments m

  complete-has :
      (now : ℕ) (services : Services) (recipient : String) (m : EmailMessage)
      → Keeps (has (is_inbound_copy provider box.id n)) (complete now services box recipient n m)
  unfolding complete
  complete-has now services recipient m =
      search
        (
          keeps_rules,
          add_recipients_has,
          store_each-has,
          update_message-has _ copy-Stable,
          sized,
          add_used-has,
          update_thread_has _ copy-Stable,
          evaluate_rules-has _ copy-Stable,
          forward_all-has,
        )
        depth 14

  admit-Gives :
      (now : ℕ) (services : Services) (recipient : String)
      → is_identified n ≡ true
      → Gives
          (has (is_inbound_copy provider box.id n))
          (admit now services provider box recipient n)
  unfolding admit
  admit-Gives now services recipient known = Gives-rest fresh _ (λ i.
      Gives-first (insert_message (inbound_row provider box.id recipient n i)) _
        (insert-Gives _ (row_is_copy recipient i known))
        (λ _. complete-has now services recipient _))

  check_then :
      (now : ℕ) (services : Services) (recipient : String)
      → is_identified n ≡ true
      → Gives
          (has (is_inbound_copy provider box.id n))
          (create_new now services provider box recipient n)
  check_then now services recipient known = Gives-rest (gets (find_mailbox box.id)) _ (λ row.
      Gives-rest (get_or_raise row) _ (λ locked.
        Gives-rest (check_quota services locked (incoming_size n)) _ (λ _.
          Gives-first (admit now services provider box recipient n) _
            (admit-Gives now services recipient known) (λ m. Keeps-pure (m, true)))))

  existing-Gives :
      (k : Exec (EmailMessage × Bool))
      → Gives (has (is_inbound_copy provider box.id n)) k
      → (s : Db) (o : Option EmailMessage)
      → first? (is_inbound_copy provider box.id n) s.messages ≡ o
      → (r : EmailMessage × Bool) → (existing_or o k s).0 ≡ ok r
      → has (is_inbound_copy provider box.id n) (existing_or o k s).1 ≡ true
  existing-Gives k hk s none e r h = hk.given s r h
  existing-Gives k hk s (some m) e r h =
      any-of_first? (is_inbound_copy provider box.id n) s.messages m e

-- By the provider's identifier or, where there is none, by the mailbox and the Message-ID.
abbrev IsNamedBy : Bool → ℕ → ℕ → NormalizedInboundMessage → EmailMessage → Type 0
IsNamedBy true provider mailbox n m =
    (m.provider ≡ some provider) × (m.provider_message_id ≡ some n.provider_message_id)
IsNamedBy false provider mailbox n m = (m.mailbox ≡ mailbox) × (m.rfc_message_id ≡ n.rfc_message_id)

-- The row is an inbound message of this delivery.
abbrev pub IsDelivery : ℕ → ℕ → NormalizedInboundMessage → EmailMessage → Type 0
IsDelivery provider mailbox n m =
    (m.direction ≡ DirectionType.inbound)
    × IsNamedBy (truthy n.provider_message_id) provider mailbox n m

copy-IsDelivery :
    (provider mailbox : ℕ) (n : NormalizedInboundMessage) (m : EmailMessage)
    → is_inbound_copy provider mailbox n m ≡ true
    → IsDelivery provider mailbox n m
copy-IsDelivery provider mailbox n m h = elim (Bool-cases (truthy n.provider_message_id)) [
  | inl e ↦
      let same_provider : (m.provider == some provider) ≡ true = ground (arith, e, h) in
      let same_id : (m.provider_message_id == some n.provider_message_id) ≡ true =
        ground (arith, e, h) in
      let inbound : (m.direction == DirectionType.inbound) ≡ true = ground (arith, e, h) in
      (beq-eq inbound, rw e (beq-eq same_provider, beq-eq same_id))
  | inr e ↦
      let same_mailbox : (m.mailbox == mailbox) ≡ true = ground (arith, e, h) in
      let same_id : (m.rfc_message_id == n.rfc_message_id) ≡ true = ground (arith, e, h) in
      let inbound : (m.direction == DirectionType.inbound) ≡ true = ground (arith, e, h) in
      (beq-eq inbound, rw e (beq-eq same_mailbox, beq-eq same_id))
]

-- Once a message that its provider or its own Message-ID identifies is ingested, a later delivery
-- of it to the mailbox, at any time, answers a stored row of that delivery, reports it as not new,
-- and changes nothing.
pub create_inbound_message_again :
    (now now' : ℕ) (services : Services) (provider : ℕ) (box : Mailbox) (recipient : String)
    (n : NormalizedInboundMessage) (s : Db) (r : EmailMessage × Bool)
    → is_identified n ≡ true
    → (create_inbound_message now services provider box recipient n s).0 ≡ ok r
    → let s' = (create_inbound_message now services provider box recipient n s).1 in
      (m : EmailMessage) × (create_inbound_message now' services provider box recipient n s'
        ≡ (ok (m, false), s'))
      × Mem m s'.messages
      × IsDelivery provider box.id n m
unfolding create_inbound_message
create_inbound_message_again now now' services provider box recipient n s r known done =
    let stored =
      existing-Gives provider box n (atomic (create_new now services provider box recipient n))
        (Gives-atomic _ (check_then provider box n now services recipient known)) s _ refl r done in
    let copy = is_inbound_copy provider box.id n in
    let (m, e) = first?-of_any copy _ stored in
    (
      m,
      rw e refl,
      Mem-first? copy _ m e,
      copy-IsDelivery provider box.id n m (first?-passes copy _ m e),
    )
