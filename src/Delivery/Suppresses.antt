-- ===== src/Delivery/Suppresses.antt =====
-- From a bounce, a complaint or an unsubscription to the refusal of later sends.
use hedwig.Prelude.Text.{truthy, lower, strip}
use hedwig.Prelude.{
  Bool, Bool-cases, List, Option, String, [], any, any-weaken, ap, arith, beq_refl, false, first?,
  inl, inr, map, nat_eq, none, option_eq, refl, select, some, string_eq, true, ℕ, ◌&&◌, ◌==◌, ◌∙◌,
  ◌∷◌, ◌≡◌,
}
use hedwig.Delivery.{
  advance_message, advance_recipients, apply_event, create_delivery_event, delivery_event_status,
  event_for, is_suppressed_row, is_target, record_event, same_suppressed_row, suppress_address,
  suppress_recipient, suppression_reason,
}
use hedwig.Delivery.Repeats.{then_pure}
use hedwig.Enums.{EmailStatus, email_status_eq}
use hedwig.Exec.{Exc, err, ok}
use hedwig.Exec.Unchanged.{Unchanged, unchanged_rules}
use hedwig.Normalized.{NormalizedDeliveryEvent}
use hedwig.Sending.Dispatch.{send_from, suppressed_error}
use hedwig.Sending.Dispatch.Branches.{refused_state, send_from-suppressed}
use hedwig.Sending.Suppression.{
  mem_text, normalized_emails, recheck_suppressed_recipients, recipient_emails, suppressed_emails,
  suppresses, unexpired,
}
use hedwig.Services.{Services}
use hedwig.Tables.{
  Db, DeliveryEvent, Domain, EmailMessage, EmailProvider, Mailbox, OutboundSendAttempt,
  SuppressedAddress,
}

abbrev suppressed_rows : Db → List SuppressedAddress
suppressed_rows s = s.suppressed

-- A row of the whole domain, for an address, that has not expired.
abbrev pub IsSuppressed : ℕ → ℕ → String → Db → Type 0
IsSuppressed now domain email s =
    any (λ r. is_suppressed_row domain email r && unexpired now r.expires_at) s.suppressed ≡ true

same-is_suppressed :
    (domain : ℕ) (email : String) (r : SuppressedAddress)
    → is_suppressed_row domain email r ≡ true
    → same_suppressed_row domain email r ≡ true
same-is_suppressed domain email r h = ground (
  arith,
  h,
  (string_eq.beq_iff r.email email).0,
  λ (p : r.email ≡ email). (string_eq.beq_iff (lower r.email) (lower email)).1 (ap lower p),
)

-- Suppressing an address of which the domain has no row yet leaves it suppressed for good.
IsSuppressed-suppress_address :
    (now domain : ℕ) (email reason : String) (raw : ℕ) (s : Db)
    → any (same_suppressed_row domain email) s.suppressed ≡ false
    → IsSuppressed now domain email (suppress_address domain email reason raw s).1
unfolding suppress_address
IsSuppressed-suppress_address now domain email reason raw s fresh =
    rw
      (any-weaken (is_suppressed_row domain email) (same_suppressed_row domain email)
        (same-is_suppressed domain email) s.suppressed fresh)
      (rw fresh (rw (beq_refl domain) (rw (beq_refl email) refl)))

select-some :
    (p q : SuppressedAddress → Bool) (rows : List SuppressedAddress)
    → ((r : SuppressedAddress) → p r ≡ true → q r ≡ true)
    → any p rows ≡ true
    → (x : String) × (xs : List String) × (map (λ (r : SuppressedAddress). r.email) (select q rows)
        ≡ x ∷ xs)
select-some p q [] h e = cc
select-some p q (r ∷ rows) h e = elim (Bool-cases (q r)) [
  | inl k ↦ (r.email, map (λ (r : SuppressedAddress). r.email) (select q rows), rw k refl)
  | inr k ↦ rw k (select-some p q rows h (ground (arith, h r)))
]

-- An address as the webhook and the check at send time write it.
abbrev pub IsNormalized : String → Type 0
IsNormalized email = (truthy email ≡ true) × (lower (strip email) ≡ email)

mem-normalized :
    (email : String) (es : List String)
    → IsNormalized email
    → mem_text email es ≡ true
    → mem_text email (normalized_emails es) ≡ true
unfolding normalized_emails
mem-normalized email [] n h = cc
mem-normalized email (e ∷ es) n h = elim (Bool-cases (e == email)) [
  | inl k ↦ rw ((string_eq.beq_iff e email).0 k) (rw n.0 (rw n.1 (rw (beq_refl email) refl)))
  | inr k ↦ ground (arith, mem-normalized email es n)
]

suppresses-row :
    (now : ℕ) (mailbox : Mailbox) (email : String) (emails : List String) (r : SuppressedAddress)
    → mem_text email emails ≡ true
    → is_suppressed_row mailbox.domain email r && unexpired now r.expires_at ≡ true
    → suppresses now mailbox emails r ≡ true
suppresses-row now mailbox email emails r mem h =
    let same : r.email ≡ email = (string_eq.beq_iff r.email email).0 (ground arith) in
    let found : mem_text r.email emails ≡ true = ap (λ e. mem_text e emails) same ∙ mem in
    ground (arith, found)

-- A message to a suppressed address is stopped by the check at send time.
pub recheck_finds :
    (now : ℕ) (mailbox : Mailbox) (email : String) (m : EmailMessage) (s : Db)
    → IsNormalized email
    → mem_text email (recipient_emails m) ≡ true
    → IsSuppressed now mailbox.domain email s
    → (x : String) × (xs : List String) × (recheck_suppressed_recipients now mailbox m s ≡ x ∷ xs)
unfolding recheck_suppressed_recipients suppressed_emails
recheck_finds now mailbox email m s n mem h =
    select-some _ (suppresses now mailbox (normalized_emails (recipient_emails m))) s.suppressed
      (λ r k. suppresses-row now mailbox email _ r (mem-normalized email _ n mem) k) h

advance_message_ok :
    (m : EmailMessage) (new : Option EmailStatus) (s : Db) → (advance_message m new s).0 ≡ ok tt
unfolding advance_message
advance_message_ok m none s = refl
advance_message_ok m (some new) s = ground arith

advance_recipients_ok :
    (m : EmailMessage) (email : String) (new : Option EmailStatus) (s : Db)
    → (advance_recipients m email new s).0 ≡ ok tt
unfolding advance_recipients
advance_recipients_ok m email none s = refl
advance_recipients_ok m email (some new) s = ground arith

advance_message_rows :
    (m : EmailMessage) (new : Option EmailStatus)
    → Unchanged suppressed_rows (advance_message m new)
unfolding advance_message
advance_message_rows m none = search unchanged_rules
advance_message_rows m (some new) = record { same = λ s. ground arith }

advance_recipients_rows :
    (m : EmailMessage) (email : String) (new : Option EmailStatus)
    → Unchanged suppressed_rows (advance_recipients m email new)
unfolding advance_recipients
advance_recipients_rows m email new = record { same = λ s. ground arith }

IsSuppressed-apply_event :
    (now d : ℕ) (m : EmailMessage) (n : NormalizedDeliveryEvent) (raw : ℕ) (reason : String)
    (s : Db)
    → suppression_reason n.event_type ≡ some reason
    → truthy n.recipient ≡ true
    → any (same_suppressed_row d n.recipient) s.suppressed ≡ false
    → IsSuppressed now d n.recipient (apply_event (some d) m n raw s).1
unfolding apply_event suppress_recipient
IsSuppressed-apply_event now d m n raw reason s suppressing known fresh =
    let new = delivery_event_status n.event_type in
    let t = (advance_message m new s).1 in
    let u = (advance_recipients m n.recipient new t).1 in
    rw (advance_message_ok m new s) (
      rw (advance_recipients_ok m n.recipient new t) (
        rw (suppressing, suppress_recipient)
          (rw known (
            IsSuppressed-suppress_address now d n.recipient reason raw u (
              ap (any (same_suppressed_row d n.recipient)) (
                (advance_recipients_rows m n.recipient new).same t
                ∙ (advance_message_rows m new).same s)
              ∙ fresh)))))

suppressed-record_event :
    (now : ℕ) (m : EmailMessage) (n : NormalizedDeliveryEvent) (raw : ℕ) (s : Db)
    → (record_event now m n raw s).1.suppressed ≡ s.suppressed
unfolding record_event
suppressed-record_event now m n raw s = ground arith

module _ (now d raw : ℕ) (n : NormalizedDeliveryEvent) (m : EmailMessage) (e : DeliveryEvent)
    (reason : String) (s : Db) (target : first? (is_target n) s.messages ≡ some m)
    (is_new : (record_event now m n raw s).0 ≡ ok (e, true))
    (suppressing : suppression_reason n.event_type ≡ some reason)
    (normalized : IsNormalized n.recipient)
    (fresh : any (same_suppressed_row d n.recipient) s.suppressed ≡ false) where
  abbrev event_state : Db
  event_state = (create_delivery_event now (some d) n raw s).1

  IsSuppressed-create :
      (now' : ℕ) → IsSuppressed now' d n.recipient (create_delivery_event now (some d) n raw s).1
  unfolding create_delivery_event
  IsSuppressed-create now' =
      let t = (record_event now m n raw s).1 in
      rw (target, event_for)
        (rw is_new (
          rw (then_pure (some e) (apply_event (some d) m n raw t)) (
            IsSuppressed-apply_event now' d m n raw reason t suppressing normalized.0 (
              ap (any (same_suppressed_row d n.recipient)) (suppressed-record_event now m n raw s)
              ∙ fresh))))

  -- After a new bounce, complaint or unsubscription, recorded for the first time, for an address in
  -- lower case and without white space round it of which the domain has no suppression row, no
  -- later message to that address from a mailbox of the domain is sent: with sending on, the
  -- dispatch ends in a permanent error before any provider is called.
  pub event_blocks_sends :
      (now' : ℕ) (services : Services) (mailbox : Mailbox) (domain : Domain)
      (provider : EmailProvider) (later : EmailMessage) (a : OutboundSendAttempt)
      → mailbox.domain ≡ d
      → mailbox.send_enabled && domain.outbound_enabled ≡ true
      → mem_text n.recipient (recipient_emails later) ≡ true
      → (x : String) × (xs : List String) × (send_from now' services mailbox domain provider later a
            event_state
          ≡ (
            err (Exc.permanent_send_error (suppressed_error (x ∷ xs))),
            refused_state now' later a "recipient_suppressed"
                (suppressed_error (x ∷ xs))
                event_state,
          ))
  event_blocks_sends now' services mailbox domain provider later a same on mem =
      let (x, xs, found) =
        recheck_finds now' mailbox n.recipient later event_state normalized mem
          (rw same (IsSuppressed-create now')) in
      (
        x,
        xs,
        send_from-suppressed now' services mailbox domain provider later a event_state x xs on
            found,
      )
