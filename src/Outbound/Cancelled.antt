-- ===== src/Outbound/Cancelled.antt =====
-- What the unique constraint on attempts refuses: a second first attempt.
use hedwig.Prelude.Text.{truthy, lower, strip}
use hedwig.Prelude.{option_eq, nat_eq, string_eq}
use hedwig.Prelude.{
  Bool, Bool-cases, List, [], any, any-implies, ap, arith, inl, inr, refl, some, true, update_where,
  ℕ, ◌&&◌, ◌++◌, ◌+◌, ◌==◌, ◌∙◌, ◌∷◌, ◌≡◌,
}
use hedwig.Exec.{Exc, Exec, err, get_or_raise, ok}
use hedwig.Outbound.Compose.{
  all_addresses, first_attempt, promote_draft_to_send, promoted, rfc_or_new,
}
use hedwig.Outbound.Rows.{
  attempt_clashes, contacted, insert_attempt, is_contact, new_contact, recipient_rows,
  record_contact, record_contacts,
}
use hedwig.Sending.Attempts.{is_message}
use hedwig.Sending.Dispatch.{find_domain, find_mailbox}
use hedwig.Services.{Services}
use hedwig.Tables.{Address, Db, Domain, EmailMessage, Mailbox, OutboundSendAttempt}

-- Recording contacts cannot fail and leaves the attempts.
abbrev Recorded : Exec (Unit {0}) → Db → Type 0
Recorded m s = (t : Db) × (m s ≡ (ok tt, t)) × (t.attempts ≡ s.attempts)

record_contact-Recorded :
    (now mailbox : ℕ) (r : Address) (s : Db) → Recorded (record_contact now mailbox r) s
unfolding record_contact
record_contact-Recorded now mailbox r s = elim (Bool-cases (truthy (lower (strip r.email)))) [
  | inr e ↦ (s, rw e refl, refl)
  | inl e ↦ elim (Bool-cases (any (is_contact mailbox (lower (strip r.email))) s.contacts)) [
    | inl k ↦ (
      record s {
        contacts =
            update_where (is_contact mailbox (lower (strip r.email))) (contacted now r.name)
              s.contacts;
      },
      rw (e, k) refl,
      refl,
    )
    | inr k ↦ (
      record s { contacts = new_contact now mailbox (lower (strip r.email)) r.name ∷ s.contacts },
      rw (e, k) refl,
      refl,
    )
  ]
]

record_contacts-Recorded :
    (now mailbox : ℕ) (rs : List Address) (s : Db) → Recorded (record_contacts now mailbox rs) s
unfolding record_contacts
record_contacts-Recorded now mailbox [] s = (s, refl, refl)
record_contacts-Recorded now mailbox (r ∷ rs) s =
    let (t, e, k) = record_contact-Recorded now mailbox r s in
    let (u, f, l) = record_contacts-Recorded now mailbox rs t in (u, rw (e, f) refl, l ∙ k)

-- A first attempt of the message is there already.
abbrev pub is_first_of : ℕ → OutboundSendAttempt → Bool
is_first_of i a = a.message == i && a.attempt_number == 1

insert_first :
    (services : Services) (message provider i : ℕ) (s : Db)
    → any (is_first_of message) s.attempts ≡ true
    → insert_attempt (first_attempt services message provider i) s ≡ (err Exc.integrity_error, s)
unfolding insert_attempt
insert_first services message provider i s h =
    rw
      (any-implies (is_first_of message)
        (attempt_clashes (first_attempt services message provider i)) (λ x k. ground arith)
        s.attempts h)
      refl

-- A message of a known mailbox and domain with a first attempt, as one whose send was cancelled
-- has, is not sent again: `promote_draft_to_send` raises `IntegrityError` and nothing changes.
pub promote_draft_to_send-second :
    (now : ℕ) (services : Services) (m : EmailMessage) (mailbox : Mailbox) (domain : Domain)
    (s : Db)
    → find_mailbox m.mailbox s ≡ some mailbox
    → find_domain mailbox.domain s ≡ some domain
    → any (is_first_of m.id) s.attempts ≡ true
    → promote_draft_to_send now services m s ≡ (err Exc.integrity_error, s)
unfolding promote_draft_to_send
promote_draft_to_send-second now services m mailbox domain s box dom h =
    let before = record s {
      next_id = s.next_id + 1;
      messages =
          update_where (is_message m.id)
            (promoted (rfc_or_new services domain m s.next_id) domain.provider) s.messages;
      recipients = recipient_rows m ++ s.recipients;
    } in
    let (t, e, k) = record_contacts-Recorded now m.mailbox (all_addresses m) before in
    rw (box, get_or_raise)
      (rw (dom, get_or_raise)
        (rw
          (
            e,
            insert_first services m.id domain.provider t.next_id
                (record t { next_id = t.next_id + 1 }) (ap (any (is_first_of m.id)) k ∙ h),
          )
          refl))
