-- ===== src/Delivery/Ranks.antt =====
-- The lifecycle order of statuses: no event lowers a status.
use hedwig.Prelude.{
  Bool, Bool-cases, Distinct, List, Option, Option-cases, String, [], ap, arith, false, first?,
  first?-key, first?-passes, first?-update, if◌then◌else◌, inl, inr, ltb, ltb→lt, nat_beq_iff,
  nat_eq, none, not, option_eq, refl, some, string_eq, sym, true, update_where, ℕ, ◌<◌, ◌==◌, ◌∙◌,
  ◌∷◌, ◌≡◌, ◌≤◌,
}
use hedwig.Delivery.{
  advance_message, advance_recipients, advances, apply_event, create_delivery_event,
  delivery_event_status, is_target, rank_or_zero, record_event, set_status, suppress_address,
  suppress_recipient,
}
use hedwig.Enums.{EmailStatus, email_status_eq}
use hedwig.Exec.{Exec, Result, err, ok, pure, then_with, ◌>>◌}
use hedwig.Exec.Unchanged.{Unchanged, Unchanged-bind, Unchanged-pure, then_same}
use hedwig.Normalized.{NormalizedDeliveryEvent}
use hedwig.Sending.Attempts.{find_message, is_message}
use hedwig.Tables.{Db, DeliveryEvent, EmailMessage, EmailRecipient}

abbrev pub mail_rank : Option EmailMessage → ℕ
mail_rank none = 0
mail_rank (some m) = rank_or_zero m.status

-- The same rows, none of them at a lower rank.
abbrev pub NoneLower : List EmailRecipient → List EmailRecipient → Type 0
NoneLower [] [] = Unit
NoneLower [] (r ∷ rs) = ⊥
NoneLower (q ∷ qs) [] = ⊥
NoneLower (q ∷ qs) (r ∷ rs) = (rank_or_zero q.status ≤ rank_or_zero r.status) × NoneLower qs rs

NoneLower-refl : (rs : List EmailRecipient) → NoneLower rs rs
NoneLower-refl [] = tt
NoneLower-refl (r ∷ rs) = (omega arith, NoneLower-refl rs)

advance_one :
    (m : EmailMessage) (email : String) (new : EmailStatus) (r : EmailRecipient)
    → advances m email new r ≡ true
    → rank_or_zero r.status ≤ rank_or_zero new
unfolding rank_or_zero
advance_one m email new r h = ground arith

NoneLower-advance :
    (m : EmailMessage) (email : String) (new : EmailStatus) (rs : List EmailRecipient)
    → NoneLower rs (update_where (advances m email new) (λ r. record r { status = new }) rs)
NoneLower-advance m email new [] = tt
NoneLower-advance m email new (r ∷ rs) = (
  elim (Bool-cases (advances m email new r)) [
    | inl e ↦ rw e (advance_one m email new r e)
    | inr e ↦ rw e (omega arith)
  ],
  NoneLower-advance m email new rs,
)

-- Equal keys of two rows that are found by key make them one row.
same_message :
    (i : ℕ) (m x : EmailMessage) (s : Db)
    → find_message m.id s ≡ some m
    → find_message i s ≡ some x
    → x.id == m.id ≡ true
    → x ≡ m
same_message i m x s found e same =
    let p : x.id ≡ i = (nat_beq_iff x.id i).0 (first?-passes (is_message i) s.messages x e) in
    let q : i ≡ m.id = sym p ∙ (nat_beq_iff x.id m.id).0 same in
    cc (e, found, ap (λ k. find_message k s) q)

rank-set_status :
    (m : EmailMessage) (new : EmailStatus) (i : ℕ) (s : Db)
    → find_message m.id s ≡ some m
    → rank_or_zero m.status < rank_or_zero new
    → mail_rank (find_message i s)
      ≤ mail_rank
          (first? (is_message i) (update_where (is_message m.id) (set_status new) s.messages))
rank-set_status m new i s found higher =
    rw (first?-update (is_message i) (is_message m.id) (set_status new) (λ x. refl) s.messages)
      (elim (Option-cases (find_message i s)) [
        | inl e ↦ rw e (omega arith)
        | inr (x, e) ↦ rw e (elim (Bool-cases (x.id == m.id)) [
          | inl same ↦ rw same (
              omega (
                arith,
                ap (λ (r : EmailMessage). rank_or_zero r.status)
                    (same_message i m x s found e same),
              ))
          | inr other ↦ rw other (omega arith)
        ])
      ])

-- `advance_message` writes a higher rank or nothing.
mail_rank-advance :
    (m : EmailMessage) (new : Option EmailStatus) (i : ℕ) (s : Db)
    → find_message m.id s ≡ some m
    → mail_rank (find_message i s) ≤ mail_rank (find_message i (advance_message m new s).1)
unfolding advance_message
mail_rank-advance m none i s found = omega arith
mail_rank-advance m (some new) i s found =
    elim (Bool-cases (ltb (rank_or_zero m.status) (rank_or_zero new))) [
      | inl e ↦ rw e (rank-set_status m new i s found (ltb→lt _ _ e))
      | inr e ↦ rw e (omega arith)
    ]

messages-record_event :
    (now : ℕ) (m : EmailMessage) (n : NormalizedDeliveryEvent) (raw : ℕ) (s : Db)
    → (record_event now m n raw s).1.messages ≡ s.messages
unfolding record_event
messages-record_event now m n raw s = ground arith

abbrev messages : Db → List EmailMessage
messages s = s.messages

advance_recipients_messages :
    (m : EmailMessage) (email : String) (new : Option EmailStatus)
    → Unchanged messages (advance_recipients m email new)
unfolding advance_recipients
advance_recipients_messages m email new = record { same = λ s. ground arith }

suppress_recipient_messages :
    (domain : Option ℕ) (m : EmailMessage) (email : String) (raw : ℕ) (reason : Option String)
    → Unchanged messages (suppress_recipient domain m email raw reason)
unfolding suppress_recipient suppress_address
suppress_recipient_messages none m email raw reason = record { same = λ s. ground arith }
suppress_recipient_messages (some d) m email raw reason = record { same = λ s. ground arith }

pub messages-apply_event :
    (domain : Option ℕ) (m : EmailMessage) (n : NormalizedDeliveryEvent) (raw : ℕ) (s : Db)
    → (apply_event domain m n raw s).1.messages
      ≡ (advance_message m (delivery_event_status n.event_type) s).1.messages
unfolding apply_event
messages-apply_event domain m n raw s =
    then_same messages _ (advance_message m (delivery_event_status n.event_type) s) _
      (λ _.
        Unchanged-bind _ _ (advance_recipients_messages m n.recipient _)
          (λ _. suppress_recipient_messages domain m n.recipient raw _))
      refl

abbrev after_record :
    Option ℕ
    → EmailMessage
    → NormalizedDeliveryEvent
    → ℕ
    → DeliveryEvent × Bool
    → Exec (Option DeliveryEvent)
after_record domain m n raw recorded =
    if not recorded.1
    then pure (some recorded.0)
    else do apply_event domain m n raw; pure (some recorded.0)

abbrev rank_in : ℕ → List EmailMessage → ℕ
rank_in i rows = mail_rank (first? (is_message i) rows)

rank-after_record :
    (domain : Option ℕ) (m : EmailMessage) (n : NormalizedDeliveryEvent) (raw i : ℕ) (s : Db)
    → find_message m.id s ≡ some m
    → (r : Result (DeliveryEvent × Bool) × Db) → r.1.messages ≡ s.messages
    → mail_rank (find_message i s)
      ≤ mail_rank (find_message i (then_with (after_record domain m n raw) r).1)
rank-after_record domain m n raw i s found (ok (e, true), t) same = omega (
  arith,
  ap (rank_in i) same,
  mail_rank-advance m (delivery_event_status n.event_type) i t
      (ap (first? (is_message m.id)) same ∙ found),
  ap (rank_in i) (
      then_same messages (λ _. pure (some e)) (apply_event domain m n raw t) _
        (λ _. Unchanged-pure (some e)) (messages-apply_event domain m n raw t)),
)
rank-after_record domain m n raw i s found (ok (e, false), t) same = rw same (omega arith)
rank-after_record domain m n raw i s found (err e, t) same = rw same (omega arith)

-- Where message keys are distinct, applying an event leaves no message at a lower rank than before,
-- whatever the order in which events arrive: a late "delivered" undoes no "opened", and an "opened"
-- no "bounced".
pub mail_rank-create_delivery_event :
    (now : ℕ) (domain : Option ℕ) (n : NormalizedDeliveryEvent) (raw i : ℕ) (s : Db)
    → Distinct (λ (m : EmailMessage). m.id) s.messages
    → mail_rank (find_message i s)
      ≤ mail_rank (find_message i (create_delivery_event now domain n raw s).1)
unfolding create_delivery_event
mail_rank-create_delivery_event now domain n raw i s distinct =
    elim (Option-cases (first? (is_target n) s.messages)) [
      | inl e ↦ rw e (omega arith)
      | inr (m, e) ↦ rw e (
          rank-after_record domain m n raw i s
            (first?-key (λ (x : EmailMessage). x.id) (is_target n) s.messages m distinct e)
            (record_event now m n raw s) (messages-record_event now m n raw s))
    ]
