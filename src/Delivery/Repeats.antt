-- ===== src/Delivery/Repeats.antt =====
-- A delivery event that comes twice, and the recipients' statuses.
use hedwig.Prelude.{
  Bool, Bool-cases, List, Mem, Mem-first?, Option, beq-eq, first?-passes, sym, Option-cases, String,
  ap, arith, beq_refl, first?, first?-update, inl, inr, ltb, nat_eq, none, option_eq, refl, some,
  string_eq, true, ℕ, ◌&&◌, ◌==◌, ◌∙◌, ◌∷◌, ◌≡◌,
}
use hedwig.Delivery.{
  advance_message, advance_recipients, apply_event, create_delivery_event, delivery_event_status,
  event_for, get_or_add, is_event, is_target, new_event, rank_or_zero, record_event, set_status,
  suppress_address, suppress_recipient,
}
use hedwig.Delivery.Ranks.{messages-apply_event}
use hedwig.Enums.{EmailStatus, email_status_eq, event_type_eq}
use hedwig.Exec.{Result, err, ok, pure, then_with}
use hedwig.Exec.Unchanged.{Unchanged, unchanged_rules}
use hedwig.Normalized.{NormalizedDeliveryEvent}
use hedwig.Prelude.Text.{truthy}
use hedwig.Sending.Attempts.{is_message}
use hedwig.Tables.{Db, DeliveryEvent, EmailMessage}

abbrev events : Db → List DeliveryEvent
events s = s.events

advance_message_events :
    (m : EmailMessage) (new : Option EmailStatus) → Unchanged events (advance_message m new)
unfolding advance_message
advance_message_events m none = search unchanged_rules
advance_message_events m (some new) = record { same = λ s. ground arith }

advance_recipients_events :
    (m : EmailMessage) (email : String) (new : Option EmailStatus)
    → Unchanged events (advance_recipients m email new)
unfolding advance_recipients
advance_recipients_events m email new = record { same = λ s. ground arith }

suppress_recipient_events :
    (domain : Option ℕ) (m : EmailMessage) (email : String) (raw : ℕ) (reason : Option String)
    → Unchanged events (suppress_recipient domain m email raw reason)
unfolding suppress_recipient suppress_address
suppress_recipient_events none m email raw reason = record { same = λ s. ground arith }
suppress_recipient_events (some d) m email raw reason = record { same = λ s. ground arith }

apply_event_events :
    (domain : Option ℕ) (m : EmailMessage) (n : NormalizedDeliveryEvent) (raw : ℕ)
    → Unchanged events (apply_event domain m n raw)
unfolding apply_event
apply_event_events domain m n raw =
    search (
      unchanged_rules, advance_message_events, advance_recipients_events, suppress_recipient_events,
    )

-- The message that an event is for is found again after its status has moved.
target-advance :
    (n : NormalizedDeliveryEvent) (m : EmailMessage) (new : Option EmailStatus) (s : Db)
    → first? (is_target n) s.messages ≡ some m
    → (m' : EmailMessage) × (first? (is_target n) (advance_message m new s).1.messages ≡ some m')
      × (m'.id ≡ m.id)
unfolding advance_message
target-advance n m none s found = (m, found, refl)
target-advance n m (some new) s found =
    elim (Bool-cases (ltb (rank_or_zero m.status) (rank_or_zero new))) [
      | inl e ↦ rw e (
        set_status new m,
        first?-update (is_target n) (is_message m.id) (set_status new) (λ x. refl) s.messages
            ∙ rw found (rw (beq_refl m.id) refl),
        refl,
      )
      | inr e ↦ rw e (m, found, refl)
    ]

-- The test of `is_event`, by the message's key alone.
abbrev event_at : ℕ → NormalizedDeliveryEvent → DeliveryEvent → Bool
event_at i n e =
    e.message == i
    && e.event_type == n.event_type
    && e.recipient == n.recipient
    && e.provider_event_id == n.provider_event_id

abbrev answered : DeliveryEvent → Db → Result (Option DeliveryEvent) × Db
answered e s = (ok (some e), s)

-- An event that is on record, under an id of the provider, is answered and changes nothing.
recorded_before :
    (now : ℕ) (domain : Option ℕ) (n : NormalizedDeliveryEvent) (raw i : ℕ) (s : Db)
    → truthy n.provider_event_id ≡ true
    → (m : EmailMessage) × (first? (is_target n) s.messages ≡ some m) × (m.id ≡ i)
    → (e : DeliveryEvent) → first? (event_at i n) s.events ≡ some e
    → create_delivery_event now domain n raw s ≡ answered e s
unfolding create_delivery_event record_event
recorded_before now domain n raw i s known (m, target, same) e old =
    rw (target, event_for)
      (rw known (rw (ap (λ k. first? (event_at k n) s.events) same ∙ old) refl))

abbrev IsOnRecord : NormalizedDeliveryEvent → ℕ → Db → Type 0
IsOnRecord n i s =
    ((m : EmailMessage) × (first? (is_target n) s.messages ≡ some m) × (m.id ≡ i))
    × ((e : DeliveryEvent) × (first? (event_at i n) s.events ≡ some e))

-- Where the message of the event has key `i`, an answer is the event that is found on record.
abbrev IsAnswerOf : NormalizedDeliveryEvent → ℕ → Db → Result (Option DeliveryEvent) → Type 0
IsAnswerOf n i s r = (x : Option DeliveryEvent) → r ≡ ok x → first? (event_at i n) s.events ≡ x

IsOnRecord-apply :
    (domain : Option ℕ) (n : NormalizedDeliveryEvent) (m : EmailMessage) (raw : ℕ)
    (e : DeliveryEvent) (t : Db)
    → first? (is_target n) t.messages ≡ some m
    → first? (event_at m.id n) t.events ≡ some e
    → IsOnRecord n m.id (apply_event domain m n raw t).1
IsOnRecord-apply domain n m raw e t target old =
    let (m', found, same) = target-advance n m (delivery_event_status n.event_type) t target in
    (
      (m', ap (first? (is_target n)) (messages-apply_event domain m n raw t) ∙ found, same),
      (e, ap (first? (event_at m.id n)) ((apply_event_events domain m n raw).same t) ∙ old),
    )

pub then_pure : {A B : Type 0} (b : B) (r : Result A × Db) → (then_with (λ _. pure b) r).1 ≡ r.1
then_pure b (ok a, t) = refl
then_pure b (err e, t) = refl

answer_pure :
    {A B : Type 0} (b x : B) (r : Result A × Db) → (then_with (λ _. pure b) r).0 ≡ ok x → x ≡ b
answer_pure b x (ok a, t) h = ap (λ (r : Result _). elim r [ ok y ↦ y | err e ↦ b ]) (sym h)
answer_pure b x (err e, t) h = cc

new_event_at :
    (now : ℕ) (m : EmailMessage) (n : NormalizedDeliveryEvent) (raw : ℕ)
    → event_at m.id n (new_event now m n raw) ≡ true
new_event_at now m n raw =
    rw (beq_refl m.id)
      (rw (beq_refl n.event_type) (rw (beq_refl n.recipient) (beq_refl n.provider_event_id)))

IsOnRecord-create :
    (now : ℕ) (domain : Option ℕ) (n : NormalizedDeliveryEvent) (raw : ℕ) (m : EmailMessage)
    (s : Db)
    → truthy n.provider_event_id ≡ true
    → first? (is_target n) s.messages ≡ some m
    → let r = create_delivery_event now domain n raw s in
      IsOnRecord n m.id r.1 × IsAnswerOf n m.id r.1 r.0
unfolding create_delivery_event record_event
IsOnRecord-create now domain n raw m s known target =
    let e₀ = new_event now m n raw in
    let t : Db = record s { events = e₀ ∷ s.events } in
    rw (target, event_for)
      (rw known (elim (Option-cases (first? (is_event m n) s.events)) [
        | inl e ↦
            rw (e, get_or_add)
              (
                rw (then_pure (some e₀) (apply_event domain m n raw t)) (
                    IsOnRecord-apply domain n m raw e₀ t target
                      (rw (new_event_at now m n raw) refl)),
                λ x h. rw (then_pure (some e₀) (apply_event domain m n raw t)) (
                    ap (first? (event_at m.id n)) ((apply_event_events domain m n raw).same t)
                    ∙ rw (new_event_at now m n raw) refl
                    ∙ sym (answer_pure (some e₀) x (apply_event domain m n raw t) h)),
              )
        | inr (e, old) ↦
            rw (old, get_or_add)
              (
                ((m, target, refl), (e, old)),
                λ x h. old ∙ ap (λ (r : Result _). elim r [ ok y ↦ y | err z ↦ none ]) h,
              )
      ]))

-- The first run answered this event, if it answered.
abbrev pub AnsweredFirst : DeliveryEvent → Result (Option DeliveryEvent) → Type 0
AnsweredFirst e (ok x) = x ≡ some e
AnsweredFirst e (err z) = Unit

answered_first :
    (n : NormalizedDeliveryEvent) (i : ℕ) (s : Db) (e : DeliveryEvent)
    (r : Result (Option DeliveryEvent))
    → IsAnswerOf n i s r
    → first? (event_at i n) s.events ≡ some e
    → AnsweredFirst e r
answered_first n i s e (ok x) h old = sym (h x refl) ∙ old
answered_first n i s e (err z) h old = tt

-- An event for a known message that comes again under the same id of the provider, at any time and
-- by any webhook, is answered with the event that is stored for the message under that id, which is
-- what the first run answered if it did, and changes nothing: not even if the first run raised
-- after it had recorded the event.
pub create_delivery_event_again :
    (now now' : ℕ) (domain domain' : Option ℕ) (n : NormalizedDeliveryEvent) (raw raw' : ℕ)
    (m : EmailMessage) (s : Db)
    → truthy n.provider_event_id ≡ true
    → first? (is_target n) s.messages ≡ some m
    → let s' = (create_delivery_event now domain n raw s).1 in
      (e : DeliveryEvent) × (create_delivery_event now' domain' n raw' s' ≡ answered e s')
      × Mem e s'.events
      × (e.message ≡ m.id)
      × (e.provider_event_id ≡ n.provider_event_id)
      × AnsweredFirst e (create_delivery_event now domain n raw s).0
create_delivery_event_again now now' domain domain' n raw raw' m s known target =
    let ((target', (e, old)), first) = IsOnRecord-create now domain n raw m s known target in
    let passes = first?-passes (event_at m.id n) _ e old in
    let of_message : (e.message == m.id) ≡ true = ground (arith, passes) in
    let of_event : (e.provider_event_id == n.provider_event_id) ≡ true = ground (arith, passes) in
    (
      e,
      recorded_before now' domain' n raw' m.id _ known target' e old,
      Mem-first? (event_at m.id n) _ e old,
      beq-eq of_message,
      beq-eq of_event,
      answered_first n m.id (create_delivery_event now domain n raw s).1 e
          (create_delivery_event now domain n raw s).0 first old,
    )
