-- ===== src/Api/Trash.antt =====
-- What moving messages to the trash does to their sends.
use hedwig.Prelude.{
  Bool, Bool-cases, List, [], any, any-select, any-weaken, arith, beq_refl, false, first?,
  first?-exists, first?-update_self, inl, inr, length, nat_eq, none, not, option_eq, refl, select,
  some, string_eq, true, ℕ, ◌&&◌, ◌==◌, ◌∙◌, ◌∷◌, ◌≡◌, ◌⊎◌,
}
use hedwig.Access.{User, for_api_user}
use hedwig.Api.{can_write_mailbox, get_object, visible_messages}
use hedwig.Api.Messages.{
  bulk_state, cancel_if_trashing, cancel_where, count_distinct, get_listed, is_empty_patch,
  is_trashing, save_listed, state,
}
use hedwig.Enums.{DirectionType, EmailStatus, Folder, direction_type_eq, email_status_eq, folder_eq}
use hedwig.Exec.{Exc, err, gets, ok}
use hedwig.Exec.Unchanged.{
  Unchanged, Unchanged-atomic, Unchanged-bind, Unchanged-gets, Unchanged-modify, Unchanged-pure,
}
use hedwig.Sending.Attempts.{
  back_to_draft, cancel_scheduled_send, cancelled_attempt, find_message, is_attempt, is_message,
  is_pending_of, reserve_attempt_for_sending,
}
use hedwig.Sending.Attempts.Once.{cancel_lem, cancelled_state, find_attempt-update, reserve-taken}
use hedwig.States.{
  StatePatch, create_states, current, has_state, is_state, new_state, patched, save_states, upsert,
  upserted,
}
use hedwig.Tables.{Db, EmailMessage, EmailMessageUserState, OutboundSendAttempt}

module _ (now : ℕ) (may : EmailMessage → Bool) where
  cancel_none :
      (ms : List EmailMessage) (s : Db)
      → any may ms ≡ false
      → cancel_where now may ms s ≡ (ok tt, s)
  unfolding cancel_where
  cancel_none [] s h = refl
  cancel_none (m ∷ ms) s h =
      let e : may m ≡ false = ground arith in rw e (cancel_none ms s (ground arith))

-- The messages that a request names and its user may write to.
abbrev pub names_writable : ℕ → User → List ℕ → Db → EmailMessage → Bool
names_writable now user ids s m = any (λ j. j == m.id) ids && can_write_mailbox now user m.mailbox s

abbrev pub sends : Db → List EmailMessage × List OutboundSendAttempt
sends s = (s.messages, s.attempts)

module _ (now : ℕ) (user : User) where
  -- What a lookup answers.
  pub get_listed_cases :
      (ids : List ℕ) (s : Db)
      → ((e : Exc) × (get_listed now user ids s ≡ (err e, s)))
        ⊎ (get_listed now user ids s
            ≡ (ok (select (λ m. any (λ j. j == m.id) ids) (visible_messages now user s)), s))
  unfolding get_listed
  get_listed_cases [] s =
      inl (Exc.validation_error "Provide a non-empty list of message ids.", refl)
  get_listed_cases (i ∷ is) s =
      let ms = select (λ m. any (λ j. j == m.id) (i ∷ is)) (visible_messages now user s) in
      elim (Bool-cases (not (length ms == count_distinct (i ∷ is)))) [
        | inl e ↦ inl (Exc.not_found "One or more messages were not found.", rw e refl)
        | inr e ↦ inr (rw e refl)
      ]

  create_states-sends :
      (ms : List EmailMessage) (p : StatePatch) → Unchanged sends (create_states now user.id p ms)
  unfolding create_states
  create_states-sends [] p = record { same = λ s. refl }
  create_states-sends (m ∷ ms) p = record {
    same = λ s.
        let next : Db = record s {
          user_states = patched now p (new_state user.id m) ∷ s.user_states;
        } in
        elim (Bool-cases (any (is_state user.id m.id) s.user_states)) [
          | inl e ↦ rw e refl
          | inr e ↦ rw e ((create_states-sends ms p).same next)
        ];
  }

  save_states-sends :
      (ms : List EmailMessage) (p : StatePatch) → Unchanged sends (save_states now user.id ms p)
  unfolding save_states
  save_states-sends ms p = Unchanged-bind (gets (λ s. s.user_states)) _ (Unchanged-gets _) (λ rows.
      Unchanged-bind _ _
        (Unchanged-atomic _ (
          Unchanged-bind _ _
            (create_states-sends (select (λ m. not (has_state user.id rows m)) ms) p)
            (λ _. Unchanged-modify _ (λ s. refl))))
        (λ _. Unchanged-pure _))

  listed_unwritable :
      (ids : List ℕ) (s : Db)
      → any (names_writable now user ids s) s.messages ≡ false
      → any
          (λ m. can_write_mailbox now user m.mailbox s)
          (select (λ m. any (λ j. j == m.id) ids) (visible_messages now user s))
        ≡ false
  unfolding visible_messages
  listed_unwritable ids s h =
      any-select (λ m. can_write_mailbox now user m.mailbox s) (λ m. any (λ j. j == m.id) ids)
        (visible_messages now user s)
      ∙ any-select (names_writable now user ids s)
          (λ m. any (λ b. b.id == m.mailbox) (for_api_user now (some user) s)) s.messages
      ∙ any-weaken _ (names_writable now user ids s) (λ m k. ground arith) s.messages h

  cancel_if_unwritable :
      (p : StatePatch) (ms : List EmailMessage) (s : Db)
      → any (λ m. can_write_mailbox now user m.mailbox s) ms ≡ false
      → cancel_if_trashing now user p ms s ≡ (ok tt, s)
  cancel_if_unwritable p ms s h = elim (Bool-cases (is_trashing p)) [
    | inl e ↦ rw e (cancel_none now (λ m. can_write_mailbox now user m.mailbox s) ms s h)
    | inr e ↦ rw e refl
  ]

  save_listed_unwritable :
      (ids : List ℕ) (p : StatePatch) (s : Db)
      → any (names_writable now user ids s) s.messages ≡ false
      → sends (save_listed now user p ids s).1 ≡ sends s
  save_listed_unwritable ids p s h = elim (get_listed_cases ids s) [
    | inl (e, k) ↦ rw k refl
    | inr k ↦
        let ms = select (λ m. any (λ j. j == m.id) ids) (visible_messages now user s) in
        rw (k, cancel_if_unwritable p ms s (listed_unwritable ids s h))
          ((save_states-sends ms p).same s)
  ]

-- Whoever may write to the mailbox of none of the listed messages changes no message and no send
-- attempt by a bulk change of state, trashing included, whatever it answers.
pub bulk_state-unwritable :
    (now : ℕ) (user : User) (ids : List ℕ) (p : StatePatch) (s : Db)
    → any (names_writable now user ids s) s.messages ≡ false
    → sends (bulk_state now user ids p s).1 ≡ sends s
unfolding bulk_state
bulk_state-unwritable now user [] p s h = refl
bulk_state-unwritable now user (i ∷ is) p s h = elim (Bool-cases (is_empty_patch p)) [
  | inl e ↦ rw e refl
  | inr e ↦ rw e (save_listed_unwritable now user (i ∷ is) p s h)
]

-- The database after a queued message is trashed by someone who may write.
abbrev trashed : ℕ → User → StatePatch → EmailMessage → OutboundSendAttempt → Db → Db
trashed now user p m a s = record (cancelled_state now m a s) {
  user_states = upserted now user.id p m s.user_states;
}

state-trashed :
    (now i : ℕ) (user : User) (p : StatePatch) (m : EmailMessage) (a : OutboundSendAttempt) (s : Db)
    → first? (is_message i) (visible_messages now user s) ≡ some m
    → can_write_mailbox now user m.mailbox s ≡ true
    → p.folder ≡ some Folder.trash
    → cancel_scheduled_send now m s ≡ (ok true, cancelled_state now m a s)
    → state now user i p s
      ≡ (ok (patched now p (current user.id m s.user_states)), trashed now user p m a s)
unfolding state get_object cancel_where upsert
state-trashed now i user p m a s seen may trash done = rw (seen, trash) (rw (may, done) refl)

-- Whoever may write to a message's mailbox and moves it to the trash, while it is queued with a
-- pending attempt, stops the send: the request answers the state with the folder, the message is a
-- draft again, and no worker takes the attempt afterwards.
pub state-stops_send :
    (now now' i : ℕ) (user : User) (p : StatePatch) (m : EmailMessage) (a : OutboundSendAttempt)
    (s : Db)
    → first? (is_message i) (visible_messages now user s) ≡ some m
    → can_write_mailbox now user m.mailbox s ≡ true
    → p.folder ≡ some Folder.trash
    → m.direction ≡ DirectionType.outbound
    → m.status ≡ EmailStatus.queued
    → first? (is_pending_of m.id) s.attempts ≡ some a
    → find_message m.id s ≡ some m
    → let r = state now user i p s in
      ((x : EmailMessageUserState) × ((r.0 ≡ ok x) × (x.folder ≡ Folder.trash)))
      × (find_message m.id r.1 ≡ some (back_to_draft m))
      × (reserve_attempt_for_sending now' a.id r.1 ≡ (ok none, r.1))
state-stops_send now now' i user p m a s seen may trash out queued pending found =
    let (b, same) =
      first?-exists (is_pending_of m.id) (is_attempt a.id) s.attempts a pending (beq_refl a.id) in
    rw (state-trashed now i user p m a s seen may trash (cancel_lem now m a s out queued pending)) (
      (patched now p (current user.id m s.user_states), (refl, rw trash refl)),
      first?-update_self (is_message m.id) back_to_draft (λ x. refl) s.messages m found,
      reserve-taken now' a.id (trashed now user p m a s) (cancelled_attempt now b)
          (find_attempt-update now a.id s (cancelled_attempt now) (λ x. refl) b same) refl,
    )
