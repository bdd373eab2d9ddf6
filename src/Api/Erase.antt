-- ===== src/Api/Erase.antt =====
-- What deleting messages through the API leaves.
use hedwig.Prelude.{
  All-select, Bool, Bool-cases, Distinct, Distinct-select, List, Option-cases, [], all, any,
  any-select-false, ap, arith, false, first?, first?-none, first?-passes, if◌then◌else◌, inl, inr,
  length, nat_beq_iff, nat_eq, not, option_eq, refl, select, some, string_eq, sym, true, ℕ, ◌&&◌,
  ◌==◌, ◌||◌, ◌∙◌, ◌∷◌, ◌≡◌, ◌⊎◌,
}
use hedwig.Access.{User, for_api_user}
use hedwig.Api.{
  can_write_mailbox, get_editable_draft, get_object, require_write, visible_messages,
  write_access_required,
}
use hedwig.Api.Messages.{bulk_permanent_delete, destroy, own_draft_unless_staff, writable_mailbox}
use hedwig.Api.Trash.{get_listed_cases}
use hedwig.Enums.{
  EmailStatus, domain_status_eq, email_status_eq, provider_webhook_status_eq,
  send_attempt_status_eq,
}
use hedwig.Exec.{Exc, Result, err, ok, pure, rolled_back, then_with, ◌>>=◌}
use hedwig.Housekeeping.Deleting.{delete_messages}
use hedwig.Housekeeping.Deleting.Balance.{
  Balanced, delete_message_ends, delete_messages-Balanced, found_selected, without_none,
}
use hedwig.Sending.Attempts.{find_message, is_message}
use hedwig.Tables.{Db, EmailMessage}

-- A draft that the user made.
abbrev pub is_own_draft : User → EmailMessage → Bool
is_own_draft user m = m.status == EmailStatus.draft && m.created_by == some user.id

abbrev is_visible : ℕ → User → Db → EmailMessage → Bool
is_visible now user s m = any (λ b. b.id == m.mailbox) (for_api_user now (some user) s)

module _ (now : ℕ) (user : User) (ids : List ℕ) where
  abbrev listed : Db → List EmailMessage
  listed s = select (λ m. any (λ j. j == m.id) ids) (visible_messages now user s)

  listed-Balanced : (s : Db) → Balanced s → Balanced (delete_messages (listed s) s).1
  unfolding visible_messages
  listed-Balanced s (d, h) =
      let sees = is_visible now user s in
      let asked = λ (m : EmailMessage). any (λ j. j == m.id) ids in
      delete_messages-Balanced (listed s) s (d, h)
        (Distinct-select (λ m. m.id) asked (select sees s.messages)
          (Distinct-select (λ m. m.id) sees s.messages d))
        (All-select (λ m. find_message m.id s ≡ some m) asked (select sees s.messages)
          (found_selected sees s.messages d))

  rolled_Balanced :
      {A : Type 0} (s : Db) (r : Result A × Db)
      → Balanced s
      → Balanced r.1
      → Balanced (rolled_back s r).1
  rolled_Balanced s (ok a, t) b c = c
  rolled_Balanced s (err e, t) b c = b

  keep_count :
      (n : ℕ) (r : Result (Unit {0}) × Db) → Balanced r.1 → Balanced (then_with (λ _. pure n) r).1
  keep_count n (ok u, t) b = b
  keep_count n (err e, t) b = b

-- While message keys are distinct and every mailbox is charged with exactly the bytes of its
-- messages, `bulk_permanent_delete` keeps both so, whoever asks, for whatever messages, and
-- however it answers: the bytes of each deleted message, and no others, are given back.
pub bulk_permanent_delete-Balanced :
    (now : ℕ) (user : User) (ids : List ℕ) (s : Db)
    → Balanced s
    → Balanced (bulk_permanent_delete now user ids s).1
unfolding bulk_permanent_delete
bulk_permanent_delete-Balanced now user ids s b = elim (get_listed_cases now user ids s) [
  | inl (e, k) ↦ rw k b
  | inr k ↦
      let ms = listed now user ids s in
      elim (Bool-cases (user.is_staff || all (writable_mailbox now user s) ms)) [
        | inl e ↦
            rw (k, e)
              (keep_count now user ids (length ms) (rolled_back s (delete_messages ms s)) (
                rolled_Balanced now user ids s (delete_messages ms s) b
                  (listed-Balanced now user ids s b)))
        | inr e ↦ rw (k, e) b
      ]
]

-- The visible row with a key is the stored one.
first?-visible :
    (i : ℕ) (q : EmailMessage → Bool) (ms : List EmailMessage) (m : EmailMessage)
    → Distinct (λ x. x.id) ms
    → first? (is_message i) (select q ms) ≡ some m
    → first? (is_message i) ms ≡ some m
first?-visible i q [] m d h = h
first?-visible i q (x ∷ ms) m d h = elim (Bool-cases (is_message i x)) [
  | inl e ↦ elim (Bool-cases (q x)) [
    | inl k ↦ ground arith
    | inr k ↦
        let out : any (is_message i) ms ≡ false =
          ap (λ j. any (is_message j) ms) (sym ((nat_beq_iff x.id i).0 e)) ∙ d.0 in
        let gone =
          first?-none (is_message i) (select q ms) (any-select-false (is_message i) q ms out) in
        ground arith
  ]
  | inr e ↦ rw e (first?-visible i q ms m d.1 (ground arith))
]

select-rest :
    (own : EmailMessage → Bool) (i : ℕ) (ms : List EmailMessage) (m : EmailMessage)
    → Distinct (λ x. x.id) ms
    → first? (is_message i) ms ≡ some m
    → own m ≡ true
    → select (λ x. not (own x)) (select (λ x. not (is_message i x)) ms)
      ≡ select (λ x. not (own x)) ms
select-rest own i [] m d h k = refl
select-rest own i (x ∷ ms) m d h k = elim (Bool-cases (is_message i x)) [
  | inl e ↦
      let mine : own x ≡ true = ground arith in
      let out : any (is_message i) ms ≡ false =
        ap (λ j. any (is_message j) ms) (sym ((nat_beq_iff x.id i).0 e)) ∙ d.0 in
      rw (e, mine) (ap (select (λ y. not (own y))) (without_none i ms out))
  | inr e ↦
      let more = select-rest own i ms m d.1 (ground arith) k in
      elim (Bool-cases (own x)) [
        | inl o ↦ rw (e, o) more
        | inr o ↦ rw (e, o) (ap (λ ys. x ∷ ys) more)
      ]
]

module _ (now i : ℕ) (user : User) (s : Db) where
  get_object_cases :
      ((e : Exc) × (get_object now user i s ≡ (err e, s)))
      ⊎ ((m : EmailMessage) × ((first? (is_message i) (visible_messages now user s) ≡ some m)
            × (get_object now user i s ≡ (ok m, s))))
  unfolding get_object
  get_object_cases = elim (Option-cases (first? (is_message i) (visible_messages now user s))) [
    | inl e ↦ inl (Exc.not_found "Not found.", rw e refl)
    | inr (m, e) ↦ inr (m, (e, rw e refl))
  ]

  -- What `_get_editable_draft` answers is an own draft.
  editable_cases :
      ((e : Exc) × (get_editable_draft now user i s ≡ (err e, s)))
      ⊎ ((m : EmailMessage) × (first? (is_message i) (visible_messages now user s) ≡ some m)
          × (get_object now user i s ≡ (ok m, s))
          × (get_editable_draft now user i s ≡ (ok m, s))
          × (is_own_draft user m ≡ true))
  unfolding get_editable_draft require_write
  editable_cases = elim get_object_cases [
    | inl (e, k) ↦ inl (e, rw k refl)
    | inr (m, (found, k)) ↦ elim (Bool-cases (m.status == EmailStatus.draft)) [
      | inr d ↦ inl (Exc.permission_denied "Only drafts can be edited or deleted.", rw (k, d) refl)
      | inl d ↦ elim (Bool-cases (m.created_by == some user.id)) [
        | inr c ↦
            inl (Exc.permission_denied "You can only modify your own drafts.", rw (k, d, c) refl)
        | inl c ↦ elim (Bool-cases (can_write_mailbox now user m.mailbox s)) [
          | inr w ↦ inl (Exc.permission_denied write_access_required, rw (k, d, c, w) refl)
          | inl w ↦ inr (m, found, k, rw (k, d, c, w) refl, rw (d, c) refl)
        ]
      ]
    ]
  ]

plain_guard :
    (now i : ℕ) (user : User) (s : Db) (r : Result EmailMessage × Db)
    → user.is_staff ≡ false
    → get_editable_draft now user i s ≡ r
    → own_draft_unless_staff now user i s ≡ then_with (λ _. pure tt) r
plain_guard now i user s r plain l =
    ap (λ b. (if b then pure tt else get_editable_draft now user i >>= λ _. pure tt) s) plain
    ∙ ap (then_with (λ _. pure tt)) l

-- `destroy` by a user who is not staff, whatever it answers, leaves every message but those that
-- are drafts made by that user.
pub destroy-own_drafts :
    (now i : ℕ) (user : User) (s : Db)
    → user.is_staff ≡ false
    → Distinct (λ m. m.id) s.messages
    → select (λ m. not (is_own_draft user m)) (destroy now user i s).1.messages
      ≡ select (λ m. not (is_own_draft user m)) s.messages
unfolding destroy visible_messages
destroy-own_drafts now i user s plain d = elim (editable_cases now i user s) [
  | inl (e, k) ↦ rw (plain_guard now i user s _ plain k) refl
  | inr (m, found, k, l, own) ↦
      let (kept, queue, e) = delete_message_ends m s in
      let stored = first?-visible i (is_visible now user s) s.messages m d found in
      let i≡m = (nat_beq_iff m.id i).0 (first?-passes (is_message i) s.messages m stored) in
      rw (plain_guard now i user s _ plain l, k, e)
        (rw i≡m (select-rest (is_own_draft user) i s.messages m d stored own))
]
