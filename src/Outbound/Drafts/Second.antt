-- ===== src/Outbound/Drafts/Second.antt =====
-- What the unique constraint on Message-IDs refuses: a second draft in a mailbox.
use hedwig.Prelude.{option_eq, nat_eq, string_eq}
use hedwig.Prelude.{
  Bool, Bool-cases, List, Option, [], any, any-implies, ap, arith, inl, inr, none, refl, some, true,
  ℕ, ◌&&◌, ◌+◌, ◌==◌, ◌∙◌, ◌∷◌, ◌≡◌, Option-cases, sym, beq_refl, first?,
}
use hedwig.Exec.{Exc, Result, err, get_or_raise, ok}
use hedwig.Exec.Gives.{Gives, Gives-atomic, Gives-first, Gives-rest}
use hedwig.Exec.Keeps.{Keeps-bind, Keeps-pure}
use hedwig.Exec.Unchanged.{Unchanged, Unchanged-bind, Unchanged-pure, unchanged_rules}
use hedwig.Ingest.Threads.{fresh}
use hedwig.Rules.Keeps.{Stable, has, stage_attachments-has}
use hedwig.Outbound.Compose.{
  Composed, create_draft_message, draft_row, draft_thread, thread_or_create, insert_draft,
}
use hedwig.Outbound.Rows.{
  NewAttachment, stage_attachments, stage_each, stage_one, clashes, insert_message,
}
use hedwig.Sending.Dispatch.{find_domain}
use hedwig.Tables.{Db, Domain, EmailMessage, Mailbox}

-- A message of the mailbox whose `rfc_message_id` is the empty text, as that of a draft is.
abbrev pub is_unnamed : ℕ → EmailMessage → Bool
is_unnamed mailbox x = x.mailbox == mailbox && x.rfc_message_id == some ""

insert_unnamed :
    (m : EmailMessage) (s : Db)
    → m.rfc_message_id ≡ some ""
    → any (is_unnamed m.mailbox) s.messages ≡ true
    → insert_message m s ≡ (err Exc.integrity_error, s)
unfolding insert_message
insert_unnamed m s name h =
    rw (any-implies (is_unnamed m.mailbox) (clashes m) (λ x k. rw name (ground arith)) s.messages h)
      refl

-- Whether the draft's own thread is made before or not.
draft_refused :
    (now : ℕ) (mailbox : Mailbox) (c : Composed) (domain : Domain) (s : Db) (thread : Option ℕ)
    → any (is_unnamed mailbox.id) s.messages ≡ true
    → insert_draft now mailbox domain c thread s ≡ (err Exc.integrity_error, s)
draft_refused now mailbox c domain s none h =
    let made = record s {
      next_id = s.next_id + 1 + 1;
      threads = draft_thread now mailbox domain c s.next_id ∷ s.threads;
    } in
    rw (insert_unnamed (draft_row mailbox domain c s.next_id (s.next_id + 1)) made refl h) refl
draft_refused now mailbox c domain s (some t) h =
    rw
      (insert_unnamed (draft_row mailbox domain c t s.next_id)
        (record s { next_id = s.next_id + 1 }) refl h)
      refl

-- A mailbox, of a known domain, with an unnamed message takes no draft, whatever it says.
unnamed_refused :
    (now : ℕ) (mailbox : Mailbox) (c : Composed) (domain : Domain) (s : Db)
    → find_domain mailbox.domain s ≡ some domain
    → any (is_unnamed mailbox.id) s.messages ≡ true
    → create_draft_message now mailbox c s ≡ (err Exc.integrity_error, s)
unfolding create_draft_message
unnamed_refused now mailbox c domain s found h =
    rw (found, get_or_raise) (draft_refused now mailbox c domain s c.thread h)

-- What a draft leaves: its unnamed row, and the domains as they were.
unnamed-Stable : (mailbox : ℕ) → Stable (is_unnamed mailbox)
unnamed-Stable mailbox = record { thread = λ m t. refl; folder = λ m f. refl; size = λ m k. refl }

insert_unnamed-Gives :
    (m : EmailMessage)
    → m.rfc_message_id ≡ some ""
    → Gives (has (is_unnamed m.mailbox)) (insert_message m)
unfolding insert_message
insert_unnamed-Gives m name = record {
  given = λ s a h. elim (Bool-cases (any (clashes m) s.messages)) [
    | inl e ↦ ground (arith, e)
    | inr e ↦ rw (e, name, beq_refl m.mailbox) refl
  ];
}

insert_draft-Gives :
    (now : ℕ) (mailbox : Mailbox) (domain : Domain) (c : Composed) (thread : Option ℕ)
    → Gives (has (is_unnamed mailbox.id)) (insert_draft now mailbox domain c thread)
insert_draft-Gives now mailbox domain c thread = Gives-atomic _ (
    Gives-rest (thread_or_create now mailbox domain c thread) _ (λ t. Gives-rest fresh _ (λ i.
      Gives-first (insert_message (draft_row mailbox domain c t i)) _
        (insert_unnamed-Gives (draft_row mailbox domain c t i) refl)
        (λ _.
          Keeps-bind _ _
            (stage_attachments-has _ (unnamed-Stable mailbox.id) (draft_row mailbox domain c t i)
              c.attachments)
            (λ _. Keeps-pure _)))))

abbrev domains : Db → List Domain
domains s = s.domains

thread_or_create_domains :
    (now : ℕ) (mailbox : Mailbox) (domain : Domain) (c : Composed) (thread : Option ℕ)
    → Unchanged domains (thread_or_create now mailbox domain c thread)
thread_or_create_domains now mailbox domain c none = record { same = λ s. refl }
thread_or_create_domains now mailbox domain c (some t) = record { same = λ s. refl }

insert_message-domains : (m : EmailMessage) → Unchanged domains (insert_message m)
unfolding insert_message
insert_message-domains m = record { same = λ s. ground arith }

stage_one-domains : (i : ℕ) (a : NewAttachment) → Unchanged domains (stage_one i a)
unfolding stage_one
stage_one-domains i a = record { same = λ s. refl }

stage_each-domains : (i : ℕ) (xs : List NewAttachment) → Unchanged domains (stage_each i xs)
unfolding stage_each
stage_each-domains i [] = record { same = λ s. refl }
stage_each-domains i (a ∷ more) =
    Unchanged-bind _ _ (stage_one-domains i a)
      (λ n. Unchanged-bind _ _ (stage_each-domains i more) (λ k. Unchanged-pure _))

stage_attachments-domains :
    (m : EmailMessage) (xs : List NewAttachment) → Unchanged domains (stage_attachments m xs)
unfolding stage_attachments
stage_attachments-domains m [] = record { same = λ s. refl }
stage_attachments-domains m (a ∷ more) =
    Unchanged-bind _ _ (stage_each-domains m.id (a ∷ more)) (λ n. record { same = λ s. refl })

fresh_domains : Unchanged domains fresh
fresh_domains = record { same = λ s. refl }

insert_draft-domains :
    (now : ℕ) (mailbox : Mailbox) (domain : Domain) (c : Composed) (thread : Option ℕ)
    → Unchanged domains (insert_draft now mailbox domain c thread)
insert_draft-domains now mailbox domain c thread =
    search
      (
        unchanged_rules, thread_or_create_domains, fresh_domains, insert_message-domains,
        stage_attachments-domains,
      )
      depth 14

module _ (now : ℕ) (mailbox : Mailbox) (c : Composed) (s : Db) where
  homeless :
      find_domain mailbox.domain s ≡ none
      → create_draft_message now mailbox c s ≡ (err Exc.does_not_exist, s)
  unfolding create_draft_message
  homeless e = rw (e, get_or_raise) refl

  with_domain :
      (d : Domain)
      → find_domain mailbox.domain s ≡ some d
      → create_draft_message now mailbox c s ≡ insert_draft now mailbox d c c.thread s
  unfolding create_draft_message
  with_domain d e = rw (e, get_or_raise) refl

no_answer : (e : Exc) (m : EmailMessage) → Result.err e ≡ ok m → ⊥
no_answer e m h = cc

-- After `create_draft_message` has answered a draft for a mailbox, it raises `IntegrityError` for
-- every further draft of the mailbox, at any time, and changes nothing: an unsent draft's
-- `rfc_message_id` is the empty text, not NULL, and the constraint admits one in a mailbox.
pub create_draft_message-second :
    (now now' : ℕ) (mailbox : Mailbox) (c c' : Composed) (m : EmailMessage) (s : Db)
    → (create_draft_message now mailbox c s).0 ≡ ok m
    → let s' = (create_draft_message now mailbox c s).1 in
      create_draft_message now' mailbox c' s' ≡ (err Exc.integrity_error, s')
create_draft_message-second now now' mailbox c c' m s h =
    elim (Option-cases (find_domain mailbox.domain s)) [
      | inl e ↦ absurd (
          no_answer Exc.does_not_exist m
            (sym (ap (λ (r : Result EmailMessage × Db). r.0) (homeless now mailbox c s e)) ∙ h))
      | inr (d, e) ↦
          let first = insert_draft now mailbox d c c.thread s in
          let whole = with_domain now mailbox c s d e in
          let made : first.0 ≡ ok m = sym (ap (λ (r : Result EmailMessage × Db). r.0) whole) ∙ h in
          let domain_kept : find_domain mailbox.domain first.1 ≡ some d =
            ap (first? (λ x. x.id == mailbox.domain))
              ((insert_draft-domains now mailbox d c c.thread).same s)
            ∙ e in
          rw whole (
            unnamed_refused now' mailbox c' d first.1 domain_kept
              ((insert_draft-Gives now mailbox d c c.thread).given s m made))
    ]
