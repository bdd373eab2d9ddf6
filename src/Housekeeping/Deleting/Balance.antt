-- ===== src/Housekeeping/Deleting/Balance.antt =====
-- A mailbox stays charged with the bytes of its messages while messages are deleted.
use hedwig.Prelude.{
  All, All-weaken, Bool, Bool-cases, Distinct, Distinct-select, List, [], all, any,
  any-first?-false, ap, arith, beq_refl, false, first?, if◌then◌else◌, inl, inr, nat_beq,
  nat_beq_iff, nat_eq, not, option_eq, refl, select, some, string_eq, sym, true, update_where, ℕ,
  ◌++◌, ◌+◌, ◌==◌, ◌∙◌, ◌∷◌, ◌≡◌,
}
use hedwig.Exec.{Exec, Result, err, ok, then_with}
use hedwig.Housekeeping.{
  decrement_mailbox_used_bytes, delete_attachment_file, stored_bytes, without_bytes,
}
use hedwig.Housekeeping.Deleting.{
  delete_attachments, delete_message, delete_messages, without_children, without_message,
}
use hedwig.Housekeeping.UsedBytes.{is_in_sync}
use hedwig.Prelude.Text.{truthy}
use hedwig.Sending.Attempts.{find_message, is_message}
use hedwig.Sending.Dispatch.{attachments_of}
use hedwig.Tables.{Db, EmailAttachment, EmailMessage, Mailbox, Task}

pub delete_attachments_ends :
    (rows : List EmailAttachment) (s : Db)
    → (kept : List EmailAttachment) × (queue : List Task) × (delete_attachments rows s
        ≡ (ok tt, record s { attachments = kept; queue = queue }))
unfolding delete_attachments delete_attachment_file
delete_attachments_ends [] s = (s.attachments, s.queue, refl)
delete_attachments_ends (a ∷ more) s =
    let left = select (λ (x : EmailAttachment). not (x.id == a.id)) s.attachments in
    elim (Bool-cases (not (truthy a.file))) [
      | inl e ↦
          let (kept, queue, k) = delete_attachments_ends more (record s { attachments = left }) in
          (kept, queue, rw (e, k) refl)
      | inr e ↦
          let (kept, queue, k) = delete_attachments_ends more (record s {
            attachments = left;
            queue = s.queue ++ (Task.delete_attachment_file a.file a.storage_key ∷ []);
          }) in
          (kept, queue, rw (e, k) refl)
    ]

abbrev charged_off : EmailMessage → List Mailbox → List Mailbox
charged_off m bs =
    if m.size_bytes == 0
    then bs
    else update_where (λ b. b.id == m.mailbox) (without_bytes m.size_bytes) bs

-- Deleting cannot fail; what it leaves but for the attachments and the queue.
pub delete_message_ends :
    (m : EmailMessage) (s : Db)
    → (kept : List EmailAttachment) × (queue : List Task) × (delete_message m s ≡ (
      ok tt,
      record (without_message m.id (without_children m.id s)) {
        attachments = kept;
        queue = queue;
        mailboxes = charged_off m s.mailboxes;
      },
    ))
unfolding delete_message decrement_mailbox_used_bytes
delete_message_ends m s =
    let (kept, queue, k) = delete_attachments_ends (attachments_of m.id s) s in
    (
      kept,
      queue,
      elim (Bool-cases (m.size_bytes == 0)) [ inl e ↦ rw (k, e) refl | inr e ↦ rw (k, e) refl ],
    )

abbrev pub rest_of : ℕ → List EmailMessage → List EmailMessage
rest_of i ms = select (λ m. not (is_message i m)) ms

pub without_none :
    (i : ℕ) (ms : List EmailMessage) → any (is_message i) ms ≡ false → rest_of i ms ≡ ms
without_none i [] h = refl
without_none i (m ∷ ms) h =
    let e : is_message i m ≡ false = ground arith in
    rw e (ap (λ xs. m ∷ xs) (without_none i ms (ground arith)))

abbrev share : ℕ → EmailMessage → ℕ
share b m = if m.mailbox == b then m.size_bytes else 0

stored_bytes-cons :
    (b : ℕ) (m : EmailMessage) (ms : List EmailMessage)
    → stored_bytes b (m ∷ ms) ≡ share b m + stored_bytes b ms
stored_bytes-cons b m ms = elim (Bool-cases (m.mailbox == b)) [
  | inl e ↦ rw e refl
  | inr e ↦ rw e (omega arith)
]

stored_bytes-rest :
    (b i : ℕ) (ms : List EmailMessage) (m : EmailMessage)
    → Distinct (λ x. x.id) ms
    → first? (is_message i) ms ≡ some m
    → stored_bytes b ms ≡ share b m + stored_bytes b (rest_of i ms)
stored_bytes-rest b i [] m d h = cc
stored_bytes-rest b i (x ∷ ms) m d h = elim (Bool-cases (is_message i x)) [
  | inl e ↦
      let x≡m : x ≡ m = ground arith in
      let alone : any (is_message i) ms ≡ false =
        ap (λ j. any (is_message j) ms) (sym ((nat_beq_iff x.id i).0 e)) ∙ d.0 in
      stored_bytes-cons b x ms ∙ rw e (rw (without_none i ms alone, x≡m) refl)
  | inr e ↦
      let more = stored_bytes-rest b i ms m d.1 (ground arith) in
      stored_bytes-cons b x ms
      ∙ rw e (rw (stored_bytes-cons b x (rest_of i ms)) (omega (arith, more)))
]

share_same : (b : ℕ) (m : EmailMessage) → (b == m.mailbox) ≡ true → share b m ≡ m.size_bytes
share_same b m e = ground arith

share_other : (b : ℕ) (m : EmailMessage) → (b == m.mailbox) ≡ false → share b m ≡ 0
share_other b m e = ground arith

module _ (m : EmailMessage) (ms : List EmailMessage) (d : Distinct (λ x. x.id) ms)
    (found : first? (is_message m.id) ms ≡ some m) where
  in_sync_off :
      (b : Mailbox)
      → is_in_sync ms b ≡ true
      → is_in_sync (rest_of m.id ms) (if b.id == m.mailbox then without_bytes m.size_bytes b else b)
        ≡ true
  in_sync_off b h =
      let before : b.used_bytes ≡ stored_bytes b.id ms = (nat_beq_iff _ _).0 h in
      let left = stored_bytes-rest b.id m.id ms m d found in
      elim (Bool-cases (b.id == m.mailbox)) [
        | inl e ↦ rw e ((nat_beq_iff _ _).1 (omega (arith, before, left, share_same b.id m e)))
        | inr e ↦ rw e ((nat_beq_iff _ _).1 (omega (arith, before, left, share_other b.id m e)))
      ]

  all_in_sync-rest :
      (bs : List Mailbox)
      → all (is_in_sync ms) bs ≡ true
      → all
          (is_in_sync (rest_of m.id ms))
          (update_where (λ b. b.id == m.mailbox) (without_bytes m.size_bytes) bs)
        ≡ true
  all_in_sync-rest [] h = refl
  all_in_sync-rest (b ∷ bs) h = ground (arith, in_sync_off b, all_in_sync-rest bs)

  all_in_sync-empty :
      (bs : List Mailbox)
      → m.size_bytes ≡ 0
      → all (is_in_sync ms) bs ≡ true
      → all (is_in_sync (rest_of m.id ms)) bs ≡ true
  all_in_sync-empty [] e h = refl
  all_in_sync-empty (b ∷ bs) e h =
      let left = stored_bytes-rest b.id m.id ms m d found in
      let nothing : share b.id m ≡ 0 = ground arith in
      let same : stored_bytes b.id ms ≡ stored_bytes b.id (rest_of m.id ms) =
        omega (arith, left, nothing) in
      rw (sym same) (ground (arith, all_in_sync-empty bs e))

  all_in_sync-charged_off :
      (bs : List Mailbox)
      → all (is_in_sync ms) bs ≡ true
      → all (is_in_sync (rest_of m.id ms)) (charged_off m bs) ≡ true
  all_in_sync-charged_off bs h = elim (Bool-cases (m.size_bytes == 0)) [
    | inl e ↦ rw e (all_in_sync-empty bs ((nat_beq_iff _ _).0 e) h)
    | inr e ↦ rw e (all_in_sync-rest bs h)
  ]

abbrev by_id : EmailMessage → ℕ
by_id m = m.id

-- Message keys are distinct, and every mailbox is charged with the bytes of its messages.
abbrev pub Balanced : Db → Type 0
Balanced s = Distinct by_id s.messages × (all (is_in_sync s.messages) s.mailboxes ≡ true)

pub delete_message-Balanced :
    (m : EmailMessage) (s : Db)
    → Balanced s
    → find_message m.id s ≡ some m
    → Balanced (delete_message m s).1
delete_message-Balanced m s (d, h) found =
    let (kept, queue, k) = delete_message_ends m s in
    rw k (
      Distinct-select by_id (λ x. not (is_message m.id x)) s.messages d,
      all_in_sync-charged_off m s.messages d found s.mailboxes h,
    )

-- Each message of the list is the row stored under its key.
abbrev Stored : Db → List EmailMessage → Type 0
Stored s = All (λ m. find_message m.id s ≡ some m)

find-rest :
    (i : ℕ) (m : EmailMessage) (ms : List EmailMessage)
    → nat_beq m.id i ≡ false
    → first? (is_message m.id) (rest_of i ms) ≡ first? (is_message m.id) ms
find-rest i m [] h = refl
find-rest i m (x ∷ ms) h = ground (arith, find-rest i m ms h)

Stored-rest :
    (m : EmailMessage) (s : Db) (ms : List EmailMessage)
    → any (is_message m.id) ms ≡ false
    → Stored s ms
    → Stored (delete_message m s).1 ms
Stored-rest m s [] out all_stored = tt
Stored-rest m s (x ∷ ms) out (first, more) =
    let (kept, queue, k) = delete_message_ends m s in
    (
      rw k (find-rest m.id x s.messages (ground arith) ∙ first),
      Stored-rest m s ms (ground arith) more,
    )

then_Balanced :
    (k : Exec (Unit {0})) (r : Result (Unit {0}) × Db)
    → r.0 ≡ ok tt
    → Balanced (k r.1).1
    → Balanced (then_with (λ _. k) r).1
then_Balanced k (ok u, t) e h = h
then_Balanced k (err x, t) e h = cc

pub delete_messages-Balanced :
    (ms : List EmailMessage) (s : Db)
    → Balanced s
    → Distinct by_id ms
    → Stored s ms
    → Balanced (delete_messages ms s).1
unfolding delete_messages
delete_messages-Balanced [] s b d all_stored = b
delete_messages-Balanced (m ∷ ms) s b d (first, more) =
    let next = delete_message-Balanced m s b first in
    let (kept, queue, k) = delete_message_ends m s in
    let last =
      delete_messages-Balanced ms (delete_message m s).1 next d.1 (Stored-rest m s ms d.0 more) in
    then_Balanced (delete_messages ms) (delete_message m s) (ap (λ r. r.0) k) last

-- A row that passes a test but is not the one with a key.
found_later :
    (x : EmailMessage) (q : EmailMessage → Bool) (ms : List EmailMessage)
    → any (λ y. nat_beq y.id x.id) ms ≡ false
    → All (λ m. first? (is_message m.id) ms ≡ some m) (select q ms)
    → All (λ m. first? (is_message m.id) (x ∷ ms) ≡ some m) (select q ms)
found_later x q ms out = All-weaken _ _ (λ m h. later m h) (select q ms)
  where
    later :
        (m : EmailMessage)
        → first? (is_message m.id) ms ≡ some m
        → first? (is_message m.id) (x ∷ ms) ≡ some m
    later m h =
        let e = any-first?-false (λ y. nat_beq y.id x.id) (is_message m.id) ms m h out in
        ground (arith, e, h)

-- With distinct keys each selected row is the one stored under its key.
pub found_selected :
    (q : EmailMessage → Bool) (ms : List EmailMessage)
    → Distinct by_id ms
    → All (λ m. first? (is_message m.id) ms ≡ some m) (select q ms)
found_selected q [] d = tt
found_selected q (m ∷ ms) d = elim (Bool-cases (q m)) [
  | inl e ↦ rw e (rw (beq_refl m.id) refl, found_later m q ms d.0 (found_selected q ms d.1))
  | inr e ↦ rw e (found_later m q ms d.0 (found_selected q ms d.1))
]
