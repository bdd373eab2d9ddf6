-- ===== src/Housekeeping/UsedBytes.antt =====
-- The bytes that a mailbox is charged with, after the sweep.
use hedwig.Prelude.{
  Bool, Bool-cases, List, [], all, ap, arith, beq_refl, inl, inr, nat_eq, option_eq, refl, select,
  string_eq, true, update_where, ◌==◌, ◌∷◌, ◌≡◌,
}
use hedwig.Exec.{ok}
use hedwig.Housekeeping.{differs, reconcile_mailbox_used_bytes_task, reconciled, stored_bytes}
use hedwig.Tables.{Db, EmailMessage, Mailbox}

-- Whether a mailbox is charged with the bytes that its messages take.
abbrev pub is_in_sync : List EmailMessage → Mailbox → Bool
is_in_sync messages b = b.used_bytes == stored_bytes b.id messages

all_in_sync :
    (messages : List EmailMessage) (bs : List Mailbox)
    → all (is_in_sync messages) (update_where (differs messages) (reconciled messages) bs) ≡ true
all_in_sync messages [] = refl
all_in_sync messages (b ∷ bs) = elim (Bool-cases (is_in_sync messages b)) [
  | inl e ↦ rw (e, e) (all_in_sync messages bs)
  | inr e ↦ rw (e, beq_refl (stored_bytes b.id messages)) (all_in_sync messages bs)
]

none_differ :
    (messages : List EmailMessage) (bs : List Mailbox)
    → select (differs messages) (update_where (differs messages) (reconciled messages) bs) ≡ []
none_differ messages [] = refl
none_differ messages (b ∷ bs) = elim (Bool-cases (differs messages b)) [
  | inl e ↦ rw (e, beq_refl (stored_bytes b.id messages)) (none_differ messages bs)
  | inr e ↦ rw (e, e) (none_differ messages bs)
]

update_none :
    (p : Mailbox → Bool) (f : Mailbox → Mailbox) (bs : List Mailbox)
    → select p bs ≡ []
    → update_where p f bs ≡ bs
update_none p f [] h = refl
update_none p f (b ∷ bs) h = elim (Bool-cases (p b)) [
  | inl e ↦ ground (arith, e)
  | inr e ↦ rw e (ap (λ xs. b ∷ xs) (update_none p f bs (ground (arith, e))))
]

-- The sweep cannot fail, keeps every message, and after it each mailbox is charged with exactly the
-- bytes of its messages; a second sweep finds nothing to correct and changes nothing.
pub reconcile_settles :
    (s : Db)
    → let s' = (reconcile_mailbox_used_bytes_task s).1 in
      (s'.messages ≡ s.messages)
      × (all (is_in_sync s'.messages) s'.mailboxes ≡ true)
      × (reconcile_mailbox_used_bytes_task s' ≡ (ok 0, s'))
unfolding reconcile_mailbox_used_bytes_task
reconcile_settles s =
    let settled = update_where (differs s.messages) (reconciled s.messages) s.mailboxes in
    let e = none_differ s.messages s.mailboxes in
    (
      refl,
      all_in_sync s.messages s.mailboxes,
      rw (e, update_none (differs s.messages) (reconciled s.messages) settled e) refl,
    )
