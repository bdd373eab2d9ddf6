-- ===== src/Access/Expiry.antt =====
-- What a user sees and may write to, and what the sweep over expired grants changes.
use hedwig.Prelude.{
  Bool, Bool-cases, List, Option, [], any, ap, arith, false, inl, inr, none, refl, select, some,
  sym, true, update_where, ℕ, ◌||◌, ◌∙◌, ◌∷◌, ◌≡◌,
}
use hedwig.Access.{
  User, deactivated, expire_user_mailbox_access_task, for_api_user, is_active_access, is_admin,
  is_expired, lets_see, lets_write, sees, writable_for_user, writes,
}
use hedwig.Tables.{Db, Mailbox, UserMailboxAccess}

not_given :
    (now : ℕ) (q : UserMailboxAccess → Bool)
    → ((a : UserMailboxAccess) → q a ≡ true → is_active_access now a ≡ true)
    → (a : UserMailboxAccess) → is_expired now a ≡ true
    → q a ≡ false
not_given now q needs a e = elim (Bool-cases (q a)) [
  | inl h ↦ ground (arith, needs a h)
  | inr h ↦ h
]

-- An expired grant gives nothing before the sweep and nothing after it.
any-deactivated :
    (now : ℕ) (q : UserMailboxAccess → Bool)
    → ((a : UserMailboxAccess) → q a ≡ true → is_active_access now a ≡ true)
    → (grants : List UserMailboxAccess)
    → ((a : UserMailboxAccess) → is_expired now a ≡ true → q (deactivated a) ≡ false)
    → any q (update_where (is_expired now) deactivated grants) ≡ any q grants
any-deactivated now q needs [] gone = refl
any-deactivated now q needs (a ∷ more) gone = elim (Bool-cases (is_expired now a)) [
  | inl e ↦
      rw (e, gone a e)
        (any-deactivated now q needs more gone
          ∙ sym (ap (λ b. b || any q more) (not_given now q needs a e)))
  | inr e ↦ rw e (ap (λ b. q a || b) (any-deactivated now q needs more gone))
]

select-same :
    (p q : Mailbox → Bool)
    → ((b : Mailbox) → p b ≡ q b)
    → (bs : List Mailbox) → select p bs ≡ select q bs
select-same p q h [] = refl
select-same p q h (b ∷ bs) = rw (h b, select-same p q h bs) refl

module _ (now : ℕ) (user : User) (b : Mailbox) (grants : List UserMailboxAccess) where
  sees-expired :
      sees now user (update_where (is_expired now) deactivated grants) b ≡ sees now user grants b
  sees-expired =
      any-deactivated now (lets_see now user b) (λ a h. ground arith) grants (λ a h. refl)

  writes-expired :
      writes now user (update_where (is_expired now) deactivated grants) b
      ≡ writes now user grants b
  writes-expired =
      any-deactivated now (lets_write now user b) (λ a h. ground arith) grants (λ a h. refl)

-- The sweep over expired grants cannot fail and takes nothing from anyone: at its time every user,
-- the anonymous one too, sees and may write to the same mailboxes before and after it.
pub expiry_is_invisible :
    (now : ℕ) (user : Option User) (s : Db)
    → let s' = (expire_user_mailbox_access_task now s).1 in
      (for_api_user now user s' ≡ for_api_user now user s)
      × (writable_for_user now user s' ≡ writable_for_user now user s)
unfolding expire_user_mailbox_access_task writable_for_user for_api_user
expiry_is_invisible now none s = (refl, refl)
expiry_is_invisible now (some user) s =
    let grants = update_where (is_expired now) deactivated s.accesses in
    let see =
      select-same (sees now user grants) (sees now user s.accesses)
        (λ b. sees-expired now user b s.accesses) in
    let write =
      select-same (writes now user grants) (writes now user s.accesses)
        (λ b. writes-expired now user b s.accesses) in
    elim (Bool-cases (is_admin user)) [
      | inl e ↦ (rw e refl, rw e refl)
      | inr e ↦ (rw e (see s.mailboxes), rw e (rw (see s.mailboxes) (write _)))
    ]
