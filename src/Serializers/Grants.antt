-- ===== src/Serializers/Grants.antt =====
-- What accepted rows of the configuration satisfy.
use hedwig.Prelude.{
  Bool, Bool-cases, List, Option, [], any, arith, false, inl, inr, is_some, nat_eq, none, not,
  option_eq, refl, some, string_eq, sym, true, ℕ, ◌&&◌, ◌==◌, ◌||◌, ◌∷◌, ◌≡◌,
}
use hedwig.Access.{User, is_writing, lets_see, lets_write}
use hedwig.Enums.{AccessType, access_type_eq}
use hedwig.Exec.{ok}
use hedwig.Sending.Suppression.{unexpired}
use hedwig.Serializers.{refuse_if}
use hedwig.Serializers.Accepted.{ok_inv, refuse_inv}
use hedwig.Serializers.Rows.{create_mailbox, is_conflict, validate_access, validate_mailbox}
use hedwig.Tables.{Db, Mailbox, UserMailboxAccess}

by_mailbox :
    (x y w u p : Bool)
    → (x && y && w && ((u && p) || (u && false)))
      ≡ (x && y && (((u && p) && true) || ((u && false) && false)) && w)
by_mailbox x y w u p = ground arith

by_domain :
    (x y w u p : Bool)
    → (x && y && w && ((u && false) || (u && p)))
      ≡ (x && y && (((u && false) && false) || ((u && p) && true)) && w)
by_domain x y w u p = ground arith

module _ (now : ℕ) (user : User) (m : Mailbox) where
  targeted :
      (a : UserMailboxAccess) (t : AccessType) (mailbox domain : Option ℕ)
      → a.access_type ≡ t
      → a.mailbox ≡ mailbox
      → a.domain ≡ domain
      → (t == AccessType.mailbox && (not (is_some mailbox) || is_some domain)) ≡ false
      → (t == AccessType.domain && (not (is_some domain) || is_some mailbox)) ≡ false
      → lets_write now user m a ≡ (lets_see now user m a && is_writing a.permission)
  targeted a AccessType.mailbox (some b) none et em ed h k =
      rw (et, em, ed)
        (by_mailbox a.is_active (unexpired now a.expires_at) (is_writing a.permission)
          (a.user == user.id) (b == m.id))
  targeted a AccessType.domain none (some d) et em ed h k =
      rw (et, em, ed)
        (by_domain a.is_active (unexpired now a.expires_at) (is_writing a.permission)
          (a.user == user.id) (d == m.domain))
  targeted a AccessType.mailbox none d et em ed h k = cc
  targeted a AccessType.mailbox (some b) (some d) et em ed h k = cc
  targeted a AccessType.domain (some b) none et em ed h k = cc
  targeted a AccessType.domain (some b) (some d) et em ed h k = cc
  targeted a AccessType.domain none none et em ed h k = cc

-- A grant that is accepted lets its user write only where it lets the user see, although the test
-- for writing ignores the kind of the grant: with one that is not read-only, the two are the same.
pub validate_access-lets_write :
    (a a' : UserMailboxAccess)
    → validate_access a ≡ ok a'
    → (now : ℕ) (user : User) (m : Mailbox)
    → lets_write now user m a' ≡ (lets_see now user m a' && is_writing a'.permission)
unfolding validate_access
validate_access-lets_write a a' h now user m =
    let (h₀, h₁) = refuse_inv _ _ _ a' h in
    let (k₀, h₂) = refuse_inv _ _ _ a' h₁ in
    rw (sym (ok_inv a a' h₂))
      (targeted now user m a a.access_type a.mailbox a.domain refl refl refl h₀ k₀)

-- At most one mailbox of each domain is a catch-all.
abbrev pub OneCatchAll : List Mailbox → Type 0
OneCatchAll [] = Unit
OneCatchAll (b ∷ bs) =
    (b.is_catch_all ≡ true → any (λ x. x.domain == b.domain && x.is_catch_all) bs ≡ false)
    × OneCatchAll bs

no_other :
    (d : ℕ) (bs : List Mailbox)
    → any (is_conflict none d) bs ≡ false
    → any (λ x. x.domain == d && x.is_catch_all) bs ≡ false
no_other d [] h = refl
no_other d (b ∷ bs) h = ground (arith, no_other d bs)

-- Creating a mailbox keeps at most one catch-all mailbox in each domain, whatever was asked for.
pub create_mailbox-OneCatchAll :
    (b : Mailbox) (s : Db) → OneCatchAll s.mailboxes → OneCatchAll (create_mailbox b s).1.mailboxes
unfolding create_mailbox validate_mailbox refuse_if
create_mailbox-OneCatchAll b s one =
    elim (Bool-cases (b.is_catch_all && any (is_conflict none b.domain) s.mailboxes)) [
      | inl e ↦ rw e one
      | inr e ↦ rw e (λ k. no_other b.domain s.mailboxes (ground (arith, e, k)), one)
    ]
