-- ===== src/Access.antt =====
-- hedwig/manager.py: the mailboxes that a user sees and may write to; the expiry of grants of
-- hedwig/tasks.py.
pub mod Expiry
use hedwig.Prelude.{
  Bool, List, Option, [], any, false, if◌then◌else◌, length, nat_eq, none, not, option_eq, select,
  some, string_eq, true, update_where, ℕ, ◌&&◌, ◌==◌, ◌||◌,
}
use hedwig.Enums.{AccessType, MailboxPermissionType, access_type_eq, mailbox_permission_type_eq}
use hedwig.Exec.{Exec, gets, modify, pure, ◌>>=◌, ◌>>◌}
use hedwig.Sending.Suppression.{unexpired}
use hedwig.Tables.{Db, Mailbox, UserMailboxAccess}

-- `request.user`; none is an anonymous request.
pub record User : Type 0 where
  pub id : ℕ
  pub is_staff : Bool
  pub is_superuser : Bool

-- `active_access_filter`
abbrev pub is_active_access : ℕ → UserMailboxAccess → Bool
is_active_access now a = a.is_active && unexpired now a.expires_at

-- The rows of `user_accesses` of a mailbox, or of its domain, that belong to the user.
abbrev pub grants_mailbox : User → Mailbox → UserMailboxAccess → Bool
grants_mailbox user m a = a.user == user.id && a.mailbox == some m.id

abbrev pub grants_domain : User → Mailbox → UserMailboxAccess → Bool
grants_domain user m a = a.user == user.id && a.domain == some m.domain

abbrev pub lets_see : ℕ → User → Mailbox → UserMailboxAccess → Bool
lets_see now user m a =
    is_active_access now a
    && ((grants_mailbox user m a && a.access_type == AccessType.mailbox)
        || (grants_domain user m a && a.access_type == AccessType.domain))

abbrev pub is_writing : MailboxPermissionType → Bool
is_writing MailboxPermissionType.read_only = false
is_writing _ = true

-- The access type is not tested here.
abbrev pub lets_write : ℕ → User → Mailbox → UserMailboxAccess → Bool
lets_write now user m a =
    is_active_access now a
    && is_writing a.permission
    && (grants_mailbox user m a || grants_domain user m a)

abbrev pub is_admin : User → Bool
is_admin user = user.is_staff || user.is_superuser

abbrev pub sees : ℕ → User → List UserMailboxAccess → Mailbox → Bool
sees now user grants m = any (lets_see now user m) grants

abbrev pub writes : ℕ → User → List UserMailboxAccess → Mailbox → Bool
writes now user grants m = any (lets_write now user m) grants

abbrev visible_for : ℕ → User → Db → List Mailbox
visible_for now user s =
    if is_admin user then s.mailboxes else select (sees now user s.accesses) s.mailboxes

-- `Mailbox.objects.for_api_user`
unfoldable pub for_api_user : ℕ → Option User → Db → List Mailbox
for_api_user now none s = []
for_api_user now (some user) s = visible_for now user s

-- `Mailbox.objects.writable_for_user`
unfoldable pub writable_for_user : ℕ → Option User → Db → List Mailbox
unfolding for_api_user
writable_for_user now none s = []
writable_for_user now (some user) s =
    if is_admin user
    then s.mailboxes
    else select (writes now user s.accesses) (for_api_user now (some user) s)

abbrev pub is_expired : ℕ → UserMailboxAccess → Bool
is_expired now a = a.is_active && not (unexpired now a.expires_at)

abbrev pub deactivated : UserMailboxAccess → UserMailboxAccess
deactivated a = record a { is_active = false }

-- The number of rows updated.
unfoldable pub expire_user_mailbox_access_task : ℕ → Exec ℕ
expire_user_mailbox_access_task now = do
  expired ← gets (λ s. select (is_expired now) s.accesses)
  modify (λ s. record s { accesses = update_where (is_expired now) deactivated s.accesses })
  pure (length expired)
