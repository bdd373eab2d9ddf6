-- ===== src/Api.antt =====
-- hedwig/views.py: the viewset of messages, its guards and its actions. A request is its user and
-- its data; filters of the query string, throttling and the rendering of rows are left out.
pub mod Messages
pub mod Trash
pub mod Erase
use hedwig.Prelude.{
  Bool, List, Option, String, any, first?, if◌then◌else◌, nat_eq, none, not, option_eq, select,
  some, string_eq, ℕ, ◌==◌, ◌||◌,
}
use hedwig.Access.{User, for_api_user, writable_for_user}
use hedwig.Enums.{
  EmailStatus, domain_status_eq, email_status_eq, provider_webhook_status_eq,
  send_attempt_status_eq,
}
use hedwig.Exec.{Exc, Exec, gets, pure, raise, ◌>>=◌, ◌>>◌}
use hedwig.Sending.Attempts.{is_message}
use hedwig.Tables.{Db, EmailMessage}

-- `EmailMessage.objects.for_api_user`
unfoldable pub visible_messages : ℕ → User → Db → List EmailMessage
visible_messages now user s =
    select (λ m. any (λ b. b.id == m.mailbox) (for_api_user now (some user) s)) s.messages

abbrev pub found_or_404 : {A : Type 0} → Option A → Exec A
found_or_404 none = raise (Exc.not_found "Not found.")
found_or_404 (some a) = pure a

-- `self.get_object()`
unfoldable pub get_object : ℕ → User → ℕ → Exec EmailMessage
unfolding visible_messages
get_object now user i = do
  found ← gets (λ s. first? (is_message i) (visible_messages now user s))
  found_or_404 found

-- `_can_write_mailbox`
unfoldable pub can_write_mailbox : ℕ → User → ℕ → Db → Bool
can_write_mailbox now user mailbox s =
    user.is_staff || any (λ b. b.id == mailbox) (writable_for_user now (some user) s)

abbrev pub write_access_required : String
write_access_required = "Write access to the mailbox is required."

-- The guard of `cancel`, `permanent_delete` and `_get_editable_draft`.
unfoldable pub require_write : ℕ → User → EmailMessage → Exec (Unit {0})
unfolding can_write_mailbox
require_write now user m = do
  may ← gets (can_write_mailbox now user m.mailbox)
  if may then pure tt else raise (Exc.permission_denied write_access_required)

abbrev check_draft : ℕ → User → EmailMessage → Exec EmailMessage
check_draft now user m =
    if not (m.status == EmailStatus.draft)
    then raise (Exc.permission_denied "Only drafts can be edited or deleted.")
    else if not (m.created_by == some user.id)
    then raise (Exc.permission_denied "You can only modify your own drafts.")
    else do require_write now user m; pure m

-- `_get_editable_draft`
unfoldable pub get_editable_draft : ℕ → User → ℕ → Exec EmailMessage
unfolding get_object require_write
get_editable_draft now user i = do m ← get_object now user i; check_draft now user m
