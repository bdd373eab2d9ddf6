-- ===== src/Api/Messages.antt =====
-- The actions of `EmailMessageViewSet` of hedwig/views.py that change messages and the states that
-- users keep of them.
use hedwig.Prelude.{
  Bool, List, Option, [], all, any, false, if◌then◌else◌, is_some, length, ltb, nat_eq, none, not,
  option_eq, select, some, string_eq, true, ℕ, ◌++◌, ◌+◌, ◌==◌, ◌||◌, ◌∷◌,
}
use hedwig.Access.{User, writable_for_user}
use hedwig.Api.{can_write_mailbox, get_editable_draft, get_object, require_write, visible_messages}
use hedwig.Enums.{
  DirectionType, EmailStatus, Folder, direction_type_eq, domain_status_eq, email_status_eq,
  folder_eq, provider_webhook_status_eq, send_attempt_status_eq,
}
use hedwig.Exec.{Exc, Exec, atomic, gets, modify, pure, raise, ◌>>=◌, ◌>>◌}
use hedwig.Housekeeping.Deleting.{delete_message, delete_messages}
use hedwig.Outbound.Compose.{Composed, create_outbound_message, promote_draft_to_send}
use hedwig.Prelude.Text.{truthy}
use hedwig.Sending.Attempts.{cancel_scheduled_send}
use hedwig.Services.{Services}
use hedwig.States.{StatePatch, save_states, upsert}
use hedwig.Tables.{Db, EmailMessage, EmailMessageUserState, Mailbox, OutboundSendAttempt, Task}

abbrev is_future : ℕ → Option ℕ → Bool
is_future now none = false
is_future now (some t) = ltb now t

-- `_enqueue_send`; the countdown of an immediate send is left out.
unfoldable pub enqueue_send : ℕ → EmailMessage → OutboundSendAttempt → Exec (Unit {0})
enqueue_send now m a =
    if is_future now m.scheduled_at
    then pure tt
    else modify (λ s. record s { queue = s.queue ++ (Task.send_email_message m.id a.id ∷ []) })

-- The part of `SendEmailSerializer` that runs after validation, and `send`.
unfoldable pub send : ℕ → Services → Mailbox → Composed → Exec EmailMessage
unfolding enqueue_send
send now services mailbox c = do
  made ← create_outbound_message now services mailbox c
  enqueue_send now made.0 made.1
  pure made.0

abbrev promote_and_enqueue : ℕ → Services → EmailMessage → Exec EmailMessage
promote_and_enqueue now services m = do
  made ← promote_draft_to_send now services m
  enqueue_send now made.0 made.1
  pure made.0

abbrev send_checked : ℕ → Services → EmailMessage → Exec EmailMessage
send_checked now services m =
    if length m.to_addresses == 0
    then raise (Exc.validation_error "This field is required.")
    else if not (truthy m.body_text || truthy m.body_html)
    then raise (Exc.validation_error "Provide body_text or body_html.")
    else promote_and_enqueue now services m

unfoldable pub send_draft : ℕ → Services → User → ℕ → Exec EmailMessage
unfolding enqueue_send
send_draft now services user i = do m ← get_editable_draft now user i; send_checked now services m

abbrev pub own_draft_unless_staff : ℕ → User → ℕ → Exec (Unit {0})
own_draft_unless_staff now user i =
    if user.is_staff then pure tt else do _ ← get_editable_draft now user i; pure tt

unfoldable pub destroy : ℕ → User → ℕ → Exec (Unit {0})
destroy now user i = do
  own_draft_unless_staff now user i
  m ← get_object now user i
  delete_message m

abbrev or_invalid : Bool → Exec (Unit {0})
or_invalid true = pure tt
or_invalid false = raise (Exc.validation_error "No pending send attempt to cancel.")

abbrev cancel_checked : ℕ → EmailMessage → Exec (Unit {0})
cancel_checked now m =
    if not (m.direction == DirectionType.outbound) || not (m.status == EmailStatus.queued)
    then raise (Exc.validation_error "Only queued outbound messages can be cancelled.")
    else do done ← cancel_scheduled_send now m; or_invalid done

unfoldable pub cancel : ℕ → User → ℕ → Exec (Unit {0})
cancel now user i = do m ← get_object now user i; require_write now user m; cancel_checked now m

unfoldable pub permanent_delete : ℕ → User → ℕ → Exec (Unit {0})
permanent_delete now user i = do
  m ← get_object now user i
  require_write now user m
  delete_message m

-- `len(set(ids))`
unfoldable pub count_distinct : List ℕ → ℕ
count_distinct [] = 0
count_distinct (i ∷ is) =
    let rest = count_distinct is in if any (λ j. j == i) is then rest else 1 + rest

abbrev all_found : List ℕ → List EmailMessage → Exec (List EmailMessage)
unfolding count_distinct
all_found ids ms =
    if not (length ms == count_distinct ids)
    then raise (Exc.not_found "One or more messages were not found.")
    else pure ms

-- `list(self.get_queryset().filter(id__in=ids))`, after the test that `ids` is not empty.
unfoldable pub get_listed : ℕ → User → List ℕ → Exec (List EmailMessage)
unfolding count_distinct
get_listed now user [] = raise (Exc.validation_error "Provide a non-empty list of message ids.")
get_listed now user (i ∷ is) = do
  ms ← gets (λ s. select (λ m. any (λ j. j == m.id) (i ∷ is)) (visible_messages now user s))
  all_found (i ∷ is) ms

abbrev pub writable_mailbox : ℕ → User → Db → EmailMessage → Bool
writable_mailbox now user s m = any (λ b. b.id == m.mailbox) (writable_for_user now (some user) s)

abbrev pub or_denied : Bool → Exec (Unit {0})
or_denied true = pure tt
or_denied false =
    raise (Exc.permission_denied "Write access to the mailbox is required for all messages.")

abbrev pub require_write_all : ℕ → User → List EmailMessage → Exec (Unit {0})
require_write_all now user ms = do
  may ← gets (λ s. user.is_staff || all (writable_mailbox now user s) ms)
  or_denied may

unfoldable pub bulk_permanent_delete : ℕ → User → List ℕ → Exec ℕ
bulk_permanent_delete now user ids = do
  ms ← get_listed now user ids
  require_write_all now user ms
  atomic (delete_messages ms)
  pure (length ms)

abbrev pub is_trashing : StatePatch → Bool
is_trashing p = p.folder == some Folder.trash

-- The sends that trashing cancels: where the user may write.
abbrev cancel_one : ℕ → Bool → EmailMessage → Exec (Unit {0})
cancel_one now may m = if may then (do _ ← cancel_scheduled_send now m; pure tt) else pure tt

unfoldable pub cancel_where : ℕ → (EmailMessage → Bool) → List EmailMessage → Exec (Unit {0})
cancel_where now may [] = pure tt
cancel_where now may (m ∷ ms) = cancel_one now (may m) m >> cancel_where now may ms

abbrev pub cancel_if_trashing : ℕ → User → StatePatch → List EmailMessage → Exec (Unit {0})
cancel_if_trashing now user p ms =
    if is_trashing p
    then (do may ← gets (λ s. λ m. can_write_mailbox now user m.mailbox s); cancel_where now may ms)
    else pure tt

unfoldable pub state : ℕ → User → ℕ → StatePatch → Exec EmailMessageUserState
state now user i p = do
  m ← get_object now user i
  cancel_if_trashing now user p (m ∷ [])
  upsert now user.id m p

abbrev pub is_empty_patch : StatePatch → Bool
is_empty_patch p = not (
    is_some p.is_read
    || is_some p.is_starred
    || is_some p.is_important
    || is_some p.folder
    || is_some p.archived_at
    || is_some p.snoozed_until
    || is_some p.deleted_at)

-- An empty patch is refused before the messages are looked up.
abbrev pub save_listed : ℕ → User → StatePatch → List ℕ → Exec (List EmailMessageUserState)
save_listed now user p ids = do
  ms ← get_listed now user ids
  cancel_if_trashing now user p ms
  save_states now user.id ms p

unfoldable pub bulk_state : ℕ → User → List ℕ → StatePatch → Exec (List EmailMessageUserState)
bulk_state now user [] p = raise (Exc.validation_error "Provide a non-empty list of message ids.")
bulk_state now user (i ∷ is) p =
    if is_empty_patch p
    then raise (Exc.validation_error "Provide at least one state field to update.")
    else save_listed now user p (i ∷ is)

-- `restore`: the folder becomes the inbox and the deletion mark goes.
abbrev restoring : StatePatch
restoring = record {
  is_read = none;
  is_starred = none;
  is_important = none;
  folder = some Folder.inbox;
  archived_at = none;
  snoozed_until = none;
  deleted_at = some none;
}

unfoldable pub restore : ℕ → User → ℕ → Exec EmailMessageUserState
restore now user i = do m ← get_object now user i; upsert now user.id m restoring
