-- ===== src/Serializers/Rows.antt =====
-- hedwig/serializers.py: what rows of the configuration must satisfy, and what a message shows of
-- the state that a user keeps of it.
use hedwig.Prelude.Text.{lower, strip, truthy as text_truthy}
use hedwig.Prelude.{
  Bool, Option, String, any, false, first?, is_some, nat_eq, none, not, option_eq, some, string_eq,
  update_where, ℕ, ◌&&◌, ◌==◌, ◌||◌, ◌∷◌,
}
use hedwig.Enums.{AccessType, Folder, access_type_eq, folder_eq}
use hedwig.Exec.{Exec, Result, err, modify, ok, raise}
use hedwig.Serializers.{refuse_if}
use hedwig.States.{is_state}
use hedwig.Tables.{
  Db, EmailMessage, EmailMessageUserState, Mailbox, MailboxAlias, SuppressedAddress,
  UserMailboxAccess,
}

-- `MailboxSerializer.validate_local_part`
unfoldable pub validate_local_part : String → String
validate_local_part s = lower (strip s)

-- Another catch-all mailbox of the domain; `self_id` is the row that is updated.
abbrev pub is_conflict : Option ℕ → ℕ → Mailbox → Bool
is_conflict self_id domain b = b.domain == domain && b.is_catch_all && not (some b.id == self_id)

-- `MailboxSerializer.validate`, on the values that the row will have.
unfoldable pub validate_mailbox : Option ℕ → Mailbox → Db → Result Mailbox
validate_mailbox self_id b s =
    refuse_if (b.is_catch_all && any (is_conflict self_id b.domain) s.mailboxes)
      "This domain has a catch-all mailbox; only one is allowed." (ok b)

abbrev save_new : Result Mailbox → Exec (Unit {0})
save_new (ok b) = modify (λ s. record s { mailboxes = b ∷ s.mailboxes })
save_new (err e) = raise e

-- `create` of the viewset: the validated row is inserted.
unfoldable pub create_mailbox : Mailbox → Exec (Unit {0})
unfolding validate_mailbox
create_mailbox b s = save_new (validate_mailbox none b s) s

abbrev save_changed : ℕ → Result Mailbox → Exec (Unit {0})
save_changed i (ok b) =
    modify (λ s. record s { mailboxes = update_where (λ x. x.id == i) (λ _. b) s.mailboxes })
save_changed i (err e) = raise e

-- `update` of the viewset: the row takes the validated values.
unfoldable pub update_mailbox : ℕ → Mailbox → Exec (Unit {0})
unfolding validate_mailbox
update_mailbox i b s = save_changed i (validate_mailbox (some i) b s) s

-- `MailboxAliasSerializer.validate`
unfoldable pub validate_alias : ℕ → MailboxAlias → Db → Result MailboxAlias
validate_alias mailbox_domain a s =
    refuse_if (not (mailbox_domain == a.domain)) "Alias domain must match the mailbox domain." (
      refuse_if
        (text_truthy a.local_part
          && any (λ b. b.domain == a.domain && lower b.local_part == lower a.local_part)
              s.mailboxes)
        "Alias conflicts with an existing mailbox address." (ok a))

-- `UserMailboxAccessSerializer.validate`
unfoldable pub validate_access : UserMailboxAccess → Result UserMailboxAccess
validate_access a =
    refuse_if (a.access_type == AccessType.mailbox && (not (is_some a.mailbox) || is_some a.domain))
      "Mailbox access must target exactly one mailbox (and no domain)."
      (refuse_if
        (a.access_type == AccessType.domain && (not (is_some a.domain) || is_some a.mailbox))
        "Domain access must target exactly one domain (and no mailbox)." (ok a))

-- `SuppressedAddressSerializer`: `validate_email` and `validate`; the domain of the mailbox is given.
unfoldable pub validate_suppressed : Option ℕ → SuppressedAddress → Result SuppressedAddress
validate_suppressed mailbox_domain r =
    refuse_if (is_some mailbox_domain && not (mailbox_domain == some r.domain))
      "Suppression domain must match the mailbox domain."
      (ok (record r { email = lower (strip r.email) }))

-- `EmailMessageSerializer._user_state`: the row of the requesting user.
abbrev state_for : ℕ → EmailMessage → Db → Option EmailMessageUserState
state_for user m s = first? (is_state user m.id) s.user_states

abbrev shown_by : {A : Type 0} → Option EmailMessageUserState → (EmailMessageUserState → A) → A → A
shown_by none f shared = shared
shown_by (some x) f shared = f x

-- `get_folder`
unfoldable pub get_folder : ℕ → EmailMessage → Db → Folder
get_folder user m s = shown_by (state_for user m s) (λ x. x.folder) m.folder

-- `get_is_read`
unfoldable pub get_is_read : ℕ → EmailMessage → Db → Bool
get_is_read user m s = shown_by (state_for user m s) (λ x. x.is_read) m.is_read

-- `get_is_starred`
unfoldable pub get_is_starred : ℕ → EmailMessage → Db → Bool
get_is_starred user m s = shown_by (state_for user m s) (λ x. x.is_starred) m.is_starred

-- `get_is_important`
unfoldable pub get_is_important : ℕ → EmailMessage → Db → Bool
get_is_important user m s = shown_by (state_for user m s) (λ x. x.is_important) false
