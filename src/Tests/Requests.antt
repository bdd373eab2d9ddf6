-- ===== src/Tests/Requests.antt =====
-- The properties of the REST interface and of the deletion of messages, at the office.
use hedwig.Prelude.{List, [], false, none, not, refl, select, some, true, ◌&&◌, ◌∷◌, ◌≡◌}
use hedwig.Access.{User, for_api_user, is_writing, lets_see, lets_write, writable_for_user}
use hedwig.Api.{can_write_mailbox, visible_messages}
use hedwig.Api.Erase.{bulk_permanent_delete-Balanced, destroy-own_drafts, is_own_draft}
use hedwig.Api.Messages.{bulk_permanent_delete, bulk_state, destroy, state}
use hedwig.Api.Trash.{bulk_state-unwritable, sends, state-stops_send}
use hedwig.Enums.{Folder}
use hedwig.Exec.{ok}
use hedwig.Housekeeping.Deleting.Balance.{Balanced}
use hedwig.Sending.Attempts.{back_to_draft, find_message, reserve_attempt_for_sending}
use hedwig.Serializers.{refuse_if}
use hedwig.Serializers.Grants.{OneCatchAll, create_mailbox-OneCatchAll, validate_access-lets_write}
use hedwig.Serializers.Rows.{create_mailbox, validate_access}
use hedwig.States.{StatePatch, new_state, save_states}
use hedwig.States.Batch.{each_upsert, save_states-each_upsert}
use hedwig.Tables.{Db, EmailMessage, EmailMessageUserState}
use hedwig.Tests.Office.{ann, attempt, draft, grant, letter, office}

abbrev reader : User
reader = record { id = 6; is_staff = false; is_superuser = false }

abbrev writer : User
writer = record { id = 5; is_staff = false; is_superuser = false }

-- A draft that the writer made.
abbrev own_draft : EmailMessage
own_draft = record draft { id = 12; mailbox = 1; created_by = some 5; size_bytes = 89 }

abbrev to_trash : StatePatch
to_trash = record {
  is_read = some true;
  is_starred = none;
  is_important = none;
  folder = some Folder.trash;
  archived_at = none;
  snoozed_until = none;
  deleted_at = some (some 1);
}

abbrev known_state : EmailMessageUserState
known_state = new_state 5 draft

abbrev office_with_state : Db
office_with_state = record office { user_states = known_state ∷ [] }

save_states-each_upsert_example :
    (save_states 1 5 (letter ∷ draft ∷ []) to_trash office_with_state
      ≡ each_upsert 1 5 (letter ∷ draft ∷ []) to_trash office_with_state)
    × ((xs : List EmailMessageUserState) × ((save_states 1 5
            (letter ∷ draft ∷ [])
            to_trash
            office_with_state).0
          ≡ ok xs))
save_states-each_upsert_example =
    save_states-each_upsert 1 5 (letter ∷ draft ∷ []) to_trash office_with_state (refl, (refl, tt))

bulk_state-unwritable_example :
    sends (bulk_state 1 reader (10 ∷ []) to_trash office).1 ≡ sends office
unfolding can_write_mailbox writable_for_user for_api_user
bulk_state-unwritable_example = bulk_state-unwritable 1 reader (10 ∷ []) to_trash office refl

state-stops_send_example :
    ((x : EmailMessageUserState) × (((state 1 writer 10 to_trash office).0 ≡ ok x)
        × (x.folder ≡ Folder.trash)))
    × (find_message 10 (state 1 writer 10 to_trash office).1 ≡ some (back_to_draft letter))
    × (reserve_attempt_for_sending 2 20 (state 1 writer 10 to_trash office).1
        ≡ (ok none, (state 1 writer 10 to_trash office).1))
unfolding can_write_mailbox writable_for_user for_api_user visible_messages
state-stops_send_example =
    state-stops_send 1 2 10 writer to_trash letter attempt office refl refl refl refl refl refl refl

-- Mailbox 1 is charged with 91 bytes.
abbrev balanced_office : Db
balanced_office = record office {
  messages = letter ∷ draft ∷ own_draft ∷ [];
  mailboxes = record ann { used_bytes = 91 } ∷ [];
}

bulk_permanent_delete-Balanced_example :
    Balanced (bulk_permanent_delete 1 writer (10 ∷ 12 ∷ []) balanced_office).1
bulk_permanent_delete-Balanced_example =
    bulk_permanent_delete-Balanced 1 writer (10 ∷ 12 ∷ []) balanced_office
      ((refl, (refl, (refl, tt))), refl)

destroy-own_drafts_example :
    select (λ m. not (is_own_draft writer m)) (destroy 1 writer 12 balanced_office).1.messages
    ≡ select (λ m. not (is_own_draft writer m)) balanced_office.messages
destroy-own_drafts_example =
    destroy-own_drafts 1 12 writer balanced_office refl (refl, (refl, (refl, tt)))

validate_access-lets_write_example :
    lets_write 1 writer ann grant ≡ (lets_see 1 writer ann grant && is_writing grant.permission)
unfolding validate_access refuse_if
validate_access-lets_write_example = validate_access-lets_write grant grant refl 1 writer ann

create_mailbox-OneCatchAll_example :
    OneCatchAll (create_mailbox (record ann { is_catch_all = true }) office).1.mailboxes
create_mailbox-OneCatchAll_example =
    create_mailbox-OneCatchAll (record ann { is_catch_all = true }) office ((λ k. refl), tt)
