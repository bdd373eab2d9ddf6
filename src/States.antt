-- ===== src/States.antt =====
-- `EmailMessageUserStateManager.upsert` of hedwig/manager.py and the batch of `bulk_state` of
-- hedwig/views.py: what a user keeps of a message.
pub mod Batch
use hedwig.Prelude.{
  Bool, List, Option, [], any, false, first?, if◌then◌else◌, map, nat_eq, none, not, option_eq,
  or_else, select, some, string_eq, update_where, ℕ, ◌&&◌, ◌==◌, ◌∷◌,
}
use hedwig.Enums.{Folder, folder_eq}
use hedwig.Exec.{Exc, Exec, atomic, err, gets, modify, ok, pure, ◌>>=◌, ◌>>◌}
use hedwig.Tables.{EmailMessage, EmailMessageUserState}

-- `validated_data` of `MessageStatePatchSerializer`: each key present or not, with null for a time.
pub record StatePatch : Type 0 where
  pub is_read : Option Bool
  pub is_starred : Option Bool
  pub is_important : Option Bool
  pub folder : Option Folder
  pub archived_at : Option (Option ℕ)
  pub snoozed_until : Option (Option ℕ)
  pub deleted_at : Option (Option ℕ)

-- `unique_user_message_state`
abbrev pub is_state : ℕ → ℕ → EmailMessageUserState → Bool
is_state user message x = x.user == user && x.message == message

-- A new row, with the defaults of the model and what the message says.
abbrev pub new_state : ℕ → EmailMessage → EmailMessageUserState
new_state user m = record {
  user = user;
  message = m.id;
  folder = m.folder;
  is_read = m.is_read;
  is_starred = m.is_starred;
  is_important = false;
  archived_at = none;
  snoozed_until = none;
  deleted_at = none;
  last_seen_at = none;
}

-- The loop of `setattr`, and `last_seen_at`.
abbrev pub patched : ℕ → StatePatch → EmailMessageUserState → EmailMessageUserState
patched now p x = record x {
  folder = or_else p.folder x.folder;
  is_read = or_else p.is_read x.is_read;
  is_starred = or_else p.is_starred x.is_starred;
  is_important = or_else p.is_important x.is_important;
  archived_at = or_else p.archived_at x.archived_at;
  snoozed_until = or_else p.snoozed_until x.snoozed_until;
  deleted_at = or_else p.deleted_at x.deleted_at;
  last_seen_at = some now;
}

-- The user's row of the message, or else the new one.
abbrev pub current : ℕ → EmailMessage → List EmailMessageUserState → EmailMessageUserState
current user m rows = or_else (first? (is_state user m.id) rows) (new_state user m)

-- The table after the row is created or updated.
abbrev pub upserted :
    ℕ → ℕ → StatePatch → EmailMessage → List EmailMessageUserState → List EmailMessageUserState
upserted now user p m rows =
    if any (is_state user m.id) rows
    then update_where (is_state user m.id) (patched now p) rows
    else patched now p (new_state user m) ∷ rows

unfoldable pub upsert : ℕ → ℕ → EmailMessage → StatePatch → Exec EmailMessageUserState
upsert now user m p s = (
  ok (patched now p (current user m s.user_states)),
  record s { user_states = upserted now user p m s.user_states },
)

-- `bulk_create` of the new rows, which the unique constraint refuses beside a row of theirs.
unfoldable pub create_states : ℕ → ℕ → StatePatch → List EmailMessage → Exec (Unit {0})
create_states now user p [] s = (ok tt, s)
create_states now user p (m ∷ ms) s =
    let rest =
      create_states now user p ms
        (record s { user_states = patched now p (new_state user m) ∷ s.user_states }) in
    if any (is_state user m.id) s.user_states then (err Exc.integrity_error, s) else rest

-- `bulk_update` writes the patched fields of each row that was loaded.
unfoldable pub update_states :
    ℕ → ℕ → StatePatch → List EmailMessage → List EmailMessageUserState → List EmailMessageUserState
update_states now user p [] rows = rows
update_states now user p (m ∷ ms) rows =
    update_states now user p ms (update_where (is_state user m.id) (patched now p) rows)

abbrev pub has_state : ℕ → List EmailMessageUserState → EmailMessage → Bool
has_state user rows m = any (is_state user m.id) rows

-- The loop over the messages and the block after it: `rows` is the table as the batch loaded it.
abbrev pub write_batch :
    ℕ
    → ℕ
    → StatePatch
    → List EmailMessage
    → List EmailMessageUserState
    → Exec (List EmailMessageUserState)
write_batch now user p ms rows = do
  atomic do
    create_states now user p (select (λ m. not (has_state user rows m)) ms)
    modify (λ s. record s {
      user_states = update_states now user p (select (has_state user rows) ms) s.user_states;
    })
  pure (map (λ m. patched now p (current user m rows)) ms)

-- `bulk_state` from the query of the existing rows on.
unfoldable pub save_states :
    ℕ → ℕ → List EmailMessage → StatePatch → Exec (List EmailMessageUserState)
unfolding create_states update_states
save_states now user ms p = do rows ← gets (λ s. s.user_states); write_batch now user p ms rows
