-- ===== src/Housekeeping/Deleting.antt =====
-- What `EmailMessage.delete` of Django does to the tables of hedwig/models.py and
-- providers/models.py: the rows that cascade, and the handlers of hedwig/signals.py.
pub mod Balance
use hedwig.Prelude.{List, [], nat_eq, not, option_eq, select, string_eq, ℕ, ◌==◌, ◌∷◌}
use hedwig.Exec.{Exec, atomic, gets, modify, pure, ◌>>=◌, ◌>>◌}
use hedwig.Housekeeping.{decrement_mailbox_used_bytes, delete_attachment_file}
use hedwig.Sending.Attempts.{is_message}
use hedwig.Sending.Dispatch.{attachments_of}
use hedwig.Tables.{Db, EmailAttachment, EmailMessage}

-- A file is cleaned up after the commit.
abbrev pub delete_attachment : EmailAttachment → Exec (Unit {0})
delete_attachment a = do
  modify (λ s. record s { attachments = select (λ x. not (x.id == a.id)) s.attachments })
  delete_attachment_file a

unfoldable pub delete_attachments : List EmailAttachment → Exec (Unit {0})
delete_attachments [] = pure tt
delete_attachments (a ∷ more) = delete_attachment a >> delete_attachments more

-- `on_delete=models.CASCADE` of the rows that point to a message, but for its attachments.
abbrev pub without_children : ℕ → Db → Db
without_children i s = record s {
  recipients = select (λ r. not (r.message == i)) s.recipients;
  user_states = select (λ r. not (r.message == i)) s.user_states;
  attempts = select (λ r. not (r.message == i)) s.attempts;
  message_labels = select (λ r. not (r.message == i)) s.message_labels;
  events = select (λ r. not (r.message == i)) s.events;
}

abbrev pub without_message : ℕ → Db → Db
without_message i s = record s { messages = select (λ m. not (is_message i m)) s.messages }

-- `message.delete()`
unfoldable pub delete_message : EmailMessage → Exec (Unit {0})
delete_message m = atomic do
  rows ← gets (attachments_of m.id)
  delete_attachments rows
  modify (without_children m.id)
  modify (without_message m.id)
  decrement_mailbox_used_bytes m

-- `.delete()` of a queryset.
unfoldable pub delete_messages : List EmailMessage → Exec (Unit {0})
delete_messages [] = pure tt
delete_messages (m ∷ ms) = delete_message m >> delete_messages ms
