-- ===== src/Housekeeping.antt =====
-- The sweeps of hedwig/tasks.py over used bytes, suppressions and stored files, hedwig/signals.py,
-- and providers/catch_all_coverage.py.
pub mod UsedBytes
pub mod Deleting
use hedwig.Prelude.Text.{truthy, contains, lower}
use hedwig.Prelude.{
  Bool, List, String, [], any, if◌then◌else◌, leb, length, map, nat_eq, not, option_eq, select,
  some, string_eq, sum_by, update_where, ℕ, ◌&&◌, ◌++◌, ◌-◌, ◌==◌, ◌||◌, ◌∷◌,
}
use hedwig.Enums.{
  ProviderWebhookStatus, domain_status_eq, email_status_eq, provider_webhook_status_eq,
  send_attempt_status_eq,
}
use hedwig.Exec.{Exec, gets, modify, pure, ◌>>=◌, ◌>>◌}
use hedwig.Sending.Suppression.{unexpired}
use hedwig.Tables.{
  Db, Domain, EmailAttachment, EmailMessage, Mailbox, ProviderWebhookLog, SuppressedAddress, Task,
}

-- `totals.get(mailbox.id) or 0`
abbrev pub stored_bytes : ℕ → List EmailMessage → ℕ
stored_bytes mailbox messages =
    sum_by (λ m. m.size_bytes) (select (λ (m : EmailMessage). m.mailbox == mailbox) messages)

abbrev pub differs : List EmailMessage → Mailbox → Bool
differs messages b = not (b.used_bytes == stored_bytes b.id messages)

abbrev pub reconciled : List EmailMessage → Mailbox → Mailbox
reconciled messages b = record b { used_bytes = stored_bytes b.id messages }

-- The number of mailboxes updated.
unfoldable pub reconcile_mailbox_used_bytes_task : Exec ℕ
reconcile_mailbox_used_bytes_task = do
  wrong ← gets (λ s. select (differs s.messages) s.mailboxes)
  modify (λ s. record s {
    mailboxes = update_where (differs s.messages) (reconciled s.messages) s.mailboxes;
  })
  pure (length wrong)

abbrev pub is_past : ℕ → SuppressedAddress → Bool
is_past now r = not (unexpired now r.expires_at)

unfoldable pub expire_suppressed_addresses_task : ℕ → Exec ℕ
expire_suppressed_addresses_task now = do
  past ← gets (λ s. select (is_past now) s.suppressed)
  modify (λ s. record s { suppressed = select (λ r. not (is_past now r)) s.suppressed })
  pure (length past)

abbrev is_reference : String → String → EmailAttachment → Bool
is_reference file key a = a.file == file || (truthy key && a.storage_key == key)

pub data Deletion : Type 0 where
  missing_file_url still_referenced failed deleted : Deletion

-- `delete_file` tells whether the object storage deleted the file.
unfoldable pub delete_unreferenced_attachment_file_task :
    (String → Bool) → String → String → Db → Deletion
delete_unreferenced_attachment_file_task delete_file file key s =
    if not (truthy file)
    then Deletion.missing_file_url
    else if any (is_reference file key) s.attachments
    then Deletion.still_referenced
    else if not (delete_file file)
    then Deletion.failed
    else Deletion.deleted

abbrev pub without_bytes : ℕ → Mailbox → Mailbox
without_bytes size b = record b { used_bytes = b.used_bytes - size }

-- `post_delete` of a message; `Greatest(… , 0)` is subtraction that stops at 0.
unfoldable pub decrement_mailbox_used_bytes : EmailMessage → Exec (Unit {0})
decrement_mailbox_used_bytes m =
    if m.size_bytes == 0
    then pure tt
    else modify (λ s. record s {
      mailboxes = update_where (λ b. b.id == m.mailbox) (without_bytes m.size_bytes) s.mailboxes;
    })

-- `post_delete` of an attachment.
unfoldable pub delete_attachment_file : EmailAttachment → Exec (Unit {0})
delete_attachment_file a =
    if not (truthy a.file)
    then pure tt
    else modify (λ s. record s {
      queue = s.queue ++ (Task.delete_attachment_file a.file a.storage_key ∷ []);
    })

abbrev is_receiving_box : ℕ → Mailbox → Bool
is_receiving_box d m = m.domain == d && m.is_active && m.receive_enabled

abbrev is_dropped : ℕ → ℕ → ProviderWebhookLog → Bool
is_dropped since d w =
    w.domain == some d
    && w.status == ProviderWebhookStatus.ignored
    && contains "no mailbox matched" (lower w.error_message)
    && leb since w.received_at

abbrev is_uncovered : Db → Domain → Bool
is_uncovered s d =
    d.is_active
    && d.inbound_enabled
    && any (is_receiving_box d.id) s.mailboxes
    && not (any (λ m. is_receiving_box d.id m && m.is_catch_all) s.mailboxes)

abbrev counted : ℕ → Db → Domain → ℕ × (ℕ × ℕ)
counted since s d = (
  d.id,
  (
    length (select (is_receiving_box d.id) s.mailboxes),
    length (select (is_dropped since d.id) s.webhook_logs),
  ),
)

-- A domain by its key, the number of its receiving mailboxes, and the number of dropped messages.
unfoldable pub find_domains_missing_catch_all : ℕ → Db → List (ℕ × (ℕ × ℕ))
find_domains_missing_catch_all since s = map (counted since s) (select (is_uncovered s) s.domains)
