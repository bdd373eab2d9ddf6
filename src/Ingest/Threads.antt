-- ===== src/Ingest/Threads.antt =====
-- `update_thread_for_message` of providers/ingest.py.
use hedwig.Prelude.Text.{truthy, split}
use hedwig.Prelude.Sort.{sorted_set}
use hedwig.Prelude.{
  Bool, List, Option, String, [], any, false, first?, if◌then◌else◌, leb, map, nat_eq, none,
  option_eq, or_else, select, some, string_eq, true, update_where, ℕ, ◌&&◌, ◌++◌, ◌+◌, ◌==◌, ◌∷◌,
}
use hedwig.Enums.{DirectionType, direction_type_eq}
use hedwig.Exec.{Exec, gets, modify, pure, ◌>>=◌, ◌>>◌}
use hedwig.Ingest.Subjects.{normalize_subject}
use hedwig.Sending.Attempts.{update_message}
use hedwig.Tables.{Db, EmailMessage, EmailThread}

abbrev pub fresh : Exec ℕ
fresh = do i ← gets (λ s. s.next_id); modify (λ s. record s { next_id = s.next_id + 1 }); pure i

-- Whether a date comes before another under `-last_message_at`, where NULL comes first.
abbrev newer : Option ℕ → Option ℕ → Bool
newer none b = true
newer (some a) none = false
newer (some a) (some b) = leb b a

abbrev newer_of : EmailThread → Option EmailThread → EmailThread
newer_of t none = t
newer_of t (some u) = if newer t.last_message_at u.last_message_at then t else u

-- `.order_by("-last_message_at").first()`
unfoldable pub newest : List EmailThread → Option EmailThread
newest [] = none
newest (t ∷ ts) = some (newer_of t (newest ts))

unfoldable pub candidate_ids : EmailMessage → List String
unfolding truthy split
candidate_ids m =
    if truthy m.in_reply_to then m.in_reply_to ∷ split m.references else split m.references

abbrev is_rfc_candidate : List String → EmailMessage → Bool
is_rfc_candidate ids m = elim m.rfc_message_id [ none ↦ false | some i ↦ any (λ x. x == i) ids ]

abbrev has_candidate : List String → ℕ → EmailThread → Db → Bool
has_candidate ids mailbox t s =
    t.mailbox == mailbox && any (λ m. m.thread == some t.id && is_rfc_candidate ids m) s.messages

abbrev by_root : List String → ℕ → Db → Option EmailThread
by_root ids mailbox s =
    newest (select (λ t. t.mailbox == mailbox && any (λ x. x == t.root_message_id) ids) s.threads)

abbrev by_message : List String → ℕ → Db → Option EmailThread
by_message ids mailbox s = newest (select (λ t. has_candidate ids mailbox t s) s.threads)

abbrev by_subject : String → ℕ → Db → Option EmailThread
by_subject subject mailbox s =
    newest (select (λ t. t.mailbox == mailbox && t.normalized_subject == subject) s.threads)

abbrev or_try : Option EmailThread → Option EmailThread → Option EmailThread
or_try none o = o
or_try (some t) o = some t

abbrev thread_of : EmailMessage → Db → Option EmailThread
thread_of m s = elim m.thread [ none ↦ none | some i ↦ first? (λ t. t.id == i) s.threads ]

-- The thread of the message itself, of a header, or of the subject.
unfoldable pub find_thread : ℕ → EmailMessage → Db → Option EmailThread
unfolding newest candidate_ids normalize_subject truthy
find_thread mailbox m s =
    let ids = candidate_ids m in
    let subject = normalize_subject m.subject in
    or_try (thread_of m s) (
      or_try (by_root ids mailbox s) (
        or_try (by_message ids mailbox s)
          (if truthy subject then by_subject subject mailbox s else none)))

abbrev pub participants_of : EmailMessage → List String
participants_of m =
    m.from_address ∷ map (λ r. r.email) (m.to_addresses ++ m.cc_addresses ++ m.bcc_addresses)

abbrev pub occurred_at : ℕ → EmailMessage → ℕ
occurred_at now m = or_else m.received_at (or_else m.sent_at now)

-- `has_unread` and `message_count` take the defaults of the model.
abbrev new_thread : ℕ → ℕ → EmailMessage → ℕ → EmailThread
new_thread now mailbox m i = record {
  id = i;
  mailbox = mailbox;
  subject = m.subject;
  normalized_subject = normalize_subject m.subject;
  root_message_id = or_else m.rfc_message_id "";
  participants = sorted_set (participants_of m);
  message_count = 0;
  has_unread = true;
  last_message_at = some (occurred_at now m);
}

abbrev pub or_create : ℕ → ℕ → EmailMessage → Option EmailThread → Exec EmailThread
or_create now mailbox m (some t) = pure t
or_create now mailbox m none = do
  i ← fresh
  modify (λ s. record s { threads = new_thread now mailbox m i ∷ s.threads })
  pure (new_thread now mailbox m i)

abbrev root_after : EmailThread → EmailMessage → String
root_after t m = if truthy t.root_message_id then t.root_message_id else or_else m.rfc_message_id ""

unfoldable pub joined : ℕ → EmailMessage → EmailThread → EmailThread
unfolding sorted_set truthy
joined now m t = record t {
  participants = sorted_set (t.participants ++ participants_of m);
  message_count = t.message_count + 1;
  has_unread = if m.direction == DirectionType.inbound then true else t.has_unread;
  last_message_at = some (occurred_at now m);
  root_message_id = root_after t m;
}

unfoldable pub update_thread_for_message : ℕ → ℕ → EmailMessage → Exec (Unit {0})
unfolding find_thread sorted_set normalize_subject joined
update_thread_for_message now mailbox m = do
  found ← gets (find_thread mailbox m)
  t ← or_create now mailbox m found
  update_message m.id (λ r. record r { thread = some t.id })
  modify (λ s. record s { threads = update_where (λ x. x.id == t.id) (joined now m) s.threads })
