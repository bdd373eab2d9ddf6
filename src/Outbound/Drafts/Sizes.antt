-- ===== src/Outbound/Drafts/Sizes.antt =====
-- The sizes that a draft keeps of its attachments.
use hedwig.Prelude.{
  List, Option, [], ap, arith, first?-update_self, length, nat_eq, none, not, refl, select, some,
  string_eq, suc, true, update_where, ℕ, ◌+◌, ◌==◌, ◌∙◌, ◌∷◌, ◌≡◌,
}
use hedwig.Exec.{ok}
use hedwig.Housekeeping.Deleting.Balance.{delete_attachments_ends}
use hedwig.Outbound.Compose.{identity_id, sender_email, sender_name}
use hedwig.Outbound.Drafts.{
  DraftItem, DraftPatch, dropped, keep_ids, new_items, reconcile_draft_attachments, redrafted,
  resized, sender_fields, total_size, update_draft_message,
}
use hedwig.Outbound.Rows.{NewAttachment, stage_attachments, stage_each, stage_one, staged_size}
use hedwig.Sending.Attempts.{find_message, is_message, update_message}
use hedwig.Sending.Dispatch.{attachments_of, find_domain, find_mailbox}
use hedwig.Tables.{Db, Domain, EmailMessage, Mailbox, SenderIdentity}

-- The row of message `i` tells whether it has attachments, and their bytes.
abbrev pub TellsSizes : ℕ → EmailMessage → Db → Type 0
TellsSizes i x s =
    (x.size_bytes ≡ total_size (attachments_of i s))
    × (x.has_attachments ≡ not (length (attachments_of i s) == 0))

-- What staging leaves: rows on top of those that the message had.
record Staged (i : ℕ) (s : Db) (count n : ℕ) (t : Db) : Type 0 where
  messages : t.messages ≡ s.messages
  grown : total_size (attachments_of i t) ≡ total_size (attachments_of i s) + n
  longer : length (attachments_of i t) ≡ length (attachments_of i s) + count

stage_each-Staged :
    (i : ℕ) (xs : List NewAttachment) (s : Db)
    → (n : ℕ) × (t : Db) × (stage_each i xs s ≡ (ok n, t)) × Staged i s (length xs) n t
unfolding stage_each stage_one
stage_each-Staged i [] s =
    (0, s, refl, record { messages = refl; grown = omega arith; longer = omega arith })
stage_each-Staged i (a ∷ more) s =
    let s₁ = (stage_one i a s).1 in
    let (n, t, e, k) = stage_each-Staged i more s₁ in
    let own : (i == i) ≡ true = ground arith in
    let bytes : total_size (attachments_of i s₁) ≡ staged_size a + total_size (attachments_of i s) =
      rw own refl in
    let rows : length (attachments_of i s₁) ≡ suc (length (attachments_of i s)) = rw own refl in
    (
      staged_size a + n,
      t,
      rw e refl,
      record {
        messages = k.messages;
        grown = omega (arith, k.grown, bytes);
        longer = omega (arith, k.longer, rows);
      },
    )

stage_attachments_tells :
    (m y : EmailMessage) (xs : List NewAttachment) (s : Db)
    → find_message m.id s ≡ some y
    → TellsSizes m.id y s
    → m.size_bytes ≡ y.size_bytes
    → (x : EmailMessage) × (t : Db) × (stage_attachments m xs s ≡ (ok tt, t))
      × (find_message m.id t ≡ some x)
      × TellsSizes m.id x t
unfolding stage_attachments
stage_attachments_tells m y [] s found h same = (y, s, refl, found, h)
stage_attachments_tells m y (a ∷ more) s found h same =
    let (n, t, e, k) = stage_each-Staged m.id (a ∷ more) s in
    let grow : EmailMessage → EmailMessage =
      λ r. record r { has_attachments = true; size_bytes = m.size_bytes + n } in
    let found_t : find_message m.id t ≡ some y = rw k.messages found in
    (
      grow y,
      record t { messages = update_where (is_message m.id) grow t.messages },
      rw e refl,
      first?-update_self (is_message m.id) grow (λ x. refl) t.messages y found_t,
      (omega (arith, k.grown, same, h.0), rw k.longer (ground arith)),
    )

reconcile_tells :
    (m y : EmailMessage) (items : List DraftItem) (s : Db)
    → find_message m.id s ≡ some y
    → (x : EmailMessage) × (t : Db) × (reconcile_draft_attachments m items s ≡ (ok tt, t))
      × (find_message m.id t ≡ some x)
      × TellsSizes m.id x t
unfolding reconcile_draft_attachments
reconcile_tells m y items s found =
    let (left, queue, e) =
      delete_attachments_ends (select (dropped m.id (keep_ids items)) s.attachments) s in
    let s₁ : Db = record s { attachments = left; queue = queue } in
    let kept = attachments_of m.id s₁ in
    let s₂ = (update_message m.id (resized kept) s₁).1 in
    let (x, t, k, found', tells) =
      stage_attachments_tells (resized kept m) (resized kept y) (new_items items) s₂
        (first?-update_self (is_message m.id) (resized kept) (λ x. refl) s.messages y found)
        (refl, refl) refl in
    (x, t, rw (e, k) refl, found', tells)

sender_kept :
    (m : EmailMessage) (identity : Option (Option SenderIdentity)) (b : Mailbox) (d : Domain)
    (s : Db)
    → find_mailbox m.mailbox s ≡ some b
    → find_domain b.domain s ≡ some d
    → (f : EmailMessage → EmailMessage) × (sender_fields m identity s ≡ (ok f, s))
      × ((r : EmailMessage) → (f r).id ≡ r.id)
      × ((r : EmailMessage) → (f r).size_bytes ≡ r.size_bytes)
      × ((r : EmailMessage) → (f r).has_attachments ≡ r.has_attachments)
unfolding sender_fields
sender_kept m none b d s box dom = ((λ r. r), refl, (λ r. refl), (λ r. refl), λ r. refl)
sender_kept m (some i) b d s box dom = (
  (λ r. record r {
    sender_identity = identity_id i;
    from_address = sender_email b d i;
    from_name = sender_name b i;
  }),
  rw (box, dom) refl,
  (λ r. refl),
  (λ r. refl),
  λ r. refl,
)

pub update_draft_message-TellsSizes :
    (m y : EmailMessage) (p : DraftPatch) (items : List DraftItem) (b : Mailbox) (d : Domain)
    (s : Db)
    → find_message m.id s ≡ some y
    → find_mailbox m.mailbox s ≡ some b
    → find_domain b.domain s ≡ some d
    → p.attachments ≡ some items
    → let r = update_draft_message m p s in
      (x : EmailMessage) × (r.0 ≡ ok x) × (find_message m.id r.1 ≡ some x) × TellsSizes m.id x r.1
unfolding update_draft_message
update_draft_message-TellsSizes m y p items b d s found box dom given =
    let (f, from, key, size, has) = sender_kept m p.sender_identity b d s box dom in
    let (x, t, e, found', tells) = reconcile_tells m y items s found in
    let g : EmailMessage → EmailMessage = λ r. redrafted p (f r) in
    let last =
      first?-update_self (is_message m.id) g (λ z. ap (λ j. j == m.id) (key z)) t.messages x
        found' in
    let t' : Db = record t { messages = update_where (is_message m.id) g t.messages } in
    let whole : update_draft_message m p s ≡ (ok (g x), t') = rw (from, given, e, last) refl in
    (g x, rw whole refl, rw whole last, rw whole (size x ∙ tells.0, has x ∙ tells.1))
