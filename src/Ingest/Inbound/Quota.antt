-- ===== src/Ingest/Inbound/Quota.antt =====
-- The storage quota of a mailbox.
use hedwig.Prelude.{
  Bool, String, arith, first?, if◌then◌else◌, leb, nat_eq, none, not, refl, some, true, ℕ, ◌+◌,
  ◌==◌, ◌||◌, ◌≡◌, Bool-cases, inl, inr,
}
use hedwig.Exec.{Exc, Result, err, get_or_raise, pure, rolled_back, ◌>>=◌}
use hedwig.Ingest.Inbound.{
  admit, check_quota, create_inbound_message, incoming_size, is_inbound_copy, over_quota,
  quota_message,
}
use hedwig.Normalized.{NormalizedInboundMessage}
use hedwig.Sending.Dispatch.{find_mailbox}
use hedwig.Services.{Services}
use hedwig.Tables.{Db, EmailMessage, Mailbox}

-- The mailbox has no quota, or its bytes and those of the message are within it.
abbrev pub fits : Mailbox → ℕ → Bool
fits box size = box.quota_bytes == 0 || leb (box.used_bytes + size) box.quota_bytes

over_quota-fits : (box : Mailbox) (size : ℕ) → over_quota box size ≡ not (fits box size)
over_quota-fits box size = ground arith

-- What a refusal and an admission leave.
abbrev pub refused : Services → Mailbox → ℕ → Db → Result (EmailMessage × Bool) × Db
refused services box size s = (err (Exc.quota_exceeded (quota_message services box size)), s)

abbrev pub admitted :
    ℕ
    → Services
    → ℕ
    → Mailbox
    → String
    → NormalizedInboundMessage
    → Db
    → Result (EmailMessage × Bool) × Db
admitted now services provider mailbox recipient n s =
    rolled_back s ((admit now services provider mailbox recipient n >>= λ m. pure (m, true)) s)

pub create_inbound_message-quota :
    (now : ℕ) (services : Services) (provider : ℕ) (mailbox : Mailbox) (recipient : String)
    (n : NormalizedInboundMessage) (s : Db) (locked : Mailbox)
    → first? (is_inbound_copy provider mailbox.id n) s.messages ≡ none
    → find_mailbox mailbox.id s ≡ some locked
    → create_inbound_message now services provider mailbox recipient n s ≡ (
        if fits locked (incoming_size n)
        then admitted now services provider mailbox recipient n s
        else refused services locked (incoming_size n) s)
unfolding create_inbound_message check_quota
create_inbound_message-quota now services provider mailbox recipient n s locked new found = rw new (
    rw (found, get_or_raise)
      (rw (over_quota-fits locked (incoming_size n))
        (elim (Bool-cases (fits locked (incoming_size n))) [
          | inl e ↦ rw e refl
          | inr e ↦ rw e refl
        ])))
