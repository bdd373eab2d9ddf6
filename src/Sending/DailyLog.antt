-- ===== src/Sending/DailyLog.antt =====
-- providers/manager.py, `DailyDomainSendLogManager`, and the limit and failure helpers of
-- providers/sending.py. The row lock makes each operation one step.
pub mod Bounds
pub mod Counter
use hedwig.Prelude.{
  ℕ, zero, suc, ◌+◌, ◌-◌, ◌/◌, min, Bool, true, false, ◌&&◌, Option, none, some, List, [], ◌∷◌,
  nat_eq, ◌==◌, leb, first?, update_where, if◌then◌else◌,
}
use hedwig.Tables.{Db, Domain, EmailProvider, DailyDomainSendLog}
use hedwig.Exec.{Exec, pure, gets, modify, atomic, ◌>>=◌, ◌>>◌}

-- `timezone.now().date()`, in UTC.
abbrev pub date_of : ℕ → ℕ
date_of now = now / 86400

abbrev pub is_log : ℕ → ℕ → DailyDomainSendLog → Bool
is_log domain date log = log.domain == domain && log.date == date

-- A limit of 0 is no limit.
abbrev limit_or : ℕ → Option ℕ → Option ℕ
limit_or zero rest = rest
limit_or (suc n) none = some (suc n)
limit_or (suc n) (some m) = some (min (suc n) m)

unfoldable pub get_daily_send_limit : Domain → EmailProvider → Option ℕ
get_daily_send_limit domain provider =
    limit_or domain.max_send_per_day (limit_or provider.max_send_per_day none)

abbrev found_log : ℕ → ℕ → Option DailyDomainSendLog → Exec DailyDomainSendLog
found_log domain date (some log) = pure log
found_log domain date none = do
  let log : DailyDomainSendLog = record {
    domain = domain;
    date = date;
    sent_count = 0;
    failed_count = 0;
  }
  modify (λ s. record s { send_logs = log ∷ s.send_logs })
  pure log

unfoldable pub get_or_create_log : ℕ → ℕ → Exec DailyDomainSendLog
get_or_create_log domain date s = found_log domain date (first? (is_log domain date) s.send_logs) s

abbrev update_log : ℕ → ℕ → (DailyDomainSendLog → DailyDomainSendLog) → Exec (Unit {0})
update_log domain date f =
    modify (λ s. record s { send_logs = update_where (is_log domain date) f s.send_logs })

abbrev is_reached : Option ℕ → ℕ → Bool
is_reached none count = false
is_reached (some limit) count = leb limit count

unfoldable pub reserve_send_slot : ℕ → ℕ → Option ℕ → Exec Bool
unfolding get_or_create_log
reserve_send_slot now domain limit = atomic do
  log ← get_or_create_log domain (date_of now)
  if is_reached limit log.sent_count then pure false else do
    update_log domain (date_of now) (λ l. record l { sent_count = l.sent_count + 1 })
    pure true

-- `Greatest(sent_count - 1, 0)` is the truncated subtraction.
unfoldable pub release_send_slot : ℕ → ℕ → Exec (Unit {0})
release_send_slot now domain =
    update_log domain (date_of now) (λ l. record l { sent_count = l.sent_count - 1 })

unfoldable pub record_send_failure : ℕ → ℕ → Exec (Unit {0})
unfolding get_or_create_log
record_send_failure now domain = atomic do
  log ← get_or_create_log domain (date_of now)
  update_log domain (date_of now) (λ l. record l { failed_count = l.failed_count + 1 })
