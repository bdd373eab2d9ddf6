-- ===== src/Sending/DailyLog/Bounds.antt =====
-- The daily counter: what one reservation does, and the limit under any order of operations.
use hedwig.Prelude.{
  Bool, List, Option, [], arith, false, first?, if◌then◌else◌, leb, min, nat_eq, none, option_eq,
  refl, some, string_eq, suc, true, update_where, zero, ℕ, ◌&&◌, ◌+◌, ◌-◌, ◌==◌, ◌∷◌, ◌≡◌, ◌≤◌,
}
use hedwig.Exec.{ok}
use hedwig.Sending.DailyLog.{
  date_of, is_log, record_send_failure, release_send_slot, reserve_send_slot,
}
use hedwig.Tables.{DailyDomainSendLog, Db}

abbrev pub count_of : Option DailyDomainSendLog → ℕ
count_of none = 0
count_of (some log) = log.sent_count

-- What the table says was sent for a domain on a day.
abbrev pub sent_count : ℕ → ℕ → Db → ℕ
sent_count domain date s = count_of (first? (is_log domain date) s.send_logs)

abbrev pub reached : Option ℕ → ℕ → Bool
reached none count = false
reached (some limit) count = leb limit count

abbrev pub same_log : ℕ → ℕ → ℕ → ℕ → Bool
same_log d t d' t' = d' == d && t' == t

-- An update of one day's counter, as the counters show it.
count-update :
    (g : ℕ → ℕ) (d t d' t' : ℕ) (rows : List DailyDomainSendLog)
    → count_of (
        first?
          (is_log d' t')
          (update_where (is_log d t) (λ l. record l { sent_count = g l.sent_count }) rows))
      ≡ elim (first? (is_log d' t') rows) [
        | none ↦ 0
        | some l ↦ if same_log d t d' t' then g l.sent_count else l.sent_count
      ]
count-update g d t d' t' [] = refl
count-update g d t d' t' (l ∷ rows) = ground (arith, count-update g d t d' t' rows)

-- `reserve_send_slot` answers whether the limit is not reached.
pub answer-reserve :
    (now d : ℕ) (limit : Option ℕ) (s : Db)
    → (reserve_send_slot now d limit s).0
      ≡ ok (if reached limit (sent_count d (date_of now) s) then false else true)
unfolding reserve_send_slot
answer-reserve now d none s = ground arith
answer-reserve now d (some limit) s = ground arith

-- It adds one to the day's counter exactly when it grants, and no other counter moves.
pub sent_count-reserve :
    (now d d' t' : ℕ) (limit : Option ℕ) (s : Db)
    → sent_count d' t' (reserve_send_slot now d limit s).1 ≡ (
        if same_log d (date_of now) d' t'
          && (if reached limit (sent_count d (date_of now) s) then false else true)
        then sent_count d' t' s + 1
        else sent_count d' t' s)
unfolding reserve_send_slot
sent_count-reserve now d d' t' none s =
    ground (arith, count-update (λ c. c + 1) d (date_of now) d' t' s.send_logs)
sent_count-reserve now d d' t' (some limit) s =
    ground (arith, count-update (λ c. c + 1) d (date_of now) d' t' s.send_logs)

-- Giving a slot back takes one off that day's counter, down to 0, and off no other.
pub sent_count-release :
    (now d d' t' : ℕ) (s : Db)
    → sent_count d' t' (release_send_slot now d s).1
      ≡ (if same_log d (date_of now) d' t' then sent_count d' t' s - 1 else sent_count d' t' s)
unfolding release_send_slot
sent_count-release now d d' t' s =
    ground (arith, count-update (λ c. c - 1) d (date_of now) d' t' s.send_logs)

count-failure :
    (d t d' t' : ℕ) (rows : List DailyDomainSendLog)
    → count_of (
        first?
          (is_log d' t')
          (update_where (is_log d t) (λ l. record l { failed_count = l.failed_count + 1 }) rows))
      ≡ count_of (first? (is_log d' t') rows)
count-failure d t d' t' [] = refl
count-failure d t d' t' (l ∷ rows) = ground (arith, count-failure d t d' t' rows)

-- Counting a failure moves no counter of sent messages.
pub sent_count-failure :
    (now d d' t' : ℕ) (s : Db)
    → sent_count d' t' (record_send_failure now d s).1 ≡ sent_count d' t' s
unfolding record_send_failure
sent_count-failure now d d' t' s = ground (arith, count-failure d (date_of now) d' t' s.send_logs)

-- What the workers do to one domain's counter on one day, in the order of the row lock.
pub data SlotStep : Type 0 where
  reserve release : SlotStep

-- The day's operations at time `now`, with the number of slots granted.
unfoldable pub run_slots : ℕ → ℕ → Option ℕ → List SlotStep → Db → ℕ × Db
run_slots now d limit [] s = (0, s)
run_slots now d limit (SlotStep.reserve ∷ rest) s =
    let r = reserve_send_slot now d limit s in
    let (n, s') = run_slots now d limit rest r.1 in (elim r.0 [ ok true ↦ n + 1 | _ ↦ n ], s')
run_slots now d limit (SlotStep.release ∷ rest) s =
    run_slots now d limit rest (release_send_slot now d s).1

same_log_self : (d t : ℕ) → same_log d t d t ≡ true
same_log_self d t = ground arith

-- From a counter within the limit, no order of reservations and releases passes the limit.
pub run_slots-le-limit :
    (now d limit : ℕ) (steps : List SlotStep) (s : Db)
    → sent_count d (date_of now) s ≤ limit
    → sent_count d (date_of now) (run_slots now d (some limit) steps s).1 ≤ limit
unfolding run_slots
run_slots-le-limit now d limit [] s h = h
run_slots-le-limit now d limit (SlotStep.reserve ∷ rest) s h =
    run_slots-le-limit now d limit rest (reserve_send_slot now d (some limit) s).1
      (ground (arith, sent_count-reserve now d d (date_of now) (some limit) s))
run_slots-le-limit now d limit (SlotStep.release ∷ rest) s h =
    run_slots-le-limit now d limit rest (release_send_slot now d s).1
      (ground (arith, sent_count-release now d d (date_of now) s))

abbrev pub reserves : ℕ → List SlotStep
reserves zero = []
reserves (suc n) = SlotStep.reserve ∷ reserves n

-- Of `n` reservations on a day, exactly as many are granted as the limit leaves room for.
pub granted-reserves :
    (now d limit n : ℕ) (s : Db)
    → (run_slots now d (some limit) (reserves n) s).0 ≡ min n (limit - sent_count d (date_of now) s)
unfolding run_slots
granted-reserves now d limit zero s = omega arith
granted-reserves now d limit (suc n) s = ground (
  arith,
  answer-reserve now d (some limit) s,
  sent_count-reserve now d d (date_of now) (some limit) s,
  granted-reserves now d limit n (reserve_send_slot now d (some limit) s).1,
)
