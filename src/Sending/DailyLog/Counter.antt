-- ===== src/Sending/DailyLog/Counter.antt =====
-- What the daily log promises: one plain counter for each domain and day.
use hedwig.Prelude.{
  Bool, List, Option, [], ap, arith, false, if◌then◌else◌, nat_eq, refl, true, map, Option-cases,
  first?, inl, inr, ◌∙◌, ℕ, ◌&&◌, ◌+◌, ◌-◌, ◌∷◌, ◌≡◌,
}
use hedwig.Exec.{Exec, Result, ok, pure, ◌>>◌}
use hedwig.Sending.DailyLog.{
  date_of, is_log, record_send_failure, release_send_slot, reserve_send_slot,
}
use hedwig.Sending.DailyLog.Bounds.{
  answer-reserve, reached, same_log, sent_count, sent_count-failure, sent_count-release,
  sent_count-reserve,
}
use hedwig.Tables.{Db}

-- What workers ask of the log, each at its time and for its domain.
pub data SlotCall : Type 0 where
  reserve : (now domain : ℕ) → Option ℕ → SlotCall
  release failure : (now domain : ℕ) → SlotCall

-- Sends by domain and date.
abbrev pub Counters : Type 0
Counters = ℕ → ℕ → ℕ

abbrev is_granted : Option ℕ → ℕ → Bool
is_granted limit count = if reached limit count then false else true

-- The counter's answer: whether it grants.
unfoldable pub answer : SlotCall → Counters → Bool
answer (SlotCall.reserve now d limit) c = is_granted limit (c d (date_of now))
answer (SlotCall.release now d) c = true
answer (SlotCall.failure now d) c = true

unfoldable pub count : SlotCall → Counters → Counters
count (SlotCall.reserve now d limit) c d' t' =
    if same_log d (date_of now) d' t' && is_granted limit (c d (date_of now))
    then c d' t' + 1
    else c d' t'
count (SlotCall.release now d) c d' t' =
    if same_log d (date_of now) d' t' then c d' t' - 1 else c d' t'
count (SlotCall.failure now d) c d' t' = c d' t'

unfoldable pub answers : List SlotCall → Counters → List Bool
answers [] c = []
answers (x ∷ xs) c = answer x c ∷ answers xs (count x c)

unfoldable pub counts : List SlotCall → Counters → Counters
counts [] c = c
counts (x ∷ xs) c = counts xs (count x c)

-- The same calls on the database.
unfoldable pub call : SlotCall → Exec Bool
call (SlotCall.reserve now d limit) = reserve_send_slot now d limit
call (SlotCall.release now d) = release_send_slot now d >> pure true
call (SlotCall.failure now d) = record_send_failure now d >> pure true

unfoldable pub calls : List SlotCall → Db → List (Result Bool) × Db
calls [] s = ([], s)
calls (x ∷ xs) s = let rest = calls xs (call x s).1 in ((call x s).0 ∷ rest.0, rest.1)

-- The log shows these counters.
abbrev pub Shows : Db → Counters → Type 0
Shows s c = (d t : ℕ) → sent_count d t s ≡ c d t

-- Counting a failure never raises.
call-failure :
    (now d : ℕ) (s : Db)
    → call (SlotCall.failure now d) s ≡ (ok true, (record_send_failure now d s).1)
unfolding call record_send_failure
call-failure now d s = elim (Option-cases (first? (is_log d (date_of now)) s.send_logs)) [
  | inl e ↦ rw e refl
  | inr (l, e) ↦ rw e refl
]

call-Shows : (x : SlotCall) (s : Db) (c : Counters) → Shows s c → Shows (call x s).1 (count x c)
unfolding call count release_send_slot
call-Shows (SlotCall.reserve now d limit) s c h d' t' =
    ground (arith, sent_count-reserve now d d' t' limit s, h d (date_of now), h d' t')
call-Shows (SlotCall.release now d) s c h d' t' =
    ground (arith, sent_count-release now d d' t' s, h d' t')
call-Shows (SlotCall.failure now d) s c h d' t' =
    ap (λ r. sent_count d' t' r.1) (call-failure now d s)
    ∙ sent_count-failure now d d' t' s
    ∙ h d' t'

call-answer : (x : SlotCall) (s : Db) (c : Counters) → Shows s c → (call x s).0 ≡ ok (answer x c)
unfolding call answer release_send_slot
call-answer (SlotCall.reserve now d limit) s c h =
    answer-reserve now d limit s ∙ ap (λ n. ok (is_granted limit n)) (h d (date_of now))
call-answer (SlotCall.release now d) s c h = refl
call-answer (SlotCall.failure now d) s c h = ap (λ r. r.0) (call-failure now d s)

-- In whatever order workers reserve slots, give them back and count failures, at any times and for
-- any domains, the daily log behaves as one plain counter for each domain and day: from rows
-- that show some counters every call returns, with the answer of the counters, and in the end the
-- rows show the counters.
pub calls-counts :
    (xs : List SlotCall) (s : Db) (c : Counters)
    → Shows s c
    → ((calls xs s).0 ≡ map ok (answers xs c)) × Shows (calls xs s).1 (counts xs c)
unfolding calls answers counts
calls-counts [] s c h = (refl, h)
calls-counts (x ∷ xs) s c h =
    let (same, shown) = calls-counts xs (call x s).1 (count x c) (call-Shows x s c h) in
    (rw (call-answer x s c h, same) refl, shown)
