-- ===== src/Sending/Dispatch/Slots.antt =====
-- The daily slot of a dispatch: taken before the provider is called, and given back on the errors
-- that are caught.
use hedwig.Prelude.{
  Bool, List, String, [], ap, arith, false, first?, if◌then◌else◌, not, refl, true, ℕ, ◌&&◌, ◌+◌,
  ◌-◌, ◌∷◌, ◌≡◌,
}
use hedwig.Exec.{Exc, Result, caught_by, err, modify, ok, try_except}
use hedwig.Exec.Unchanged.{
  Unchanged, Unchanged-bind, Unchanged-modify, Unchanged-pure, unchanged_rules,
}
use hedwig.Sending.Attempts.{mark_send_failed, update_attempt, update_message}
use hedwig.Sending.DailyLog.{
  date_of, get_daily_send_limit, is_log, record_send_failure, release_send_slot, reserve_send_slot,
}
use hedwig.Sending.DailyLog.Bounds.{
  answer-reserve, count_of, reached, sent_count, sent_count-failure, sent_count-release,
  sent_count-reserve,
}
use hedwig.Sending.Dispatch.{
  deliver, give_back, materialize_attachments, materialize_from, materialize_one, provider_send,
  save_size, send_from, send_message, settle_reply,
}
use hedwig.Sending.Suppression.{recheck_suppressed_recipients}
use hedwig.Services.{Response, Services}
use hedwig.Tables.{
  DailyDomainSendLog, Db, Domain, EmailAttachment, EmailMessage, EmailProvider, Mailbox,
  OutboundSendAttempt,
}

abbrev logs : Db → List DailyDomainSendLog
logs s = s.send_logs

modify-logs : (f : Db → Db) → ((s : Db) → logs (f s) ≡ logs s) → Unchanged logs (modify f)
modify-logs = Unchanged-modify

update_attempt-logs :
    (i : ℕ) (f : OutboundSendAttempt → OutboundSendAttempt) → Unchanged logs (update_attempt i f)
update_attempt-logs i f = record { same = λ s. refl }

update_message-logs :
    (i : ℕ) (f : EmailMessage → EmailMessage) → Unchanged logs (update_message i f)
update_message-logs i f = record { same = λ s. refl }

ruleset logs_rules = (unchanged_rules, update_attempt-logs, update_message-logs)

materialize_one-logs :
    (services : Services) (i : ℕ) (a : EmailAttachment)
    → Unchanged logs (materialize_one services i a)
unfolding materialize_one
materialize_one-logs services i a = record { same = λ s. ground arith }

materialize_from-logs :
    (services : Services) (i : ℕ) (rows : List EmailAttachment)
    → Unchanged logs (materialize_from services i rows)
unfolding materialize_from
materialize_from-logs services i [] = search logs_rules
materialize_from-logs services i (a ∷ more) =
    Unchanged-bind _ _ (materialize_one-logs services i a) (λ size.
      Unchanged-bind _ _ (materialize_from-logs services i more) (λ rest. Unchanged-pure _))

save_size-logs : (i : ℕ) (rows : List EmailAttachment) (n : ℕ) → Unchanged logs (save_size i rows n)
save_size-logs i [] n = search logs_rules
save_size-logs i (a ∷ more) n = search logs_rules

materialize_logs :
    (services : Services) (m : EmailMessage) → Unchanged logs (materialize_attachments services m)
unfolding materialize_attachments
materialize_logs services m = search (logs_rules, materialize_from-logs, save_size-logs)

mark_send_failed-logs :
    (now : ℕ) (m : EmailMessage) (a : OutboundSendAttempt) (c e : String)
    → Unchanged logs (mark_send_failed now m a c e)
unfolding mark_send_failed
mark_send_failed-logs now m a c e = search logs_rules

settle_reply-logs :
    (now : ℕ) (m : EmailMessage) (a : OutboundSendAttempt) (reply : Response)
    → Unchanged logs (settle_reply now m a reply)
unfolding settle_reply
settle_reply-logs now m a (Response.request_failed e) = search (logs_rules, mark_send_failed-logs)
settle_reply-logs now m a (Response.not_json e) = search (logs_rules, mark_send_failed-logs)
settle_reply-logs now m a (Response.answered status code t i) = search logs_rules

provider_send-logs :
    (now : ℕ) (services : Services) (p : EmailProvider) (m : EmailMessage) (a : OutboundSendAttempt)
    → Unchanged logs (provider_send now services p m a)
unfolding provider_send send_message
provider_send-logs now services p m a = search (logs_rules, settle_reply-logs)

deliver-logs :
    (now : ℕ) (services : Services) (d : Domain) (m : EmailMessage) (a : OutboundSendAttempt)
    → Unchanged logs (deliver now services d m a)
unfolding deliver
deliver-logs now services d m a = search (logs_rules, materialize_logs, provider_send-logs)

-- An exception that one of the two `except` clauses catches.
abbrev pub caught : Exc → Bool
caught (Exc.transient_send_error e) = true
caught (Exc.permanent_send_error e) = true
caught _ = false

abbrev pub keeps_slot : {A : Type 0} → Result A → Bool
keeps_slot (ok a) = true
keeps_slot (err e) = not (caught e)

-- What the handlers do to the day's counter after a delivery has ended.
give_back_count :
    (now d : ℕ) (r : Result (Unit {0}) × Db)
    → sent_count d (date_of now) (caught_by (give_back now d) r).1 ≡ (
        if keeps_slot (caught_by (give_back now d) r).0
        then sent_count d (date_of now) r.1
        else sent_count d (date_of now) r.1 - 1)
unfolding release_send_slot record_send_failure
give_back_count now d (ok a, t) = refl
give_back_count now d (err (Exc.transient_send_error e), t) =
    ground (arith, sent_count-release now d d (date_of now) t)
give_back_count now d (err (Exc.permanent_send_error e), t) = ground (
  arith,
  sent_count-release now d d (date_of now) t,
  sent_count-failure now d d (date_of now) (release_send_slot now d t).1,
)
give_back_count now d (err Exc.integrity_error, t) = refl
give_back_count now d (err Exc.does_not_exist, t) = refl
give_back_count now d (err _, t) = refl

module _ (now : ℕ) (services : Services) (mailbox : Mailbox) (domain : Domain)
    (provider : EmailProvider) (m : EmailMessage) (a : OutboundSendAttempt) (s : Db)
    (on : mailbox.send_enabled && domain.outbound_enabled ≡ true)
    (clear : recheck_suppressed_recipients now mailbox m s ≡ [])
    (room : reached (get_daily_send_limit domain provider) (sent_count domain.id (date_of now) s)
      ≡ false) where
  abbrev pub reserved : Db
  reserved = (reserve_send_slot now domain.id (get_daily_send_limit domain provider) s).1

  -- With sending on, nobody suppressed and room under the limit, the send is the delivery with its
  -- handlers, from the state in which the slot is taken.
  pub send_from-deliver :
      send_from now services mailbox domain provider m a s
      ≡ try_except (deliver now services domain m a) (give_back now domain.id) reserved
  unfolding send_from
  send_from-deliver =
      ground (arith, answer-reserve now domain.id (get_daily_send_limit domain provider) s)

  -- With sending on, nobody suppressed and room under the limit, the day's counter goes up by one
  -- for a send that returns, and by none for one that ends in a transient or a permanent send
  -- error. For every other exception the slot stays taken.
  pub send_from-sent_count :
      let r = send_from now services mailbox domain provider m a s in
      sent_count domain.id (date_of now) r.1 ≡ (
        if keeps_slot r.0
        then sent_count domain.id (date_of now) s + 1
        else sent_count domain.id (date_of now) s)
  send_from-sent_count = rw send_from-deliver (
      rw
        (
          give_back_count now domain.id (deliver now services domain m a reserved),
          ap (λ rows. count_of (first? (is_log domain.id (date_of now)) rows))
              ((deliver-logs now services domain m a).same reserved),
        )
        (ground (
          arith,
          sent_count-reserve now domain.id domain.id (date_of now)
              (get_daily_send_limit domain provider) s,
        )))
