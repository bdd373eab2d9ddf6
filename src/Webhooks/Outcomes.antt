-- ===== src/Webhooks/Outcomes.antt =====
-- How the processing of a webhook ends.
use hedwig.Ingest.Resolve.{resolve_mailbox}
use hedwig.Prelude.{
  Bool, Option, String, ap, nat_eq, none, option_eq, refl, some, string_eq, sym, true, ℕ, ◌==◌,
  ◌||◌, ◌∙◌, ◌≡◌, first?-update_self, first?,
}
use hedwig.Delivery.{create_delivery_event}
use hedwig.Enums.{ProviderWebhookStatus, provider_webhook_status_eq}
use hedwig.Exec.{
  Exc, Exec, Result, caught_by, err, get_or_raise, gets, ok, pure, raise, then_with, try_except,
  ◌>>=◌, ◌>>◌,
}
use hedwig.Ingest.Inbound.{create_inbound_message}
use hedwig.Normalized.{NormalizedInboundMessage, ParsedWebhookEvent, ProviderImpl}
use hedwig.Sending.Dispatch.{find_domain}
use hedwig.Services.{Services}
use hedwig.Tables.{Db, DeliveryEvent, Mailbox, ProviderWebhookLog}
use hedwig.Webhooks.Logs.Ingested.{handle_parsed-logs}
use hedwig.Webhooks.{
  Outcome, drop_over_quota, event_outcome, handle_parsed, ingest_for, ingest_in, of_result,
  or_resolved, find_log, process_webhook_log, process_with, processed, settled, unprovided,
  update_log,
}

-- Done with: the stale sweep and the claim both leave such a row alone.
abbrev pub is_final : ProviderWebhookStatus → Bool
is_final status =
    status == ProviderWebhookStatus.processed || status == ProviderWebhookStatus.ignored

-- If the action answers, the answer passes the test.
record Answers {A : Type 0} (p : A → Bool) (m : Exec A) : Type 0 where
  passes : (s : Db) (a : A) → (m s).0 ≡ ok a → p a ≡ true

ok_passes : {A : Type 0} (p : A → Bool) (a b : A) → p a ≡ true → Result.ok a ≡ ok b → p b ≡ true
ok_passes p a b h e = ap (λ x. elim x [ ok y ↦ p y | err z ↦ true ]) (sym e) ∙ h

Answers-pure : {A : Type 0} (p : A → Bool) (a : A) → p a ≡ true → Answers p (pure a)
Answers-pure p a h = record { passes = λ s b e. ok_passes p a b h e }

Answers-raise : {A : Type 0} (p : A → Bool) (e : Exc) → Answers p (raise e)
Answers-raise p e = record { passes = λ s b h. cc }

rest_passes :
    {A B : Type 0} (p : B → Bool) (k : A → Exec B) (r : Result A × Db) (b : B)
    → ((a : A) → Answers p (k a))
    → (then_with k r).0 ≡ ok b
    → p b ≡ true
rest_passes p k (ok a, t) b hk h = (hk a).passes t b h
rest_passes p k (err e, t) b hk h = cc

Answers-rest :
    {A B : Type 0} (p : B → Bool) (m : Exec A) (k : A → Exec B)
    → ((a : A) → Answers p (k a))
    → Answers p (m >>= k)
Answers-rest p m k hk = record { passes = λ s b h. rest_passes p k (m s) b hk h }

caught_passes :
    {A : Type 0} (p : A → Bool) (h : Exc → Exec A) (r : Result A × Db) (a : A)
    → ((b : A) → r.0 ≡ ok b → p b ≡ true)
    → ((e : Exc) → Answers p (h e))
    → (caught_by h r).0 ≡ ok a
    → p a ≡ true
caught_passes p h (ok b, t) a hm hh e = ok_passes p b a (hm b refl) e
caught_passes p h (err x, t) a hm hh e = (hh x).passes t a e

Answers-try :
    {A : Type 0} (p : A → Bool) (m : Exec A) (h : Exc → Exec A)
    → Answers p m
    → ((e : Exc) → Answers p (h e))
    → Answers p (try_except m h)
Answers-try p m h hm hh = record {
  passes = λ s a e. caught_passes p h (m s) a (λ b k. hm.passes s b k) hh e;
}

abbrev outcome_final : Outcome → Bool
outcome_final o = is_final o.status

dropped_final : (d : ℕ) (e : Exc) → Answers outcome_final (drop_over_quota d e)
dropped_final d (Exc.quota_exceeded message) = Answers-pure _ _ refl
dropped_final d Exc.integrity_error = Answers-raise _ _
dropped_final d Exc.does_not_exist = Answers-raise _ _
dropped_final d (Exc.transient_send_error m) = Answers-raise _ _
dropped_final d (Exc.permanent_send_error m) = Answers-raise _ _
dropped_final d (Exc.validation_error m) = Answers-raise _ _
dropped_final d (Exc.value_error m) = Answers-raise _ _
dropped_final d (Exc.permission_denied m) = Answers-raise _ _
dropped_final d (Exc.not_found m) = Answers-raise _ _
dropped_final d (Exc.request_error m) = Answers-raise _ _

module _ (now : ℕ) (services : Services) where
  ingest_for_final :
      (provider d : ℕ) (n : NormalizedInboundMessage) (o : Option (Mailbox × String))
      → Answers outcome_final (ingest_for now services provider d n o)
  ingest_for_final provider d n none = Answers-pure _ _ refl
  ingest_for_final provider d n (some found) =
      Answers-try _ _ _
        (Answers-rest _ (create_inbound_message now services provider found.0 found.1 n) _
          (λ a. Answers-pure _ (processed (some d)) refl))
        (dropped_final d)

  ingest_in_final :
      (provider : ℕ) (n : NormalizedInboundMessage) (o : Option ℕ)
      → Answers outcome_final (ingest_in now services provider n o)
  ingest_in_final provider n none = Answers-pure _ _ refl
  ingest_in_final provider n (some d) = Answers-rest _ (gets (find_domain d)) _ (λ row.
      Answers-rest _ (get_or_raise row) _ (λ domain.
        Answers-rest _ (gets (resolve_mailbox domain n)) _
          (λ found. ingest_for_final provider domain.id n found)))

  event_final :
      (domain : Option ℕ) (o : Option DeliveryEvent)
      → is_final (event_outcome domain o).status ≡ true
  event_final domain none = refl
  event_final domain (some e) = refl

  handle_final :
      (impl : ProviderImpl) (provider : ℕ) (w : ProviderWebhookLog) (parsed : ParsedWebhookEvent)
      → Answers outcome_final (handle_parsed now services impl provider w parsed)
  unfolding handle_parsed
  handle_final impl provider w (ParsedWebhookEvent.inbound n) =
      Answers-rest _ (gets (impl.resolve_domain w.payload)) _
        (λ resolved. ingest_in_final provider n (or_resolved w.domain resolved))
  handle_final impl provider w (ParsedWebhookEvent.delivery_event n) =
      Answers-rest _ (create_delivery_event now w.domain n w.id) _
        (λ event. Answers-pure _ _ (event_final w.domain event))
  handle_final impl provider w (ParsedWebhookEvent.unknown kind) = Answers-pure _ _ refl

abbrev row_final : ProviderWebhookLog → Bool
row_final w = is_final w.status

-- The answer is final, and the stored row of the key has its status.
abbrev Settles : ℕ → Result ProviderWebhookLog × Db → Type 0
Settles i r =
    (w : ProviderWebhookLog)
    → r.0 ≡ ok w
    → (row_final w ≡ true)
      × ((x : ProviderWebhookLog) × (find_log i r.1 ≡ some x) × (x.status ≡ w.status))

-- A row that is stored is saved with `f`, and the caller's row is answered with it.
saved_Settles :
    (i : ℕ) (f : ProviderWebhookLog → ProviderWebhookLog) (w x : ProviderWebhookLog) (s : Db)
    → ((y : ProviderWebhookLog) → (f y).id ≡ y.id)
    → row_final (f w) ≡ true
    → (f x).status ≡ (f w).status
    → find_log i s ≡ some x
    → Settles i ((update_log i f >> pure (f w)) s)
saved_Settles i f w x s key final same found w' e = (
  ok_passes row_final (f w) w' final e,
  (
    f x,
    first?-update_self (λ y. y.id == i) f (λ y. ap (λ n. n == i) (key y)) s.webhook_logs x found,
    same ∙ ap (λ r. elim r [ ok y ↦ y.status | err z ↦ w.status ]) e,
  ),
)

handled_Settles :
    (now : ℕ) (w x : ProviderWebhookLog) (r : Result Outcome × Db)
    → ((o : Outcome) → r.0 ≡ ok o → outcome_final o ≡ true)
    → find_log w.id r.1 ≡ some x
    → Settles w.id (then_with (λ o. update_log w.id (settled now o) >> pure (settled now o w)) r)
handled_Settles now w x (ok o, t) h found w' k =
    saved_Settles w.id (settled now o) w x t (λ y. refl) (h o refl) refl found w' k
handled_Settles now w x (err e, t) h found w' k = cc

module _ (now : ℕ) (services : Services) (impl : ProviderImpl) (w x : ProviderWebhookLog) where
  parsed_Settles :
      (provider : ℕ) (o : Result ParsedWebhookEvent) (s : Db)
      → find_log w.id s ≡ some x
      → Settles w.id (
          then_with
            (λ parsed. handle_parsed now services impl provider w parsed >>= λ o.
              update_log w.id (settled now o) >> pure (settled now o w))
            (of_result o s))
  parsed_Settles provider (err e) s found w' k = cc
  parsed_Settles provider (ok parsed) s found w' k =
      handled_Settles now w x (handle_parsed now services impl provider w parsed s)
        (λ o e. (handle_final now services impl provider w parsed).passes s o e)
        (ap (first? (λ y. y.id == w.id))
            ((handle_parsed-logs now services impl provider w parsed).same s)
          ∙ found)
        w' k

  process_Settles :
      (provider : Option ℕ) (s : Db)
      → find_log w.id s ≡ some x
      → Settles w.id (process_with now services impl w provider s)
  process_Settles none s found w' e =
      saved_Settles w.id (unprovided now) w x s (λ y. refl) refl refl found w' e
  process_Settles (some provider) s found w' e =
      parsed_Settles provider (impl.parse_webhook w.payload) s found w' e

-- When the processing of a stored webhook does not raise, it is stored afterwards with the status of
-- the row that is answered, and that is processed or ignored, whatever the provider, the payload and
-- the database are: never pending, processing or failed.
pub process_webhook_log-is_final :
    (now : ℕ) (services : Services) (impl : ProviderImpl) (w x w' : ProviderWebhookLog) (s : Db)
    → find_log w.id s ≡ some x
    → (process_webhook_log now services impl w s).0 ≡ ok w'
    → (is_final w'.status ≡ true)
      × ((y : ProviderWebhookLog) × (find_log w.id (process_webhook_log now services impl w s).1
            ≡ some y)
          × (y.status ≡ w'.status))
unfolding process_webhook_log
process_webhook_log-is_final now services impl w x w' s found h =
    process_Settles now services impl w x w.provider s found w' h
