-- ===== src/Webhooks/Claims.antt =====
-- Who processes a webhook: the conditional UPDATE lets one delivery of the task through.
use hedwig.Prelude.{
  Bool, Bool-cases, Distinct, List, [], any, any-update, any-weaken, ap, arith, false, inl, inr,
  ltb, nat_beq_iff, refl, sym, true, update_where, ℕ, ◌&&◌, ◌+◌, ◌∙◌, ◌∷◌, ◌≡◌, ◌≤◌,
}
use hedwig.Exec.{ok}
use hedwig.Tables.{Db, ProviderWebhookLog}
use hedwig.Webhooks.{WebhookSettings, claim, claimed, is_claimable, is_log}

abbrev log_id : ProviderWebhookLog → ℕ
log_id w = w.id

abbrev is_target : ℕ → WebhookSettings → ℕ → ProviderWebhookLog → Bool
is_target now config i w = is_log i w && is_claimable now config w

module _ (now now' : ℕ) (config : WebhookSettings) (i : ℕ)
    (soon : now' ≤ now + config.stale_seconds) where
  not_late : ltb (now + config.stale_seconds) now' ≡ false
  not_late = ground arith

  claimed_not_target : (w : ProviderWebhookLog) → is_target now' config i (claimed now w) ≡ false
  claimed_not_target w = elim (Bool-cases (is_log i w)) [
    | inl e ↦ rw e not_late
    | inr e ↦ rw e refl
  ]

  none_of :
      (p : ProviderWebhookLog → Bool) (ws : List ProviderWebhookLog)
      → any (is_log i) ws ≡ false
      → any (is_target now' config i) (update_where p (claimed now) ws) ≡ false
  none_of p ws h =
      any-weaken (is_target now' config i) (is_log i) (λ w k. ground arith)
        (update_where p (claimed now) ws) (any-update (is_log i) p (claimed now) (λ w. refl) ws ∙ h)

  no_other :
      (w : ProviderWebhookLog) (ws : List ProviderWebhookLog)
      → Distinct log_id (w ∷ ws)
      → is_log i w ≡ true
      → any (is_log i) ws ≡ false
  no_other w ws d e = ap (λ k. any (is_log k) ws) (sym ((nat_beq_iff w.id i).0 e)) ∙ d.0

  none_claimable :
      (ws : List ProviderWebhookLog)
      → Distinct log_id ws
      → any (is_target now config i) ws ≡ true
      → any (is_target now' config i) (update_where (is_target now config i) (claimed now) ws)
        ≡ false
  none_claimable [] d h = ground arith
  none_claimable (w ∷ ws) d h = elim (Bool-cases (is_log i w)) [
    | inr k ↦ rw (k, k) (none_claimable ws d.1 (ground (arith, k)))
    | inl k ↦ elim (Bool-cases (is_claimable now config w)) [
      | inl e ↦ rw (k, e, k, not_late) (none_of (is_target now config i) ws (no_other w ws d k))
      | inr e ↦ ground (
        arith,
        k,
        e,
        any-weaken (is_target now config i) (is_log i) (λ w h. ground arith) ws (no_other w ws d k),
      )
    ]
  ]

-- Whoever's UPDATE matches a webhook log holds it alone: until the stale time has passed since
-- then, every other delivery's UPDATE matches nothing and changes nothing. Log identifiers are
-- distinct.
pub claim_excludes :
    (now now' : ℕ) (config : WebhookSettings) (i : ℕ) (s : Db)
    → Distinct log_id s.webhook_logs
    → now' ≤ now + config.stale_seconds
    → (claim now config i s).0 ≡ ok true
    → claim now' config i (claim now config i s).1 ≡ (ok false, (claim now config i s).1)
unfolding claim
claim_excludes now now' config i s d soon won =
    elim (Bool-cases (any (is_target now config i) s.webhook_logs)) [
      | inl e ↦ rw e (rw (none_claimable now now' config i soon s.webhook_logs d e) refl)
      | inr e ↦ ground (arith, e)
    ]
