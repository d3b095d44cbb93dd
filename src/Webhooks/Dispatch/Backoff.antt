-- ===== src/Webhooks/Dispatch/Backoff.antt =====
-- The next attempt that `pollWebhooksOnce` (packages/backend/src/webhooks.ts) sets after a failure.
use native.Mathlib.Nat.{mul-le-mul_left, pow-suc}
use native.Mathlib.Numerals.{add-one}
use taop_protocol.Prelude.{
  ℕ, zero, suc, ◌+◌, ◌*◌, ◌^◌, ◌≤◌, ◌≡◌, ◌⊎◌, inl, inr, refl, List, [], ◌∷◌, Text, arith, ltb, min,
  Bool-cases,
}
use taop_protocol.Index.{Index, Alert, streak_key, next_attempt_key}
use taop_protocol.Webhooks.{Platform, WebhookConfig}
use taop_protocol.Webhooks.Config.{meta_number}
use taop_protocol.Webhooks.Dispatch.{
  DeliveryBody, Request, Response, Clock, Polled, deliver_alert, deliver_batch, poll_webhooks_once,
  note_failed, max_backoff_ms,
}
use taop_protocol.Webhooks.Dispatch.Meta.{next_attempt-note_failed}
use taop_protocol.Webhooks.Dispatch.Order.{Delivery-cases}

pow_pos : (n : ℕ) → 1 ≤ 2 ^ n
pow_pos zero = omega arith
pow_pos (suc n) = omega (arith, pow-suc 2 n, pow_pos n)

-- A first doubling of the interval, at least.
backoff-le : (poll streak cap : ℕ) → min (poll * 2) cap ≤ min (poll * 2 ^ (streak + 1)) cap
backoff-le poll streak cap = omega (arith, mul-le-mul_left poll (two-le streak))
  where
    two-le : (n : ℕ) → 2 ≤ 2 ^ (n + 1)
    two-le n = rw (add-one n) (omega (arith, pow-suc 2 n, pow_pos n))

module _ (platform : Platform DeliveryBody) (fetch : Request → Response) (status_message : ℕ → Text)
    (config : WebhookConfig) (clock : Clock) where
  -- A batch without failures, or one that ends by noting its failure.
  deliver_batch_ends :
      (alerts : List Alert) (p : Polled)
      → let q = deliver_batch platform fetch status_message config clock alerts p in
        (q.failed ≡ p.failed)
        ⊎ ((m : Text) × (ix : Index) × (q.index ≡ note_failed config clock m ix))
  unfolding deliver_batch
  deliver_batch_ends [] p = inl refl
  deliver_batch_ends (a ∷ rest) p =
      elim (Delivery-cases (deliver_alert platform fetch status_message config clock a)) [
        | inl e ↦ rw (e, deliver_batch) (deliver_batch_ends rest _)
        | inr (m, e) ↦ rw (e, deliver_batch) (inr (m, p.index, refl))
      ]

  poll_ends :
      (ix : Index)
      → let q = poll_webhooks_once platform fetch status_message config clock ix in
        (q.failed ≡ 0) ⊎ ((m : Text) × (ix' : Index) × (q.index ≡ note_failed config clock m ix'))
  unfolding poll_webhooks_once
  poll_ends ix = elim (Bool-cases (ltb clock.now (meta_number next_attempt_key ix))) [
    | inl e ↦ rw e (inl refl)
    | inr e ↦ rw e (deliver_batch_ends _ _)
  ]

  -- When a poll ends in a failure, the next attempt is set at least twice the poll interval and at most
  -- five minutes away (at five minutes where twice the interval is more).
  pub poll_webhooks_once_backoff :
      (ix : Index)
      → let q = poll_webhooks_once platform fetch status_message config clock ix in
        q.failed ≡ 1
        → (clock.date_now + min (config.poll_ms * 2) max_backoff_ms
            ≤ meta_number next_attempt_key q.index)
          × (meta_number next_attempt_key q.index ≤ clock.date_now + max_backoff_ms)
  poll_webhooks_once_backoff ix h = elim (poll_ends ix) [
    | inl e ↦ absurd (omega (arith, e, h))
    | inr (m, ix', e) ↦
        let next = next_attempt-note_failed config clock m ix' in
        let more = backoff-le config.poll_ms (meta_number streak_key ix') max_backoff_ms in
        rw e (omega (arith, next, more), omega (arith, next))
  ]
