-- ===== src/Webhooks/Dispatch/Order.antt =====
-- The order of delivery of `pollWebhooksOnce`, packages/backend/src/webhooks.ts.
use native.Mathlib.Decide.{dec_lt}
use taop_protocol.Prelude.{
  lt→ltb, ltb→lt, ℕ, zero, suc, ◌+◌, ◌≤◌, ◌<◌, ◌≡◌, ◌∙◌, refl, sym, subst, Bool, true, false, List,
  [], ◌∷◌, Text, some, arith, ltb, leb, nat_beq, take, length, min, max, select, count, All,
  get_elem?, All-get_elem?, select-All, bit, Bool-cases, ◌⊎◌, inl, inr,
}
use taop_protocol.Prelude.Int.{pos}
use taop_protocol.Sort.{
  sort_by, by_key, by_key-IsOrder, IsOrdered, IsOrdered-sort_by, count-sort_by, sort_by-All,
  All-sort_by,
}
use taop_protocol.Index.{Index, Alert, next_attempt_key}
use taop_protocol.Index.Alerts.{finite, safe_limit, list_alerts_after}
use taop_protocol.Index.Alerts.Numbered.{IsNumbered, IsNumbered-select}
use taop_protocol.Webhooks.{Platform, WebhookConfig}
use taop_protocol.Webhooks.Config.{meta_number, last_delivered_id}
use taop_protocol.Webhooks.Dispatch.{
  DeliveryBody, Request, Response, Delivery, accepted, failed, Clock, Polled, deliver_alert,
  deliver_batch, poll_webhooks_once, nothing_sent, note_delivered,
}
use taop_protocol.Webhooks.Dispatch.Oldest.{IsOldest, take-IsOldest}
use taop_protocol.Webhooks.Dispatch.Meta.{cursor-note_delivered, cursor-note_failed}

-- The alerts before the first one that fails.
pub accepted_prefix : (Alert → Delivery) → List Alert → List Alert
accepted_prefix deliver [] = []
accepted_prefix deliver (a ∷ rest) = elim (deliver a) [
  | accepted ↦ a ∷ accepted_prefix deliver rest
  | failed m ↦ []
]

-- The id of the last of them, or `start`.
pub last_id_of : ℕ → List Alert → ℕ
last_id_of start [] = start
last_id_of start (a ∷ rest) = last_id_of a.id rest

-- Later alerts have greater ids, where an id names one alert.
strictly :
    (n : ℕ) (xs : List Alert)
    → All (λ a. leb n a.id ≡ true) xs
    → bit (nat_beq n n) + count (λ a. nat_beq a.id n) xs ≤ 1
    → All (λ a. n < a.id) xs
strictly n [] h u = tt
strictly n (x ∷ xs) h u = (ground (arith, h.0), strictly n xs h.1 (ground arith))

below :
    (start : ℕ) (deliver : Alert → Delivery) (xs : List Alert)
    → All (λ a. start < a.id) xs
    → All (λ a. a.id ≤ start → deliver a ≡ accepted) xs
below start deliver [] h = tt
below start deliver (x ∷ xs) h = (λ k. absurd (omega (arith, h.0)), below start deliver xs h.1)

pub Delivery-cases : (d : Delivery) → (d ≡ accepted) ⊎ ((m : Text) × (d ≡ failed m))
Delivery-cases accepted = inl refl
Delivery-cases (failed m) = inr (m, refl)

-- What a batch reports and stores, by the alerts `sent` that the subscriber accepted.
pub record Delivered (sent alerts : List Alert) (p q : Polled) : Type 0 where
  pub counted : q.delivered ≡ p.delivered + length sent
  pub last : q.last_id ≡ last_id_of p.last_id sent
  pub stored : last_delivered_id q.index ≡ q.last_id
  pub stopped : q.failed ≡ p.failed + bit (ltb (length sent) (length alerts))

All-select_above :
    (bound : ℕ) (xs : List Alert) → All (λ a. bound < a.id) (select (λ a. ltb bound a.id) xs)
All-select_above bound [] = tt
All-select_above bound (x ∷ xs) = elim (Bool-cases (ltb bound x.id)) [
  | inl e ↦ rw e (ltb→lt bound x.id e, All-select_above bound xs)
  | inr e ↦ rw e (All-select_above bound xs)
]

module _ (platform : Platform DeliveryBody) (fetch : Request → Response) (status_message : ℕ → Text)
    (config : WebhookConfig) (clock : Clock) where
  abbrev deliver : Alert → Delivery
  deliver = deliver_alert platform fetch status_message config clock

  abbrev run_batch : List Alert → Polled → Polled
  run_batch = deliver_batch platform fetch status_message config clock

  abbrev after : Alert → Polled → Polled
  after a p = record {
    index = note_delivered config clock a p.index;
    delivered = p.delivered + 1;
    failed = p.failed;
    last_id = a.id;
  }

  deliver_batch-Delivered :
      (alerts : List Alert) (p : Polled)
      → last_delivered_id p.index ≡ p.last_id
      → Delivered (accepted_prefix deliver alerts) alerts p (run_batch alerts p)
  unfolding deliver_batch accepted_prefix last_id_of
  deliver_batch-Delivered [] p h = record {
    counted = omega arith;
    last = refl;
    stored = h;
    stopped = omega arith;
  }
  deliver_batch-Delivered (a ∷ rest) p h = elim (Delivery-cases (deliver a)) [
    | inl e ↦
        let r =
          deliver_batch-Delivered rest (after a p) (cursor-note_delivered config clock a p.index) in
        rw (e, deliver_batch, accepted_prefix)
          (record {
            counted = omega (arith, r.counted);
            last = r.last;
            stored = r.stored;
            stopped = ground (arith, r.stopped);
          })
    | inr (m, e) ↦
        rw (e, deliver_batch, accepted_prefix)
          (record {
            counted = omega arith;
            last = refl;
            stored = cursor-note_failed config clock m p.index ∙ h;
            stopped = ground arith;
          })
  ]

  -- Whatever is at most `new` was accepted.
  abbrev Covered : List Alert → ℕ → Type 0
  Covered xs new = All (λ a. a.id ≤ new → deliver a ≡ accepted) xs

  -- In ascending order the cursor covers only what was accepted.
  prefix_covers :
      (n start : ℕ) (xs : List Alert)
      → IsOrdered (by_key (λ a. a.id)) xs
      → ((m : ℕ) → count (λ a. nat_beq a.id m) xs ≤ 1)
      → All (λ a. start < a.id) xs
      → Covered xs (last_id_of start (accepted_prefix deliver (take n xs)))
  unfolding accepted_prefix last_id_of
  prefix_covers n start [] o u h = tt
  prefix_covers zero start (x ∷ xs) o u h =
      (λ k. absurd (omega (arith, h.0)), below start deliver xs h.1)
  prefix_covers (suc n) start (x ∷ xs) o u h = elim (Delivery-cases (deliver x)) [
    | inl e ↦
        let same : last_id_of start (accepted_prefix deliver (x ∷ take n xs))
            ≡ last_id_of x.id (accepted_prefix deliver (take n xs)) =
          rw (e, accepted_prefix) in
        subst (Covered (x ∷ xs)) (sym same) (
          λ _. e,
          prefix_covers n x.id xs o.1 (λ m. omega (arith, u m)) (strictly x.id xs o.0 (u x.id)),
        )
    | inr (m, e) ↦
        let same : last_id_of start (accepted_prefix deliver (x ∷ take n xs)) ≡ start =
          rw (e, accepted_prefix) in
        subst (Covered (x ∷ xs)) (sym same)
          (λ k. absurd (omega (arith, h.0)), below start deliver xs h.1)
  ]

  abbrev poll : Index → Polled
  poll = poll_webhooks_once platform fetch status_message config clock

  -- The alerts that a poll reads.
  abbrev pub pending : Index → List Alert
  pending ix = list_alerts_after (last_delivered_id ix) (finite (pos config.max_per_poll) false) ix

  batch-Delivered :
      (ix : Index)
      → meta_number next_attempt_key ix ≤ clock.now
      → Delivered
          (accepted_prefix deliver (pending ix))
          (pending ix)
          (nothing_sent platform fetch status_message config clock ix)
          (poll ix)
  unfolding poll_webhooks_once
  batch-Delivered ix due = elim (Bool-cases (ltb clock.now (meta_number next_attempt_key ix))) [
    | inl e ↦ absurd (ground arith)
    | inr e ↦ rw e (deliver_batch-Delivered (pending ix) _ refl)
  ]

  -- A poll that is due reads the oldest alerts above the cursor, as many as a poll may read or all
  -- there are, in ascending order, and delivers them in this order up to the first failure: it reports
  -- as many as the subscriber accepted, stores the id of the last of these as its cursor, and counts
  -- one failure exactly if some alert that it read was not accepted.
  pub poll_webhooks_once-Delivered :
      (ix : Index)
      → meta_number next_attempt_key ix ≤ clock.now
      → IsOldest (last_delivered_id ix) (min (max config.max_per_poll 1) 500) ix.alerts (pending ix)
        × Delivered
            (accepted_prefix deliver (pending ix))
            (pending ix)
            (nothing_sent platform fetch status_message config clock ix)
            (poll ix)
  unfolding list_alerts_after safe_limit
  poll_webhooks_once-Delivered ix due = (
    take-IsOldest (last_delivered_id ix) (min (max config.max_per_poll 1) 500) ix.alerts,
    batch-Delivered ix due,
  )

  abbrev ascending : Alert → Alert → Bool
  ascending = by_key (λ a. a.id)

  cursor-poll :
      (ix : Index)
      → meta_number next_attempt_key ix ≤ clock.now
      → last_delivered_id (poll ix).index
        ≡ last_id_of (last_delivered_id ix) (accepted_prefix deliver (pending ix))
  cursor-poll ix due = let d = batch-Delivered ix due in d.stored ∙ d.last

  -- The alerts above the cursor, oldest first, before the limit.
  abbrev unread : Index → List Alert
  unread ix = sort_by ascending (select (λ a. ltb (last_delivered_id ix) a.id) ix.alerts)

  pending_covered :
      (ix : Index)
      → IsNumbered ix.alerts_seq ix.alerts
      → All
          (λ a.
            ltb (last_delivered_id ix) a.id ≡ true
            → a.id ≤ last_id_of (last_delivered_id ix) (accepted_prefix deliver (pending ix))
            → deliver a ≡ accepted)
          ix.alerts
  unfolding list_alerts_after
  pending_covered ix v = select-All _ _ ix.alerts (
      sort_by-All _ ascending _ (
        prefix_covers _ (last_delivered_id ix) (unread ix)
          (IsOrdered-sort_by ascending (by_key-IsOrder (λ a. a.id)) _)
          (λ m.
            rw
              (count-sort_by (λ a. nat_beq a.id m) ascending
                (select (λ a. ltb (last_delivered_id ix) a.id) ix.alerts))
              ((IsNumbered-select ix.alerts_seq _ ix.alerts v).once m))
          (All-sort_by (λ a. last_delivered_id ix < a.id) ascending _
            (All-select_above (last_delivered_id ix) ix.alerts))))

  not_due :
      (ix : Index)
      → clock.now < meta_number next_attempt_key ix
      → last_delivered_id (poll ix).index ≡ last_delivered_id ix
  unfolding poll_webhooks_once
  not_due ix h = rw (lt→ltb clock.now (meta_number next_attempt_key ix) h)

  -- An alert that the cursor passes in a poll was accepted by the subscriber in that poll: none is
  -- skipped, whichever deliveries fail and however many alerts a poll may read.
  pub poll_webhooks_once_no_skip :
      (ix : Index) (i : ℕ) (a : Alert)
      → IsNumbered ix.alerts_seq ix.alerts
      → get_elem? ix.alerts i ≡ some a
      → last_delivered_id ix < a.id
      → a.id ≤ last_delivered_id (poll ix).index
      → deliver a ≡ accepted
  poll_webhooks_once_no_skip ix i a v at new old =
      elim (dec_lt clock.now (meta_number next_attempt_key ix)) [
        | yes early ↦ absurd (omega (arith, not_due ix early))
        | no due ↦
            All-get_elem? _ ix.alerts i a (pending_covered ix v) at
              (lt→ltb (last_delivered_id ix) a.id new) (rw (← cursor-poll ix (omega arith)) old)
      ]
