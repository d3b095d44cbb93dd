-- ===== src/System.antt =====
-- The two background tasks of packages/backend (`startIndexer` of src/indexer.ts and the dispatcher of
-- src/webhooks.ts) and the writes of the demo server (src/db.ts) over their shared database: one poll or
-- write at a time, in any order, each with whatever the chain, the subscriber and the clock then answer.
use taop_protocol.Index.Cache.{
  record_capability, record_completion, mark_completion_challenged, mark_completion_resolved,
  record_admin_action,
}
use taop_protocol.Table.{Table}
use taop_protocol.Prelude.{
  Option, Bool, nat_beq, ℕ, ◌≡◌, ◌<◌, ◌≤◌, List, [], ◌∷◌, Text, some, get_elem?, inl, inr, ltb,
  Bool-cases,
}
use taop_protocol.Prelude.Int.{ℤ}
use taop_protocol.Index.{
  PayloadValue, Index, MetaKey, MetaValue, Alert, init_index_schema, next_attempt_key,
}
use taop_protocol.Index.Logs.{set_meta}
use taop_protocol.Index.Sound.{IsSound, init_index_schema-IsSound}
use taop_protocol.Indexer.{Chain, Result-cases}
use taop_protocol.Indexer.Poll.{Pass, PollOptions, initial_status, poll_once, poll}
use taop_protocol.Indexer.Passes.{poll_once-IsSound}
use taop_protocol.Webhooks.{Platform, WebhookEnv, WebhookConfig}
use taop_protocol.Webhooks.Config.{last_delivered_id, meta_number}
use taop_protocol.Webhooks.Status.{reset_webhook_state}
use taop_protocol.Webhooks.Dispatch.{
  DeliveryBody, Request, Response, Clock, Polled, accepted, deliver_alert, deliver_batch,
  poll_webhooks_once, note_delivered, note_failed,
}
use taop_protocol.Webhooks.Dispatch.Order.{Delivery-cases, poll_webhooks_once_no_skip}

-- What the demo server writes into its cache.
pub data Cached (ix : Index) : Index → Type 0 where
  capability :
      (id : ℕ) (creator : Text) (bond : ℕ) (type cid : Text) (certified : Bool) (now : Text)
      → Cached ix (record_capability id creator bond type cid certified now ix)
  completion :
      (id : ℕ) (agent type cid : Text) (timestamp : ℕ) (tx_hash : Option Text) (now : Text)
      → Cached ix (record_completion id agent type cid timestamp tx_hash now ix)
  challenged : (id : ℕ) → Cached ix (mark_completion_challenged id ix)
  resolved : (id : ℕ) (disputed : Bool) → Cached ix (mark_completion_resolved id disputed ix)
  administered :
      (action actor : Text) (tx_hash : Option Text) (detail : Option (Table Text PayloadValue))
      (scheduled executed : Option Bool) (now : Text)
      → Cached ix (record_admin_action action actor tx_hash detail scheduled executed now ix)

-- What the database and the indexer's status may be, from the tables as they are created on.
pub data Reached : Pass → Type 0 where
  started : Reached (record { index = init_index_schema; status = initial_status })
  polled :
      {p : Pass} (chain : Chain) (platform : Platform DeliveryBody) (env : WebhookEnv)
      (opts : PollOptions)
      → Reached p
      → Reached (poll chain platform env opts p)
  dispatched :
      {p : Pass} (platform : Platform DeliveryBody) (fetch : Request → Response)
      (status_message : ℕ → Text) (config : WebhookConfig) (clock : Clock)
      → Reached p
      → Reached (record p {
        index = (poll_webhooks_once platform fetch status_message config clock p.index).index;
      })
  cached :
      {p : Pass} (ix : Index) → Cached p.index ix → Reached p → Reached (record p { index = ix })
  reset :
      {p : Pass} (from_id : ℤ)
      → Reached p
      → Reached (record p { index = reset_webhook_state from_id p.index })

record_capability-IsSound :
    (id : ℕ) (creator : Text) (bond : ℕ) (type cid : Text) (certified : Bool) (now : Text)
    {ix : Index}
    → IsSound ix
    → IsSound (record_capability id creator bond type cid certified now ix)
unfolding record_capability
record_capability-IsSound id creator bond type cid certified now v =
    elim (Bool-cases (nat_beq id 0)) [
      | inl e ↦ rw e v
      | inr e ↦ rw e (record { diverse = v.diverse; numbered = v.numbered; tallied = v.tallied })
    ]

Cached-IsSound : {ix ix' : Index} → Cached ix ix' → IsSound ix → IsSound ix'
unfolding record_completion mark_completion_challenged mark_completion_resolved record_admin_action
Cached-IsSound (capability id creator bond type cid certified now) v =
    record_capability-IsSound id creator bond type cid certified now v
Cached-IsSound (completion id agent type cid timestamp tx_hash now) v = record {
  diverse = v.diverse;
  numbered = v.numbered;
  tallied = v.tallied;
}
Cached-IsSound (challenged id) v = record {
  diverse = v.diverse;
  numbered = v.numbered;
  tallied = v.tallied;
}
Cached-IsSound (resolved id disputed) v = record {
  diverse = v.diverse;
  numbered = v.numbered;
  tallied = v.tallied;
}
Cached-IsSound (administered action actor tx_hash detail scheduled executed now) v = record {
  diverse = v.diverse;
  numbered = v.numbered;
  tallied = v.tallied;
}

set_meta-IsSound :
    (k : MetaKey) (v : MetaValue) {ix : Index} → IsSound ix → IsSound (set_meta k v ix)
unfolding set_meta
set_meta-IsSound k w v = record { diverse = v.diverse; numbered = v.numbered; tallied = v.tallied }

reset_webhook_state-IsSound : (n : ℤ) {ix : Index} → IsSound ix → IsSound (reset_webhook_state n ix)
unfolding reset_webhook_state set_meta
reset_webhook_state-IsSound n v = record {
  diverse = v.diverse;
  numbered = v.numbered;
  tallied = v.tallied;
}

module _ (config : WebhookConfig) (clock : Clock) where
  note_delivered-IsSound :
      (a : Alert) {ix : Index} → IsSound ix → IsSound (note_delivered config clock a ix)
  unfolding note_delivered set_meta
  note_delivered-IsSound a v = record {
    diverse = v.diverse;
    numbered = v.numbered;
    tallied = v.tallied;
  }

  note_failed-IsSound :
      (m : Text) {ix : Index} → IsSound ix → IsSound (note_failed config clock m ix)
  unfolding note_failed set_meta
  note_failed-IsSound m v = record {
    diverse = v.diverse;
    numbered = v.numbered;
    tallied = v.tallied;
  }

module _ (platform : Platform DeliveryBody) (fetch : Request → Response) (status_message : ℕ → Text)
    (config : WebhookConfig) (clock : Clock) where
  deliver_batch-IsSound :
      (alerts : List Alert) (p : Polled)
      → IsSound p.index
      → IsSound (deliver_batch platform fetch status_message config clock alerts p).index
  unfolding deliver_batch
  deliver_batch-IsSound [] p v = v
  deliver_batch-IsSound (a ∷ rest) p v =
      elim (Delivery-cases (deliver_alert platform fetch status_message config clock a)) [
        | inl e ↦
            rw (e, deliver_batch)
              (deliver_batch-IsSound rest _ (note_delivered-IsSound config clock a v))
        | inr (m, e) ↦ rw (e, deliver_batch) (note_failed-IsSound config clock m v)
      ]

  poll_webhooks_once-IsSound :
      {ix : Index}
      → IsSound ix
      → IsSound (poll_webhooks_once platform fetch status_message config clock ix).index
  unfolding poll_webhooks_once
  poll_webhooks_once-IsSound {ix} v =
      elim (Bool-cases (ltb clock.now (meta_number next_attempt_key ix))) [
        | inl e ↦ rw e v
        | inr e ↦ rw e (deliver_batch-IsSound _ _ v)
      ]

poll-IsSound :
    {Body : Type 0} (chain : Chain) (platform : Platform Body) (env : WebhookEnv)
    (opts : PollOptions) (p : Pass)
    → IsSound p.index
    → IsSound (poll chain platform env opts p).index
unfolding poll
poll-IsSound chain platform env opts p v =
    elim (Result-cases (poll_once chain platform env opts p).1) [
      | inl (m, e) ↦ rw (e, poll) (poll_once-IsSound chain platform env opts p v)
      | inr (u, e) ↦ rw (e, poll) (poll_once-IsSound chain platform env opts p v)
    ]

-- Whatever the two tasks and the demo server did, in whatever order and with whatever errors, the tables are sound: the
-- distinct counts match the confirmations, alert ids name one alert each, no agent has a negative
-- number of confirmations, and each receipt belongs to an agent with a score.
pub Reached-IsSound : {p : Pass} → Reached p → IsSound p.index
Reached-IsSound started = init_index_schema-IsSound
Reached-IsSound (polled {p} chain platform env opts r) =
    poll-IsSound chain platform env opts p (Reached-IsSound r)
Reached-IsSound (dispatched platform fetch status_message config clock r) =
    poll_webhooks_once-IsSound platform fetch status_message config clock (Reached-IsSound r)
Reached-IsSound (cached ix step r) = Cached-IsSound step (Reached-IsSound r)
Reached-IsSound (reset n r) = reset_webhook_state-IsSound n (Reached-IsSound r)

-- In every database that the tasks and the demo server can leave, a poll of the dispatcher skips no alert: one that its
-- cursor passes was accepted by the subscriber in that poll.
pub Reached-no_skip :
    {p : Pass} (platform : Platform DeliveryBody) (fetch : Request → Response)
    (status_message : ℕ → Text) (config : WebhookConfig) (clock : Clock) (i : ℕ) (a : Alert)
    → Reached p
    → get_elem? p.index.alerts i ≡ some a
    → last_delivered_id p.index < a.id
    → a.id
      ≤ last_delivered_id
          (poll_webhooks_once platform fetch status_message config clock p.index).index
    → deliver_alert platform fetch status_message config clock a ≡ accepted
Reached-no_skip {p} platform fetch status_message config clock i a r at new old =
    poll_webhooks_once_no_skip platform fetch status_message config clock p.index i a
      (Reached-IsSound r).numbered at new old
