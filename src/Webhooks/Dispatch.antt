-- ===== src/Webhooks/Dispatch.antt =====
-- `deliverAlert` and `pollWebhooksOnce` of packages/backend/src/webhooks.ts. The subscriber is the
-- argument `fetch`; its answers may depend on the whole request.
pub mod Meta
pub mod Oldest
pub mod Order
pub mod Backoff
pub mod Signed
use taop_protocol.Prelude.{
  ℕ, ◌+◌, ◌*◌, ◌^◌, Bool, false, List, [], ◌∷◌, Text, text, Option, none, some, ltb, if◌then◌else◌,
  min,
}
use taop_protocol.Prelude.Int.{pos}
use taop_protocol.Index.{
  Index, Alert, Payload, MetaKey, number, last_id_key, delivered_key, failed_key, streak_key,
  error_key, delivered_at_key, next_attempt_key,
}
use taop_protocol.Index
use taop_protocol.Index.Alerts.{finite, list_alerts_after}
use taop_protocol.Index.Logs.{set_meta}
use taop_protocol.Indexer.Events.{truthy}
use taop_protocol.Webhooks.{Platform, WebhookConfig}
use taop_protocol.Webhooks.Signature.{sign_payload}
use taop_protocol.Webhooks.Config.{meta_number, last_delivered_id}

-- The object that `buildDeliveryBody` serialises.
pub record DeliveryBody : Type 0 where
  pub id : ℕ
  pub source : Text
  pub kind : Text
  pub block_number : ℕ
  pub tx_hash : Text
  pub created_at : Text
  pub delivered_at : Text
  pub payload : Payload

-- The POST, with the headers that depend on the alert.
pub record Request : Type 0 where
  pub url : Text
  pub delivery : ℕ
  pub kind : Text
  pub signature : Option Text
  pub body : DeliveryBody

-- A response with its status and `res.ok`, or an error of `fetch` (an abort among them).
pub data Response : Type 0 where
  responded : Bool → ℕ → Response
  thrown : Text → Response

pub data Delivery : Type 0 where
  accepted : Delivery
  failed : Text → Delivery

-- `opts.now ?? Date.now()`, Date.now() and new Date().toISOString() during the poll.
pub record Clock : Type 0 where
  pub now : ℕ
  pub date_now : ℕ
  pub iso : Text

unfoldable pub build_delivery_body : Alert → Text → DeliveryBody
build_delivery_body alert now = record {
  id = alert.id;
  source = text "taop-indexer";
  kind = alert.kind;
  block_number = alert.block_number;
  tx_hash = alert.tx_hash;
  created_at = alert.created_at;
  delivered_at = now;
  payload = alert.payload;
}

-- MAX_BACKOFF_MS
abbrev pub max_backoff_ms : ℕ
max_backoff_ms = 5 * 60 * 1000

-- The counters that a poll returns, with the tables that it leaves.
pub record Polled : Type 0 where
  pub index : Index
  pub delivered : ℕ
  pub failed : ℕ
  pub last_id : ℕ

module _ (config : WebhookConfig) (clock : Clock) where
  -- The body of the `try`, after the delivery.
  unfoldable pub note_delivered : Alert → Index → Index
  note_delivered alert ix =
      let ix1 = set_meta last_id_key (number alert.id) ix in
      let ix2 = set_meta delivered_key (number (meta_number delivered_key ix1 + 1)) ix1 in
      set_meta next_attempt_key (number 0) (
        set_meta delivered_at_key (Index.MetaValue.string clock.iso)
          (set_meta error_key (Index.MetaValue.string []) (set_meta streak_key (number 0) ix2)))

  -- The body of the `catch`.
  unfoldable pub note_failed : Text → Index → Index
  note_failed message ix =
      let streak = meta_number streak_key ix + 1 in
      let ix1 = set_meta streak_key (number streak) ix in
      let ix2 = set_meta failed_key (number (meta_number failed_key ix1 + 1)) ix1 in
      let ix3 = set_meta error_key (Index.MetaValue.string message) ix2 in
      let backoff = min (config.poll_ms * 2 ^ streak) max_backoff_ms in
      set_meta next_attempt_key (number (clock.date_now + backoff)) ix3

module _ (platform : Platform DeliveryBody) (fetch : Request → Response) (status_message : ℕ → Text)
    (config : WebhookConfig) (clock : Clock) where
  unfoldable pub delivery_request : Alert → Request
  unfolding build_delivery_body sign_payload
  delivery_request alert =
      let body = build_delivery_body alert clock.iso in
      record {
        url = config.url;
        delivery = alert.id;
        kind = alert.kind;
        signature = elim (truthy config.secret) [
          | none ↦ none
          | some secret ↦ some (sign_payload platform secret body)
        ];
        body = body;
      }

  unfoldable pub deliver_alert : Alert → Delivery
  deliver_alert alert = elim (fetch (delivery_request alert)) [
    | thrown message ↦ failed message
    | responded ok status ↦ if ok then accepted else failed (status_message status)
  ]

  -- The loop over the batch.
  unfoldable pub deliver_batch : List Alert → Polled → Polled
  deliver_batch [] p = p
  deliver_batch (alert ∷ rest) p = elim (deliver_alert alert) [
    | accepted ↦ deliver_batch rest (record {
      index = note_delivered config clock alert p.index;
      delivered = p.delivered + 1;
      failed = p.failed;
      last_id = alert.id;
    })
    | failed message ↦ record p {
      index = note_failed config clock message p.index;
      failed = p.failed + 1;
    }
  ]

  abbrev pub nothing_sent : Index → Polled
  nothing_sent ix = record { index = ix; delivered = 0; failed = 0; last_id = last_delivered_id ix }

  -- With a configuration; without one nothing is sent.
  unfoldable pub poll_webhooks_once : Index → Polled
  poll_webhooks_once ix =
      if ltb clock.now (meta_number next_attempt_key ix)
      then nothing_sent ix
      else deliver_batch
          (list_alerts_after (last_delivered_id ix) (finite (pos config.max_per_poll) false) ix)
          (nothing_sent ix)
