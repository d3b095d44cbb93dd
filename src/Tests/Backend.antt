-- ===== src/Tests/Backend.antt =====
-- The indexer and the dispatcher of packages/backend/src on one small chain.
use taop_protocol.Prelude.{
  ◌↔◌, ℕ, ◌+◌, ◌*◌, ◌≡◌, ◌≤◌, refl, true, false, [], ◌∷◌, get_elem?, to_lower, Text, text, none,
  some, arith, length, min, select, ltb, text_beq,
}
use taop_protocol.Prelude.Int.{pos}
use taop_protocol.Index.{Index, Alert, init_index_schema, next_attempt_key, decimal}
use taop_protocol.Sort.{sort_by}
use taop_protocol.Table.{find, put}
use taop_protocol.Index.Logs.{
  get_meta, get_indexer_last_block, already_indexed, mark_indexed, prune_indexed_logs,
  set_indexer_last_hash, set_indexer_last_block, set_meta,
}
use taop_protocol.Index
use taop_protocol.Index.Sound.{IsSound, init_index_schema-IsSound}
use taop_protocol.Webhooks.Signature.{verify_signature}
use taop_protocol.Webhooks.Dispatch.{delivery_request}
use taop_protocol.Webhooks.Dispatch.Oldest.{IsOldest}
use taop_protocol.Prelude.{max}
use taop_protocol.Webhooks.Config.{last_delivered_id}
use taop_protocol.Webhooks.Dispatch.Signed.{verify_signature-delivery_request}
use taop_protocol.Index.Alerts.{
  finite, not_finite, list_alerts_after, prune_alerts, record_alert, alert_exists, safe_limit,
  cutoff_id,
}
use taop_protocol.Index.Alerts.Numbered.{IsNumbered, record_alert-IsNumbered}
use taop_protocol.Index.Alerts.Retention.{list_alerts_after-prune_alerts, prune_alerts_newest}
use taop_protocol.Index.Scores.{bump_counterparty, plus_one}
use taop_protocol.Index.Scores.Diversity.{IsDiverse, bump_counterparty-IsDiverse}
use taop_protocol.Indexer.{Chain, Log, ok, challenge_submitted}
use taop_protocol.Indexer.Poll.{
  Pass, PollOptions, poll, initial_status, poll_once, after_head, poll_from, check_reorg, reorg_at,
  next_block, after_chunks, index_chunks, retain, finish_status, store_cursor,
}
use taop_protocol.Indexer.Range.{
  index_range, apply_logs, block_ts, apply_log, is_registry, apply_ron_log, mark_log,
}
use taop_protocol.Indexer.Events.{alert, apply_ron_event}
use taop_protocol.Webhooks.{Platform, WebhookEnv, WebhookConfig}
use taop_protocol.Webhooks.Config.{last_delivered_id, meta_number}
use taop_protocol.Webhooks.Dispatch.{
  DeliveryBody, Request, Response, responded, thrown, Clock, note_delivered, accepted,
  deliver_alert, deliver_batch, poll_webhooks_once, nothing_sent, max_backoff_ms,
}
use taop_protocol.Webhooks.Dispatch.Order.{
  Delivered, accepted_prefix, pending, poll_webhooks_once-Delivered,
}
use taop_protocol.Webhooks.Dispatch.Backoff.{poll_webhooks_once_backoff}
use taop_protocol.System.{Reached, started, polled, dispatched, Reached-IsSound, Reached-no_skip}

abbrev log_at : ℕ → ℕ → Log
log_at block index = record {
  address = text "0xB0";
  block_number = block;
  index = index;
  transaction_hash = text "0xt";
  topics_and_data = [];
}

abbrev pub chain : Chain
chain = record {
  registry = text "0xA0";
  ron = text "0xB0";
  get_block_number = ok 20;
  get_logs = λ from to. ok (log_at 7 1 ∷ []);
  get_block = λ n. ok (some (record { hash = some (text "0xh"); timestamp = 1000 }));
  get_capability = λ id.
      ok (record {
        creator = text "0xC0";
        bond = 5;
        capability_type = text "0xk";
        metadata_cid = [];
      });
  get_completion = λ id. ok (text "cid");
  parse_registry_log = λ log. none;
  parse_ron_log = λ log. some (challenge_submitted 3 (text "0xD0"));
  now_seconds = 2000;
  now_iso = text "2026";
  iso_of_seconds = λ seconds. text "2026";
}

abbrev pub platform : Platform DeliveryBody
platform = record {
  parse_url = λ raw. some (record {
    protocol = text "https:";
    username = [];
    password = [];
    hostname = text "example.com";
    href = raw;
  });
  number_of_text = λ s. not_finite;
  hmac = λ secret body. secret;
}

abbrev pub env : WebhookEnv
env = record {
  url = some (text "https://example.com");
  secret = none;
  poll_ms = none;
  timeout_ms = none;
  max_per_poll = none;
  allow_private = none;
  allow_http = none;
}

abbrev pub opts : PollOptions
opts = record {
  start_block = 5;
  chunk_size = 100;
  confirmations = 2;
  max_chunks = 3;
  alerts_keep = 10;
  marker_blocks = 50;
}

abbrev config : WebhookConfig
config = record {
  url = text "https://example.com";
  secret = none;
  poll_ms = 5000;
  timeout_ms = 10000;
  max_per_poll = 25;
}

abbrev clock : Clock
clock = record { now = 90; date_now = 90; iso = text "2026" }

abbrev fetch : Request → Response
fetch request = responded true 200

abbrev refusing : Request → Response
refusing request = thrown (text "refused")

abbrev status_message : ℕ → Text
status_message status = text "HTTP"

abbrev pub new_pass : Pass
new_pass = record { index = init_index_schema; status = initial_status }

abbrev indexed : Pass
indexed = poll chain platform env opts new_pass

indexed-Reached : Reached indexed
indexed-Reached = polled chain platform env opts started

Reached-IsSound_example :
    IsSound (poll_webhooks_once platform fetch status_message config clock indexed.index).index
Reached-IsSound_example =
    Reached-IsSound (dispatched platform fetch status_message config clock indexed-Reached)

-- Two alerts in a new database.
abbrev one_alert : Index
one_alert = record_alert (text "Paused") 7 (text "0xt") [] (text "2026") init_index_schema

abbrev two_alerts : Index
two_alerts = record_alert (text "Unpaused") 8 (text "0xu") [] (text "2026") one_alert

poll_webhooks_once-Delivered_example :
    IsOldest
      (last_delivered_id two_alerts)
      (min (max config.max_per_poll 1) 500)
      two_alerts.alerts
      (pending platform fetch status_message config clock two_alerts)
    × Delivered
        (accepted_prefix
          (deliver_alert platform fetch status_message config clock)
          (pending platform fetch status_message config clock two_alerts))
        (pending platform fetch status_message config clock two_alerts)
        (nothing_sent platform fetch status_message config clock two_alerts)
        (poll_webhooks_once platform fetch status_message config clock two_alerts)
unfolding record_alert meta_number find get_meta alert_exists text_beq
poll_webhooks_once-Delivered_example =
    poll_webhooks_once-Delivered platform fetch status_message config clock two_alerts (omega arith)

list_alerts_after-prune_alerts_example :
    list_alerts_after 1 (finite (pos 5) false) (prune_alerts (finite (pos 1) false) 1 two_alerts).0
    ≡ list_alerts_after 1 (finite (pos 5) false) two_alerts
list_alerts_after-prune_alerts_example =
    list_alerts_after-prune_alerts (finite (pos 1) false) (finite (pos 5) false) 1 1 two_alerts
      (omega arith)

two_alerts-IsNumbered : IsNumbered two_alerts.alerts_seq two_alerts.alerts
two_alerts-IsNumbered =
    record_alert-IsNumbered (text "Unpaused") 8 (text "0xu") [] (text "2026") one_alert (
      record_alert-IsNumbered (text "Paused") 7 (text "0xt") [] (text "2026") init_index_schema
        init_index_schema-IsSound.numbered)

prune_alerts_newest_example :
    (cutoff : ℕ) × ((prune_alerts (finite (pos 1) false) two_alerts.alerts_seq two_alerts).0.alerts
      ≡ select (λ a. ltb cutoff a.id) two_alerts.alerts)
    × (length (prune_alerts (finite (pos 1) false) two_alerts.alerts_seq two_alerts).0.alerts
        ≡ min 1 (length two_alerts.alerts))
prune_alerts_newest_example =
    prune_alerts_newest 1 two_alerts.alerts_seq two_alerts (omega arith) two_alerts-IsNumbered

bump_counterparty-IsDiverse_example :
    IsDiverse (bump_counterparty (text "0xA0") (text "0xB0") plus_one init_index_schema)
bump_counterparty-IsDiverse_example =
    bump_counterparty-IsDiverse (text "0xA0") (text "0xB0") plus_one init_index_schema
      init_index_schema-IsSound.diverse

one_failure :
    (poll_webhooks_once platform refusing status_message config clock two_alerts).failed ≡ 1
unfolding poll_webhooks_once deliver_batch deliver_alert meta_number find get_meta record_alert
    alert_exists list_alerts_after sort_by text_beq safe_limit last_delivered_id
one_failure = refl

poll_webhooks_once_backoff_example :
    (clock.date_now + min (config.poll_ms * 2) max_backoff_ms
      ≤ meta_number next_attempt_key
          (poll_webhooks_once platform refusing status_message config clock two_alerts).index)
    × (meta_number next_attempt_key
          (poll_webhooks_once platform refusing status_message config clock two_alerts).index
        ≤ clock.date_now + max_backoff_ms)
poll_webhooks_once_backoff_example =
    poll_webhooks_once_backoff platform refusing status_message config clock two_alerts one_failure

abbrev alerted : Alert
alerted = record {
  id = 1;
  kind = text "ChallengeSubmitted";
  block_number = 7;
  tx_hash = text "0xt";
  payload =
      (text "completionId", decimal 3)
      ∷ (text "challenger", Index.PayloadValue.string (text "0xd0"))
      ∷ [];
  created_at = text "2026";
}

-- The poll of the indexer records one alert, and the next poll of the dispatcher passes it.
first_polls :
    (get_elem? indexed.index.alerts 0 ≡ some alerted)
    × (last_delivered_id indexed.index ≡ 0)
    × (last_delivered_id
          (poll_webhooks_once platform fetch status_message config clock indexed.index).index
        ≡ 1)
unfolding poll poll_once after_head poll_from check_reorg reorg_at get_indexer_last_block find
    next_block after_chunks index_chunks index_range sort_by apply_logs already_indexed block_ts
    apply_log is_registry apply_ron_log apply_ron_event record_alert alert_exists text_beq retain
    prune_alerts cutoff_id finish_status mark_log mark_indexed store_cursor prune_indexed_logs
    set_indexer_last_hash put set_indexer_last_block to_lower alert last_delivered_id meta_number
    get_meta set_meta note_delivered poll_webhooks_once deliver_batch deliver_alert
    list_alerts_after safe_limit
first_polls = (refl, refl, refl)

Reached-no_skip_example :
    deliver_alert platform fetch status_message config clock alerted ≡ accepted
Reached-no_skip_example =
    Reached-no_skip platform fetch status_message config clock 0 alerted indexed-Reached
      first_polls.0 (omega (arith, first_polls.1)) (omega (arith, first_polls.2))

-- A delivery under the secret "key"; the platform signs with the secret itself.
abbrev signed_request : Request
signed_request =
    delivery_request platform fetch status_message (record config { secret = some (text "key") })
      clock alerted

verify_signature-delivery_request_example :
    (verify_signature platform (λ s. s) (text "key") signed_request.body signed_request.signature
      ≡ true)
    × ((sent : Text) × (signed_request.signature ≡ some sent)
        × ((verify_signature platform
                (λ s. s)
                (text "key")
                signed_request.body
                (some (text "sha256=kex"))
              ≡ true)
            ↔ (text "sha256=kex" ≡ sent)))
    × ((delivery_request platform fetch status_message
          (record config { secret = none })
          clock
          alerted).signature
        ≡ none)
    × ((delivery_request platform fetch status_message
          (record config { secret = some [] })
          clock
          alerted).signature
        ≡ none)
verify_signature-delivery_request_example =
    verify_signature-delivery_request platform (λ s. s) fetch status_message config clock alerted
      b'k' (text "ey") b's' (text "ha256=kex")
