-- ===== src/Webhooks/Status.antt =====
-- `webhookStatus` and `resetWebhookState` of packages/backend/src/webhooks.ts.
use taop_protocol.Prelude.{ℕ, Bool, true, false, [], Text, Option, none, some}
use taop_protocol.Prelude.Int.{ℤ}
use taop_protocol.Index.{
  Index, MetaKey, number, last_id_key, delivered_key, failed_key, streak_key, error_key,
  delivered_at_key, next_attempt_key,
}
use taop_protocol.Index
use taop_protocol.Index.Alerts.{count_alerts_after, floor_ℕ}
use taop_protocol.Index.Logs.{get_meta, set_meta, text_of}
use taop_protocol.Webhooks.{Platform, WebhookEnv}
use taop_protocol.Webhooks.Config.{
  UrlError, Loaded, disabled, invalid, loaded, load_webhook_config, meta_number, or_null,
}

pub record WebhookStatus : Type 0 where
  pub enabled : Bool
  pub config_error : Option UrlError
  pub last_delivered_id : ℕ
  pub pending : ℕ
  pub delivered : ℕ
  pub failed : ℕ
  pub last_error : Option Text
  pub last_delivered_at : Option Text

-- `meta(key) || null`
unfoldable pub meta_text : MetaKey → Index → Option Text
unfolding get_meta
meta_text key ix = elim (get_meta key ix) [ none ↦ none | some value ↦ or_null (text_of value) ]

abbrev is_loaded : Loaded → Bool
is_loaded disabled = false
is_loaded (invalid e) = false
is_loaded (loaded config) = true

abbrev error_of : Loaded → Option UrlError
error_of disabled = none
error_of (invalid e) = some e
error_of (loaded config) = none

unfoldable pub webhook_status : {Body : Type 0} → Platform Body → WebhookEnv → Index → WebhookStatus
webhook_status platform env ix =
    let config = load_webhook_config platform env in
    let last_id = meta_number last_id_key ix in
    record {
      enabled = is_loaded config;
      config_error = error_of config;
      last_delivered_id = last_id;
      pending = count_alerts_after last_id ix;
      delivered = meta_number delivered_key ix;
      failed = meta_number failed_key ix;
      last_error = meta_text error_key ix;
      last_delivered_at = meta_text delivered_at_key ix;
    }

-- `from_id` is the floor of the argument.
unfoldable pub reset_webhook_state : ℤ → Index → Index
reset_webhook_state from_id ix = set_meta next_attempt_key (number 0) (
    set_meta delivered_at_key (Index.MetaValue.string []) (
      set_meta error_key (Index.MetaValue.string []) (
        set_meta streak_key (number 0) (
          set_meta failed_key (number 0) (
            set_meta delivered_key (number 0)
              (set_meta last_id_key (number (floor_ℕ from_id)) ix))))))
