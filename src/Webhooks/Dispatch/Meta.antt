-- ===== src/Webhooks/Dispatch/Meta.antt =====
-- What the counters in `meta` are after each step of the dispatcher.
use taop_protocol.Prelude.{◌+◌, ◌*◌, ◌^◌, ◌≡◌, refl, Text, arith, min, if◌then◌else◌}
use taop_protocol.Table.Laws.{find-put}
use taop_protocol.Index.{
  Index, Alert, MetaKey, MetaValue, key_beq, meta_key_eq, streak_key, next_attempt_key,
}
use taop_protocol.Index.Logs.{set_meta, number_of}
use taop_protocol.Webhooks.{WebhookConfig}
use taop_protocol.Webhooks.Config.{meta_number, last_delivered_id}
use taop_protocol.Webhooks.Dispatch.{Clock, note_delivered, note_failed, max_backoff_ms}

pub meta_number-set_meta :
    (j k : MetaKey) (v : MetaValue) (ix : Index)
    → meta_number k (set_meta j v ix) ≡ (if key_beq j k then number_of v else meta_number k ix)
unfolding meta_number set_meta
meta_number-set_meta j k v ix = ground (arith, find-put j k v ix.meta)

module _ (config : WebhookConfig) (clock : Clock) where
  pub cursor-note_delivered :
      (a : Alert) (ix : Index) → last_delivered_id (note_delivered config clock a ix) ≡ a.id
  unfolding note_delivered last_delivered_id
  cursor-note_delivered a ix = simp meta_number-set_meta

  pub cursor-note_failed :
      (m : Text) (ix : Index)
      → last_delivered_id (note_failed config clock m ix) ≡ last_delivered_id ix
  unfolding note_failed last_delivered_id
  cursor-note_failed m ix = simp meta_number-set_meta

  -- The alerts are left alone.
  pub alerts-note_delivered :
      (a : Alert) (ix : Index) → (note_delivered config clock a ix).alerts ≡ ix.alerts
  unfolding note_delivered set_meta
  alerts-note_delivered a ix = refl

  pub next_attempt-note_failed :
      (m : Text) (ix : Index)
      → meta_number next_attempt_key (note_failed config clock m ix)
        ≡ clock.date_now + min (config.poll_ms * 2 ^ (meta_number streak_key ix + 1)) max_backoff_ms
  unfolding note_failed
  next_attempt-note_failed m ix = simp meta_number-set_meta
