-- ===== src/Webhooks/Signature.antt =====
-- `signPayload` and `verifySignature` of packages/backend/src/webhooks.ts, and the timer of the
-- dispatcher. The bytes of a text, as Buffer.from gives them, are an argument.
use taop_protocol.Prelude.{
  ℕ, Bool, true, false, ◌&&◌, List, [], ◌∷◌, ◌++◌, Text, text, text_beq, Option, none, some, length,
  nat_beq,
}
use taop_protocol.Webhooks.{Platform, WebhookConfig}

unfoldable pub sign_payload : {Body : Type 0} → Platform Body → Text → Body → Text
sign_payload platform secret body = text "sha256=" ++ platform.hmac secret body

module _ {Body : Type 0} (platform : Platform Body) (bytes : Text → List ℕ) where
  -- `!header` holds of the empty text too.
  unfoldable pub verify_signature : Text → Body → Option Text → Bool
  unfolding sign_payload text_beq
  verify_signature secret body none = false
  verify_signature secret body (some []) = false
  verify_signature secret body (some (c ∷ cs)) =
      let expected = bytes (sign_payload platform secret body) in
      let received = bytes (c ∷ cs) in
      nat_beq (length expected) (length received) && text_beq expected received

-- The module's `timer`: the configuration that it polls with, every `poll_ms`.
abbrev pub Timer : Type 0
Timer = Option WebhookConfig

-- What the call returns, the timer that it leaves, and the poll that it starts at once.
pub record Started : Type 0 where
  pub result : Bool
  pub timer : Timer
  pub first_poll : Option WebhookConfig

unfoldable pub start_webhook_dispatcher : Option WebhookConfig → Timer → Started
start_webhook_dispatcher none timer = record { result = false; timer = timer; first_poll = none }
start_webhook_dispatcher (some config) (some running) = record {
  result = false;
  timer = some running;
  first_poll = none;
}
start_webhook_dispatcher (some config) none = record {
  result = true;
  timer = some config;
  first_poll = some config;
}

unfoldable pub stop_webhook_dispatcher : Timer → Timer
stop_webhook_dispatcher timer = none
