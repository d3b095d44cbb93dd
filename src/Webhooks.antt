-- ===== src/Webhooks.antt =====
-- packages/backend/src/webhooks.ts: the outbound webhooks. The modules below hold the host check,
-- the configuration, the status that is kept in `meta`, the signature, and the dispatcher.
pub mod Hosts
pub mod Config
pub mod Status
pub mod Signature
pub mod Dispatch
use taop_protocol.Prelude.{ℕ, Text, Option}
use taop_protocol.Index.Alerts.{Number}

-- The fields of a parsed `URL` that the backend reads.
pub record Url : Type 0 where
  pub protocol : Text
  pub username : Text
  pub password : Text
  pub hostname : Text
  pub href : Text

-- The environment variables, unset or set to a text.
pub record WebhookEnv : Type 0 where
  pub url : Option Text
  pub secret : Option Text
  pub poll_ms : Option Text
  pub timeout_ms : Option Text
  pub max_per_poll : Option Text
  pub allow_private : Option Text
  pub allow_http : Option Text

-- What the platform does: `new URL` (none where it throws), `Number` of a text, and the hexadecimal
-- digits of the HMAC of a serialised body under a secret.
pub record Platform (Body : Type 0) : Type 0 where
  pub parse_url : Text → Option Url
  pub number_of_text : Text → Number
  pub hmac : Text → Body → Text

pub record WebhookConfig : Type 0 where
  pub url : Text
  pub secret : Option Text
  pub poll_ms : ℕ
  pub timeout_ms : ℕ
  pub max_per_poll : ℕ
