-- ===== src/Webhooks/Config.antt =====
-- `intEnv`, `validateWebhookUrl` and `loadWebhookConfig` of packages/backend/src/webhooks.ts, with
-- `lastDeliveredId` and `lastDeliveredIdIfEnabled`.
pub mod Validation
use taop_protocol.Prelude.{
  ℕ, ◌-◌, ◌^◌, Bool, true, false, not, ◌&&◌, ◌||◌, [], ◌∷◌, Text, text, Option, none, some, ◌==◌,
  leb, nat_beq, if◌then◌else◌, text_eq,
}
use mathlib.Core.List.{reverse}
use mathlib.Core.Option
use taop_protocol.Index.{Index, MetaKey, last_id_key, meta_key_eq}
use taop_protocol.Index.Alerts.{Number, finite, not_finite, floor_ℕ, is_nonpositive}
use taop_protocol.Index.Logs.{get_meta, number_of}
use taop_protocol.Webhooks.{Url, WebhookEnv, Platform, WebhookConfig}
use taop_protocol.Webhooks.Hosts.{is_private_host}

-- An unset variable is read as NaN by `Number(undefined)`.
unfoldable pub int_env : (Text → Number) → Option Text → ℕ → ℕ
int_env number_of_text none fallback = fallback
int_env number_of_text (some value) fallback = positive (number_of_text value)
  where
    positive : Number → ℕ
    positive not_finite = fallback
    positive (finite n fraction) = if is_nonpositive n fraction then fallback else floor_ℕ n

-- The refusals of `validateWebhookUrl`, in the order of the code.
pub data UrlError : Type 0 where
  not_a_url not_http embeds_credentials private_target plaintext_http : UrlError

pub data Validated : Type 0 where
  accepted : Text → Validated
  refused : UrlError → Validated

abbrev pub is_true : Option Text → Bool
is_true none = false
is_true (some value) = value == text "true"

abbrev pub is_empty : Text → Bool
is_empty [] = true
is_empty (c ∷ cs) = false

unfoldable pub validate_url : Url → WebhookEnv → Validated
validate_url url env =
    let private_host = is_private_host url.hostname in
    if not (url.protocol == text "http:") && not (url.protocol == text "https:")
    then refused not_http
    else if not (is_empty url.username) || not (is_empty url.password)
    then refused embeds_credentials
    else if private_host && not (is_true env.allow_private)
    then refused private_target
    else if (url.protocol == text "http:") && not private_host && not (is_true env.allow_http)
    then refused plaintext_http
    else accepted url.href

module _ {Body : Type 0} (platform : Platform Body) where
  unfoldable pub validate_webhook_url : Text → WebhookEnv → Validated
  validate_webhook_url raw env = elim (platform.parse_url raw) [
    | none ↦ refused not_a_url
    | some url ↦ validate_url url env
  ]

-- The characters that `trim` takes off, of ASCII.
abbrev is_space : ℕ → Bool
is_space c = nat_beq c 32 || leb 9 c && leb c 13

trim_start : Text → Text
trim_start [] = []
trim_start (c ∷ cs) = let rest = trim_start cs in if is_space c then rest else c ∷ cs

unfoldable pub trim : Text → Text
unfolding trim_start
trim s = reverse (trim_start (reverse (trim_start s)))

-- `(value ?? "").trim()`
abbrev pub trimmed : Option Text → Text
trimmed value = trim (Option.get_or value [])

-- `value || null`
abbrev pub or_null : Text → Option Text
or_null [] = none
or_null (c ∷ cs) = some (c ∷ cs)

-- What loading the configuration gives: null, an error thrown, or the configuration.
pub data Loaded : Type 0 where
  disabled : Loaded
  invalid : UrlError → Loaded
  loaded : WebhookConfig → Loaded

module _ {Body : Type 0} (platform : Platform Body) where
  unfoldable pub load_webhook_config : WebhookEnv → Loaded
  load_webhook_config env =
      let url = trimmed env.url in
      if is_empty url then disabled else elim (validate_webhook_url platform url env) [
        | refused e ↦ invalid e
        | accepted href ↦ loaded (record {
          url = href;
          secret = or_null (trimmed env.secret);
          poll_ms = int_env platform.number_of_text env.poll_ms 5000;
          timeout_ms = int_env platform.number_of_text env.timeout_ms 10000;
          max_per_poll = int_env platform.number_of_text env.max_per_poll 25;
        })
      ]

-- `Number(getMeta(key) ?? "0") || 0`
unfoldable pub meta_number : MetaKey → Index → ℕ
unfolding get_meta
meta_number key ix = elim (get_meta key ix) [ none ↦ 0 | some value ↦ number_of value ]

unfoldable pub last_delivered_id : Index → ℕ
unfolding meta_number
last_delivered_id ix = meta_number last_id_key ix

-- Number.MAX_SAFE_INTEGER
abbrev pub max_safe_integer : ℕ
max_safe_integer = 2 ^ 53 - 1

unfoldable pub last_delivered_id_if_enabled :
    {Body : Type 0} → Platform Body → WebhookEnv → Index → ℕ
last_delivered_id_if_enabled platform env ix = elim (load_webhook_config platform env) [
  | disabled ↦ max_safe_integer
  | invalid e ↦ max_safe_integer
  | loaded config ↦ last_delivered_id ix
]
