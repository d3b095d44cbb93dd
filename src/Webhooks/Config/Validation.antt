-- ===== src/Webhooks/Config/Validation.antt =====
-- Which target the dispatcher may be configured with.
use taop_protocol.Prelude.{
  ◌≡◌, ◌⊎◌, inl, inr, refl, ◌∙◌, true, false, [], Text, text, some, arith, text_eq, ◌∷◌, Bool-cases,
  Option-cases,
}
use taop_protocol.Webhooks.{Url, WebhookEnv, Platform, WebhookConfig}
use taop_protocol.Webhooks.Hosts.{is_private_host}
use taop_protocol.Webhooks.Config.{
  UrlError, Validated, accepted, refused, is_true, is_empty, trimmed, validate_url,
  validate_webhook_url, loaded, load_webhook_config,
}

-- What an accepted target is, against the environment's two permissions.
pub record IsChecked (env : WebhookEnv) (url : Url) : Type 0 where
  pub web : (url.protocol ≡ text "http:") ⊎ (url.protocol ≡ text "https:")
  pub anonymous : (url.username ≡ []) × (url.password ≡ [])
  pub reachable : (is_private_host url.hostname ≡ false) ⊎ (is_true env.allow_private ≡ true)
  pub encrypted :
      (url.protocol ≡ text "https:")
      ⊎ (is_private_host url.hostname ≡ true)
      ⊎ (is_true env.allow_http ≡ true)

is_empty-nil : (s : Text) → is_empty s ≡ true → s ≡ []
is_empty-nil [] h = refl
is_empty-nil (x ∷ s) h = absurd (cc)

validate_url-IsChecked :
    (env : WebhookEnv) (url : Url) (href : Text)
    → validate_url url env ≡ accepted href
    → IsChecked env url × (url.href ≡ href)
unfolding validate_url
validate_url-IsChecked env url href h = (
  record {
    web = ground (
      arith,
      text_eq.equal_iff url.protocol (text "http:"),
      text_eq.equal_iff url.protocol (text "https:"),
    );
    anonymous = (
      is_empty-nil url.username (ground (arith, h)),
      is_empty-nil url.password (ground (arith, h)),
    );
    reachable = ground (arith, h);
    encrypted = ground (
      arith,
      h,
      text_eq.equal_iff url.protocol (text "http:"),
      text_eq.equal_iff url.protocol (text "https:"),
    );
  },
  ground (arith, h),
)

Validated-cases :
    (v : Validated) → ((e : UrlError) × (v ≡ refused e)) ⊎ ((href : Text) × (v ≡ accepted href))
Validated-cases (refused e) = inl (e, refl)
Validated-cases (accepted href) = inr (href, refl)

module _ {Body : Type 0} (platform : Platform Body) (env : WebhookEnv) where
  validate_webhook_url-IsChecked :
      (raw href : Text)
      → validate_webhook_url platform raw env ≡ accepted href
      → (url : Url) × (platform.parse_url raw ≡ some url) × IsChecked env url × (url.href ≡ href)
  unfolding validate_webhook_url
  validate_webhook_url-IsChecked raw href h = elim (Option-cases (platform.parse_url raw)) [
    | inl e ↦ absurd (ground (arith, e, h))
    | inr (url, e) ↦
        let v = validate_url-IsChecked env url href (rw (e, validate_webhook_url) at h) in
        (url, e, v.0, v.1)
  ]

  -- The URL of a configuration that loads is what an http or https URL without credentials prints as,
  -- to which the environment's URL parses. Its host is not one that isPrivateHost takes for private,
  -- unless private targets are allowed; and it is https, unless its host is one of these or plaintext
  -- is allowed. (The names that isPrivateHost misses, as "localhost.", are not ruled out.)
  pub load_webhook_config-IsChecked :
      (config : WebhookConfig)
      → load_webhook_config platform env ≡ loaded config
      → (url : Url) × (platform.parse_url (trimmed env.url) ≡ some url)
        × IsChecked env url
        × (url.href ≡ config.url)
  unfolding load_webhook_config
  load_webhook_config-IsChecked config h = elim (Bool-cases (is_empty (trimmed env.url))) [
    | inl e ↦ absurd (ground (arith, e, h))
    | inr e ↦ elim (Validated-cases (validate_webhook_url platform (trimmed env.url) env)) [
      | inl (r, v) ↦ absurd (ground (arith, e, v, h))
      | inr (href, v) ↦
          let (url, parsed, safe, same) = validate_webhook_url-IsChecked (trimmed env.url) href v in
          (url, parsed, safe, same ∙ ground (arith, e, v, h))
    ]
  ]
