-- ===== src/Server/Gate/Keyed.antt =====
-- Who may write through the gate of packages/backend/src/server.ts.
use mathlib.Core.Option
use taop_protocol.Prelude.{
  ◌≡◌, refl, sym, ◌∙◌, ap, ◌⊎◌, inl, inr, true, false, [], ◌∷◌, Text, Option, none, some, text_eq,
  text_beq_iff, arith, ℕ,
}
use taop_protocol.Index.Alerts.{Number}
use taop_protocol.Webhooks.Config.{or_null, trimmed}
use taop_protocol.Server.Gate.{
  ServerEnv, Settings, ApiRequest, Limits, next, start_server, load_settings, is_loopback_host,
  is_unset, is_write_request, is_open_path, gate, require_api_key, check_api_key, check_key,
}

or_null-cases :
    (s : Text) → (or_null s ≡ none) ⊎ ((c : ℕ) × (cs : Text) × (or_null s ≡ some (c ∷ cs)))
or_null-cases [] = inl refl
or_null-cases (c ∷ cs) = inr (c, cs, refl)

-- A server that starts is bound to this host or has a key, which is not empty.
start_server-settings :
    (number_of_text : Text → Number) (env : ServerEnv) (settings : Settings)
    → start_server number_of_text env ≡ some settings
    → (is_loopback_host settings.host ≡ true) ⊎ (is_unset settings.api_key ≡ false)
unfolding start_server
start_server-settings number_of_text env settings h = ground (arith, h)

start_server-loaded :
    (number_of_text : Text → Number) (env : ServerEnv) (settings : Settings)
    → start_server number_of_text env ≡ some settings
    → load_settings number_of_text env ≡ settings
unfolding start_server
start_server-loaded number_of_text env settings h = ground (arith, h)

check_key-next :
    (key : Text) (provided : Option Text)
    → check_key key provided ≡ next
    → Option.get_or provided [] ≡ key
check_key-next key provided h = ground (arith, text_beq_iff (Option.get_or provided []) key)

gate-require_api_key :
    (settings : Settings) (limits : Limits) (req : ApiRequest)
    → gate settings limits req ≡ next
    → is_write_request req.method ≡ true
    → is_open_path req.path ≡ false
    → (settings.writes_disabled ≡ false) × (check_api_key settings.api_key req.key_header ≡ next)
unfolding gate require_api_key
gate-require_api_key settings limits req h w o = ground (arith, h, w, o)

provided_key :
    (c : ℕ) (cs : Text) (provided : Option Text)
    → Option.get_or provided [] ≡ c ∷ cs
    → provided ≡ some (c ∷ cs)
provided_key c cs none h = absurd (cc)
provided_key c cs (some key) h = ap some h

load_settings-api_key :
    (number_of_text : Text → Number) (env : ServerEnv)
    → (load_settings number_of_text env).api_key ≡ or_null (trimmed env.api_key)
unfolding load_settings
load_settings-api_key number_of_text env = refl

-- Where the server starts at all, a request other than GET, HEAD or OPTIONS that passes the gate,
-- to a path other than the monitoring ones, finds writes enabled; and either the server is bound to
-- a loopback host and has no key, or the request carries exactly the server's key, which is not
-- empty.
pub start_server-gate :
    (number_of_text : Text → Number) (env : ServerEnv) (settings : Settings) (limits : Limits)
    (req : ApiRequest)
    → start_server number_of_text env ≡ some settings
    → is_write_request req.method ≡ true
    → is_open_path req.path ≡ false
    → gate settings limits req ≡ next
    → (settings.writes_disabled ≡ false)
      × ((is_loopback_host settings.host ≡ true) × (settings.api_key ≡ none)
          ⊎ ((c : ℕ) × (cs : Text) × (settings.api_key ≡ some (c ∷ cs))
              × (req.key_header ≡ some (c ∷ cs))))
start_server-gate number_of_text env settings limits req started w o passes =
    let g = gate-require_api_key settings limits req passes w o in
    let key : settings.api_key ≡ or_null (trimmed env.api_key) =
      rw (sym (start_server-loaded number_of_text env settings started))
        (load_settings-api_key number_of_text env) in
    (
      g.0,
      elim (or_null-cases (trimmed env.api_key)) [
        | inl e ↦
            let bound = start_server-settings number_of_text env settings started in
            inl (ground (arith, bound, key, e), key ∙ e)
        | inr (c, cs, e) ↦
            let checked : check_key (c ∷ cs) req.key_header ≡ next = rw (key ∙ e) at g.1 in
            inr (
              c,
              cs,
              key ∙ e,
              provided_key c cs req.key_header (check_key-next (c ∷ cs) req.key_header checked),
            )
      ],
    )
