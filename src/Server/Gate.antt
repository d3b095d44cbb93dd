-- ===== src/Server/Gate.antt =====
-- What packages/backend/src/server.ts decides before a route runs: the settings it starts with, the
-- rate limits, the key, and the path parameters. The counters of express-rate-limit, `Number` of a
-- text and `ethers.isAddress` are parameters.
pub mod Keyed
pub mod Queries
use taop_protocol.Prelude.{
  ℕ, ◌^◌, ◌-◌, Bool, true, false, not, ◌&&◌, ◌||◌, List, [], ◌∷◌, Text, text, Option, none, some,
  ◌==◌, text_eq, leb, ltb, nat_beq, if◌then◌else◌, length, min, max,
}
use mathlib.Core.Option
use taop_protocol.Prelude.Int.{ℤ, pos, negsuc}
use taop_protocol.Index.Alerts.{Number, finite, not_finite}
use taop_protocol.Webhooks.Config.{trimmed, or_null}
use taop_protocol.Webhooks.Hosts.{starts_with}

-- The environment variables, unset or set to a text.
pub record ServerEnv : Type 0 where
  pub host : Option Text
  pub port : Option Text
  pub api_key : Option Text
  pub read_only : Option Text

pub record Settings : Type 0 where
  pub host : Text
  pub port : ℕ
  pub api_key : Option Text
  pub writes_disabled : Bool

-- `n >= 1 && n <= 65535 ? Math.floor(n) : 4000`; with a fraction, 65535 is exceeded.
unfoldable pub port_of : Number → ℕ
port_of not_finite = 4000
port_of (finite (negsuc n) fraction) = 4000
port_of (finite (pos n) fraction) =
    if leb 1 n && (ltb n 65535 || nat_beq n 65535 && not fraction) then n else 4000

unfoldable pub is_loopback_host : Text → Bool
is_loopback_host host =
    (host == text "127.0.0.1")
    || (host == text "localhost")
    || (host == text "::1")
    || (host == text "0:0:0:0:0:0:0:1")

unfoldable pub load_settings : (Text → Number) → ServerEnv → Settings
unfolding port_of
load_settings number_of_text env = record {
  host = Option.get_or env.host (text "127.0.0.1");
  port = port_of (number_of_text (Option.get_or env.port (text "4000")));
  api_key = or_null (trimmed env.api_key);
  writes_disabled = Option.get_or env.read_only [] == text "true";
}

abbrev pub is_unset : Option Text → Bool
is_unset none = true
is_unset (some value) = false

-- The settings that the process starts with; none where it exits with status 1.
unfoldable pub start_server : (Text → Number) → ServerEnv → Option Settings
unfolding load_settings is_loopback_host
start_server number_of_text env =
    let settings = load_settings number_of_text env in
    if not (is_loopback_host settings.host) && is_unset settings.api_key
    then none
    else some settings

pub record ApiRequest : Type 0 where
  pub method : Text
  pub path : Text
  pub key_header : Option Text

unfoldable pub is_write_request : Text → Bool
is_write_request method =
    not ((method == text "GET") || (method == text "HEAD") || (method == text "OPTIONS"))

-- Paths that stay reachable.
unfoldable pub is_open_path : Text → Bool
is_open_path path =
    (path == text "/healthz") || starts_with (text "/docs") path || (path == text "/openapi.json")

-- Whether a request goes on, or the status that it ends with.
pub data Verdict : Type 0 where
  next : Verdict
  rejected : ℕ → Verdict

-- `timingSafeEqual` after the test of the lengths is equality of the bytes.
abbrev pub check_key : Text → Option Text → Verdict
check_key key provided = if Option.get_or provided [] == key then next else rejected 401

abbrev pub check_api_key : Option Text → Option Text → Verdict
check_api_key none provided = next
check_api_key (some key) provided = check_key key provided

unfoldable pub require_api_key : Settings → ApiRequest → Verdict
unfolding is_write_request is_open_path
require_api_key settings req =
    if not (is_write_request req.method)
    then next
    else if is_open_path req.path
    then next
    else if settings.writes_disabled
    then rejected 503
    else check_api_key settings.api_key req.key_header

-- What the counters of the two limiters answer: whether the caller is over the limit.
pub record Limits : Type 0 where
  pub read_exceeded : Bool
  pub write_exceeded : Bool

-- The middlewares of the router, in order; the write limiter skips reads.
unfoldable pub gate : Settings → Limits → ApiRequest → Verdict
unfolding require_api_key is_write_request
gate settings limits req =
    if limits.read_exceeded
    then rejected 429
    else if is_write_request req.method && limits.write_exceeded
    then rejected 429
    else require_api_key settings req

abbrev pub is_digit : ℕ → Bool
is_digit c = leb b'0' c && leb c b'9'

unfoldable pub all_digits : Text → Bool
all_digits [] = true
all_digits (c ∷ cs) = is_digit c && all_digits cs

-- /^\d+$/ and at most 78 characters
unfoldable pub check_id : Text → Verdict
unfolding all_digits
check_id [] = rejected 400
check_id (c ∷ cs) =
    if not (all_digits (c ∷ cs)) || ltb 78 (length (c ∷ cs)) then rejected 400 else next

unfoldable pub check_address : (Text → Bool) → Text → Verdict
check_address is_address address = if is_address address then next else rejected 400

-- A value of the query string.
pub data QueryValue : Type 0 where
  absent : QueryValue
  single : Text → QueryValue
  -- a list or an object
  nested : QueryValue

abbrev pub clamp_query : ℕ → ℕ → ℕ → Number → ℕ
clamp_query fallback least most not_finite = fallback
clamp_query fallback least most (finite (pos n) fraction) = min (max n least) most
clamp_query fallback least most (finite (negsuc n) fraction) = min least most

unfoldable pub int_query : (Text → Number) → QueryValue → ℕ → ℕ → ℕ → ℕ
int_query number_of_text absent fallback least most = fallback
int_query number_of_text nested fallback least most = fallback
int_query number_of_text (single value) fallback least most =
    clamp_query fallback least most (number_of_text value)

-- The errors that reach the last handler.
pub data RequestError : Type 0 where
  parse_failed too_large unexpected : RequestError

-- The status; none where the headers are sent already, and Express ends the connection.
unfoldable pub request_error_handler : Bool → RequestError → Option ℕ
request_error_handler true e = none
request_error_handler false parse_failed = some 400
request_error_handler false too_large = some 413
request_error_handler false unexpected = some 500
