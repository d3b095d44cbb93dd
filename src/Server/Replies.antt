-- ===== src/Server/Replies.antt =====
-- The replies of packages/backend/src/server.ts, and how it reads a request's body and maps the
-- messages of errors to statuses.
use taop_protocol.Prelude.{
  ℕ, Bool, true, false, not, ◌||◌, List, [], ◌∷◌, Text, text, String, Option, none, some,
  if◌then◌else◌, nat_beq,
}
use taop_protocol.Prelude.Int.{pos}
use taop_protocol.Index.Alerts.{Number, finite, not_finite}
use taop_protocol.Indexer.{Result, ok, err}
use taop_protocol.Webhooks.Hosts.{starts_with}

-- A value of a JSON object; `decimal` is `toString` of a bigint.
pub data Value : Type 0 where
  null : Value
  decimal : ℕ → Value
  boolean : Bool → Value
  string : Text → Value
  -- a text that the source writes out
  literal : String → Value
  -- the text that an action is scheduled with a delay of so many seconds
  scheduled_after : ℕ → Value

pub record Reply : Type 0 where
  pub status : ℕ
  pub body : List (String × Value)

abbrev pub json : List (String × Value) → Reply
json body = record { status = 200; body = body }

abbrev pub refusal : ℕ → Value → Reply
refusal status message = record { status = status; body = ("error", message) ∷ [] }

-- `hash ?? null`
abbrev pub or_null_value : Option Text → Value
or_null_value none = null
or_null_value (some hash) = string hash

-- msg.includes(part)
unfoldable pub includes : Text → Text → Bool
includes part [] = starts_with part []
includes part (c ∷ cs) = starts_with part (c ∷ cs) || includes part cs

-- The messages of errors that a contract's revert causes, as the routes on completions test them.
unfoldable pub is_revert : Text → Bool
unfolding includes
is_revert message =
    includes (text "missing revert data") message
    || includes (text "CALL_EXCEPTION") message
    || includes (text "revert") message

unfoldable pub failure : Text → Reply
unfolding is_revert includes
failure message =
    if is_revert message || includes (text "nonce") message
    then refusal 400 (string message)
    else refusal 500 (string message)

-- The routes of the administrator.
unfoldable pub admin_failure : Text → Reply
unfolding includes
admin_failure message =
    if includes (text "revert") message || includes (text "CALL_EXCEPTION") message
    then refusal 400 (string message)
    else refusal 500 (string message)

-- A route that only reports its error.
unfoldable pub server_failure : Text → Reply
server_failure message = refusal 500 (string message)

-- A field of the body; `absent` is undefined or null.
pub data BodyValue : Type 0 where
  absent : BodyValue
  flag : Bool → BodyValue
  words : Text → BodyValue
  amount : Number → BodyValue
  nested : BodyValue

-- Boolean(value)
unfoldable pub is_truthy : BodyValue → Bool
is_truthy absent = false
is_truthy (flag b) = b
is_truthy (words []) = false
is_truthy (words (c ∷ cs)) = true
is_truthy (amount not_finite) = true
is_truthy (amount (finite (pos n) false)) = not (nat_beq n 0)
is_truthy (amount (finite n fraction)) = true
is_truthy nested = true

-- String(value ?? fallback); `text_of` is String of a value that is no text.
unfoldable pub text_or : (BodyValue → Text) → BodyValue → Text → Text
text_or text_of absent fallback = fallback
text_or text_of (words value) fallback = value
text_or text_of value fallback = text_of value

-- Number(value ?? 0), where it is an integer that is not negative.
unfoldable pub whole_number : (BodyValue → Number) → BodyValue → Option ℕ
whole_number number_of absent = some 0
whole_number number_of value = elim (number_of value) [
  | not_finite ↦ none
  | finite n fraction ↦ elim n [ pos m ↦ if fraction then none else some m | _ ↦ none ]
]

-- What a route leaves where it throws: the last error handler answers.
abbrev pub settle : {S : Type 0} → Result Reply × S → Reply × S
settle (ok reply, s) = (reply, s)
settle (err e, s) = (refusal 500 (literal "Internal server error"), s)
