-- ===== src/Webhooks/Hosts.antt =====
-- `isPrivateHost` and `mappedIpv4` of packages/backend/src/webhooks.ts, over the character codes of
-- a host name. A regular expression is written out as the walk that it stands for.
pub mod Recursion
pub mod Dotted
pub mod Mapped
use taop_protocol.Prelude.{
  ℕ, zero, suc, ◌+◌, ◌-◌, ◌*◌, ◌/◌, ◌%◌, Bool, true, false, ◌&&◌, ◌||◌, List, [], ◌∷◌, ◌++◌, Text,
  text, Option, none, some, ◌==◌, leb, ltb, nat_beq, if◌then◌else◌, to_lower, length, text_eq,
}
use mathlib.Core.List.{reverse}

-- host.startsWith(prefix), with what follows.
unfoldable pub after_prefix : Text → Text → Option Text
after_prefix [] s = some s
after_prefix (c ∷ cs) [] = none
after_prefix (c ∷ cs) (d ∷ ds) = if nat_beq c d then after_prefix cs ds else none

abbrev pub starts_with : Text → Text → Bool
starts_with prefix s = elim (after_prefix prefix s) [ none ↦ false | some rest ↦ true ]

abbrev pub ends_with : Text → Text → Bool
ends_with suffix s = starts_with (reverse suffix) (reverse s)

unfoldable pub drop_open : Text → Text
drop_open [] = []
drop_open (c ∷ cs) = if nat_beq c b'[' then cs else c ∷ cs

unfoldable pub drop_close : Text → Text
drop_close [] = []
drop_close (c ∷ cs) = if nat_beq c b']' then cs else c ∷ cs

-- .replace(/^\[|\]$/g, "")
unfoldable pub strip_brackets : Text → Text
unfolding drop_open drop_close
strip_brackets s = reverse (drop_close (reverse (drop_open s)))

-- A character put before the parts, a separator or another.
abbrev pub add_char : Bool → ℕ → List Text → List Text
add_char is_sep c [] = []
add_char true c (part ∷ parts) = [] ∷ part ∷ parts
add_char false c (part ∷ parts) = (c ∷ part) ∷ parts

-- The parts between the separators.
unfoldable pub split_on : ℕ → Text → List Text
split_on sep [] = [] ∷ []
split_on sep (c ∷ cs) = add_char (nat_beq c sep) c (split_on sep cs)

-- The value of a digit of [0-9].
unfoldable pub decimal_digit : ℕ → Option ℕ
decimal_digit c = if leb b'0' c && leb c b'9' then some (c - b'0') else none

-- Of [0-9a-f].
unfoldable pub hex_digit : ℕ → Option ℕ
unfolding decimal_digit
hex_digit c = if leb b'a' c && leb c b'f' then some (c - b'a' + 10) else decimal_digit c

-- The number that digits of a base stand for, none at any other character.
unfoldable pub digits_value : ℕ → (ℕ → Option ℕ) → ℕ → Text → Option ℕ
digits_value base digit acc [] = some acc
digits_value base digit acc (c ∷ cs) = elim (digit c) [
  | none ↦ none
  | some d ↦ digits_value base digit (acc * base + d) cs
]

-- 1 to `most` digits.
unfoldable pub bounded_number : ℕ → (ℕ → Option ℕ) → ℕ → Text → Option ℕ
unfolding digits_value
bounded_number base digit most [] = none
bounded_number base digit most (c ∷ cs) =
    if leb (length (c ∷ cs)) most then digits_value base digit 0 (c ∷ cs) else none

abbrev pub octet : Text → Option ℕ
octet = bounded_number 10 decimal_digit 3

abbrev pub all_octets : Option ℕ → Option ℕ → Option ℕ → Option ℕ → Option (ℕ × ℕ)
all_octets (some a) (some b) (some c) (some d) = some (a, b)
all_octets _ _ _ _ = none

abbrev pub octets : List Text → Option (ℕ × ℕ)
octets (a ∷ b ∷ c ∷ d ∷ []) = all_octets (octet a) (octet b) (octet c) (octet d)
octets _ = none

-- The first two octets where `host` matches ^(\d{1,3})\.(\d{1,3})\.(\d{1,3})\.(\d{1,3})$
unfoldable pub match_ipv4 : Text → Option (ℕ × ℕ)
match_ipv4 host = octets (split_on b'.' host)

-- String(n) of a number below 1000.
unfoldable pub byte_text : ℕ → Text
byte_text n =
    if ltb n 10
    then (b'0' + n) ∷ []
    else if ltb n 100
    then (b'0' + n / 10) ∷ (b'0' + n % 10) ∷ []
    else (b'0' + n / 100) ∷ (b'0' + n / 10 % 10) ∷ (b'0' + n % 10) ∷ []

-- `${a}.${b}.${c}.${d}`
unfoldable pub dotted : ℕ → ℕ → ℕ → ℕ → Text
unfolding byte_text
dotted a b c d = byte_text a ++ b'.' ∷ (byte_text b ++ b'.' ∷ (byte_text c ++ b'.' ∷ byte_text d))

-- `::ffff:`
abbrev pub mapped_prefix : Text
mapped_prefix = text "::ffff:"

abbrev pub group : Text → Option ℕ
group = bounded_number 16 hex_digit 4

abbrev pub both_groups : Option ℕ → Option ℕ → Option Text
both_groups (some hi) (some lo) =
    some (dotted (hi / 256 % 256) (hi % 256) (lo / 256 % 256) (lo % 256))
both_groups _ _ = none

abbrev pub groups : List Text → Option Text
groups (hi ∷ lo ∷ []) = both_groups (group hi) (group lo)
groups _ = none

unfoldable pub mapped_ipv4 : Text → Option Text
mapped_ipv4 host = elim (after_prefix mapped_prefix host) [
  | none ↦ none
  | some rest ↦ groups (split_on b':' rest)
]

-- The tests on the first two octets.
unfoldable pub is_private_ipv4 : ℕ → ℕ → Bool
is_private_ipv4 a b =
    if nat_beq a 0 || nat_beq a 127 || nat_beq a 10
    then true
    else if nat_beq a 169 && nat_beq b 254
    then true
    else if nat_beq a 172 && leb 16 b && leb b 31
    then true
    else if nat_beq a 192 && nat_beq b 168
    then true
    else false

abbrev is_hex : ℕ → Bool
is_hex c = elim (hex_digit c) [ none ↦ false | some d ↦ true ]

-- /^f[cd][0-9a-f]{2}:/
unfoldable pub is_unique_local : Text → Bool
unfolding hex_digit
is_unique_local (f ∷ x ∷ y ∷ z ∷ colon ∷ _) =
    nat_beq f b'f'
    && (nat_beq x b'c' || nat_beq x b'd')
    && is_hex y
    && is_hex z
    && nat_beq colon b':'
is_unique_local _ = false

-- /^fe[89ab][0-9a-f]:/
unfoldable pub is_link_local : Text → Bool
unfolding hex_digit
is_link_local (f ∷ e ∷ x ∷ y ∷ colon ∷ _) =
    nat_beq f b'f'
    && nat_beq e b'e'
    && (nat_beq x b'8' || nat_beq x b'9' || nat_beq x b'a' || nat_beq x b'b')
    && is_hex y
    && nat_beq colon b':'
is_link_local _ = false

-- The names and addresses that are private by their spelling alone.
unfoldable pub is_local_name : Text → Bool
is_local_name host =
    (host == text "localhost")
    || ends_with (text ".localhost") host
    || ends_with (text ".local") host
    || (host == text "0.0.0.0")
    || (host == text "::")
    || (host == text "::1")

-- `mappedIpv4(host) ?? host.slice("::ffff:".length)`
abbrev pub or_else : Option Text → Text → Text
or_else none s = s
or_else (some t) s = t

-- What the function answers once the host is known not to begin with `::ffff:`.
unfoldable pub is_private_address : Text → Bool
is_private_address host = elim (match_ipv4 host) [
  | some (a, b) ↦ is_private_ipv4 a b
  | none ↦ if is_unique_local host then true else is_link_local host
]

-- `host.toLowerCase().replace(…)`
abbrev pub normal_host : Text → Text
normal_host hostname = strip_brackets (to_lower hostname)

-- The recursion on `::ffff:`, on fuel: none where it runs out.
unfoldable pub private_host_within : ℕ → Text → Option Bool
private_host_within zero hostname = none
private_host_within (suc fuel) hostname =
    let host = normal_host hostname in
    elim (is_local_name host) [
      | true ↦ some true
      | false ↦ elim (after_prefix mapped_prefix host) [
        | some rest ↦ private_host_within fuel (or_else (mapped_ipv4 host) rest)
        | none ↦ some (is_private_address host)
      ]
    ]

abbrev pub or_false : Option Bool → Bool
or_false none = false
or_false (some b) = b

unfoldable pub is_private_host : Text → Bool
unfolding private_host_within
is_private_host hostname = or_false (private_host_within (length hostname + 2) hostname)
