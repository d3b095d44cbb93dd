-- ===== src/Webhooks/Hosts/Dotted.antt =====
-- The host check of packages/backend/src/webhooks.ts on dotted IPv4 addresses.
use taop_protocol.Prelude.{
  ℕ, ◌+◌, ◌*◌, ◌/◌, ◌%◌, ◌≤◌, ◌<◌, ◌≡◌, refl, sym, ap, ◌∙◌, Bool, true, false, List, [], ◌∷◌, ◌++◌,
  Text, text, Option, none, some, arith, ltb, nat_beq, All, to_lower, to_lower-cons, Bool-cases,
  inl, inr, ◌==◌, text_eq, text_beq,
}
use mathlib.Core.Option.{some-injective}
use mathlib.Core.List.{reverse, reverse-reverse, reverse-cons}
use taop_protocol.Webhooks.Hosts.{
  after_prefix, mapped_prefix, drop_open, drop_close, strip_brackets, split_on, decimal_digit,
  digits_value, bounded_number, octet, match_ipv4, byte_text, dotted, is_private_ipv4,
  is_local_name, is_private_address, normal_host, is_private_host, ends_with,
}
use taop_protocol.Webhooks.Hosts.Recursion.{is_private_host_rec}

digit-some : (n : ℕ) → n < 10 → decimal_digit (48 + n) ≡ some n
unfolding decimal_digit
digit-some n h = ground arith

digits_value-digit :
    (acc n : ℕ) (cs : Text)
    → n < 10
    → digits_value 10 decimal_digit acc ((48 + n) ∷ cs)
      ≡ digits_value 10 decimal_digit (acc * 10 + n) cs
unfolding digits_value
digits_value-digit acc n cs h = rw (digit-some n h, digits_value) refl

digits_value-end : (acc : ℕ) → digits_value 10 decimal_digit acc [] ≡ some acc
unfolding digits_value
digits_value-end acc = refl

-- Parsing what was printed.
octet-byte_text : (n : ℕ) → n < 256 → octet (byte_text n) ≡ some n
unfolding byte_text bounded_number
octet-byte_text n h = elim (Bool-cases (ltb n 10)) [
  | inl e ↦
      rw e (digits_value-digit 0 n [] (ground arith) ∙ digits_value-end _ ∙ ap some (omega arith))
  | inr e ↦ rw e (elim (Bool-cases (ltb n 100)) [
    | inl f ↦ rw f (
        digits_value-digit 0 (n / 10) ((48 + n % 10) ∷ []) (ground arith)
        ∙ digits_value-digit (0 * 10 + n / 10) (n % 10) [] (omega arith)
        ∙ digits_value-end _
        ∙ ap some (omega arith))
    | inr f ↦ rw f (
        digits_value-digit 0 (n / 100) ((48 + n / 10 % 10) ∷ (48 + n % 10) ∷ []) (ground arith)
        ∙ digits_value-digit (0 * 10 + n / 100) (n / 10 % 10) ((48 + n % 10) ∷ []) (omega arith)
        ∙ digits_value-digit ((0 * 10 + n / 100) * 10 + n / 10 % 10) (n % 10) [] (omega arith)
        ∙ digits_value-end _
        ∙ ap some (omega arith))
  ])
]

-- A text of digits alone, and one of digits and dots.
abbrev IsDigits : Text → Type 0
IsDigits = All (λ c. (48 ≤ c) × (c ≤ 57))

byte_text-IsDigits : (n : ℕ) → n < 256 → IsDigits (byte_text n)
unfolding byte_text
byte_text-IsDigits n h = elim (Bool-cases (ltb n 10)) [
  | inl e ↦ rw e ((omega arith, ground arith), tt)
  | inr e ↦ rw e (elim (Bool-cases (ltb n 100)) [
    | inl f ↦ rw f ((omega arith, ground arith), ((omega arith, omega arith), tt))
    | inr f ↦ rw f (
      (omega arith, ground arith),
      ((omega arith, omega arith), ((omega arith, omega arith), tt)),
    )
  ])
]

pub split-nonempty : (sep : ℕ) (s : Text) → (h : Text) × (t : List Text) × (split_on sep s ≡ h ∷ t)
unfolding split_on
split-nonempty sep [] = ([], [], refl)
split-nonempty sep (c ∷ cs) =
    let (h, t, e) = split-nonempty sep cs in
    elim (Bool-cases (nat_beq c sep)) [
      | inl q ↦ ([], h ∷ t, rw (e, q) refl)
      | inr q ↦ (c ∷ h, t, rw (e, q) refl)
    ]

split-digits :
    (s rest : Text) → IsDigits s → split_on b'.' (s ++ b'.' ∷ rest) ≡ s ∷ split_on b'.' rest
unfolding split_on
split-digits [] rest h = let (h, t, e) = split-nonempty b'.' rest in rw e refl
split-digits (c ∷ s) rest h =
    let q : nat_beq c b'.' ≡ false = ground (arith, h.0) in rw (q, split-digits s rest h.1) refl

split-last : (s : Text) → IsDigits s → split_on b'.' s ≡ s ∷ []
unfolding split_on
split-last [] h = refl
split-last (c ∷ s) h =
    let q : nat_beq c b'.' ≡ false = ground (arith, h.0) in rw (q, split-last s h.1) refl

match_ipv4-dotted :
    (a b c d : ℕ)
    → a < 256
    → b < 256
    → c < 256
    → d < 256
    → match_ipv4 (dotted a b c d) ≡ some (a, b)
unfolding match_ipv4 dotted
match_ipv4-dotted a b c d p q r s =
    rw
      (
        split-digits (byte_text a) (byte_text b ++ b'.' ∷ (byte_text c ++ b'.' ∷ byte_text d))
            (byte_text-IsDigits a p),
        split-digits (byte_text b) (byte_text c ++ b'.' ∷ byte_text d) (byte_text-IsDigits b q),
        split-digits (byte_text c) (byte_text d) (byte_text-IsDigits c r),
        split-last (byte_text d) (byte_text-IsDigits d s),
        octet-byte_text a p,
        octet-byte_text b q,
        octet-byte_text c r,
        octet-byte_text d s,
      )
      refl

-- A text of digits and dots.
abbrev IsDotted : Text → Type 0
IsDotted = All (λ c. c ≤ 57)

IsDotted-append : (s t : Text) → IsDotted s → IsDotted t → IsDotted (s ++ t)
IsDotted-append [] t h k = k
IsDotted-append (c ∷ s) t h k = (h.0, IsDotted-append s t h.1 k)

IsDotted-reverse : (s : Text) → IsDotted s → IsDotted (reverse s)
IsDotted-reverse [] h = tt
IsDotted-reverse (c ∷ s) h =
    rw (reverse-cons c s) (IsDotted-append (reverse s) (c ∷ []) (IsDotted-reverse s h.1) (h.0, tt))

digits-IsDotted : (s : Text) → IsDigits s → IsDotted s
digits-IsDotted [] h = tt
digits-IsDotted (c ∷ s) h = (h.0.1, digits-IsDotted s h.1)

dotted-IsDotted : (a b c d : ℕ) → a < 256 → b < 256 → c < 256 → d < 256 → IsDotted (dotted a b c d)
unfolding dotted
dotted-IsDotted a b c d p q r s =
    let byte = λ (n : ℕ) (h : n < 256). digits-IsDotted (byte_text n) (byte_text-IsDigits n h) in
    IsDotted-append (byte_text a) _ (byte a p) (
      omega arith,
      IsDotted-append (byte_text b) _ (byte b q)
          (omega arith, IsDotted-append (byte_text c) _ (byte c r) (omega arith, byte d s)),
    )

to_lower-IsDotted : (s : Text) → IsDotted s → to_lower s ≡ s
unfolding to_lower
to_lower-IsDotted [] h = refl
to_lower-IsDotted (c ∷ s) h =
    to_lower-cons c s (omega (arith, h.0)) ∙ ap (◌∷◌ c) (to_lower-IsDotted s h.1)

no_brackets : (s : Text) → IsDotted s → (drop_open s ≡ s) × (drop_close s ≡ s)
unfolding drop_open drop_close
no_brackets [] h = (refl, refl)
no_brackets (c ∷ s) h = (ground (arith, h.0), ground (arith, h.0))

normal_host-IsDotted : (s : Text) → IsDotted s → normal_host s ≡ s
unfolding strip_brackets
normal_host-IsDotted s h =
    rw
      (
        to_lower-IsDotted s h,
        (no_brackets s h).0,
        (no_brackets (reverse s) (IsDotted-reverse s h)).1,
      )
      (reverse-reverse s)

other_prefix : (k : ℕ) (ks s : Text) → 57 < k → IsDotted s → after_prefix (k ∷ ks) s ≡ none
unfolding after_prefix
other_prefix k ks [] p h = refl
other_prefix k ks (c ∷ s) p h = ground (arith, h.0)

other_name : (k : ℕ) (ks s : Text) → 57 < k → IsDotted s → (s == (k ∷ ks)) ≡ false
unfolding text_beq
other_name k ks [] p h = refl
other_name k ks (c ∷ s) p h = ground (arith, h.0)

abbrev found : Option Text → Bool
found o = elim o [ none ↦ false | some rest ↦ true ]

-- Of the local names only 0.0.0.0 is written in digits and dots.
local_dotted : (s : Text) → IsDotted s → is_local_name s ≡ (s == text "0.0.0.0")
unfolding is_local_name
local_dotted s h =
    let localhost : (s == text "localhost") ≡ false =
      other_name b'l' (text "ocalhost") s (omega arith) h in
    let unspecified : (s == text "::") ≡ false = other_name b':' (text ":") s (omega arith) h in
    let loopback : (s == text "::1") ≡ false = other_name b':' (text ":1") s (omega arith) h in
    let below : ends_with (text ".localhost") s ≡ false =
      ap found
        (other_prefix b't' (text "sohlacol.") (reverse s) (omega arith) (IsDotted-reverse s h)) in
    let mdns : ends_with (text ".local") s ≡ false =
      ap found
        (other_prefix b'l' (text "acol.") (reverse s) (omega arith) (IsDotted-reverse s h)) in
    ground (arith, localhost, unspecified, loopback, below, mdns)

zeros : match_ipv4 (text "0.0.0.0") ≡ some (0, 0)
unfolding match_ipv4 split_on bounded_number digits_value decimal_digit
zeros = refl

private_zeros : (p : ℕ × ℕ) → some p ≡ some (0, 0) → is_private_ipv4 p.0 p.1 ≡ true
unfolding is_private_ipv4
private_zeros p e = let same : p.0 ≡ 0 = ap (λ q. q.0) (some-injective p (0, 0) e) in rw same refl

address :
    (s : Text) (a b : ℕ) → match_ipv4 s ≡ some (a, b) → is_private_address s ≡ is_private_ipv4 a b
unfolding is_private_address
address s a b e = rw (e, is_private_address) refl

-- The host check on a dotted IPv4 address is the test on its first two octets: the address that is
-- printed is parsed back, and no other rule of the check takes it.
pub is_private_host-dotted :
    (a b c d : ℕ)
    → a < 256
    → b < 256
    → c < 256
    → d < 256
    → is_private_host (dotted a b c d) ≡ is_private_ipv4 a b
is_private_host-dotted a b c d p q r s =
    let host = dotted a b c d in
    let v = dotted-IsDotted a b c d p q r s in
    let parsed = match_ipv4-dotted a b c d p q r s in
    is_private_host_rec host
    ∙ (rw (normal_host-IsDotted host v, local_dotted host v)
        (elim (Bool-cases (host == text "0.0.0.0")) [
          | inl e ↦ rw e (
              sym (
                private_zeros (a, b)
                  (sym parsed
                    ∙ ap match_ipv4 ((text_eq.equal_iff host (text "0.0.0.0")).0 e)
                    ∙ zeros)))
          | inr e ↦
              let plain : after_prefix mapped_prefix host ≡ none =
                other_prefix b':' (text ":ffff:") host (omega arith) v in
              rw (e, normal_host-IsDotted host v, plain)
                (ap is_private_address (normal_host-IsDotted host v) ∙ address host a b parsed)
        ]))
