-- ===== src/Webhooks/Hosts/Mapped.antt =====
-- The host check of packages/backend/src/webhooks.ts on IPv4 addresses that are written as IPv6 ones.
use mathlib.Core.List.{reverse, reverse-append, reverse-reverse, reverse-cons}
use taop_protocol.Prelude.{
  ℕ, ◌+◌, ◌*◌, ◌/◌, ◌%◌, ◌≤◌, ◌<◌, ◌≡◌, ◌⊎◌, refl, ap, ◌∙◌, Bool, true, false, [], ◌∷◌, ◌++◌, Text,
  text, Option, none, some, arith, ltb, nat_beq, All, to_lower, to_lower-cons, to_lower-cons_above,
  Bool-cases, inl, inr, if◌then◌else◌, text_beq, text_eq,
}
use taop_protocol.Webhooks.Hosts.{
  after_prefix, mapped_prefix, drop_open, drop_close, strip_brackets, split_on, decimal_digit,
  hex_digit, digits_value, bounded_number, group, mapped_ipv4, dotted, is_private_ipv4,
  is_local_name, normal_host, is_private_host, ends_with,
}
use taop_protocol.Webhooks.Hosts.Recursion.{is_private_host_rec}
use taop_protocol.Webhooks.Hosts.Dotted.{is_private_host-dotted, split-nonempty}

-- A digit and a number below 2^16 in hexadecimal, without leading zeros, as URL.hostname prints them.
abbrev pub hex_char : ℕ → ℕ
hex_char d = if ltb d 10 then 48 + d else 87 + d

abbrev pub hex_group : ℕ → Text
hex_group n =
    if ltb n 16
    then hex_char n ∷ []
    else if ltb n 256
    then hex_char (n / 16) ∷ hex_char (n % 16) ∷ []
    else if ltb n 4096
    then hex_char (n / 256) ∷ hex_char (n / 16 % 16) ∷ hex_char (n % 16) ∷ []
    else hex_char (n / 4096)
      ∷ hex_char (n / 256 % 16)
      ∷ hex_char (n / 16 % 16)
      ∷ hex_char (n % 16)
      ∷ []

-- What follows `::ffff:`, and the host name in its brackets.
abbrev hex_groups : ℕ → ℕ → Text
hex_groups hi lo = hex_group hi ++ b':' ∷ hex_group lo

abbrev pub mapped_host : ℕ → ℕ → Text
mapped_host hi lo = b'[' ∷ ((mapped_prefix ++ hex_groups hi lo) ++ b']' ∷ [])

digit-hex : (d : ℕ) → d < 16 → hex_digit (hex_char d) ≡ some d
unfolding hex_digit decimal_digit
digit-hex d h = ground arith

digits_value-hex :
    (acc d : ℕ) (cs : Text)
    → d < 16
    → digits_value 16 hex_digit acc (hex_char d ∷ cs) ≡ digits_value 16 hex_digit (acc * 16 + d) cs
unfolding digits_value
digits_value-hex acc d cs h = rw (digit-hex d h, digits_value) refl

digits_value-end : (acc : ℕ) → digits_value 16 hex_digit acc [] ≡ some acc
unfolding digits_value
digits_value-end acc = refl

-- Parsing what was printed.
group-hex_group : (n : ℕ) → n < 65536 → group (hex_group n) ≡ some n
unfolding bounded_number
group-hex_group n h = elim (Bool-cases (ltb n 16)) [
  | inl e ↦
      rw e (digits_value-hex 0 n [] (ground arith) ∙ digits_value-end _ ∙ ap some (omega arith))
  | inr e ↦ rw e (elim (Bool-cases (ltb n 256)) [
    | inl f ↦ rw f (
        digits_value-hex 0 (n / 16) (hex_char (n % 16) ∷ []) (ground arith)
        ∙ digits_value-hex (0 * 16 + n / 16) (n % 16) [] (omega arith)
        ∙ digits_value-end _
        ∙ ap some (omega arith))
    | inr f ↦ rw f (elim (Bool-cases (ltb n 4096)) [
      | inl g ↦ rw g (
          digits_value-hex 0 (n / 256) (hex_char (n / 16 % 16) ∷ hex_char (n % 16) ∷ [])
            (ground arith)
          ∙ digits_value-hex (0 * 16 + n / 256) (n / 16 % 16) (hex_char (n % 16) ∷ []) (omega arith)
          ∙ digits_value-hex ((0 * 16 + n / 256) * 16 + n / 16 % 16) (n % 16) [] (omega arith)
          ∙ digits_value-end _
          ∙ ap some (omega arith))
      | inr g ↦ rw g (
          digits_value-hex 0 (n / 4096)
            (hex_char (n / 256 % 16) ∷ hex_char (n / 16 % 16) ∷ hex_char (n % 16) ∷ [])
            (omega arith)
          ∙ digits_value-hex (0 * 16 + n / 4096) (n / 256 % 16)
              (hex_char (n / 16 % 16) ∷ hex_char (n % 16) ∷ []) (omega arith)
          ∙ digits_value-hex ((0 * 16 + n / 4096) * 16 + n / 256 % 16) (n / 16 % 16)
              (hex_char (n % 16) ∷ []) (omega arith)
          ∙ digits_value-hex (((0 * 16 + n / 4096) * 16 + n / 256 % 16) * 16 + n / 16 % 16) (n % 16)
              [] (omega arith)
          ∙ digits_value-end _
          ∙ ap some (omega arith))
    ])
  ])
]

-- A character that is no capital letter and no letter behind f, and a hexadecimal digit.
abbrev IsLow : ℕ → Type 0
IsLow c = ((c < 65) ⊎ (90 < c)) × (c ≤ 102)

abbrev IsHex : ℕ → Type 0
IsHex c = IsLow c × (nat_beq c b':' ≡ false)

hex_char-IsHex : (d : ℕ) → d < 16 → IsHex (hex_char d)
hex_char-IsHex d h = elim (Bool-cases (ltb d 10)) [
  | inl e ↦ rw e ((inl (ground arith), ground arith), ground arith)
  | inr e ↦ rw e ((inr (ground arith), ground arith), ground arith)
]

hex_group-IsHex : (n : ℕ) → n < 65536 → All IsHex (hex_group n)
hex_group-IsHex n h = elim (Bool-cases (ltb n 16)) [
  | inl e ↦ rw e (hex_char-IsHex n (ground arith), tt)
  | inr e ↦ rw e (elim (Bool-cases (ltb n 256)) [
    | inl f ↦
        rw f (hex_char-IsHex (n / 16) (ground arith), (hex_char-IsHex (n % 16) (omega arith), tt))
    | inr f ↦ rw f (elim (Bool-cases (ltb n 4096)) [
      | inl g ↦ rw g (
        hex_char-IsHex (n / 256) (ground arith),
        (hex_char-IsHex (n / 16 % 16) (omega arith), (hex_char-IsHex (n % 16) (omega arith), tt)),
      )
      | inr g ↦ rw g (
        hex_char-IsHex (n / 4096) (omega arith),
        (
          hex_char-IsHex (n / 256 % 16) (omega arith),
          (hex_char-IsHex (n / 16 % 16) (omega arith), (hex_char-IsHex (n % 16) (omega arith), tt)),
        ),
      )
    ])
  ])
]

IsLow-append : (s t : Text) → All IsLow s → All IsLow t → All IsLow (s ++ t)
IsLow-append [] t h k = k
IsLow-append (c ∷ s) t h k = (h.0, IsLow-append s t h.1 k)

IsLow-reverse : (s : Text) → All IsLow s → All IsLow (reverse s)
IsLow-reverse [] h = tt
IsLow-reverse (c ∷ s) h =
    rw (reverse-cons c s) (IsLow-append (reverse s) (c ∷ []) (IsLow-reverse s h.1) (h.0, tt))

hex-IsLow : (s : Text) → All IsHex s → All IsLow s
hex-IsLow [] h = tt
hex-IsLow (c ∷ s) h = (h.0.0, hex-IsLow s h.1)

to_lower-IsLow : (s : Text) → All IsLow s → to_lower s ≡ s
unfolding to_lower
to_lower-IsLow [] h = refl
to_lower-IsLow (c ∷ s) h = low c s h.0.0 ∙ ap (◌∷◌ c) (to_lower-IsLow s h.1)
  where
    low : (c : ℕ) (s : Text) → (c < 65) ⊎ (90 < c) → to_lower (c ∷ s) ≡ c ∷ to_lower s
    low c s (inl below) = to_lower-cons c s below
    low c s (inr above) = to_lower-cons_above c s above

split-hex :
    (s rest : Text) → All IsHex s → split_on b':' (s ++ b':' ∷ rest) ≡ s ∷ split_on b':' rest
unfolding split_on
split-hex [] rest h = let (g, t, e) = split-nonempty b':' rest in rw e refl
split-hex (c ∷ s) rest h = let q = h.0.1 in rw (q, split-hex s rest h.1) refl

split-last : (s : Text) → All IsHex s → split_on b':' s ≡ s ∷ []
unfolding split_on
split-last [] h = refl
split-last (c ∷ s) h = let q = h.0.1 in rw (q, split-last s h.1) refl

no_prefix : (k : ℕ) (ks s : Text) → 102 < k → All IsLow s → after_prefix (k ∷ ks) s ≡ none
unfolding after_prefix
no_prefix k ks [] p h = refl
no_prefix k ks (c ∷ s) p h = let q : nat_beq k c ≡ false = ground (arith, h.0.1) in rw q refl

module _ (hi lo : ℕ) (p : hi < 65536) (q : lo < 65536) where
  inner : Text
  inner = mapped_prefix ++ hex_groups hi lo

  inner-IsLow : All IsLow inner
  unfolding inner
  inner-IsLow =
      let colon : IsLow b':' = (inl (omega arith), omega arith) in
      let f : IsLow b'f' = (inr (omega arith), omega arith) in
      IsLow-append mapped_prefix (hex_groups hi lo)
        (colon, (colon, (f, (f, (f, (f, (colon, tt)))))))
        (IsLow-append (hex_group hi) (b':' ∷ hex_group lo)
          (hex-IsLow (hex_group hi) (hex_group-IsHex hi p))
          (colon, hex-IsLow (hex_group lo) (hex_group-IsHex lo q)))

  -- Without the brackets.
  normal_host-mapped : normal_host (mapped_host hi lo) ≡ inner
  unfolding strip_brackets drop_open drop_close inner
  normal_host-mapped =
      let host = mapped_host hi lo in
      let low : All IsLow host = (
        (inr (omega arith), omega arith),
        IsLow-append inner (b']' ∷ []) inner-IsLow ((inr (omega arith), omega arith), tt),
      ) in
      rw (to_lower-IsLow host low, reverse-append inner (b']' ∷ [])) (reverse-reverse inner)

  found : Option Text → Bool
  found o = elim o [ none ↦ false | some rest ↦ true ]

  not_local : is_local_name inner ≡ false
  unfolding is_local_name text_beq inner found
  not_local =
      let below : ends_with (text ".localhost") inner ≡ false = ap found (
        no_prefix b't' (text "sohlacol.") (reverse inner) (omega arith)
          (IsLow-reverse inner inner-IsLow)) in
      let mdns : ends_with (text ".local") inner ≡ false = ap found (
        no_prefix b'l' (text "acol.") (reverse inner) (omega arith)
          (IsLow-reverse inner inner-IsLow)) in
      rw (below, mdns) refl

  after-inner : after_prefix mapped_prefix inner ≡ some (hex_groups hi lo)
  unfolding after_prefix inner
  after-inner = refl

  mapped_ipv4-inner :
      mapped_ipv4 inner ≡ some (dotted (hi / 256 % 256) (hi % 256) (lo / 256 % 256) (lo % 256))
  unfolding mapped_ipv4
  mapped_ipv4-inner =
      rw
        (
          after-inner,
          mapped_ipv4,
          split-hex (hex_group hi) (hex_group lo) (hex_group-IsHex hi p),
          split-last (hex_group lo) (hex_group-IsHex lo q),
          group-hex_group hi p,
          group-hex_group lo q,
        )
        refl

-- The host check on an IPv4-mapped IPv6 address, in brackets and with its last four bytes in
-- hexadecimal, as URL.hostname prints it, is the test on the first two octets of the IPv4 address.
pub is_private_host-mapped_host :
    (hi lo : ℕ)
    → hi < 65536
    → lo < 65536
    → is_private_host (mapped_host hi lo) ≡ is_private_ipv4 (hi / 256) (hi % 256)
is_private_host-mapped_host hi lo p q =
    let first : hi / 256 % 256 ≡ hi / 256 = omega arith in
    is_private_host_rec (mapped_host hi lo)
    ∙ rw
        (
          normal_host-mapped hi lo p q,
          not_local hi lo p q,
          normal_host-mapped hi lo p q,
          after-inner hi lo p q,
          normal_host-mapped hi lo p q,
          mapped_ipv4-inner hi lo p q,
        )
        (is_private_host-dotted (hi / 256 % 256) (hi % 256) (lo / 256 % 256) (lo % 256)
          (omega arith) (omega arith) (omega arith) (omega arith))
    ∙ ap (λ a. is_private_ipv4 a (hi % 256)) first
