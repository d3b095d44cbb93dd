-- ===== src/Webhooks/Hosts/Recursion.antt =====
-- The recursion of `isPrivateHost` (packages/backend/src/webhooks.ts), which the model has on fuel.
use taop_protocol.Prelude.{
  ℕ, zero, suc, ◌+◌, ◌/◌, ◌%◌, ◌≤◌, ◌<◌, ◌≡◌, ◌≢◌, ◌⊎◌, inl, inr, refl, sym, ap, ◌∙◌, true, false,
  List, [], ◌∷◌, ◌++◌, Text, Option, none, some, arith, ltb, nat_beq, length, to_lower,
  to_lower-cons, Bool-cases, Option-cases, length-append, subst,
}
use mathlib.Core.Option.{some-injective}
use mathlib.Core.List.{reverse, reverse-cons, reverse-append}
use taop_protocol.Webhooks.Hosts.{
  after_prefix, drop_open, drop_close, strip_brackets, byte_text, dotted, group, both_groups,
  groups, mapped_ipv4, mapped_prefix, is_local_name, is_private_address, normal_host, or_else,
  private_host_within, is_private_host, or_false, split_on,
}

length-reverse : (s : Text) → length (reverse s) ≡ length s
length-reverse [] = refl
length-reverse (c ∷ s) =
    rw (reverse-cons c s) (omega (arith, length-append (reverse s) (c ∷ []), length-reverse s))

length-drop_open : (s : Text) → length (drop_open s) ≤ length s
unfolding drop_open
length-drop_open [] = omega arith
length-drop_open (c ∷ s) = ground arith

length-drop_close : (s : Text) → length (drop_close s) ≤ length s
unfolding drop_close
length-drop_close [] = omega arith
length-drop_close (c ∷ s) = ground arith

length-to_lower : (s : Text) → length (to_lower s) ≡ length s
unfolding to_lower
length-to_lower [] = refl
length-to_lower (c ∷ s) = ap suc (length-to_lower s)

length-normal_host : (s : Text) → length (normal_host s) ≤ length s
unfolding strip_brackets
length-normal_host s = omega (
  arith,
  length-reverse (drop_close (reverse (drop_open (to_lower s)))),
  length-drop_close (reverse (drop_open (to_lower s))),
  length-reverse (drop_open (to_lower s)),
  length-drop_open (to_lower s),
  length-to_lower s,
)

length-after_prefix :
    (p s rest : Text) → after_prefix p s ≡ some rest → length s ≡ length p + length rest
unfolding after_prefix
length-after_prefix [] s rest h = ground arith
length-after_prefix (c ∷ p) [] rest h = absurd (cc)
length-after_prefix (c ∷ p) (d ∷ s) rest h = elim (Bool-cases (nat_beq c d)) [
  | inl e ↦ omega (arith, length-after_prefix p s rest (ground arith))
  | inr e ↦ absurd (ground arith)
]

-- A text that begins with a decimal digit.
record IsNumeral (s : Text) : Type 0 where
  first : ℕ
  rest : Text
  shape : s ≡ first ∷ rest
  least : 48 ≤ first
  most : first ≤ 57

byte_text-IsNumeral : (n : ℕ) (s : Text) → n < 256 → IsNumeral (byte_text n ++ s)
unfolding byte_text
byte_text-IsNumeral n s h = elim (Bool-cases (ltb n 10)) [
  | inl e ↦
      rw e (record { first = _; rest = s; shape = refl; least = omega arith; most = ground arith })
  | inr e ↦ rw e (elim (Bool-cases (ltb n 100)) [
    | inl f ↦
        rw f
          (record { first = _; rest = _; shape = refl; least = ground arith; most = ground arith })
    | inr f ↦
        rw f
          (record { first = _; rest = _; shape = refl; least = ground arith; most = ground arith })
  ])
]

groups-IsNumeral : (parts : List Text) (t : Text) → groups parts ≡ some t → IsNumeral t
groups-IsNumeral [] t h = absurd (cc)
groups-IsNumeral (a ∷ []) t h = absurd (cc)
groups-IsNumeral (a ∷ b ∷ c ∷ rest) t h = absurd (cc)
groups-IsNumeral (a ∷ b ∷ []) t h = both (group a) (group b) h
  where
    both : (hi lo : Option ℕ) → both_groups hi lo ≡ some t → IsNumeral t
    both none lo k = absurd (cc)
    both (some hi) none k = absurd (cc)
    both (some hi) (some lo) k =
        unfold dotted in
        subst IsNumeral (some-injective _ _ k)
          (byte_text-IsNumeral (hi / 256 % 256) _ (omega arith))

mapped_ipv4-IsNumeral : (host t : Text) → mapped_ipv4 host ≡ some t → IsNumeral t
unfolding mapped_ipv4
mapped_ipv4-IsNumeral host t h = elim (Option-cases (after_prefix mapped_prefix host)) [
  | inl e ↦ absurd (ground (arith, e, h))
  | inr (rest, e) ↦ groups-IsNumeral (split_on b':' rest) t (rw (e, mapped_ipv4) at h)
]

-- What the brackets leave of a text that begins with a digit: nothing, or a text that begins with it.
strip_close :
    (c : ℕ) (s : Text)
    → (reverse (drop_close (reverse (c ∷ s))) ≡ [])
      ⊎ ((r : Text) × (reverse (drop_close (reverse (c ∷ s))) ≡ c ∷ r))
strip_close c s = rw (reverse-cons c s) (from (reverse s))
  where
    from :
        (r : Text)
        → (reverse (drop_close (r ++ c ∷ [])) ≡ [])
          ⊎ ((t : Text) × (reverse (drop_close (r ++ c ∷ [])) ≡ c ∷ t))
    from [] =
        unfold drop_close in
        elim (Bool-cases (nat_beq c b']')) [
          | inl e ↦ rw e (inl refl)
          | inr e ↦ rw e (inr ([], refl))
        ]
    from (d ∷ r) =
        unfold drop_close in
        elim (Bool-cases (nat_beq d b']')) [
          | inl e ↦ rw e (inr (reverse r, reverse-append r (c ∷ [])))
          | inr e ↦ rw e (inr (reverse (d ∷ r), reverse-append (d ∷ r) (c ∷ [])))
        ]

normal_host-cons :
    (c : ℕ) (s : Text)
    → 48 ≤ c
    → c ≤ 57
    → normal_host (c ∷ s) ≡ reverse (drop_close (reverse (c ∷ to_lower s)))
unfolding strip_brackets drop_open
normal_host-cons c s p q =
    rw (to_lower-cons c s (omega arith))
      (elim (Bool-cases (nat_beq c b'[')) [ inl e ↦ absurd (ground arith) | inr e ↦ rw e refl ])

no_prefix : (c : ℕ) (s : Text) → 48 ≤ c → c ≤ 57 → after_prefix mapped_prefix (c ∷ s) ≡ none
unfolding after_prefix
no_prefix c s p q = elim (Bool-cases (nat_beq b':' c)) [
  | inl e ↦ absurd (ground arith)
  | inr e ↦ rw e refl
]

no_prefix_of_empty : after_prefix mapped_prefix [] ≡ none
unfolding after_prefix
no_prefix_of_empty = refl

-- The recursion does not go on from such a text.
numeral-stops : (s : Text) → IsNumeral s → after_prefix mapped_prefix (normal_host s) ≡ none
numeral-stops s v =
    ap (λ t. after_prefix mapped_prefix (normal_host t)) v.shape
    ∙ ap (after_prefix mapped_prefix) (normal_host-cons v.first v.rest v.least v.most)
    ∙ (elim (strip_close v.first (to_lower v.rest)) [
      | inl e ↦ ap (after_prefix mapped_prefix) e ∙ no_prefix_of_empty
      | inr (r, e) ↦ ap (after_prefix mapped_prefix) e ∙ no_prefix v.first r v.least v.most
    ])

-- One level of the recursion, in its three cases.
module _ (fuel : ℕ) (hostname : Text) where
  abbrev host : Text
  host = normal_host hostname

  step_local : is_local_name host ≡ true → private_host_within (suc fuel) hostname ≡ some true
  unfolding private_host_within
  step_local f = rw (f, private_host_within) refl

  step_address :
      is_local_name host ≡ false
      → after_prefix mapped_prefix host ≡ none
      → private_host_within (suc fuel) hostname ≡ some (is_private_address host)
  unfolding private_host_within
  step_address f e = rw (f, e, private_host_within) refl

  step_mapped :
      (rest : Text)
      → is_local_name host ≡ false
      → after_prefix mapped_prefix host ≡ some rest
      → private_host_within (suc fuel) hostname
        ≡ private_host_within fuel (or_else (mapped_ipv4 host) rest)
  unfolding private_host_within
  step_mapped rest f e = rw (f, e, private_host_within) refl

  -- One level of fuel is enough for a text that is not mapped.
  answers : after_prefix mapped_prefix host ≡ none → private_host_within (suc fuel) hostname ≢ none
  answers e k = elim (Bool-cases (is_local_name host)) [
    | inl f ↦ cc (step_local f, k)
    | inr f ↦ cc (step_address f e, k)
  ]

  shorter :
      (rest : Text)
      → after_prefix mapped_prefix host ≡ some rest
      → length rest + 7 ≤ length hostname
  shorter rest e =
      omega (arith, length-after_prefix mapped_prefix host rest e, length-normal_host hostname)

-- The recursion of the host check ends for every host name: two more levels than it has characters
-- are enough fuel.
pub private_host_within_enough :
    (fuel : ℕ) (hostname : Text)
    → length hostname + 2 ≤ fuel
    → private_host_within fuel hostname ≢ none
private_host_within_enough zero hostname h k = absurd (omega arith)
private_host_within_enough (suc fuel) hostname h k =
    elim (Option-cases (after_prefix mapped_prefix (normal_host hostname))) [
      | inl e ↦ answers fuel hostname e k
      | inr (rest, e) ↦ elim (Bool-cases (is_local_name (normal_host hostname))) [
        | inl f ↦ cc (step_local fuel hostname f, k)
        | inr f ↦
            let j = sym (step_mapped fuel hostname rest f e) ∙ k in
            let short = shorter fuel hostname rest e in
            elim (Option-cases (mapped_ipv4 (normal_host hostname))) [
              | inl g ↦ private_host_within_enough fuel rest (omega (arith, short, h)) (rw g at j)
              | inr (t, g) ↦
                  stops fuel t (omega (arith, short, h))
                    (mapped_ipv4-IsNumeral (normal_host hostname) t g) (rw g at j)
            ]
      ]
    ]
  where
    stops : (n : ℕ) (t : Text) → 1 ≤ n → IsNumeral t → private_host_within n t ≢ none
    stops zero t p v = absurd (omega arith)
    stops (suc n) t p v = answers n t (numeral-stops t v)

private_host_within_zero : (hostname : Text) → private_host_within 0 hostname ≡ none
unfolding private_host_within
private_host_within_zero hostname = refl

-- Two amounts of fuel that are enough give one answer.
agree :
    (m n : ℕ) (hostname : Text)
    → private_host_within m hostname ≢ none
    → private_host_within n hostname ≢ none
    → private_host_within m hostname ≡ private_host_within n hostname
agree zero n hostname p q = absurd (p (private_host_within_zero hostname))
agree (suc m) zero hostname p q = absurd (q (private_host_within_zero hostname))
agree (suc m) (suc n) hostname p q = elim (Bool-cases (is_local_name (normal_host hostname))) [
  | inl f ↦ step_local m hostname f ∙ sym (step_local n hostname f)
  | inr f ↦ elim (Option-cases (after_prefix mapped_prefix (normal_host hostname))) [
    | inl e ↦ step_address m hostname f e ∙ sym (step_address n hostname f e)
    | inr (rest, e) ↦
        let at_m = step_mapped m hostname rest f e in
        let at_n = step_mapped n hostname rest f e in
        at_m ∙ agree m n _ (λ k. p (at_m ∙ k)) (λ k. q (at_n ∙ k)) ∙ sym at_n
  ]
]

-- The host check is the recursion of the source: a local name is private, a host behind `::ffff:` is
-- what the host that it stands for is, and any other is judged by its address.
pub is_private_host_rec :
    (hostname : Text)
    → is_private_host hostname ≡ (
        let host = normal_host hostname in
        elim (is_local_name host) [
          | true ↦ true
          | false ↦ elim (after_prefix mapped_prefix host) [
            | none ↦ is_private_address host
            | some rest ↦ is_private_host (or_else (mapped_ipv4 host) rest)
          ]
        ])
unfolding is_private_host
is_private_host_rec hostname = elim (Bool-cases (is_local_name (normal_host hostname))) [
  | inl f ↦ rw f (ap or_false (enough ∙ step_local fuel hostname f))
  | inr f ↦ rw f (elim (Option-cases (after_prefix mapped_prefix (normal_host hostname))) [
    | inl e ↦ rw e (ap or_false (enough ∙ step_address fuel hostname f e))
    | inr (rest, e) ↦
        let next = or_else (mapped_ipv4 (normal_host hostname)) rest in
        let at = step_mapped fuel hostname rest f e in
        rw e (
          ap or_false (
            enough
            ∙ at
            ∙ agree fuel (length next + 2) next
                (λ k. private_host_within_enough (suc fuel) hostname (omega arith) (at ∙ k))
                (private_host_within_enough (length next + 2) next (omega arith))))
  ])
]
  where
    fuel : ℕ
    fuel = length hostname + 1

    enough :
        private_host_within (length hostname + 2) hostname ≡ private_host_within (suc fuel) hostname
    enough =
        let e : length hostname + 2 ≡ suc fuel = omega arith in
        ap (λ n. private_host_within n hostname) e
