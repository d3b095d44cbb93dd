-- ===== src/Metrics/Escape.antt =====
-- The label values of the text of packages/backend/src/metrics.ts.
use taop_protocol.Prelude.{
  ℕ, zero, suc, ◌+◌, ◌/◌, ◌%◌, ◌≡◌, refl, sym, ap, ◌∙◌, [], ◌∷◌, ◌++◌, Text, text, Option, none,
  some, nat_beq, arith, count, count-append, Bool-cases, inl, inr, if◌then◌else◌, ltb,
}
use mathlib.Core.List.{append_assoc}
use taop_protocol.Metrics.Decimal.{decimal_within}
use taop_protocol.Metrics.{replace_all, escape_label}

-- What one character becomes.
hide : ℕ → Text
hide c =
    if nat_beq c b'\\'
    then text "\\\\"
    else if nat_beq c b'"'
    then text "\\\""
    else if nat_beq c b'\n'
    then text "\\n"
    else c ∷ []

replace_all-append :
    (c : ℕ) (by xs ys : Text)
    → replace_all c by (xs ++ ys) ≡ replace_all c by xs ++ replace_all c by ys
unfolding replace_all
replace_all-append c by [] ys = refl
replace_all-append c by (x ∷ xs) ys = elim (Bool-cases (nat_beq x c)) [
  | inl e ↦ rw e (ap (λ t. by ++ t) (replace_all-append c by xs ys) ∙ sym (append_assoc by _ _))
  | inr e ↦ rw e (ap (λ t. x ∷ t) (replace_all-append c by xs ys))
]

escape_label-append : (xs ys : Text) → escape_label (xs ++ ys) ≡ escape_label xs ++ escape_label ys
unfolding escape_label
escape_label-append xs ys =
    let backslashes = replace_all b'\\' (text "\\\\") in
    let quotes = replace_all b'"' (text "\\\"") in
    let newlines = replace_all b'\n' (text "\\n") in
    ap (λ t. newlines (quotes t)) (replace_all-append b'\\' (text "\\\\") xs ys)
    ∙ ap newlines (replace_all-append b'"' (text "\\\"") (backslashes xs) (backslashes ys))
    ∙ replace_all-append b'\n' (text "\\n") (quotes (backslashes xs)) (quotes (backslashes ys))

escape_label-one : (c : ℕ) → escape_label (c ∷ []) ≡ hide c
unfolding escape_label replace_all hide
escape_label-one c = ground arith

escape_label-cons : (c : ℕ) (cs : Text) → escape_label (c ∷ cs) ≡ hide c ++ escape_label cs
escape_label-cons c cs =
    escape_label-append (c ∷ []) cs ∙ ap (λ t. t ++ escape_label cs) (escape_label-one c)

escape_label-nil : escape_label [] ≡ []
unfolding escape_label replace_all
escape_label-nil = refl

-- A label value as Prometheus reads it, up to the closing quote, with what follows.
add_read : ℕ → Option (Text × Text) → Option (Text × Text)
add_read c none = none
add_read c (some (value, rest)) = some (c ∷ value, rest)

reveal : ℕ → Option ℕ
reveal c =
    if nat_beq c b'\\'
    then some b'\\'
    else if nat_beq c b'"'
    then some b'"'
    else if nat_beq c b'n'
    then some b'\n'
    else none

mutual
  pub read_label : Text → Option (Text × Text)
  read_label [] = none
  read_label (c ∷ cs) =
      let escaped = read_escaped cs in
      let next = add_read c (read_label cs) in
      if nat_beq c b'"'
      then some ([], cs)
      else if nat_beq c b'\n'
      then none
      else if nat_beq c b'\\'
      then escaped
      else next

  read_escaped : Text → Option (Text × Text)
  read_escaped [] = none
  read_escaped (c ∷ cs) =
      let rest = read_label cs in elim (reveal c) [ none ↦ none | some d ↦ add_read d rest ]

read_label-hide : (c : ℕ) (rest : Text) → read_label (hide c ++ rest) ≡ add_read c (read_label rest)
unfolding read_label hide reveal
read_label-hide c rest = ground arith

-- Whatever text a label holds, the exposition reads back as exactly that text, and the reading stops
-- at the quote that ends it.
pub read_label-escape_label :
    (value rest : Text) → read_label (escape_label value ++ b'"' ∷ rest) ≡ some (value, rest)
unfolding read_label add_read
read_label-escape_label [] rest = rw escape_label-nil refl
read_label-escape_label (c ∷ cs) rest = rw (escape_label-cons c cs) (
    rw (append_assoc (hide c) (escape_label cs) (b'"' ∷ rest))
      (read_label-hide c _ ∙ ap (add_read c) (read_label-escape_label cs rest)))

abbrev pub newlines : Text → ℕ
newlines = count (λ c. nat_beq c b'\n')

newlines-hide : (c : ℕ) → newlines (hide c) ≡ 0
unfolding hide
newlines-hide c = ground arith

pub newlines-escape_label : (value : Text) → newlines (escape_label value) ≡ 0
newlines-escape_label [] = rw escape_label-nil refl
newlines-escape_label (c ∷ cs) = rw (escape_label-cons c cs) (
    omega (
      arith,
      count-append (λ c. nat_beq c b'\n') (hide c) (escape_label cs),
      newlines-hide c,
      newlines-escape_label cs,
    ))

pub newlines-decimal_within : (fuel n : ℕ) → newlines (decimal_within fuel n) ≡ 0
unfolding decimal_within
newlines-decimal_within zero n = refl
newlines-decimal_within (suc fuel) n = elim (Bool-cases (ltb n 10)) [
  | inl e ↦ rw e (ground arith)
  | inr e ↦ rw e (
      ground (
        arith,
        count-append (λ c. nat_beq c b'\n') (decimal_within fuel (n / 10)) ((48 + n % 10) ∷ []),
        newlines-decimal_within fuel (n / 10),
      ))
]
