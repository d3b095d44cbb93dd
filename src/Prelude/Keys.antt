-- ===== src/Prelude/Keys.antt =====
-- Decidable equality of keys: numbers, texts, pairs.
use Prim.Native.Nat.{ℕ, ◌+◌, ◌<◌}
use Prim.Native.Char.{code}
use Prim.Native.String.{String}
use mathlib.Core.Path.{◌≡◌, refl}
use mathlib.Core.Logic.{◌↔◌}
use mathlib.Core.Bool.{Bool, true, false, ◌&&◌}
use mathlib.Core.List.{List, [], ◌∷◌, map}
use native.Mathlib.Omega.{arith}
use taop_protocol.Prelude.Tests.{nat_beq, nat_beq_iff, leb, if◌then◌else◌}

-- Keys of a table: a test of equality, and that it decides.
pub record Eq {κ} (Key : Type κ) : Type κ where
  pub equal : Key → Key → Bool
  pub equal_iff : (i j : Key) → (equal i j ≡ true) ↔ (i ≡ j)

module _ {κ} {Key : Type κ} ⦃eq : Eq Key⦄ where
  infix 50 ◌==◌
  abbrev pub ◌==◌ : Key → Key → Bool
  i == j = eq.equal i j

  pub eq_refl : (i : Key) → (i == i) ≡ true
  eq_refl i = (eq.equal_iff i i).1 refl

-- The keys that are ids and block numbers.
instance abbrev pub nat_eq : Eq ℕ
nat_eq = record { equal = nat_beq; equal_iff = nat_beq_iff }

-- A JavaScript string as the list of its character codes.
abbrev pub Text : Type 0
Text = List ℕ

-- The codes of a literal.
abbrev pub text : String → Text
text String.[] = []
text (String.◌∷◌ c s) = code c ∷ text s

unfoldable pub text_beq : Text → Text → Bool
text_beq [] [] = true
text_beq [] (d ∷ ds) = false
text_beq (c ∷ cs) [] = false
text_beq (c ∷ cs) (d ∷ ds) = nat_beq c d && text_beq cs ds

pub text_beq_iff : (s t : Text) → (text_beq s t ≡ true) ↔ (s ≡ t)
unfolding text_beq
text_beq_iff [] [] = ground arith
text_beq_iff [] (d ∷ ds) = ground arith
text_beq_iff (c ∷ cs) [] = ground arith
text_beq_iff (c ∷ cs) (d ∷ ds) = ground (arith, text_beq_iff cs ds)

instance abbrev pub text_eq : Eq Text
text_eq = record { equal = text_beq; equal_iff = text_beq_iff }

module _ {ℓ κ} {A : Type ℓ} {B : Type κ} ⦃e : Eq A⦄ ⦃f : Eq B⦄ where
  abbrev pub pair_beq : A × B → A × B → Bool
  pair_beq (a, b) (c, d) = (a == c) && (b == d)

  pub pair_beq_iff : (p q : A × B) → (pair_beq p q ≡ true) ↔ (p ≡ q)
  pair_beq_iff (a, b) (c, d) = ground (arith, e.equal_iff a c, f.equal_iff b d)

  instance abbrev pub pair_eq : Eq (A × B)
  pair_eq = record { equal = pair_beq; equal_iff = pair_beq_iff }

lower_code : ℕ → ℕ
lower_code c = if leb b'A' c && leb c b'Z' then c + 32 else c

-- String.prototype.toLowerCase, on ASCII.
unfoldable pub to_lower : Text → Text
unfolding lower_code
to_lower = map lower_code

lower_code_idem : (c : ℕ) → lower_code (lower_code c) ≡ lower_code c
unfolding lower_code
lower_code_idem c = ground arith

pub to_lower_idem : (s : Text) → to_lower (to_lower s) ≡ to_lower s
unfolding to_lower
to_lower_idem [] = refl
to_lower_idem (c ∷ s) = cc (lower_code_idem c, to_lower_idem s)

-- A character that is no capital letter stays.
pub to_lower-cons_above : (c : ℕ) (s : Text) → b'Z' < c → to_lower (c ∷ s) ≡ c ∷ to_lower s
unfolding to_lower lower_code
to_lower-cons_above c s h = ground arith

pub to_lower-cons : (c : ℕ) (s : Text) → c < b'A' → to_lower (c ∷ s) ≡ c ∷ to_lower s
unfolding to_lower lower_code
to_lower-cons c s h = ground arith
