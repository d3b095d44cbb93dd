-- ===== src/Benchmark/Collusion/Sets.antt =====
-- The sets of packages/benchmark/src/scenarios/collusion.ts, as lists that name no member twice.
use taop_protocol.Prelude.{
  ℕ, ◌+◌, ◌≤◌, ◌<◌, ◌≡◌, refl, Bool, true, false, not, ◌||◌, List, [], ◌∷◌, ◌++◌, nat_beq,
  nat_beq_iff, count, bit, length, arith, Bool-cases, inl, inr,
}
use taop_protocol.Benchmark.Collusion.{member, add}

abbrev pub Distinct : List ℕ → Type 0
Distinct [] = Unit
Distinct (x ∷ xs) = (member x xs ≡ false) × Distinct xs

-- The members that are not removed.
abbrev pub alive : List ℕ → List ℕ → ℕ
alive removed = count (λ n. not (member n removed))

member-nil : (x : ℕ) → member x [] ≡ false
unfolding member
member-nil x = refl

pub member-cons : (x y : ℕ) (l : List ℕ) → member x (y ∷ l) ≡ (nat_beq y x || member x l)
unfolding member
member-cons x y l = refl

pub member-append : (x : ℕ) (a b : List ℕ) → member x (a ++ b) ≡ (member x a || member x b)
unfolding member
member-append x [] b = refl
member-append x (y ∷ a) b = ground (arith, member-append x a b)

pub member-add : (x y : ℕ) (l : List ℕ) → member x (add y l) ≡ (nat_beq y x || member x l)
unfolding add
member-add x y l = elim (Bool-cases (member y l)) [
  | inl e ↦ rw e (ground (arith, e, nat_beq_iff y x))
  | inr e ↦ rw e (ground (arith, member-append x l (y ∷ []), member-cons x y [], member-nil x))
]

alive-none :
    (u : ℕ) (removed l : List ℕ) → member u l ≡ false → alive (u ∷ removed) l ≡ alive removed l
unfolding member
alive-none u removed [] h = refl
alive-none u removed (x ∷ l) h = ground (arith, alive-none u removed l, h)

-- Removing one that is still there lowers the count at the sets that hold it, by one.
pub alive-remove :
    (u : ℕ) (removed l : List ℕ)
    → member u removed ≡ false
    → Distinct l
    → alive (u ∷ removed) l + bit (member u l) ≡ alive removed l
unfolding member
alive-remove u removed [] h d = omega arith
alive-remove u removed (x ∷ l) h d =
    ground (arith, alive-remove u removed l h d.1, alive-none u removed l, nat_beq_iff x u, h, d.0)

pub alive-remove_le : (u : ℕ) (removed l : List ℕ) → alive (u ∷ removed) l ≤ alive removed l
unfolding member
alive-remove_le u removed [] = omega arith
alive-remove_le u removed (x ∷ l) = ground (arith, alive-remove_le u removed l)

pub alive-remove_lt :
    (u : ℕ) (removed l : List ℕ)
    → member u removed ≡ false
    → member u l ≡ true
    → alive (u ∷ removed) l < alive removed l
unfolding member
alive-remove_lt u removed [] h m = absurd (cc)
alive-remove_lt u removed (x ∷ l) h m =
    ground (arith, alive-remove_lt u removed l h, alive-remove_le u removed l, h, m)

-- A part of a set has no more members than the set.
pub count_within :
    (p q : ℕ → Bool) (l : List ℕ) → ((n : ℕ) → p n ≡ true → q n ≡ true) → count p l ≤ count q l
count_within p q [] h = omega arith
count_within p q (x ∷ l) h = ground (arith, count_within p q l h, h x)

pub count-le-length : (p : ℕ → Bool) (l : List ℕ) → count p l ≤ length l
count-le-length p [] = omega arith
count-le-length p (x ∷ l) = ground (arith, count-le-length p l)

pub Distinct-snoc : (x : ℕ) (l : List ℕ) → Distinct l → member x l ≡ false → Distinct (l ++ x ∷ [])
unfolding member
Distinct-snoc x [] d m = (refl, tt)
Distinct-snoc x (y ∷ l) d m = (
  ground (arith, member-append y l (x ∷ []), nat_beq_iff x y, nat_beq_iff y x, d.0, m),
  Distinct-snoc x l d.1 (ground (arith, m)),
)

pub Distinct-add : (x : ℕ) (l : List ℕ) → Distinct l → Distinct (add x l)
unfolding add
Distinct-add x l d = elim (Bool-cases (member x l)) [
  | inl e ↦ rw e d
  | inr e ↦ rw e (Distinct-snoc x l d e)
]
