-- ===== src/Sort.antt =====
-- A stable sort, for ORDER BY and Array.prototype.sort. `le x y` says that `x` may stand before `y`.
pub mod Slices
use mathlib.Core.List.{Perm}
use mathlib.Core.List.Perm
use taop_protocol.Prelude.{
  ℕ, ◌≡◌, refl, Bool, true, false, List, [], ◌∷◌, arith, All, length, suc, bit, count, ◌+◌, leb,
  if◌then◌else◌, Bool-cases, inl, inr,
}

module _ {ℓ} {A : Type ℓ} (le : A → A → Bool) where
  unfoldable pub insert_by : A → List A → List A
  insert_by x [] = x ∷ []
  insert_by x (y ∷ ys) = let rest = insert_by x ys in if le x y then x ∷ y ∷ ys else y ∷ rest

  unfoldable pub sort_by : List A → List A
  unfolding insert_by
  sort_by [] = []
  sort_by (x ∷ xs) = insert_by x (sort_by xs)

  -- Each row may stand before every later row.
  abbrev pub IsOrdered : List A → Type ℓ
  IsOrdered [] = Unit
  IsOrdered (x ∷ xs) = All (λ y. le x y ≡ true) xs × IsOrdered xs

  insert_by-perm : (x : A) (xs : List A) → Perm (insert_by x xs) (x ∷ xs)
  unfolding insert_by
  insert_by-perm x [] = Perm.refl (x ∷ [])
  insert_by-perm x (y ∷ ys) = elim (Bool-cases (le x y)) [
    | inl h ↦ rw h (Perm.refl (x ∷ y ∷ ys))
    | inr h ↦ rw h (Perm.trans (Perm.cons y (insert_by-perm x ys)) (Perm.swap x y ys))
  ]

  -- Sorting neither drops nor adds a row.
  pub sort_by-perm : (xs : List A) → Perm (sort_by xs) xs
  unfolding sort_by
  sort_by-perm [] = Perm.nil
  sort_by-perm (x ∷ xs) = Perm.trans (insert_by-perm x (sort_by xs)) (Perm.cons x (sort_by-perm xs))

  insert_by_first : (x : A) (xs : List A) → All (λ y. le x y ≡ true) xs → insert_by x xs ≡ x ∷ xs
  unfolding insert_by
  insert_by_first x [] h = refl
  insert_by_first x (y ∷ ys) h = rw h.0

  -- Rows that are in order stay as they are.
  pub sort_by-IsOrdered : (xs : List A) → IsOrdered xs → sort_by xs ≡ xs
  unfolding sort_by
  sort_by-IsOrdered [] h = refl
  sort_by-IsOrdered (x ∷ xs) h = rw (sort_by-IsOrdered xs h.1) (insert_by_first x xs h.0)

All-insert_by {ℓ κ} :
    {A : Type ℓ} (P : A → Type κ) (le : A → A → Bool) (x : A) (xs : List A)
    → P x
    → All P xs
    → All P (insert_by le x xs)
unfolding insert_by
All-insert_by P le x [] p h = (p, tt)
All-insert_by P le x (y ∷ ys) p h = elim (Bool-cases (le x y)) [
  | inl e ↦ rw e (p, h)
  | inr e ↦ rw e (h.0, All-insert_by P le x ys p h.1)
]

count-insert_by {ℓ} :
    {A : Type ℓ} (p : A → Bool) (le : A → A → Bool) (x : A) (xs : List A)
    → count p (insert_by le x xs) ≡ bit (p x) + count p xs
unfolding insert_by
count-insert_by p le x [] = omega arith
count-insert_by p le x (y ∷ ys) = elim (Bool-cases (le x y)) [
  | inl e ↦ rw e refl
  | inr e ↦ rw e (omega (arith, count-insert_by p le x ys))
]

-- Sorting keeps how many rows meet a test.
pub count-sort_by {ℓ} :
    {A : Type ℓ} (p : A → Bool) (le : A → A → Bool) (xs : List A)
    → count p (sort_by le xs) ≡ count p xs
unfolding sort_by
count-sort_by p le [] = refl
count-sort_by p le (x ∷ xs) =
    omega (arith, count-insert_by p le x (sort_by le xs), count-sort_by p le xs)

length-insert_by {ℓ} :
    {A : Type ℓ} (le : A → A → Bool) (x : A) (xs : List A)
    → length (insert_by le x xs) ≡ suc (length xs)
unfolding insert_by
length-insert_by le x [] = refl
length-insert_by le x (y ∷ ys) = elim (Bool-cases (le x y)) [
  | inl e ↦ rw e refl
  | inr e ↦ rw e (omega (arith, length-insert_by le x ys))
]

pub length-sort_by {ℓ} :
    {A : Type ℓ} (le : A → A → Bool) (xs : List A) → length (sort_by le xs) ≡ length xs
unfolding sort_by
length-sort_by le [] = refl
length-sort_by le (x ∷ xs) =
    omega (arith, length-insert_by le x (sort_by le xs), length-sort_by le xs)

pub All-sort_by {ℓ κ} :
    {A : Type ℓ} (P : A → Type κ) (le : A → A → Bool) (xs : List A)
    → All P xs
    → All P (sort_by le xs)
unfolding sort_by
All-sort_by P le [] h = tt
All-sort_by P le (x ∷ xs) h = All-insert_by P le x (sort_by le xs) h.0 (All-sort_by P le xs h.1)

insert_by-All {ℓ κ} :
    {A : Type ℓ} (P : A → Type κ) (le : A → A → Bool) (x : A) (xs : List A)
    → All P (insert_by le x xs)
    → P x × All P xs
unfolding insert_by
insert_by-All P le x [] h = h
insert_by-All P le x (y ∷ ys) h = elim (Bool-cases (le x y)) [
  | inl e ↦ let k = rw (e, insert_by) at h in (k.0, k.1)
  | inr e ↦
      let k = rw (e, insert_by) at h in let r = insert_by-All P le x ys k.1 in (r.0, (k.0, r.1))
]

-- What holds of each row of the sorted list holds of each row.
pub sort_by-All {ℓ κ} :
    {A : Type ℓ} (P : A → Type κ) (le : A → A → Bool) (xs : List A)
    → All P (sort_by le xs)
    → All P xs
unfolding sort_by
sort_by-All P le [] h = tt
sort_by-All P le (x ∷ xs) h =
    let r = insert_by-All P le x (sort_by le xs) h in (r.0, sort_by-All P le xs r.1)

pub All-map {ℓ κ μ} :
    {A : Type ℓ} (P : A → Type κ) (Q : A → Type μ) (xs : List A)
    → ((a : A) → P a → Q a)
    → All P xs
    → All Q xs
All-map P Q [] f h = tt
All-map P Q (x ∷ xs) f h = (f x h.0, All-map P Q xs f h.1)

-- A comparison by which any two rows can be ordered.
pub record IsOrder {ℓ} {A : Type ℓ} (le : A → A → Bool) : Type ℓ where
  pub total : (x y : A) → le x y ≡ false → le y x ≡ true
  pub trans : (x y z : A) → le x y ≡ true → le y z ≡ true → le x z ≡ true

module _ {ℓ} {A : Type ℓ} (le : A → A → Bool) (o : IsOrder le) where
  insert_by-IsOrdered : (x : A) (xs : List A) → IsOrdered le xs → IsOrdered le (insert_by le x xs)
  unfolding insert_by
  insert_by-IsOrdered x [] h = (tt, tt)
  insert_by-IsOrdered x (y ∷ ys) h = elim (Bool-cases (le x y)) [
    | inl e ↦ rw e ((e, All-map _ _ ys (λ z. o.trans x y z e) h.0), h)
    | inr e ↦ rw e (
      All-insert_by (λ z. le y z ≡ true) le x ys (o.total x y e) h.0,
      insert_by-IsOrdered x ys h.1,
    )
  ]

  -- The result is in order.
  pub IsOrdered-sort_by : (xs : List A) → IsOrdered le (sort_by le xs)
  unfolding sort_by
  IsOrdered-sort_by [] = tt
  IsOrdered-sort_by (x ∷ xs) = insert_by-IsOrdered x (sort_by le xs) (IsOrdered-sort_by xs)

-- ORDER BY a number, ascending.
abbrev pub by_key {ℓ} : {A : Type ℓ} → (A → ℕ) → A → A → Bool
by_key key x y = leb (key x) (key y)

pub by_key-IsOrder {ℓ} : {A : Type ℓ} (key : A → ℕ) → IsOrder (by_key key)
by_key-IsOrder key = record { total = λ x y h. ground arith; trans = λ x y z h k. ground arith }

-- Descending.
abbrev pub by_key_desc {ℓ} : {A : Type ℓ} → (A → ℕ) → A → A → Bool
by_key_desc key x y = leb (key y) (key x)

pub by_key_desc-IsOrder {ℓ} : {A : Type ℓ} (key : A → ℕ) → IsOrder (by_key_desc key)
by_key_desc-IsOrder key = record {
  total = λ x y h. ground arith;
  trans = λ x y z h k. ground arith;
}
