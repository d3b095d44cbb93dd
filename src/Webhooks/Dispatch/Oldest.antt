-- ===== src/Webhooks/Dispatch/Oldest.antt =====
-- Which alerts `listAlertsAfter` of packages/backend/src/index_db.ts gives the dispatcher.
use taop_protocol.Prelude.{
  ℕ, zero, suc, ◌≤◌, ◌<◌, ◌≡◌, refl, Bool, true, List, [], ◌∷◌, arith, ltb, ltb→lt, leb, nat_beq,
  nat_beq_iff, take, length, length-take, select, count, min, All, select-All, Bool-cases, ◌⊎◌, inl,
  inr,
}
use taop_protocol.Sort.{
  sort_by, by_key, by_key-IsOrder, IsOrdered, IsOrdered-sort_by, length-sort_by, All-sort_by,
  sort_by-All, All-map,
}
use taop_protocol.Sort.Slices.{All-take, IsOrdered-take}
use taop_protocol.Index.{Alert}

abbrev pub ascending : Alert → Alert → Bool
ascending = by_key (λ a. a.id)

-- An alert is among those given, or none of these is later.
abbrev pub NotSooner : List Alert → Alert → Type 0
NotSooner given a = (0 < count (λ b. nat_beq b.id a.id) given) ⊎ All (λ b. b.id ≤ a.id) given

-- The alerts given are the oldest stored ones above the cursor, in order, `most` or all there are.
pub record IsOldest (cursor most : ℕ) (stored given : List Alert) : Type 0 where
  pub ordered : IsOrdered ascending given
  pub above : All (λ a. cursor < a.id) given
  pub among : (p : Alert → Bool) → All (λ a. p a ≡ true) stored → All (λ a. p a ≡ true) given
  pub number : length given ≡ min most (count (λ a. ltb cursor a.id) stored)
  pub oldest : All (λ a. ltb cursor a.id ≡ true → NotSooner given a) stored

All-select {ℓ κ} :
    {A : Type ℓ} (P : A → Type κ) (p : A → Bool) (xs : List A) → All P xs → All P (select p xs)
All-select P p [] h = tt
All-select P p (x ∷ xs) h = elim (Bool-cases (p x)) [
  | inl e ↦ rw e (h.0, All-select P p xs h.1)
  | inr e ↦ rw e (All-select P p xs h.1)
]

length-select {ℓ} : {A : Type ℓ} (p : A → Bool) (xs : List A) → length (select p xs) ≡ count p xs
length-select p [] = refl
length-select p (x ∷ xs) = ground (arith, length-select p xs)

selected :
    (cursor : ℕ) (xs : List Alert) → All (λ a. cursor < a.id) (select (λ a. ltb cursor a.id) xs)
selected cursor [] = tt
selected cursor (x ∷ xs) = elim (Bool-cases (ltb cursor x.id)) [
  | inl e ↦ rw e (ltb→lt cursor x.id e, selected cursor xs)
  | inr e ↦ rw e (selected cursor xs)
]

later :
    (x a : Alert) (given : List Alert) → x.id ≤ a.id → NotSooner given a → NotSooner (x ∷ given) a
later x a given h (inl n) = inl (omega (arith, n))
later x a given h (inr l) = inr (h, l)

-- What is cut off is not sooner than what is left.
take-NotSooner : (n : ℕ) (xs : List Alert) → IsOrdered ascending xs → All (NotSooner (take n xs)) xs
take-NotSooner n [] o = tt
take-NotSooner zero (x ∷ xs) o =
    (inr tt, All-map _ _ xs (λ a h. inr tt) (take-NotSooner zero xs o.1))
take-NotSooner (suc n) (x ∷ xs) o =
    (inl (ground (arith, nat_beq_iff x.id x.id)), both xs o.0 (take-NotSooner n xs o.1))
  where
    both :
        (ys : List Alert)
        → All (λ a. leb x.id a.id ≡ true) ys
        → All (NotSooner (take n xs)) ys
        → All (NotSooner (x ∷ take n xs)) ys
    both [] l h = tt
    both (y ∷ ys) l h = (later x y (take n xs) (ground (arith, l.0)) h.0, both ys l.1 h.1)

-- Sorting the alerts above the cursor and taking the first ones gives the oldest.
pub take-IsOldest :
    (cursor most : ℕ) (stored : List Alert)
    → IsOldest cursor most stored
        (take most (sort_by ascending (select (λ a. ltb cursor a.id) stored)))
take-IsOldest cursor most stored =
    let unread = select (λ a. ltb cursor a.id) stored in
    let sorted = IsOrdered-sort_by ascending (by_key-IsOrder (λ a. a.id)) unread in
    record {
      ordered = IsOrdered-take ascending most (sort_by ascending unread) sorted;
      above =
          All-take _ most (sort_by ascending unread)
            (All-sort_by (λ a. cursor < a.id) ascending unread (selected cursor stored));
      among = λ p h.
          All-take _ most (sort_by ascending unread)
            (All-sort_by (λ a. p a ≡ true) ascending unread (All-select _ _ stored h));
      number = omega (
        arith,
        length-take most (sort_by ascending unread),
        length-sort_by ascending unread,
        length-select (λ a. ltb cursor a.id) stored,
      );
      oldest =
          select-All _ _ stored (
            sort_by-All _ ascending unread (take-NotSooner most (sort_by ascending unread) sorted));
    }
