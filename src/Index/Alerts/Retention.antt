-- ===== src/Index/Alerts/Retention.antt =====
-- What `pruneAlerts` removes.
use taop_protocol.Prelude.{
  ℕ, zero, suc, ◌+◌, ◌≤◌, ◌<◌, ◌≡◌, refl, sym, ◌∙◌, subst, Bool, true, false, List, [], ◌∷◌, none,
  some, arith, ltb, leb, nat_beq, drop, select, count, length, All, min, Option-cases, Bool-cases,
  inl, inr,
}
use taop_protocol.Prelude.Int.{pos}
use taop_protocol.Sort.{
  IsOrdered, sort_by, by_key_desc, by_key_desc-IsOrder, count-sort_by, length-sort_by, All-sort_by,
  IsOrdered-sort_by,
}
use taop_protocol.Index.{Index, Alert}
use taop_protocol.Index.Alerts.Numbered.{IsNumbered}
use taop_protocol.Index.Alerts.{
  Number, finite, not_finite, list_alerts_after, cutoff_id, delete_alerts_up_to, prune_alerts,
  is_nonpositive, floor_ℕ, first_id,
}

-- Rows above a later bound are among those above an earlier one.
pub select_above :
    (cut after : ℕ) (xs : List Alert)
    → cut ≤ after
    → select (λ a. ltb after a.id) (select (λ a. ltb cut a.id) xs) ≡ select (λ a. ltb after a.id) xs
select_above cut after [] h = refl
select_above cut after (x ∷ xs) h = ground (arith, select_above cut after xs)

length-split :
    (cut : ℕ) (xs : List Alert)
    → length (select (λ a. ltb cut a.id) xs) + count (λ a. leb a.id cut) xs ≡ length xs
length-split cut [] = omega arith
length-split cut (x ∷ xs) = ground (arith, length-split cut xs)

-- What a pruning did: nothing, or a deletion up to a cutoff that is not above `above`.
pub data Pruned (above : ℕ) (ix : Index) : Index × ℕ → Type 0 where
  kept : Pruned above ix (ix, 0)
  cut : (cutoff : ℕ) → cutoff ≤ above → Pruned above ix (delete_alerts_up_to cutoff ix)

pub prune_alerts-Pruned :
    (keep : Number) (above : ℕ) (ix : Index) → Pruned above ix (prune_alerts keep above ix)
unfolding prune_alerts
prune_alerts-Pruned not_finite above ix = kept
prune_alerts-Pruned (finite keep fraction) above ix =
    elim (Bool-cases (is_nonpositive keep fraction)) [
      | inl e ↦ rw e kept
      | inr e ↦ rw e (elim (Option-cases (cutoff_id (floor_ℕ keep) ix)) [
        | inl n ↦ rw n kept
        | inr (id, n) ↦ rw n (elim (Bool-cases (leb (min id above) 0)) [
          | inl z ↦ rw z kept
          | inr z ↦ rw z (cut (min id above) (omega arith))
        ])
      ])
    ]

-- Pruning never takes an alert whose id is above the given one: from there on, the stream that the
-- dispatcher reads is what it was.
pub list_alerts_after-prune_alerts :
    (keep limit : Number) (keep_above_id after_id : ℕ) (ix : Index)
    → keep_above_id ≤ after_id
    → list_alerts_after after_id limit (prune_alerts keep keep_above_id ix).0
      ≡ list_alerts_after after_id limit ix
list_alerts_after-prune_alerts keep limit above after ix h =
    from (prune_alerts-Pruned keep above ix)
  where
    from :
        {r : Index × ℕ}
        → Pruned above ix r
        → list_alerts_after after limit r.0 ≡ list_alerts_after after limit ix
    from kept = refl
    from (cut c le) =
        unfold list_alerts_after delete_alerts_up_to in
        rw (select_above c after ix.alerts (omega arith))

-- The number that `pruneAlerts` returns is the number of alerts that it removed.
length-prune_alerts :
    (keep : Number) (keep_above_id : ℕ) (ix : Index)
    → length (prune_alerts keep keep_above_id ix).0.alerts + (prune_alerts keep keep_above_id ix).1
      ≡ length ix.alerts
length-prune_alerts keep above ix = from (prune_alerts-Pruned keep above ix)
  where
    from : {r : Index × ℕ} → Pruned above ix r → length r.0.alerts + r.1 ≡ length ix.alerts
    from kept = omega arith
    from (cut c le) = unfold delete_alerts_up_to in length-split c ix.alerts

first-counted :
    (k c : ℕ) (xs : List Alert) → first_id (drop k xs) ≡ some c → 0 < count (λ a. nat_beq a.id c) xs
unfolding first_id
first-counted zero c [] h = cc
first-counted zero c (x ∷ xs) h = ground arith
first-counted (suc k) c [] h = cc
first-counted (suc k) c (x ∷ xs) h = omega (arith, first-counted k c xs h)

first-All :
    (P : ℕ → Type 0) (k c : ℕ) (xs : List Alert)
    → first_id (drop k xs) ≡ some c
    → All (λ a. P a.id) xs
    → P c
unfolding first_id
first-All P zero c [] h all = absurd (cc)
first-All P zero c (x ∷ xs) h all = let e : x.id ≡ c = ground arith in subst P e all.0
first-All P (suc k) c [] h all = absurd (cc)
first-All P (suc k) c (x ∷ xs) h all = first-All P k c xs h all.1

none-above :
    (c : ℕ) (xs : List Alert) → All (λ y. leb y.id c ≡ true) xs → count (λ a. ltb c a.id) xs ≡ 0
none-above c [] h = refl
none-above c (x ∷ xs) h = ground (arith, none-above c xs h.1)

abbrev newest_first : Alert → Alert → Bool
newest_first = by_key_desc (λ a. a.id)

-- In descending order, the ids above the one at place `k` are those of the `k` places before it.
count-above :
    (k c : ℕ) (xs : List Alert)
    → IsOrdered newest_first xs
    → ((n : ℕ) → count (λ a. nat_beq a.id n) xs ≤ 1)
    → first_id (drop k xs) ≡ some c
    → count (λ a. ltb c a.id) xs ≡ k
unfolding first_id
count-above zero c [] o u h = cc
count-above zero c (x ∷ xs) o u h = ground (arith, none-above x.id xs o.0)
count-above (suc k) c [] o u h = cc
count-above (suc k) c (x ∷ xs) o u h = ground (
  arith,
  count-above k c xs o.1 (λ n. omega (arith, u n)) h,
  first-counted k c xs h,
  first-All (λ n. leb n x.id ≡ true) k c xs h o.0,
  u c,
)

length-select : (p : Alert → Bool) (xs : List Alert) → length (select p xs) ≡ count p xs
length-select p [] = refl
length-select p (x ∷ xs) = ground (arith, length-select p xs)

select-positive :
    (top : ℕ) (xs : List Alert)
    → All (λ a. (0 < a.id) × (a.id ≤ top)) xs
    → select (λ a. ltb 0 a.id) xs ≡ xs
select-positive top [] h = refl
select-positive top (x ∷ xs) h = ground (arith, select-positive top xs h.1, h.0.0)

first-none : (k : ℕ) (xs : List Alert) → first_id (drop k xs) ≡ none → length xs ≤ k
unfolding first_id
first-none zero [] h = omega arith
first-none zero (x ∷ xs) h = absurd (cc)
first-none (suc k) [] h = omega arith
first-none (suc k) (x ∷ xs) h = omega (arith, first-none k xs h)

first-some : (k c : ℕ) (xs : List Alert) → first_id (drop k xs) ≡ some c → k < length xs
unfolding first_id
first-some zero c [] h = absurd (cc)
first-some zero c (x ∷ xs) h = omega arith
first-some (suc k) c [] h = absurd (cc)
first-some (suc k) c (x ∷ xs) h = omega (arith, first-some k c xs h)

abbrev newest : List Alert → List Alert
newest = sort_by newest_first

module _ (keep top : ℕ) (ix : Index) (v : IsNumbered top ix.alerts) where
  cutoff-count :
      (id : ℕ)
      → first_id (drop keep (newest ix.alerts)) ≡ some id
      → count (λ a. ltb id a.id) ix.alerts ≡ keep
  cutoff-count id h =
      sym (count-sort_by (λ a. ltb id a.id) newest_first ix.alerts)
      ∙ count-above keep id (newest ix.alerts)
          (IsOrdered-sort_by newest_first (by_key_desc-IsOrder (λ a. a.id)) ix.alerts)
          (λ n. rw (count-sort_by (λ a. nat_beq a.id n) newest_first ix.alerts) (v.once n)) h

  cutoff-within :
      (id : ℕ) → first_id (drop keep (newest ix.alerts)) ≡ some id → (0 < id) × (id ≤ top)
  cutoff-within id h =
      first-All (λ n. (0 < n) × (n ≤ top)) keep id (newest ix.alerts) h
        (All-sort_by (λ a. (0 < a.id) × (a.id ≤ top)) newest_first ix.alerts v.within)

-- With every id at most the delivery cursor, pruning keeps the `keep` newest alerts, all of them where
-- there are fewer: what is left is the alerts above some id, and as many.
pub prune_alerts_newest :
    (keep keep_above_id : ℕ) (ix : Index)
    → 0 < keep
    → IsNumbered keep_above_id ix.alerts
    → (cutoff : ℕ) × ((prune_alerts (finite (pos keep) false) keep_above_id ix).0.alerts
        ≡ select (λ a. ltb cutoff a.id) ix.alerts)
      × (length (prune_alerts (finite (pos keep) false) keep_above_id ix).0.alerts
          ≡ min keep (length ix.alerts))
unfolding prune_alerts cutoff_id
prune_alerts_newest keep top ix h v =
    elim (Option-cases (first_id (drop keep (newest ix.alerts)))) [
      | inl e ↦ (
        0,
        ground (arith, e, select-positive top ix.alerts v.within),
        ground
            (arith, e, first-none keep (newest ix.alerts) e, length-sort_by newest_first ix.alerts),
      )
      | inr (id, e) ↦ (
        id,
        ground (arith, e, cutoff-within keep top ix v id e),
        ground (
          arith,
          e,
          cutoff-within keep top ix v id e,
          cutoff-count keep top ix v id e,
          length-select (λ a. ltb id a.id) ix.alerts,
          first-some keep id (newest ix.alerts) e,
          length-sort_by newest_first ix.alerts,
        ),
      )
    ]
