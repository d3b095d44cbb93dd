-- ===== src/Benchmark/SlowBurn/Support.antt =====
-- What the score of the attacker of packages/benchmark/src/scenarios/slowBurn.ts rests on.
use taop_protocol.Prelude.{
  ℕ, suc, ◌+◌, ◌≤◌, ◌≡◌, refl, sym, ◌∙◌, ap, subst, true, List, [], ◌∷◌, length, arith, nat_beq,
  nat_beq_iff, nat_eq, Bool-cases, inl, inr,
}
use taop_protocol.Table.{Table, find, put}
use taop_protocol.Benchmark.Collusion.{member, add}
use taop_protocol.Benchmark.Collusion.Sets.{Distinct, Distinct-add, member-add, count-le-length}
use taop_protocol.Benchmark.Collusion.Rings.{length-le-count}
use taop_protocol.Benchmark.Mechanisms.{
  AgentState, new_agent, count_completion, add_confirmation, or_zero,
}
use taop_protocol.Benchmark.Mechanisms.Receipts.{keys, put_key, keys-put, keys-length}
use taop_protocol.Benchmark.Mechanisms.Scoring.{
  sum_counts, confirmed_count, distinct_counterparties,
}

pub put_key-eq-add : (k : ℕ) (ks : List ℕ) → put_key k ks ≡ add k ks
unfolding put_key add member
put_key-eq-add k [] = refl
put_key-eq-add k (j ∷ ks) = elim (Bool-cases (nat_beq j k)) [
  | inl e ↦ rw e (ap (λ i. i ∷ ks) (sym ((nat_beq_iff j k).0 e)))
  | inr e ↦ rw e (elim (Bool-cases (member k ks)) [
    | inl m ↦ rw m (ap (◌∷◌ j) (put_key-eq-add k ks ∙ rw m refl))
    | inr m ↦ rw m (ap (◌∷◌ j) (put_key-eq-add k ks ∙ rw m refl))
  ])
]

length-put {κ} : {V : Type κ} (k : ℕ) (v : V) (t : Table ℕ V) → length (put k v t) ≤ suc (length t)
unfolding put
length-put k v [] = omega arith
length-put k v ((j, w) ∷ t) = ground (arith, length-put k v t)

sum_counts-put :
    (k v : ℕ) (t : Table ℕ ℕ) → sum_counts (put k v t) + or_zero (find k t) ≡ v + sum_counts t
unfolding sum_counts put find
sum_counts-put k v [] = omega arith
sum_counts-put k v ((j, w) ∷ t) = elim (Bool-cases (nat_beq j k)) [
  | inl e ↦ rw e (omega arith)
  | inr e ↦ rw e (omega (arith, sum_counts-put k v t))
]

-- The confirmations and raters come from the accounts named, each rater once, and there are at least
-- `free` completions more than there are of either.
pub record IsSupported (ids : List ℕ) (free : ℕ) (a : AgentState) : Type 0 where
  pub confirmed : confirmed_count a + free ≤ a.completions
  pub rated : distinct_counterparties a + free ≤ a.completions
  pub distinct : Distinct (keys a.raters)
  pub within : (m : ℕ) → member m (keys a.raters) ≡ true → member m ids ≡ true

-- A score that counts raters is limited by the number of accounts.
pub distinct-le-accounts :
    (ids : List ℕ) (free : ℕ) (a : AgentState)
    → IsSupported ids free a
    → distinct_counterparties a ≤ length ids
unfolding distinct_counterparties
distinct-le-accounts ids free a v = omega (
  arith,
  keys-length {V = Unit {0}} a.raters,
  length-le-count (keys a.raters) ids v.distinct v.within,
  count-le-length (λ n. member n (keys a.raters)) ids,
)

pub new_agent-IsSupported : (ids : List ℕ) → IsSupported ids 0 new_agent
unfolding confirmed_count distinct_counterparties member sum_counts
new_agent-IsSupported ids = record {
  confirmed = omega arith;
  rated = omega arith;
  distinct = tt;
  within = λ m h. absurd (cc);
}

module _ (ids : List ℕ) where
  -- Money does not matter to it.
  pub frame :
      (free : ℕ) (a b : AgentState)
      → b.confirmations ≡ a.confirmations
      → b.raters ≡ a.raters
      → b.completions ≡ a.completions
      → IsSupported ids free a
      → IsSupported ids free b
  unfolding confirmed_count distinct_counterparties
  frame free a b c r n v = record {
    confirmed = rw (c, n) v.confirmed;
    rated = rw (r, n) v.rated;
    distinct = rw r v.distinct;
    within = rw r v.within;
  }

  pub loosen : (a : AgentState) → IsSupported ids 1 a → IsSupported ids 0 a
  loosen a v = record {
    confirmed = omega (arith, v.confirmed);
    rated = omega (arith, v.rated);
    distinct = v.distinct;
    within = v.within;
  }

  pub count_completion-IsSupported :
      (now : ℕ) (a : AgentState) → IsSupported ids 0 a → IsSupported ids 1 (count_completion now a)
  unfolding confirmed_count distinct_counterparties
  count_completion-IsSupported now a v = record {
    confirmed = omega (arith, v.confirmed);
    rated = omega (arith, v.rated);
    distinct = v.distinct;
    within = v.within;
  }

  pub add_confirmation-IsSupported :
      (from : ℕ) (a : AgentState)
      → member from ids ≡ true
      → IsSupported ids 1 a
      → IsSupported ids 0 (add_confirmation from a)
  unfolding confirmed_count distinct_counterparties add_confirmation
  add_confirmation-IsSupported from a known v =
      let new_keys : keys (put from tt a.raters) ≡ add from (keys a.raters) =
        keys-put {V = Unit {0}} from tt a.raters ∙ put_key-eq-add from (keys a.raters) in
      record {
        confirmed = omega (
          arith,
          v.confirmed,
          sum_counts-put from (or_zero (find from a.confirmations) + 1) a.confirmations,
        );
        rated = omega (arith, v.rated, length-put {V = Unit {0}} from tt a.raters);
        distinct = rw new_keys (Distinct-add from (keys a.raters) v.distinct);
        within = λ m h. elim (Bool-cases (nat_beq from m)) [
          | inl e ↦ subst (λ i. member i ids ≡ true) ((nat_beq_iff from m).0 e) known
          | inr e ↦
              v.within m (ground (arith, rw new_keys at h, member-add m from (keys a.raters), e))
        ];
      }
