-- ===== src/Index/Scores/Diversity.antt =====
-- The distinct count of an agent against the confirmations it is derived from.
use taop_protocol.Prelude.{
  ℕ, ◌+◌, ◌-◌, ◌<◌, ◌≡◌, refl, Bool, Text, Option, none, some, ◌==◌, to_lower, text_eq, pair_eq,
  arith, ◌⊎◌, inl, inr,
}
use taop_protocol.Table.{Table, find, put, delete, update, upsert}
use taop_protocol.Table.Laws.{find-put, find-delete, find-update, find-upsert, upsert-eq-put}
use taop_protocol.Table.Counting.{
  count_rows, IsKeyed, put-IsKeyed, delete-IsKeyed, count-put, count-delete,
}
use taop_protocol.Index.{Index}
use taop_protocol.Index.Scores.{Delta, plus_one, minus_one, next_count, or_zero, bump_counterparty}

-- The rows of one agent.
abbrev pub of_agent {κ} : {V : Type κ} → Text → Text × Text → V → Bool
of_agent a k v = k.0 == a

-- Against the confirmations `conf`, the distinct counts `div` are right.
pub record Counts (conf : Table (Text × Text) ℕ) (div : Table Text ℕ) : Type 0 where
  pub keyed : IsKeyed conf
  pub positive : (k : Text × Text) (n : ℕ) → find k conf ≡ some n → 0 < n
  pub distinct : (a : Text) → or_zero (find a div) ≡ count_rows (of_agent a) conf

abbrev pub IsDiverse : Index → Type 0
IsDiverse ix = Counts ix.counterparty_confirmations ix.agent_diversity

module _ (k : Text × Text) (conf : Table (Text × Text) ℕ) (div : Table Text ℕ) (b : Text) where
  distinct-delete :
      (n : ℕ)
      → IsKeyed conf
      → find k conf ≡ some n
      → or_zero (find b div) ≡ count_rows (of_agent b) conf
      → or_zero (find b (update k.0 (λ n. n - 1) div)) ≡ count_rows (of_agent b) (delete k conf)
  distinct-delete n u e h =
      rw (find-update k.0 b (λ n. n - 1) div)
        (ground (arith, count-delete (of_agent b) k conf u, e, h))

  distinct-put_new :
      (n : ℕ)
      → find k conf ≡ none
      → or_zero (find b div) ≡ count_rows (of_agent b) conf
      → or_zero (find b (upsert k.0 1 (λ n. n + 1) div)) ≡ count_rows (of_agent b) (put k n conf)
  distinct-put_new n e h =
      rw (find-upsert k.0 b 1 (λ n. n + 1) div)
        (ground (arith, count-put (of_agent b) k n conf, e, h, text_eq.equal_iff k.0 b))

  distinct-put_old :
      (n m : ℕ)
      → find k conf ≡ some m
      → or_zero (find b div) ≡ count_rows (of_agent b) conf
      → or_zero (find b div) ≡ count_rows (of_agent b) (put k n conf)
  distinct-put_old n m e h = ground (arith, count-put (of_agent b) k n conf, e, h)

abbrev key : Text → Text → Text × Text
key agent counterparty = (to_lower agent, to_lower counterparty)

-- What `bump_counterparty` leaves in its two tables, by the count that it finds.
abbrev Bumped : Text × Text → Delta → Option ℕ → Index → Index → Type 0
Bumped k plus_one none ix ix' =
    (ix'.counterparty_confirmations ≡ put k 1 ix.counterparty_confirmations)
    × (ix'.agent_diversity ≡ upsert k.0 1 (λ n. n + 1) ix.agent_diversity)
Bumped k plus_one (some n) ix ix' =
    (ix'.counterparty_confirmations ≡ put k (n + 1) ix.counterparty_confirmations)
    × (ix'.agent_diversity ≡ ix.agent_diversity)
Bumped k minus_one none ix ix' =
    (ix'.counterparty_confirmations ≡ delete k ix.counterparty_confirmations)
    × (ix'.agent_diversity ≡ ix.agent_diversity)
Bumped k minus_one (some n) ix ix' =
    ((n ≡ 1)
      × (ix'.counterparty_confirmations ≡ delete k ix.counterparty_confirmations)
      × (ix'.agent_diversity ≡ update k.0 (λ n. n - 1) ix.agent_diversity))
    ⊎ ((1 < n)
        × (ix'.counterparty_confirmations ≡ put k (n - 1) ix.counterparty_confirmations)
        × (ix'.agent_diversity ≡ ix.agent_diversity))

module _ (agent counterparty : Text) (ix : Index) where
  pub bump_counterparty-Bumped :
      (delta : Delta) (o : Option ℕ)
      → find (key agent counterparty) ix.counterparty_confirmations ≡ o
      → ((n : ℕ) → o ≡ some n → 0 < n)
      → Bumped (key agent counterparty) delta o ix (bump_counterparty agent counterparty delta ix)
  unfolding bump_counterparty next_count
  bump_counterparty-Bumped plus_one none e p = (
    ground (
      arith,
      e,
      upsert-eq-put {V = ℕ} (key agent counterparty) 1 (λ _. 1) ix.counterparty_confirmations,
    ),
    ground (arith, e),
  )
  bump_counterparty-Bumped plus_one (some n) e p = (
    ground (
      arith,
      e,
      upsert-eq-put {V = ℕ} (key agent counterparty) (n + 1) (λ _. n + 1)
          ix.counterparty_confirmations,
    ),
    ground (arith, e, p n refl),
  )
  bump_counterparty-Bumped minus_one none e p = (ground (arith, e), ground (arith, e))
  bump_counterparty-Bumped minus_one (some n) e p = ground (
    arith,
    e,
    p n refl,
    upsert-eq-put {V = ℕ} (key agent counterparty) (n - 1) (λ _. n - 1)
        ix.counterparty_confirmations,
  )

module _ (k : Text × Text) (ix ix' : Index) (v : IsDiverse ix) where
  IsDiverse-delete :
      (n : ℕ)
      → find k ix.counterparty_confirmations ≡ some n
      → ix'.counterparty_confirmations ≡ delete k ix.counterparty_confirmations
      → ix'.agent_diversity ≡ update k.0 (λ n. n - 1) ix.agent_diversity
      → IsDiverse ix'
  IsDiverse-delete n e c d = record {
    keyed = rw c (delete-IsKeyed k _ v.keyed);
    positive =
        rw c
          (λ j m h. ground (arith, find-delete k j ix.counterparty_confirmations, v.positive j m));
    distinct = rw (c, d) (λ b. distinct-delete k _ _ b n v.keyed e (v.distinct b));
  }

  IsDiverse-absent :
      find k ix.counterparty_confirmations ≡ none
      → ix'.counterparty_confirmations ≡ delete k ix.counterparty_confirmations
      → ix'.agent_diversity ≡ ix.agent_diversity
      → IsDiverse ix'
  IsDiverse-absent e c d = record {
    keyed = rw c (delete-IsKeyed k _ v.keyed);
    positive =
        rw c
          (λ j m h. ground (arith, find-delete k j ix.counterparty_confirmations, v.positive j m));
    distinct =
        rw (c, d)
          (λ b. ground (arith, count-delete (of_agent {V = ℕ} b) k _ v.keyed, e, v.distinct b));
  }

  IsDiverse-put :
      (m : ℕ)
      → 0 < m
      → ix'.counterparty_confirmations ≡ put k m ix.counterparty_confirmations
      → ((b : Text)
          → or_zero (find b ix'.agent_diversity)
            ≡ count_rows (of_agent b) (put k m ix.counterparty_confirmations))
      → IsDiverse ix'
  IsDiverse-put m p c d = record {
    keyed = rw c (put-IsKeyed k m _ v.keyed);
    positive =
        rw c
          (λ j n h. ground (arith, find-put k j m ix.counterparty_confirmations, v.positive j n));
    distinct = rw c d;
  }

  Bumped-IsDiverse :
      (delta : Delta) (o : Option ℕ)
      → find k ix.counterparty_confirmations ≡ o
      → Bumped k delta o ix ix'
      → IsDiverse ix'
  Bumped-IsDiverse plus_one none e b =
      IsDiverse-put 1 (omega arith) b.0 (rw b.1 (λ c. distinct-put_new k _ _ c 1 e (v.distinct c)))
  Bumped-IsDiverse plus_one (some n) e b =
      IsDiverse-put (n + 1) (omega arith) b.0
        (rw b.1 (λ c. distinct-put_old k _ _ c (n + 1) n e (v.distinct c)))
  Bumped-IsDiverse minus_one none e b = IsDiverse-absent e b.0 b.1
  Bumped-IsDiverse minus_one (some n) e (inl b) = IsDiverse-delete n e b.1 b.2
  Bumped-IsDiverse minus_one (some n) e (inr b) =
      IsDiverse-put (n - 1) (omega arith) b.1
        (rw b.2 (λ c. distinct-put_old k _ _ c (n - 1) n e (v.distinct c)))

-- A confirmation more or less leaves every agent's distinct count the number of its counterparties.
pub bump_counterparty-IsDiverse :
    (agent counterparty : Text) (delta : Delta) (ix : Index)
    → IsDiverse ix
    → IsDiverse (bump_counterparty agent counterparty delta ix)
bump_counterparty-IsDiverse agent counterparty delta ix v =
    Bumped-IsDiverse (key agent counterparty) ix _ v delta _ refl
      (bump_counterparty-Bumped agent counterparty ix delta _ refl (v.positive _))
