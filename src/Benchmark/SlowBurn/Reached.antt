-- ===== src/Benchmark/SlowBurn/Reached.antt =====
-- The day on which the attack of packages/benchmark/src/scenarios/slowBurn.ts reaches the target score.
use taop_protocol.Prelude.{
  ℕ, zero, suc, ◌+◌, ◌-◌, ◌*◌, ◌≤◌, ◌≡◌, refl, sym, ◌∙◌, ap, subst, true, [], length, arith, leb,
  nat_eq, min,
}
use taop_protocol.Table.{find}
use taop_protocol.Benchmark.Collusion.{numbered}
use taop_protocol.Benchmark.Collusion.Rings.{length-numbered}
use taop_protocol.Benchmark.Economics.{tx_cost, gas_register_capability_eth}
use taop_protocol.Benchmark.Mechanisms.{
  MechanismParams, AgentState, MechanismState, Kind, base_taop_v05, base_taop_v03,
  base_taop_two_sided, base_taop_self_attest, naive_count, no_decay, peer_ratings, stake_gated,
  requires_receipts, base_state, agent_of, ensure, modify, v05_stake_per_point_wei,
}
use taop_protocol.Benchmark.Mechanisms.Operations.{spend, lock_stake, lock_capital}
use taop_protocol.Benchmark.Mechanisms.Scoring.{
  distinct_counterparties, decay_bps, linear_decay_score, decaying_score, score_of,
  capital_required_for_score,
}
use taop_protocol.Benchmark.Mechanisms.Receipts.{keys, keys-length}
use taop_protocol.Benchmark.Mechanisms.Funds.{agent_of-modify_same}
use taop_protocol.Benchmark.SlowBurn.{
  SlowBurnConfig, Attack, attacker, accomplice_ids, attest_times, lock_required, prepare,
}
use taop_protocol.Benchmark.SlowBurn.Days.{modify-keeps, ensure_all-keeps}
use taop_protocol.Benchmark.SlowBurn.Climb.{IsClimbed, Climbed, attest_once-Climbed}
use taop_protocol.Benchmark.SlowBurn.Outcomes.{counts_raters}

-- With recent activity and no dispute nothing decays.
linear_decay_score_recent : (count now g h : ℕ) → linear_decay_score count 0 now now g h ≡ count
unfolding linear_decay_score decay_bps
linear_decay_score_recent count now g h = ground arith

distinct-IsClimbed :
    (kind : Kind) (n target i : ℕ) (a : AgentState)
    → IsClimbed kind n target i a
    → distinct_counterparties a ≡ min i n
unfolding distinct_counterparties
distinct-IsClimbed kind n target i a c =
    sym (keys-length {V = Unit {0}} a.raters) ∙ ap length c.rated ∙ length-numbered 1 (min i n)

decaying_score-IsClimbed :
    (params : MechanismParams) (kind : Kind) (n target i now : ℕ) (a : AgentState)
    → IsClimbed kind n target i a
    → a.last_activity ≡ now
    → decaying_score params (distinct_counterparties a) a now ≡ min i n
unfolding decaying_score linear_decay_score distinct_counterparties
decaying_score-IsClimbed params kind n target i now a c last =
    rw (c.undisputed, last, distinct-IsClimbed kind n target i a c)
      (linear_decay_score_recent (min i n) now params.decay_grace_secs params.decay_horizon_secs)

pub leb-score_of :
    (params : MechanismParams) (kind : Kind) (n target i now : ℕ) (a : AgentState)
    → counts_raters kind ≡ true
    → requires_receipts kind ≡ true
    → IsClimbed kind n target i a
    → a.last_activity ≡ now
    → leb target (score_of params kind a now) ≡ leb target (min i n)
unfolding score_of requires_receipts
leb-score_of params base_taop_v05 n target i now a k r c last =
    rw (decaying_score-IsClimbed params base_taop_v05 n target i now a c last)
      (ground (arith, c.staked refl))
leb-score_of params base_taop_v03 n target i now a k r c last =
    rw (decaying_score-IsClimbed params base_taop_v03 n target i now a c last) refl
leb-score_of params base_taop_two_sided n target i now a k r c last = absurd (cc)
leb-score_of params base_taop_self_attest n target i now a k r c last = absurd (cc)
leb-score_of params naive_count n target i now a k r c last = absurd (cc)
leb-score_of params no_decay n target i now a k r c last = absurd (cc)
leb-score_of params peer_ratings n target i now a k r c last = absurd (cc)
leb-score_of params stake_gated n target i now a k r c last = absurd (cc)

record IsFresh (a : AgentState) : Type 0 where
  unrated : keys a.raters ≡ []
  undisputed : a.disputes ≡ 0

none_rated : (n : ℕ) → [] ≡ numbered 1 (min 0 n)
unfolding numbered
none_rated n = let zero_rounds : 0 ≡ min 0 n = omega arith in ap (numbered 1) zero_rounds

module _ (params : MechanismParams) (config : SlowBurnConfig) where
  lock_required-IsClimbed :
      (kind : Kind) (n : ℕ) (s : MechanismState)
      → counts_raters kind ≡ true
      → requires_receipts kind ≡ true
      → IsFresh (agent_of s attacker)
      → IsClimbed kind n config.target_score 0
          (agent_of (lock_required params kind config s) attacker)
  unfolding lock_required lock_capital capital_required_for_score requires_receipts numbered
  lock_required-IsClimbed base_taop_v05 n s k r f =
      let wei = (config.target_score - 0) * v05_stake_per_point_wei in
      rw (agent_of-modify_same attacker (lock_stake wei) s) (record {
        rated = f.unrated ∙ none_rated n;
        undisputed = f.undisputed;
        staked = λ _. omega arith;
      })
  lock_required-IsClimbed base_taop_v03 n s k r f = record {
    rated = f.unrated ∙ none_rated n;
    undisputed = f.undisputed;
    staked = λ e. absurd (cc);
  }
  lock_required-IsClimbed base_taop_two_sided n s k r f = absurd (cc)
  lock_required-IsClimbed base_taop_self_attest n s k r f = absurd (cc)
  lock_required-IsClimbed naive_count n s k r f = absurd (cc)
  lock_required-IsClimbed no_decay n s k r f = absurd (cc)
  lock_required-IsClimbed peer_ratings n s k r f = absurd (cc)
  lock_required-IsClimbed stake_gated n s k r f = absurd (cc)

  pub prepare-IsClimbed :
      (kind : Kind) (n : ℕ)
      → counts_raters kind ≡ true
      → requires_receipts kind ≡ true
      → IsClimbed kind n config.target_score 0 (agent_of (prepare params kind config) attacker)
  unfolding prepare ensure modify agent_of find
  prepare-IsClimbed kind n k r =
      ensure_all-keeps (IsClimbed kind n config.target_score 0) (accomplice_ids kind config) _ (
        lock_required-IsClimbed kind n _ k r (
          modify-keeps IsFresh attacker
            (λ a.
              spend (tx_cost gas_register_capability_eth) (lock_stake params.capability_bond_wei a))
            (ensure (base_state 0) attacker)
            (λ a f. record { unrated = f.unrated; undisputed = f.undisputed })
            (modify-keeps IsFresh attacker (λ a. a) (base_state 0) (λ a f. f)
              (record { unrated = refl; undisputed = refl }))))

module _ (kind : Kind) (n target : ℕ) (r : requires_receipts kind ≡ true) (some_one : 1 ≤ n)
    (now : ℕ) where
  -- Further rounds at the same time.
  attest_times-Climbed :
      (m i j : ℕ) (attack : Attack)
      → i + m ≡ j
      → Climbed kind n target r some_one i attack
      → (agent_of attack.state attacker).last_activity ≡ now
      → let next = attest_times kind (numbered 1 n) now m attack in
        Climbed kind n target r some_one j next
        × ((agent_of next.state attacker).last_activity ≡ now)
  unfolding attest_times
  attest_times-Climbed zero i j attack e c last =
      let same : i ≡ j = omega arith in
      (subst (λ x. Climbed kind n target r some_one x attack) same c, last)
  attest_times-Climbed (suc m) i j attack e c last =
      let (c1, last1) = attest_once-Climbed kind n target r some_one now i attack c in
      attest_times-Climbed m (suc i) j _ (omega arith) c1 last1

  -- The rounds of a day.
  attest_day-Climbed :
      (p i j : ℕ) (attack : Attack)
      → 1 ≤ p
      → i + p ≡ j
      → Climbed kind n target r some_one i attack
      → let next = attest_times kind (numbered 1 n) now p attack in
        Climbed kind n target r some_one j next
        × ((agent_of next.state attacker).last_activity ≡ now)
  unfolding attest_times
  attest_day-Climbed zero i j attack pos e c = absurd (omega arith)
  attest_day-Climbed (suc p) i j attack pos e c =
      let (c1, last1) = attest_once-Climbed kind n target r some_one now i attack c in
      attest_times-Climbed p (suc i) j _ (omega arith) c1 last1

-- A day of the simulation.
pub day-Climbed :
    (kind : Kind) (config : SlowBurnConfig) (r : requires_receipts kind ≡ true)
    (some_one : 1 ≤ config.accomplices) (now i j : ℕ) (attack : Attack)
    → 1 ≤ config.attests_per_day
    → i + config.attests_per_day ≡ j
    → Climbed kind config.accomplices config.target_score r some_one i attack
    → let next = attest_times kind (accomplice_ids kind config) now config.attests_per_day attack in
      Climbed kind config.accomplices config.target_score r some_one j next
      × ((agent_of next.state attacker).last_activity ≡ now)
unfolding accomplice_ids
day-Climbed kind config r some_one now i j attack pos e c = rw (r) (
    attest_day-Climbed kind config.accomplices config.target_score r some_one now
      config.attests_per_day i j attack pos e c)
