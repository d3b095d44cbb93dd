-- ===== src/Tests/Attacks.antt =====
-- The attack simulations of packages/benchmark/src/scenarios.
use taop_protocol.Prelude.{◌≢◌, ℕ, true, ◌≤◌, ◌<◌, ◌≡◌, refl, none, some, length, arith}
use taop_protocol.Prelude.Int.{pos}
use taop_protocol.Table.{find, put}
use taop_protocol.Benchmark.Mechanisms.{
  base_taop_v03, base_taop_v05, default_params, agent_of, ensure, modify, submit_completion,
  requires_receipts, add_confirmation,
}
use taop_protocol.Benchmark.Mechanisms.Operations.{attest, rate, find_first, update_first, is_open}
use taop_protocol.Benchmark.Mechanisms.Scoring.{
  score, score_of, decaying_score, linear_decay_score, decay_bps, distinct_counterparties,
  capital_required_for_score,
}
use taop_protocol.Benchmark.Collusion.{numbered}
use taop_protocol.Benchmark.Random.{two_32, rng, next_state, output, random, state_after}
use taop_protocol.Benchmark.Random.Period.{state_after-period}
use taop_protocol.Benchmark.SlowBurn.{
  SlowBurnConfig, default_slow_burn_config, accomplice_ids, ensure_all, attest_once, attest_times,
  lock_required, prepare, burn_days, run_slow_burn_harvest,
}
use taop_protocol.Benchmark.SlowBurn.Thresholds.{IsFirst, slow_burn-reached}
use taop_protocol.Benchmark.SlowBurn.Outcomes.{slow_burn-unreachable, slow_burn-punished}

-- Two accomplices are enough for a score of 2, on the second day.
abbrev small : SlowBurnConfig
small = record {
  target_score = 2;
  harvest_value_wei = 1000;
  attests_per_day = 1;
  horizon_days = 3;
  accomplices = 2;
}

abbrev lonely : SlowBurnConfig
lonely = record small { accomplices = 1 }

small_reaches :
    (run_slow_burn_harvest default_params base_taop_v03 small).days_to_threshold ≡ some 2
unfolding run_slow_burn_harvest burn_days prepare lock_required capital_required_for_score
    accomplice_ids ensure_all attest_times attest_once attest rate submit_completion modify agent_of
    ensure find put find_first update_first is_open add_confirmation score score_of decaying_score
    linear_decay_score decay_bps distinct_counterparties numbered requires_receipts
small_reaches = refl

few_accomplices : length (accomplice_ids base_taop_v05 lonely) < lonely.target_score
unfolding accomplice_ids numbered requires_receipts
few_accomplices = omega arith

slow_burn-unreachable_example :
    let metrics = run_slow_burn_harvest default_params base_taop_v05 lonely in
    (metrics.days_to_threshold ≡ none) × (metrics.net_attacker_profit_wei ≡ pos 0)
slow_burn-unreachable_example =
    slow_burn-unreachable default_params base_taop_v05 lonely refl few_accomplices

slow_burn-punished_example :
    let metrics = run_slow_burn_harvest default_params base_taop_v03 small in
    (2 ≤ metrics.score_at_harvest) × (1 ≤ 2) × (2 ≤ 3) × (metrics.score_after_slash ≡ 0)
slow_burn-punished_example =
    slow_burn-punished default_params base_taop_v03 small 2 (λ e. absurd (cc)) small_reaches

v03_takes_receipts : requires_receipts base_taop_v03 ≡ true
unfolding requires_receipts
v03_takes_receipts = refl

slow_burn-reached_example :
    (day : ℕ) × ((run_slow_burn_harvest default_params base_taop_v03
        default_slow_burn_config).days_to_threshold
      ≡ some day)
    × IsFirst default_slow_burn_config day
slow_burn-reached_example =
    slow_burn-reached default_params base_taop_v03 default_slow_burn_config refl v03_takes_receipts
      (omega arith) (omega arith) (omega arith) (omega arith)

-- The first number of the seed 42, 0.6011037519201636.
first_of_42 : (random (rng 42)).0 ≡ 2_581_720_956
unfolding random next_state output
first_of_42 = refl

state_after-period_example :
    (state_after 0 (rng 42) ≢ state_after 1000 (rng 42)) × (state_after two_32 (rng 42) ≡ rng 42)
state_after-period_example = state_after-period 42 0 1000 (omega arith) (omega arith)
