-- ===== src/Benchmark/Mechanisms/Scoring.antt =====
-- The scores of packages/benchmark/src/mechanisms.ts.
use taop_protocol.Prelude.{
  ℕ, ◌+◌, ◌-◌, ◌*◌, ◌/◌, ◌&&◌, [], ◌∷◌, Option, none, some, ltb, leb, if◌then◌else◌, min, length,
  nat_eq,
}
use taop_protocol.Table.{Table}
use taop_protocol.Benchmark.Mechanisms.{
  MechanismParams, AgentState, MechanismState, Kind, base_taop_v05, base_taop_v03,
  base_taop_two_sided, base_taop_self_attest, naive_count, no_decay, peer_ratings, stake_gated,
  agent_of, ensure, bps_denominator, v05_stake_per_point_wei, v05_free_points, stake_per_point_wei,
}

-- The sum of the values.
unfoldable pub sum_counts : Table ℕ ℕ → ℕ
sum_counts [] = 0
sum_counts ((k, n) ∷ rest) = n + sum_counts rest

unfoldable pub confirmed_count : AgentState → ℕ
unfolding sum_counts
confirmed_count agent = sum_counts agent.confirmations

unfoldable pub distinct_counterparties : AgentState → ℕ
distinct_counterparties agent = length agent.raters

unfoldable pub decay_bps : ℕ → ℕ → ℕ → ℕ
decay_bps elapsed grace_secs horizon_secs =
    if ltb grace_secs elapsed
    then (let decayed = elapsed - grace_secs in
        if leb horizon_secs decayed
        then 0
        else (horizon_secs - decayed) * bps_denominator / horizon_secs)
    else bps_denominator

unfoldable pub linear_decay_score : ℕ → ℕ → ℕ → ℕ → ℕ → ℕ → ℕ
unfolding decay_bps
linear_decay_score count disputes last_activity now grace_secs horizon_secs =
    let net = if ltb disputes count then count - disputes else 0 in
    if ltb 0 last_activity && ltb 0 net
    then net * decay_bps (now - last_activity) grace_secs horizon_secs / bps_denominator
    else net

module _ (params : MechanismParams) where
  unfoldable pub capital_required_for_score : Kind → ℕ → Option ℕ
  capital_required_for_score base_taop_v05 target =
      some ((target - v05_free_points) * v05_stake_per_point_wei)
  capital_required_for_score stake_gated target = some (target * stake_per_point_wei)
  capital_required_for_score _ target = none

  -- `score` of DecayingMechanism, over a net signal.
  unfoldable pub decaying_score : ℕ → AgentState → ℕ → ℕ
  decaying_score net agent now =
      linear_decay_score net agent.disputes agent.last_activity now params.decay_grace_secs
        params.decay_horizon_secs

  -- The value of `score` for an agent. (The state it leaves is that of `ensure`.) Where the source
  -- clips a negative difference at 0 after a minimum, the difference of ℕ has stopped there before.
  unfoldable pub score_of : Kind → AgentState → ℕ → ℕ
  score_of base_taop_v05 agent now =
      min (decaying_score (distinct_counterparties agent) agent now)
        (v05_free_points + agent.locked_wei / v05_stake_per_point_wei)
  score_of base_taop_v03 agent now = decaying_score (distinct_counterparties agent) agent now
  score_of base_taop_two_sided agent now = decaying_score (confirmed_count agent) agent now
  score_of base_taop_self_attest agent now = decaying_score agent.completions agent now
  score_of naive_count agent now = agent.completions
  score_of no_decay agent now = agent.completions - agent.disputes
  score_of peer_ratings agent now = distinct_counterparties agent - agent.disputes
  score_of stake_gated agent now =
      min (agent.completions - agent.disputes) (agent.locked_wei / stake_per_point_wei)

  unfoldable pub score : Kind → ℕ → ℕ → MechanismState → ℕ × MechanismState
  score kind agent now state = (score_of kind (agent_of state agent) now, ensure state agent)
