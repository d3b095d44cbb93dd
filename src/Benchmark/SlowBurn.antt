-- ===== src/Benchmark/SlowBurn.antt =====
-- packages/benchmark/src/scenarios/slowBurn.ts: an attacker builds up reputation, takes one harvest and
-- is found out. Not modelled: the ratio of slashable capital to the harvest, the texts.
pub mod Support
pub mod Days
pub mod Climb
pub mod Outcomes
pub mod Reached
pub mod Thresholds
use taop_protocol.Prelude.{
  ℕ, zero, suc, ◌+◌, ◌*◌, ◌/◌, ◌%◌, ◌≡◌, Bool, true, false, List, [], ◌∷◌, Option, none, some, leb,
  if◌then◌else◌, length, get_elem?,
}
use taop_protocol.Prelude.Int.{ℤ, pos, ◌+ℤ◌, ◌-ℤ◌}
use taop_protocol.Benchmark.Economics.{wei_per_eth, tx_cost, gas_register_capability_eth}
use taop_protocol.Benchmark.Mechanisms.{
  MechanismParams, AgentState, MechanismState, Kind, requires_receipts, base_state, agent_of,
  ensure, modify, or_same,
}
use taop_protocol.Benchmark.Mechanisms.Operations.{
  spend, lock_stake, attest, rate, slashable, slash_capability, lock_capital,
}
use taop_protocol.Benchmark.Mechanisms.Scoring.{score, capital_required_for_score}
use taop_protocol.Benchmark.Collusion.{numbered}

pub record SlowBurnConfig : Type 0 where
  pub target_score : ℕ
  pub harvest_value_wei : ℕ
  pub attests_per_day : ℕ
  pub horizon_days : ℕ
  pub accomplices : ℕ

abbrev pub default_slow_burn_config : SlowBurnConfig
default_slow_burn_config = record {
  target_score = 50;
  harvest_value_wei = 5 * wei_per_eth;
  attests_per_day = 2;
  horizon_days = 180;
  accomplices = 64;
}

abbrev pub day_secs : ℕ
day_secs = 24 * 60 * 60

-- The id of the attacker; the accomplices have the ids from 1 on.
abbrev pub attacker : ℕ
attacker = 0

unfoldable pub accomplice_ids : Kind → SlowBurnConfig → List ℕ
unfolding requires_receipts numbered
accomplice_ids kind config = if requires_receipts kind then numbered 1 config.accomplices else []

unfoldable pub ensure_all : List ℕ → MechanismState → MechanismState
ensure_all [] state = state
ensure_all (id ∷ ids) state = ensure_all ids (ensure state id)

-- What the two nested loops change: `receiptIndex` and the mechanism's state.
pub record Attack : Type 0 where
  pub receipt_index : ℕ
  pub state : MechanismState

-- One round of the inner loop. The list has an element at the index unless it is empty.
unfoldable pub attest_once : Kind → List ℕ → ℕ → Attack → Attack
unfolding attest rate
attest_once kind ids now attack =
    let attested = (attest attacker now attack.state).1 in
    elim (get_elem? ids (attack.receipt_index % length ids)) [
      | none ↦ record attack { state = attested }
      | some counterparty ↦ record {
        receipt_index = attack.receipt_index + 1;
        state = rate kind counterparty attacker attested;
      }
    ]

unfoldable pub attest_times : Kind → List ℕ → ℕ → ℕ → Attack → Attack
unfolding attest_once
attest_times kind ids now zero attack = attack
attest_times kind ids now (suc n) attack =
    attest_times kind ids now n (attest_once kind ids now attack)

-- `daysToThreshold`, `scoreAtHarvest`, and the state when the loop ends.
pub record Burned : Type 0 where
  pub days_to_threshold : Option ℕ
  pub score_at_harvest : ℕ
  pub state : MechanismState

pub record SlowBurnMetrics : Type 0 where
  pub days_to_threshold : Option ℕ
  pub score_at_harvest : ℕ
  pub spent_wei : ℤ
  pub slashable_wei : ℕ
  pub net_attacker_profit_wei : ℤ
  pub score_after_slash : ℕ

-- The sum of `ensureAgent(state, id).spentWei`.
unfoldable pub spent_by : List ℕ → MechanismState → ℤ
unfolding agent_of
spent_by [] state = pos 0
spent_by (id ∷ ids) state = (agent_of state id).spent_wei +ℤ spent_by ids state

-- `record.disputes = record.completions`
abbrev pub dispute_all : AgentState → AgentState
dispute_all agent = record agent { disputes = agent.completions }

module _ (params : MechanismParams) (kind : Kind) (config : SlowBurnConfig) where
  unfoldable pub lock_required : MechanismState → MechanismState
  unfolding lock_capital capital_required_for_score
  lock_required state = elim (capital_required_for_score params kind config.target_score) [
    | none ↦ state
    | some wei ↦ or_same state (lock_capital params kind attacker wei state)
  ]

  -- The state before the first day.
  unfoldable pub prepare : MechanismState
  unfolding lock_required ensure_all accomplice_ids
  prepare = ensure_all (accomplice_ids kind config) (
      lock_required (
        modify attacker
          (λ a.
            spend (tx_cost gas_register_capability_eth) (lock_stake params.capability_bond_wei a))
          (ensure (base_state 0) attacker)))

  -- The loop over the days: `left` of them remain, the first of which is `day`.
  unfoldable pub burn_days : ℕ → ℕ → Attack → Burned
  unfolding attest_times score
  burn_days zero day attack = record {
    days_to_threshold = none;
    score_at_harvest = 0;
    state = attack.state;
  }
  burn_days (suc left) day attack =
      let now = day * day_secs in
      let attested =
        attest_times kind (accomplice_ids kind config) now config.attests_per_day attack in
      let (reached, scored) = score params kind attacker now attested.state in
      let rest = burn_days left (day + 1) (record attested { state = scored }) in
      if leb config.target_score reached
      then record { days_to_threshold = some day; score_at_harvest = reached; state = scored }
      else rest

  -- The slash and the disputes, once the fraud is found out.
  unfoldable pub punish : Option ℕ → MechanismState → MechanismState
  unfolding slash_capability
  punish none state = state
  punish (some day) state =
      modify attacker dispute_all (slash_capability params kind attacker state)

  unfoldable pub profit : Option ℕ → ℕ → ℤ → ℤ
  profit none slashable_wei spent_wei = pos 0
  profit (some day) slashable_wei spent_wei =
      (pos config.harvest_value_wei -ℤ pos slashable_wei) -ℤ spent_wei

  unfoldable pub run_slow_burn_harvest : SlowBurnMetrics
  unfolding burn_days prepare punish profit spent_by slashable score
  run_slow_burn_harvest =
      let burned =
        burn_days config.horizon_days 1 (record { receipt_index = 0; state = prepare }) in
      let slashable_wei = slashable params kind burned.state attacker in
      let spent_wei = spent_by (attacker ∷ accomplice_ids kind config) burned.state in
      let punished = punish burned.days_to_threshold burned.state in
      record {
        days_to_threshold = burned.days_to_threshold;
        score_at_harvest = burned.score_at_harvest;
        spent_wei = spent_wei;
        slashable_wei = slashable_wei;
        net_attacker_profit_wei = profit burned.days_to_threshold slashable_wei spent_wei;
        score_after_slash =
            (score params kind attacker (config.horizon_days * day_secs) punished).0;
      }
