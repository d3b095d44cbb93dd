-- ===== src/Benchmark/Mechanisms.antt =====
-- packages/benchmark/src/mechanisms.ts: the state of a mechanism and the operations of its classes.
-- The class hierarchy is the data type `Kind`, a method that classes override is a function by
-- clauses over it, and an object that the source mutates is a row of the state's tables.
pub mod Operations
pub mod Scoring
pub mod Scores
pub mod Receipts
pub mod Histories
pub mod Funds
use taop_protocol.Prelude.{
  ℕ, zero, suc, ◌+◌, ◌-◌, ◌*◌, ◌/◌, ◌≡◌, Bool, true, false, not, ◌&&◌, List, [], ◌∷◌, ◌++◌, Option,
  none, some, ltb, leb, nat_beq, if◌then◌else◌, min, length, count, nat_eq,
}
use mathlib.Core.List.{reverse}
use taop_protocol.Prelude.Int.{ℤ, pos, ◌+ℤ◌, ◌-ℤ◌}
use taop_protocol.Table.{Table, find, put, delete}
use taop_protocol.Benchmark.Economics.{
  wei_per_eth, tx_cost, gas_attest_completion, gas_attest_receipt, gas_challenge_completion,
  gas_certify_capability,
}

abbrev pub bps_denominator : ℕ
bps_denominator = 10000

pub record MechanismParams : Type 0 where
  pub challenge_bond_wei : ℕ
  pub capability_bond_wei : ℕ
  pub decay_grace_secs : ℕ
  pub decay_horizon_secs : ℕ

-- 0.01 and 0.05 ETH
abbrev pub default_challenge_bond_wei : ℕ
default_challenge_bond_wei = wei_per_eth / 100

abbrev pub default_capability_bond_wei : ℕ
default_capability_bond_wei = 5 * wei_per_eth / 100

abbrev pub v05_stake_per_point_wei : ℕ
v05_stake_per_point_wei = wei_per_eth / 100

abbrev pub v05_free_points : ℕ
v05_free_points = 0

abbrev pub v05_slash_per_dispute_wei : ℕ
v05_slash_per_dispute_wei = 5 * wei_per_eth / 100

-- `stakePerPointWei` of the stake-gated baseline.
abbrev pub stake_per_point_wei : ℕ
stake_per_point_wei = wei_per_eth / 100

abbrev pub default_params : MechanismParams
default_params = record {
  challenge_bond_wei = default_challenge_bond_wei;
  capability_bond_wei = default_capability_bond_wei;
  decay_grace_secs = 30 * 24 * 60 * 60;
  decay_horizon_secs = 150 * 24 * 60 * 60;
}

-- An agent, less its id, which is its key. The set of raters is a table without values.
pub record AgentState : Type 0 where
  pub completions : ℕ
  pub disputes : ℕ
  pub confirmations : Table ℕ ℕ
  pub raters : Table ℕ (Unit {0})
  pub last_activity : ℕ
  pub spent_wei : ℤ
  pub locked_wei : ℕ
  pub slashed_wei : ℕ

pub record CompletionState : Type 0 where
  pub id : ℕ
  pub agent : ℕ
  pub timestamp : ℕ
  pub challenged : Bool
  pub disputed : Bool
  pub challenger : Option ℕ
  pub receipt_from : Option ℕ

pub record MechanismState : Type 0 where
  pub now : ℕ
  pub next_completion_id : ℕ
  pub agents : Table ℕ AgentState
  pub completions : List CompletionState

-- The classes of `allMechanisms`.
pub data Kind : Type 0 where
  base_taop_v05 base_taop_v03 base_taop_two_sided base_taop_self_attest : Kind
  naive_count no_decay peer_ratings stake_gated : Kind

unfoldable pub uses_peer_ratings : Kind → Bool
uses_peer_ratings base_taop_v05 = true
uses_peer_ratings base_taop_v03 = true
uses_peer_ratings base_taop_two_sided = true
uses_peer_ratings peer_ratings = true
uses_peer_ratings _ = false

unfoldable pub requires_receipts : Kind → Bool
requires_receipts base_taop_v05 = true
requires_receipts base_taop_v03 = true
requires_receipts base_taop_two_sided = true
requires_receipts _ = false

abbrev pub new_agent : AgentState
new_agent = record {
  completions = 0;
  disputes = 0;
  confirmations = [];
  raters = [];
  last_activity = 0;
  spent_wei = pos 0;
  locked_wei = 0;
  slashed_wei = 0;
}

abbrev pub base_state : ℕ → MechanismState
base_state now = record { now = now; next_completion_id = 1; agents = []; completions = [] }

abbrev pub or_new : Option AgentState → AgentState
or_new none = new_agent
or_new (some agent) = agent

-- The state after a method that not every mechanism has.
abbrev pub or_same : MechanismState → Option MechanismState → MechanismState
or_same state none = state
or_same state (some next) = next

-- The agent that `ensure` returns, and the state that it leaves.
unfoldable pub agent_of : MechanismState → ℕ → AgentState
agent_of state id = or_new (find id state.agents)

unfoldable pub ensure : MechanismState → ℕ → MechanismState
unfolding agent_of
ensure state id = record state { agents = put id (agent_of state id) state.agents }

-- `ensure`, and a mutation of the agent.
unfoldable pub modify : ℕ → (AgentState → AgentState) → MechanismState → MechanismState
unfolding agent_of
modify id f state = record state { agents = put id (f (agent_of state id)) state.agents }

abbrev pub count_completion : ℕ → AgentState → AgentState
count_completion now agent = record agent {
  completions = agent.completions + 1;
  last_activity = now;
}

unfoldable pub submit_completion : ℕ → ℕ → MechanismState → ℕ × MechanismState
unfolding modify
submit_completion agent now state =
    let id = state.next_completion_id in
    let counted = modify agent (count_completion now) state in
    (
      id,
      record counted {
        next_completion_id = id + 1;
        completions =
            state.completions
            ++ record {
              id = id;
              agent = agent;
              timestamp = now;
              challenged = false;
              disputed = false;
              challenger = none;
              receipt_from = none;
            }
              ∷ [];
      },
    )

unfoldable pub remove_confirmation : ℕ → AgentState → AgentState
remove_confirmation counterparty agent = elim (find counterparty agent.confirmations) [
  | none ↦ agent
  | some current ↦
      if leb current 1
      then record agent {
        confirmations = delete counterparty agent.confirmations;
        raters = delete counterparty agent.raters;
      }
      else record agent { confirmations = put counterparty (current - 1) agent.confirmations }
]

-- `confirmations.set(from, (confirmations.get(from) ?? 0) + 1)` and `raters.add(from)`.
abbrev pub or_zero : Option ℕ → ℕ
or_zero none = 0
or_zero (some n) = n

unfoldable pub add_confirmation : ℕ → AgentState → AgentState
add_confirmation counterparty agent = record agent {
  confirmations =
      put counterparty (or_zero (find counterparty agent.confirmations) + 1) agent.confirmations;
  raters = put counterparty tt agent.raters;
}

unfoldable pub all_mechanisms : List Kind
all_mechanisms =
    base_taop_v05 ∷ base_taop_v03 ∷ base_taop_two_sided ∷ base_taop_self_attest ∷ naive_count
    ∷ no_decay ∷ peer_ratings ∷ stake_gated ∷ []
