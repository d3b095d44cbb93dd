-- ===== src/Benchmark/Mechanisms/Operations.antt =====
-- The methods of packages/benchmark/src/mechanisms.ts that change the state.
use taop_protocol.Prelude.{
  ℕ, ◌+◌, ◌-◌, Bool, true, false, not, ◌&&◌, List, [], ◌∷◌, Option, none, some, nat_beq,
  if◌then◌else◌, min, nat_eq,
}
use mathlib.Core.List.{reverse}
use taop_protocol.Prelude.Int.{pos, ◌+ℤ◌, ◌-ℤ◌}
use taop_protocol.Benchmark.Economics.{
  tx_cost, gas_attest_completion, gas_attest_receipt, gas_challenge_completion,
  gas_certify_capability,
}
use taop_protocol.Benchmark.Mechanisms.{
  MechanismParams, AgentState, CompletionState, MechanismState, Kind, base_taop_v05, stake_gated,
  requires_receipts, agent_of, ensure, modify, submit_completion, remove_confirmation,
  add_confirmation, v05_slash_per_dispute_wei,
}

-- Array.prototype.find, and a mutation of the entry found.
unfoldable pub find_first : (CompletionState → Bool) → List CompletionState → Option CompletionState
find_first p [] = none
find_first p (c ∷ rest) = if p c then some c else find_first p rest

unfoldable pub update_first :
    (CompletionState → Bool)
    → (CompletionState → CompletionState)
    → List CompletionState
    → List CompletionState
update_first p f [] = []
update_first p f (c ∷ rest) = if p c then f c ∷ rest else c ∷ update_first p f rest

abbrev pub has_id : ℕ → CompletionState → Bool
has_id completion_id c = nat_beq c.id completion_id

abbrev pub attest_cost : ℕ
attest_cost = tx_cost gas_attest_completion

abbrev pub receipt_cost : ℕ
receipt_cost = tx_cost gas_attest_receipt

abbrev pub spend : ℕ → AgentState → AgentState
spend wei agent = record agent { spent_wei = agent.spent_wei +ℤ pos wei }

unfoldable pub attest : ℕ → ℕ → MechanismState → ℕ × MechanismState
unfolding submit_completion
attest agent now state =
    let (id, submitted) = submit_completion agent now state in
    (id, modify agent (spend attest_cost) submitted)

-- Whether a receipt for `to` may confirm this completion.
unfoldable pub is_open : ℕ → CompletionState → Bool
is_open to entry =
    nat_beq entry.agent to
    && is_none entry.receipt_from
    && not entry.challenged
    && not entry.disputed
  where
    is_none : Option ℕ → Bool
    is_none none = true
    is_none (some from) = false

unfoldable pub rate : Kind → ℕ → ℕ → MechanismState → MechanismState
unfolding requires_receipts
rate kind from to state =
    let paid = ensure (modify from (spend receipt_cost) state) to in
    if requires_receipts kind
    then elim (find_first (is_open to) (reverse state.completions)) [
      | none ↦ paid
      | some _ ↦ modify to (add_confirmation from) (record paid {
        completions = reverse (
            update_first (is_open to) (λ c. record c { receipt_from = some from })
              (reverse state.completions));
      })
    ]
    else modify to (add_confirmation from) paid

-- What a challenge, its success and its failure do to the challenger's funds.
module _ (params : MechanismParams) where
  abbrev pub pay_challenge : AgentState → AgentState
  pay_challenge agent = record agent {
    spent_wei =
        agent.spent_wei +ℤ pos (tx_cost gas_challenge_completion + params.challenge_bond_wei);
    locked_wei = agent.locked_wei + params.challenge_bond_wei;
  }

  abbrev pub return_bond : AgentState → AgentState
  return_bond agent = record agent {
    locked_wei = agent.locked_wei - params.challenge_bond_wei;
    spent_wei = agent.spent_wei -ℤ pos params.challenge_bond_wei;
  }

  abbrev pub forfeit_bond : AgentState → AgentState
  forfeit_bond agent = record agent {
    locked_wei = agent.locked_wei - params.challenge_bond_wei;
    slashed_wei = agent.slashed_wei + params.challenge_bond_wei;
  }

-- `if (completion.receiptFrom !== undefined) removeConfirmation(agent, completion.receiptFrom)`
abbrev pub remove_receipt : Option ℕ → AgentState → AgentState
remove_receipt none agent = agent
remove_receipt (some from) agent = remove_confirmation from agent

-- The agent of a completion that is found to be disputed.
abbrev pub add_dispute : Option ℕ → AgentState → AgentState
add_dispute receipt_from agent =
    remove_receipt receipt_from (record agent { disputes = agent.disputes + 1 })

-- Taking `wei` of the locked capital.
abbrev pub take_stake : ℕ → AgentState → AgentState
take_stake wei agent = record agent {
  locked_wei = agent.locked_wei - wei;
  slashed_wei = agent.slashed_wei + wei;
  spent_wei = agent.spent_wei +ℤ pos wei;
}

abbrev pub slash_stake : ℕ → AgentState → AgentState
slash_stake most agent = take_stake (min most agent.locked_wei) agent

abbrev pub lock_stake : ℕ → AgentState → AgentState
lock_stake wei agent = record agent { locked_wei = agent.locked_wei + wei }

module _ (params : MechanismParams) where
  unfoldable pub challenge : ℕ → ℕ → MechanismState → MechanismState
  challenge completion_id challenger state =
      elim (find_first (has_id completion_id) state.completions) [
        | none ↦ state
        | some completion ↦
            if completion.challenged
            then state
            else modify challenger (pay_challenge params) (record state {
              completions =
                  update_first (has_id completion_id)
                    (λ c. record c { challenged = true; challenger = some challenger })
                    state.completions;
            })
      ]

  -- The branch of an upheld challenge.
  unfoldable pub resolve_upheld : CompletionState → ℕ → MechanismState → MechanismState
  resolve_upheld completion challenger state = modify challenger (return_bond params) (
      modify completion.agent (add_dispute completion.receipt_from) (record state {
        completions =
            update_first (has_id completion.id) (λ c. record c { disputed = true })
              state.completions;
      }))

  -- The branch of a rejected one.
  unfoldable pub resolve_rejected : ℕ → MechanismState → MechanismState
  resolve_rejected challenger state = modify challenger (forfeit_bond params) state

  -- `resolve` of AbstractMechanism.
  unfoldable pub resolve_base : ℕ → Bool → MechanismState → MechanismState
  resolve_base completion_id upheld state =
      elim (find_first (has_id completion_id) state.completions) [
        | none ↦ state
        | some completion ↦ elim completion.challenger [
          | none ↦ state
          | some challenger ↦
              let ensured = ensure state challenger in
              if upheld
              then resolve_upheld completion challenger ensured
              else resolve_rejected challenger ensured
        ]
      ]

  -- What the override of BaseTaopV05Mechanism does before `super.resolve`.
  unfoldable pub slash_dispute : ℕ → Bool → MechanismState → MechanismState
  slash_dispute completion_id false state = state
  slash_dispute completion_id true state =
      elim (find_first (has_id completion_id) state.completions) [
        | none ↦ state
        | some completion ↦ modify completion.agent (slash_stake v05_slash_per_dispute_wei) state
      ]

  unfoldable pub resolve : Kind → ℕ → Bool → MechanismState → MechanismState
  resolve base_taop_v05 completion_id upheld state =
      resolve_base completion_id upheld (slash_dispute completion_id upheld state)
  resolve _ completion_id upheld state = resolve_base completion_id upheld state

  unfoldable pub slashable : Kind → MechanismState → ℕ → ℕ
  slashable base_taop_v05 state agent = (agent_of state agent).locked_wei
  slashable stake_gated state agent = (agent_of state agent).locked_wei
  slashable _ state agent = params.capability_bond_wei

  unfoldable pub slash_capability : Kind → ℕ → MechanismState → MechanismState
  slash_capability kind agent state = modify agent (slash_stake (slashable kind state agent)) state

  -- `lockCapital`, of the two mechanisms that have it.
  unfoldable pub lock_capital : Kind → ℕ → ℕ → MechanismState → Option MechanismState
  lock_capital base_taop_v05 agent wei state = some (modify agent (lock_stake wei) state)
  lock_capital stake_gated agent wei state =
      some (modify agent (λ a. spend (tx_cost gas_certify_capability) (lock_stake wei a)) state)
  lock_capital _ agent wei state = none
