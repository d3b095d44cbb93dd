-- ===== src/Benchmark/Mechanisms/Funds.antt =====
-- What a challenge costs its challenger in the end.
use taop_protocol.Prelude.{
  ℕ, ◌+◌, ◌≡◌, refl, ap, ◌∙◌, true, false, List, [], ◌∷◌, some, arith, nat_beq, nat_eq,
  if◌then◌else◌, Bool-cases, inl, inr,
}
use taop_protocol.Prelude.Int.{ℤ, pos, ◌+ℤ◌, ◌-ℤ◌}
use mathlib.Core.Option.{some-injective}
use taop_protocol.Table.Laws.{find-put}
use taop_protocol.Benchmark.Economics.{tx_cost, gas_challenge_completion}
use taop_protocol.Benchmark.Mechanisms.{
  MechanismParams, AgentState, CompletionState, MechanismState, agent_of, ensure, modify,
}
use taop_protocol.Benchmark.Mechanisms.Operations.{
  find_first, update_first, has_id, challenge, resolve_base, resolve_upheld, resolve_rejected,
  pay_challenge, return_bond, forfeit_bond, add_dispute,
}

pub agent_of-modify :
    (id j : ℕ) (f : AgentState → AgentState) (s : MechanismState)
    → agent_of (modify id f s) j ≡ (if nat_beq id j then f (agent_of s id) else agent_of s j)
unfolding agent_of modify
agent_of-modify id j f s = elim (Bool-cases (nat_beq id j)) [
  | inl e ↦ rw (find-put id j (f (agent_of s id)) s.agents, e) refl
  | inr e ↦ rw (find-put id j (f (agent_of s id)) s.agents, e) refl
]

pub agent_of-modify_same :
    (id : ℕ) (f : AgentState → AgentState) (s : MechanismState)
    → agent_of (modify id f s) id ≡ f (agent_of s id)
agent_of-modify_same id f s = agent_of-modify id id f s ∙ ground arith

pub agent_of-modify_other :
    (id j : ℕ) (f : AgentState → AgentState) (s : MechanismState)
    → nat_beq id j ≡ false
    → agent_of (modify id f s) j ≡ agent_of s j
agent_of-modify_other id j f s h = agent_of-modify id j f s ∙ rw h refl

pub agent_of-ensure : (id : ℕ) (s : MechanismState) → agent_of (ensure s id) id ≡ agent_of s id
unfolding ensure modify
agent_of-ensure id s = agent_of-modify_same id (λ a. a) s

find-update_first :
    (n : ℕ) (f : CompletionState → CompletionState) (cs : List CompletionState)
    (c : CompletionState)
    → ((d : CompletionState) → (f d).id ≡ d.id)
    → find_first (has_id n) cs ≡ some c
    → find_first (has_id n) (update_first (has_id n) f cs) ≡ some (f c)
unfolding find_first update_first
find-update_first n f [] c k h = absurd (cc)
find-update_first n f (d ∷ cs) c k h = elim (Bool-cases (nat_beq d.id n)) [
  | inl e ↦
      let same : d ≡ c = some-injective d c (rw (e, find_first) at h) in
      let hit : nat_beq (f d).id n ≡ true = ap (λ i. nat_beq i n) (k d) ∙ e in
      rw (e, hit) (ap (λ x. some (f x)) same)
  | inr e ↦ rw (e, e) (find-update_first n f cs c k (rw (e, find_first) at h))
]

spend_return : (a : ℤ) (fee bond : ℕ) → (a +ℤ pos (fee + bond)) -ℤ pos bond ≡ a +ℤ pos fee
unfolding ◌+ℤ◌ ◌-ℤ◌
spend_return a fee bond = ground arith

module _ (params : MechanismParams) (n challenger : ℕ) (s : MechanismState) (c : CompletionState)
    (found : find_first (has_id n) s.completions ≡ some c) (fresh : c.challenged ≡ false)
    (other : nat_beq c.agent challenger ≡ false) where
  -- The completion once it is challenged.
  abbrev challenged : CompletionState
  challenged = record c { challenged = true; challenger = some challenger }

  abbrev mark : CompletionState → CompletionState
  mark d = record d { challenged = true; challenger = some challenger }

  abbrev after_challenge : MechanismState
  after_challenge = challenge params n challenger s

  after_challenge-eq :
      after_challenge
      ≡ modify challenger
          (pay_challenge params)
          (record s { completions = update_first (has_id n) mark s.completions })
  unfolding challenge
  after_challenge-eq = rw (found, challenge, fresh) refl

  found_again : find_first (has_id n) after_challenge.completions ≡ some challenged
  unfolding modify
  found_again = rw after_challenge-eq (find-update_first n mark s.completions c (λ d. refl) found)

  paid : agent_of after_challenge challenger ≡ pay_challenge params (agent_of s challenger)
  unfolding agent_of
  paid = rw after_challenge-eq (agent_of-modify_same challenger (pay_challenge params) _)

  resolve-upheld :
      resolve_base params n true after_challenge
      ≡ resolve_upheld params challenged challenger (ensure after_challenge challenger)
  unfolding resolve_base
  resolve-upheld = rw (found_again, resolve_base) refl

  resolve-rejected :
      resolve_base params n false after_challenge
      ≡ resolve_rejected params challenger (ensure after_challenge challenger)
  unfolding resolve_base
  resolve-rejected = rw (found_again, resolve_base) refl

  returned :
      agent_of (resolve_base params n true after_challenge) challenger
      ≡ return_bond params (pay_challenge params (agent_of s challenger))
  unfolding resolve_upheld agent_of
  returned =
      ap (λ t. agent_of t challenger) resolve-upheld
      ∙ agent_of-modify_same challenger (return_bond params) _
      ∙ ap (return_bond params) (
          agent_of-modify_other c.agent challenger (add_dispute c.receipt_from) _ other
          ∙ agent_of-ensure challenger after_challenge
          ∙ paid)

  forfeited :
      agent_of (resolve_base params n false after_challenge) challenger
      ≡ forfeit_bond params (pay_challenge params (agent_of s challenger))
  unfolding resolve_rejected
  forfeited =
      ap (λ t. agent_of t challenger) resolve-rejected
      ∙ agent_of-modify_same challenger (forfeit_bond params) _
      ∙ ap (forfeit_bond params) (agent_of-ensure challenger after_challenge ∙ paid)

  -- A challenge of another agent's unchallenged completion, resolved at once: the bond does not stay
  -- locked; if the challenge is upheld the challenger has spent the transaction's cost alone and lost
  -- nothing, and if it is rejected it has spent the bond too, and the bond is slashed.
  pub challenge-resolve_base :
      let a = agent_of s challenger in
      let won =
        agent_of (resolve_base params n true (challenge params n challenger s)) challenger in
      let lost =
        agent_of (resolve_base params n false (challenge params n challenger s)) challenger in
      ((won.locked_wei ≡ a.locked_wei)
        × (won.spent_wei ≡ a.spent_wei +ℤ pos (tx_cost gas_challenge_completion))
        × (won.slashed_wei ≡ a.slashed_wei))
      × ((lost.locked_wei ≡ a.locked_wei)
          × (lost.spent_wei
              ≡ a.spent_wei +ℤ pos (tx_cost gas_challenge_completion + params.challenge_bond_wei))
          × (lost.slashed_wei ≡ a.slashed_wei + params.challenge_bond_wei))
  challenge-resolve_base =
      let fee = tx_cost gas_challenge_completion in
      let spent = (agent_of s challenger).spent_wei in
      rw (returned, forfeited)
        (
          (omega arith, spend_return spent fee params.challenge_bond_wei, refl),
          (omega arith, refl, refl),
        )
