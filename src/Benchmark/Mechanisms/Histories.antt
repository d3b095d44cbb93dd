-- ===== src/Benchmark/Mechanisms/Histories.antt =====
-- Sequences of operations of packages/benchmark/src/mechanisms.ts, of any mechanism.
use taop_protocol.Prelude.{
  ℕ, ◌≤◌, ◌≡◌, refl, Bool, true, false, List, [], ◌∷◌, Option, none, some, arith, nat_beq, nat_eq,
  if◌then◌else◌, Bool-cases, Option-cases, inl, inr,
}
use taop_protocol.Table.{find}
use taop_protocol.Table.Laws.{find-put}
use mathlib.Core.List.{reverse}
use taop_protocol.Benchmark.Mechanisms.{
  requires_receipts, count_completion, v05_slash_per_dispute_wei, MechanismParams, AgentState,
  CompletionState, MechanismState, Kind, base_taop_v05, base_taop_v03, base_taop_two_sided,
  base_taop_self_attest, naive_count, no_decay, peer_ratings, stake_gated, base_state, agent_of,
  ensure, modify, or_same, add_confirmation,
}
use taop_protocol.Benchmark.Mechanisms.Operations.{
  attest, rate, challenge, resolve, resolve_base, resolve_upheld, resolve_rejected, slash_dispute,
  slash_capability, lock_capital, lock_stake, find_first, has_id, is_open, spend, receipt_cost,
  attest_cost, pay_challenge, return_bond, forfeit_bond, add_dispute, slash_stake,
}
use taop_protocol.Benchmark.Mechanisms.Receipts.{
  IsRated, add_confirmation-IsRated, remove_confirmation-IsRated, distinct-le-confirmed,
}
use taop_protocol.Benchmark.Mechanisms.Scoring.{
  score, score_of, decaying_score, confirmed_count, distinct_counterparties,
}
use taop_protocol.Benchmark.Mechanisms.Scores.{linear_decay_score_mono}

-- In every agent of the state the two are in step.
pub record IsRatedState (s : MechanismState) : Type 0 where
  pub each : (id : ℕ) (a : AgentState) → find id s.agents ≡ some a → IsRated a

agent_of-IsRated : (s : MechanismState) (id : ℕ) → IsRatedState s → IsRated (agent_of s id)
unfolding agent_of
agent_of-IsRated s id v = elim (Option-cases (find id s.agents)) [
  | inl e ↦ rw e (record { aligned = refl; positive = tt })
  | inr (a, e) ↦ rw e (v.each id a e)
]

modify-IsRatedState :
    (id : ℕ) (f : AgentState → AgentState) {s : MechanismState}
    → ((a : AgentState) → IsRated a → IsRated (f a))
    → IsRatedState s
    → IsRatedState (modify id f s)
unfolding modify
modify-IsRatedState id f {s} keep v = record {
  each = λ j a h. elim (Bool-cases (nat_beq id j)) [
    | inl e ↦
        let same : f (agent_of s id) ≡ a =
          ground (arith, find-put id j (f (agent_of s id)) s.agents) in
        rw (← same) (keep (agent_of s id) (agent_of-IsRated s id v))
    | inr e ↦ v.each j a (ground (arith, find-put id j (f (agent_of s id)) s.agents))
  ];
}

ensure-IsRatedState : (id : ℕ) {s : MechanismState} → IsRatedState s → IsRatedState (ensure s id)
unfolding ensure modify
ensure-IsRatedState id {s} v = modify-IsRatedState id (λ a. a) (λ a h. h) v

-- Writing the completions keeps it.
completions-IsRatedState :
    (cs : List CompletionState) (n : ℕ) {s : MechanismState}
    → IsRatedState s
    → IsRatedState (record s { completions = cs; next_completion_id = n })
completions-IsRatedState cs n v = record { each = v.each }

-- Fields that are not confirmations may change.
frame :
    (a b : AgentState)
    → b.confirmations ≡ a.confirmations
    → b.raters ≡ a.raters
    → IsRated a
    → IsRated b
frame a b c r v = record { aligned = rw (c, r) v.aligned; positive = rw c v.positive }

attest-IsRatedState :
    (agent now : ℕ) {s : MechanismState} → IsRatedState s → IsRatedState (attest agent now s).1
unfolding attest
attest-IsRatedState agent now v =
    modify-IsRatedState agent (spend attest_cost) (λ a h. frame a _ refl refl h)
      (completions-IsRatedState _ _
        (modify-IsRatedState agent (count_completion now) (λ a h. frame a _ refl refl h) v))

module _ (kind : Kind) (from to : ℕ) {s : MechanismState} (v : IsRatedState s) where
  paid-IsRatedState : IsRatedState (ensure (modify from (spend receipt_cost) s) to)
  paid-IsRatedState =
      ensure-IsRatedState to
        (modify-IsRatedState from (spend receipt_cost) (λ a h. frame a _ refl refl h) v)

  rate-IsRatedState : IsRatedState (rate kind from to s)
  unfolding rate
  rate-IsRatedState = elim (Bool-cases (requires_receipts kind)) [
    | inr e ↦ rw e (
        modify-IsRatedState to (add_confirmation from) (add_confirmation-IsRated from)
          paid-IsRatedState)
    | inl e ↦ rw e (elim (Option-cases (find_first (is_open to) (reverse s.completions))) [
      | inl n ↦ rw n paid-IsRatedState
      | inr (c, n) ↦ rw n (
          modify-IsRatedState to (add_confirmation from) (add_confirmation-IsRated from)
            (completions-IsRatedState _ _ paid-IsRatedState))
    ])
  ]

add_dispute-IsRated : (r : Option ℕ) (a : AgentState) → IsRated a → IsRated (add_dispute r a)
add_dispute-IsRated none a v = frame a _ refl refl v
add_dispute-IsRated (some from) a v = remove_confirmation-IsRated from _ (frame a _ refl refl v)

module _ (params : MechanismParams) (id : ℕ) {s : MechanismState} (v : IsRatedState s) where
  challenge-IsRatedState : (challenger : ℕ) → IsRatedState (challenge params id challenger s)
  unfolding challenge
  challenge-IsRatedState challenger = elim (Option-cases (find_first (has_id id) s.completions)) [
    | inl n ↦ rw (n, challenge) v
    | inr (c, n) ↦
        rw (n, challenge)
          (elim (Bool-cases c.challenged) [
            | inl e ↦ rw e v
            | inr e ↦ rw e (
                modify-IsRatedState challenger (pay_challenge params) (λ a h. frame a _ refl refl h)
                  (completions-IsRatedState _ _ v))
          ])
  ]

  upheld-IsRatedState :
      (c : CompletionState) (challenger : ℕ) → IsRatedState (resolve_upheld params c challenger s)
  unfolding resolve_upheld
  upheld-IsRatedState c challenger =
      modify-IsRatedState challenger (return_bond params) (λ a h. frame a _ refl refl h)
        (modify-IsRatedState c.agent (add_dispute c.receipt_from)
          (add_dispute-IsRated c.receipt_from) (completions-IsRatedState _ _ v))

  rejected-IsRatedState : (challenger : ℕ) → IsRatedState (resolve_rejected params challenger s)
  unfolding resolve_rejected
  rejected-IsRatedState challenger =
      modify-IsRatedState challenger (forfeit_bond params) (λ a h. frame a _ refl refl h) v

  slash_dispute-IsRatedState : (upheld : Bool) → IsRatedState (slash_dispute params id upheld s)
  unfolding slash_dispute
  slash_dispute-IsRatedState false = v
  slash_dispute-IsRatedState true = elim (Option-cases (find_first (has_id id) s.completions)) [
    | inl n ↦ rw (n, slash_dispute) v
    | inr (c, n) ↦
        rw (n, slash_dispute)
          (modify-IsRatedState c.agent (slash_stake v05_slash_per_dispute_wei)
            (λ a h. frame a _ refl refl h) v)
  ]

resolve_base-IsRatedState :
    (params : MechanismParams) (id : ℕ) (upheld : Bool) {s : MechanismState}
    → IsRatedState s
    → IsRatedState (resolve_base params id upheld s)
unfolding resolve_base
resolve_base-IsRatedState params id upheld {s} v =
    elim (Option-cases (find_first (has_id id) s.completions)) [
      | inl n ↦ rw (n, resolve_base) v
      | inr (c, n) ↦
          rw (n, resolve_base)
            (elim (Option-cases c.challenger) [
              | inl m ↦ rw m v
              | inr (challenger, m) ↦ rw m (decided upheld c challenger)
            ])
    ]
  where
    decided :
        (b : Bool) (c : CompletionState) (challenger : ℕ)
        → IsRatedState (
            if b
            then resolve_upheld params c challenger (ensure s challenger)
            else resolve_rejected params challenger (ensure s challenger))
    decided true c challenger =
        upheld-IsRatedState params id (ensure-IsRatedState challenger v) c challenger
    decided false c challenger =
        rejected-IsRatedState params id (ensure-IsRatedState challenger v) challenger

resolve-IsRatedState :
    (params : MechanismParams) (kind : Kind) (id : ℕ) (upheld : Bool) {s : MechanismState}
    → IsRatedState s
    → IsRatedState (resolve params kind id upheld s)
unfolding resolve
resolve-IsRatedState params base_taop_v05 id upheld v =
    resolve_base-IsRatedState params id upheld (slash_dispute-IsRatedState params id v upheld)
resolve-IsRatedState params base_taop_v03 id upheld v = resolve_base-IsRatedState params id upheld v
resolve-IsRatedState params base_taop_two_sided id upheld v =
    resolve_base-IsRatedState params id upheld v
resolve-IsRatedState params base_taop_self_attest id upheld v =
    resolve_base-IsRatedState params id upheld v
resolve-IsRatedState params naive_count id upheld v = resolve_base-IsRatedState params id upheld v
resolve-IsRatedState params no_decay id upheld v = resolve_base-IsRatedState params id upheld v
resolve-IsRatedState params peer_ratings id upheld v = resolve_base-IsRatedState params id upheld v
resolve-IsRatedState params stake_gated id upheld v = resolve_base-IsRatedState params id upheld v

-- The methods, as steps of a history.
pub data Operation : Type 0 where
  attests : ℕ → ℕ → Operation
  rates : ℕ → ℕ → Operation
  challenges : ℕ → ℕ → Operation
  resolves : ℕ → Bool → Operation
  slashes : ℕ → Operation
  locks : ℕ → ℕ → Operation
  scores : ℕ → ℕ → Operation

module _ (params : MechanismParams) (kind : Kind) where
  unfoldable pub step : Operation → MechanismState → MechanismState
  step (attests agent now) s = (attest agent now s).1
  step (rates from to) s = rate kind from to s
  step (challenges id challenger) s = challenge params id challenger s
  step (resolves id upheld) s = resolve params kind id upheld s
  step (slashes agent) s = slash_capability params kind agent s
  step (locks agent wei) s = or_same s (lock_capital params kind agent wei s)
  step (scores agent now) s = (score params kind agent now s).1

  unfoldable pub run : List Operation → MechanismState → MechanismState
  run [] s = s
  run (o ∷ os) s = run os (step o s)

lock_capital-IsRatedState :
    (kind : Kind) (params : MechanismParams) (agent wei : ℕ) {s : MechanismState}
    → IsRatedState s
    → IsRatedState (or_same s (lock_capital params kind agent wei s))
unfolding lock_capital
lock_capital-IsRatedState base_taop_v05 params agent wei v =
    modify-IsRatedState agent (lock_stake wei) (λ a h. frame a _ refl refl h) v
lock_capital-IsRatedState stake_gated params agent wei v =
    modify-IsRatedState agent _ (λ a h. frame a _ refl refl h) v
lock_capital-IsRatedState base_taop_v03 params agent wei v = v
lock_capital-IsRatedState base_taop_two_sided params agent wei v = v
lock_capital-IsRatedState base_taop_self_attest params agent wei v = v
lock_capital-IsRatedState naive_count params agent wei v = v
lock_capital-IsRatedState no_decay params agent wei v = v
lock_capital-IsRatedState peer_ratings params agent wei v = v

module _ (params : MechanismParams) (kind : Kind) where
  step-IsRatedState :
      (o : Operation) {s : MechanismState} → IsRatedState s → IsRatedState (step params kind o s)
  unfolding step slash_capability score
  step-IsRatedState (attests agent now) v = attest-IsRatedState agent now v
  step-IsRatedState (rates from to) v = rate-IsRatedState kind from to v
  step-IsRatedState (challenges id challenger) v = challenge-IsRatedState params id v challenger
  step-IsRatedState (resolves id upheld) v = resolve-IsRatedState params kind id upheld v
  step-IsRatedState (slashes agent) v =
      modify-IsRatedState agent (slash_stake _) (λ a h. frame a _ refl refl h) v
  step-IsRatedState (locks agent wei) v = lock_capital-IsRatedState kind params agent wei v
  step-IsRatedState (scores agent now) v = ensure-IsRatedState agent v

  pub run-IsRatedState :
      (os : List Operation) {s : MechanismState}
      → IsRatedState s
      → IsRatedState (run params kind os s)
  unfolding run
  run-IsRatedState [] v = v
  run-IsRatedState (o ∷ os) v = run-IsRatedState os (step-IsRatedState o v)

  base_state-IsRatedState : (now : ℕ) → IsRatedState (base_state now)
  unfolding find
  base_state-IsRatedState now = record { each = λ id a h. absurd (cc) }

  -- The scores of the three receipt mechanisms are ordered: after any history of operations on a new
  -- state, of any mechanism, and for any parameters, time and agent, v0.5 scores at most what v0.3
  -- scores, which is at most the two-sided score.
  pub run-score_order :
      (os : List Operation) (start id now : ℕ)
      → (score_of params base_taop_v05 (agent_of (run params kind os (base_state start)) id) now
          ≤ score_of params base_taop_v03 (agent_of (run params kind os (base_state start)) id) now)
        × (score_of params base_taop_v03 (agent_of (run params kind os (base_state start)) id) now
            ≤ score_of params base_taop_two_sided
                (agent_of (run params kind os (base_state start)) id)
                now)
  unfolding score_of decaying_score
  run-score_order os start id now =
      let s = run params kind os (base_state start) in
      let a = agent_of s id in
      let rated = agent_of-IsRated s id (run-IsRatedState os (base_state-IsRatedState start)) in
      (
        ground arith,
        linear_decay_score_mono (distinct_counterparties a) (confirmed_count a) a.disputes
            a.last_activity now params.decay_grace_secs params.decay_horizon_secs
            (distinct-le-confirmed a rated),
      )
