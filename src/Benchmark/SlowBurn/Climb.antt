-- ===== src/Benchmark/SlowBurn/Climb.antt =====
-- How the raters of the attacker of packages/benchmark/src/scenarios/slowBurn.ts grow: each attestation
-- is confirmed by the next accomplice in turn.
use taop_protocol.Prelude.{
  ℕ, zero, suc, ◌+◌, ◌*◌, ◌%◌, ◌≤◌, ◌<◌, ◌≡◌, refl, sym, ◌∙◌, ap, subst, true, false, List, [], ◌∷◌,
  ◌++◌, none, some, length, get_elem?, arith, nat_beq, nat_beq_iff, nat_eq, min, Bool-cases, inl,
  inr,
}
use native.Mathlib.Decide.{dec_lt}
use mathlib.Core.List.{reverse, reverse-append}
use taop_protocol.Benchmark.Collusion.{member, add, numbered}
use taop_protocol.Benchmark.Collusion.Sets.{member-append, member-cons}
use taop_protocol.Benchmark.Collusion.Rings.{member-numbered, length-numbered}
use taop_protocol.Benchmark.Mechanisms.{
  AgentState, CompletionState, MechanismState, Kind, base_taop_v05, requires_receipts, agent_of,
  ensure, modify, count_completion, submit_completion, add_confirmation, v05_stake_per_point_wei,
}
use taop_protocol.Benchmark.Mechanisms.Operations.{
  find_first, update_first, is_open, spend, receipt_cost, attest_cost, attest, rate,
}
use taop_protocol.Benchmark.Mechanisms.Receipts.{keys, keys-put}
use taop_protocol.Benchmark.Mechanisms.Funds.{
  agent_of-modify_same, agent_of-modify_other, agent_of-ensure,
}
use taop_protocol.Benchmark.SlowBurn.{Attack, attacker, attest_once}
use taop_protocol.Benchmark.SlowBurn.Support.{put_key-eq-add}

-- After the attestation the attacker's newest completion is open, and the receipt goes to it.
abbrev confirmed_by : ℕ → ℕ → AgentState → AgentState
confirmed_by from now a = add_confirmation from (spend attest_cost (count_completion now a))

agent_of-attest :
    (now : ℕ) (s : MechanismState)
    → agent_of (attest attacker now s).1 attacker
      ≡ spend attest_cost (count_completion now (agent_of s attacker))
unfolding attest submit_completion agent_of
agent_of-attest now s =
    agent_of-modify_same attacker (spend attest_cost) (submit_completion attacker now s).1
    ∙ ap (spend attest_cost) (agent_of-modify_same attacker (count_completion now) s)

newest : ℕ → MechanismState → CompletionState
newest now s = record {
  id = s.next_completion_id;
  agent = attacker;
  timestamp = now;
  challenged = false;
  disputed = false;
  challenger = none;
  receipt_from = none;
}

finds-newest :
    (now : ℕ) (s : MechanismState)
    → find_first (is_open attacker) (reverse (attest attacker now s).1.completions)
      ≡ some (newest now s)
unfolding attest submit_completion modify find_first is_open newest
finds-newest now s = rw (reverse-append s.completions (newest now s ∷ [])) refl

module _ (kind : Kind) (receipts : requires_receipts kind ≡ true) (from : ℕ) (s : MechanismState)
    (now : ℕ) (other : nat_beq from attacker ≡ false) where
  abbrev attested : MechanismState
  attested = (attest attacker now s).1

  abbrev paid : MechanismState
  paid = ensure (modify from (spend receipt_cost) attested) attacker

  agent_of-paid :
      agent_of paid attacker ≡ spend attest_cost (count_completion now (agent_of s attacker))
  agent_of-paid =
      agent_of-ensure attacker (modify from (spend receipt_cost) attested)
      ∙ agent_of-modify_other from attacker (spend receipt_cost) attested other
      ∙ agent_of-attest now s

  agent_of-rate :
      agent_of (rate kind from attacker attested) attacker
      ≡ confirmed_by from now (agent_of s attacker)
  unfolding rate agent_of
  agent_of-rate =
      rw (receipts, finds-newest now s)
        (agent_of-modify_same attacker (add_confirmation from) (record paid {
          completions = reverse (
              update_first (is_open attacker) (λ c. record c { receipt_from = some from })
                (reverse attested.completions));
        })
          ∙ ap (add_confirmation from) agent_of-paid)

-- The accomplices in turn.
get_elem?-append : (a b : List ℕ) (i : ℕ) → i < length a → get_elem? (a ++ b) i ≡ get_elem? a i
get_elem?-append [] b i h = absurd (omega arith)
get_elem?-append (x ∷ a) b zero h = refl
get_elem?-append (x ∷ a) b (suc i) h = get_elem?-append a b i (omega arith)

get_elem?-last : (a : List ℕ) (x : ℕ) → get_elem? (a ++ x ∷ []) (length a) ≡ some x
get_elem?-last [] x = refl
get_elem?-last (y ∷ a) x = get_elem?-last a x

get_elem?-numbered : (base n i : ℕ) → i < n → get_elem? (numbered base n) i ≡ some (base + i)
unfolding numbered
get_elem?-numbered base zero i h = absurd (omega arith)
get_elem?-numbered base (suc n) i h = elim (dec_lt i n) [
  | yes p ↦
      get_elem?-append (numbered base n) ((base + n) ∷ []) i (omega (arith, length-numbered base n))
      ∙ get_elem?-numbered base n i p
  | no p ↦
      let last : length (numbered base n) ≡ i = omega (arith, length-numbered base n, h) in
      subst (λ j. get_elem? (numbered base (suc n)) j ≡ some (base + j)) last
        (get_elem?-last (numbered base n) (base + n)
          ∙ ap (λ j. some (base + j)) (sym (length-numbered base n)))
]

member-numbered_in : (base n i : ℕ) → i < n → member (base + i) (numbered base n) ≡ true
unfolding numbered member
member-numbered_in base zero i h = absurd (omega arith)
member-numbered_in base (suc n) i h = ground (
  arith,
  member-append (base + i) (numbered base n) ((base + n) ∷ []),
  member-cons (base + i) (base + n) [],
  member-numbered_in base n i,
  nat_beq_iff (base + n) (base + i),
)

member-numbered_last : (base n : ℕ) → member (base + n) (numbered base n) ≡ false
member-numbered_last base n = elim (Bool-cases (member (base + n) (numbered base n))) [
  | inl e ↦ absurd (omega (arith, member-numbered base n (base + n) e))
  | inr e ↦ e
]

-- The n accomplices have rated in turn, i times.
add-numbered :
    (n i : ℕ) → 1 ≤ n → add (1 + i % n) (numbered 1 (min i n)) ≡ numbered 1 (min (suc i) n)
unfolding add numbered
add-numbered n i pos = elim (dec_lt i n) [
  | yes p ↦
      let turn : i % n ≡ i = grind arith in
      let before : min i n ≡ i = omega arith in
      let after : min (suc i) n ≡ suc i = omega arith in
      rw (turn, before, after, member-numbered_last 1 i) refl
  | no p ↦
      let before : min i n ≡ n = omega arith in
      let after : min (suc i) n ≡ n = omega arith in
      let turn : i % n < n = grind arith in
      rw (before, after, member-numbered_in 1 n (i % n) turn) refl
]

-- The attacker's record after `i` rounds with `n` accomplices, where the stake of v0.5 is for `target`.
pub record IsClimbed (kind : Kind) (n target i : ℕ) (a : AgentState) : Type 0 where
  pub rated : keys a.raters ≡ numbered 1 (min i n)
  pub undisputed : a.disputes ≡ 0
  pub staked : kind ≡ base_taop_v05 → target * v05_stake_per_point_wei ≤ a.locked_wei

module _ (kind : Kind) (n target : ℕ) (receipts : requires_receipts kind ≡ true)
    (some_one : 1 ≤ n) where
  abbrev pub Climbed : ℕ → Attack → Type 0
  Climbed i attack =
      (attack.receipt_index ≡ i) × IsClimbed kind n target i (agent_of attack.state attacker)

  confirmed_by-IsClimbed :
      (now i : ℕ) (a : AgentState)
      → IsClimbed kind n target i a
      → IsClimbed kind n target (suc i) (confirmed_by (1 + i % n) now a)
  unfolding add_confirmation
  confirmed_by-IsClimbed now i a c = record {
    rated =
        keys-put {V = Unit {0}} (1 + i % n) tt a.raters
        ∙ put_key-eq-add (1 + i % n) (keys a.raters)
        ∙ ap (add (1 + i % n)) c.rated
        ∙ add-numbered n i some_one;
    undisputed = c.undisputed;
    staked = c.staked;
  }

  counterparty : (i : ℕ) → get_elem? (numbered 1 n) (i % length (numbered 1 n)) ≡ some (1 + i % n)
  counterparty i =
      let turn : i % n < n = grind arith in
      rw (length-numbered 1 n) (get_elem?-numbered 1 n (i % n) turn)

  attest_once-eq :
      (now i : ℕ) (attack : Attack)
      → attack.receipt_index ≡ i
      → attest_once kind (numbered 1 n) now attack ≡ record {
        receipt_index = i + 1;
        state = rate kind (1 + i % n) attacker (attest attacker now attack.state).1;
      }
  unfolding attest_once
  attest_once-eq now i attack e =
      rw (e, attest_once, counterparty i)
        (ap
          (λ j. record {
            receipt_index = j + 1;
            state = rate kind (1 + i % n) attacker (attest attacker now attack.state).1;
          })
          e)

  pub attest_once-Climbed :
      (now i : ℕ) (attack : Attack)
      → Climbed i attack
      → let next = attest_once kind (numbered 1 n) now attack in
        Climbed (suc i) next × ((agent_of next.state attacker).last_activity ≡ now)
  unfolding add_confirmation
  attest_once-Climbed now i attack (e, c) =
      let rated = agent_of-rate kind receipts (1 + i % n) attack.state now (ground arith) in
      rw (attest_once-eq now i attack e) (
        (omega arith, rw rated (confirmed_by-IsClimbed now i (agent_of attack.state attacker) c)),
        rw rated refl,
      )
