-- ===== src/Benchmark/SlowBurn/Days.antt =====
-- What the days of packages/benchmark/src/scenarios/slowBurn.ts do to the attacker's record.
use taop_protocol.Prelude.{
  ℕ, zero, suc, ◌+◌, ◌*◌, ◌%◌, ◌≡◌, refl, sym, subst, true, List, [], ◌∷◌, some, length, get_elem?,
  arith, nat_beq, nat_beq_iff, nat_eq, leb, Bool-cases, Option-cases, inl, inr,
}
use mathlib.Core.List.{reverse}
use taop_protocol.Table.{find}
use taop_protocol.Benchmark.Collusion.{member}
use taop_protocol.Benchmark.Mechanisms.{
  MechanismParams, AgentState, MechanismState, Kind, base_taop_v05, base_taop_v03,
  base_taop_two_sided, base_taop_self_attest, naive_count, no_decay, peer_ratings, stake_gated,
  requires_receipts, base_state, agent_of, ensure, modify, or_same, count_completion,
  submit_completion, add_confirmation,
}
use taop_protocol.Benchmark.Mechanisms.Operations.{
  find_first, update_first, is_open, spend, receipt_cost, attest_cost, attest, rate, lock_capital,
}
use taop_protocol.Benchmark.Mechanisms.Scoring.{score, capital_required_for_score}
use taop_protocol.Benchmark.Mechanisms.Funds.{agent_of-modify}
use taop_protocol.Benchmark.SlowBurn.{
  SlowBurnConfig, Attack, day_secs, attacker, attest_once, attest_times, ensure_all, lock_required,
  prepare, burn_days, accomplice_ids,
}
use taop_protocol.Benchmark.SlowBurn.Support.{
  IsSupported, new_agent-IsSupported, frame, loosen, count_completion-IsSupported,
  add_confirmation-IsSupported,
}

pub modify-keeps :
    (P : AgentState → Type 0) (id : ℕ) (f : AgentState → AgentState) (s : MechanismState)
    → ((a : AgentState) → P a → P (f a))
    → P (agent_of s attacker)
    → P (agent_of (modify id f s) attacker)
modify-keeps P id f s keep h = elim (Bool-cases (nat_beq id attacker)) [
  | inl e ↦
      let same : id ≡ attacker = (nat_beq_iff id attacker).0 e in
      rw (agent_of-modify id attacker f s, e)
        (keep (agent_of s id) (subst (λ i. P (agent_of s i)) (sym same) h))
  | inr e ↦ rw (agent_of-modify id attacker f s, e) h
]

pub ensure_all-keeps :
    (P : AgentState → Type 0) (new : List ℕ) (s : MechanismState)
    → P (agent_of s attacker)
    → P (agent_of (ensure_all new s) attacker)
unfolding ensure_all ensure modify
ensure_all-keeps P [] s v = v
ensure_all-keeps P (id ∷ new) s v =
    ensure_all-keeps P new (ensure s id) (modify-keeps P id (λ a. a) s (λ a h. h) v)

get_elem?-member : (l : List ℕ) (i x : ℕ) → get_elem? l i ≡ some x → member x l ≡ true
unfolding member
get_elem?-member [] i x h = absurd (cc)
get_elem?-member (y ∷ l) zero x h = ground (arith, nat_beq_iff y x)
get_elem?-member (y ∷ l) (suc i) x h = ground (arith, get_elem?-member l i x h)

module _ (ids : List ℕ) where
  -- The attacker's record in a state.
  abbrev pub Supports : ℕ → MechanismState → Type 0
  Supports free s = IsSupported ids free (agent_of s attacker)

  ensure-Supports :
      (id free : ℕ) (s : MechanismState) → Supports free s → Supports free (ensure s id)
  unfolding ensure modify
  ensure-Supports id free s v = modify-keeps (IsSupported ids free) id (λ a. a) s (λ a h. h) v

  spend-Supports :
      (id wei free : ℕ) (s : MechanismState)
      → Supports free s
      → Supports free (modify id (spend wei) s)
  spend-Supports id wei free s v =
      modify-keeps (IsSupported ids free) id (spend wei) s
        (λ a h. frame ids free a _ refl refl refl h) v

  attest-Supports :
      (now : ℕ) (s : MechanismState) → Supports 0 s → Supports 1 (attest attacker now s).1
  unfolding attest submit_completion agent_of
  attest-Supports now s v =
      spend-Supports attacker attest_cost 1 (submit_completion attacker now s).1 (
        rw (agent_of-modify attacker attacker (count_completion now) s)
          (count_completion-IsSupported ids now (agent_of s attacker) v))

  confirm-Supports :
      (from : ℕ) (s : MechanismState)
      → member from ids ≡ true
      → Supports 1 s
      → Supports 0 (modify attacker (add_confirmation from) s)
  confirm-Supports from s known v =
      rw (agent_of-modify attacker attacker (add_confirmation from) s)
        (add_confirmation-IsSupported ids from (agent_of s attacker) known v)

  rate-Supports :
      (kind : Kind) (from : ℕ) (s : MechanismState)
      → member from ids ≡ true
      → Supports 1 s
      → Supports 0 (rate kind from attacker s)
  unfolding rate agent_of
  rate-Supports kind from s known v =
      let paid = ensure (modify from (spend receipt_cost) s) attacker in
      let kept : Supports 1 paid =
        ensure-Supports attacker 1 _ (spend-Supports from receipt_cost 1 s v) in
      elim (Bool-cases (requires_receipts kind)) [
        | inr e ↦ rw e (confirm-Supports from paid known kept)
        | inl e ↦
            rw e (elim (Option-cases (find_first (is_open attacker) (reverse s.completions))) [
              | inl n ↦ rw n (loosen ids (agent_of paid attacker) kept)
              | inr (c, n) ↦ rw n (
                  confirm-Supports from
                    (record paid {
                      completions = reverse (
                          update_first (is_open attacker)
                            (λ d. record d { receipt_from = some from }) (reverse s.completions));
                    })
                    known kept)
            ])
      ]

  attest_once-Supports :
      (kind : Kind) (now : ℕ) (attack : Attack)
      → Supports 0 attack.state
      → Supports 0 (attest_once kind ids now attack).state
  unfolding attest_once
  attest_once-Supports kind now attack v =
      let attested = (attest attacker now attack.state).1 in
      let one = attest-Supports now attack.state v in
      elim (Option-cases (get_elem? ids (attack.receipt_index % length ids))) [
        | inl n ↦ rw (n, attest_once) (loosen ids (agent_of attested attacker) one)
        | inr (from, n) ↦
            rw (n, attest_once)
              (rate-Supports kind from attested (get_elem?-member ids _ from n) one)
      ]

  attest_times-Supports :
      (kind : Kind) (now n : ℕ) (attack : Attack)
      → Supports 0 attack.state
      → Supports 0 (attest_times kind ids now n attack).state
  unfolding attest_times
  attest_times-Supports kind now zero attack v = v
  attest_times-Supports kind now (suc n) attack v =
      attest_times-Supports kind now n (attest_once kind ids now attack)
        (attest_once-Supports kind now attack v)

  lock_capital-Supports :
      (kind : Kind) (params : MechanismParams) (wei : ℕ) (s : MechanismState)
      → Supports 0 s
      → Supports 0 (or_same s (lock_capital params kind attacker wei s))
  unfolding lock_capital
  lock_capital-Supports base_taop_v05 params wei s v =
      modify-keeps (IsSupported ids 0) attacker _ s (λ a h. frame ids 0 a _ refl refl refl h) v
  lock_capital-Supports stake_gated params wei s v =
      modify-keeps (IsSupported ids 0) attacker _ s (λ a h. frame ids 0 a _ refl refl refl h) v
  lock_capital-Supports base_taop_v03 params wei s v = v
  lock_capital-Supports base_taop_two_sided params wei s v = v
  lock_capital-Supports base_taop_self_attest params wei s v = v
  lock_capital-Supports naive_count params wei s v = v
  lock_capital-Supports no_decay params wei s v = v
  lock_capital-Supports peer_ratings params wei s v = v

module _ (params : MechanismParams) (kind : Kind) (config : SlowBurnConfig) where
  abbrev ids : List ℕ
  ids = accomplice_ids kind config

  lock_required-Supports :
      (s : MechanismState) → Supports ids 0 s → Supports ids 0 (lock_required params kind config s)
  unfolding lock_required
  lock_required-Supports s v =
      elim (Option-cases (capital_required_for_score params kind config.target_score)) [
        | inl n ↦ rw (n, lock_required) v
        | inr (wei, n) ↦ rw (n, lock_required) (lock_capital-Supports ids kind params wei s v)
      ]

  pub prepare-Supports : Supports ids 0 (prepare params kind config)
  unfolding prepare agent_of find
  prepare-Supports = ensure_all-keeps (IsSupported ids 0) ids _ (
      lock_required-Supports _ (
        modify-keeps (IsSupported ids 0) attacker _ (ensure (base_state 0) attacker)
          (λ a h. frame ids 0 a _ refl refl refl h)
          (ensure-Supports ids attacker 0 (base_state 0) (new_agent-IsSupported ids))))

  -- After the attestations of a day, and after its score is read.
  pub day-Supports :
      (day : ℕ) (attack : Attack)
      → Supports ids 0 attack.state
      → let attested = attest_times kind ids (day * day_secs) config.attests_per_day attack in
        Supports ids 0 attested.state × Supports ids 0 (ensure attested.state attacker)
  day-Supports day attack v =
      let kept = attest_times-Supports ids kind (day * day_secs) config.attests_per_day attack v in
      (kept, ensure-Supports ids attacker 0 _ kept)

  pub burn_days-Supports :
      (left day : ℕ) (attack : Attack)
      → Supports ids 0 attack.state
      → Supports ids 0 (burn_days params kind config left day attack).state
  unfolding burn_days score
  burn_days-Supports zero day attack v = v
  burn_days-Supports (suc left) day attack v =
      let now = day * day_secs in
      let attested = attest_times kind ids now config.attests_per_day attack in
      let (_, scored) = day-Supports day attack v in
      elim (Bool-cases
        (leb config.target_score (score params kind attacker now attested.state).0)) [
          | inl e ↦ rw e scored
          | inr e ↦ rw e (
              burn_days-Supports left (day + 1)
                (record attested { state = ensure attested.state attacker }) scored)
        ]
