-- ===== src/Benchmark/SlowBurn/Thresholds.antt =====
-- When the attack of packages/benchmark/src/scenarios/slowBurn.ts reaches the target score.
use taop_protocol.Prelude.{
  ℕ, zero, suc, ◌+◌, ◌-◌, ◌*◌, ◌≤◌, ◌<◌, ◌≡◌, refl, ◌∙◌, ap, subst, true, some, arith, leb, min,
  Bool-cases, inl, inr,
}
use taop_protocol.Benchmark.Mechanisms.{MechanismParams, Kind, requires_receipts, agent_of, ensure}
use taop_protocol.Benchmark.Mechanisms.Scoring.{score}
use taop_protocol.Benchmark.Mechanisms.Funds.{agent_of-ensure}
use taop_protocol.Benchmark.SlowBurn.{
  SlowBurnConfig, Attack, day_secs, attacker, accomplice_ids, attest_times, prepare, burn_days,
  run_slow_burn_harvest,
}
use taop_protocol.Benchmark.SlowBurn.Climb.{IsClimbed, Climbed}
use taop_protocol.Benchmark.SlowBurn.Reached.{leb-score_of, prepare-IsClimbed, day-Climbed}
use taop_protocol.Benchmark.SlowBurn.Outcomes.{counts_raters}

next_day : (d p : ℕ) → d * p + p ≡ (d + 1) * p
next_day d p = grind arith

-- The first day by whose end there have been as many attestations as the target asks for.
abbrev pub IsFirst : SlowBurnConfig → ℕ → Type 0
IsFirst config day =
    (config.target_score ≤ day * config.attests_per_day)
    × ((day - 1) * config.attests_per_day < config.target_score)

module _ (params : MechanismParams) (kind : Kind) (config : SlowBurnConfig)
    (k : counts_raters kind ≡ true) (r : requires_receipts kind ≡ true)
    (some_one : 1 ≤ config.accomplices) (pos : 1 ≤ config.attests_per_day)
    (enough : config.target_score ≤ config.accomplices) where
  burn_days-IsFirst :
      (left d day : ℕ) (attack : Attack)
      → d + 1 ≡ day
      → config.target_score ≤ (d + left) * config.attests_per_day
      → d * config.attests_per_day < config.target_score
      → Climbed kind config.accomplices config.target_score r some_one
          (d * config.attests_per_day)
          attack
      → (found : ℕ) × ((burn_days params kind config left day attack).days_to_threshold
          ≡ some found)
        × IsFirst config found
  unfolding burn_days score
  burn_days-IsFirst zero d day attack e reach low c = absurd (grind arith)
  burn_days-IsFirst (suc left) d day attack e reach low c =
      let p = config.attests_per_day in
      let now = day * day_secs in
      let more : d * p + p ≡ day * p = next_day d p ∙ ap (λ x. x * p) e in
      let attested = attest_times kind (accomplice_ids kind config) now p attack in
      let (c1, last) = day-Climbed kind config r some_one now (d * p) (day * p) attack pos more c in
      let reads =
        leb-score_of params kind config.accomplices config.target_score (day * p) now
          (agent_of attested.state attacker) k r c1.1 last in
      let before : d ≡ day - 1 = omega arith in
      let remaining : d + suc left ≡ day + left = omega arith in
      elim (Bool-cases (leb config.target_score (min (day * p) config.accomplices))) [
        | inl hit ↦
            rw (reads ∙ hit)
              (day, refl, (ground arith, subst (λ x. x * p < config.target_score) before low))
        | inr miss ↦ rw (reads ∙ miss) (
            burn_days-IsFirst left day (day + 1)
              (record attested { state = ensure attested.state attacker }) refl
              (subst (λ x. config.target_score ≤ x * p) remaining reach) (ground arith)
              (c1.0, rw (agent_of-ensure attacker attested.state) c1.1))
      ]

-- Where the score counts distinct raters and takes receipts (v0.3 and v0.5), an attacker that attests
-- every day and has as many accomplices as the target score, which is at least 1, reaches it within
-- the horizon if the horizon has room for as many attestations: on the first day by whose end there
-- have been that many.
pub slow_burn-reached :
    (params : MechanismParams) (kind : Kind) (config : SlowBurnConfig)
    → counts_raters kind ≡ true
    → requires_receipts kind ≡ true
    → 1 ≤ config.target_score
    → 1 ≤ config.attests_per_day
    → config.target_score ≤ config.accomplices
    → config.target_score ≤ config.horizon_days * config.attests_per_day
    → (day : ℕ) × ((run_slow_burn_harvest params kind config).days_to_threshold ≡ some day)
      × IsFirst config day
unfolding run_slow_burn_harvest
slow_burn-reached params kind config k r goal pos enough room =
    let at_start : 0 ≡ 0 * config.attests_per_day = ground arith in
    let prepared =
      subst
        (λ i.
          IsClimbed kind config.accomplices config.target_score i
            (agent_of (prepare params kind config) attacker))
        at_start (prepare-IsClimbed params config kind config.accomplices k r) in
    burn_days-IsFirst params kind config k r (omega arith) pos enough config.horizon_days 0 1
      (record { receipt_index = 0; state = prepare params kind config }) (omega arith)
      (ground arith) (omega (arith, at_start)) (at_start, prepared)
