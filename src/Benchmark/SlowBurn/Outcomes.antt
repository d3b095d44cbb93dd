-- ===== src/Benchmark/SlowBurn/Outcomes.antt =====
-- What the attack of packages/benchmark/src/scenarios/slowBurn.ts comes to.
use taop_protocol.Prelude.{
  ℕ, zero, suc, ◌+◌, ◌*◌, ◌≤◌, ◌<◌, ◌≡◌, ◌≢◌, refl, ◌∙◌, ap, Bool, true, false, List, Option, none,
  some, length, arith, leb, nat_eq, Bool-cases, inl, inr,
}
use mathlib.Core.Option.{some-injective}
use taop_protocol.Prelude.Int.{pos}
use taop_protocol.Indexer.Decay.{DecayConstants}
use taop_protocol.Indexer.Decay.Bounds.{decayed_score-le-net_score}
use taop_protocol.Benchmark.Mechanisms.{
  MechanismParams, AgentState, MechanismState, Kind, base_taop_v05, base_taop_v03,
  base_taop_two_sided, base_taop_self_attest, naive_count, no_decay, peer_ratings, stake_gated,
  agent_of, ensure,
}
use taop_protocol.Benchmark.Mechanisms.Operations.{slash_stake, slashable, slash_capability}
use taop_protocol.Benchmark.Mechanisms.Scoring.{
  confirmed_count, distinct_counterparties, linear_decay_score, decaying_score, score_of, score,
}
use taop_protocol.Benchmark.Mechanisms.Scores.{decayed_score-linear_decay_score, net_score-sub}
use taop_protocol.Benchmark.Mechanisms.Funds.{agent_of-modify_same}
use taop_protocol.Benchmark.SlowBurn.{
  SlowBurnConfig, Attack, SlowBurnMetrics, day_secs, attacker, accomplice_ids, attest_times,
  dispute_all, prepare, burn_days, punish, profit, run_slow_burn_harvest,
}
use taop_protocol.Benchmark.SlowBurn.Support.{IsSupported, distinct-le-accounts, frame}
use taop_protocol.Benchmark.SlowBurn.Days.{
  Supports, prepare-Supports, day-Supports, burn_days-Supports,
}

-- The mechanisms whose score counts distinct raters.
abbrev pub counts_raters : Kind → Bool
counts_raters base_taop_v05 = true
counts_raters base_taop_v03 = true
counts_raters peer_ratings = true
counts_raters _ = false

linear_decay_score-le :
    (count disputes last now g h : ℕ) → linear_decay_score count disputes last now g h ≤ count
linear_decay_score-le count disputes last now g h =
    let c : DecayConstants = record { grace = g; horizon = h } in
    omega (
      arith,
      decayed_score-linear_decay_score c count disputes last now,
      decayed_score-le-net_score c (pos count) disputes last now,
      net_score-sub count disputes,
    )

score_of-le-raters :
    (params : MechanismParams) (kind : Kind) (a : AgentState) (now : ℕ)
    → counts_raters kind ≡ true
    → score_of params kind a now ≤ distinct_counterparties a
unfolding score_of decaying_score
score_of-le-raters params base_taop_v05 a now h = omega (
  arith,
  linear_decay_score-le (distinct_counterparties a) a.disputes a.last_activity now
      params.decay_grace_secs params.decay_horizon_secs,
)
score_of-le-raters params base_taop_v03 a now h =
    linear_decay_score-le (distinct_counterparties a) a.disputes a.last_activity now
      params.decay_grace_secs params.decay_horizon_secs
score_of-le-raters params peer_ratings a now h = omega arith
score_of-le-raters params base_taop_two_sided a now h = absurd (cc)
score_of-le-raters params base_taop_self_attest a now h = absurd (cc)
score_of-le-raters params naive_count a now h = absurd (cc)
score_of-le-raters params no_decay a now h = absurd (cc)
score_of-le-raters params stake_gated a now h = absurd (cc)

linear_decay_score_none :
    (count disputes last now g h : ℕ)
    → count ≤ disputes
    → linear_decay_score count disputes last now g h ≡ 0
unfolding linear_decay_score
linear_decay_score_none count disputes last now g h p = ground arith

-- With every completion disputed there is no score, of whatever mechanism that reads disputes.
score_of-dispute_all :
    (params : MechanismParams) (kind : Kind) (ids : List ℕ) (a : AgentState) (now : ℕ)
    → kind ≢ naive_count
    → IsSupported ids 0 a
    → score_of params kind (dispute_all a) now ≡ 0
unfolding score_of decaying_score confirmed_count distinct_counterparties
score_of-dispute_all params kind ids a now h v = go kind h
  where
    curve :
        (count : ℕ)
        → count ≤ a.completions
        → linear_decay_score count a.completions a.last_activity now params.decay_grace_secs
            params.decay_horizon_secs
          ≡ 0
    curve count p =
        linear_decay_score_none count a.completions a.last_activity now params.decay_grace_secs
          params.decay_horizon_secs p

    go : (k : Kind) → k ≢ naive_count → score_of params k (dispute_all a) now ≡ 0
    go base_taop_v05 h =
        rw (curve (distinct_counterparties a) (omega (arith, v.rated))) (omega arith)
    go base_taop_v03 h = curve (distinct_counterparties a) (omega (arith, v.rated))
    go base_taop_two_sided h = curve (confirmed_count a) (omega (arith, v.confirmed))
    go base_taop_self_attest h = curve a.completions (omega arith)
    go naive_count h = absurd (h refl)
    go no_decay h = omega arith
    go peer_ratings h = omega (arith, v.rated)
    go stake_gated h = omega arith

module _ (params : MechanismParams) (kind : Kind) (config : SlowBurnConfig) where
  abbrev ids : List ℕ
  ids = accomplice_ids kind config

  abbrev burned_from : ℕ → ℕ → Attack → Option ℕ
  burned_from left day attack = (burn_days params kind config left day attack).days_to_threshold

  burn_days-misses :
      (left day : ℕ) (attack : Attack)
      → counts_raters kind ≡ true
      → length ids < config.target_score
      → Supports ids 0 attack.state
      → burned_from left day attack ≡ none
  unfolding burn_days score
  burn_days-misses zero day attack k few v = refl
  burn_days-misses (suc left) day attack k few v =
      let (attested, kept) = day-Supports params kind config day attack v in
      let a =
        agent_of (attest_times kind ids (day * day_secs) config.attests_per_day attack).state
          attacker in
      let low : score_of params kind a (day * day_secs) < config.target_score = omega (
        arith,
        score_of-le-raters params kind a (day * day_secs) k,
        distinct-le-accounts ids 0 a attested,
        few,
      ) in
      let missed : leb config.target_score (score_of params kind a (day * day_secs)) ≡ false =
        ground arith in
      rw (missed, burned_from) (burn_days-misses left (day + 1) _ k few kept)

  burn_days-reaches :
      (left day found : ℕ) (attack : Attack)
      → burned_from left day attack ≡ some found
      → (config.target_score ≤ (burn_days params kind config left day attack).score_at_harvest)
        × (day ≤ found)
        × (found < day + left)
  unfolding burn_days score
  burn_days-reaches zero day found attack e = absurd (cc)
  burn_days-reaches (suc left) day found attack e =
      let now = day * day_secs in
      let attested = attest_times kind ids now config.attests_per_day attack in
      let scored = ensure attested.state attacker in
      elim (Bool-cases
        (leb config.target_score (score_of params kind (agent_of attested.state attacker) now))) [
          | inl hit ↦
              let same : day ≡ found = some-injective day found (rw (hit, burned_from) at e) in
              rw hit (ground arith, omega arith, omega arith)
          | inr miss ↦
              let (high, first, last) =
                burn_days-reaches left (day + 1) found (record attested { state = scored })
                  (rw (miss, burned_from) at e) in
              rw miss (high, omega arith, omega arith)
        ]

  abbrev outcome : SlowBurnMetrics
  outcome = run_slow_burn_harvest params kind config

  abbrev start : Attack
  start = record { receipt_index = 0; state = prepare params kind config }

  agent_of-punish :
      (day : ℕ) (s : MechanismState)
      → agent_of (punish params kind config (some day) s) attacker
        ≡ dispute_all (slash_stake (slashable params kind s attacker) (agent_of s attacker))
  unfolding punish slash_capability
  agent_of-punish day s =
      agent_of-modify_same attacker dispute_all (slash_capability params kind attacker s)
      ∙ ap dispute_all
          (agent_of-modify_same attacker (slash_stake (slashable params kind s attacker)) s)

  -- Where the score counts distinct raters, an attacker with fewer accomplices than the target score
  -- never reaches it, however often they rate and for however many days, and the attack has no profit.
  -- (A mechanism without receipts uses no accomplices.)
  pub slow_burn-unreachable :
      counts_raters kind ≡ true
      → length (accomplice_ids kind config) < config.target_score
      → (outcome.days_to_threshold ≡ none) × (outcome.net_attacker_profit_wei ≡ pos 0)
  unfolding run_slow_burn_harvest profit
  slow_burn-unreachable k few =
      let missed =
        burn_days-misses config.horizon_days 1 start k few (prepare-Supports params kind config) in
      (missed, rw missed refl)

  -- Where the attack succeeds it does so on a day of the horizon, with at least the target score; and
  -- once the capability is slashed and the completions are disputed, the attacker's score is 0, in
  -- every mechanism but the naive count.
  pub slow_burn-punished :
      (day : ℕ)
      → kind ≢ naive_count
      → outcome.days_to_threshold ≡ some day
      → (config.target_score ≤ outcome.score_at_harvest)
        × (1 ≤ day)
        × (day ≤ config.horizon_days)
        × (outcome.score_after_slash ≡ 0)
  unfolding run_slow_burn_harvest score
  slow_burn-punished day k e =
      let (high, first, last) = burn_days-reaches config.horizon_days 1 day start e in
      let s = (burn_days params kind config config.horizon_days 1 start).state in
      let v =
        burn_days-Supports params kind config config.horizon_days 1 start
          (prepare-Supports params kind config) in
      let slashed = slash_stake (slashable params kind s attacker) (agent_of s attacker) in
      (
        high,
        first,
        omega arith,
        rw (e, agent_of-punish day s)
            (score_of-dispute_all params kind ids slashed (config.horizon_days * day_secs) k
              (frame ids 0 (agent_of s attacker) slashed refl refl refl v)),
      )
