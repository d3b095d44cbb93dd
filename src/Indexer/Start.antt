-- ===== src/Indexer/Start.antt =====
-- `envInt`, the probes of the contract, and `startIndexer` up to its first poll, of
-- packages/backend/src/indexer.ts.
pub mod Settings
use taop_protocol.Prelude.{
  ℕ, ◌+◌, ◌-◌, ◌^◌, Bool, true, false, Text, text, Option, none, some, ◌==◌, to_lower, min, max,
  text_eq, if◌then◌else◌,
}
use mathlib.Core.Option
use taop_protocol.Index.Alerts.{Number, finite, not_finite, floor_ℕ}
use taop_protocol.Webhooks.{Platform, WebhookEnv}
use taop_protocol.Webhooks.Config.{max_safe_integer}
use taop_protocol.Indexer.{Chain, Result, ok, err}
use taop_protocol.Indexer.Decay.{DecayConstants, default_decay}
use taop_protocol.Indexer.Events.{truthy}
use taop_protocol.Indexer.Poll.{PollOptions, IndexerStatus, Pass, poll}

-- The environment variables.
pub record IndexerEnv : Type 0 where
  pub enabled : Option Text
  pub chunk_size : Option Text
  pub confirmations : Option Text
  pub lookback : Option Text
  pub max_chunks : Option Text
  pub start_block : Option Text
  pub retention_alerts : Option Text
  pub retention_markers : Option Text

-- What the probes of the contract answer, and the deployment's block, if it is known.
pub record Probes : Type 0 where
  pub challenge_window : Result (Unit {0})
  pub credit_score : Result (Unit {0})
  pub decay_grace : Result ℕ
  pub decay_horizon : Result ℕ
  pub deployed_block : Option ℕ

-- `Number(process.env[name] ?? fallback)`, clamped; the bounds are not negative.
abbrev pub clamped : ℕ → ℕ → ℕ → Number → ℕ
clamped fallback least most not_finite = fallback
clamped fallback least most (finite n fraction) = min (max (floor_ℕ n) least) most

unfoldable pub env_int : (Text → Number) → Option Text → ℕ → ℕ → ℕ → ℕ
env_int number_of_text none fallback least most = min (max fallback least) most
env_int number_of_text (some value) fallback least most =
    clamped fallback least most (number_of_text value)

-- A probe that answers, as true.
abbrev pub answers : Result (Unit {0}) → Bool
answers (ok _) = true
answers (err e) = false

unfoldable pub load_decay_constants : Probes → DecayConstants → DecayConstants
load_decay_constants probes c = elim probes.decay_grace [
  | err e ↦ c
  | ok grace ↦ elim probes.decay_horizon [
    | err e ↦ record c { grace = grace }
    | ok horizon ↦ record { grace = grace; horizon = horizon }
  ]
]

abbrev is_off : Option Text → Bool
is_off value = to_lower (Option.get_or value (text "true")) == text "false"

module _ (number_of_text : Text → Number) (env : IndexerEnv) where
  unfoldable pub explicit_start : Option ℕ
  unfolding env_int
  explicit_start = elim (truthy env.start_block) [
    | none ↦ none
    | some value ↦ some (env_int number_of_text (some value) 0 0 max_safe_integer)
  ]

  -- `explicitStart ?? deployedBlock ?? Math.max(0, head - lookback)`
  unfoldable pub first_block : Probes → ℕ → ℕ
  unfolding explicit_start env_int
  first_block probes head = elim explicit_start [
    | some block ↦ block
    | none ↦ elim probes.deployed_block [
      | some block ↦ block
      | none ↦ head - env_int number_of_text env.lookback 50000 0 100_000_000
    ]
  ]

  unfoldable pub poll_options : Probes → ℕ → PollOptions
  unfolding first_block env_int
  poll_options probes head = record {
    start_block = first_block probes head;
    chunk_size = env_int number_of_text env.chunk_size 2000 1 100_000;
    confirmations = env_int number_of_text env.confirmations 5 0 10_000;
    max_chunks = env_int number_of_text env.max_chunks 20 1 10_000;
    alerts_keep = env_int number_of_text env.retention_alerts 5000 0 1_000_000;
    marker_blocks = env_int number_of_text env.retention_markers 0 0 100_000_000;
  }

  unfoldable pub probed_status : Probes → IndexerStatus → IndexerStatus
  probed_status probes status =
      let two_sided = answers probes.challenge_window in
      record status {
        enabled = true;
        use_two_sided = two_sided;
        use_credit = if two_sided then answers probes.credit_score else false;
      }

  -- The pass after the first poll, with the options of the later ones: none where the indexer is
  -- disabled. An error of the head's read ends the start.
  unfoldable pub start_indexer :
      {Body : Type 0}
      → Chain
      → Platform Body
      → WebhookEnv
      → Probes
      → Pass
      → Pass × Result (Option PollOptions)
  unfolding probed_status poll_options
  start_indexer chain platform webhook_env probes p =
      if is_off env.enabled
      then (record p { status = record (p.status) { enabled = false } }, ok none)
      else let probed : Pass = record p { status = probed_status probes p.status } in
        elim chain.get_block_number [
          | err e ↦ (probed, err e)
          | ok head ↦
              let opts = poll_options probes head in
              (poll chain platform webhook_env opts probed, ok (some opts))
        ]
