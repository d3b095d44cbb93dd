-- ===== src/Indexer/Start/Settings.antt =====
-- The settings that the environment may give.
use taop_protocol.Prelude.{ℕ, ◌≤◌, Text, Option, none, some, arith}
use taop_protocol.Index.Alerts.{Number, finite, not_finite}
use taop_protocol.Indexer.Start.{clamped, env_int, IndexerEnv, Probes, poll_options}

env_int-within :
    (number_of_text : Text → Number) (value : Option Text) (fallback least most : ℕ)
    → least ≤ fallback
    → fallback ≤ most
    → (least ≤ env_int number_of_text value fallback least most)
      × (env_int number_of_text value fallback least most ≤ most)
unfolding env_int
env_int-within number_of_text none fallback least most p q = (omega arith, omega arith)
env_int-within number_of_text (some value) fallback least most p q = of (number_of_text value)
  where
    of :
        (n : Number)
        → (least ≤ clamped fallback least most n) × (clamped fallback least most n ≤ most)
    of not_finite = (p, q)
    of (finite n fraction) = (omega arith, omega arith)

-- Whatever the environment holds, a chunk has 1 to 100,000 blocks, a poll 1 to 10,000 chunks, at most
-- 10,000 confirmations are waited for, and at most 1,000,000 alerts are kept.
pub poll_options-within :
    (number_of_text : Text → Number) (env : IndexerEnv) (probes : Probes) (head : ℕ)
    → let opts = poll_options number_of_text env probes head in
      ((1 ≤ opts.chunk_size) × (opts.chunk_size ≤ 100_000))
      × ((1 ≤ opts.max_chunks) × (opts.max_chunks ≤ 10_000))
      × (opts.confirmations ≤ 10_000)
      × (opts.alerts_keep ≤ 1_000_000)
unfolding poll_options
poll_options-within number_of_text env probes head = (
  env_int-within number_of_text env.chunk_size 2000 1 100_000 (omega arith) (omega arith),
  env_int-within number_of_text env.max_chunks 20 1 10_000 (omega arith) (omega arith),
  (env_int-within number_of_text env.confirmations 5 0 10_000 (omega arith) (omega arith)).1,
  (env_int-within number_of_text env.retention_alerts 5000 0 1_000_000 (omega arith)
      (omega arith)).1,
)
