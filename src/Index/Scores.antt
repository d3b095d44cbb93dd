-- ===== src/Index/Scores.antt =====
-- The score components of packages/backend/src/index_db.ts: `agent_scores`, and the confirmations
-- of each counterparty with the number of distinct ones.
pub mod Diversity
use taop_protocol.Prelude.{
  ℕ, zero, suc, ◌+◌, ◌-◌, ◌≡◌, Bool, true, false, Text, Option, none, some, Eq, ◌==◌, ltb, leb,
  nat_beq, if◌then◌else◌, max, to_lower, text_eq, pair_eq,
}
use taop_protocol.Prelude.Int.{ℤ, pos, negsuc, ◌+ℤ◌}
use taop_protocol.Table.{find, put, delete, update, upsert}
use taop_protocol.Index.{Index, AgentScore}

-- The `delta` of `bumpAgent`: each missing field is 0.
abbrev pub no_change : AgentScore
no_change = record { completions = 0; confirmed = pos 0; disputes = 0; last_activity = 0 }

-- SQL's MAX(0, n).
abbrev pub max_zero : ℤ → ℤ
max_zero (pos n) = pos n
max_zero (negsuc n) = pos 0

unfoldable pub add_delta : AgentScore → AgentScore → AgentScore
unfolding ◌+ℤ◌
add_delta delta row = record {
  completions = row.completions + delta.completions;
  confirmed = max_zero (row.confirmed +ℤ delta.confirmed);
  disputes = row.disputes + delta.disputes;
  last_activity = max row.last_activity delta.last_activity;
}

unfoldable pub bump_agent : Text → AgentScore → Index → Index
bump_agent agent delta ix = record ix {
  agent_scores = upsert (to_lower agent) delta (add_delta delta) ix.agent_scores;
}

-- The two values of the argument `delta: 1 | -1`.
pub data Delta : Type 0 where
  plus_one minus_one : Delta

-- `cur + delta`, where a negative sum counts as 0: both take the branch of `next <= 0`.
unfoldable pub next_count : ℕ → Delta → ℕ
next_count cur plus_one = cur + 1
next_count cur minus_one = cur - 1

abbrev pub or_zero : Option ℕ → ℕ
or_zero none = 0
or_zero (some n) = n

unfoldable pub bump_counterparty : Text → Text → Delta → Index → Index
bump_counterparty agent counterparty delta ix =
    let a = to_lower agent in
    let cp = to_lower counterparty in
    let cur = or_zero (find (a, cp) ix.counterparty_confirmations) in
    let next = next_count cur delta in
    if leb next 0
    then record ix {
      counterparty_confirmations = delete (a, cp) ix.counterparty_confirmations;
      agent_diversity =
          if ltb 0 cur then update a (λ n. n - 1) ix.agent_diversity else ix.agent_diversity;
    }
    else record ix {
      counterparty_confirmations = upsert (a, cp) next (λ _. next) ix.counterparty_confirmations;
      agent_diversity =
          if nat_beq cur 0 then upsert a 1 (λ n. n + 1) ix.agent_diversity else ix.agent_diversity;
    }
