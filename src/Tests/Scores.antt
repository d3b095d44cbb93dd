-- ===== src/Tests/Scores.antt =====
-- The scores of packages/backend/src/indexer.ts and packages/benchmark/src/mechanisms.ts.
use taop_protocol.Prelude.{
  ℕ, ◌+◌, ◌-◌, ◌*◌, ◌^◌, ◌≡◌, ◌≤◌, List, [], ◌∷◌, ◌++◌, Text, text, none, some, true, false, refl,
  arith, All, count, length, min,
}
use taop_protocol.Prelude.Int.{pos, ◌+ℤ◌}
use taop_protocol.Sort.{IsOrdered, by_key_desc}
use taop_protocol.Index.{Index, init_index_schema}
use taop_protocol.Index.Capabilities.{
  query_indexed_capabilities, upsert_indexed_capability, certify_indexed_capability,
}
use taop_protocol.Indexer.Decay.{default_decay, decayed_score}
use taop_protocol.Indexer.Decay.Bounds.{decayed_score_antitone}
use taop_protocol.Indexer.Poll.{initial_status}
use taop_protocol.Indexer.Discovery.{DiscoveryOptions, query_indexed_discovery}
use taop_protocol.Indexer.Discovery.Pages.{
  qualifies, query_indexed_discovery_page, query_indexed_discovery_next,
}
use taop_protocol.Benchmark.Mechanisms.{
  base_taop_v05, base_taop_v03, base_taop_two_sided, default_params, base_state, agent_of,
}
use taop_protocol.Benchmark.Mechanisms.Scoring.{linear_decay_score, score_of}
use taop_protocol.Benchmark.Economics.{tx_cost, gas_challenge_completion}
use taop_protocol.Benchmark.Mechanisms.{CompletionState, MechanismState}
use taop_protocol.Benchmark.Mechanisms.Operations.{find_first, has_id, challenge, resolve_base}
use taop_protocol.Benchmark.Mechanisms.Funds.{challenge-resolve_base}
use taop_protocol.Benchmark.Mechanisms.Scores.{decayed_score-linear_decay_score}
use taop_protocol.Benchmark.Mechanisms.Histories.{
  Operation, attests, rates, challenges, resolves, locks, run, run-score_order,
}

-- 100 days without activity
abbrev later : ℕ
later = 1000 + 100 * 24 * 3600

decayed_score_antitone_example :
    decayed_score default_decay (pos 9) 2 1000 later
    ≤ decayed_score default_decay (pos 9) 2 1000 2000
decayed_score_antitone_example =
    decayed_score_antitone default_decay (pos 9) 2 1000 2000 later (omega arith)

decayed_score-linear_decay_score_example :
    decayed_score default_decay (pos 9) 2 1000 later
    ≡ linear_decay_score 9 2 1000 later default_decay.grace default_decay.horizon
decayed_score-linear_decay_score_example =
    decayed_score-linear_decay_score default_decay 9 2 1000 later

-- Agent 1 completes two tasks for agent 2, who confirms both; a challenge of the second is upheld.
abbrev history : List Operation
history =
    locks 1 (10 ^ 17)
    ∷ attests 1 100
    ∷ rates 2 1
    ∷ attests 1 200
    ∷ rates 2 1
    ∷ challenges 2 3
    ∷ resolves 2 true
    ∷ []

run-score_order_example :
    (score_of default_params base_taop_v05
        (agent_of (run default_params base_taop_v05 history (base_state 0)) 1)
        300
      ≤ score_of default_params base_taop_v03
          (agent_of (run default_params base_taop_v05 history (base_state 0)) 1)
          300)
    × (score_of default_params base_taop_v03
          (agent_of (run default_params base_taop_v05 history (base_state 0)) 1)
          300
        ≤ score_of default_params base_taop_two_sided
            (agent_of (run default_params base_taop_v05 history (base_state 0)) 1)
            300)
run-score_order_example = run-score_order default_params base_taop_v05 history 0 1 300

abbrev identity_hash : Text → Text
identity_hash label = label

abbrev ether : ℕ → Text
ether wei = text "0.0"

abbrev registered : Index
registered =
    certify_indexed_capability 4 (
      upsert_indexed_capability 4 (text "0xC0") 5 (text "audit") [] (text "2026") init_index_schema)

abbrev ask : DiscoveryOptions
ask = record { capability_type = text "audit"; min_score = 0; offset = 0; limit = 1; now = 2000 }

query_indexed_discovery_page_example :
    let (page, total) =
      query_indexed_discovery identity_hash ether default_decay initial_status registered ask in
    IsOrdered (by_key_desc (λ item. item.score)) page
    × All (λ item. 0 ≤ item.score) page
    × (total
        ≡ count
            (qualifies identity_hash ether default_decay initial_status registered ask)
            (query_indexed_capabilities identity_hash (text "audit") registered))
    × (length page ≡ min 1 (total - 0))
query_indexed_discovery_page_example =
    query_indexed_discovery_page identity_hash ether default_decay initial_status registered ask

query_indexed_discovery_next_example :
    ((query_indexed_discovery identity_hash ether default_decay initial_status registered ask).0
        ++ (query_indexed_discovery identity_hash ether default_decay initial_status registered
            (record ask { offset = 0 + 1; limit = 2 })).0
      ≡ (query_indexed_discovery identity_hash ether default_decay initial_status registered
          (record ask { limit = 1 + 2 })).0)
    × ((query_indexed_discovery identity_hash ether default_decay initial_status registered
          (record ask { offset = 0 + 1; limit = 2 })).1
        ≡ (query_indexed_discovery identity_hash ether default_decay initial_status registered
            ask).1)
query_indexed_discovery_next_example =
    query_indexed_discovery_next identity_hash ether default_decay initial_status registered ask 2

-- Agent 1 has completed task 1, and nobody has challenged it.
abbrev done : CompletionState
done = record {
  id = 1;
  agent = 1;
  timestamp = 100;
  challenged = false;
  disputed = false;
  challenger = none;
  receipt_from = some 2;
}

abbrev one_done : MechanismState
one_done = record { now = 100; next_completion_id = 2; agents = []; completions = done ∷ [] }

found_done : find_first (has_id 1) one_done.completions ≡ some done
unfolding find_first
found_done = refl

challenge-resolve_base_example :
    let a = agent_of one_done 3 in
    let won =
      agent_of (resolve_base default_params 1 true (challenge default_params 1 3 one_done)) 3 in
    let lost =
      agent_of (resolve_base default_params 1 false (challenge default_params 1 3 one_done)) 3 in
    ((won.locked_wei ≡ a.locked_wei)
      × (won.spent_wei ≡ a.spent_wei +ℤ pos (tx_cost gas_challenge_completion))
      × (won.slashed_wei ≡ a.slashed_wei))
    × ((lost.locked_wei ≡ a.locked_wei)
        × (lost.spent_wei
            ≡ a.spent_wei
              +ℤ pos (tx_cost gas_challenge_completion + default_params.challenge_bond_wei))
        × (lost.slashed_wei ≡ a.slashed_wei + default_params.challenge_bond_wei))
challenge-resolve_base_example =
    challenge-resolve_base default_params 1 3 one_done done found_done refl refl
