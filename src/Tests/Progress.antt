-- ===== src/Tests/Progress.antt =====
-- The start and the progress of the indexer of packages/backend/src/indexer.ts, and the cache of db.ts.
use taop_protocol.Prelude.{
  ℕ, ◌+◌, ◌-◌, ◌*◌, ◌≡◌, refl, true, false, [], ◌∷◌, text, none, some, arith, min, take, to_lower,
}
use taop_protocol.Prelude.Int.{pos}
use taop_protocol.Sort.{sort_by, by_key_desc}
use taop_protocol.Table.{find}
use taop_protocol.Index.{AdminAction, init_index_schema}
use taop_protocol.Index.Alerts.{finite, safe_limit}
use taop_protocol.Index.Logs.{get_indexer_last_block}
use taop_protocol.Index.Cache.{
  is_capability_registered, record_capability, record_admin_action, list_admin_actions,
}
use taop_protocol.Index.{Capability}
use taop_protocol.Prelude.{Option, get_elem?, to_lower}
use taop_protocol.Index.Cache.Lookup.{is_capability_registered-record_capability}
use taop_protocol.Index.Cache.Audit.{IsLogged, list_admin_actions-record_admin_action}
use taop_protocol.Indexer.{ok}
use taop_protocol.Indexer.Poll.{check_reorg, reorg_at, next_block, poll_once}
use taop_protocol.Indexer.Progress.Cursor.{first_unread, poll_once-reaches}
use taop_protocol.Indexer.Start.{IndexerEnv, Probes}
use taop_protocol.Indexer.Range.{index_range}
use taop_protocol.Indexer.Replay.Ranges.{index_range_again}
use taop_protocol.Prelude.{false, List, ◌++◌}
use taop_protocol.Index.{Alert}
use taop_protocol.Indexer.Undelivered.Polls.{undelivered, undelivered-poll_once}
use taop_protocol.Tests.Hosts.{config, loads_config}
use taop_protocol.Tests.Backend.{chain, platform, env, opts, new_pass}

starts_at_5 : first_unread chain platform env opts new_pass ≡ 5
unfolding check_reorg reorg_at get_indexer_last_block find next_block
starts_at_5 = refl

poll_once-reaches_example :
    ((poll_once chain platform env opts new_pass).1 ≡ ok tt)
    × (get_indexer_last_block (poll_once chain platform env opts new_pass).0.index
        ≡ some (min (20 + 1 - 2) (first_unread chain platform env opts new_pass + 3 * 100) - 1))
poll_once-reaches_example =
    poll_once-reaches chain platform env opts new_pass 20
      (record { logs = λ from to. (_, refl); blocks = λ n. (_, refl) }) refl (omega arith)
      (omega arith) (omega (arith, starts_at_5))

abbrev unset : IndexerEnv
unset = record {
  enabled = none;
  chunk_size = some (text "0");
  confirmations = none;
  lookback = none;
  max_chunks = none;
  start_block = none;
  retention_alerts = none;
  retention_markers = none;
}

abbrev probes : Probes
probes = record {
  challenge_window = ok tt;
  credit_score = ok tt;
  decay_grace = ok 100;
  decay_horizon = ok 200;
  deployed_block = some 7;
}

-- A database that gives the first row in the order of insertion.
abbrev first : List ℕ → Option ℕ
first [] = none
first (id ∷ rest) = some id

is_capability_registered-record_capability_example :
    let recorded =
      record_capability 4 (text "0xAB") 5 (text "audit") [] true (text "2026") init_index_schema in
    (found : ℕ) × (cap : Capability) × (i : ℕ) × (is_capability_registered first
        (text "0xab")
        (text "AUDIT")
        recorded
      ≡ some found)
    × (get_elem? recorded.capabilities i ≡ some (found, cap))
    × (cap.creator ≡ to_lower (text "0xAB"))
    × (cap.capability_type ≡ to_lower (text "audit"))
unfolding to_lower
is_capability_registered-record_capability_example =
    is_capability_registered-record_capability first 4 (text "0xAB") (text "0xab") (text "audit")
      (text "AUDIT") 5 [] true (text "2026") init_index_schema
      (record { gives = λ id rest. (id, 0, refl, refl) }) (omega arith) refl refl

list_admin_actions-record_admin_action_example :
    (a : AdminAction) × (a.id ≡ 1)
    × (a.action ≡ text "pause")
    × (list_admin_actions (finite (pos 5) false) (
          record_admin_action
            (text "pause")
            (text "0xA0")
            none
            none
            none
            none
            (text "2026")
            init_index_schema)
        ≡ a ∷ take (safe_limit (finite (pos 5) false) - 1) (sort_by (by_key_desc (λ a. a.id)) []))
    × IsLogged (
        record_admin_action
          (text "pause")
          (text "0xA0")
          none
          none
          none
          none
          (text "2026")
          init_index_schema)
list_admin_actions-record_admin_action_example =
    list_admin_actions-record_admin_action (text "pause") (text "0xA0") none none none none
      (text "2026") init_index_schema (finite (pos 5) false) tt

index_range_again_example :
    (index_range chain 5 18 (index_range chain 5 18 init_index_schema).0).0
    ≡ (index_range chain 5 18 init_index_schema).0
index_range_again_example = index_range_again chain (λ id. (_, refl)) 5 18 init_index_schema

no_reorg_yet : reorg_at chain (get_indexer_last_block new_pass.index) new_pass.index ≡ false
unfolding reorg_at get_indexer_last_block find
no_reorg_yet = refl

undelivered-poll_once_example :
    (more : List Alert) × (undelivered (poll_once chain platform env opts new_pass).0.index
      ≡ undelivered new_pass.index ++ more)
undelivered-poll_once_example =
    undelivered-poll_once chain platform env opts config loads_config new_pass no_reorg_yet
