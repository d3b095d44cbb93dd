-- ===== src/Indexer/Passes.antt =====
-- The block ranges and polls of packages/backend/src/indexer.ts against the invariant of the tables.
use taop_protocol.Prelude.{
  ℕ, zero, suc, ◌+◌, ◌-◌, List, [], ◌∷◌, arith, Option-cases, Bool-cases, inl, inr, ltb, min,
}
use taop_protocol.Sort.{sort_by}
use taop_protocol.Table.{find}
use taop_protocol.Index.{Index}
use taop_protocol.Index.Alerts.{Number, prune_alerts, delete_alerts_up_to}
use taop_protocol.Index.Alerts.Numbered.{IsNumbered-select}
use taop_protocol.Index.Alerts.Retention.{Pruned, kept, cut, prune_alerts-Pruned}
use taop_protocol.Index.Logs.{
  get_indexer_last_block, mark_indexed, already_indexed, reset_indexer_derived, prune_indexed_logs,
  set_indexer_last_block, set_indexer_last_hash,
}
use taop_protocol.Index.Sound.{IsSound}
use taop_protocol.Indexer.{Chain, Log, Result, ok, err, Result-cases}
use taop_protocol.Indexer.Range.{
  log_order, mark_log, after_registry_event, apply_registry_log, apply_ron_log, is_registry,
  apply_log, block_ts, apply_logs, index_range,
}
use taop_protocol.Indexer.Soundness.{
  IsSoundResult, apply_registry_event-IsSound, apply_ron_event-IsSound,
}
use taop_protocol.Webhooks.{Platform, WebhookEnv}
use taop_protocol.Indexer.Poll.{
  Pass, PollOptions, index_chunks, store_cursor, check_reorg, reorg_at, retain, after_chunks,
  poll_from, after_head, poll_once,
}

mark_log-IsSound : (log : Log) {ix : Index} → IsSound ix → IsSound (mark_log log ix)
unfolding mark_log mark_indexed
mark_log-IsSound log v = record { diverse = v.diverse; numbered = v.numbered; tallied = v.tallied }

after-IsSound :
    (chain : Chain) (log : Log) (r : Result Index) {ix : Index}
    → IsSound ix
    → IsSoundResult r
    → IsSound (after_registry_event chain log ix r)
unfolding after_registry_event
after-IsSound chain log (ok ix') v w = mark_log-IsSound log w
after-IsSound chain log (err e) v w = v

module _ (chain : Chain) where
  pub apply_log-IsSound :
      (log : Log) (ts : ℕ) {ix : Index} → IsSound ix → IsSound (apply_log chain log ts ix)
  unfolding apply_log apply_registry_log apply_ron_log
  apply_log-IsSound log ts {ix} v = elim (Bool-cases (is_registry chain log)) [
    | inl e ↦ rw e (elim (Option-cases (chain.parse_registry_log log)) [
      | inl n ↦ rw (n, apply_registry_log) (mark_log-IsSound log v)
      | inr (p, n) ↦
          rw (n, apply_registry_log)
            (after-IsSound chain log _ v (apply_registry_event-IsSound chain log p ts v))
    ])
    | inr e ↦ rw e (elim (Option-cases (chain.parse_ron_log log)) [
      | inl n ↦ rw (n, apply_ron_log) (mark_log-IsSound log v)
      | inr (p, n) ↦
          rw (n, apply_ron_log) (mark_log-IsSound log (apply_ron_event-IsSound chain log p ts v))
    ])
  ]

  apply_logs-IsSound :
      (logs : List Log) {ix : Index} → IsSound ix → IsSound (apply_logs chain logs ix).0
  unfolding apply_logs
  apply_logs-IsSound [] v = v
  apply_logs-IsSound (log ∷ rest) {ix} v =
      elim (Bool-cases (already_indexed log.transaction_hash log.index ix)) [
        | inl e ↦ rw (e, apply_logs) (apply_logs-IsSound rest v)
        | inr e ↦
            rw (e, apply_logs)
              (elim (Result-cases (block_ts chain log.block_number)) [
                | inl (m, n) ↦ rw n v
                | inr (ts, n) ↦ rw n (apply_logs-IsSound rest (apply_log-IsSound log ts v))
              ])
      ]

  pub index_range-IsSound :
      (from_block to_block : ℕ) {ix : Index}
      → IsSound ix
      → IsSound (index_range chain from_block to_block ix).0
  unfolding index_range
  index_range-IsSound from to {ix} v = elim (Bool-cases (ltb to from)) [
    | inl e ↦ rw e v
    | inr e ↦ rw e (elim (Result-cases (chain.get_logs from to)) [
      | inl (m, n) ↦ rw n v
      | inr (logs, n) ↦ rw n (apply_logs-IsSound (sort_by log_order logs) v)
    ])
  ]

  store_cursor-IsSound : (to : ℕ) {ix : Index} → IsSound ix → IsSound (store_cursor chain to ix)
  unfolding store_cursor set_indexer_last_block set_indexer_last_hash
  store_cursor-IsSound to v = record {
    diverse = v.diverse;
    numbered = v.numbered;
    tallied = v.tallied;
  }

  index_chunks-IsSound :
      (chunk_size bound chunks next : ℕ) {ix : Index}
      → IsSound ix
      → IsSound (index_chunks chain chunk_size bound chunks next ix).0
  unfolding index_chunks
  index_chunks-IsSound size bound zero next v = v
  index_chunks-IsSound size bound (suc chunks) next {ix} v = elim (Bool-cases (ltb next bound)) [
    | inr e ↦ rw (e, index_chunks) v
    | inl e ↦
        rw (e, index_chunks)
          (elim (Result-cases (index_range chain next (min (bound - 1) (next + size - 1)) ix).1) [
            | inl (m, n) ↦ rw n (index_range-IsSound next _ v)
            | inr (u, n) ↦ rw n (
                index_chunks-IsSound size bound chunks _
                  (store_cursor-IsSound _ (index_range-IsSound next _ v)))
          ])
  ]

reset-IsSound :
    (from_block : ℕ) {ix : Index} → IsSound ix → IsSound (reset_indexer_derived from_block ix)
unfolding reset_indexer_derived find
reset-IsSound from_block {ix} v = record {
  diverse = v.diverse;
  numbered = IsNumbered-select _ _ ix.alerts v.numbered;
  tallied = record { counted = λ a s h. cc; scored = λ id r h. cc; lowered = λ id r h. cc };
}

prune_alerts-IsSound :
    (keep : Number) (above : ℕ) {ix : Index} → IsSound ix → IsSound (prune_alerts keep above ix).0
prune_alerts-IsSound keep above {ix} v = from (prune_alerts-Pruned keep above ix)
  where
    from : {r : Index × ℕ} → Pruned above ix r → IsSound r.0
    from kept = v
    from (cut c le) =
        unfold delete_alerts_up_to in
        record {
          diverse = v.diverse;
          numbered = IsNumbered-select _ _ ix.alerts v.numbered;
          tallied = v.tallied;
        }

prune_indexed_logs-IsSound :
    (block : ℕ) (keep : Number) {ix : Index}
    → IsSound ix
    → IsSound (prune_indexed_logs block keep ix).0
unfolding prune_indexed_logs
prune_indexed_logs-IsSound block keep v = record {
  diverse = ground (arith, v.diverse);
  numbered = ground (arith, v.numbered);
  tallied = ground (arith, v.tallied);
}

retain-IsSound :
    (opts : PollOptions) (delivered_id : Index → ℕ) (p : Pass)
    → IsSound p.index
    → IsSound (retain opts delivered_id p).index
unfolding retain
retain-IsSound opts delivered_id p v = elim (Bool-cases (ltb 0 opts.marker_blocks)) [
  | inl e ↦ rw e (prune_indexed_logs-IsSound _ _ (prune_alerts-IsSound _ _ v))
  | inr e ↦ rw e (prune_alerts-IsSound _ _ v)
]

after_chunks-IsSound :
    (opts : PollOptions) (delivered_id : Index → ℕ) (head : ℕ) (checked : Pass)
    (r : Index × Result (Unit {0}))
    → IsSound r.0
    → IsSound (after_chunks opts delivered_id head checked r).0.index
unfolding after_chunks
after_chunks-IsSound opts delivered_id head checked (ix, err e) v = v
after_chunks-IsSound opts delivered_id head checked (ix, ok _) v =
    retain-IsSound opts delivered_id _ v

module _ (chain : Chain) where
  check_reorg-IsSound : (p : Pass) → IsSound p.index → IsSound (check_reorg chain p).1.index
  unfolding check_reorg
  check_reorg-IsSound p v =
      elim (Bool-cases (reorg_at chain (get_indexer_last_block p.index) p.index)) [
        | inl e ↦ rw e (reset-IsSound _ v)
        | inr e ↦ rw e v
      ]

  module _ {Body : Type 0} (platform : Platform Body) (env : WebhookEnv) (opts : PollOptions) where
    poll_from-IsSound :
        (head : ℕ) (p : Pass)
        → IsSound p.index
        → IsSound (poll_from chain platform env opts head p).0.index
    unfolding poll_from
    poll_from-IsSound head p v =
        after_chunks-IsSound opts _ head _ _
          (index_chunks-IsSound chain _ _ _ _ (check_reorg-IsSound _ v))

    after_head-IsSound :
        (p : Pass) (r : Result ℕ)
        → IsSound p.index
        → IsSound (after_head chain platform env opts p r).0.index
    unfolding after_head
    after_head-IsSound p (err e) v = v
    after_head-IsSound p (ok head) v = poll_from-IsSound head p v

    -- Whatever the node answers, and wherever a poll stops with an error, the tables that it leaves are
    -- sound: the distinct counts match the confirmations, alert ids name one alert each, no agent has a
    -- negative number of confirmations, and each receipt belongs to an agent with a score.
    pub poll_once-IsSound :
        (p : Pass) → IsSound p.index → IsSound (poll_once chain platform env opts p).0.index
    unfolding poll_once
    poll_once-IsSound p v = after_head-IsSound p chain.get_block_number v
