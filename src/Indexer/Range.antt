-- ===== src/Indexer/Range.antt =====
-- `indexRange` of packages/backend/src/indexer.ts. The cache of timestamps is not modelled: within
-- one pass the node's answer for a block is one value.
use taop_protocol.Prelude.{
  ℕ, Bool, true, false, ◌&&◌, ◌||◌, List, [], ◌∷◌, Option, none, some, to_lower, ◌==◌, ltb, leb,
  nat_beq, if◌then◌else◌, text_eq,
}
use taop_protocol.Sort.{sort_by}
use taop_protocol.Index.{Index}
use taop_protocol.Index.Logs.{already_indexed, mark_indexed}
use taop_protocol.Indexer.{Chain, Log, Block, Result, ok, err, ◌>>=◌}
use taop_protocol.Indexer.Events.{apply_registry_event, apply_ron_event}

-- (a.blockNumber - b.blockNumber) || (a.index - b.index), as "may stand before".
unfoldable pub log_order : Log → Log → Bool
log_order a b =
    ltb a.block_number b.block_number
    || nat_beq a.block_number b.block_number && leb a.index b.index

unfoldable pub mark_log : Log → Index → Index
mark_log log ix = mark_indexed log.transaction_hash log.index log.block_number ix

module _ (chain : Chain) where
  -- `b?.timestamp ?? Math.floor(Date.now() / 1000)`
  unfoldable pub timestamp_of : Option Block → ℕ
  timestamp_of none = chain.now_seconds
  timestamp_of (some b) = b.timestamp

  unfoldable pub block_ts : ℕ → Result ℕ
  unfolding timestamp_of
  block_ts block_number = do b ← chain.get_block block_number; ok (timestamp_of b)

  -- An event that throws leaves the tables as they are, and its log unmarked.
  unfoldable pub after_registry_event : Log → Index → Result Index → Index
  after_registry_event log ix (err e) = ix
  after_registry_event log ix (ok ix') = mark_log log ix'

  unfoldable pub apply_registry_log : Log → ℕ → Index → Index
  unfolding after_registry_event
  apply_registry_log log ts ix = elim (chain.parse_registry_log log) [
    | none ↦ mark_log log ix
    | some parsed ↦ after_registry_event log ix (apply_registry_event chain log parsed ts ix)
  ]

  unfoldable pub apply_ron_log : Log → ℕ → Index → Index
  apply_ron_log log ts ix = elim (chain.parse_ron_log log) [
    | none ↦ mark_log log ix
    | some parsed ↦ mark_log log (apply_ron_event chain log parsed ts ix)
  ]

  unfoldable pub is_registry : Log → Bool
  is_registry log = to_lower log.address == to_lower chain.registry

  unfoldable pub apply_log : Log → ℕ → Index → Index
  apply_log log ts ix =
      if is_registry log then apply_registry_log log ts ix else apply_ron_log log ts ix

  -- The loop over the sorted logs. It ends with the error of `blockTs`, if that throws.
  unfoldable pub apply_logs : List Log → Index → Index × Result (Unit {0})
  apply_logs [] ix = (ix, ok tt)
  apply_logs (log ∷ rest) ix = elim (already_indexed log.transaction_hash log.index ix) [
    | true ↦ apply_logs rest ix
    | false ↦ elim (block_ts log.block_number) [
      | err e ↦ (ix, err e)
      | ok ts ↦ apply_logs rest (apply_log log ts ix)
    ]
  ]

  unfoldable pub index_range : ℕ → ℕ → Index → Index × Result (Unit {0})
  index_range from_block to_block ix =
      if ltb to_block from_block then (ix, ok tt) else elim (chain.get_logs from_block to_block) [
        | err e ↦ (ix, err e)
        | ok logs ↦ apply_logs (sort_by log_order logs) ix
      ]
