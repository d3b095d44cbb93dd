-- ===== src/Indexer/Poll.antt =====
-- `pollOnce` of packages/backend/src/indexer.ts, with the status it keeps. The source's cursor
-- `from` may be -1 (before block 0): the model keeps `from + 1`, the next block, and
-- `safeHead + 1`, the first block that is not yet safe.
use taop_protocol.Prelude.{
  ℕ, zero, suc, ◌+◌, ◌-◌, Bool, true, false, not, ◌&&◌, [], ◌∷◌, Text, Option, none, some, ◌==◌,
  ltb, if◌then◌else◌, min, text_eq,
}
use mathlib.Core.Option
use taop_protocol.Prelude.Int.{pos}
use taop_protocol.Index.{Index}
use taop_protocol.Index.Alerts.{finite, prune_alerts}
use taop_protocol.Index.Logs.{
  get_indexer_last_block, set_indexer_last_block, get_indexer_last_hash, set_indexer_last_hash,
  reset_indexer_derived, prune_indexed_logs,
}
use taop_protocol.Webhooks.{Platform, WebhookEnv}
use taop_protocol.Webhooks.Config.{last_delivered_id_if_enabled}
use taop_protocol.Indexer.{Chain, Block, Result, ok, err}
use taop_protocol.Indexer.Range.{index_range}

pub record IndexerStatus : Type 0 where
  pub enabled : Bool
  pub ready : Bool
  pub use_two_sided : Bool
  pub use_credit : Bool
  pub last_block : ℕ
  pub head_block : ℕ
  pub safe_head : ℕ
  pub lag : ℕ
  pub reorgs_detected : ℕ
  pub alerts_pruned : ℕ
  pub markers_pruned : ℕ
  pub last_error : Option Text

abbrev pub initial_status : IndexerStatus
initial_status = record {
  enabled = false;
  ready = false;
  use_two_sided = false;
  use_credit = false;
  last_block = 0;
  head_block = 0;
  safe_head = 0;
  lag = 0;
  reorgs_detected = 0;
  alerts_pruned = 0;
  markers_pruned = 0;
  last_error = none;
}

unfoldable pub is_indexer_ready : IndexerStatus → Bool
is_indexer_ready status = status.enabled && status.ready

-- PollOptions, with the two retention settings that the pass reads from the environment.
pub record PollOptions : Type 0 where
  pub start_block : ℕ
  pub chunk_size : ℕ
  pub confirmations : ℕ
  pub max_chunks : ℕ
  pub alerts_keep : ℕ
  pub marker_blocks : ℕ

pub record Pass : Type 0 where
  pub index : Index
  pub status : IndexerStatus

-- `b?.hash ?? null` of a call that may throw.
unfoldable pub hash_of : Result (Option Block) → Option Text
hash_of (err e) = none
hash_of (ok none) = none
hash_of (ok (some b)) = b.hash

-- `stored && chainHash && stored !== chainHash`
unfoldable pub hashes_differ : Option Text → Option Text → Bool
hashes_differ (some (c ∷ cs)) (some (d ∷ ds)) = not ((c ∷ cs) == (d ∷ ds))
hashes_differ _ _ = false

-- `from + 1`
unfoldable pub next_block : PollOptions → Option ℕ → ℕ
next_block opts none = opts.start_block
next_block opts (some cursor) = cursor + 1

unfoldable pub finish_status : PollOptions → ℕ → Index → IndexerStatus → IndexerStatus
finish_status opts head ix status =
    let last_block = Option.get_or (get_indexer_last_block ix) opts.start_block in
    record status {
      last_block = last_block;
      lag = head - last_block;
      last_error = none;
      ready = true;
    }

-- The `try` block on retention.
unfoldable pub retain : PollOptions → (Index → ℕ) → Pass → Pass
retain opts delivered_id p =
    let (ix1, alerts) =
      prune_alerts (finite (pos opts.alerts_keep) false) (delivered_id p.index) p.index in
    let (ix2, markers) =
      if ltb 0 opts.marker_blocks
      then prune_indexed_logs p.status.last_block (finite (pos opts.marker_blocks) false) ix1
      else (ix1, 0) in
    record {
      index = ix2;
      status = record (p.status) {
        alerts_pruned = p.status.alerts_pruned + alerts;
        markers_pruned = p.status.markers_pruned + markers;
      };
    }

-- What follows the loop: an error ends the poll, and leaves what was stored.
unfoldable pub after_chunks :
    PollOptions → (Index → ℕ) → ℕ → Pass → Index × Result (Unit {0}) → Pass × Result (Unit {0})
after_chunks opts delivered_id head checked (ix, err e) = (record checked { index = ix }, err e)
after_chunks opts delivered_id head checked (ix, ok _) = (
  retain opts delivered_id
      (record { index = ix; status = finish_status opts head ix checked.status }),
  ok tt,
)

module _ (chain : Chain) where
  -- Whether the block at the cursor is no longer on the chain.
  unfoldable pub reorg_at : Option ℕ → Index → Bool
  unfolding hash_of hashes_differ
  reorg_at none ix = false
  reorg_at (some cursor) ix =
      ltb 0 cursor && hashes_differ (get_indexer_last_hash ix) (hash_of (chain.get_block cursor))

  -- The cursor and the tables after the check.
  unfoldable pub check_reorg : Pass → Option ℕ × Pass
  check_reorg p =
      let cursor = get_indexer_last_block p.index in
      if reorg_at cursor p.index
      then (
        none,
        record {
          index = reset_indexer_derived (Option.get_or cursor 0) p.index;
          status = record (p.status) { reorgs_detected = p.status.reorgs_detected + 1 };
        },
      )
      else (cursor, p)

  -- Storing the cursor after a chunk.
  unfoldable pub store_cursor : ℕ → Index → Index
  store_cursor to ix =
      set_indexer_last_hash (Option.get_or (hash_of (chain.get_block to)) [])
        (set_indexer_last_block to ix)

  -- The `while` loop: `chunks` rounds are left, `next` is `from + 1`, `bound` is `safeHead + 1`.
  unfoldable pub index_chunks : ℕ → ℕ → ℕ → ℕ → Index → Index × Result (Unit {0})
  index_chunks chunk_size bound zero next ix = (ix, ok tt)
  index_chunks chunk_size bound (suc chunks) next ix = elim (ltb next bound) [
    | false ↦ (ix, ok tt)
    | true ↦
        let to = min (bound - 1) (next + chunk_size - 1) in
        let (ix', r) = index_range chain next to ix in
        elim r [
          | err e ↦ (ix', err e)
          | ok _ ↦ index_chunks chunk_size bound chunks (to + 1) (store_cursor to ix')
        ]
  ]

  module _ {Body : Type 0} (platform : Platform Body) (env : WebhookEnv) (opts : PollOptions) where
    -- What follows the read of the head.
    unfoldable pub poll_from : ℕ → Pass → Pass × Result (Unit {0})
    poll_from head p =
        let bound = head + 1 - opts.confirmations in
        let seen : Pass = record p {
          status = record (p.status) { head_block = head; safe_head = head - opts.confirmations };
        } in
        let (cursor, checked) = check_reorg seen in
        after_chunks opts (last_delivered_id_if_enabled platform env) head checked (
          index_chunks opts.chunk_size bound opts.max_chunks (next_block opts cursor) checked.index)

    unfoldable pub after_head : Pass → Result ℕ → Pass × Result (Unit {0})
    after_head p (err e) = (p, err e)
    after_head p (ok head) = poll_from head p

    unfoldable pub poll_once : Pass → Pass × Result (Unit {0})
    unfolding after_head
    poll_once p = after_head p chain.get_block_number

    -- The `poll` of `startIndexer`: an error is kept in the status.
    unfoldable pub poll : Pass → Pass
    poll p =
        let (q, r) = poll_once p in
        elim r [
          | ok _ ↦ q
          | err e ↦ record q { status = record (q.status) { last_error = some e } }
        ]
