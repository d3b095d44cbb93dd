-- ===== src/Indexer/Progress/Cursor.antt =====
-- The cursor after a whole poll.
use taop_protocol.Prelude.{
  ℕ, zero, suc, ◌+◌, ◌-◌, ◌*◌, ◌<◌, ◌≡◌, refl, ◌∙◌, ap, some, arith, ltb, Bool-cases, inl, inr, min,
}
use taop_protocol.Index.{Index}
use taop_protocol.Index.Alerts.{Number, prune_alerts, delete_alerts_up_to}
use taop_protocol.Index.Alerts.Retention.{Pruned, kept, cut, prune_alerts-Pruned}
use taop_protocol.Index.Logs.{get_indexer_last_block, prune_indexed_logs}
use taop_protocol.Webhooks.{Platform, WebhookEnv}
use taop_protocol.Webhooks.Config.{last_delivered_id_if_enabled}
use taop_protocol.Indexer.{Chain, Result, ok, err}
use taop_protocol.Indexer.Poll.{
  Pass, PollOptions, next_block, index_chunks, check_reorg, reorg_at, retain, after_chunks,
  poll_from, after_head, poll_once,
}
use taop_protocol.Indexer.Progress.{IsResponsive, chunks_reach}

meta-prune_alerts :
    (keep : Number) (above : ℕ) (ix : Index) → (prune_alerts keep above ix).0.meta ≡ ix.meta
meta-prune_alerts keep above ix = from (prune_alerts-Pruned keep above ix)
  where
    from : {r : Index × ℕ} → Pruned above ix r → r.0.meta ≡ ix.meta
    from kept = refl
    from (cut c le) = unfold delete_alerts_up_to in refl

meta-prune_indexed_logs :
    (block : ℕ) (keep : Number) (ix : Index) → (prune_indexed_logs block keep ix).0.meta ≡ ix.meta
unfolding prune_indexed_logs
meta-prune_indexed_logs block keep ix = ground arith

-- Retention leaves the cursor.
meta-retain :
    (opts : PollOptions) (d : Index → ℕ) (p : Pass) → (retain opts d p).index.meta ≡ p.index.meta
unfolding retain
meta-retain opts d p = elim (Bool-cases (ltb 0 opts.marker_blocks)) [
  | inl e ↦ rw e (meta-prune_indexed_logs _ _ _ ∙ meta-prune_alerts _ _ p.index)
  | inr e ↦ rw e (meta-prune_alerts _ _ p.index)
]

last_block-meta :
    (a b : Index) → a.meta ≡ b.meta → get_indexer_last_block a ≡ get_indexer_last_block b
unfolding get_indexer_last_block
last_block-meta a b e = rw e refl

after_chunks-ok :
    (opts : PollOptions) (d : Index → ℕ) (head : ℕ) (checked : Pass) (r : Index × Result (Unit {0}))
    → r.1 ≡ ok tt
    → ((after_chunks opts d head checked r).1 ≡ ok tt)
      × (get_indexer_last_block (after_chunks opts d head checked r).0.index
          ≡ get_indexer_last_block r.0)
unfolding after_chunks
after_chunks-ok opts d head checked (ix, err e) h = absurd (cc)
after_chunks-ok opts d head checked (ix, ok u) h =
    (refl, last_block-meta _ ix (meta-retain opts d _))

chunks_ok :
    (chain : Chain) (size bound chunks next : ℕ) (ix : Index)
    → IsResponsive chain
    → 0 < size
    → 0 < chunks
    → next < bound
    → ((index_chunks chain size bound chunks next ix).1 ≡ ok tt)
      × (get_indexer_last_block (index_chunks chain size bound chunks next ix).0
          ≡ some (min bound (next + chunks * size) - 1))
chunks_ok chain size bound zero next ix v s c n = absurd (omega arith)
chunks_ok chain size bound (suc chunks) next ix v s c n =
    chunks_reach chain v size bound s chunks next ix n

-- The check reads the tables alone.
check_reorg-index :
    (chain : Chain) (p q : Pass)
    → p.index ≡ q.index
    → (check_reorg chain p).0 ≡ (check_reorg chain q).0
unfolding check_reorg
check_reorg-index chain p q e =
    rw e (elim (Bool-cases (reorg_at chain (get_indexer_last_block q.index) q.index)) [
      | inl h ↦ rw h refl
      | inr h ↦ rw h refl
    ])

module _ {Body : Type 0} (chain : Chain) (platform : Platform Body) (env : WebhookEnv)
    (opts : PollOptions) (p : Pass) where
  -- Where a poll begins: after its cursor, or anew after a reorganisation.
  abbrev pub first_unread : ℕ
  first_unread = next_block opts (check_reorg chain p).0

  poll_from-reaches :
      (head : ℕ)
      → IsResponsive chain
      → 0 < opts.chunk_size
      → 0 < opts.max_chunks
      → first_unread < head + 1 - opts.confirmations
      → ((poll_from chain platform env opts head p).1 ≡ ok tt)
        × (get_indexer_last_block (poll_from chain platform env opts head p).0.index
            ≡ some (
                min
                  (head + 1 - opts.confirmations)
                  (first_unread + opts.max_chunks * opts.chunk_size)
                - 1))
  unfolding poll_from
  poll_from-reaches head v s c n =
      let seen : Pass = record p {
        status = record (p.status) { head_block = head; safe_head = head - opts.confirmations };
      } in
      let same = check_reorg-index chain seen p refl in
      let done =
        chunks_ok chain opts.chunk_size (head + 1 - opts.confirmations) opts.max_chunks first_unread
          (check_reorg chain seen).1.index v s c n in
      rw same (
        let after =
          after_chunks-ok opts (last_delivered_id_if_enabled platform env) head
            (check_reorg chain seen).1 _ done.0 in
        (after.0, after.1 ∙ done.1))

  -- Against a node that answers every call, a poll with safe blocks to read ends without an error, and
  -- its cursor is then the last safe block, or as far as the chunks of one poll reach.
  pub poll_once-reaches :
      (head : ℕ)
      → IsResponsive chain
      → chain.get_block_number ≡ ok head
      → 0 < opts.chunk_size
      → 0 < opts.max_chunks
      → first_unread < head + 1 - opts.confirmations
      → ((poll_once chain platform env opts p).1 ≡ ok tt)
        × (get_indexer_last_block (poll_once chain platform env opts p).0.index
            ≡ some (
                min
                  (head + 1 - opts.confirmations)
                  (first_unread + opts.max_chunks * opts.chunk_size)
                - 1))
  unfolding poll_once after_head
  poll_once-reaches head v e s c n =
      let same : poll_once chain platform env opts p ≡ poll_from chain platform env opts head p =
        ap (after_head chain platform env opts p) e in
      rw same (poll_from-reaches head v s c n)
