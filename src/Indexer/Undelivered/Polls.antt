-- ===== src/Indexer/Undelivered/Polls.antt =====
-- What a poll does to the alerts that the dispatcher has not delivered yet: the whole poll.
use taop_protocol.Prelude.{
  ℕ, zero, suc, ◌+◌, ◌-◌, ◌≤◌, ◌≡◌, refl, sym, ap, ◌∙◌, false, List, [], ◌∷◌, ◌++◌, none, some, inl,
  inr, arith, Bool-cases, ltb, min, select,
}
use mathlib.Core.List.{append-nil}
use taop_protocol.Prelude.Int.{pos}
use taop_protocol.Table.{find, put}
use taop_protocol.Table.Laws.{find-put}
use taop_protocol.Index.{
  Index, Alert, last_id_key, indexer_last_block, indexer_last_hash, number, meta_key_eq,
}
use taop_protocol.Index.Alerts.{Number, finite, prune_alerts, delete_alerts_up_to}
use taop_protocol.Index.Alerts.Retention.{Pruned, kept, cut, prune_alerts-Pruned, select_above}
use taop_protocol.Index.Logs.{
  number_of, get_meta, get_indexer_last_block, set_indexer_last_block, set_indexer_last_hash,
  prune_indexed_logs,
}
use taop_protocol.Webhooks.{Platform, WebhookEnv, WebhookConfig}
use taop_protocol.Webhooks.Config.{
  load_webhook_config, loaded, meta_number, last_delivered_id, last_delivered_id_if_enabled,
}
use taop_protocol.Indexer.{Chain, Result, ok, err, Result-cases}
use taop_protocol.Indexer.Range.{index_range}
use taop_protocol.Indexer.Poll.{
  Pass, PollOptions, finish_status, index_chunks, store_cursor, check_reorg, reorg_at, retain,
  after_chunks, poll_from, after_head, poll_once,
}
use taop_protocol.Indexer.Undelivered.{Grown, Grown-same, Grown-trans, index_range-Grown}

module _ (chain : Chain) where
  store_cursor-Grown : (to : ℕ) (ix : Index) → Grown ix (store_cursor chain to ix)
  unfolding store_cursor set_indexer_last_block set_indexer_last_hash
  store_cursor-Grown to ix = record {
    more = [];
    alerts = sym (append-nil ix.alerts);
    cursor =
        find-put indexer_last_hash last_id_key _ (put indexer_last_block (number to) ix.meta)
        ∙ find-put indexer_last_block last_id_key (number to) ix.meta;
  }

  index_chunks-Grown :
      (size bound chunks next : ℕ) (ix : Index)
      → Grown ix (index_chunks chain size bound chunks next ix).0
  unfolding index_chunks
  index_chunks-Grown size bound zero next ix = Grown-same ix ix refl refl
  index_chunks-Grown size bound (suc chunks) next ix = elim (Bool-cases (ltb next bound)) [
    | inr e ↦ rw (e, index_chunks) (Grown-same ix ix refl refl)
    | inl e ↦
        rw (e, index_chunks)
          (elim (Result-cases (index_range chain next (min (bound - 1) (next + size - 1)) ix).1) [
            | inl (m, n) ↦ rw n (index_range-Grown chain next _ ix)
            | inr (u, n) ↦ rw n (
                Grown-trans (index_range-Grown chain next _ ix)
                  (Grown-trans (store_cursor-Grown _ _) (index_chunks-Grown size bound chunks _ _)))
          ])
  ]

-- The alerts above an id.
abbrev above : ℕ → List Alert → List Alert
above n = select (λ a. ltb n a.id)

-- The alerts that the dispatcher has not delivered.
abbrev pub undelivered : Index → List Alert
undelivered ix = above (last_delivered_id ix) ix.alerts

above-append : (n : ℕ) (xs ys : List Alert) → above n (xs ++ ys) ≡ above n xs ++ above n ys
above-append n [] ys = refl
above-append n (x ∷ xs) ys = ground (arith, above-append n xs ys)

last_delivered_id-find :
    (a b : Index)
    → find last_id_key b.meta ≡ find last_id_key a.meta
    → last_delivered_id b ≡ last_delivered_id a
unfolding last_delivered_id meta_number get_meta
last_delivered_id-find a b e = ap (λ o. elim o [ none ↦ 0 | some value ↦ number_of value ]) e

logs_pruned :
    (block : ℕ) (keep : Number) (ix : Index)
    → ((prune_indexed_logs block keep ix).0.alerts ≡ ix.alerts)
      × ((prune_indexed_logs block keep ix).0.meta ≡ ix.meta)
unfolding prune_indexed_logs
logs_pruned block keep ix = (ground arith, ground arith)

alerts_pruned :
    (keep : Number) (bound n : ℕ) (ix : Index)
    → bound ≤ n
    → (above n (prune_alerts keep bound ix).0.alerts ≡ above n ix.alerts)
      × ((prune_alerts keep bound ix).0.meta ≡ ix.meta)
alerts_pruned keep bound n ix h = from (prune_alerts-Pruned keep bound ix)
  where
    from :
        {r : Index × ℕ}
        → Pruned bound ix r
        → (above n r.0.alerts ≡ above n ix.alerts) × (r.0.meta ≡ ix.meta)
    from kept = (refl, refl)
    from (cut c le) = unfold delete_alerts_up_to in (select_above c n ix.alerts (omega arith), refl)

-- Retention with the cursor as its bound keeps what is above it.
retained :
    (opts : PollOptions) (d : Index → ℕ) (p : Pass) (n : ℕ)
    → d p.index ≤ n
    → (above n (retain opts d p).index.alerts ≡ above n p.index.alerts)
      × ((retain opts d p).index.meta ≡ p.index.meta)
unfolding retain
retained opts d p n h =
    let first = alerts_pruned (finite (pos opts.alerts_keep) false) (d p.index) n p.index h in
    elim (Bool-cases (ltb 0 opts.marker_blocks)) [
      | inl e ↦
          let second =
            logs_pruned p.status.last_block (finite (pos opts.marker_blocks) false)
              (prune_alerts (finite (pos opts.alerts_keep) false) (d p.index) p.index).0 in
          rw e (ap (above n) second.0 ∙ first.0, second.1 ∙ first.1)
      | inr e ↦ rw e first
    ]

-- A state whose undelivered alerts are those of another and later ones.
abbrev Keeps : Index → Index → Type 0
Keeps a b = (more : List Alert) × (undelivered b ≡ undelivered a ++ more)

Grown-Keeps : (a b : Index) → Grown a b → Keeps a b
Grown-Keeps a b g = (
  above (last_delivered_id a) g.more,
  ap (λ n. above n b.alerts) (last_delivered_id-find a b g.cursor)
      ∙ ap (above (last_delivered_id a)) g.alerts
      ∙ above-append (last_delivered_id a) a.alerts g.more,
)

after_chunks-Keeps :
    (opts : PollOptions) (d : Index → ℕ) (head : ℕ) (checked : Pass) (a : Index)
    (r : Index × Result (Unit {0}))
    → ((ix : Index) → d ix ≡ last_delivered_id ix)
    → Grown a r.0
    → Keeps a (after_chunks opts d head checked r).0.index
unfolding after_chunks
after_chunks-Keeps opts d head checked a (b, err e) same g = Grown-Keeps a b g
after_chunks-Keeps opts d head checked a (b, ok u) same g =
    let (more, e) = Grown-Keeps a b g in
    let finished : Pass = record { index = b; status = finish_status opts head b checked.status } in
    let after = retained opts d finished (last_delivered_id b) (omega (arith, same b)) in
    (
      more,
      ap (λ n. above n (retain opts d finished).index.alerts)
            (last_delivered_id-find b (retain opts d finished).index
              (ap (find last_id_key) after.1))
          ∙ after.0
          ∙ e,
    )

no_reorg :
    (chain : Chain) (p : Pass)
    → reorg_at chain (get_indexer_last_block p.index) p.index ≡ false
    → (check_reorg chain p).1 ≡ p
unfolding check_reorg
no_reorg chain p h = rw h refl

module _ {Body : Type 0} (chain : Chain) (platform : Platform Body) (env : WebhookEnv)
    (opts : PollOptions) (config : WebhookConfig)
    (enabled : load_webhook_config platform env ≡ loaded config) where
  cursor_of : (ix : Index) → last_delivered_id_if_enabled platform env ix ≡ last_delivered_id ix
  unfolding last_delivered_id_if_enabled
  cursor_of ix = rw (enabled, last_delivered_id_if_enabled) refl

  after_head-Keeps :
      (p : Pass) (r : Result ℕ)
      → reorg_at chain (get_indexer_last_block p.index) p.index ≡ false
      → Keeps p.index (after_head chain platform env opts p r).0.index
  unfolding after_head poll_from
  after_head-Keeps p (err e) h = Grown-Keeps p.index p.index (Grown-same p.index p.index refl refl)
  after_head-Keeps p (ok head) h =
      let seen : Pass = record p {
        status = record (p.status) { head_block = head; safe_head = head - opts.confirmations };
      } in
      after_chunks-Keeps opts (last_delivered_id_if_enabled platform env) head _ p.index _ cursor_of
        (rw (no_reorg chain seen h) (index_chunks-Grown chain _ _ _ _ p.index))

  -- A poll of the indexer loses no alert that the dispatcher still has to deliver: with webhooks
  -- enabled and no reorganisation, whatever fails and whatever retention removes, the undelivered
  -- alerts after the poll are those of before, in their order, and then new ones.
  pub undelivered-poll_once :
      (p : Pass)
      → reorg_at chain (get_indexer_last_block p.index) p.index ≡ false
      → (more : List Alert) × (undelivered (poll_once chain platform env opts p).0.index
          ≡ undelivered p.index ++ more)
  unfolding poll_once
  undelivered-poll_once p h = after_head-Keeps p chain.get_block_number h
