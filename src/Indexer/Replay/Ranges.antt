-- ===== src/Indexer/Replay/Ranges.antt =====
-- Indexing a range again.
use taop_protocol.Prelude.{
  ℕ, ◌≡◌, refl, ap, true, false, List, [], ◌∷◌, Text, arith, Bool-cases, Option-cases, inl, inr,
  eq_refl, ltb, text_eq, nat_eq, pair_eq,
}
use taop_protocol.Table.Laws.{find-insert_or_ignore}
use taop_protocol.Sort.{sort_by}
use taop_protocol.Index.{Index}
use taop_protocol.Index.Logs.{already_indexed, mark_indexed}
use taop_protocol.Indexer.{Chain, Log, ok, err, Result-cases, CapabilityView}
use taop_protocol.Indexer.Events.{apply_ron_event}
use taop_protocol.Indexer.Range.{
  mark_log, after_registry_event, apply_registry_log, apply_ron_log, is_registry, apply_log,
  block_ts, apply_logs, index_range, log_order,
}
use taop_protocol.Indexer.Replay.{
  SameMarks, apply_ron_event-SameMarks, apply_registry_event-SameMarks,
}

abbrev IsMarked : Log → Index → Type 0
IsMarked log ix = already_indexed log.transaction_hash log.index ix ≡ true

same_marks : (log : Log) (a b : Index) → SameMarks a b → IsMarked log b → IsMarked log a
unfolding already_indexed
same_marks log a b e h = rw e h

mark_log-IsMarked : (log : Log) (ix : Index) → IsMarked log (mark_log log ix)
unfolding already_indexed mark_log mark_indexed
mark_log-IsMarked log ix =
    let key : Text × ℕ = (log.transaction_hash, log.index) in
    rw (find-insert_or_ignore key key log.block_number ix.indexed_logs, eq_refl key) refl

mark_log-keeps : (log other : Log) (ix : Index) → IsMarked log ix → IsMarked log (mark_log other ix)
unfolding already_indexed mark_log mark_indexed
mark_log-keeps log other ix h =
    rw
      (find-insert_or_ignore (other.transaction_hash, other.index) (log.transaction_hash, log.index)
        other.block_number ix.indexed_logs)
      (ground (arith, h))

module _ (chain : Chain)
    (caps : (id : ℕ) → (cap : CapabilityView) × (chain.get_capability id ≡ ok cap)) where
  -- Where the enrichment answers, applying a log marks it, and touches no other marker.
  apply_log-marks :
      (log : Log) (ts : ℕ) (ix : Index)
      → (ix' : Index) × (apply_log chain log ts ix ≡ mark_log log ix') × SameMarks ix' ix
  unfolding apply_log apply_registry_log apply_ron_log after_registry_event
  apply_log-marks log ts ix = elim (Bool-cases (is_registry chain log)) [
    | inl e ↦ elim (Option-cases (chain.parse_registry_log log)) [
      | inl n ↦ (ix, rw (e, n, apply_registry_log) refl, refl)
      | inr (ev, n) ↦
          let (ix', r, same) = apply_registry_event-SameMarks chain log caps ev ts ix in
          (ix', rw (e, n, r, apply_registry_log) refl, same)
    ]
    | inr e ↦ elim (Option-cases (chain.parse_ron_log log)) [
      | inl n ↦ (ix, rw (e, n, apply_ron_log) refl, refl)
      | inr (ev, n) ↦ (
        apply_ron_event chain log ev ts ix,
        rw (e, n, apply_ron_log) refl,
        apply_ron_event-SameMarks chain log ev ts ix,
      )
    ]
  ]

  apply_log-IsMarked : (log : Log) (ts : ℕ) (ix : Index) → IsMarked log (apply_log chain log ts ix)
  apply_log-IsMarked log ts ix =
      let (ix', e, same) = apply_log-marks log ts ix in rw e (mark_log-IsMarked log ix')

  apply_log-keeps :
      (log other : Log) (ts : ℕ) (ix : Index)
      → IsMarked log ix
      → IsMarked log (apply_log chain other ts ix)
  apply_log-keeps log other ts ix h =
      let (ix', e, same) = apply_log-marks other ts ix in
      rw e (mark_log-keeps log other ix' (same_marks log ix' ix same h))

  -- One step of the loop over the logs, in its three cases.
  logs_skip :
      (log : Log) (rest : List Log) (ix : Index)
      → IsMarked log ix
      → apply_logs chain (log ∷ rest) ix ≡ apply_logs chain rest ix
  unfolding apply_logs
  logs_skip log rest ix h = rw (h, apply_logs) refl

  logs_fail :
      (log : Log) (rest : List Log) (ix : Index) (m : Text)
      → already_indexed log.transaction_hash log.index ix ≡ false
      → block_ts chain log.block_number ≡ err m
      → apply_logs chain (log ∷ rest) ix ≡ (ix, err m)
  unfolding apply_logs
  logs_fail log rest ix m h n = rw (h, n, apply_logs) refl

  logs_apply :
      (log : Log) (rest : List Log) (ix : Index) (ts : ℕ)
      → already_indexed log.transaction_hash log.index ix ≡ false
      → block_ts chain log.block_number ≡ ok ts
      → apply_logs chain (log ∷ rest) ix ≡ apply_logs chain rest (apply_log chain log ts ix)
  unfolding apply_logs
  logs_apply log rest ix ts h n = rw (h, n, apply_logs) refl

  apply_logs-keeps :
      (log : Log) (logs : List Log) (ix : Index)
      → IsMarked log ix
      → IsMarked log (apply_logs chain logs ix).0
  unfolding apply_logs
  apply_logs-keeps log [] ix h = h
  apply_logs-keeps log (other ∷ rest) ix h =
      elim (Bool-cases (already_indexed other.transaction_hash other.index ix)) [
        | inl e ↦ rw (logs_skip other rest ix e) (apply_logs-keeps log rest ix h)
        | inr e ↦ elim (Result-cases (block_ts chain other.block_number)) [
          | inl (m, n) ↦ rw (logs_fail other rest ix m e n) h
          | inr (ts, n) ↦
              rw (logs_apply other rest ix ts e n)
                (apply_logs-keeps log rest _ (apply_log-keeps log other ts ix h))
        ]
      ]

  apply_logs_again :
      (logs : List Log) (ix : Index)
      → (apply_logs chain logs (apply_logs chain logs ix).0).0 ≡ (apply_logs chain logs ix).0
  unfolding apply_logs
  apply_logs_again [] ix = refl
  apply_logs_again (log ∷ rest) ix =
      elim (Bool-cases (already_indexed log.transaction_hash log.index ix)) [
        | inl e ↦
            rw (logs_skip log rest ix e, logs_skip log rest _ (apply_logs-keeps log rest ix e))
              (apply_logs_again rest ix)
        | inr e ↦ elim (Result-cases (block_ts chain log.block_number)) [
          | inl (m, n) ↦
              rw (logs_fail log rest ix m e n) (ap (λ r. r.0) (logs_fail log rest ix m e n))
          | inr (ts, n) ↦
              rw
                (
                  logs_apply log rest ix ts e n,
                  logs_skip log rest _ (apply_logs-keeps log rest _ (apply_log-IsMarked log ts ix)),
                )
                (apply_logs_again rest (apply_log chain log ts ix))
        ]
      ]

  -- A re-poll never double-counts: where the enrichment call answers, indexing a range again, after a
  -- run that succeeded or one that an error cut short, leaves the tables as they are.
  pub index_range_again :
      (from_block to_block : ℕ) (ix : Index)
      → (index_range chain from_block to_block (index_range chain from_block to_block ix).0).0
        ≡ (index_range chain from_block to_block ix).0
  unfolding index_range
  index_range_again from to ix = elim (Bool-cases (ltb to from)) [
    | inl e ↦ rw e refl
    | inr e ↦ elim (Result-cases (chain.get_logs from to)) [
      | inl (m, n) ↦ rw (e, n) (rw (e, n) refl)
      | inr (logs, n) ↦ rw (e, n) (rw (e, n) (apply_logs_again (sort_by log_order logs) ix))
    ]
  ]
