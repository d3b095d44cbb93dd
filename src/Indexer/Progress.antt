-- ===== src/Indexer/Progress.antt =====
-- How far a poll brings the cursor.
pub mod Cursor
use native.Mathlib.Nat.{suc-mul}
use native.Mathlib.Decide.{dec_lt}
use taop_protocol.Prelude.{
  ℕ, zero, suc, ◌+◌, ◌-◌, ◌*◌, ◌≤◌, ◌<◌, ◌≡◌, refl, sym, ◌∙◌, ap, Bool, true, false, List, [], ◌∷◌,
  Text, Option, none, some, arith, ltb, lt→ltb, Bool-cases, inl, inr, min, if◌then◌else◌,
}
use taop_protocol.Table.{find, put}
use taop_protocol.Table.Laws.{find-put}
use taop_protocol.Index.{Index, number, indexer_last_block, indexer_last_hash, key_beq, meta_key_eq}
use taop_protocol.Index.Logs.{
  already_indexed, get_indexer_last_block, set_indexer_last_block, set_indexer_last_hash,
}
use taop_protocol.Indexer.{Chain, Log, Block, Result, ok, err, Result-cases}
use taop_protocol.Indexer.Range.{
  timestamp_of, block_ts, apply_log, apply_logs, index_range, log_order,
}
use taop_protocol.Sort.{sort_by}
use taop_protocol.Indexer.Poll.{index_chunks, store_cursor}

-- A node that answers every call for logs and for blocks.
pub record IsResponsive (chain : Chain) : Type 0 where
  pub logs : (from to : ℕ) → (ls : List Log) × (chain.get_logs from to ≡ ok ls)
  pub blocks : (n : ℕ) → (b : Option Block) × (chain.get_block n ≡ ok b)

module _ (chain : Chain) (v : IsResponsive chain) where
  block_ts-ok : (n : ℕ) → (ts : ℕ) × (block_ts chain n ≡ ok ts)
  unfolding block_ts
  block_ts-ok n = let (b, e) = v.blocks n in (timestamp_of chain b, rw e refl)

  apply_logs-ok : (ls : List Log) (ix : Index) → (apply_logs chain ls ix).1 ≡ ok tt
  unfolding apply_logs
  apply_logs-ok [] ix = refl
  apply_logs-ok (log ∷ rest) ix =
      elim (Bool-cases (already_indexed log.transaction_hash log.index ix)) [
        | inl e ↦ rw (e, apply_logs) (apply_logs-ok rest ix)
        | inr e ↦
            let (ts, n) = block_ts-ok log.block_number in
            rw (e, n, apply_logs) (apply_logs-ok rest (apply_log chain log ts ix))
      ]

  index_range-ok : (from to : ℕ) (ix : Index) → (index_range chain from to ix).1 ≡ ok tt
  unfolding index_range
  index_range-ok from to ix = elim (Bool-cases (ltb to from)) [
    | inl e ↦ rw e refl
    | inr e ↦ let (ls, n) = v.logs from to in rw (e, n) (apply_logs-ok (sort_by log_order ls) ix)
  ]

last_block-find :
    (n : ℕ) (ix : Index)
    → find indexer_last_block ix.meta ≡ some (number n)
    → get_indexer_last_block ix ≡ some n
unfolding get_indexer_last_block
last_block-find n ix e = rw (e, get_indexer_last_block) refl

find-store_cursor :
    (chain : Chain) (to : ℕ) (ix : Index)
    → find indexer_last_block (store_cursor chain to ix).meta ≡ some (number to)
unfolding store_cursor set_indexer_last_block set_indexer_last_hash
find-store_cursor chain to ix =
    find-put indexer_last_hash indexer_last_block _ (put indexer_last_block (number to) ix.meta)
    ∙ find-put indexer_last_block indexer_last_block (number to) ix.meta

cursor-store_cursor :
    (chain : Chain) (to : ℕ) (ix : Index)
    → get_indexer_last_block (store_cursor chain to ix) ≡ some to
cursor-store_cursor chain to ix =
    last_block-find to (store_cursor chain to ix) (find-store_cursor chain to ix)

module _ (chain : Chain) (size bound : ℕ) where
  abbrev chunk_end : ℕ → ℕ
  chunk_end next = min (bound - 1) (next + size - 1)

  abbrev after_chunk : ℕ → Index → Index
  after_chunk next ix =
      store_cursor chain (chunk_end next) (index_range chain next (chunk_end next) ix).0

  chunks_stop :
      (chunks next : ℕ) (ix : Index)
      → bound ≤ next
      → index_chunks chain size bound chunks next ix ≡ (ix, ok tt)
  unfolding index_chunks
  chunks_stop zero next ix h = refl
  chunks_stop (suc chunks) next ix h = elim (Bool-cases (ltb next bound)) [
    | inl e ↦ absurd (ground arith)
    | inr e ↦ rw (e, index_chunks) refl
  ]

  chunks_none : (next : ℕ) (ix : Index) → index_chunks chain size bound 0 next ix ≡ (ix, ok tt)
  unfolding index_chunks
  chunks_none next ix = refl

  chunks_step :
      (chunks next : ℕ) (ix : Index)
      → next < bound
      → (index_range chain next (chunk_end next) ix).1 ≡ ok tt
      → index_chunks chain size bound (suc chunks) next ix
        ≡ index_chunks chain size bound chunks (chunk_end next + 1) (after_chunk next ix)
  unfolding index_chunks
  chunks_step chunks next ix h r = rw (lt→ltb next bound h, r, index_chunks) refl

module _ (chain : Chain) (v : IsResponsive chain) (size bound : ℕ) (s : 0 < size) where
  abbrev reach : ℕ → ℕ → Index → Index × Result (Unit {0})
  reach chunks next ix = index_chunks chain size bound chunks next ix

  -- One chunk at least: the pass ends without an error, at the first block that is not yet safe or as
  -- far as its chunks reach.
  pub chunks_reach :
      (chunks next : ℕ) (ix : Index)
      → next < bound
      → ((reach (suc chunks) next ix).1 ≡ ok tt)
        × (get_indexer_last_block (reach (suc chunks) next ix).0
            ≡ some (min bound (next + suc chunks * size) - 1))
  chunks_reach zero next ix h =
      let to = chunk_end chain size bound next in
      let here = after_chunk chain size bound next ix in
      rw
        (
          chunks_step chain size bound 0 next ix h (index_range-ok chain v next _ ix),
          chunks_none chain size bound (to + 1) here,
        )
        (refl, cursor-store_cursor chain to _ ∙ ap some (omega (arith, suc-mul 0 size)))
  chunks_reach (suc n) next ix h =
      let to = chunk_end chain size bound next in
      let here = after_chunk chain size bound next ix in
      rw (chunks_step chain size bound (suc n) next ix h (index_range-ok chain v next _ ix))
        (elim (dec_lt (to + 1) bound) [
          | no q ↦ rw (chunks_stop chain size bound (suc n) (to + 1) here (omega arith)) (
            refl,
            cursor-store_cursor chain to _
                ∙ ap some (omega (arith, suc-mul n size, suc-mul (suc n) size)),
          )
          | yes q ↦
              let ih = chunks_reach n (to + 1) here q in
              (ih.0, ih.1 ∙ ap some (omega (arith, suc-mul n size, suc-mul (suc n) size)))
        ])
