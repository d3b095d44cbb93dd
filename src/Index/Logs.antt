-- ===== src/Index/Logs.antt =====
-- The indexer's cursor, its idempotency markers and the reset after a reorganisation, of
-- packages/backend/src/index_db.ts.
use taop_protocol.Prelude.{
  ℕ, ◌-◌, Bool, true, false, [], Text, Option, none, some, ltb, leb, if◌then◌else◌, select, count,
  nat_eq, text_eq, pair_eq,
}
use taop_protocol.Table.{find, put, insert_or_ignore}
use taop_protocol.Index.{
  Index, MetaKey, MetaValue, number, indexer_last_block, indexer_last_hash, meta_key_eq,
}
use taop_protocol.Index.Alerts.{Number, finite, not_finite, floor_ℕ, is_nonpositive}

-- `Number(value)`: a text that is not a numeral reads as 0 under the `|| 0` of the callers.
abbrev pub number_of : MetaValue → ℕ
number_of (number n) = n
number_of (MetaValue.string s) = 0

abbrev pub text_of : MetaValue → Text
text_of (number n) = []
text_of (MetaValue.string s) = s

unfoldable pub get_meta : MetaKey → Index → Option MetaValue
get_meta key ix = find key ix.meta

unfoldable pub set_meta : MetaKey → MetaValue → Index → Index
set_meta key value ix = record ix { meta = put key value ix.meta }

unfoldable pub get_indexer_last_block : Index → Option ℕ
get_indexer_last_block ix = elim (find indexer_last_block ix.meta) [
  | none ↦ none
  | some value ↦ some (number_of value)
]

unfoldable pub set_indexer_last_block : ℕ → Index → Index
set_indexer_last_block block ix = record ix { meta = put indexer_last_block (number block) ix.meta }

unfoldable pub get_indexer_last_hash : Index → Option Text
get_indexer_last_hash ix = elim (find indexer_last_hash ix.meta) [
  | none ↦ none
  | some value ↦ some (text_of value)
]

unfoldable pub set_indexer_last_hash : Text → Index → Index
set_indexer_last_hash hash ix = record ix {
  meta = put indexer_last_hash (MetaValue.string hash) ix.meta;
}

unfoldable pub reset_indexer_derived : ℕ → Index → Index
reset_indexer_derived from_block ix = record ix {
  alerts = select (λ a. ltb a.block_number from_block) ix.alerts;
  agent_scores = [];
  completion_receipts = [];
  agent_identity = [];
  indexed_logs = [];
}

abbrev pub is_some {ℓ} : {A : Type ℓ} → Option A → Bool
is_some none = false
is_some (some a) = true

unfoldable pub already_indexed : Text → ℕ → Index → Bool
already_indexed tx_hash log_index ix = is_some (find (tx_hash, log_index) ix.indexed_logs)

unfoldable pub mark_indexed : Text → ℕ → ℕ → Index → Index
mark_indexed tx_hash log_index block_number ix = record ix {
  indexed_logs = insert_or_ignore (tx_hash, log_index) block_number ix.indexed_logs;
}

-- `cutoff <= 0` is the test `currentBlock <= floor(keepBlocks)`.
unfoldable pub prune_indexed_logs : ℕ → Number → Index → Index × ℕ
prune_indexed_logs current_block not_finite ix = (ix, 0)
prune_indexed_logs current_block (finite keep_blocks fraction) ix =
    if is_nonpositive keep_blocks fraction
    then (ix, 0)
    else let cutoff = current_block - floor_ℕ keep_blocks in
      if leb cutoff 0 then (ix, 0) else (
        record ix { indexed_logs = select (λ r. leb cutoff r.1) ix.indexed_logs },
        count (λ r. ltb r.1 cutoff) ix.indexed_logs,
      )
