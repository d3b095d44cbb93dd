-- ===== src/Index/Receipts.antt =====
-- Completions, receipts and identities of packages/backend/src/index_db.ts.
use taop_protocol.Prelude.{ℕ, false, Text, [], Option, some, to_lower, text_eq, nat_eq}
use mathlib.Core.Option
use taop_protocol.Table.{find, put, delete, insert_or_ignore}
use taop_protocol.Index.{Index}

unfoldable pub record_indexed_completion : ℕ → Text → Text → Text → ℕ → Text → Text → Index → Index
record_indexed_completion completion_id agent task_type result_cid timestamp tx_hash now ix =
    record ix {
      completions =
          insert_or_ignore completion_id
            (record {
              agent = to_lower agent;
              task_type = to_lower task_type;
              result_cid = result_cid;
              timestamp = timestamp;
              challenged = false;
              disputed = false;
              tx_hash = some tx_hash;
              recorded_at = now;
            })
            ix.completions;
    }

unfoldable pub get_completion_agent : ℕ → Index → Option Text
get_completion_agent completion_id ix =
    Option.map (λ c. c.agent) (find completion_id ix.completions)

unfoldable pub add_receipt_index : ℕ → Text → Text → ℕ → Index → Index
add_receipt_index completion_id agent counterparty ts ix = record ix {
  completion_receipts =
      put completion_id
        (record { agent = to_lower agent; counterparty = to_lower counterparty; receipt_ts = ts })
        ix.completion_receipts;
}

unfoldable pub get_receipt_counterparty : ℕ → Index → Option Text
get_receipt_counterparty completion_id ix =
    Option.map (λ r. r.counterparty) (find completion_id ix.completion_receipts)

unfoldable pub get_receipt_agent : ℕ → Index → Option Text
get_receipt_agent completion_id ix =
    Option.map (λ r. r.agent) (find completion_id ix.completion_receipts)

unfoldable pub delete_receipt_index : ℕ → Index → Index
delete_receipt_index completion_id ix = record ix {
  completion_receipts = delete completion_id ix.completion_receipts;
}

unfoldable pub set_agent_identity : Text → Text → Index → Index
set_agent_identity agent metadata_cid ix = record ix {
  agent_identity = put (to_lower agent) metadata_cid ix.agent_identity;
}

unfoldable pub get_agent_identity : Text → Index → Text
get_agent_identity agent ix = Option.get_or (find (to_lower agent) ix.agent_identity) []
