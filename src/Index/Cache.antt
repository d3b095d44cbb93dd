-- ===== src/Index/Cache.antt =====
-- packages/backend/src/db.ts: the cache of capabilities and completions that the demo server writes, and
-- the log of the administrators' actions.
pub mod Lookup
pub mod Audit
use taop_protocol.Prelude.{
  ℕ, ◌+◌, Bool, true, false, ◌&&◌, List, [], ◌∷◌, ◌++◌, map, Text, text, Option, none, some, ◌==◌,
  to_lower, select, take, if◌then◌else◌, nat_beq, text_eq, nat_eq,
}
use taop_protocol.Table.{Table, put, delete, update}
use taop_protocol.Sort.{sort_by, by_key, by_key_desc}
use taop_protocol.Index.{Index, Capability, Completion, AdminAction, PayloadValue, boolean}
use taop_protocol.Index.Alerts.{Number, safe_limit}

-- WHERE creator = ? AND capability_type = ?
unfoldable pub is_registration : Text → Text → ℕ × Capability → Bool
is_registration creator capability_type (id, c) =
    (c.creator == creator) && (c.capability_type == capability_type)

-- The statement has no ORDER BY: `first_row` is which of the rows that match SQLite gives first.
unfoldable pub is_capability_registered : (List ℕ → Option ℕ) → Text → Text → Index → Option ℕ
is_capability_registered first_row creator capability_type ix = first_row (
    map (λ r. r.0)
      (select (is_registration (to_lower creator) (to_lower capability_type)) ix.capabilities))

unfoldable pub record_capability : ℕ → Text → ℕ → Text → Text → Bool → Text → Index → Index
record_capability capability_id creator bond capability_type metadata_cid certified now ix =
    if nat_beq capability_id 0 then ix else record ix {
      capabilities =
          put capability_id
            (record {
              creator = to_lower creator;
              bond = bond;
              capability_type = to_lower capability_type;
              metadata_cid = metadata_cid;
              certified = certified;
              slashed = false;
              registered_at = now;
            })
            ix.capabilities;
    }

unfoldable pub record_completion : ℕ → Text → Text → Text → ℕ → Option Text → Text → Index → Index
record_completion completion_id agent task_type result_cid timestamp tx_hash now ix = record ix {
  completions =
      put completion_id
        (record {
          agent = to_lower agent;
          task_type = to_lower task_type;
          result_cid = result_cid;
          timestamp = timestamp;
          challenged = false;
          disputed = false;
          tx_hash = tx_hash;
          recorded_at = now;
        })
        ix.completions;
}

-- ORDER BY capability_id; the rows are read as they are.
unfoldable pub list_capabilities : Index → List (ℕ × Capability)
list_capabilities ix = sort_by (by_key (λ r. r.0)) ix.capabilities

-- ORDER BY completion_id DESC LIMIT 50
unfoldable pub list_completions : Index → List (ℕ × Completion)
list_completions ix = take 50 (sort_by (by_key_desc (λ r. r.0)) ix.completions)

unfoldable pub mark_completion_challenged : ℕ → Index → Index
mark_completion_challenged completion_id ix = record ix {
  completions = update completion_id (λ row. record row { challenged = true }) ix.completions;
}

unfoldable pub mark_completion_resolved : ℕ → Bool → Index → Index
mark_completion_resolved completion_id disputed ix = record ix {
  completions = update completion_id (λ row. record row { disputed = disputed }) ix.completions;
}

-- A field of an object literal, which JSON.stringify leaves out where it is undefined.
abbrev pub set_field : Text → Option Bool → Table Text PayloadValue → Table Text PayloadValue
set_field key none object = delete key object
set_field key (some value) object = put key (boolean value) object

-- `detail` where it is an object.
abbrev pub object_of : Option (Table Text PayloadValue) → Table Text PayloadValue
object_of none = []
object_of (some object) = object

unfoldable pub record_admin_action :
    Text
    → Text
    → Option Text
    → Option (Table Text PayloadValue)
    → Option Bool
    → Option Bool
    → Text
    → Index
    → Index
record_admin_action action actor tx_hash detail scheduled executed now ix = record ix {
  admin_actions =
      ix.admin_actions
      ++ record {
        id = ix.admin_actions_seq + 1;
        action = action;
        actor = to_lower actor;
        tx_hash = tx_hash;
        detail =
            set_field (text "executed") executed
              (set_field (text "scheduled") scheduled (object_of detail));
        created_at = now;
      }
        ∷ [];
  admin_actions_seq = ix.admin_actions_seq + 1;
}

unfoldable pub list_admin_actions : Number → Index → List AdminAction
list_admin_actions limit ix =
    take (safe_limit limit) (sort_by (by_key_desc (λ a. a.id)) ix.admin_actions)
