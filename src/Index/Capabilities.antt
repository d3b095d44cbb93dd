-- ===== src/Index/Capabilities.antt =====
-- The `capabilities` table of packages/backend/src/index_db.ts, and the join that discovery reads.
-- `id` is `ethers.id`, the hash of a label.
use mathlib.Core.Option
use taop_protocol.Prelude.{
  ℕ, Bool, true, false, not, ◌&&◌, List, map, Text, ◌==◌, to_lower, select, length, text_eq, nat_eq,
}
use taop_protocol.Prelude.Int.{ℤ}
use taop_protocol.Table.{find, delete, update, upsert}
use taop_protocol.Sort.{sort_by, by_key}
use taop_protocol.Index.{Index, Capability}
use taop_protocol.Index.Scores.{no_change, or_zero}

unfoldable pub upsert_indexed_capability : ℕ → Text → ℕ → Text → Text → Text → Index → Index
upsert_indexed_capability capability_id creator bond capability_type metadata_cid registered_at ix =
    record ix {
      capabilities =
          upsert capability_id
            (record {
              creator = to_lower creator;
              bond = bond;
              capability_type = to_lower capability_type;
              metadata_cid = metadata_cid;
              certified = false;
              slashed = false;
              registered_at = registered_at;
            })
            (λ row. record row {
              creator = to_lower creator;
              bond = bond;
              capability_type = to_lower capability_type;
              metadata_cid = metadata_cid;
            })
            ix.capabilities;
    }

unfoldable pub certify_indexed_capability : ℕ → Index → Index
certify_indexed_capability capability_id ix = record ix {
  capabilities = update capability_id (λ row. record row { certified = true }) ix.capabilities;
}

unfoldable pub slash_indexed_capability : ℕ → Index → Index
slash_indexed_capability capability_id ix = record ix {
  capabilities = update capability_id (λ row. record row { slashed = true }) ix.capabilities;
}

unfoldable pub delete_indexed_capability : ℕ → Index → Index
delete_indexed_capability capability_id ix = record ix {
  capabilities = delete capability_id ix.capabilities;
}

-- A row of the join.
pub record IndexedCapabilityRow : Type 0 where
  pub capability_id : ℕ
  pub creator : Text
  pub bond : ℕ
  pub capability_type : Text
  pub metadata_cid : Text
  pub certified : Bool
  pub slashed : Bool
  pub completions : ℕ
  pub confirmed : ℤ
  pub distinct_count : ℕ
  pub disputes : ℕ
  pub last_activity : ℕ

-- WHERE capability_type = ? AND certified = 1 AND slashed = 0
unfoldable pub is_live : Text → Capability → Bool
is_live type c = (c.capability_type == type) && c.certified && not c.slashed

unfoldable pub count_indexed_capabilities : (Text → Text) → Text → Index → ℕ
unfolding is_live
count_indexed_capabilities id label ix =
    length (select (λ r. is_live (to_lower (id label)) r.1) ix.capabilities)

-- The LEFT JOINs, with COALESCE to 0.
unfoldable pub join_row : Index → ℕ × Capability → IndexedCapabilityRow
join_row ix (capability_id, c) =
    let a = Option.get_or (find c.creator ix.agent_scores) no_change in
    record {
      capability_id = capability_id;
      creator = c.creator;
      bond = c.bond;
      capability_type = c.capability_type;
      metadata_cid = c.metadata_cid;
      certified = c.certified;
      slashed = c.slashed;
      completions = a.completions;
      confirmed = a.confirmed;
      distinct_count = or_zero (find c.creator ix.agent_diversity);
      disputes = a.disputes;
      last_activity = a.last_activity;
    }

unfoldable pub query_indexed_capabilities : (Text → Text) → Text → Index → List IndexedCapabilityRow
unfolding is_live join_row
query_indexed_capabilities id label ix =
    sort_by (by_key (λ r. r.capability_id))
      (map (join_row ix) (select (λ r. is_live (to_lower (id label)) r.1) ix.capabilities))
