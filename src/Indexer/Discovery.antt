-- ===== src/Indexer/Discovery.antt =====
-- `queryIndexedDiscovery` and `indexedCount` of packages/backend/src/indexer.ts. `id` is
-- `ethers.id` and `format_ether` is `ethers.formatEther`.
pub mod Pages
use taop_protocol.Prelude.{ℕ, Bool, List, [], ◌∷◌, Text, ltb, if◌then◌else◌, length, take, drop}
use taop_protocol.Prelude.Int.{ℤ, pos}
use taop_protocol.Sort.{sort_by, by_key_desc}
use taop_protocol.Index.{Index}
use taop_protocol.Index.Capabilities.{
  IndexedCapabilityRow, query_indexed_capabilities, count_indexed_capabilities,
}
use taop_protocol.Index.Receipts.{get_agent_identity}
use taop_protocol.Indexer.Decay.{DecayConstants, decayed_score}
use taop_protocol.Indexer.Poll.{IndexerStatus}

pub data ScoreType : Type 0 where
  credit two_sided self_attest : ScoreType

pub record IndexedDiscoveryItem : Type 0 where
  pub agent_address : Text
  pub capability_id : ℕ
  pub capability_type : Text
  pub certified : Bool
  pub slashed : Bool
  pub bond : Text
  pub metadata_cid : Text
  pub identity_cid : Text
  pub completions : ℤ
  pub disputes : ℕ
  pub score : ℕ
  pub score_type : ScoreType

pub record DiscoveryOptions : Type 0 where
  pub capability_type : Text
  pub min_score : ℕ
  pub offset : ℕ
  pub limit : ℕ
  pub now : ℕ

module _ (id : Text → Text) (format_ether : ℕ → Text) (decay : DecayConstants)
    (status : IndexerStatus) where
  -- The best signal that the contract supports.
  unfoldable pub signal_count : IndexedCapabilityRow → ℤ
  signal_count r =
      if status.use_credit
      then pos r.distinct_count
      else if status.use_two_sided
      then r.confirmed
      else pos r.completions

  unfoldable pub row_score : ℕ → IndexedCapabilityRow → ℕ
  unfolding signal_count
  row_score now r = decayed_score decay (signal_count r) r.disputes r.last_activity now

  unfoldable pub discovery_item :
      Index → DiscoveryOptions → IndexedCapabilityRow → IndexedDiscoveryItem
  unfolding signal_count row_score
  discovery_item ix opts r = record {
    agent_address = r.creator;
    capability_id = r.capability_id;
    capability_type = opts.capability_type;
    certified = r.certified;
    slashed = r.slashed;
    bond = format_ether r.bond;
    metadata_cid = r.metadata_cid;
    identity_cid = get_agent_identity r.creator ix;
    completions = signal_count r;
    disputes = r.disputes;
    score = row_score opts.now r;
    score_type = if status.use_two_sided then two_sided else self_attest;
  }

  -- The loop over the rows, before the sort.
  unfoldable pub scored_rows :
      Index → DiscoveryOptions → List IndexedCapabilityRow → List IndexedDiscoveryItem
  unfolding discovery_item
  scored_rows ix opts [] = []
  scored_rows ix opts (r ∷ rest) =
      let items = scored_rows ix opts rest in
      if ltb (row_score opts.now r) opts.min_score then items else discovery_item ix opts r ∷ items

  unfoldable pub sorted_items : Index → DiscoveryOptions → List IndexedDiscoveryItem
  sorted_items ix opts =
      sort_by (by_key_desc (λ item. item.score))
        (scored_rows ix opts (query_indexed_capabilities id opts.capability_type ix))

  -- The page and the total.
  unfoldable pub query_indexed_discovery : Index → DiscoveryOptions → List IndexedDiscoveryItem × ℕ
  unfolding sorted_items
  query_indexed_discovery ix opts =
      let scored = sorted_items ix opts in
      (take opts.limit (drop opts.offset scored), length scored)

  unfoldable pub indexed_count : Text → Index → ℕ
  indexed_count capability_type ix = count_indexed_capabilities id capability_type ix
