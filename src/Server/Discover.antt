-- ===== src/Server/Discover.antt =====
-- Discovery in packages/backend/src/server.ts: from the index, or by reading the contracts.
pub mod Pages
use taop_protocol.Prelude.{
  ℕ, ◌+◌, Bool, true, false, not, ◌&&◌, ◌||◌, List, [], ◌∷◌, Text, text, Option, none, some, ◌==◌,
  text_eq, ltb, if◌then◌else◌, take, drop, length,
}
use mathlib.Core.Option
use taop_protocol.Sort.{sort_by, by_key_desc}
use taop_protocol.Index.{Index}
use taop_protocol.Indexer.Decay.{DecayConstants}
use taop_protocol.Indexer.Poll.{IndexerStatus, is_indexer_ready}
use taop_protocol.Indexer.Discovery.{IndexedDiscoveryItem, query_indexed_discovery, indexed_count}
use taop_protocol.Server.Io.{Io, ◌>>=◌, ◌>>◌, return, throw, read, try_catch}
use taop_protocol.Server.Contracts.{Contracts, Codec, CapabilityData, RankingScore}
use taop_protocol.Server.Replies.{is_revert}

pub record DiscoveredItem : Type 0 where
  pub agent_address : Text
  pub capability_id : ℕ
  pub capability_type : Text
  pub certified : Bool
  pub slashed : Bool
  pub bond : Text
  pub metadata_cid : Text
  pub identity_cid : Text
  pub completions : ℕ
  pub disputes : ℕ
  pub score : ℕ
  pub score_type : Text

module _ {W : Type 0} (contracts : Contracts W) (format_ether : ℕ → Text) (type_label : Text)
    (min_score : ℕ) where
  -- The identity, empty where an old contract reverts; other errors go on.
  unfoldable pub identity_of : Text → Io W Text
  identity_of creator =
      try_catch (contracts.get_agent_metadata creator)
        (λ e. if is_revert e then return [] else throw e)

  abbrev pub item_of : ℕ → CapabilityData → RankingScore → Text → DiscoveredItem
  item_of id cap score identity = record {
    agent_address = cap.creator;
    capability_id = id;
    capability_type = type_label;
    certified = cap.certified;
    slashed = cap.slashed;
    bond = format_ether cap.bond;
    metadata_cid = cap.metadata_cid;
    identity_cid = identity;
    completions = score.completions;
    disputes = score.disputes;
    score = score.score;
    score_type = score.score_type;
  }

  unfoldable pub push_item :
      ℕ → CapabilityData → RankingScore → Io W (List DiscoveredItem) → Io W (List DiscoveredItem)
  unfolding identity_of
  push_item id cap score rest = do
    identity ← identity_of cap.creator
    items ← rest
    return (item_of id cap score identity ∷ items)

  unfoldable pub score_item :
      ℕ → CapabilityData → Io W (List DiscoveredItem) → Io W (List DiscoveredItem)
  unfolding push_item
  score_item id cap rest = contracts.get_ranking_score cap.creator >>= λ score.
      if ltb score.score min_score then rest else push_item id cap score rest

  unfoldable pub or_skip :
      ℕ → Io W (List DiscoveredItem) → Option CapabilityData → Io W (List DiscoveredItem)
  unfolding score_item
  or_skip id rest none = rest
  or_skip id rest (some cap) =
      if not cap.certified || cap.slashed then rest else score_item id cap rest

  -- `getCapability`, where an error skips the id.
  unfoldable pub capability_or_skip : ℕ → Io W (Option CapabilityData)
  capability_or_skip id =
      try_catch (do cap ← contracts.get_capability id; return (some cap)) (λ e. return none)

  -- The loop over the ids, before the sort.
  unfoldable pub scan_ids : List ℕ → Io W (List DiscoveredItem)
  unfolding or_skip capability_or_skip
  scan_ids [] = return []
  scan_ids (id ∷ ids) = let rest = scan_ids ids in capability_or_skip id >>= or_skip id rest

  unfoldable pub on_chain_discover : Io W (List DiscoveredItem)
  unfolding scan_ids
  on_chain_discover = do
    ids ← contracts.get_capabilities_by_type type_label
    items ← scan_ids ids
    return (sort_by (by_key_desc (λ item. item.score)) items)

-- A page with what its headers say.
pub record Page (Item : Type 0) : Type 0 where
  pub items : List Item
  pub total : ℕ
  pub offset : ℕ
  pub limit : ℕ

pub data Discovered : Type 0 where
  -- X-Indexer: on
  indexed : Page IndexedDiscoveryItem → Discovered
  -- X-Indexer: off
  on_chain : Page DiscoveredItem → Discovered

-- 304 without a body, or 200 with the page and its tag; `tag_of` is the hash of the JSON text of the
-- items.
pub data EtagReply : Type 0 where
  not_modified : Text → EtagReply
  sent : Text → Discovered → EtagReply

unfoldable pub send_json_with_etag : (Discovered → Text) → Option Text → Discovered → EtagReply
send_json_with_etag tag_of if_none_match page =
    let tag = tag_of page in
    if Option.get_or (Option.map (λ value. value == tag) if_none_match) false
    then not_modified tag
    else sent tag page

pub record DiscoverQuery : Type 0 where
  pub capability_type : Text
  pub min_score : ℕ
  pub limit : ℕ
  pub offset : ℕ
  pub now : ℕ

module _ {W : Type 0} (contracts : Contracts W) (codec : Codec) (decay : DecayConstants)
    (status : IndexerStatus) where
  unfoldable pub from_index : Index → DiscoverQuery → Discovered
  from_index ix q =
      let found = query_indexed_discovery codec.id codec.format_ether decay status ix (record {
        capability_type = q.capability_type;
        min_score = q.min_score;
        offset = q.offset;
        limit = q.limit;
        now = q.now;
      }) in
      indexed (record { items = found.0; total = found.1; offset = q.offset; limit = q.limit })

  unfoldable pub from_chain : DiscoverQuery → Io W Discovered
  from_chain q = do
    all ← on_chain_discover contracts codec.format_ether q.capability_type q.min_score
    return (
        on_chain (record {
          items = take q.limit (drop q.offset all);
          total = length all;
          offset = q.offset;
          limit = q.limit;
        }))

  -- all.slice(offset, offset + limit) in the fallback
  unfoldable pub discover : Index → DiscoverQuery → Io W Discovered
  unfolding from_index from_chain
  discover ix q =
      if is_indexer_ready status
        && ltb 0 (indexed_count codec.id codec.format_ether decay status q.capability_type ix)
      then return (from_index ix q)
      else from_chain q
