-- ===== src/Server/Discover/Pages.antt =====
-- What the fallback of discovery in packages/backend/src/server.ts gives.
use taop_protocol.Prelude.{
  ℕ, ◌-◌, ◌≤◌, ◌≡◌, refl, ap, ◌∙◌, true, false, not, ◌||◌, List, [], ◌∷◌, ◌++◌, Text, Option, none,
  some, arith, length, drop, min, All, Bool-cases, inl, inr, ltb,
}
use taop_protocol.Sort.{by_key_desc, by_key_desc-IsOrder, IsOrdered, IsOrdered-sort_by, All-sort_by}
use mathlib.Core.Path.{fun_ext}
use taop_protocol.Indexer.Decay.{DecayConstants}
use taop_protocol.Indexer.Poll.{IndexerStatus}
use taop_protocol.Indexer.{ok, err}
use taop_protocol.Sort.Slices.{All-take, All-drop, IsOrdered-take, IsOrdered-drop, length-drop}
use taop_protocol.Prelude.{length-take}
use taop_protocol.Server.Io.{Io, ◌>>=◌}
use taop_protocol.Server.Runs.{Gives, bind-Gives, Gives-ok}
use taop_protocol.Server.Contracts.{Contracts, Codec, CapabilityData, RankingScore}
use taop_protocol.Server.Discover.{
  DiscoveredItem, identity_of, push_item, score_item, or_skip, capability_or_skip, scan_ids,
  on_chain_discover, Page, Discovered, indexed, on_chain, DiscoverQuery, from_chain,
}

-- An item that discovery may show.
pub record Qualifies (min_score : ℕ) (item : DiscoveredItem) : Type 0 where
  pub certified : item.certified ≡ true
  pub unslashed : item.slashed ≡ false
  pub enough : min_score ≤ item.score

module _ {W : Type 0} (contracts : Contracts W) (format_ether : ℕ → Text) (type_label : Text)
    (min_score : ℕ) where
  abbrev AllQualify : List DiscoveredItem → W → Type 0
  AllQualify items w = All (Qualifies min_score) items

  push_item-Gives :
      (id : ℕ) (cap : CapabilityData) (score : RankingScore) (rest : Io W (List DiscoveredItem))
      (w : W)
      → (cap.certified ≡ true)
      → (cap.slashed ≡ false)
      → min_score ≤ score.score
      → ((w' : W) → Gives AllQualify (rest w'))
      → Gives AllQualify (push_item contracts format_ether type_label min_score id cap score rest w)
  unfolding push_item
  push_item-Gives id cap score rest w certified unslashed enough ih =
      bind-Gives (identity_of contracts format_ether type_label min_score cap.creator) _ AllQualify
        w
        (λ identity w1 e1. bind-Gives rest _ AllQualify w1 (λ items w2 e2. (
          record { certified = certified; unslashed = unslashed; enough = enough },
          Gives-ok AllQualify _ (ih w1) e2,
        )))

  score_item-Gives :
      (id : ℕ) (cap : CapabilityData) (rest : Io W (List DiscoveredItem)) (w : W)
      → (cap.certified ≡ true)
      → (cap.slashed ≡ false)
      → ((w' : W) → Gives AllQualify (rest w'))
      → Gives AllQualify (score_item contracts format_ether type_label min_score id cap rest w)
  unfolding score_item
  score_item-Gives id cap rest w certified unslashed ih =
      bind-Gives (contracts.get_ranking_score cap.creator) _ AllQualify w (λ score w1 e1.
        elim (Bool-cases (ltb score.score min_score)) [
          | inl t ↦ rw t (ih w1)
          | inr t ↦
              rw t (push_item-Gives id cap score rest w1 certified unslashed (ground (arith, t)) ih)
        ])

  or_skip-Gives :
      (id : ℕ) (found : Option CapabilityData) (rest : Io W (List DiscoveredItem)) (w : W)
      → ((w' : W) → Gives AllQualify (rest w'))
      → Gives AllQualify (or_skip contracts format_ether type_label min_score id rest found w)
  unfolding or_skip
  or_skip-Gives id none rest w ih = ih w
  or_skip-Gives id (some cap) rest w ih = elim (Bool-cases (not cap.certified || cap.slashed)) [
    | inl t ↦ rw t (ih w)
    | inr t ↦ rw t (score_item-Gives id cap rest w (ground (arith, t)) (ground (arith, t)) ih)
  ]

  scan_ids-Gives :
      (ids : List ℕ) (w : W)
      → Gives AllQualify (scan_ids contracts format_ether type_label min_score ids w)
  unfolding scan_ids
  scan_ids-Gives [] w = tt
  scan_ids-Gives (id ∷ ids) w =
      bind-Gives (capability_or_skip contracts format_ether type_label min_score id) _ AllQualify w
        (λ found w1 e1. or_skip-Gives id found _ w1 (λ w2. scan_ids-Gives ids w2))

  abbrev Sorted : List DiscoveredItem → W → Type 0
  Sorted items w =
      IsOrdered (by_key_desc (λ item. item.score)) items × All (Qualifies min_score) items

  on_chain_discover-Gives :
      (w : W) → Gives Sorted (on_chain_discover contracts format_ether type_label min_score w)
  unfolding on_chain_discover
  on_chain_discover-Gives w =
      bind-Gives (contracts.get_capabilities_by_type type_label) _ Sorted w (λ ids w1 e1.
        bind-Gives (scan_ids contracts format_ether type_label min_score ids) _ Sorted w1
          (λ items w2 e2. (
            IsOrdered-sort_by _ (by_key_desc-IsOrder (λ item. item.score)) items,
            All-sort_by _ _ items (Gives-ok AllQualify _ (scan_ids-Gives ids w1) e2),
          )))

  -- Ids whose read always throws, and leaves the node.
  abbrev pub IsStale : ℕ → Type 0
  IsStale id = (w : W) → (e : Text) × (contracts.get_capability id w ≡ (err e, w))

  skip_stale :
      (id : ℕ) (rest : Io W (List DiscoveredItem)) (w : W)
      → IsStale id
      → (capability_or_skip contracts format_ether type_label min_score id
            >>= or_skip contracts format_ether type_label min_score id rest)
          w
        ≡ rest w
  unfolding capability_or_skip or_skip
  skip_stale id rest w stale = rw (stale w).1 refl

  -- One stale id changes nothing of what the others give.
  pub scan_ids-stale :
      (ids : List ℕ) (id : ℕ) (more : List ℕ)
      → IsStale id
      → scan_ids contracts format_ether type_label min_score (ids ++ id ∷ more)
        ≡ scan_ids contracts format_ether type_label min_score (ids ++ more)
  unfolding scan_ids
  scan_ids-stale [] id more stale = fun_ext (λ w. skip_stale id _ w stale)
  scan_ids-stale (x ∷ ids) id more stale =
      ap
        (λ rest.
          capability_or_skip contracts format_ether type_label min_score x
          >>= or_skip contracts format_ether type_label min_score x rest)
        (scan_ids-stale ids id more stale)

abbrev IsPage : DiscoverQuery → Discovered → Type 0
IsPage q (indexed page) = Unit
IsPage q (on_chain page) =
    IsOrdered (by_key_desc (λ item. item.score)) page.items
    × All (Qualifies q.min_score) page.items
    × (length page.items ≡ min q.limit (page.total - q.offset))

from_chain-Gives :
    {W : Type 0} (contracts : Contracts W) (codec : Codec) (decay : DecayConstants)
    (status : IndexerStatus) (q : DiscoverQuery) (w : W)
    → Gives (λ found s. IsPage q found) (from_chain contracts codec decay status q w)
unfolding from_chain
from_chain-Gives contracts codec decay status q w =
    bind-Gives (on_chain_discover contracts codec.format_ether q.capability_type q.min_score) _
      (λ found s. IsPage q found) w
      (λ all w1 e1.
        let sorted =
          Gives-ok _ _
            (on_chain_discover-Gives contracts codec.format_ether q.capability_type q.min_score w)
            e1 in
        (
          IsOrdered-take _ q.limit (drop q.offset all) (IsOrdered-drop _ q.offset all sorted.0),
          All-take _ q.limit (drop q.offset all) (All-drop _ q.offset all sorted.1),
          length-take q.limit (drop q.offset all) ∙ ap (min q.limit) (length-drop q.offset all),
        ))

-- A page that the fallback gives is sorted by descending score, holds only capabilities that are
-- certified, not slashed and of at least the least score, and is as long as the limit and what is
-- left from the offset on allow.
pub from_chain_page :
    {W : Type 0} (contracts : Contracts W) (codec : Codec) (decay : DecayConstants)
    (status : IndexerStatus) (q : DiscoverQuery) (w : W) {page : Page DiscoveredItem} {w' : W}
    → from_chain contracts codec decay status q w ≡ (ok (on_chain page), w')
    → IsOrdered (by_key_desc (λ item. item.score)) page.items
      × All (Qualifies q.min_score) page.items
      × (length page.items ≡ min q.limit (page.total - q.offset))
from_chain_page contracts codec decay status q w h =
    Gives-ok (λ found s. IsPage q found) _ (from_chain-Gives contracts codec decay status q w) h
