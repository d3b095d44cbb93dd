-- ===== src/Indexer/Discovery/Pages.antt =====
-- What a page of discovery holds.
use taop_protocol.Prelude.{
  ℕ, ◌+◌, ◌-◌, ◌≤◌, ◌≡◌, refl, sym, ap, ◌∙◌, Bool, not, List, [], ◌∷◌, ◌++◌, Text, arith, ltb,
  length, drop, count, All, length-take, Bool-cases, inl, inr, min,
}
use taop_protocol.Sort.{
  sort_by, by_key_desc, by_key_desc-IsOrder, IsOrdered, IsOrdered-sort_by, All-sort_by,
  length-sort_by,
}
use taop_protocol.Sort.Slices.{
  All-drop, All-take, IsOrdered-drop, IsOrdered-take, length-drop, take-add, drop-add,
}
use taop_protocol.Index.{Index}
use taop_protocol.Index.Capabilities.{IndexedCapabilityRow, query_indexed_capabilities}
use taop_protocol.Indexer.Decay.{DecayConstants}
use taop_protocol.Indexer.Poll.{IndexerStatus}
use taop_protocol.Indexer.Discovery.{
  IndexedDiscoveryItem, DiscoveryOptions, row_score, discovery_item, scored_rows, sorted_items,
  query_indexed_discovery,
}

module _ (id : Text → Text) (format_ether : ℕ → Text) (decay : DecayConstants)
    (status : IndexerStatus) (ix : Index) (opts : DiscoveryOptions) where
  -- The test of the source's `continue`, negated.
  abbrev pub qualifies : IndexedCapabilityRow → Bool
  qualifies r = not (ltb (row_score id format_ether decay status opts.now r) opts.min_score)

  abbrev AtLeast : IndexedDiscoveryItem → Type 0
  AtLeast item = opts.min_score ≤ item.score

  length-scored_rows :
      (rows : List IndexedCapabilityRow)
      → length (scored_rows id format_ether decay status ix opts rows) ≡ count qualifies rows
  unfolding scored_rows
  length-scored_rows [] = refl
  length-scored_rows (r ∷ rest) = ground (arith, length-scored_rows rest)

  All-scored_rows :
      (rows : List IndexedCapabilityRow)
      → All AtLeast (scored_rows id format_ether decay status ix opts rows)
  unfolding scored_rows discovery_item
  All-scored_rows [] = tt
  All-scored_rows (r ∷ rest) =
      elim (Bool-cases (ltb (row_score id format_ether decay status opts.now r) opts.min_score)) [
        | inl e ↦ rw e (All-scored_rows rest)
        | inr e ↦ rw e (ground arith, All-scored_rows rest)
      ]

  -- The rows that the table answers.
  abbrev rows : List IndexedCapabilityRow
  rows = query_indexed_capabilities id opts.capability_type ix

  -- Discovery answers a page in descending order of score, whose items all have the least score that
  -- was asked for; the total is the number of rows that qualify, and the page is as long as the limit
  -- and what is left behind the offset allow.
  pub query_indexed_discovery_page :
      let (page, total) = query_indexed_discovery id format_ether decay status ix opts in
      IsOrdered (by_key_desc (λ item. item.score)) page
      × All AtLeast page
      × (total ≡ count qualifies rows)
      × (length page ≡ min opts.limit (total - opts.offset))
  unfolding query_indexed_discovery sorted_items
  query_indexed_discovery_page =
      let items = scored_rows id format_ether decay status ix opts rows in
      let sorted = sort_by (by_key_desc (λ item. item.score)) items in
      (
        IsOrdered-take _ opts.limit _ (
            IsOrdered-drop _ opts.offset sorted
              (IsOrdered-sort_by _ (by_key_desc-IsOrder (λ item. item.score)) items)),
        All-take _ opts.limit _
            (All-drop _ opts.offset sorted (All-sort_by AtLeast _ items (All-scored_rows rows))),
        length-sort_by _ items ∙ length-scored_rows rows,
        omega (
          arith,
          length-take opts.limit (drop opts.offset sorted),
          length-drop opts.offset sorted,
        ),
      )

-- The window does not change the items.
module _ (id : Text → Text) (format_ether : ℕ → Text) (decay : DecayConstants)
    (status : IndexerStatus) (ix : Index) (opts : DiscoveryOptions) (offset limit : ℕ) where
  abbrev window : DiscoveryOptions
  window = record opts { offset = offset; limit = limit }

  scored_rows-window :
      (rows : List IndexedCapabilityRow)
      → scored_rows id format_ether decay status ix window rows
        ≡ scored_rows id format_ether decay status ix opts rows
  unfolding scored_rows discovery_item
  scored_rows-window [] = refl
  scored_rows-window (r ∷ rest) = rw (scored_rows-window rest)

  sorted_items-window :
      sorted_items id format_ether decay status ix window
      ≡ sorted_items id format_ether decay status ix opts
  unfolding sorted_items
  sorted_items-window =
      ap (sort_by (by_key_desc (λ item. item.score)))
        (scored_rows-window (query_indexed_capabilities id opts.capability_type ix))

-- Consecutive pages miss and repeat no item: a page and the one that begins where it ends are the
-- page of both lengths, and the total stays the same.
pub query_indexed_discovery_next :
    (id : Text → Text) (format_ether : ℕ → Text) (decay : DecayConstants) (status : IndexerStatus)
    (ix : Index) (opts : DiscoveryOptions) (more : ℕ)
    → let ask = λ (offset limit : ℕ).
      query_indexed_discovery id format_ether decay status ix
        (record opts { offset = offset; limit = limit }) in
      ((ask opts.offset opts.limit).0 ++ (ask (opts.offset + opts.limit) more).0
        ≡ (ask opts.offset (opts.limit + more)).0)
      × ((ask (opts.offset + opts.limit) more).1 ≡ (ask opts.offset opts.limit).1)
unfolding query_indexed_discovery
query_indexed_discovery_next id format_ether decay status ix opts more =
    let at = sorted_items-window id format_ether decay status ix opts in
    (
      rw
          (
            at opts.offset opts.limit,
            at (opts.offset + opts.limit) more,
            at opts.offset (opts.limit + more),
          )
          (rw
            (← drop-add opts.offset opts.limit (sorted_items id format_ether decay status ix opts))
            (take-add opts.limit more
              (drop opts.offset (sorted_items id format_ether decay status ix opts)))),
      ap length (at (opts.offset + opts.limit) more ∙ sym (at opts.offset opts.limit)),
    )
