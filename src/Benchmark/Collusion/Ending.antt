-- ===== src/Benchmark/Collusion/Ending.antt =====
-- The end of the peeling loop of packages/benchmark/src/scenarios/collusion.ts.
use taop_protocol.Prelude.{
  ℕ, zero, suc, ◌+◌, ◌≤◌, ◌<◌, ◌≡◌, refl, true, false, List, [], ◌∷◌, nat_beq_iff, bit, ltb, arith,
  Bool-cases, inl, inr, All, ◌∙◌, sym, subst,
}
use taop_protocol.Benchmark.Collusion.{
  Graph, Peel, member, degree_of, visit, visit_all, peel_within,
}
use taop_protocol.Benchmark.Collusion.Sets.{alive, alive-remove_lt, member-cons}

module _ (g : Graph) (k : ℕ) where
  -- How many nodes are left.
  abbrev pub left : Peel → ℕ
  left s = alive s.removed g.nodes

  visit-left :
      (n : ℕ) (s : Peel)
      → member n g.nodes ≡ true
      → left (visit g k n s) + bit (visit g k n s).changed ≤ left s + bit s.changed
  unfolding visit
  visit-left n s m = elim (Bool-cases (member n s.removed)) [
    | inl gone ↦ rw gone (omega arith)
    | inr there ↦ rw there (elim (Bool-cases (ltb (degree_of s.degree n) k)) [
      | inl low ↦ rw low (omega (arith, alive-remove_lt n s.removed g.nodes there m))
      | inr high ↦ rw high (omega arith)
    ])
  ]

  -- A part of the nodes.
  abbrev Part : List ℕ → Type 0
  Part ns = All (λ n. member n g.nodes ≡ true) ns

  visit_all-left :
      (ns : List ℕ) (s : Peel)
      → Part ns
      → left (visit_all g k ns s) + bit (visit_all g k ns s).changed ≤ left s + bit s.changed
  unfolding visit_all
  visit_all-left [] s p = omega arith
  visit_all-left (n ∷ ns) s p =
      omega (arith, visit_all-left ns (visit g k n s) p.1, visit-left n s p.0)

  nodes_within : (ns : List ℕ) → ((n : ℕ) → member n ns ≡ true → member n g.nodes ≡ true) → Part ns
  nodes_within [] h = tt
  nodes_within (n ∷ ns) h = (
    h n (ground (arith, member-cons n n ns, nat_beq_iff n n)),
    nodes_within ns (λ m p. h m (ground (arith, member-cons m n ns, p))),
  )

  whole : Part g.nodes
  whole = nodes_within g.nodes (λ n h. h)

  -- Where a node is left, it has at least k neighbours by its degree.
  abbrev pub Stable : Peel → List ℕ → Type 0
  Stable s = All (λ n. member n s.removed ≡ false → k ≤ degree_of s.degree n)

  visit-removes :
      (n : ℕ) (s : Peel)
      → member n s.removed ≡ false
      → ltb (degree_of s.degree n) k ≡ true
      → (visit g k n s).changed ≡ true
  unfolding visit
  visit-removes n s there low = rw there (rw low refl)

  visit-quiet :
      (n : ℕ) (s : Peel)
      → (visit g k n s).changed ≡ false
      → (visit g k n s ≡ s) × (member n s.removed ≡ false → k ≤ degree_of s.degree n)
  visit-quiet n s h = elim (Bool-cases (member n s.removed)) [
    | inl gone ↦ unfold visit in rw gone (refl, λ t. absurd (cc (t)))
    | inr there ↦ elim (Bool-cases (ltb (degree_of s.degree n) k)) [
      | inl low ↦ absurd (cc (h, visit-removes n s there low))
      | inr high ↦ unfold visit in rw there (rw high (refl, λ t. ground (arith, high)))
    ]
  ]

  visit-changed : (n : ℕ) (s : Peel) → s.changed ≡ true → (visit g k n s).changed ≡ true
  unfolding visit
  visit-changed n s h = elim (Bool-cases (member n s.removed)) [
    | inl gone ↦ rw gone h
    | inr there ↦ rw there (elim (Bool-cases (ltb (degree_of s.degree n) k)) [
      | inl low ↦ rw low refl
      | inr high ↦ rw high h
    ])
  ]

  visit_all-changed :
      (ns : List ℕ) (s : Peel) → s.changed ≡ true → (visit_all g k ns s).changed ≡ true
  unfolding visit_all
  visit_all-changed [] s h = h
  visit_all-changed (n ∷ ns) s h = visit_all-changed ns (visit g k n s) (visit-changed n s h)

  -- A pass that removes no node leaves the state, and finds it stable.
  visit_all-quiet :
      (ns : List ℕ) (s : Peel)
      → (visit_all g k ns s).changed ≡ false
      → (visit_all g k ns s ≡ s) × Stable s ns
  unfolding visit_all
  visit_all-quiet [] s h = (refl, tt)
  visit_all-quiet (n ∷ ns) s h = elim (Bool-cases (visit g k n s).changed) [
    | inl e ↦ absurd (cc (h, visit_all-changed ns (visit g k n s) e))
    | inr e ↦
        let (same, here) = visit-quiet n s e in
        let (rest, stable) = visit_all-quiet ns (visit g k n s) h in
        (rest ∙ same, (here, subst (λ t. Stable t ns) same stable))
  ]

  -- With a round for each node that is left and one more, the loop ends with a pass that removes
  -- none.
  pub peel_within-Stable :
      (fuel : ℕ) (s : Peel) → left s < fuel → Stable (peel_within fuel g k s) g.nodes
  unfolding peel_within
  peel_within-Stable zero s h = absurd (omega arith)
  peel_within-Stable (suc fuel) s h =
      let fresh : Peel = record s { changed = false } in
      let next = visit_all g k g.nodes fresh in
      elim (Bool-cases next.changed) [
        | inl e ↦
            rw e
              (peel_within-Stable fuel next (ground (arith, visit_all-left g.nodes fresh whole, e)))
        | inr e ↦ rw e (
            let (same, stable) = visit_all-quiet g.nodes fresh e in
            subst (λ t. Stable t g.nodes) (sym same) stable)
      ]
