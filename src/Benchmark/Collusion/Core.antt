-- ===== src/Benchmark/Collusion/Core.antt =====
-- The k-core detector of packages/benchmark/src/scenarios/collusion.ts against the definition of a
-- k-core.
use taop_protocol.Prelude.{
  ℕ, zero, suc, ◌≤◌, ◌≡◌, ◌↔◌, refl, ap, Bool, true, false, not, ◌&&◌, List, [], ◌∷◌, nat_beq,
  nat_beq_iff, if◌then◌else◌, count, length, leb, leb→le, le→leb, arith, Bool-cases, inl, inr, All,
  select, subst, nat_eq,
}
use taop_protocol.Table.{Table, find, put}
use taop_protocol.Table.Laws.{find-put}
use taop_protocol.Benchmark.Collusion.{
  Graph, Peel, member, neighbors, degree_of, start_degrees, peel, peel_within, survives, max_degree,
  core_number, detect_by_k_core,
}
use taop_protocol.Benchmark.Collusion.Sets.{alive, count-le-length, member-cons}
use taop_protocol.Benchmark.Collusion.Peeling.{
  IsUndirected, IsCore, Counts, peel_within-Counts, peel_within-Spared,
}
use taop_protocol.Benchmark.Collusion.Ending.{left, peel_within-Stable}

count_members :
    (p q : ℕ → Bool) (l : List ℕ)
    → ((n : ℕ) → member n l ≡ true → p n ≡ true → q n ≡ true)
    → count p l ≤ count q l
count_members p q [] h = omega arith
count_members p q (x ∷ l) h = ground (
  arith,
  count_members p q l (λ n m. h n (ground (arith, member-cons n x l, m))),
  h x (ground (arith, member-cons x x l, nat_beq_iff x x)),
)

alive-nil : (l : List ℕ) → alive [] l ≡ length l
unfolding member
alive-nil [] = refl
alive-nil (x ∷ l) = omega (arith, alive-nil l)

degree_of-start :
    (g : Graph) (ns : List ℕ) (t : Table ℕ ℕ) (v : ℕ)
    → degree_of (start_degrees g ns t) v
      ≡ (if member v ns then length (neighbors g v) else degree_of t v)
unfolding start_degrees member
degree_of-start g [] t v = refl
degree_of-start g (n ∷ ns) t v = rw (degree_of-start g ns (put n (length (neighbors g n)) t) v) (
    rw (find-put n v (length (neighbors g n)) t) (elim (Bool-cases (nat_beq n v)) [
      | inl e ↦ let same : n ≡ v = (nat_beq_iff n v).0 e in rw e (rw same (ground arith))
      | inr e ↦ rw e (ground arith)
    ]))

All-member : (P : ℕ → Type 0) (l : List ℕ) (n : ℕ) → All P l → member n l ≡ true → P n
unfolding member
All-member P [] n h m = absurd (cc)
All-member P (x ∷ l) n h m = elim (Bool-cases (nat_beq x n)) [
  | inl e ↦ subst P ((nat_beq_iff x n).0 e) h.0
  | inr e ↦ All-member P l n h.1 (ground (arith, m, e))
]

nothing : (n : ℕ) → member n [] ≡ false
unfolding member
nothing n = refl

member-select : (p : ℕ → Bool) (v : ℕ) (l : List ℕ) → member v (select p l) ≡ (member v l && p v)
unfolding member
member-select p v [] = refl
member-select p v (x ∷ l) = elim (Bool-cases (nat_beq x v)) [
  | inl e ↦
      let same : x ≡ v = (nat_beq_iff x v).0 e in
      elim (Bool-cases (p x)) [
        | inl t ↦ rw t (rw e (let t' = rw same at t in ground (arith, t')))
        | inr t ↦ rw t (rw (member-select p v l) (let t' = rw same at t in ground (arith, t')))
      ]
  | inr e ↦ elim (Bool-cases (p x)) [
    | inl t ↦ rw t (rw e (member-select p v l))
    | inr t ↦ rw t (rw e (member-select p v l))
  ]
]

module _ (g : Graph) (u : IsUndirected g) where
  no_neighbors : (v : ℕ) (l : List ℕ) → l ≡ neighbors g v → member v g.nodes ≡ false → length l ≡ 0
  no_neighbors v [] e out = refl
  no_neighbors v (n ∷ l) e out =
      let there : member n (neighbors g v) ≡ true =
        subst (λ t. member n t ≡ true) e (ground (arith, member-cons n n l, nat_beq_iff n n)) in
      absurd (cc (out, u.closed v n (cc (u.symmetric v n, there))))

  abbrev start : Peel
  start = record { degree = start_degrees g g.nodes []; removed = []; changed = true }

  start-Counts : (k : ℕ) → Counts g k u start
  unfolding find
  start-Counts k v out = rw (degree_of-start g g.nodes [] v) (
      rw (alive-nil (neighbors g v)) (elim (Bool-cases (member v g.nodes)) [
        | inl e ↦ rw e refl
        | inr e ↦ rw e (ground (arith, no_neighbors v (neighbors g v) refl e))
      ]))

  start-left : (k : ℕ) → left g k start ≤ length g.nodes
  start-left k = count-le-length _ g.nodes

  -- The nodes that survive round k.
  abbrev survivor : ℕ → ℕ → Bool
  survivor k v = member v g.nodes && survives g k v

  pub survives-IsCore : (k : ℕ) → IsCore g k (survivor k)
  unfolding survives peel
  survives-IsCore k = record {
    within = λ v h. ground (arith, h);
    dense = λ v h.
        let last = peel_within (suc (length g.nodes)) g k start in
        let out : member v last.removed ≡ false = ground (arith, h) in
        let stable =
          All-member _ g.nodes v
            (peel_within-Stable g k (suc (length g.nodes)) start (omega (arith, start-left k)))
            (ground (arith, h)) out in
        let counts = peel_within-Counts g k u (suc (length g.nodes)) start (start-Counts k) v out in
        let members =
          count_members (λ n. not (member n last.removed)) (survivor k) (neighbors g v)
            (λ n m p. ground (arith, u.closed n v m, p)) in
        omega (arith, stable, counts, members);
  }

  pub IsCore-survives :
      (k : ℕ) (inside : ℕ → Bool) (v : ℕ)
      → IsCore g k inside
      → inside v ≡ true
      → survives g k v ≡ true
  unfolding survives peel
  IsCore-survives k inside v core h =
      let spared =
        peel_within-Spared g k u inside core (suc (length g.nodes)) start (start-Counts k)
          (λ n i. nothing n) v h in
      ap not spared

  -- A set of nodes with at least `threshold` neighbours in the set, each, that holds the node.
  abbrev pub InCore : ℕ → ℕ → Type 0
  InCore threshold v = (inside : ℕ → Bool) × IsCore g threshold inside × (inside v ≡ true)

  less_dense :
      (k threshold : ℕ) (inside : ℕ → Bool)
      → threshold ≤ k
      → IsCore g k inside
      → IsCore g threshold inside
  less_dense k threshold inside le core = record {
    within = core.within;
    dense = λ n h. omega (arith, core.dense n h, le);
  }

  core_number-survives :
      (rounds threshold v : ℕ)
      → 1 ≤ threshold
      → threshold ≤ core_number g rounds v
      → (k : ℕ) × (threshold ≤ k) × (survives g k v ≡ true)
  unfolding core_number
  core_number-survives zero threshold v pos le = absurd (omega arith)
  core_number-survives (suc k) threshold v pos le = elim (Bool-cases (survives g (suc k) v)) [
    | inl e ↦ (suc k, ground (arith, le, e), e)
    | inr e ↦ core_number-survives k threshold v pos (ground (arith, le, e))
  ]

  survives-core_number :
      (rounds threshold v : ℕ)
      → 1 ≤ threshold
      → threshold ≤ rounds
      → survives g threshold v ≡ true
      → threshold ≤ core_number g rounds v
  unfolding core_number
  survives-core_number zero threshold v pos le h = absurd (omega arith)
  survives-core_number (suc k) threshold v pos le h = elim (Bool-cases (survives g (suc k) v)) [
    | inl e ↦ rw e le
    | inr e ↦ rw e (elim (Bool-cases (nat_beq threshold (suc k))) [
      | inl same ↦
          let eq : threshold ≡ suc k = (nat_beq_iff threshold (suc k)).0 same in
          absurd (let h' = rw eq at h in cc)
      | inr other ↦ survives-core_number k threshold v pos (ground (arith, other, le)) h
    ])
  ]

  length-neighbors-le-max_degree :
      (ns : List ℕ) (v : ℕ) → member v ns ≡ true → length (neighbors g v) ≤ max_degree g ns
  unfolding max_degree member
  length-neighbors-le-max_degree [] v h = absurd (cc)
  length-neighbors-le-max_degree (n ∷ ns) v h = elim (Bool-cases (nat_beq n v)) [
    | inl e ↦ let same : n ≡ v = (nat_beq_iff n v).0 e in rw same (omega arith)
    | inr e ↦ omega (arith, length-neighbors-le-max_degree ns v (ground (arith, h, e)))
  ]

  every_node : (v : ℕ) → member v g.nodes ≡ true → InCore 0 v
  every_node v h =
      (λ n. member n g.nodes, record { within = λ n i. i; dense = λ n i. omega arith }, h)

  core_number-InCore :
      (threshold v : ℕ)
      → member v g.nodes ≡ true
      → threshold ≤ core_number g (max_degree g g.nodes) v
      → InCore threshold v
  core_number-InCore zero v m le = every_node v m
  core_number-InCore (suc t) v m le =
      let (k, more, survived) =
        core_number-survives (max_degree g g.nodes) (suc t) v (omega arith) le in
      (
        survivor k,
        less_dense k (suc t) (survivor k) more (survives-IsCore k),
        ground (arith, m, survived),
      )

  InCore-core_number :
      (threshold v : ℕ) → InCore threshold v → threshold ≤ core_number g (max_degree g g.nodes) v
  InCore-core_number zero v h = omega arith
  InCore-core_number (suc t) v (inside, core, h) =
      survives-core_number (max_degree g g.nodes) (suc t) v (omega arith)
        (omega (
          arith,
          core.dense v h,
          count-le-length inside (neighbors g v),
          length-neighbors-le-max_degree g.nodes v (core.within v h),
        ))
        (IsCore-survives (suc t) inside v core h)

  -- In a graph without directions, the k-core detector flags exactly the nodes of the k-core, for
  -- k the threshold: those in a set of nodes that each have at least k neighbours in the set.
  pub detect_by_k_core-InCore :
      (threshold v : ℕ) → (member v (detect_by_k_core g threshold) ≡ true) ↔ InCore threshold v
  unfolding detect_by_k_core
  detect_by_k_core-InCore threshold v =
      let p = λ (n : ℕ). leb threshold (core_number g (max_degree g g.nodes) n) in
      let split = member-select p v g.nodes in
      (
        λ h.
            core_number-InCore threshold v (ground (arith, split, h))
              (leb→le _ _ (ground (arith, split, h))),
        λ c.
            let node = c.1.within v c.2 in
            let le = le→leb _ _ (InCore-core_number threshold v c) in
            ground (arith, split, node, le),
      )
