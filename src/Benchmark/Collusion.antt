-- ===== src/Benchmark/Collusion.antt =====
-- packages/benchmark/src/scenarios/collusion.ts: the graph of ratings and the detectors on it. A Set is
-- the list of its members in the order of insertion, a Map a table; ratios are compared by products.
pub mod Sets
pub mod Peeling
pub mod Ending
pub mod Core
pub mod Graphs
pub mod Rings
use taop_protocol.Prelude.{
  ℕ, zero, suc, ◌+◌, ◌-◌, ◌*◌, Bool, true, false, not, ◌&&◌, ◌||◌, List, [], ◌∷◌, ◌++◌, Option,
  none, some, ltb, leb, nat_beq, nat_eq, if◌then◌else◌, max, length, select,
}
use taop_protocol.Table.{Table, find, put}

abbrev pub Edge : Type 0
Edge = ℕ × ℕ

unfoldable pub member : ℕ → List ℕ → Bool
member x [] = false
member x (y ∷ ys) = nat_beq y x || member x ys

-- set.add(x)
unfoldable pub add : ℕ → List ℕ → List ℕ
unfolding member
add x l = if member x l then l else l ++ x ∷ []

unfoldable pub add_all : List ℕ → List ℕ → List ℕ
unfolding add
add_all [] l = l
add_all (x ∷ xs) l = add_all xs (add x l)

pub record Graph : Type 0 where
  pub nodes : List ℕ
  pub outgoing : Table ℕ (List ℕ)
  pub reciprocal_partners : Table ℕ ℕ
  pub undirected : Table ℕ (List ℕ)

abbrev pub or_empty : Option (List ℕ) → List ℕ
or_empty none = []
or_empty (some l) = l

abbrev pub or_zero : Option ℕ → ℕ
or_zero none = 0
or_zero (some n) = n

-- `if (!map.has(k)) map.set(k, new Set()); map.get(k).add(x)`
unfoldable pub link : ℕ → ℕ → Table ℕ (List ℕ) → Table ℕ (List ℕ)
unfolding add
link k x t = put k (add x (or_empty (find k t))) t

unfoldable pub has_edge : ℕ → ℕ → List Edge → Bool
has_edge from to [] = false
has_edge from to ((f, t) ∷ edges) = nat_beq f from && nat_beq t to || has_edge from to edges

-- What the loop over the edges builds.
pub record Adjacency : Type 0 where
  pub nodes : List ℕ
  pub outgoing : Table ℕ (List ℕ)
  pub undirected : Table ℕ (List ℕ)

unfoldable pub add_edge : Edge → Adjacency → Adjacency
unfolding link
add_edge (from, to) a = record {
  nodes = add to (add from a.nodes);
  outgoing = link from to a.outgoing;
  undirected = link to from (link from to a.undirected);
}

unfoldable pub add_edges : List Edge → Adjacency → Adjacency
unfolding add_edge
add_edges [] a = a
add_edges (e ∷ es) a = add_edges es (add_edge e a)

-- The targets that rate the node back.
unfoldable pub count_reciprocal : List Edge → ℕ → List ℕ → ℕ
unfolding has_edge
count_reciprocal edges node [] = 0
count_reciprocal edges node (target ∷ rest) =
    let more = count_reciprocal edges node rest in
    if has_edge target node edges then more + 1 else more

unfoldable pub count_partners : List Edge → Table ℕ (List ℕ) → List ℕ → Table ℕ ℕ → Table ℕ ℕ
unfolding count_reciprocal
count_partners edges outgoing [] t = t
count_partners edges outgoing (node ∷ rest) t =
    count_partners edges outgoing rest
      (put node (count_reciprocal edges node (or_empty (find node outgoing))) t)

unfoldable pub build_graph : List Edge → List ℕ → Graph
unfolding add_edges count_partners add_all
build_graph edges nodes =
    let a = add_edges edges (record { nodes = add_all nodes []; outgoing = []; undirected = [] }) in
    record {
      nodes = a.nodes;
      outgoing = a.outgoing;
      reciprocal_partners = count_partners edges a.outgoing a.nodes [];
      undirected = a.undirected;
    }

-- A threshold that is a ratio.
pub record Ratio : Type 0 where
  pub over : ℕ
  pub under : ℕ

abbrev pub partners : Graph → ℕ → ℕ
partners g node = or_zero (find node g.reciprocal_partners)

-- `reciprocal / outgoing.size >= threshold`
unfoldable pub is_reciprocal : Graph → Ratio → ℕ → Bool
is_reciprocal g threshold node =
    let size = length (or_empty (find node g.outgoing)) in
    not (nat_beq size 0) && leb (threshold.over * size) (partners g node * threshold.under)

unfoldable pub detect_by_reciprocity : Graph → Ratio → List ℕ
unfolding is_reciprocal
detect_by_reciprocity g threshold = select (is_reciprocal g threshold) g.nodes

unfoldable pub detect_by_mutual_degree : Graph → ℕ → List ℕ
detect_by_mutual_degree g min_partners = select (λ node. leb min_partners (partners g node)) g.nodes

abbrev pub neighbors : Graph → ℕ → List ℕ
neighbors g node = or_empty (find node g.undirected)

-- The degrees that are left, the nodes removed, and whether the pass removed one. A degree that would
-- fall below 0 stays at 0: both are less than every k from 1 on.
pub record Peel : Type 0 where
  pub degree : Table ℕ ℕ
  pub removed : List ℕ
  pub changed : Bool

abbrev pub degree_of : Table ℕ ℕ → ℕ → ℕ
degree_of degree node = or_zero (find node degree)

unfoldable pub lower : List ℕ → List ℕ → Table ℕ ℕ → Table ℕ ℕ
lower [] removed degree = degree
lower (n ∷ ns) removed degree =
    lower ns removed (if member n removed then degree else put n (degree_of degree n - 1) degree)

unfoldable pub visit : Graph → ℕ → ℕ → Peel → Peel
unfolding lower
visit g k node s =
    if member node s.removed
    then s
    else if ltb (degree_of s.degree node) k
    then record {
      degree = lower (neighbors g node) (node ∷ s.removed) s.degree;
      removed = node ∷ s.removed;
      changed = true;
    }
    else s

unfoldable pub visit_all : Graph → ℕ → List ℕ → Peel → Peel
unfolding visit
visit_all g k [] s = s
visit_all g k (n ∷ ns) s = visit_all g k ns (visit g k n s)

-- The `while` loop, on fuel.
unfoldable pub peel_within : ℕ → Graph → ℕ → Peel → Peel
unfolding visit_all
peel_within zero g k s = s
peel_within (suc fuel) g k s =
    let next = visit_all g k g.nodes (record s { changed = false }) in
    let rest = peel_within fuel g k next in if next.changed then rest else next

unfoldable pub start_degrees : Graph → List ℕ → Table ℕ ℕ → Table ℕ ℕ
start_degrees g [] t = t
start_degrees g (n ∷ ns) t = start_degrees g ns (put n (length (neighbors g n)) t)

-- The state when the loop ends; a pass that goes on removes a node.
unfoldable pub peel : Graph → ℕ → Peel
unfolding peel_within start_degrees
peel g k =
    peel_within (suc (length g.nodes)) g k
      (record { degree = start_degrees g g.nodes []; removed = []; changed = true })

unfoldable pub survives : Graph → ℕ → ℕ → Bool
unfolding peel
survives g k node = not (member node (peel g k).removed)

unfoldable pub max_degree : Graph → List ℕ → ℕ
max_degree g [] = 0
max_degree g (n ∷ ns) = max (length (neighbors g n)) (max_degree g ns)

-- The core number of a node after the rounds 1 to `rounds`.
unfoldable pub core_number : Graph → ℕ → ℕ → ℕ
unfolding survives
core_number g zero node = 0
core_number g (suc k) node =
    let before = core_number g k node in if survives g (suc k) node then suc k else before

unfoldable pub detect_by_k_core : Graph → ℕ → List ℕ
unfolding core_number max_degree
detect_by_k_core g threshold =
    select (λ node. leb threshold (core_number g (max_degree g g.nodes) node)) g.nodes

-- The counts of `evaluate`.
pub record DetectorCounts : Type 0 where
  pub flagged : ℕ
  pub true_positives : ℕ
  pub false_positives : ℕ
  pub false_negatives : ℕ

unfoldable pub evaluate : List ℕ → List ℕ → DetectorCounts
evaluate flagged planted =
    let hits = length (select (λ node. member node planted) flagged) in
    record {
      flagged = length flagged;
      true_positives = hits;
      false_positives = length flagged - hits;
      false_negatives = length planted - hits;
    }

unfoldable pub detect_ring : List ℕ → List Edge → Ratio → List ℕ
unfolding build_graph detect_by_reciprocity
detect_ring ring edges threshold =
    select (λ node. member node ring) (detect_by_reciprocity (build_graph edges ring) threshold)

-- Array.from({ length: n }, (_, i) => base + i)
unfoldable pub numbered : ℕ → ℕ → List ℕ
numbered base zero = []
numbered base (suc n) = numbered base n ++ (base + n) ∷ []

-- One pair's ratings.
unfoldable pub ratings_of_pair : ℕ → Edge → List Edge → List Edge
ratings_of_pair zero e rest = rest
ratings_of_pair (suc n) e rest = e ∷ ratings_of_pair n e rest

unfoldable pub ratings_from : ℕ → ℕ → List ℕ → List Edge
unfolding ratings_of_pair
ratings_from per_pair from [] = []
ratings_from per_pair from (to ∷ tos) =
    let rest = ratings_from per_pair from tos in
    if nat_beq from to then rest else ratings_of_pair per_pair (from, to) rest

-- The ratings within the ring, in the order of the loops.
unfoldable pub ring_edges : ℕ → List ℕ → List ℕ → List Edge
unfolding ratings_from
ring_edges per_pair [] ring = []
ring_edges per_pair (from ∷ froms) ring =
    ratings_from per_pair from ring ++ ring_edges per_pair froms ring
