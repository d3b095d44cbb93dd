-- ===== src/Benchmark/Collusion/Graphs.antt =====
-- The graph that packages/benchmark/src/scenarios/collusion.ts builds from the ratings.
use taop_protocol.Prelude.{
  ℕ, ◌≡◌, refl, true, false, ◌&&◌, ◌||◌, List, [], ◌∷◌, nat_beq, nat_beq_iff, nat_eq, if◌then◌else◌,
  arith, Bool-cases, inl, inr, ◌↔◌,
}
use taop_protocol.Table.{Table, find}
use taop_protocol.Table.Laws.{find-put}
use taop_protocol.Benchmark.Collusion.{
  Edge, Adjacency, member, add, add_all, or_empty, link, add_edge, add_edges, build_graph,
  neighbors, detect_by_k_core, has_edge,
}
use taop_protocol.Benchmark.Collusion.Sets.{Distinct, Distinct-add, member-add}
use taop_protocol.Benchmark.Collusion.Peeling.{IsUndirected}
use taop_protocol.Benchmark.Collusion.Core.{InCore, detect_by_k_core-InCore}

abbrev set_at : Table ℕ (List ℕ) → ℕ → List ℕ
set_at t n = or_empty (find n t)

set_at-link :
    (k x n : ℕ) (t : Table ℕ (List ℕ))
    → set_at (link k x t) n ≡ (if nat_beq k n then add x (set_at t k) else set_at t n)
unfolding link
set_at-link k x n t = rw (find-put k n (add x (set_at t k)) t) (ground arith)

member-link :
    (k x m n : ℕ) (t : Table ℕ (List ℕ))
    → member m (set_at (link k x t) n) ≡ (nat_beq k n && nat_beq x m || member m (set_at t n))
member-link k x m n t = rw (set_at-link k x n t) (elim (Bool-cases (nat_beq k n)) [
  | inl e ↦ let same : k ≡ n = (nat_beq_iff k n).0 e in rw e (rw same (member-add m x (set_at t n)))
  | inr e ↦ rw e refl
])

Distinct-link :
    (k x n : ℕ) (t : Table ℕ (List ℕ))
    → ((i : ℕ) → Distinct (set_at t i))
    → Distinct (set_at (link k x t) n)
Distinct-link k x n t d = rw (set_at-link k x n t) (elim (Bool-cases (nat_beq k n)) [
  | inl e ↦ rw e (Distinct-add x (set_at t k) (d k))
  | inr e ↦ rw e (d n)
])

-- What the loop over the edges keeps.
record IsLinked (a : Adjacency) : Type 0 where
  pub distinct : (n : ℕ) → Distinct (set_at a.undirected n)
  pub symmetric : (m n : ℕ) → member m (set_at a.undirected n) ≡ member n (set_at a.undirected m)
  pub closed : (m n : ℕ) → member m (set_at a.undirected n) ≡ true → member m a.nodes ≡ true

add_edge-IsLinked : (e : Edge) (a : Adjacency) → IsLinked a → IsLinked (add_edge e a)
unfolding add_edge
add_edge-IsLinked (from, to) a v =
    let once = link from to a.undirected in
    let both = λ (m n : ℕ). member-link to from m n once in
    let first = λ (m n : ℕ). member-link from to m n a.undirected in
    record {
      distinct =
          λ n. Distinct-link to from n once (λ i. Distinct-link from to i a.undirected v.distinct);
      symmetric = λ m n. ground (arith, both m n, both n m, first m n, first n m, v.symmetric m n);
      closed = λ m n h. ground (
        arith,
        both m n,
        first m n,
        v.closed m n,
        member-add m to (add from a.nodes),
        member-add m from a.nodes,
        h,
      );
    }

add_edges-IsLinked : (es : List Edge) (a : Adjacency) → IsLinked a → IsLinked (add_edges es a)
unfolding add_edges
add_edges-IsLinked [] a v = v
add_edges-IsLinked (e ∷ es) a v = add_edges-IsLinked es (add_edge e a) (add_edge-IsLinked e a v)

abbrev without_edges : List ℕ → Adjacency
without_edges nodes = record { nodes = add_all nodes []; outgoing = []; undirected = [] }

without_edges-IsLinked : (nodes : List ℕ) → IsLinked (without_edges nodes)
unfolding find member
without_edges-IsLinked nodes = record {
  distinct = λ n. tt;
  symmetric = λ m n. refl;
  closed = λ m n h. absurd (cc);
}

-- The graph of any ratings over any nodes has no directions: each node is its neighbours' neighbour,
-- no neighbour is named twice, and each is a node.
pub build_graph-IsUndirected :
    (edges : List Edge) (nodes : List ℕ) → IsUndirected (build_graph edges nodes)
unfolding build_graph
build_graph-IsUndirected edges nodes =
    let v = add_edges-IsLinked edges (without_edges nodes) (without_edges-IsLinked nodes) in
    record { distinct = v.distinct; symmetric = v.symmetric; closed = v.closed }

-- Who is next to whom, after the edges.
member-add_edges :
    (es : List Edge) (a : Adjacency) (m n : ℕ)
    → member m (set_at (add_edges es a).undirected n)
      ≡ (has_edge n m es || has_edge m n es || member m (set_at a.undirected n))
unfolding add_edges add_edge has_edge
member-add_edges [] a m n = refl
member-add_edges ((from, to) ∷ es) a m n = rw (member-add_edges es (add_edge (from, to) a) m n) (
    unfold add_edge in
    ground (
      arith,
      member-link to from m n (link from to a.undirected),
      member-link from to m n a.undirected,
    ))

no_member : (m : ℕ) → member m [] ≡ false
unfolding member
no_member m = refl

-- Two nodes are neighbours exactly where one rated the other.
pub neighbors-build_graph :
    (edges : List Edge) (nodes : List ℕ) (m n : ℕ)
    → member m (neighbors (build_graph edges nodes) n) ≡ (has_edge n m edges || has_edge m n edges)
unfolding build_graph find
neighbors-build_graph edges nodes m n =
    rw (member-add_edges edges (without_edges nodes) m n) (ground (arith, no_member m))

-- On the graph of any ratings, the detector flags exactly the accounts of the k-core: those in a set
-- of accounts of the graph of which each has rated, or was rated by, at least k others of the set
-- (itself among them where it rated itself).
pub build_graph-InCore :
    (edges : List Edge) (nodes : List ℕ) (k v : ℕ)
    → (member v (detect_by_k_core (build_graph edges nodes) k) ≡ true)
      ↔ InCore (build_graph edges nodes) (build_graph-IsUndirected edges nodes) k v
build_graph-InCore edges nodes k v =
    detect_by_k_core-InCore (build_graph edges nodes) (build_graph-IsUndirected edges nodes) k v
