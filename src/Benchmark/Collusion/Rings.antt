-- ===== src/Benchmark/Collusion/Rings.antt =====
-- What the k-core detector of packages/benchmark/src/scenarios/collusion.ts makes of a ring of accounts
-- that rate each other.
use taop_protocol.Prelude.{
  ℕ, zero, suc, ◌+◌, ◌≤◌, ◌<◌, ◌≡◌, refl, Bool, true, false, not, ◌&&◌, ◌||◌, List, [], ◌∷◌, ◌++◌,
  nat_beq, nat_beq_iff, nat_eq, count, length, length-append, arith, Bool-cases, inl, inr, select,
}
use taop_protocol.Benchmark.Collusion.{
  Edge, member, has_edge, build_graph, neighbors, detect_by_k_core, numbered, ratings_of_pair,
  ratings_from, ring_edges, evaluate,
}
use taop_protocol.Benchmark.Collusion.Sets.{
  Distinct, Distinct-snoc, member-append, member-cons, count_within,
}
use taop_protocol.Benchmark.Collusion.Graphs.{
  build_graph-IsUndirected, build_graph-InCore, neighbors-build_graph,
}

-- One more where the second test takes a member that the first does not.
count_more :
    (p q : ℕ → Bool) (x : ℕ) (l : List ℕ)
    → ((n : ℕ) → p n ≡ true → q n ≡ true)
    → member x l ≡ true
    → p x ≡ false
    → q x ≡ true
    → count p l < count q l
unfolding member
count_more p q x [] h m px qx = absurd (cc)
count_more p q x (y ∷ l) h m px qx = elim (Bool-cases (nat_beq y x)) [
  | inl e ↦
      let same : y ≡ x = (nat_beq_iff y x).0 e in
      rw same (rw px (rw qx (omega (arith, count_within p q l h))))
  | inr e ↦ ground (arith, count_more p q x l h (ground (arith, m, e)) px qx, h y)
]

-- A set that lies in another has as many members there as it has.
pub length-le-count :
    (xs l : List ℕ)
    → Distinct xs
    → ((n : ℕ) → member n xs ≡ true → member n l ≡ true)
    → length xs ≤ count (λ n. member n xs) l
unfolding member
length-le-count [] l d h = omega arith
length-le-count (x ∷ xs) l d h =
    let less =
      count_more (λ n. member n xs) (λ n. member n (x ∷ xs)) x l
        (λ n p. ground (arith, member-cons n x xs, p)) (h x (ground (arith, nat_beq_iff x x))) d.0
        (ground (arith, nat_beq_iff x x)) in
    let rest = length-le-count xs l d.1 (λ n p. h n (ground (arith, p))) in
    omega (arith, less, rest)

-- The members of a set but one.
abbrev others : ℕ → List ℕ → List ℕ
others x = select (λ n. not (nat_beq n x))

member-others :
    (x n : ℕ) (xs : List ℕ) → member n (others x xs) ≡ (member n xs && not (nat_beq n x))
unfolding member
member-others x n [] = refl
member-others x n (y ∷ xs) =
    ground (arith, member-others x n xs, nat_beq_iff y x, nat_beq_iff n x, nat_beq_iff y n)

Distinct-others : (x : ℕ) (xs : List ℕ) → Distinct xs → Distinct (others x xs)
Distinct-others x [] d = tt
Distinct-others x (y ∷ xs) d = elim (Bool-cases (nat_beq y x)) [
  | inl e ↦ rw e (Distinct-others x xs d.1)
  | inr e ↦ rw e (ground (arith, member-others x y xs, d.0), Distinct-others x xs d.1)
]

others-absent : (x : ℕ) (xs : List ℕ) → member x xs ≡ false → length (others x xs) ≡ length xs
unfolding member
others-absent x [] m = refl
others-absent x (y ∷ xs) m = ground (arith, others-absent x xs, m)

length-others : (x : ℕ) (xs : List ℕ) → Distinct xs → length xs ≤ suc (length (others x xs))
length-others x [] d = omega arith
length-others x (y ∷ xs) d = elim (Bool-cases (nat_beq y x)) [
  | inl e ↦
      let same : y ≡ x = (nat_beq_iff y x).0 e in
      rw e (let d' = rw same at d.0 in omega (arith, others-absent x xs d'))
  | inr e ↦ rw e (omega (arith, length-others x xs d.1))
]

first_of : (l : List ℕ) → 1 ≤ length l → (m : ℕ) × (member m l ≡ true)
first_of [] h = absurd (omega arith)
first_of (m ∷ l) h = (m, ground (arith, member-cons m m l, nat_beq_iff m m))

-- Accounts each of which rated every other one.
abbrev pub IsRing : List Edge → List ℕ → Type 0
IsRing edges ring =
    (m n : ℕ)
    → member m ring ≡ true
    → member n ring ≡ true
    → nat_beq m n ≡ false
    → has_edge m n edges ≡ true

module _ (edges : List Edge) (nodes ring : List ℕ) (d : Distinct ring) (r : IsRing edges ring) where
  ring-neighbors :
      (n m : ℕ)
      → member n ring ≡ true
      → member m (others n ring) ≡ true
      → member m (neighbors (build_graph edges nodes) n) ≡ true
  ring-neighbors n m hn hm =
      let there : member m ring ≡ true = ground (arith, member-others n m ring, hm) in
      let apart : nat_beq m n ≡ false = ground (arith, member-others n m ring, hm) in
      rw (neighbors-build_graph edges nodes m n) (ground (arith, r m n there hn apart))

  ring-dense :
      (k n : ℕ)
      → k < length ring
      → member n ring ≡ true
      → k ≤ count (λ m. member m ring) (neighbors (build_graph edges nodes) n)
  ring-dense k n le hn =
      let l = neighbors (build_graph edges nodes) n in
      let part =
        length-le-count (others n ring) l (Distinct-others n ring d)
          (λ m hm. ring-neighbors n m hn hm) in
      let more =
        count_within (λ m. member m (others n ring)) (λ m. member m ring) l
          (λ m hm. ground (arith, member-others n m ring, hm)) in
      omega (arith, part, more, length-others n ring d, le)

  ring-node :
      (n : ℕ)
      → 1 < length ring
      → member n ring ≡ true
      → member n (build_graph edges nodes).nodes ≡ true
  ring-node n le hn =
      let (m, hm) = first_of (others n ring) (omega (arith, length-others n ring d, le)) in
      let u = build_graph-IsUndirected edges nodes in
      u.closed n m (cc (u.symmetric n m, ring-neighbors n m hn hm))

  -- However the other accounts rate, every member of a ring of more than k accounts that all rated
  -- each other is flagged by the k-core detector with threshold k, where k is at least 1.
  pub detect_by_k_core-IsRing :
      (k n : ℕ)
      → 1 ≤ k
      → k < length ring
      → member n ring ≡ true
      → member n (detect_by_k_core (build_graph edges nodes) k) ≡ true
  detect_by_k_core-IsRing k n pos le hn = (build_graph-InCore edges nodes k n).1 (
    λ m. member m ring,
    record {
      within = λ m hm. ring-node m (omega (arith, pos, le)) hm;
      dense = λ m hm. ring-dense k m le hm;
    },
    hn,
  )

has_edge-append :
    (m n : ℕ) (a b : List Edge) → has_edge m n (a ++ b) ≡ (has_edge m n a || has_edge m n b)
unfolding has_edge
has_edge-append m n [] b = refl
has_edge-append m n (e ∷ a) b = ground (arith, has_edge-append m n a b)

has_edge-pair :
    (copies m n i j : ℕ) (rest : List Edge)
    → has_edge m n (ratings_of_pair copies (i, j) rest)
      ≡ (not (nat_beq copies 0) && nat_beq i m && nat_beq j n || has_edge m n rest)
unfolding has_edge ratings_of_pair
has_edge-pair zero m n i j rest = refl
has_edge-pair (suc copies) m n i j rest = ground (arith, has_edge-pair copies m n i j rest)

has_edge-ratings_from :
    (per_pair m n : ℕ) (tos : List ℕ)
    → 1 ≤ per_pair
    → nat_beq m n ≡ false
    → member n tos ≡ true
    → has_edge m n (ratings_from per_pair m tos) ≡ true
unfolding ratings_from member
has_edge-ratings_from per_pair m n [] pos apart h = absurd (cc)
has_edge-ratings_from per_pair m n (t ∷ tos) pos apart h = elim (Bool-cases (nat_beq m t)) [
  | inl same ↦ rw same (
      has_edge-ratings_from per_pair m n tos pos apart
        (ground (arith, h, same, apart, nat_beq_iff m t, nat_beq_iff t n, nat_beq_iff m n)))
  | inr other ↦ rw other (
      rw (has_edge-pair per_pair m n m t (ratings_from per_pair m tos))
        (elim (Bool-cases (nat_beq t n)) [
          | inl hit ↦ ground (arith, hit, nat_beq_iff m m, pos)
          | inr miss ↦ ground (arith, has_edge-ratings_from per_pair m n tos pos apart, h, miss)
        ]))
]

ring_edges-has_edge :
    (per_pair m n : ℕ) (froms ring : List ℕ)
    → 1 ≤ per_pair
    → nat_beq m n ≡ false
    → member m froms ≡ true
    → member n ring ≡ true
    → has_edge m n (ring_edges per_pair froms ring) ≡ true
unfolding ring_edges member
ring_edges-has_edge per_pair m n [] ring pos apart hm hn = absurd (cc)
ring_edges-has_edge per_pair m n (f ∷ froms) ring pos apart hm hn =
    rw (has_edge-append m n (ratings_from per_pair f ring) (ring_edges per_pair froms ring))
      (elim (Bool-cases (nat_beq f m)) [
        | inl e ↦
            let same : f ≡ m = (nat_beq_iff f m).0 e in
            rw same (ground (arith, has_edge-ratings_from per_pair m n ring pos apart hn))
        | inr e ↦ ground (
          arith,
          ring_edges-has_edge per_pair m n froms ring pos apart (ground (arith, hm, e)) hn,
        )
      ])

-- The ratings that the simulation gives to the ring make it one, whatever comes before or after.
ring_edges-IsRing :
    (per_pair : ℕ) (ring : List ℕ) (before after : List Edge)
    → 1 ≤ per_pair
    → IsRing (before ++ (ring_edges per_pair ring ring ++ after)) ring
ring_edges-IsRing per_pair ring before after pos m n hm hn apart =
    let inner = ring_edges per_pair ring ring in
    ground (
      arith,
      has_edge-append m n before (inner ++ after),
      has_edge-append m n inner after,
      ring_edges-has_edge per_pair m n ring ring pos apart hm hn,
    )

length-select : (p : ℕ → Bool) (l : List ℕ) → length (select p l) ≡ count p l
length-select p [] = refl
length-select p (x ∷ l) = ground (arith, length-select p l)

pub member-numbered :
    (base n x : ℕ) → member x (numbered base n) ≡ true → (base ≤ x) × (x < base + n)
unfolding numbered member
member-numbered base zero x h = absurd (cc)
member-numbered base (suc n) x h = ground (
  arith,
  member-append x (numbered base n) ((base + n) ∷ []),
  member-numbered base n x,
  nat_beq_iff (base + n) x,
  h,
)

Distinct-numbered : (base n : ℕ) → Distinct (numbered base n)
unfolding numbered
Distinct-numbered base zero = tt
Distinct-numbered base (suc n) =
    Distinct-snoc (base + n) (numbered base n) (Distinct-numbered base n)
      (elim (Bool-cases (member (base + n) (numbered base n))) [
        | inl e ↦ absurd (omega (arith, member-numbered base n (base + n) e))
        | inr e ↦ e
      ])

pub length-numbered : (base n : ℕ) → length (numbered base n) ≡ n
unfolding numbered
length-numbered base zero = refl
length-numbered base (suc n) =
    omega (arith, length-append (numbered base n) ((base + n) ∷ []), length-numbered base n)

-- In the simulation's graph, with at least one rating for each pair of the ring and a threshold from 1
-- to below the ring's size, the k-core detector misses no member of the ring, however many honest
-- accounts there are and whomever they rate.
pub k_core-misses_none :
    (ring_size per_pair threshold : ℕ) (honest_edges : List Edge) (honest : List ℕ)
    → 1 ≤ per_pair
    → 1 ≤ threshold
    → threshold < ring_size
    → let ring = numbered 0 ring_size in
      let graph = build_graph (ring_edges per_pair ring ring ++ honest_edges) (ring ++ honest) in
      (evaluate (detect_by_k_core graph threshold) ring).false_negatives ≡ 0
unfolding evaluate
k_core-misses_none ring_size per_pair threshold honest_edges honest once pos less =
    let ring = numbered 0 ring_size in
    let edges = ring_edges per_pair ring ring ++ honest_edges in
    let flagged = detect_by_k_core (build_graph edges (ring ++ honest)) threshold in
    let size = length-numbered 0 ring_size in
    let all = length-le-count ring flagged (Distinct-numbered 0 ring_size) (λ n hn.
      detect_by_k_core-IsRing edges (ring ++ honest) ring (Distinct-numbered 0 ring_size)
        (ring_edges-IsRing per_pair ring [] honest_edges once) threshold n pos
        (omega (arith, size, less)) hn) in
    omega (arith, all, length-select (λ n. member n ring) flagged)
