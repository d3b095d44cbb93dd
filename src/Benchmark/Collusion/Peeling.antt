-- ===== src/Benchmark/Collusion/Peeling.antt =====
-- The peeling loop of packages/benchmark/src/scenarios/collusion.ts: what it removes, and that it ends.
use taop_protocol.Prelude.{
  ℕ, zero, suc, ◌-◌, ◌≤◌, ◌≡◌, ap, Bool, true, false, not, ◌&&◌, List, [], ◌∷◌, nat_beq,
  nat_beq_iff, nat_eq, if◌then◌else◌, count, bit, ltb, arith, Bool-cases, inl, inr,
}
use taop_protocol.Table.{Table, put}
use taop_protocol.Table.Laws.{find-put}
use taop_protocol.Benchmark.Collusion.{
  Graph, Peel, member, neighbors, degree_of, lower, visit, visit_all, peel_within,
}
use taop_protocol.Benchmark.Collusion.Sets.{
  Distinct, alive, alive-remove, count_within, member-cons,
}

degree_of-put :
    (n x value : ℕ) (degree : Table ℕ ℕ)
    → degree_of (put n value degree) x ≡ (if nat_beq n x then value else degree_of degree x)
degree_of-put n x value degree = rw (find-put n x value degree) (ground arith)

-- The neighbours that are still there lose one.
degree_of-lower :
    (ns removed : List ℕ) (degree : Table ℕ ℕ) (x : ℕ)
    → Distinct ns
    → degree_of (lower ns removed degree) x
      ≡ degree_of degree x - bit (member x ns && not (member x removed))
unfolding lower member
degree_of-lower [] removed degree x d = omega arith
degree_of-lower (n ∷ ns) removed degree x d = elim (Bool-cases (member n removed)) [
  | inl gone ↦
      rw gone (ground (arith, degree_of-lower ns removed degree x d.1, nat_beq_iff n x, gone, d.0))
  | inr there ↦ rw there (
      ground (
        arith,
        degree_of-lower ns removed (put n (degree_of degree n - 1) degree) x d.1,
        degree_of-put n x (degree_of degree n - 1) degree,
        nat_beq_iff n x,
        there,
        d.0,
      ))
]

-- A graph whose edges have no direction.
pub record IsUndirected (g : Graph) : Type 0 where
  pub distinct : (n : ℕ) → Distinct (neighbors g n)
  pub symmetric : (m n : ℕ) → member m (neighbors g n) ≡ member n (neighbors g m)
  pub closed : (m n : ℕ) → member m (neighbors g n) ≡ true → member m g.nodes ≡ true

-- A set of nodes each of which has k neighbours in the set.
pub record IsCore (g : Graph) (k : ℕ) (inside : ℕ → Bool) : Type 0 where
  pub within : (n : ℕ) → inside n ≡ true → member n g.nodes ≡ true
  pub dense : (n : ℕ) → inside n ≡ true → k ≤ count inside (neighbors g n)

module _ (g : Graph) (k : ℕ) (u : IsUndirected g) where
  -- The degrees of the nodes that are left count the neighbours that are left.
  abbrev pub Counts : Peel → Type 0
  Counts s =
      (v : ℕ) → member v s.removed ≡ false → degree_of s.degree v ≡ alive s.removed (neighbors g v)

  removal-Counts :
      (n : ℕ) (s : Peel)
      → member n s.removed ≡ false
      → Counts s
      → (v : ℕ) → member v (n ∷ s.removed) ≡ false
      → degree_of (lower (neighbors g n) (n ∷ s.removed) s.degree) v
        ≡ alive (n ∷ s.removed) (neighbors g v)
  removal-Counts n s there c v out =
      let mc = member-cons v n s.removed in
      let before : member v s.removed ≡ false = ground (arith, mc, out) in
      ground (
        arith,
        degree_of-lower (neighbors g n) (n ∷ s.removed) s.degree v (u.distinct n),
        alive-remove n s.removed (neighbors g v) there (u.distinct v),
        u.symmetric v n,
        c v before,
        out,
      )

  visit-Counts : (n : ℕ) (s : Peel) → Counts s → Counts (visit g k n s)
  unfolding visit
  visit-Counts n s c = elim (Bool-cases (member n s.removed)) [
    | inl gone ↦ rw gone c
    | inr there ↦ rw there (elim (Bool-cases (ltb (degree_of s.degree n) k)) [
      | inl low ↦ rw low (removal-Counts n s there c)
      | inr high ↦ rw high c
    ])
  ]

  visit_all-Counts : (ns : List ℕ) (s : Peel) → Counts s → Counts (visit_all g k ns s)
  unfolding visit_all
  visit_all-Counts [] s c = c
  visit_all-Counts (n ∷ ns) s c = visit_all-Counts ns (visit g k n s) (visit-Counts n s c)

  pub peel_within-Counts : (fuel : ℕ) (s : Peel) → Counts s → Counts (peel_within fuel g k s)
  unfolding peel_within
  peel_within-Counts zero s c = c
  peel_within-Counts (suc fuel) s c =
      let next = visit_all g k g.nodes (record s { changed = false }) in
      let counts = visit_all-Counts g.nodes (record s { changed = false }) c in
      elim (Bool-cases next.changed) [
        | inl e ↦ rw e (peel_within-Counts fuel next counts)
        | inr e ↦ rw e counts
      ]

  -- No member of a set that is dense in itself is removed.
  abbrev pub Spared : (ℕ → Bool) → Peel → Type 0
  Spared inside s = (n : ℕ) → inside n ≡ true → member n s.removed ≡ false

  module _ (inside : ℕ → Bool) (core : IsCore g k inside) where
    visit-Spared : (n : ℕ) (s : Peel) → Counts s → Spared inside s → Spared inside (visit g k n s)
    unfolding visit
    visit-Spared n s c spared = elim (Bool-cases (member n s.removed)) [
      | inl gone ↦ rw gone spared
      | inr there ↦ rw there (elim (Bool-cases (ltb (degree_of s.degree n) k)) [
        | inl low ↦ rw low (λ m h. ground (
          arith,
          member-cons m n s.removed,
          nat_beq_iff n m,
          spared m h,
          core.dense m h,
          c m (spared m h),
          count_within inside (λ x. not (member x s.removed)) (neighbors g m)
              (λ x i. ap not (spared x i)),
          low,
        ))
        | inr high ↦ rw high spared
      ])
    ]

    visit_all-Spared :
        (ns : List ℕ) (s : Peel) → Counts s → Spared inside s → Spared inside (visit_all g k ns s)
    unfolding visit_all
    visit_all-Spared [] s c spared = spared
    visit_all-Spared (n ∷ ns) s c spared =
        visit_all-Spared ns (visit g k n s) (visit-Counts n s c) (visit-Spared n s c spared)

    pub peel_within-Spared :
        (fuel : ℕ) (s : Peel) → Counts s → Spared inside s → Spared inside (peel_within fuel g k s)
    unfolding peel_within
    peel_within-Spared zero s c spared = spared
    peel_within-Spared (suc fuel) s c spared =
        let fresh : Peel = record s { changed = false } in
        let next = visit_all g k g.nodes fresh in
        let counts = visit_all-Counts g.nodes fresh c in
        let kept = visit_all-Spared g.nodes fresh c spared in
        elim (Bool-cases next.changed) [
          | inl e ↦ rw e (peel_within-Spared fuel next counts kept)
          | inr e ↦ rw e kept
        ]
