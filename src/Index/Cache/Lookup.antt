-- ===== src/Index/Cache/Lookup.antt =====
-- What the cache answers after it has recorded something.
use taop_protocol.Prelude.{
  ℕ, zero, suc, sym, ap, ◌∙◌, ◌<◌, ◌≡◌, refl, Bool, true, false, List, [], ◌∷◌, map, Text, Option,
  some, arith, eq_refl, to_lower, select, get_elem?, Bool-cases, inl, inr, nat_beq, text_eq, nat_eq,
}
use mathlib.Core.Option.{some-injective}
use taop_protocol.Table.{Table, put}
use taop_protocol.Index.{Index, Capability}
use taop_protocol.Index.Cache.{is_registration, is_capability_registered, record_capability}

-- What SQLite promises of the first row: it is one of the rows, where there are any.
pub record IsFirstRow (first_row : List ℕ → Option ℕ) : Type 0 where
  pub gives :
      (id : ℕ) (rest : List ℕ)
      → (found : ℕ) × (i : ℕ) × (first_row (id ∷ rest) ≡ some found)
        × (get_elem? (id ∷ rest) i ≡ some found)

-- A row that meets the test, at its place among all rows.
abbrev RowOf : (ℕ × Capability → Bool) → Table ℕ Capability → ℕ → Type 0
RowOf p t id =
    (cap : Capability) × (i : ℕ) × (get_elem? t i ≡ some (id, cap)) × (p (id, cap) ≡ true)

RowOf-cons :
    (p : ℕ × Capability → Bool) (r : ℕ × Capability) (t : Table ℕ Capability) (id : ℕ)
    → RowOf p t id
    → RowOf p (r ∷ t) id
RowOf-cons p r t id (cap, i, at, yes_) = (cap, suc i, at, yes_)

-- What is among the selected ids is the id of a row that meets the test.
selected-RowOf :
    (p : ℕ × Capability → Bool) (t : Table ℕ Capability) (i id : ℕ)
    → get_elem? (map (λ r. r.0) (select p t)) i ≡ some id
    → RowOf p t id
selected-RowOf p [] i id h = absurd (cc)
selected-RowOf p ((j, c) ∷ t) zero id h = elim (Bool-cases (p (j, c))) [
  | inl e ↦
      let same : j ≡ id = some-injective j id (rw e at h) in
      (c, 0, ap (λ k. some (k, c)) same, ap (λ k. p (k, c)) (sym same) ∙ e)
  | inr e ↦ RowOf-cons p (j, c) t id (selected-RowOf p t zero id (rw e at h))
]
selected-RowOf p ((j, c) ∷ t) (suc i) id h = elim (Bool-cases (p (j, c))) [
  | inl e ↦ RowOf-cons p (j, c) t id (selected-RowOf p t i id (rw e at h))
  | inr e ↦ RowOf-cons p (j, c) t id (selected-RowOf p t (suc i) id (rw e at h))
]

-- A row written is selected where it meets the test.
select-put :
    (p : ℕ × Capability → Bool) (k : ℕ) (c : Capability) (t : Table ℕ Capability)
    → p (k, c) ≡ true
    → (id : ℕ) × (rest : List ℕ) × (map (λ r. r.0) (select p (put k c t)) ≡ id ∷ rest)
unfolding put
select-put p k c [] h = rw h (k, [], refl)
select-put p k c ((j, d) ∷ t) h = elim (Bool-cases (nat_beq j k)) [
  | inl e ↦ rw e (rw h (k, _, refl))
  | inr e ↦ rw e (elim (Bool-cases (p (j, d))) [
    | inl f ↦ rw f (j, _, refl)
    | inr f ↦ rw f (select-put p k c t h)
  ])
]

-- A capability that was recorded under an id other than 0 makes the lookup by its creator and type, in
-- any letter case, find something, whichever of the matching rows SQLite gives first; and the id found
-- is that of a stored row with this creator and this type, in lower case.
pub is_capability_registered-record_capability :
    (first_row : List ℕ → Option ℕ) (id : ℕ) (creator creator' type type' : Text) (bond : ℕ)
    (cid : Text) (certified : Bool) (now : Text) (ix : Index)
    → IsFirstRow first_row
    → 0 < id
    → to_lower creator' ≡ to_lower creator
    → to_lower type' ≡ to_lower type
    → let recorded = record_capability id creator bond type cid certified now ix in
      (found : ℕ) × (cap : Capability) × (i : ℕ) × (is_capability_registered first_row creator'
          type' recorded
        ≡ some found)
      × (get_elem? recorded.capabilities i ≡ some (found, cap))
      × (cap.creator ≡ to_lower creator)
      × (cap.capability_type ≡ to_lower type)
unfolding is_capability_registered record_capability is_registration
is_capability_registered-record_capability first_row id creator creator' type type' bond cid
      certified now ix first h c t =
    let p = is_registration (to_lower creator) (to_lower type) in
    let row : Capability = record {
      creator = to_lower creator;
      bond = bond;
      capability_type = to_lower type;
      metadata_cid = cid;
      certified = certified;
      slashed = false;
      registered_at = now;
    } in
    let matches : p (id, row) ≡ true =
      ground (arith, eq_refl (to_lower creator), eq_refl (to_lower type)) in
    elim (Bool-cases (nat_beq id 0)) [
      | inl e ↦ absurd (ground arith)
      | inr e ↦
          let (head, rest, shape) = select-put p id row ix.capabilities matches in
          let (found, i, gives, at) = first.gives head rest in
          let (cap, j, there, same) =
            selected-RowOf p (put id row ix.capabilities) i found (rw (sym shape) at at) in
          rw (e, c, t)
            (
              found,
              cap,
              j,
              ap first_row shape ∙ gives,
              there,
              ground (arith, same, text_eq.equal_iff cap.creator (to_lower creator)),
              ground (arith, same, text_eq.equal_iff cap.capability_type (to_lower type)),
            )
    ]
