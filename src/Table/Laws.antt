-- ===== src/Table/Laws.antt =====
-- What a lookup finds after each statement.
use taop_protocol.Prelude.{
  ◌≡◌, refl, Option, none, some, [], ◌∷◌, arith, Eq, ◌==◌, if◌then◌else◌, Option-cases, inl, inr,
}
use taop_protocol.Table.{Table, find, put, delete, update, upsert, insert_or_ignore}
use mathlib.Core.Option

-- The row that an upsert leaves under its key.
abbrev pub merged {κ} : {V : Type κ} → V → (V → V) → Option V → V
merged v merge none = v
merged v merge (some w) = merge w

module _ {ℓ κ} {K : Type ℓ} {V : Type κ} ⦃e : Eq K⦄ where
  pub find-put :
      (k j : K) (v : V) (t : Table K V) → find j (put k v t) ≡ (if k == j then some v else find j t)
  unfolding find put
  find-put k j v [] = refl
  find-put k j v ((i, w) ∷ t) =
      ground (arith, e.equal_iff k j, e.equal_iff i k, e.equal_iff i j, find-put k j v t)

  pub find-delete :
      (k j : K) (t : Table K V) → find j (delete k t) ≡ (if k == j then none else find j t)
  unfolding find delete
  find-delete k j [] = ground arith
  find-delete k j ((i, w) ∷ t) =
      ground (arith, e.equal_iff k j, e.equal_iff i k, e.equal_iff i j, find-delete k j t)

  pub find-update :
      (k j : K) (f : V → V) (t : Table K V)
      → find j (update k f t) ≡ (if k == j then Option.map f (find j t) else find j t)
  unfolding find update
  find-update k j f [] = ground arith
  find-update k j f ((i, w) ∷ t) =
      ground (arith, e.equal_iff k j, e.equal_iff i k, e.equal_iff i j, find-update k j f t)

  pub upsert-eq-put :
      (k : K) (v : V) (merge : V → V) (t : Table K V)
      → upsert k v merge t ≡ put k (merged v merge (find k t)) t
  unfolding upsert
  upsert-eq-put k v merge t = elim (Option-cases (find k t)) [
    | inl e ↦ rw (e, upsert)
    | inr (w, e) ↦ rw (e, upsert)
  ]

  pub find-upsert :
      (k j : K) (v : V) (merge : V → V) (t : Table K V)
      → find j (upsert k v merge t)
        ≡ (if k == j then some (merged v merge (find k t)) else find j t)
  find-upsert k j v merge t = rw upsert-eq-put (find-put k j _ t)

  pub find-insert_or_ignore :
      (k j : K) (v : V) (t : Table K V)
      → find j (insert_or_ignore k v t)
        ≡ (if k == j then some (merged v (λ w. w) (find k t)) else find j t)
  unfolding insert_or_ignore
  find-insert_or_ignore k j v t = elim (Option-cases (find k t)) [
    | inl e ↦ rw (e, insert_or_ignore) (find-put k j v t)
    | inr (w, h) ↦ ground (arith, h, e.equal_iff k j)
  ]
