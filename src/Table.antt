-- ===== src/Table.antt =====
-- A SQLite table with a primary key, as the list of its rows in the order of insertion, and the
-- statements that the backend writes against it (packages/backend/src/index_db.ts and db.ts).
pub mod Laws
pub mod Counting
use taop_protocol.Prelude.{Bool, List, [], ◌∷◌, Option, none, some, Eq, ◌==◌, if◌then◌else◌}

abbrev pub Table {ℓ κ} : Type ℓ → Type κ → Type (ℓ ⊔ κ)
Table K V = List (K × V)

module _ {ℓ κ} {K : Type ℓ} {V : Type κ} ⦃e : Eq K⦄ where
  -- SELECT … WHERE key = k
  unfoldable pub find : K → Table K V → Option V
  find k [] = none
  find k ((j, v) ∷ t) = if j == k then some v else find k t

  -- INSERT OR REPLACE
  unfoldable pub put : K → V → Table K V → Table K V
  put k v [] = (k, v) ∷ []
  put k v ((j, w) ∷ t) = if j == k then (k, v) ∷ t else (j, w) ∷ put k v t

  -- DELETE … WHERE key = k
  unfoldable pub delete : K → Table K V → Table K V
  delete k [] = []
  delete k ((j, w) ∷ t) = let rest = delete k t in if j == k then rest else (j, w) ∷ rest

  -- UPDATE … WHERE key = k
  unfoldable pub update : K → (V → V) → Table K V → Table K V
  update k f [] = []
  update k f ((j, w) ∷ t) = if j == k then (j, f w) ∷ t else (j, w) ∷ update k f t

  -- INSERT … ON CONFLICT(key) DO UPDATE: `merge` sees the stored row.
  unfoldable pub upsert : K → V → (V → V) → Table K V → Table K V
  upsert k v merge t = elim (find k t) [ none ↦ put k v t | some w ↦ put k (merge w) t ]

  -- INSERT OR IGNORE
  unfoldable pub insert_or_ignore : K → V → Table K V → Table K V
  insert_or_ignore k v t = elim (find k t) [ none ↦ put k v t | some w ↦ t ]
