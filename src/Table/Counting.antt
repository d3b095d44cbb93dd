-- ===== src/Table/Counting.antt =====
-- How many rows meet a test, before and after each statement.
use taop_protocol.Prelude.{
  ℕ, ◌+◌, ◌≡◌, refl, Bool, Option, none, some, [], ◌∷◌, arith, Eq, ◌==◌, bit, count, Bool-cases,
  inl, inr,
}
use taop_protocol.Table.{Table, find, put, delete}
use taop_protocol.Table.Laws.{find-put, find-delete}

module _ {ℓ κ} {K : Type ℓ} {V : Type κ} where
  -- SELECT COUNT(*) … WHERE the test holds
  abbrev pub count_rows : (K → V → Bool) → Table K V → ℕ
  count_rows p = count (λ r. p r.0 r.1)

  abbrev pub bit_row : (K → V → Bool) → K → Option V → ℕ
  bit_row p k none = 0
  bit_row p k (some v) = bit (p k v)

module _ {ℓ κ} {K : Type ℓ} {V : Type κ} ⦃e : Eq K⦄ where
  -- A primary key names at most one row.
  abbrev pub IsKeyed : Table K V → Type κ
  IsKeyed [] = Unit
  IsKeyed ((k, v) ∷ t) = (find k t ≡ none) × IsKeyed t

  pub put-IsKeyed : (k : K) (v : V) (t : Table K V) → IsKeyed t → IsKeyed (put k v t)
  unfolding put find
  put-IsKeyed k v [] h = (refl, tt)
  put-IsKeyed k v ((i, w) ∷ t) h = elim (Bool-cases (i == k)) [
    | inl hit ↦ rw hit (ground (arith, (e.equal_iff i k).0 hit, h), h.1)
    | inr miss ↦ rw miss (
      rw (find-put k i v t) (ground (arith, e.equal_iff i k, e.equal_iff k i, h.0)),
      put-IsKeyed k v t h.1,
    )
  ]

  pub delete-IsKeyed : (k : K) (t : Table K V) → IsKeyed t → IsKeyed (delete k t)
  unfolding delete find
  delete-IsKeyed k [] h = tt
  delete-IsKeyed k ((i, w) ∷ t) h = elim (Bool-cases (i == k)) [
    | inl hit ↦ rw hit (delete-IsKeyed k t h.1)
    | inr miss ↦ rw miss (rw (find-delete k i t) (ground (arith, h.0)), delete-IsKeyed k t h.1)
  ]

  pub count-put :
      (p : K → V → Bool) (k : K) (v : V) (t : Table K V)
      → count_rows p (put k v t) + bit_row p k (find k t) ≡ count_rows p t + bit (p k v)
  unfolding put find
  count-put p k v [] = omega arith
  count-put p k v ((i, w) ∷ t) = ground (arith, e.equal_iff i k, count-put p k v t)

  pub count-delete_absent :
      (p : K → V → Bool) (k : K) (t : Table K V)
      → find k t ≡ none
      → count_rows p (delete k t) ≡ count_rows p t
  unfolding delete find
  count-delete_absent p k [] h = refl
  count-delete_absent p k ((i, w) ∷ t) h = ground (arith, count-delete_absent p k t)

  pub count-delete :
      (p : K → V → Bool) (k : K) (t : Table K V)
      → IsKeyed t
      → count_rows p (delete k t) + bit_row p k (find k t) ≡ count_rows p t
  unfolding delete find
  count-delete p k [] h = omega arith
  count-delete p k ((i, w) ∷ t) h =
      ground (arith, e.equal_iff i k, count-delete p k t h.1, count-delete_absent p k t)
