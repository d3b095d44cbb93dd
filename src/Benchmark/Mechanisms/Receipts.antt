-- ===== src/Benchmark/Mechanisms/Receipts.antt =====
-- The confirmations of an agent and its set of raters, of packages/benchmark/src/mechanisms.ts.
use taop_protocol.Prelude.{
  ℕ, suc, ◌≤◌, ◌<◌, ◌≡◌, refl, sym, ◌∙◌, ap, List, [], ◌∷◌, map, some, arith, All, length, nat_beq,
  nat_eq, leb, if◌then◌else◌, Bool-cases, Option-cases, inl, inr,
}
use taop_protocol.Table.{Table, find, put, delete}
use taop_protocol.Benchmark.Mechanisms.{AgentState, remove_confirmation, add_confirmation}
use taop_protocol.Benchmark.Mechanisms.Scoring.{
  sum_counts, confirmed_count, distinct_counterparties,
}

-- The keys of a table, in order.
abbrev pub keys {κ} : {V : Type κ} → Table ℕ V → List ℕ
keys = map (λ r. r.0)

unfoldable pub put_key : ℕ → List ℕ → List ℕ
put_key k [] = k ∷ []
put_key k (j ∷ ks) = if nat_beq j k then k ∷ ks else j ∷ put_key k ks

delete_key : ℕ → List ℕ → List ℕ
delete_key k [] = []
delete_key k (j ∷ ks) = if nat_beq j k then delete_key k ks else j ∷ delete_key k ks

pub keys-put {κ} :
    {V : Type κ} (k : ℕ) (v : V) (t : Table ℕ V) → keys (put k v t) ≡ put_key k (keys t)
unfolding put put_key
keys-put k v [] = refl
keys-put k v ((j, w) ∷ t) = elim (Bool-cases (nat_beq j k)) [
  | inl e ↦ rw e refl
  | inr e ↦ rw e (ap (◌∷◌ j) (keys-put k v t))
]

keys-delete {κ} : {V : Type κ} (k : ℕ) (t : Table ℕ V) → keys (delete k t) ≡ delete_key k (keys t)
unfolding delete delete_key
keys-delete k [] = refl
keys-delete k ((j, w) ∷ t) = elim (Bool-cases (nat_beq j k)) [
  | inl e ↦ rw e (keys-delete k t)
  | inr e ↦ rw e (ap (◌∷◌ j) (keys-delete k t))
]

keys-put_present : (k v n : ℕ) (t : Table ℕ ℕ) → find k t ≡ some n → keys (put k v t) ≡ keys t
unfolding put find
keys-put_present k v n [] h = absurd (cc)
keys-put_present k v n ((j, w) ∷ t) h = elim (Bool-cases (nat_beq j k)) [
  | inl e ↦ rw e (ground arith)
  | inr e ↦ rw e (ap (◌∷◌ j) (keys-put_present k v n t (ground arith)))
]

abbrev pub Positive : Table ℕ ℕ → Type 0
Positive = All (λ r. 0 < r.1)

put-Positive : (k n : ℕ) (t : Table ℕ ℕ) → 0 < n → Positive t → Positive (put k n t)
unfolding put
put-Positive k n [] p h = (p, tt)
put-Positive k n ((j, m) ∷ t) p h = elim (Bool-cases (nat_beq j k)) [
  | inl e ↦ rw e (p, h.1)
  | inr e ↦ rw e (h.0, put-Positive k n t p h.1)
]

delete-Positive : (k : ℕ) (t : Table ℕ ℕ) → Positive t → Positive (delete k t)
unfolding delete
delete-Positive k [] h = tt
delete-Positive k ((j, m) ∷ t) h = elim (Bool-cases (nat_beq j k)) [
  | inl e ↦ rw e (delete-Positive k t h.1)
  | inr e ↦ rw e (h.0, delete-Positive k t h.1)
]

-- The raters are the counterparties with a confirmation, and each of these has at least one.
pub record IsRated (a : AgentState) : Type 0 where
  pub aligned : keys a.raters ≡ keys a.confirmations
  pub positive : Positive a.confirmations

pub add_confirmation-IsRated :
    (from : ℕ) (a : AgentState) → IsRated a → IsRated (add_confirmation from a)
unfolding add_confirmation
add_confirmation-IsRated from a v = record {
  aligned =
      rw (keys-put {V = Unit {0}} from tt a.raters, keys-put from _ a.confirmations)
        (ap (put_key from) v.aligned);
  positive = put-Positive from _ a.confirmations (omega arith) v.positive;
}

-- Taking one confirmation drops the rater exactly with its last one.
pub remove_confirmation-IsRated :
    (from : ℕ) (a : AgentState) → IsRated a → IsRated (remove_confirmation from a)
unfolding remove_confirmation
remove_confirmation-IsRated from a v = elim (Option-cases (find from a.confirmations)) [
  | inl e ↦ rw (e, remove_confirmation) v
  | inr (n, e) ↦
      rw (e, remove_confirmation)
        (elim (Bool-cases (leb n 1)) [
          | inl q ↦ rw q (record {
            aligned =
                rw (keys-delete from a.raters, keys-delete from a.confirmations)
                  (ap (delete_key from) v.aligned);
            positive = delete-Positive from a.confirmations v.positive;
          })
          | inr q ↦ rw q (record {
            aligned = v.aligned ∙ sym (keys-put_present from _ n a.confirmations e);
            positive = put-Positive from _ a.confirmations (ground arith) v.positive;
          })
        ])
]

pub keys-length {κ} : {V : Type κ} (t : Table ℕ V) → length (keys t) ≡ length t
keys-length [] = refl
keys-length (r ∷ t) = ap suc (keys-length t)

sum_counts-Positive : (t : Table ℕ ℕ) → Positive t → length t ≤ sum_counts t
unfolding sum_counts
sum_counts-Positive [] h = omega arith
sum_counts-Positive ((k, n) ∷ t) h = omega (arith, h.0, sum_counts-Positive t h.1)

-- So an agent has at least as many confirmations as distinct counterparties.
pub distinct-le-confirmed :
    (a : AgentState) → IsRated a → distinct_counterparties a ≤ confirmed_count a
unfolding distinct_counterparties confirmed_count
distinct-le-confirmed a v = omega (
  arith,
  sym (keys-length {V = Unit {0}} a.raters) ∙ ap length v.aligned ∙ keys-length a.confirmations,
  sum_counts-Positive a.confirmations v.positive,
)
