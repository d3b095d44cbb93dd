-- ===== src/Metrics/Within.antt =====
-- Tables of packages/backend/src/metrics.ts whose keys are in a list.
use taop_protocol.Prelude.{
  suc, ◌≤◌, ◌≡◌, true, false, not, List, [], ◌∷◌, Text, none, ◌==◌, text_eq, text_beq_iff, arith,
  length, select, All, Bool-cases, inl, inr,
}
use taop_protocol.Table.{Table, find, put, update}
use taop_protocol.Table.Counting.{IsKeyed}
use taop_protocol.Metrics.{is_member}

abbrev remove : Text → List Text → List Text
remove k = select (λ x. not (x == k))

remove-member :
    (x k : Text) (l : List Text)
    → (x == k) ≡ false
    → is_member x l ≡ true
    → is_member x (remove k l) ≡ true
unfolding is_member
remove-member x k [] miss h = h
remove-member x k (y ∷ l) miss h =
    ground (
      arith,
      text_beq_iff y x,
      text_beq_iff y k,
      text_beq_iff x k,
      remove-member x k l miss,
      miss,
      h,
    )

length-remove : (k : Text) (l : List Text) → length (remove k l) ≤ length l
length-remove k [] = omega arith
length-remove k (y ∷ l) = ground (arith, length-remove k l)

length-remove_member :
    (k : Text) (l : List Text) → is_member k l ≡ true → suc (length (remove k l)) ≤ length l
unfolding is_member
length-remove_member k [] h = absurd (cc)
length-remove_member k (y ∷ l) h = ground (arith, length-remove k l, length-remove_member k l, h)

module _ {V : Type 0} where
  abbrev pub Within : List Text → Table Text V → Type 0
  Within l = All (λ r. is_member r.0 l ≡ true)

  Within-remove :
      (k : Text) (l : List Text) (t : Table Text V)
      → find k t ≡ none
      → Within l t
      → Within (remove k l) t
  unfolding find
  Within-remove k l [] h w = tt
  Within-remove k l ((i, v) ∷ t) h w = elim (Bool-cases (i == k)) [
    | inl e ↦ absurd (let g = rw e at h in cc)
    | inr e ↦ (remove-member i k l e w.0, Within-remove k l t (rw e at h) w.1)
  ]

  -- As many rows as there are keys, at most.
  pub length-Within :
      (l : List Text) (t : Table Text V) → IsKeyed t → Within l t → length t ≤ length l
  length-Within l [] k w = omega arith
  length-Within l ((i, v) ∷ t) k w = omega (
    arith,
    length-Within (remove i l) t k.1 (Within-remove i l t k.0 w.1),
    length-remove_member i l w.0,
  )

  pub Within-put :
      (l : List Text) (k : Text) (v : V) (t : Table Text V)
      → is_member k l ≡ true
      → Within l t
      → Within l (put k v t)
  unfolding put
  Within-put l k v [] m w = (m, tt)
  Within-put l k v ((i, u) ∷ t) m w = elim (Bool-cases (i == k)) [
    | inl e ↦ rw e (m, w.1)
    | inr e ↦ rw e (w.0, Within-put l k v t m w.1)
  ]

  pub Within-update :
      (l : List Text) (k : Text) (f : V → V) (t : Table Text V)
      → Within l t
      → Within l (update k f t)
  unfolding update
  Within-update l k f [] w = tt
  Within-update l k f ((i, u) ∷ t) w = elim (Bool-cases (i == k)) [
    | inl e ↦ rw e w
    | inr e ↦ rw e (w.0, Within-update l k f t w.1)
  ]

pub member-cons : (x y : Text) (l : List Text) → is_member x l ≡ true → is_member x (y ∷ l) ≡ true
unfolding is_member
member-cons x y l h = ground (arith, h)

pub member-head : (x : Text) (l : List Text) → is_member x (x ∷ l) ≡ true
unfolding is_member
member-head x l = ground (arith, text_beq_iff x x)
