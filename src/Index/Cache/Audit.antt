-- ===== src/Index/Cache/Audit.antt =====
-- The log of the administrators' actions, newest first.
use taop_protocol.Prelude.{
  ℕ, zero, suc, ◌+◌, ◌-◌, ◌≤◌, ◌<◌, ◌≡◌, refl, ap, ◌∙◌, Bool, List, [], ◌∷◌, ◌++◌, Text, Option,
  arith, All, take,
}
use taop_protocol.Table.{Table}
use taop_protocol.Sort.{sort_by, insert_by, by_key_desc}
use taop_protocol.Index.{Index, AdminAction, PayloadValue}
use taop_protocol.Index.Alerts.{Number, safe_limit}
use taop_protocol.Index.Cache.{record_admin_action, list_admin_actions}

abbrev newest_first : AdminAction → AdminAction → Bool
newest_first = by_key_desc (λ a. a.id)

insert_older :
    (x a : AdminAction) (ys : List AdminAction)
    → x.id < a.id
    → insert_by newest_first x (a ∷ ys) ≡ a ∷ insert_by newest_first x ys
unfolding insert_by
insert_older x a ys h = ground arith

-- The row with the greatest id comes first.
sort_newest :
    (a : AdminAction) (xs : List AdminAction)
    → All (λ x. x.id < a.id) xs
    → sort_by newest_first (xs ++ a ∷ []) ≡ a ∷ sort_by newest_first xs
unfolding sort_by insert_by
sort_newest a [] h = refl
sort_newest a (x ∷ xs) h =
    ap (insert_by newest_first x) (sort_newest a xs h.1)
    ∙ insert_older x a (sort_by newest_first xs) h.0

abbrev pub IsLogged : Index → Type 0
IsLogged ix = All (λ a. a.id ≤ ix.admin_actions_seq) ix.admin_actions

take_positive :
    (n : ℕ) (a : AdminAction) (xs : List AdminAction)
    → 0 < n
    → take n (a ∷ xs) ≡ a ∷ take (n - 1) xs
take_positive zero a xs h = absurd (omega arith)
take_positive (suc n) a xs h = let e : suc n - 1 ≡ n = omega arith in rw e refl

safe_limit-positive : (limit : Number) → 0 < safe_limit limit
unfolding safe_limit
safe_limit-positive limit = ground arith

raise : (n m : ℕ) (xs : List AdminAction) → n ≤ m → All (λ a. a.id ≤ n) xs → All (λ a. a.id ≤ m) xs
raise n m [] p h = tt
raise n m (x ∷ xs) p h = (omega (arith, h.0), raise n m xs p h.1)

All-snoc :
    (n : ℕ) (a : AdminAction) (xs : List AdminAction)
    → a.id ≤ n
    → All (λ x. x.id ≤ n) xs
    → All (λ x. x.id ≤ n) (xs ++ a ∷ [])
All-snoc n a [] p h = (p, tt)
All-snoc n a (x ∷ xs) p h = (h.0, All-snoc n a xs p h.1)

strictly_below :
    (n m : ℕ) (xs : List AdminAction) → n < m → All (λ a. a.id ≤ n) xs → All (λ a. a.id < m) xs
strictly_below n m [] p h = tt
strictly_below n m (x ∷ xs) p h = (omega (arith, h.0), strictly_below n m xs p h.1)

module _ (action actor : Text) (tx_hash : Option Text) (detail : Option (Table Text PayloadValue))
    (scheduled executed : Option Bool) (now : Text) (ix : Index) where
  abbrev recorded : Index
  recorded = record_admin_action action actor tx_hash detail scheduled executed now ix

  -- Where the ids of the log are at most its sequence, an action that is recorded gets the next id,
  -- keeps this so, and is the first that the list answers, before those of before.
  pub list_admin_actions-record_admin_action :
      (limit : Number)
      → IsLogged ix
      → (a : AdminAction) × (a.id ≡ ix.admin_actions_seq + 1)
        × (a.action ≡ action)
        × (list_admin_actions limit recorded
            ≡ a ∷ take (safe_limit limit - 1) (sort_by newest_first ix.admin_actions))
        × IsLogged recorded
  unfolding list_admin_actions record_admin_action
  list_admin_actions-record_admin_action limit h = (
    _,
    refl,
    refl,
    ap (take (safe_limit limit)) (
          sort_newest _ ix.admin_actions
            (strictly_below ix.admin_actions_seq _ ix.admin_actions (omega arith) h))
        ∙ take_positive (safe_limit limit) _ _ (safe_limit-positive limit),
    All-snoc _ _ ix.admin_actions (omega arith)
        (raise ix.admin_actions_seq _ ix.admin_actions (omega arith) h),
  )
