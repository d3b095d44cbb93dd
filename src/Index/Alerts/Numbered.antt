-- ===== src/Index/Alerts/Numbered.antt =====
-- The ids of the alerts, as AUTOINCREMENT gives them.
use taop_protocol.Prelude.{
  ℕ, ◌+◌, ◌≤◌, ◌<◌, ◌≡◌, refl, List, [], ◌∷◌, ◌++◌, Text, Bool, arith, nat_beq, count, select, All,
  count-append, Bool-cases, inl, inr,
}
use taop_protocol.Index.{Index, Alert, Payload}
use taop_protocol.Index.Alerts.{alert_exists, record_alert}

-- Each id names one alert, and lies in 1 .. `top`.
pub record IsNumbered (top : ℕ) (alerts : List Alert) : Type 0 where
  pub once : (n : ℕ) → count (λ a. nat_beq a.id n) alerts ≤ 1
  pub within : All (λ a. (0 < a.id) × (a.id ≤ top)) alerts

abbrev Within : ℕ → List Alert → Type 0
Within top = All (λ a. (0 < a.id) × (a.id ≤ top))

count_above :
    (top n : ℕ) (xs : List Alert) → Within top xs → top < n → count (λ a. nat_beq a.id n) xs ≡ 0
count_above top n [] h p = refl
count_above top n (x ∷ xs) h p = ground (arith, count_above top n xs h.1, h.0)

Within-append :
    (top : ℕ) (xs : List Alert) (a : Alert)
    → Within top xs
    → a.id ≡ top + 1
    → Within (top + 1) (xs ++ a ∷ [])
Within-append top [] a h e = ((omega arith, omega arith), tt)
Within-append top (x ∷ xs) a h e = ((h.0.0, omega (arith, h.0.1)), Within-append top xs a h.1 e)

pub Within-select :
    (top : ℕ) (p : Alert → Bool) (xs : List Alert) → Within top xs → Within top (select p xs)
Within-select top p [] h = tt
Within-select top p (x ∷ xs) h = elim (Bool-cases (p x)) [
  | inl e ↦ rw e (h.0, Within-select top p xs h.1)
  | inr e ↦ rw e (Within-select top p xs h.1)
]

count-select-le : (p q : Alert → Bool) (xs : List Alert) → count q (select p xs) ≤ count q xs
count-select-le p q [] = omega arith
count-select-le p q (x ∷ xs) = ground (arith, count-select-le p q xs)

-- Deleting by any test keeps the numbering.
pub IsNumbered-select :
    (top : ℕ) (p : Alert → Bool) (xs : List Alert)
    → IsNumbered top xs
    → IsNumbered top (select p xs)
IsNumbered-select top p xs v = record {
  once = λ n. omega (arith, count-select-le p (λ a. nat_beq a.id n) xs, v.once n);
  within = Within-select top p xs v.within;
}

IsNumbered-append :
    (top : ℕ) (xs : List Alert) (a : Alert)
    → IsNumbered top xs
    → a.id ≡ top + 1
    → IsNumbered (top + 1) (xs ++ a ∷ [])
IsNumbered-append top xs a v e = record {
  once = λ n.
      rw (count-append (λ a. nat_beq a.id n) xs (a ∷ []))
        (ground (arith, v.once n, count_above top n xs v.within));
  within = Within-append top xs a v.within e;
}

pub record_alert-IsNumbered :
    (kind : Text) (b : ℕ) (tx : Text) (payload : Payload) (at : Text) (ix : Index)
    → IsNumbered ix.alerts_seq ix.alerts
    → IsNumbered
        (record_alert kind b tx payload at ix).alerts_seq
        (record_alert kind b tx payload at ix).alerts
unfolding record_alert
record_alert-IsNumbered kind b tx payload at ix v =
    elim (Bool-cases (alert_exists tx kind b ix.alerts)) [
      | inl e ↦ rw e v
      | inr e ↦ rw e (IsNumbered-append ix.alerts_seq ix.alerts _ v refl)
    ]
