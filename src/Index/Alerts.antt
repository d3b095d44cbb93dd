-- ===== src/Index/Alerts.antt =====
-- The `alerts` table of packages/backend/src/index_db.ts. A number argument of JavaScript is read
-- as its `Math.floor` and whether a fraction was cut off, or as not finite.
pub mod Numbered
pub mod Retention
pub mod Recording
use taop_protocol.Prelude.{
  ℕ, zero, suc, ◌+◌, ◌-◌, ◌≡◌, Bool, true, false, not, ◌&&◌, ◌||◌, List, [], ◌∷◌, ◌++◌, Text,
  Option, none, some, arith, Eq, ◌==◌, ltb, leb, nat_beq, if◌then◌else◌, take, drop, select, count,
  length, min, max, text_eq, nat_eq,
}
use taop_protocol.Prelude.Int.{ℤ, pos, negsuc}
use taop_protocol.Sort.{sort_by, by_key, by_key_desc}
use taop_protocol.Index.{Index, Alert, Payload}
use mathlib.Core.Bool.{false≢true}

pub data Number : Type 0 where
  finite : ℤ → Bool → Number
  not_finite : Number

-- Math.floor, where it fits a count: below 0 it is 0.
abbrev pub floor_ℕ : ℤ → ℕ
floor_ℕ (pos n) = n
floor_ℕ (negsuc n) = 0

-- `keep <= 0`
abbrev pub is_nonpositive : ℤ → Bool → Bool
is_nonpositive (pos n) fraction = nat_beq n 0 && not fraction
is_nonpositive (negsuc n) fraction = true

-- The clamp of a page size into 1 .. 500, 50 where the argument is not a finite number.
unfoldable pub safe_limit : Number → ℕ
safe_limit (finite n fraction) = min (max (floor_ℕ n) 1) 500
safe_limit not_finite = 50

-- The test of the INSERT's NOT EXISTS: the same transaction, kind and block.
unfoldable pub alert_exists : Text → Text → ℕ → List Alert → Bool
alert_exists tx_hash kind block_number [] = false
alert_exists tx_hash kind block_number (a ∷ rest) =
    (a.tx_hash == tx_hash) && (a.kind == kind) && (a.block_number == block_number)
    || alert_exists tx_hash kind block_number rest

-- recordAlert; `created_at` is the clock's `new Date().toISOString()`.
unfoldable pub record_alert : Text → ℕ → Text → Payload → Text → Index → Index
record_alert kind block_number tx_hash payload created_at ix =
    if alert_exists tx_hash kind block_number ix.alerts then ix else record ix {
      alerts =
          ix.alerts
          ++ record {
            id = ix.alerts_seq + 1;
            kind = kind;
            block_number = block_number;
            tx_hash = tx_hash;
            payload = payload;
            created_at = created_at;
          }
            ∷ [];
      alerts_seq = ix.alerts_seq + 1;
    }

-- ORDER BY id DESC LIMIT safeLimit
unfoldable pub list_alerts : Number → Index → List Alert
list_alerts limit ix = take (safe_limit limit) (sort_by (by_key_desc (λ a. a.id)) ix.alerts)

-- WHERE id > after_id ORDER BY id ASC LIMIT safeLimit
unfoldable pub list_alerts_after : ℕ → Number → Index → List Alert
list_alerts_after after_id limit ix =
    take (safe_limit limit)
      (sort_by (by_key (λ a. a.id)) (select (λ a. ltb after_id a.id) ix.alerts))

unfoldable pub count_alerts_after : ℕ → Index → ℕ
count_alerts_after after_id ix = count (λ a. ltb after_id a.id) ix.alerts

-- The id of `LIMIT 1 OFFSET keep`.
unfoldable pub first_id : List Alert → Option ℕ
first_id [] = none
first_id (a ∷ rest) = some a.id

-- DELETE FROM alerts WHERE id <= cutoff, with `info.changes`.
unfoldable pub delete_alerts_up_to : ℕ → Index → Index × ℕ
delete_alerts_up_to cutoff ix = (
  record ix { alerts = select (λ a. ltb cutoff a.id) ix.alerts },
  count (λ a. leb a.id cutoff) ix.alerts,
)

-- The cutoff row, as `pruneAlerts` reads it.
unfoldable pub cutoff_id : ℕ → Index → Option ℕ
unfolding first_id
cutoff_id keep ix = first_id (drop keep (sort_by (by_key_desc (λ a. a.id)) ix.alerts))

unfoldable pub prune_alerts : Number → ℕ → Index → Index × ℕ
unfolding delete_alerts_up_to
prune_alerts not_finite keep_above_id ix = (ix, 0)
prune_alerts (finite keep fraction) keep_above_id ix =
    if is_nonpositive keep fraction then (ix, 0) else elim (cutoff_id (floor_ℕ keep) ix) [
      | none ↦ (ix, 0)
      | some id ↦
          let cutoff = min id keep_above_id in
          if leb cutoff 0 then (ix, 0) else delete_alerts_up_to cutoff ix
    ]
