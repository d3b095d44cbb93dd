-- ===== src/Index/Alerts/Recording.antt =====
-- `recordAlert` of packages/backend/src/index_db.ts, called twice.
use taop_protocol.Prelude.{
  ℕ, ◌≡◌, true, ◌&&◌, ◌||◌, List, [], ◌∷◌, ◌++◌, Text, arith, ◌==◌, eq_refl, text_eq, nat_eq,
  Bool-cases, inl, inr,
}
use taop_protocol.Index.{Index, Alert, Payload}
use taop_protocol.Index.Alerts.{alert_exists, record_alert}

alert_exists-append :
    (t k : Text) (b : ℕ) (xs : List Alert) (a : Alert)
    → alert_exists t k b (xs ++ a ∷ [])
      ≡ (alert_exists t k b xs || ((a.tx_hash == t) && (a.kind == k) && (a.block_number == b)))
unfolding alert_exists
alert_exists-append t k b [] a = ground arith
alert_exists-append t k b (x ∷ xs) a = ground (arith, alert_exists-append t k b xs a)

-- Once recorded, an alert of this transaction, kind and block is there.
alert_exists-record_alert :
    (kind : Text) (b : ℕ) (tx : Text) (payload : Payload) (at : Text) (ix : Index)
    → alert_exists tx kind b (record_alert kind b tx payload at ix).alerts ≡ true
unfolding record_alert
alert_exists-record_alert kind b tx payload at ix =
    elim (Bool-cases (alert_exists tx kind b ix.alerts)) [
      | inl e ↦ rw e e
      | inr e ↦ rw e (rw alert_exists-append (ground (arith, e, eq_refl tx, eq_refl kind)))
    ]

-- Recording an alert again, with whatever payload and time, changes nothing: a poll that is repeated
-- does not duplicate its alerts.
record_alert_again :
    (kind : Text) (block : ℕ) (tx : Text) (payload payload' : Payload) (at at' : Text) (ix : Index)
    → record_alert kind block tx payload' at' (record_alert kind block tx payload at ix)
      ≡ record_alert kind block tx payload at ix
unfolding record_alert
record_alert_again kind b tx p p' at at' ix =
    rw (alert_exists-record_alert kind b tx p at ix, record_alert)
