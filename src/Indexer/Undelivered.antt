-- ===== src/Indexer/Undelivered.antt =====
-- What a poll does to the alerts that the dispatcher has not delivered yet: the events and ranges.
pub mod Polls
use taop_protocol.Prelude.{
  ℕ, zero, suc, ◌≡◌, refl, sym, ap, ◌∙◌, true, false, List, [], ◌∷◌, ◌++◌, Text, Option, none, some,
  inl, inr, to_lower, arith, Bool-cases, Option-cases, ltb, min, if◌then◌else◌,
}
use mathlib.Core.List.{append_assoc, append-nil}
use taop_protocol.Table.{Table, find}
use taop_protocol.Sort.{sort_by}
use taop_protocol.Index.{Index, Alert, Payload, AgentScore, last_id_key, meta_key_eq}
use taop_protocol.Index.Alerts.{record_alert, alert_exists}
use taop_protocol.Index.Logs.{mark_indexed, already_indexed}
use taop_protocol.Index.Scores.{Delta, minus_one, plus_one, bump_agent, bump_counterparty}
use taop_protocol.Index.Receipts.{
  get_receipt_agent, get_receipt_counterparty, get_completion_agent, record_indexed_completion,
  set_agent_identity, add_receipt_index, delete_receipt_index,
}
use taop_protocol.Index.Capabilities.{
  upsert_indexed_capability, certify_indexed_capability, slash_indexed_capability,
  delete_indexed_capability,
}
use taop_protocol.Indexer.{
  Chain, Log, Result, ok, err, RegistryEvent, RonEvent, capability_registered, capability_certified,
  capability_slashed, bond_withdrawn, certifier_changed, self_attested, receipt_attested,
  receipt_revoked, challenge_submitted, challenge_resolved, challenge_cancelled, agent_registered,
  Result-cases,
}
use taop_protocol.Indexer.Events.{
  alert, apply_registry_event, apply_ron_event, attest_receipt, revoke_receipt, uphold_challenge,
  truthy, when_some, one_unconfirmed, one_dispute,
}
use taop_protocol.Indexer.Range.{
  mark_log, after_registry_event, apply_registry_log, apply_ron_log, is_registry, apply_log,
  block_ts, apply_logs, index_range, log_order,
}

-- The alerts of `b` are those of `a` and later ones, and both have one delivery cursor.
pub record Grown (a b : Index) : Type 0 where
  pub more : List Alert
  pub alerts : b.alerts ≡ a.alerts ++ more
  pub cursor : find last_id_key b.meta ≡ find last_id_key a.meta

pub Grown-same : (a b : Index) → b.alerts ≡ a.alerts → b.meta ≡ a.meta → Grown a b
Grown-same a b e m = record {
  more = [];
  alerts = e ∙ sym (append-nil a.alerts);
  cursor = ap (find last_id_key) m;
}

pub Grown-trans : {a b c : Index} → Grown a b → Grown b c → Grown a c
Grown-trans {a} {b} {c} u v = record {
  more = u.more ++ v.more;
  alerts = v.alerts ∙ ap (λ xs. xs ++ v.more) u.alerts ∙ append_assoc a.alerts u.more v.more;
  cursor = v.cursor ∙ u.cursor;
}

record_alert-Grown :
    (kind : Text) (b : ℕ) (tx : Text) (payload : Payload) (at : Text) (ix : Index)
    → Grown ix (record_alert kind b tx payload at ix)
unfolding record_alert
record_alert-Grown kind b tx payload at ix = elim (Bool-cases (alert_exists tx kind b ix.alerts)) [
  | inl e ↦ rw e (Grown-same ix ix refl refl)
  | inr e ↦ rw e (record { more = _; alerts = refl; cursor = refl })
]

bump_counterparty-Grown :
    (agent cp : Text) (d : Delta) (ix : Index) → Grown ix (bump_counterparty agent cp d ix)
unfolding bump_counterparty
bump_counterparty-Grown agent cp d ix = Grown-same ix _ (ground arith) (ground arith)

bump_agent-Grown : (agent : Text) (d : AgentScore) (ix : Index) → Grown ix (bump_agent agent d ix)
unfolding bump_agent
bump_agent-Grown agent d ix = Grown-same ix _ refl refl

delete_receipt-Grown : (id : ℕ) (ix : Index) → Grown ix (delete_receipt_index id ix)
unfolding delete_receipt_index
delete_receipt-Grown id ix = Grown-same ix _ refl refl

when_some-Grown :
    (o : Option Text) (step : Text → Index → Index) (ix : Index)
    → ((a : Text) → Grown ix (step a ix))
    → Grown ix (when_some (truthy o) step ix)
when_some-Grown none step ix f = Grown-same ix ix refl refl
when_some-Grown (some []) step ix f = Grown-same ix ix refl refl
when_some-Grown (some (c ∷ cs)) step ix f = f (c ∷ cs)

attest_receipt-Grown :
    (id : ℕ) (agent cp : Text) (ts : ℕ) (ix : Index) → Grown ix (attest_receipt id agent cp ts ix)
unfolding attest_receipt add_receipt_index bump_agent
attest_receipt-Grown id agent cp ts ix =
    Grown-trans (Grown-same ix _ refl refl) (bump_counterparty-Grown agent cp plus_one _)

revoke_receipt-Grown : (id : ℕ) (ix : Index) → Grown ix (revoke_receipt id ix)
unfolding revoke_receipt
revoke_receipt-Grown id ix =
    Grown-trans
      (Grown-trans
        (when_some-Grown (get_receipt_agent id ix) _ ix
          (λ a. bump_agent-Grown a one_unconfirmed ix))
        (when_some-Grown (get_receipt_agent id ix) _ _ (λ a.
          when_some-Grown (get_receipt_counterparty id ix) _ _
            (λ cp. bump_counterparty-Grown a cp minus_one _))))
      (delete_receipt-Grown id _)

uphold_challenge-Grown : (id : ℕ) (ix : Index) → Grown ix (uphold_challenge id ix)
unfolding uphold_challenge
uphold_challenge-Grown id ix = when_some-Grown (get_completion_agent id ix) _ ix (λ agent.
    Grown-trans (bump_agent-Grown agent one_dispute ix) (
      when_some-Grown (get_receipt_counterparty id (bump_agent agent one_dispute ix)) _ _ (λ cp.
        Grown-trans (bump_agent-Grown agent one_unconfirmed _) (
          Grown-trans (bump_counterparty-Grown agent cp minus_one _) (delete_receipt-Grown id _)))))

abbrev pub GrownResult : Index → Result Index → Type 0
GrownResult ix (ok ix') = Grown ix ix'
GrownResult ix (err e) = Unit

module _ (chain : Chain) (log : Log) where
  alert-Grown :
      (kind : Text) (payload : Payload) (ix : Index) → Grown ix (alert chain log kind payload ix)
  unfolding alert
  alert-Grown kind payload ix = record_alert-Grown kind _ _ payload _ ix

  apply_ron_event-Grown :
      (e : RonEvent) (ts : ℕ) (ix : Index) → Grown ix (apply_ron_event chain log e ts ix)
  unfolding apply_ron_event record_indexed_completion set_agent_identity bump_agent
  apply_ron_event-Grown (self_attested id agent task) ts ix = Grown-same ix _ refl refl
  apply_ron_event-Grown (receipt_attested id agent cp) ts ix = attest_receipt-Grown id _ _ ts ix
  apply_ron_event-Grown (receipt_revoked id cp) ts ix = revoke_receipt-Grown id ix
  apply_ron_event-Grown (challenge_submitted id challenger) ts ix = alert-Grown _ _ ix
  apply_ron_event-Grown (challenge_resolved id true) ts ix =
      Grown-trans (alert-Grown _ _ ix) (uphold_challenge-Grown id _)
  apply_ron_event-Grown (challenge_resolved id false) ts ix = alert-Grown _ _ ix
  apply_ron_event-Grown (challenge_cancelled id challenger) ts ix = alert-Grown _ _ ix
  apply_ron_event-Grown (RonEvent.eth_pool_withdrawn to amount) ts ix = alert-Grown _ _ ix
  apply_ron_event-Grown (agent_registered agent cid) ts ix = Grown-same ix _ refl refl
  apply_ron_event-Grown (RonEvent.paused account) ts ix = alert-Grown _ _ ix
  apply_ron_event-Grown (RonEvent.unpaused account) ts ix = alert-Grown _ _ ix

  apply_registry_event-Grown :
      (e : RegistryEvent) (ts : ℕ) (ix : Index)
      → GrownResult ix (apply_registry_event chain log e ts ix)
  unfolding apply_registry_event upsert_indexed_capability certify_indexed_capability
      slash_indexed_capability delete_indexed_capability
  apply_registry_event-Grown (capability_registered id creator) ts ix =
      elim (Result-cases (chain.get_capability id)) [
        | inl (m, e) ↦ rw e tt
        | inr (cap, e) ↦ rw e (Grown-same ix _ refl refl)
      ]
  apply_registry_event-Grown (capability_certified id certifier) ts ix = Grown-same ix _ refl refl
  apply_registry_event-Grown (capability_slashed id penalty) ts ix =
      Grown-trans (Grown-same ix _ refl refl) (alert-Grown _ _ _)
  apply_registry_event-Grown (bond_withdrawn id to amount) ts ix =
      Grown-trans (Grown-same ix _ refl refl) (alert-Grown _ _ _)
  apply_registry_event-Grown (RegistryEvent.eth_pool_withdrawn to amount) ts ix = alert-Grown _ _ ix
  apply_registry_event-Grown (certifier_changed previous next) ts ix = alert-Grown _ _ ix
  apply_registry_event-Grown (RegistryEvent.paused account) ts ix = alert-Grown _ _ ix
  apply_registry_event-Grown (RegistryEvent.unpaused account) ts ix = alert-Grown _ _ ix

mark_log-Grown : (log : Log) (ix : Index) → Grown ix (mark_log log ix)
unfolding mark_log mark_indexed
mark_log-Grown log ix = Grown-same ix _ refl refl

after-Grown :
    (chain : Chain) (log : Log) (ix : Index) (r : Result Index)
    → GrownResult ix r
    → Grown ix (after_registry_event chain log ix r)
unfolding after_registry_event
after-Grown chain log ix (ok ix') w = Grown-trans w (mark_log-Grown log ix')
after-Grown chain log ix (err e) w = Grown-same ix ix refl refl

module _ (chain : Chain) where
  apply_log-Grown : (log : Log) (ts : ℕ) (ix : Index) → Grown ix (apply_log chain log ts ix)
  unfolding apply_log apply_registry_log apply_ron_log
  apply_log-Grown log ts ix = elim (Bool-cases (is_registry chain log)) [
    | inl e ↦ rw e (elim (Option-cases (chain.parse_registry_log log)) [
      | inl n ↦ rw (n, apply_registry_log) (mark_log-Grown log ix)
      | inr (p, n) ↦
          rw (n, apply_registry_log)
            (after-Grown chain log ix _ (apply_registry_event-Grown chain log p ts ix))
    ])
    | inr e ↦ rw e (elim (Option-cases (chain.parse_ron_log log)) [
      | inl n ↦ rw (n, apply_ron_log) (mark_log-Grown log ix)
      | inr (p, n) ↦
          rw (n, apply_ron_log)
            (Grown-trans (apply_ron_event-Grown chain log p ts ix) (mark_log-Grown log _))
    ])
  ]

  apply_logs-Grown : (logs : List Log) (ix : Index) → Grown ix (apply_logs chain logs ix).0
  unfolding apply_logs
  apply_logs-Grown [] ix = Grown-same ix ix refl refl
  apply_logs-Grown (log ∷ rest) ix =
      elim (Bool-cases (already_indexed log.transaction_hash log.index ix)) [
        | inl e ↦ rw (e, apply_logs) (apply_logs-Grown rest ix)
        | inr e ↦ elim (Result-cases (block_ts chain log.block_number)) [
          | inl (m, n) ↦ rw (e, n, apply_logs) (Grown-same ix ix refl refl)
          | inr (ts, n) ↦
              rw (e, n, apply_logs)
                (Grown-trans (apply_log-Grown log ts ix) (apply_logs-Grown rest _))
        ]
      ]

  pub index_range-Grown : (from to : ℕ) (ix : Index) → Grown ix (index_range chain from to ix).0
  unfolding index_range
  index_range-Grown from to ix = elim (Bool-cases (ltb to from)) [
    | inl e ↦ rw e (Grown-same ix ix refl refl)
    | inr e ↦ rw e (elim (Result-cases (chain.get_logs from to)) [
      | inl (m, n) ↦ rw n (Grown-same ix ix refl refl)
      | inr (logs, n) ↦ rw n (apply_logs-Grown (sort_by log_order logs) ix)
    ])
  ]
