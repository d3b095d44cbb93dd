-- ===== src/Indexer/Replay.antt =====
-- The idempotency markers of packages/backend/src/index_db.ts across the events of indexer.ts.
pub mod Ranges
use taop_protocol.Prelude.{
  ℕ, ◌≡◌, refl, sym, ◌∙◌, true, false, [], ◌∷◌, Text, Option, none, some, inl, inr, to_lower, arith,
  Bool-cases,
}
use taop_protocol.Table.{Table}
use taop_protocol.Index.{Index, Payload, AgentScore}
use taop_protocol.Index.Alerts.{record_alert, alert_exists}
use taop_protocol.Index.Scores.{Delta, minus_one, plus_one, bump_agent, bump_counterparty}
use taop_protocol.Index.Receipts.{
  get_receipt_agent, get_receipt_counterparty, get_completion_agent, record_indexed_completion,
  set_agent_identity, add_receipt_index, delete_receipt_index,
}
use taop_protocol.Index.Capabilities.{
  upsert_indexed_capability, certify_indexed_capability, slash_indexed_capability,
  delete_indexed_capability,
}
use taop_protocol.Indexer.{
  Chain, Log, Result, ok, err, RegistryEvent, RonEvent, CapabilityView, capability_registered,
  capability_certified, capability_slashed, bond_withdrawn, certifier_changed, self_attested,
  receipt_attested, receipt_revoked, challenge_submitted, challenge_resolved, challenge_cancelled,
  agent_registered,
}
use taop_protocol.Indexer.Events.{
  alert, apply_registry_event, apply_ron_event, attest_receipt, revoke_receipt, uphold_challenge,
  truthy, when_some, one_unconfirmed, one_dispute, one_confirmed, one_completion,
}

-- Two states of the tables with the same markers.
abbrev pub SameMarks : Index → Index → Type 0
SameMarks a b = a.indexed_logs ≡ b.indexed_logs

record_alert-SameMarks :
    (kind : Text) (b : ℕ) (tx : Text) (payload : Payload) (at : Text) (ix : Index)
    → SameMarks (record_alert kind b tx payload at ix) ix
unfolding record_alert
record_alert-SameMarks kind b tx payload at ix = ground arith

bump_counterparty-SameMarks :
    (agent cp : Text) (d : Delta) (ix : Index) → SameMarks (bump_counterparty agent cp d ix) ix
unfolding bump_counterparty
bump_counterparty-SameMarks agent cp d ix = ground arith

bump_agent-SameMarks :
    (agent : Text) (d : AgentScore) (ix : Index) → SameMarks (bump_agent agent d ix) ix
unfolding bump_agent
bump_agent-SameMarks agent d ix = refl

receipts-SameMarks :
    (id : ℕ) (agent cp : Text) (ts : ℕ) (ix : Index)
    → SameMarks (add_receipt_index id agent cp ts ix) ix × SameMarks (delete_receipt_index id ix) ix
unfolding add_receipt_index delete_receipt_index
receipts-SameMarks id agent cp ts ix = (refl, refl)

when_some-SameMarks :
    (o : Option Text) (step : Text → Index → Index) (ix : Index)
    → ((a : Text) → SameMarks (step a ix) ix)
    → SameMarks (when_some (truthy o) step ix) ix
when_some-SameMarks none step ix f = refl
when_some-SameMarks (some []) step ix f = refl
when_some-SameMarks (some (c ∷ cs)) step ix f = f (c ∷ cs)

attest_receipt-SameMarks :
    (id : ℕ) (agent cp : Text) (ts : ℕ) (ix : Index)
    → SameMarks (attest_receipt id agent cp ts ix) ix
unfolding attest_receipt
attest_receipt-SameMarks id agent cp ts ix =
    bump_counterparty-SameMarks agent cp plus_one _
    ∙ bump_agent-SameMarks agent _ _
    ∙ (receipts-SameMarks id agent cp ts ix).0

revoke_receipt-SameMarks : (id : ℕ) (ix : Index) → SameMarks (revoke_receipt id ix) ix
unfolding revoke_receipt
revoke_receipt-SameMarks id ix =
    (receipts-SameMarks id [] [] 0 _).1
    ∙ when_some-SameMarks (get_receipt_agent id ix) _ _ (λ a.
      when_some-SameMarks (get_receipt_counterparty id ix) _ _
        (λ cp. bump_counterparty-SameMarks a cp minus_one _))
    ∙ when_some-SameMarks (get_receipt_agent id ix) _ ix
        (λ a. bump_agent-SameMarks a one_unconfirmed ix)

uphold_challenge-SameMarks : (id : ℕ) (ix : Index) → SameMarks (uphold_challenge id ix) ix
unfolding uphold_challenge
uphold_challenge-SameMarks id ix = when_some-SameMarks (get_completion_agent id ix) _ ix (λ agent.
    when_some-SameMarks (get_receipt_counterparty id (bump_agent agent one_dispute ix)) _ _ (λ cp.
      (receipts-SameMarks id [] [] 0 _).1
      ∙ bump_counterparty-SameMarks agent cp minus_one _
      ∙ bump_agent-SameMarks agent one_unconfirmed _)
    ∙ bump_agent-SameMarks agent one_dispute ix)

module _ (chain : Chain) (log : Log) where
  alert-SameMarks :
      (kind : Text) (payload : Payload) (ix : Index)
      → SameMarks (alert chain log kind payload ix) ix
  unfolding alert
  alert-SameMarks kind payload ix = record_alert-SameMarks kind _ _ payload _ ix

  pub apply_ron_event-SameMarks :
      (e : RonEvent) (ts : ℕ) (ix : Index) → SameMarks (apply_ron_event chain log e ts ix) ix
  unfolding apply_ron_event record_indexed_completion set_agent_identity
  apply_ron_event-SameMarks (self_attested id agent task) ts ix =
      bump_agent-SameMarks (to_lower agent) _ _
  apply_ron_event-SameMarks (receipt_attested id agent cp) ts ix =
      attest_receipt-SameMarks id _ _ ts ix
  apply_ron_event-SameMarks (receipt_revoked id cp) ts ix = revoke_receipt-SameMarks id ix
  apply_ron_event-SameMarks (challenge_submitted id challenger) ts ix = alert-SameMarks _ _ ix
  apply_ron_event-SameMarks (challenge_resolved id true) ts ix =
      uphold_challenge-SameMarks id _ ∙ alert-SameMarks _ _ ix
  apply_ron_event-SameMarks (challenge_resolved id false) ts ix = alert-SameMarks _ _ ix
  apply_ron_event-SameMarks (challenge_cancelled id challenger) ts ix = alert-SameMarks _ _ ix
  apply_ron_event-SameMarks (RonEvent.eth_pool_withdrawn to amount) ts ix = alert-SameMarks _ _ ix
  apply_ron_event-SameMarks (agent_registered agent cid) ts ix = refl
  apply_ron_event-SameMarks (RonEvent.paused account) ts ix = alert-SameMarks _ _ ix
  apply_ron_event-SameMarks (RonEvent.unpaused account) ts ix = alert-SameMarks _ _ ix

  -- An event of the registry that is applied, where the enrichment call answers.
  pub apply_registry_event-SameMarks :
      ((id : ℕ) → (cap : CapabilityView) × (chain.get_capability id ≡ ok cap))
      → (e : RegistryEvent) (ts : ℕ) (ix : Index)
      → (ix' : Index) × (apply_registry_event chain log e ts ix ≡ ok ix') × SameMarks ix' ix
  unfolding apply_registry_event upsert_indexed_capability certify_indexed_capability
      slash_indexed_capability delete_indexed_capability
  apply_registry_event-SameMarks caps (capability_registered id creator) ts ix =
      let (cap, e) = caps id in
      (
        upsert_indexed_capability id cap.creator cap.bond cap.capability_type cap.metadata_cid
            (chain.iso_of_seconds ts) ix,
        rw e refl,
        refl,
      )
  apply_registry_event-SameMarks caps (capability_certified id certifier) ts ix = (_, refl, refl)
  apply_registry_event-SameMarks caps (capability_slashed id penalty) ts ix =
      (_, refl, alert-SameMarks _ _ _)
  apply_registry_event-SameMarks caps (bond_withdrawn id to amount) ts ix =
      (_, refl, alert-SameMarks _ _ _)
  apply_registry_event-SameMarks caps (RegistryEvent.eth_pool_withdrawn to amount) ts ix =
      (_, refl, alert-SameMarks _ _ ix)
  apply_registry_event-SameMarks caps (certifier_changed previous next) ts ix =
      (_, refl, alert-SameMarks _ _ ix)
  apply_registry_event-SameMarks caps (RegistryEvent.paused account) ts ix =
      (_, refl, alert-SameMarks _ _ ix)
  apply_registry_event-SameMarks caps (RegistryEvent.unpaused account) ts ix =
      (_, refl, alert-SameMarks _ _ ix)
