-- ===== src/Indexer/Soundness.antt =====
-- The events of packages/backend/src/indexer.ts against the invariant of the tables.
use taop_protocol.Prelude.{
  ℕ, ◌≡◌, refl, true, false, [], ◌∷◌, Text, Option, none, some, inl, inr, to_lower,
}
use taop_protocol.Index.{Index, Payload}
use taop_protocol.Index.Scores.{minus_one, plus_one, bump_agent}
use taop_protocol.Index.Receipts.{
  get_receipt_agent, get_receipt_counterparty, get_completion_agent, record_indexed_completion,
  set_agent_identity,
}
use taop_protocol.Index.Capabilities.{
  upsert_indexed_capability, certify_indexed_capability, slash_indexed_capability,
  delete_indexed_capability,
}
use taop_protocol.Index.Sound.{
  IsSound, record_alert-IsSound, bump_agent-IsSound, bump_counterparty-IsSound, find-bump_agent,
  receipt-IsSound, delete_receipt-IsSound, get_receipt_agent-scored,
}
use taop_protocol.Indexer.{
  Chain, Log, Result, ok, err, RegistryEvent, RonEvent, capability_registered, capability_certified,
  capability_slashed, bond_withdrawn, certifier_changed, self_attested, receipt_attested,
  receipt_revoked, challenge_submitted, challenge_resolved, challenge_cancelled, agent_registered,
  Result-cases,
}
use taop_protocol.Indexer.Events.{
  alert, apply_registry_event, apply_ron_event, attest_receipt, revoke_receipt, uphold_challenge,
  truthy, when_some, one_unconfirmed, one_dispute, one_confirmed, one_completion,
}

attest_receipt-IsSound :
    (id : ℕ) (agent counterparty : Text) (ts : ℕ) {ix : Index}
    → IsSound ix
    → IsSound (attest_receipt id agent counterparty ts ix)
unfolding attest_receipt
attest_receipt-IsSound id agent counterparty ts v =
    bump_counterparty-IsSound agent counterparty plus_one
      (receipt-IsSound id agent counterparty ts (one_confirmed ts) refl v)

-- The step under `if (value)`, where the value was read from an option.
when_some-IsSound :
    (o : Option Text) (step : Text → Index → Index) {ix : Index}
    → ((a : Text) → o ≡ some a → IsSound (step a ix))
    → IsSound ix
    → IsSound (when_some (truthy o) step ix)
when_some-IsSound none step f v = v
when_some-IsSound (some []) step f v = v
when_some-IsSound (some (c ∷ cs)) step f v = f (c ∷ cs) refl

revoke_receipt-IsSound : (id : ℕ) {ix : Index} → IsSound ix → IsSound (revoke_receipt id ix)
unfolding revoke_receipt
revoke_receipt-IsSound id {ix} v = delete_receipt-IsSound id (
    when_some-IsSound (get_receipt_agent id ix) _
      (λ a e.
        when_some-IsSound (get_receipt_counterparty id ix) _
          (λ cp f. bump_counterparty-IsSound a cp minus_one unbumped) unbumped)
      unbumped)
  where
    unbumped :
        IsSound
          (when_some (truthy (get_receipt_agent id ix)) (λ a. bump_agent a one_unconfirmed) ix)
    unbumped =
        when_some-IsSound (get_receipt_agent id ix) _
          (λ a e. bump_agent-IsSound a one_unconfirmed (inr (get_receipt_agent-scored id a v e)) v)
          v

uphold_challenge-IsSound : (id : ℕ) {ix : Index} → IsSound ix → IsSound (uphold_challenge id ix)
unfolding uphold_challenge
uphold_challenge-IsSound id {ix} v =
    when_some-IsSound (get_completion_agent id ix) _
      (λ agent e.
        let disputed : IsSound (bump_agent agent one_dispute ix) =
          bump_agent-IsSound agent one_dispute (inl refl) v in
        when_some-IsSound (get_receipt_counterparty id (bump_agent agent one_dispute ix)) _
          (λ cp f. delete_receipt-IsSound id (
            bump_counterparty-IsSound agent cp minus_one (
              bump_agent-IsSound agent one_unconfirmed (inr (find-bump_agent agent one_dispute ix))
                disputed)))
          disputed)
      v

abbrev pub IsSoundResult : Result Index → Type 0
IsSoundResult (ok ix) = IsSound ix
IsSoundResult (err e) = Unit

-- Writing `capabilities` keeps the invariant.
capability-IsSound :
    (id : ℕ) {ix : Index}
    → IsSound ix
    → IsSound (certify_indexed_capability id ix)
      × IsSound (slash_indexed_capability id ix)
      × IsSound (delete_indexed_capability id ix)
unfolding certify_indexed_capability slash_indexed_capability delete_indexed_capability
capability-IsSound id v = (
  record { diverse = v.diverse; numbered = v.numbered; tallied = v.tallied },
  record { diverse = v.diverse; numbered = v.numbered; tallied = v.tallied },
  record { diverse = v.diverse; numbered = v.numbered; tallied = v.tallied },
)

module _ (chain : Chain) (log : Log) where
  alert-IsSound :
      (kind : Text) (payload : Payload) {ix : Index}
      → IsSound ix
      → IsSound (alert chain log kind payload ix)
  unfolding alert
  alert-IsSound kind payload v = record_alert-IsSound kind _ _ payload _ v

  pub apply_registry_event-IsSound :
      (e : RegistryEvent) (ts : ℕ) {ix : Index}
      → IsSound ix
      → IsSoundResult (apply_registry_event chain log e ts ix)
  unfolding apply_registry_event upsert_indexed_capability
  apply_registry_event-IsSound (capability_registered id creator) ts v =
      elim (Result-cases (chain.get_capability id)) [
        | inl (m, e) ↦ rw e tt
        | inr (cap, e) ↦
            rw e (record { diverse = v.diverse; numbered = v.numbered; tallied = v.tallied })
      ]
  apply_registry_event-IsSound (capability_certified id certifier) ts v =
      (capability-IsSound id v).0
  apply_registry_event-IsSound (capability_slashed id penalty) ts v =
      alert-IsSound _ _ (capability-IsSound id v).1
  apply_registry_event-IsSound (bond_withdrawn id to amount) ts v =
      alert-IsSound _ _ (capability-IsSound id v).2
  apply_registry_event-IsSound (RegistryEvent.eth_pool_withdrawn to amount) ts v =
      alert-IsSound _ _ v
  apply_registry_event-IsSound (certifier_changed previous next) ts v = alert-IsSound _ _ v
  apply_registry_event-IsSound (RegistryEvent.paused account) ts v = alert-IsSound _ _ v
  apply_registry_event-IsSound (RegistryEvent.unpaused account) ts v = alert-IsSound _ _ v

  pub apply_ron_event-IsSound :
      (e : RonEvent) (ts : ℕ) {ix : Index}
      → IsSound ix
      → IsSound (apply_ron_event chain log e ts ix)
  unfolding apply_ron_event record_indexed_completion set_agent_identity
  apply_ron_event-IsSound (self_attested id agent task) ts v =
      bump_agent-IsSound (to_lower agent) (one_completion ts) (inl refl)
        (record { diverse = v.diverse; numbered = v.numbered; tallied = v.tallied })
  apply_ron_event-IsSound (receipt_attested id agent cp) ts v =
      attest_receipt-IsSound id (to_lower agent) (to_lower cp) ts v
  apply_ron_event-IsSound (receipt_revoked id cp) ts v = revoke_receipt-IsSound id v
  apply_ron_event-IsSound (challenge_submitted id challenger) ts v = alert-IsSound _ _ v
  apply_ron_event-IsSound (challenge_resolved id true) ts v =
      uphold_challenge-IsSound id (alert-IsSound _ _ v)
  apply_ron_event-IsSound (challenge_resolved id false) ts v = alert-IsSound _ _ v
  apply_ron_event-IsSound (challenge_cancelled id challenger) ts v = alert-IsSound _ _ v
  apply_ron_event-IsSound (RonEvent.eth_pool_withdrawn to amount) ts v = alert-IsSound _ _ v
  apply_ron_event-IsSound (agent_registered agent cid) ts v = record {
    diverse = v.diverse;
    numbered = v.numbered;
    tallied = v.tallied;
  }
  apply_ron_event-IsSound (RonEvent.paused account) ts v = alert-IsSound _ _ v
  apply_ron_event-IsSound (RonEvent.unpaused account) ts v = alert-IsSound _ _ v
