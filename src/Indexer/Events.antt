-- ===== src/Indexer/Events.antt =====
-- `applyRegistryEvent` and `applyRonEvent` of packages/backend/src/indexer.ts.
use taop_protocol.Prelude.{ℕ, [], ◌∷◌, Text, text, Option, none, some, to_lower, if◌then◌else◌}
use taop_protocol.Prelude.Int.{pos, negsuc}
use taop_protocol.Index.{Index, AgentScore, decimal, boolean}
use taop_protocol.Index
use taop_protocol.Index.Alerts.{record_alert}
use taop_protocol.Index.Capabilities.{
  upsert_indexed_capability, certify_indexed_capability, slash_indexed_capability,
  delete_indexed_capability,
}
use taop_protocol.Index.Scores.{bump_agent, bump_counterparty, plus_one, minus_one}
use taop_protocol.Index.Receipts.{
  record_indexed_completion, get_completion_agent, add_receipt_index, get_receipt_agent,
  get_receipt_counterparty, delete_receipt_index, set_agent_identity,
}
use taop_protocol.Indexer.{
  Chain, Log, Result, ok, err, RegistryEvent, RonEvent, ◌>>=◌, capability_registered,
  capability_certified, capability_slashed, bond_withdrawn, certifier_changed, self_attested,
  receipt_attested, receipt_revoked, challenge_submitted, challenge_resolved, challenge_cancelled,
  agent_registered,
}

module _ (chain : Chain) (log : Log) where
  -- The alert of this log: recordAlert(kind, log.blockNumber, log.transactionHash, payload).
  unfoldable pub alert : Text → Index.Payload → Index → Index
  alert kind payload ix =
      record_alert kind log.block_number log.transaction_hash payload chain.now_iso ix

  unfoldable pub apply_registry_event : RegistryEvent → ℕ → Index → Result Index
  apply_registry_event (capability_registered capability_id _) ts ix = do
    cap ← chain.get_capability capability_id
    ok (
        upsert_indexed_capability capability_id cap.creator cap.bond cap.capability_type
          cap.metadata_cid (chain.iso_of_seconds ts) ix)
  apply_registry_event (capability_certified capability_id _) ts ix =
      ok (certify_indexed_capability capability_id ix)
  apply_registry_event (capability_slashed capability_id penalty) ts ix = ok (
      alert (text "CapabilitySlashed")
        ((text "capabilityId", decimal capability_id) ∷ (text "penalty", decimal penalty) ∷ [])
        (slash_indexed_capability capability_id ix))
  apply_registry_event (bond_withdrawn capability_id to amount) ts ix = ok (
      alert (text "BondWithdrawn")
        ((text "capabilityId", decimal capability_id)
          ∷ (text "to", Index.PayloadValue.string to)
          ∷ (text "amount", decimal amount)
          ∷ [])
        (delete_indexed_capability capability_id ix))
  apply_registry_event (RegistryEvent.eth_pool_withdrawn to amount) ts ix = ok (
      alert (text "EthPoolWithdrawn")
        ((text "contract", Index.PayloadValue.string (text "CapabilityRegistry"))
          ∷ (text "to", Index.PayloadValue.string to)
          ∷ (text "amount", decimal amount)
          ∷ [])
        ix)
  apply_registry_event (certifier_changed previous_certifier new_certifier) ts ix = ok (
      alert (text "CertifierChanged")
        ((text "previousCertifier", Index.PayloadValue.string previous_certifier)
          ∷ (text "newCertifier", Index.PayloadValue.string new_certifier)
          ∷ [])
        ix)
  apply_registry_event (RegistryEvent.paused account) ts ix = ok (
      alert (text "Paused")
        ((text "contract", Index.PayloadValue.string (text "CapabilityRegistry"))
          ∷ (text "account", Index.PayloadValue.string account)
          ∷ [])
        ix)
  apply_registry_event (RegistryEvent.unpaused account) ts ix = ok (
      alert (text "Unpaused")
        ((text "contract", Index.PayloadValue.string (text "CapabilityRegistry"))
          ∷ (text "account", Index.PayloadValue.string account)
          ∷ [])
        ix)

-- `c.resultCID`, or the empty text where the call throws.
abbrev pub result_cid_of : Result Text → Text
result_cid_of (ok cid) = cid
result_cid_of (err e) = []

-- A text or null, as a condition reads it: the empty text is false too.
abbrev pub truthy : Option Text → Option Text
truthy none = none
truthy (some []) = none
truthy (some (c ∷ cs)) = some (c ∷ cs)

-- `if (value) step(value)`
abbrev pub when_some : Option Text → (Text → Index → Index) → Index → Index
when_some none step ix = ix
when_some (some value) step ix = step value ix

abbrev pub one_completion : ℕ → AgentScore
one_completion ts = record { completions = 1; confirmed = pos 0; disputes = 0; last_activity = ts }

abbrev pub one_confirmed : ℕ → AgentScore
one_confirmed ts = record { completions = 0; confirmed = pos 1; disputes = 0; last_activity = ts }

abbrev pub one_unconfirmed : AgentScore
one_unconfirmed = record { completions = 0; confirmed = negsuc 0; disputes = 0; last_activity = 0 }

abbrev pub one_dispute : AgentScore
one_dispute = record { completions = 0; confirmed = pos 0; disputes = 1; last_activity = 0 }

-- The case ReceiptAttested.
unfoldable pub attest_receipt : ℕ → Text → Text → ℕ → Index → Index
attest_receipt completion_id agent counterparty ts ix =
    bump_counterparty agent counterparty plus_one (
      bump_agent agent (one_confirmed ts)
        (add_receipt_index completion_id agent counterparty ts ix))

-- The case ReceiptRevoked.
unfoldable pub revoke_receipt : ℕ → Index → Index
revoke_receipt completion_id ix =
    let agent = truthy (get_receipt_agent completion_id ix) in
    let counterparty = truthy (get_receipt_counterparty completion_id ix) in
    delete_receipt_index completion_id (
      when_some agent (λ a. when_some counterparty (λ cp. bump_counterparty a cp minus_one))
        (when_some agent (λ a. bump_agent a one_unconfirmed) ix))

-- The part of ChallengeResolved under `if (upheld)`.
unfoldable pub uphold_challenge : ℕ → Index → Index
uphold_challenge completion_id ix =
    when_some (truthy (get_completion_agent completion_id ix))
      (λ agent ix.
        let disputed = bump_agent agent one_dispute ix in
        when_some (truthy (get_receipt_counterparty completion_id disputed))
          (λ counterparty ix.
            delete_receipt_index completion_id (
              bump_counterparty agent counterparty minus_one (bump_agent agent one_unconfirmed ix)))
          disputed)
      ix

module _ (chain : Chain) (log : Log) where
  unfoldable pub apply_ron_event : RonEvent → ℕ → Index → Index
  apply_ron_event (self_attested completion_id agent task_type) ts ix =
      bump_agent (to_lower agent) (one_completion ts) (
        record_indexed_completion completion_id (to_lower agent) task_type
          (result_cid_of (chain.get_completion completion_id)) ts log.transaction_hash chain.now_iso
          ix)
  apply_ron_event (receipt_attested completion_id agent counterparty) ts ix =
      attest_receipt completion_id (to_lower agent) (to_lower counterparty) ts ix
  apply_ron_event (receipt_revoked completion_id _) ts ix = revoke_receipt completion_id ix
  apply_ron_event (challenge_submitted completion_id challenger) ts ix =
      alert chain log (text "ChallengeSubmitted")
        ((text "completionId", decimal completion_id)
          ∷ (text "challenger", Index.PayloadValue.string (to_lower challenger))
          ∷ [])
        ix
  apply_ron_event (challenge_resolved completion_id upheld) ts ix =
      let alerted =
        alert chain log (text "ChallengeResolved")
          ((text "completionId", decimal completion_id) ∷ (text "upheld", boolean upheld) ∷ [])
          ix in
      if upheld then uphold_challenge completion_id alerted else alerted
  apply_ron_event (challenge_cancelled completion_id challenger) ts ix =
      alert chain log (text "ChallengeCancelled")
        ((text "completionId", decimal completion_id)
          ∷ (text "challenger", Index.PayloadValue.string (to_lower challenger))
          ∷ [])
        ix
  apply_ron_event (RonEvent.eth_pool_withdrawn to amount) ts ix =
      alert chain log (text "EthPoolWithdrawn")
        ((text "contract", Index.PayloadValue.string (text "ReputationOracleNetwork"))
          ∷ (text "to", Index.PayloadValue.string to)
          ∷ (text "amount", decimal amount)
          ∷ [])
        ix
  apply_ron_event (agent_registered agent metadata_cid) ts ix =
      set_agent_identity (to_lower agent) metadata_cid ix
  apply_ron_event (RonEvent.paused account) ts ix =
      alert chain log (text "Paused")
        ((text "contract", Index.PayloadValue.string (text "ReputationOracleNetwork"))
          ∷ (text "account", Index.PayloadValue.string account)
          ∷ [])
        ix
  apply_ron_event (RonEvent.unpaused account) ts ix =
      alert chain log (text "Unpaused")
        ((text "contract", Index.PayloadValue.string (text "ReputationOracleNetwork"))
          ∷ (text "account", Index.PayloadValue.string account)
          ∷ [])
        ix
