-- ===== src/Index/Sound.antt =====
-- The invariant of the tables that the indexer derives from logs (packages/backend/src/index_db.ts).
use taop_protocol.Prelude.{
  ℕ, ◌≡◌, ◌≢◌, refl, Text, none, some, arith, eq_refl, to_lower, to_lower_idem, text_eq, nat_eq,
  Option-cases, Bool-cases, inl, inr, ◌⊎◌, nat_beq,
}
use taop_protocol.Prelude.Int.{neg_part}
use taop_protocol.Table.{Table, find, put, delete, upsert}
use taop_protocol.Table.Laws.{find-put, find-delete, find-upsert}
use taop_protocol.Index.{Index, AgentScore, Receipt, Payload, init_index_schema}
use taop_protocol.Index.Alerts.{record_alert}
use taop_protocol.Index.Alerts.Numbered.{IsNumbered, record_alert-IsNumbered}
use taop_protocol.Index.Scores.{add_delta, bump_agent, bump_counterparty, Delta}
use taop_protocol.Index.Receipts.{add_receipt_index, delete_receipt_index, get_receipt_agent}
use taop_protocol.Index.Scores.Diversity.{Counts, bump_counterparty-IsDiverse}

-- No agent has a negative number of confirmations, and each receipt belongs to an agent, by its
-- lower-case address, that has a score.
pub record Tallies (scores : Table Text AgentScore) (receipts : Table ℕ Receipt) : Type 0 where
  pub counted : (a : Text) (s : AgentScore) → find a scores ≡ some s → neg_part s.confirmed ≡ 0
  pub scored : (id : ℕ) (r : Receipt) → find id receipts ≡ some r → find r.agent scores ≢ none
  pub lowered : (id : ℕ) (r : Receipt) → find id receipts ≡ some r → to_lower r.agent ≡ r.agent

pub record IsSound (ix : Index) : Type 0 where
  pub diverse : Counts ix.counterparty_confirmations ix.agent_diversity
  pub numbered : IsNumbered ix.alerts_seq ix.alerts
  pub tallied : Tallies ix.agent_scores ix.completion_receipts

-- What an alert leaves alone.
pub record_alert-IsSound :
    (kind : Text) (b : ℕ) (tx : Text) (payload : Payload) (at : Text) {ix : Index}
    → IsSound ix
    → IsSound (record_alert kind b tx payload at ix)
record_alert-IsSound kind b tx payload at {ix} v = record {
  diverse = unfold record_alert in ground (arith, v.diverse);
  numbered = record_alert-IsNumbered kind b tx payload at ix v.numbered;
  tallied = unfold record_alert in ground (arith, v.tallied);
}

add_delta_nonneg : (d s : AgentScore) → neg_part (add_delta d s).confirmed ≡ 0
unfolding add_delta
add_delta_nonneg d s = ground arith

-- A change of an agent's components keeps the tallies, if it takes no confirmation from an agent
-- without a score.
bump-Tallies :
    (agent : Text) (d : AgentScore) (scores : Table Text AgentScore) (receipts : Table ℕ Receipt)
    → (neg_part d.confirmed ≡ 0) ⊎ (find agent scores ≢ none)
    → Tallies scores receipts
    → Tallies (upsert agent d (add_delta d) scores) receipts
bump-Tallies agent d scores receipts p v = record {
  counted = λ a s h. elim (Option-cases (find agent scores)) [
    | inl e ↦ ground (arith, find-upsert agent a d (add_delta d) scores, v.counted a s, p, e)
    | inr (w, e) ↦
        ground (
          arith,
          find-upsert agent a d (add_delta d) scores,
          v.counted a s,
          e,
          add_delta_nonneg d w,
        )
  ];
  scored = λ id r h q.
      v.scored id r h (ground (arith, find-upsert agent r.agent d (add_delta d) scores, q));
  lowered = v.lowered;
}

-- Dropping receipts keeps them.
delete-Tallies :
    (id : ℕ) (scores : Table Text AgentScore) (receipts : Table ℕ Receipt)
    → Tallies scores receipts
    → Tallies scores (delete id receipts)
delete-Tallies id scores receipts v = record {
  counted = v.counted;
  scored = λ j r h. v.scored j r (ground (arith, find-delete id j receipts));
  lowered = λ j r h. v.lowered j r (ground (arith, find-delete id j receipts));
}

-- So does a new receipt of an agent that has a score.
put-Tallies :
    (id : ℕ) (r : Receipt) (scores : Table Text AgentScore) (receipts : Table ℕ Receipt)
    → to_lower r.agent ≡ r.agent
    → find r.agent scores ≢ none
    → Tallies scores receipts
    → Tallies scores (put id r receipts)
put-Tallies id r scores receipts l s v = record {
  counted = v.counted;
  scored = λ j q h n. elim (Bool-cases (nat_beq id j)) [
    | inl e ↦ s (ground (arith, find-put id j r receipts, n))
    | inr e ↦ v.scored j q (ground (arith, find-put id j r receipts)) n
  ];
  lowered = λ j q h. elim (Bool-cases (nat_beq id j)) [
    | inl e ↦ ground (arith, find-put id j r receipts, l)
    | inr e ↦ v.lowered j q (ground (arith, find-put id j r receipts))
  ];
}

pub bump_agent-IsSound :
    (agent : Text) (d : AgentScore) {ix : Index}
    → (neg_part d.confirmed ≡ 0) ⊎ (find (to_lower agent) ix.agent_scores ≢ none)
    → IsSound ix
    → IsSound (bump_agent agent d ix)
unfolding bump_agent
bump_agent-IsSound agent d {ix} p v = record {
  diverse = v.diverse;
  numbered = v.numbered;
  tallied = bump-Tallies (to_lower agent) d ix.agent_scores ix.completion_receipts p v.tallied;
}

pub bump_counterparty-IsSound :
    (agent counterparty : Text) (delta : Delta) {ix : Index}
    → IsSound ix
    → IsSound (bump_counterparty agent counterparty delta ix)
bump_counterparty-IsSound agent counterparty delta {ix} v = record {
  diverse = bump_counterparty-IsDiverse agent counterparty delta ix v.diverse;
  numbered = unfold bump_counterparty in ground (arith, v.numbered);
  tallied = unfold bump_counterparty in ground (arith, v.tallied);
}

-- An agent that was bumped has a score.
pub find-bump_agent :
    (agent : Text) (d : AgentScore) (ix : Index)
    → find (to_lower agent) (bump_agent agent d ix).agent_scores ≢ none
unfolding bump_agent
find-bump_agent agent d ix h = ground (
  arith,
  find-upsert (to_lower agent) (to_lower agent) d (add_delta d) ix.agent_scores,
  eq_refl (to_lower agent),
  h,
)

-- A receipt and its confirmation, recorded together.
pub receipt-IsSound :
    (id : ℕ) (agent counterparty : Text) (ts : ℕ) (d : AgentScore) {ix : Index}
    → neg_part d.confirmed ≡ 0
    → IsSound ix
    → IsSound (bump_agent agent d (add_receipt_index id agent counterparty ts ix))
unfolding bump_agent add_receipt_index
receipt-IsSound id agent counterparty ts d {ix} p v = record {
  diverse = v.diverse;
  numbered = v.numbered;
  tallied =
      put-Tallies id _ _ _ (to_lower_idem agent) (find-bump_agent agent d ix)
        (bump-Tallies (to_lower agent) d ix.agent_scores ix.completion_receipts (inl p) v.tallied);
}

pub delete_receipt-IsSound :
    (id : ℕ) {ix : Index} → IsSound ix → IsSound (delete_receipt_index id ix)
unfolding delete_receipt_index
delete_receipt-IsSound id {ix} v = record {
  diverse = v.diverse;
  numbered = v.numbered;
  tallied = delete-Tallies id ix.agent_scores ix.completion_receipts v.tallied;
}

-- The address of a receipt is that of an agent with a score.
pub get_receipt_agent-scored :
    (id : ℕ) (a : Text) {ix : Index}
    → IsSound ix
    → get_receipt_agent id ix ≡ some a
    → find (to_lower a) ix.agent_scores ≢ none
unfolding get_receipt_agent
get_receipt_agent-scored id a {ix} v h = elim (Option-cases (find id ix.completion_receipts)) [
  | inl e ↦ absurd (ground (arith, e, h))
  | inr (r, e) ↦
      let same : r.agent ≡ a = ground (arith, e, h) in
      rw (← same, v.tallied.lowered id r e) (v.tallied.scored id r e)
]

-- The tables as they are created.
pub init_index_schema-IsSound : IsSound init_index_schema
unfolding find
init_index_schema-IsSound = record {
  diverse = record { keyed = tt; positive = λ k n h. absurd (cc); distinct = λ a. refl };
  numbered = record { once = λ n. omega arith; within = tt };
  tallied = record {
    counted = λ a s h. absurd (cc);
    scored = λ id r h. absurd (cc);
    lowered = λ id r h. absurd (cc);
  };
}
