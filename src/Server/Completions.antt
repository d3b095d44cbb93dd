-- ===== src/Server/Completions.antt =====
-- The routes on completions and on the administration of packages/backend/src/server.ts. An `id` in a
-- path is the number that its digits stand for.
use taop_protocol.Prelude.{
  ℕ, Bool, true, not, [], ◌∷◌, ◌++◌, Text, text, Option, none, some, ltb, if◌then◌else◌, ◌==◌,
  text_eq,
}
use taop_protocol.Table.{Table}
use taop_protocol.Index.{Index, PayloadValue}
use taop_protocol.Index
use taop_protocol.Index.Alerts.{Number}
use taop_protocol.Index.Cache.{
  record_admin_action, mark_completion_challenged, mark_completion_resolved,
}
use taop_protocol.Server.Io.{Io, ◌>>=◌, ◌>>◌, return, write, read, try_catch}
use taop_protocol.Server.Contracts.{
  OwnerCall, resolve_challenge, pause, unpause, set_attest_cooldown, Contracts, Codec, BackendState,
  World, call, on_chain, on_index,
}
use taop_protocol.Server.Timelock.{OwnerResult, owner_call}
use taop_protocol.Server.Replies.{
  null, decimal, boolean, string, literal, scheduled_after, Reply, json, refusal, or_null_value,
  failure, admin_failure, server_failure, BodyValue, is_truthy, text_or, whole_number, is_revert,
}

abbrev zero_address : Text
zero_address = text "0x0000000000000000000000000000000000000000"

-- `!c.agent || c.agent === ethers.ZeroAddress`
unfoldable pub is_missing : Text → Bool
is_missing [] = true
is_missing (c ∷ cs) = c ∷ cs == zero_address

abbrev pub resolve_detail : ℕ → Bool → Option (Table Text PayloadValue)
resolve_detail id upheld = some (
    (text "completionId", Index.PayloadValue.decimal id)
    ∷ (text "upheld", Index.PayloadValue.boolean upheld)
    ∷ [])

-- The name before the parenthesis.
abbrev pub action_name : OwnerCall → Text
action_name (resolve_challenge id upheld) = text "resolveChallenge"
action_name pause = text "pause"
action_name unpause = text "unpause"
action_name (set_attest_cooldown n) = text "setAttestCooldown"

-- `detail` of `ownerTx`: the arguments.
abbrev pub args_detail : OwnerCall → Table Text PayloadValue
args_detail (set_attest_cooldown n) = (text "args", Index.PayloadValue.numbers (n ∷ [])) ∷ []
args_detail owner = (text "args", Index.PayloadValue.numbers []) ∷ []

module _ {W : Type 0} (contracts : Contracts W) (codec : Codec) (text_of : BodyValue → Text)
    (backend : BackendState) where
  unfoldable pub post_attest : BodyValue → BodyValue → Io (World W) Reply
  post_attest task_type result_cid =
      try_catch
        (do
          now ← read (λ w. contracts.now_digits w.chain)
          made ← call (
              contracts.attest_completion (text_or text_of task_type (text "LoRA"))
                (text_or text_of result_cid (text "ipfs://result-" ++ now)))
          return (json (("completionId", decimal made.0) ∷ ("txHash", or_null_value made.1) ∷ [])))
        (λ e. return (server_failure e))

  -- The check before a challenge: the reply that refuses it, if it is refused.
  unfoldable pub check_completion : ℕ → Io (World W) (Option Reply)
  unfolding is_missing
  check_completion id =
      try_catch
        (do
          c ← call (contracts.get_completion id)
          return (
              if is_missing c.agent
              then some (
                  refusal 400 (
                    literal
                      "No such completion (id may be from a previous deployment). Run the live demo first to create a fresh one."))
              else none))
        (λ e. return (some (refusal 400 (literal "No such completion. Run the live demo first."))))

  unfoldable pub insufficient_balance : ℕ → ℕ → Text
  insufficient_balance balance bond =
      text "Insufficient balance on challenger "
      ++ (backend.agent_a_address
          ++ (text " ("
              ++ (codec.format_ether balance
                  ++ (text " ETH) to post "
                      ++ (codec.format_ether bond
                          ++ text " ETH bond. Faucet more test ETH to the agentA address.")))))

  unfoldable pub submit_challenge : ℕ → Text → ℕ → Io (World W) Reply
  submit_challenge id evidence bond = do
    hash ← call (contracts.challenge_completion id evidence bond)
    write (on_index (mark_completion_challenged id))
    return (json (("txHash", or_null_value hash) ∷ ("bondWei", decimal bond) ∷ []))

  unfoldable pub fund_challenge : ℕ → Text → ℕ → Io (World W) Reply
  unfolding submit_challenge insufficient_balance
  fund_challenge id evidence bond = do
    balance ← call (contracts.get_balance backend.agent_a_address)
    (if ltb balance bond
        then return (refusal 400 (string (insufficient_balance balance bond)))
        else submit_challenge id evidence bond)

  abbrev pub or_refuse : Io (World W) Reply → Option Reply → Io (World W) Reply
  or_refuse go none = go
  or_refuse go (some reply) = return reply

  unfoldable pub post_challenge : ℕ → BodyValue → Io (World W) Reply
  unfolding check_completion fund_challenge
  post_challenge id evidence =
      try_catch
        (do
          write (on_chain contracts.reset_agent_a)
          bond ← call contracts.challenge_bond
          refused ← check_completion id
          or_refuse
              (fund_challenge id (text_or text_of evidence (text "ipfs://challenge-evidence")) bond)
              refused)
        (λ e. return (failure e))

  -- The entry of the audit log for an owner-only call.
  unfoldable pub audit : Text → Option (Table Text PayloadValue) → OwnerResult → World W → World W
  audit action detail r w =
      on_index
        (record_admin_action action backend.oracle_address r.tx_hash detail (some r.scheduled)
          (some r.executed) (contracts.now_iso w.chain))
        w

  unfoldable pub note_resolved : ℕ → Bool → OwnerResult → World W → World W
  note_resolved id upheld r =
      on_index (λ ix. if r.executed then mark_completion_resolved id upheld ix else ix)

  unfoldable pub resolve_body : Bool → OwnerResult → Reply
  resolve_body upheld r =
      if backend.uses_timelock
      then json (
          ("txHash", or_null_value r.tx_hash)
          ∷ ("upheld", boolean upheld)
          ∷ ("scheduled", boolean r.scheduled)
          ∷ ("executed", boolean r.executed)
          ∷ ("delay", decimal r.delay)
          ∷ (if r.scheduled then ("message", scheduled_after r.delay) ∷ [] else []))
      else json (("txHash", or_null_value r.tx_hash) ∷ ("upheld", boolean upheld) ∷ [])

  unfoldable pub post_resolve : ℕ → BodyValue → Io (World W) Reply
  unfolding audit note_resolved resolve_body
  post_resolve id upheld =
      try_catch
        (do
          write (on_chain contracts.reset_oracle)
          r ← call (owner_call contracts codec backend (resolve_challenge id (is_truthy upheld)))
          write (note_resolved id (is_truthy upheld) r)
          write (audit (text "resolveChallenge") (resolve_detail id (is_truthy upheld)) r)
          return (resolve_body (is_truthy upheld) r))
        (λ e. return (failure e))

  unfoldable pub receipt_body : ℕ → Option Text → Reply
  receipt_body id hash = json (("txHash", or_null_value hash) ∷ ("completionId", decimal id) ∷ [])

  unfoldable pub post_receipt : ℕ → BodyValue → Io (World W) Reply
  unfolding receipt_body
  post_receipt id cid =
      try_catch
        (do
          write (on_chain contracts.reset_oracle)
          hash ←
              call (
                contracts.attest_receipt id (text_or text_of cid (text "ipfs://requester-receipt")))
          return (receipt_body id hash))
        (λ e. return (failure e))

  unfoldable pub post_revoke : ℕ → Io (World W) Reply
  unfolding receipt_body
  post_revoke id =
      try_catch
        (do
          write (on_chain contracts.reset_oracle)
          hash ← call (contracts.revoke_receipt id)
          return (receipt_body id hash))
        (λ e. return (failure e))

  unfoldable pub post_contest : ℕ → BodyValue → Io (World W) Reply
  unfolding receipt_body
  post_contest id rebuttal =
      try_catch
        (do
          write (on_chain contracts.reset_agent_a)
          hash ← call (
              contracts.contest_challenge id
                (text_or text_of rebuttal (text "ipfs://agent-rebuttal")))
          return (receipt_body id hash))
        (λ e. return (failure e))

  unfoldable pub post_finalize : ℕ → Io (World W) Reply
  post_finalize id =
      try_catch
        (do
          write (on_chain contracts.reset_oracle)
          hash ← call (contracts.finalize_challenge id)
          write (on_index (mark_completion_resolved id true))
          return (
              json (
                ("txHash", or_null_value hash)
                ∷ ("completionId", decimal id)
                ∷ ("upheld", boolean true)
                ∷ [])))
        (λ e. return (failure e))

  unfoldable pub owner_tx : OwnerCall → Io (World W) Reply
  unfolding audit
  owner_tx owner = do
    write (on_chain contracts.reset_oracle)
    r ← call (owner_call contracts codec backend owner)
    write (audit (action_name owner) (some (args_detail owner)) r)
    return (
        json (
          ("txHash", or_null_value r.tx_hash)
          ∷ ("scheduled", boolean r.scheduled)
          ∷ ("executed", boolean r.executed)
          ∷ []))

  unfoldable pub post_pause : Io (World W) Reply
  unfolding owner_tx
  post_pause = try_catch (owner_tx pause) (λ e. return (admin_failure e))

  unfoldable pub post_unpause : Io (World W) Reply
  unfolding owner_tx
  post_unpause = try_catch (owner_tx unpause) (λ e. return (admin_failure e))

  abbrev pub or_bad_cooldown : Option ℕ → Io (World W) Reply
  or_bad_cooldown none =
      return (refusal 400 (literal "cooldown must be a non-negative integer (seconds)"))
  or_bad_cooldown (some n) = owner_tx (set_attest_cooldown n)

  unfoldable pub post_attest_cooldown : (BodyValue → Number) → BodyValue → Io (World W) Reply
  unfolding owner_tx
  post_attest_cooldown number_of cooldown =
      try_catch (or_bad_cooldown (whole_number number_of cooldown)) (λ e. return (admin_failure e))

  abbrev simulated : Reply
  simulated = json (
      ("txHash", null)
      ∷ ("simulated", boolean true)
      ∷ (
        "note",
        literal
            "Demo (current on-chain RON may predate identity support; redeploy for full on-chain effect)",
      )
      ∷ [])

  unfoldable pub submit_agent : BodyValue → Io (World W) Reply
  submit_agent cid =
      if not (is_truthy cid) then return (refusal 400 (literal "metadataCID required")) else do
        hash ← call (contracts.register_agent (text_or text_of cid []))
        return (json (("txHash", or_null_value hash) ∷ []))

  unfoldable pub post_register_agent : BodyValue → Io (World W) Reply
  unfolding submit_agent
  post_register_agent cid =
      try_catch (submit_agent cid)
        (λ e. return (if is_revert e then simulated else server_failure e))
