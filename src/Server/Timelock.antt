-- ===== src/Server/Timelock.antt =====
-- `executeViaTimelock` of packages/backend/src/contracts.ts, and `ownerTx` of server.ts.
pub mod Outcomes
use taop_protocol.Prelude.{
  ℕ, zero, suc, Bool, true, false, [], ◌∷◌, Text, text, Option, none, some, ltb, if◌then◌else◌,
}
use taop_protocol.Table.{Table}
use taop_protocol.Index.{Index, PayloadValue}
use taop_protocol.Index.Cache.{record_admin_action}
use taop_protocol.Server.Io.{Io, ◌>>=◌, ◌>>◌, return, throw, write, read, try_catch}
use taop_protocol.Server.Contracts.{
  OwnerCall, resolve_challenge, pause, unpause, set_attest_cooldown, Contracts, Codec, BackendState,
  World, call, on_chain, on_index,
}

pub record TimelockResult : Type 0 where
  pub receipt : Option Text
  pub executed : Bool
  pub scheduled : Bool
  pub delay : ℕ

-- What an owner-only transaction did.
pub record OwnerResult : Type 0 where
  pub tx_hash : Option Text
  pub scheduled : Bool
  pub executed : Bool
  pub delay : ℕ

module _ {W : Type 0} (contracts : Contracts W) where
  -- The loop that waits until the operation is ready, in rounds.
  unfoldable pub wait_ready : ℕ → Text → Io W Bool
  wait_ready zero id = return false
  wait_ready (suc n) id =
      let wait = wait_ready n id in
      do
        ready ← try_catch (contracts.is_operation_ready id) (λ e. return false)
        if ready then return true else write contracts.reset_oracle >> wait

  -- After the schedule: execute at once where the delay is 0.
  unfoldable pub finish_operation : Text → Text → Text → ℕ → Option Text → Io W TimelockResult
  unfolding wait_ready
  finish_operation target payload salt delay scheduled_hash =
      if ltb 0 delay
      then return
          (record { receipt = scheduled_hash; executed = false; scheduled = true; delay = delay })
      else do
        id ← contracts.hash_operation target payload salt
        wait_ready 10 id
        hash ← contracts.execute target payload salt
        return (record { receipt = hash; executed = true; scheduled = false; delay = 0 })

  unfoldable pub execute_via_timelock : Text → Text → Io W TimelockResult
  unfolding finish_operation
  execute_via_timelock target payload = do
    write contracts.reset_oracle
    salt ← read contracts.salt
    delay ← contracts.get_min_delay
    scheduled_hash ← contracts.schedule target payload salt delay
    finish_operation target payload salt delay scheduled_hash

  unfoldable pub through_timelock : Codec → BackendState → OwnerCall → Io W OwnerResult
  unfolding execute_via_timelock
  through_timelock codec backend owner = do
    r ← execute_via_timelock backend.deployment.ron (codec.encode_function_data owner)
    return (record {
      tx_hash = r.receipt;
      scheduled = r.scheduled;
      executed = r.executed;
      delay = r.delay;
    })

  unfoldable pub directly : OwnerCall → Io W OwnerResult
  directly owner = do
    hash ← contracts.call_as_owner owner
    return (record { tx_hash = hash; scheduled = false; executed = true; delay = 0 })

  -- The call itself, through the Timelock where there is one.
  unfoldable pub owner_call : Codec → BackendState → OwnerCall → Io W OwnerResult
  unfolding through_timelock directly
  owner_call codec backend owner =
      if backend.uses_timelock then through_timelock codec backend owner else directly owner
