-- ===== src/Server/Contracts.antt =====
-- What packages/backend/src/server.ts and contracts.ts use of the node: the calls of the contracts
-- through the clients of the SDK, the signers, and `ethers`. A call may throw, and changes a state
-- of the node that only the node knows. With it, the state that the routes share.
use taop_protocol.Prelude.{ℕ, Bool, List, Text, text, Option, nat_beq, if◌then◌else◌}
use taop_protocol.Index.{Index}
use taop_protocol.Index.Alerts.{Number}
use taop_protocol.Indexer.{Result}
use taop_protocol.Server.Io.{Io}

-- The fields of `getCompletion` that the backend reads.
pub record CompletionData : Type 0 where
  pub agent : Text
  pub task_type : Text
  pub result_cid : Text
  pub timestamp : ℕ
  pub challenged : Bool
  pub disputed : Bool

pub record CapabilityData : Type 0 where
  pub creator : Text
  pub bond : ℕ
  pub capability_type : Text
  pub metadata_cid : Text
  pub certified : Bool
  pub slashed : Bool

pub record RankingScore : Type 0 where
  pub completions : ℕ
  pub disputes : ℕ
  pub score : ℕ
  pub score_type : Text

-- The owner-only calls of the contract, with their arguments.
pub data OwnerCall : Type 0 where
  resolve_challenge : ℕ → Bool → OwnerCall
  pause unpause : OwnerCall
  set_attest_cooldown : ℕ → OwnerCall

-- The two keys of the backend. A client of the SDK is built with one of them: `ron` and
-- `registryOracle` with the oracle's, `ronAgentA` and `registryAgentA` with the agent's.
pub data Signer : Type 0 where
  oracle agent_a : Signer

-- The transactions give the hash of the receipt, or null.
pub record Contracts (W : Type 0) : Type 0 where
  -- `oracleRunner?.reset?.()` and `agentARunner?.reset?.()`
  pub reset_oracle : W → W
  pub reset_agent_a : W → W
  -- new Date().toISOString()
  pub now_iso : W → Text
  -- the digits of Date.now()
  pub now_digits : W → Text
  pub get_balance : Text → Io W ℕ
  pub challenge_bond : Io W ℕ
  pub get_completion : ℕ → Io W CompletionData
  pub attest_completion : Text → Text → Io W (ℕ × Option Text)
  pub challenge_completion : ℕ → Text → ℕ → Io W (Option Text)
  pub contest_challenge : ℕ → Text → Io W (Option Text)
  pub attest_receipt : ℕ → Text → Io W (Option Text)
  pub revoke_receipt : ℕ → Io W (Option Text)
  pub finalize_challenge : ℕ → Io W (Option Text)
  pub register_agent : Text → Io W (Option Text)
  -- an owner-only call by the oracle's own key
  pub call_as_owner : OwnerCall → Io W (Option Text)
  pub get_agent_metadata : Text → Io W Text
  pub get_ranking_score : Text → Io W RankingScore
  pub stake : Text → Io W ℕ
  pub deposit_stake : ℕ → Io W (Option Text)
  pub get_capabilities_by_type : Text → Io W (List ℕ)
  pub get_capability : ℕ → Io W CapabilityData
  pub total_supply : Io W ℕ
  pub token_by_index : ℕ → Io W ℕ
  -- by the key of the signer given, whose address becomes the creator
  pub register_capability_eth : Signer → Text → Text → ℕ → Io W (ℕ × Option Text)
  pub certify_capability : ℕ → Io W (Option Text)
  -- `pinJSON` of the model card
  pub pin_model_card : Io W Text
  -- the Timelock, and a salt from the clock and a random number
  pub salt : W → Text
  pub get_min_delay : Io W ℕ
  pub schedule : Text → Text → Text → ℕ → Io W (Option Text)
  pub hash_operation : Text → Text → Text → Io W Text
  pub is_operation_ready : Text → Io W Bool
  pub execute : Text → Text → Text → Io W (Option Text)

-- What the backend takes from `ethers`, JavaScript's conversions and SQLite.
pub record Codec : Type 0 where
  pub id : Text → Text
  pub encode_function_data : OwnerCall → Text
  pub format_ether : ℕ → Text
  -- `parseEther`, none where it throws
  pub parse_ether : Text → Result ℕ
  pub number_of_text : Text → Number
  -- which of the rows a SELECT without ORDER BY gives first
  pub first_row : List ℕ → Option ℕ

pub record Deployment : Type 0 where
  pub chain_id : ℕ
  pub ron : Text
  pub registry : Text
  pub timelock : Option Text
  pub validator : Text
  pub agent_a : Text

-- The fields of BackendState that do not change after the start.
pub record BackendState : Type 0 where
  pub deployment : Deployment
  pub oracle_address : Text
  pub agent_a_address : Text
  -- whether `executeViaTimelock` is not null
  pub uses_timelock : Bool

-- The database, the node, and the two fields of BackendState that `ensureCapability` sets.
pub record World (W : Type 0) : Type 0 where
  pub index : Index
  pub chain : W
  pub capability_id : ℕ
  pub capability_metadata_cid : Text

module _ {W : Type 0} where
  -- A call of the node from the backend.
  abbrev pub call : {A : Type 0} → Io W A → Io (World W) A
  call m w = let r = m w.chain in (r.0, record w { chain = r.1 })

  abbrev pub on_chain : (W → W) → World W → World W
  on_chain f w = record w { chain = f w.chain }

  abbrev pub on_index : (Index → Index) → World W → World W
  on_index f w = record w { index = f w.index }

unfoldable pub explorer_base : Deployment → Text
explorer_base d =
    if nat_beq d.chain_id 84532
    then text "https://sepolia.basescan.org"
    else text "https://basescan.org"
