-- ===== src/Server/Bootstrap.antt =====
-- packages/backend/src/contracts.ts at the start: the keys, the demo agent's stake and its capability.
pub mod Owned
use mathlib.Core.Option
use taop_protocol.Prelude.{
  ℕ, zero, suc, ◌+◌, Bool, true, false, not, ◌&&◌, ◌||◌, [], ◌∷◌, Text, text, Option, none, some,
  ◌==◌, text_eq, to_lower, ltb, nat_beq, if◌then◌else◌,
}
use taop_protocol.Index.{Index, MetaValue, string, last_registry_key, registered_at_key}
use taop_protocol.Index.Logs.{get_meta, set_meta, text_of}
use taop_protocol.Index.Cache.{is_capability_registered, record_capability}
use taop_protocol.Indexer.{Result, ok, err}
use taop_protocol.Indexer.Events.{truthy}
use taop_protocol.Webhooks.Config.{trim}
use taop_protocol.Server.Io.{Io, ◌>>=◌, ◌>>◌, return, throw, write, read, try_catch}
use taop_protocol.Server.Contracts.{
  Signer, agent_a, Contracts, CapabilityData, Codec, BackendState, World, call, on_chain, on_index,
}

abbrev pub lora : Text
lora = text "LoRA"

-- DEMO_BOND_ETH, in wei
abbrev pub demo_bond : ℕ
demo_bond = 50_000_000_000_000_000

-- The keys of the environment, and the one that an old deployment file may hold.
pub record KeyEnv : Type 0 where
  pub oracle_pk : Option Text
  pub deployer_pk : Option Text
  pub agent_a_pk : Option Text
  pub legacy_file_pk : Option Text

-- `a || b`
abbrev pub or_else : Option Text → Option Text → Option Text
or_else a b = elim (truthy a) [ none ↦ b | some value ↦ some value ]

pub record Keys : Type 0 where
  pub oracle : Option Text
  pub agent_a : Option Text

abbrev pub require_keys : Option Text → Option Text → Result Keys
require_keys none agent = err (text "No ORACLE_PK/DEPLOYER_PK found")
require_keys (some oracle) none = err (text "No Agent A key found")
require_keys (some oracle) (some agent) = ok (record { oracle = some oracle; agent_a = some agent })

-- The keys that the state is built with, or the error that ends the start.
unfoldable pub load_keys : Bool → KeyEnv → Result Keys
load_keys read_only env =
    let oracle = truthy (or_else env.oracle_pk env.deployer_pk) in
    let agent = truthy (or_else env.agent_a_pk env.legacy_file_pk) in
    if read_only
    then ok (record { oracle = oracle; agent_a = agent })
    else require_keys oracle agent

-- The registry that the cache belongs to; another one empties the cache.
unfoldable pub sync_registry : Text → Index → Index
sync_registry current ix =
    let noted = set_meta last_registry_key (string current) in
    elim (truthy (Option.map (λ value. to_lower (text_of value)) (get_meta last_registry_key ix))) [
      | none ↦ noted ix
      | some last ↦
          if last == current then ix else noted (record ix { capabilities = []; completions = [] })
    ]

module _ {W : Type 0} (contracts : Contracts W) (codec : Codec) (backend : BackendState) where
  unfoldable pub is_own : CapabilityData → Bool
  is_own cap = to_lower cap.creator == to_lower backend.agent_a_address

  unfoldable pub certify_if_needed : ℕ → CapabilityData → Io (World W) (Unit {0})
  certify_if_needed id cap =
      if cap.certified then return tt else call (contracts.certify_capability id) >> return tt

  abbrev pub set_capability : ℕ → World W → World W
  set_capability id w = record w { capability_id = id }

  -- Within one `try`, whose `catch` keeps what `useCached` is by then.
  unfoldable pub adopt_cached : ℕ → CapabilityData → Io (World W) Bool
  unfolding certify_if_needed
  adopt_cached id cap = do
    write (set_capability id)
    try_catch (certify_if_needed id cap) (λ e. return tt)
    return true

  -- `getCapability` where its error is caught.
  unfoldable pub try_capability : ℕ → Io (World W) (Option CapabilityData)
  try_capability id =
      try_catch (do cap ← call (contracts.get_capability id); return (some cap)) (λ e. return none)

  unfoldable pub use_cached : ℕ → Option CapabilityData → Io (World W) Bool
  unfolding adopt_cached is_own
  use_cached id none = return false
  use_cached id (some cap) = if is_own cap then adopt_cached id cap else return false

  -- `if (dbId) { … }`; whether the cached id is used.
  unfoldable pub check_cached : Option ℕ → Io (World W) Bool
  unfolding use_cached try_capability
  check_cached none = return false
  check_cached (some id) =
      if nat_beq id 0 then return false else try_capability id >>= use_cached id

  unfoldable pub is_lora : CapabilityData → Bool
  unfolding is_own
  is_lora cap = is_own cap && (to_lower cap.capability_type == to_lower (codec.id lora))

  unfoldable pub note_capability : ℕ → Text → ℕ → Text → World W → World W
  note_capability id creator bond cid w =
      on_index (record_capability id creator bond lora cid true (contracts.now_iso w.chain)) w

  unfoldable pub adopt_scanned : ℕ → CapabilityData → Io (World W) Bool
  unfolding certify_if_needed note_capability
  adopt_scanned id cap = do
    write (set_capability id)
    certify_if_needed id cap
    write (note_capability id cap.creator cap.bond cap.metadata_cid)
    return true

  unfoldable pub or_continue : ℕ → Io (World W) Bool → Option CapabilityData → Io (World W) Bool
  unfolding adopt_scanned is_lora
  or_continue id rest none = rest
  or_continue id rest (some cap) = if is_lora cap then adopt_scanned id cap else rest

  -- The scan of `n` tokens from the index `i` on; whether one was taken.
  unfoldable pub scan_tokens : ℕ → ℕ → Io (World W) Bool
  unfolding try_capability or_continue
  scan_tokens zero i = return false
  scan_tokens (suc n) i =
      let rest = scan_tokens n (i + 1) in
      call (contracts.token_by_index i) >>= λ id.
      if nat_beq id 0 then rest else try_capability id >>= or_continue id rest

  -- The wait until the new capability is visible, in rounds.
  unfoldable pub wait_visible : ℕ → ℕ → Io (World W) Bool
  unfolding try_capability
  wait_visible zero id = return false
  wait_visible (suc n) id =
      let wait = wait_visible n id in
      try_capability id >>= λ cap. elim cap [ none ↦ wait | some found ↦ return true ]

  unfoldable pub certify_new : ℕ → Text → Io (World W) (Unit {0})
  unfolding note_capability
  certify_new id cid = do
    call (contracts.certify_capability id)
    write (set_capability id)
    write (note_capability id backend.agent_a_address demo_bond cid)
    write (λ w. on_index (set_meta registered_at_key (string (contracts.now_iso w.chain))) w)

  unfoldable pub register_fresh : Io (World W) (Unit {0})
  unfolding wait_visible certify_new
  register_fresh = do
    cid ← call contracts.pin_model_card
    write (λ w. record w { capability_metadata_cid = cid })
    made ← call (contracts.register_capability_eth agent_a lora cid demo_bond)
    visible ← wait_visible 10 made.0
    if visible then certify_new made.0 cid else throw (text "not visible after register")

  unfoldable pub scan_or_register : Io (World W) (Unit {0})
  unfolding scan_tokens register_fresh
  scan_or_register = do
    total ← call contracts.total_supply
    taken ← scan_tokens total 0
    if taken then return tt else register_fresh

  unfoldable pub ensure_capability : Io (World W) (Unit {0})
  unfolding sync_registry check_cached scan_or_register
  ensure_capability = do
    write (on_chain contracts.reset_agent_a)
    write (on_chain contracts.reset_oracle)
    write (on_index (sync_registry (to_lower backend.deployment.registry)))
    cached ←
        read (λ w. is_capability_registered codec.first_row backend.agent_a_address lora w.index)
    used ← check_cached cached
    if used then return tt else scan_or_register

  unfoldable pub send_stake : Text → Io (World W) (Unit {0})
  send_stake desired = do
    value ← (λ w. (codec.parse_ether desired, w))
    call (contracts.deposit_stake value) >> return tt

  unfoldable pub deposit : Text → Io (World W) (Unit {0})
  unfolding send_stake
  deposit desired = do
    current ← call (contracts.stake backend.agent_a_address)
    if ltb 0 current then return tt else send_stake desired

  -- `desired` is AGENT_STAKE_ETH; errors are caught.
  unfoldable pub ensure_agent_stake : Option Text → Io (World W) (Unit {0})
  unfolding deposit
  ensure_agent_stake desired =
      let amount = trim (Option.get_or desired (text "0.01")) in
      if amount == text "0" || amount == []
      then return tt
      else try_catch (deposit amount) (λ e. return tt)
