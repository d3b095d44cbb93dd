-- ===== src/Indexer.antt =====
-- packages/backend/src/indexer.ts: the types that the indexer shares with the chain. The modules
-- below hold the score decay, the events, the block ranges, one poll, and discovery.
pub mod Decay
pub mod Events
pub mod Range
pub mod Poll
pub mod Discovery
pub mod Soundness
pub mod Passes
pub mod Progress
pub mod Start
pub mod Replay
pub mod Undelivered
use taop_protocol.Prelude.{ℕ, ◌≡◌, refl, ◌⊎◌, inl, inr, Text, Option, Bool, List}

-- A call that may throw, with the message of the error.
pub data Result {ℓ} (A : Type ℓ) : Type ℓ where
  ok : A → Result A
  err : Text → Result A

infixl 5 ◌>>=◌
abbrev pub ◌>>=◌ {ℓ κ} : {A : Type ℓ} {B : Type κ} → Result A → (A → Result B) → Result B
ok a >>= f = f a
err e >>= f = err e

pub Result-cases {ℓ} :
    {A : Type ℓ} (r : Result A) → ((e : Text) × (r ≡ err e)) ⊎ ((a : A) × (r ≡ ok a))
Result-cases (ok a) = inr (a, refl)
Result-cases (err e) = inl (e, refl)

-- An `ethers.Log`.
pub record Log : Type 0 where
  pub address : Text
  pub block_number : ℕ
  pub index : ℕ
  pub transaction_hash : Text
  pub topics_and_data : List Text

-- REGISTRY_EVENTS
pub data RegistryEvent : Type 0 where
  capability_registered : ℕ → Text → RegistryEvent
  capability_certified : ℕ → Text → RegistryEvent
  capability_slashed : ℕ → ℕ → RegistryEvent
  bond_withdrawn : ℕ → Text → ℕ → RegistryEvent
  eth_pool_withdrawn : Text → ℕ → RegistryEvent
  certifier_changed : Text → Text → RegistryEvent
  paused unpaused : Text → RegistryEvent

-- RON_EVENTS
pub data RonEvent : Type 0 where
  self_attested : ℕ → Text → Text → RonEvent
  receipt_attested : ℕ → Text → Text → RonEvent
  receipt_revoked : ℕ → Text → RonEvent
  challenge_submitted : ℕ → Text → RonEvent
  challenge_resolved : ℕ → Bool → RonEvent
  challenge_cancelled : ℕ → Text → RonEvent
  eth_pool_withdrawn : Text → ℕ → RonEvent
  agent_registered : Text → Text → RonEvent
  paused unpaused : Text → RonEvent

-- The fields of `getCapability` that the indexer reads.
pub record CapabilityView : Type 0 where
  pub creator : Text
  pub bond : ℕ
  pub capability_type : Text
  pub metadata_cid : Text

pub record Block : Type 0 where
  pub hash : Option Text
  pub timestamp : ℕ

-- What the node, the deployment, `ethers` and the clock answer during one pass.
pub record Chain : Type 0 where
  pub registry : Text
  pub ron : Text
  pub get_block_number : Result ℕ
  pub get_logs : ℕ → ℕ → Result (List Log)
  pub get_block : ℕ → Result (Option Block)
  pub get_capability : ℕ → Result CapabilityView
  pub get_completion : ℕ → Result Text
  -- `parseLog`, where `none` is null or an error
  pub parse_registry_log : Log → Option RegistryEvent
  pub parse_ron_log : Log → Option RonEvent
  -- Math.floor(Date.now() / 1000), new Date().toISOString(), and that of a block's timestamp
  pub now_seconds : ℕ
  pub now_iso : Text
  pub iso_of_seconds : ℕ → Text
