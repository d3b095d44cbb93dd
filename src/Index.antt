-- ===== src/Index.antt =====
-- packages/backend/src/index_db.ts and db.ts: the tables that the backend keeps in SQLite. The
-- statements on each group of tables are in the modules below.
pub mod Alerts
pub mod Logs
pub mod Capabilities
pub mod Scores
pub mod Receipts
pub mod Cache
pub mod Sound
use taop_protocol.Prelude.{
  ℕ, ◌≡◌, ◌↔◌, Bool, true, List, [], Option, Text, Eq, nat_beq, nat_beq_iff, arith,
}
use taop_protocol.Prelude.Int.{ℤ}
use taop_protocol.Table.{Table}

-- The parts of an alert's JSON payload: `x.toString()` of a bigint, a string, a boolean,
-- and the arguments of an administrator's action.
pub data PayloadValue : Type 0 where
  decimal : ℕ → PayloadValue
  string : Text → PayloadValue
  boolean : Bool → PayloadValue
  numbers : List ℕ → PayloadValue

abbrev pub Payload : Type 0
Payload = List (Text × PayloadValue)

pub record Alert : Type 0 where
  pub id : ℕ
  pub kind : Text
  pub block_number : ℕ
  pub tx_hash : Text
  pub payload : Payload
  pub created_at : Text

-- A row of `capabilities`, less its key `capability_id`. `bond` is the decimal text as a number.
pub record Capability : Type 0 where
  pub creator : Text
  pub bond : ℕ
  pub capability_type : Text
  pub metadata_cid : Text
  pub certified : Bool
  pub slashed : Bool
  pub registered_at : Text

-- A row of `completions`, less its key `completion_id`.
pub record Completion : Type 0 where
  pub agent : Text
  pub task_type : Text
  pub result_cid : Text
  pub timestamp : ℕ
  pub challenged : Bool
  pub disputed : Bool
  pub tx_hash : Option Text
  pub recorded_at : Text

-- A row of `agent_scores`, less its key `agent`.
pub record AgentScore : Type 0 where
  pub completions : ℕ
  pub confirmed : ℤ
  pub disputes : ℕ
  pub last_activity : ℕ

-- A row of `completion_receipts`, less its key `completion_id`.
pub record Receipt : Type 0 where
  pub agent : Text
  pub counterparty : Text
  pub receipt_ts : ℕ

-- The keys of `meta`, named by the constants and literals of the source.
pub data MetaKey : Type 0 where
  indexer_last_block indexer_last_hash last_id_key delivered_key : MetaKey
  failed_key streak_key error_key delivered_at_key next_attempt_key : MetaKey
  last_registry_key registered_at_key : MetaKey

-- `String(n)` of a number, or a text.
pub data MetaValue : Type 0 where
  number : ℕ → MetaValue
  string : Text → MetaValue

abbrev key_code : MetaKey → ℕ
key_code indexer_last_block = 0
key_code indexer_last_hash = 1
key_code last_id_key = 2
key_code delivered_key = 3
key_code failed_key = 4
key_code streak_key = 5
key_code error_key = 6
key_code delivered_at_key = 7
key_code next_attempt_key = 8
key_code last_registry_key = 9
key_code registered_at_key = 10

abbrev pub key_beq : MetaKey → MetaKey → Bool
key_beq a b = nat_beq (key_code a) (key_code b)

pub key_beq_iff : (a b : MetaKey) → (key_beq a b ≡ true) ↔ (a ≡ b)
key_beq_iff a b = ground arith

instance abbrev pub meta_key_eq : Eq MetaKey
meta_key_eq = record { equal = key_beq; equal_iff = key_beq_iff }

-- A row of `admin_actions`; `detail` is the JSON object that it holds.
pub record AdminAction : Type 0 where
  pub id : ℕ
  pub action : Text
  pub actor : Text
  pub tx_hash : Option Text
  pub detail : Table Text PayloadValue
  pub created_at : Text

pub record Index : Type 0 where
  pub capabilities : Table ℕ Capability
  pub completions : Table ℕ Completion
  pub meta : Table MetaKey MetaValue
  pub agent_scores : Table Text AgentScore
  pub completion_receipts : Table ℕ Receipt
  pub agent_identity : Table Text Text
  pub indexed_logs : Table (Text × ℕ) ℕ
  pub counterparty_confirmations : Table (Text × Text) ℕ
  pub agent_diversity : Table Text ℕ
  pub alerts : List Alert
  -- the AUTOINCREMENT sequence of `alerts`: the greatest id given so far
  pub alerts_seq : ℕ
  pub admin_actions : List AdminAction
  -- and that of `admin_actions`
  pub admin_actions_seq : ℕ

-- The tables that `initIndexSchema` and `db` create.
abbrev pub init_index_schema : Index
init_index_schema = record {
  capabilities = [];
  completions = [];
  meta = [];
  agent_scores = [];
  completion_receipts = [];
  agent_identity = [];
  indexed_logs = [];
  counterparty_confirmations = [];
  agent_diversity = [];
  alerts = [];
  alerts_seq = 0;
  admin_actions = [];
  admin_actions_seq = 0;
}
