-- ===== src/Tests/Server.antt =====
-- The server of packages/backend/src/server.ts and contracts.ts against a node that is written out.
use taop_protocol.Prelude.{
  ℕ, ◌+◌, ◌-◌, ◌≡◌, ◌⊎◌, refl, true, false, [], ◌∷◌, ◌++◌, Text, text, List, Option, none, some,
  All, length, min, text_beq, nat_beq, to_lower, if◌then◌else◌,
}
use taop_protocol.Prelude.Int.{pos}
use taop_protocol.Sort.{IsOrdered, by_key_desc, sort_by, insert_by}
use taop_protocol.Index.{init_index_schema}
use taop_protocol.Index.Logs.{get_meta, set_meta}
use taop_protocol.Index.Cache.{is_capability_registered}
use taop_protocol.Table.{find}
use taop_protocol.Server.Replies.{is_revert}
use taop_protocol.Index.Alerts.{Number, finite, not_finite}
use taop_protocol.Indexer.{ok, err}
use taop_protocol.Indexer.Decay.{default_decay}
use taop_protocol.Indexer.Poll.{initial_status}
use taop_protocol.Webhooks.Config.{trim}
use taop_protocol.Webhooks.Hosts.{after_prefix}
use taop_protocol.Server.Gate.{
  ServerEnv, Settings, ApiRequest, Limits, start_server, is_write_request, is_open_path, gate, next,
  is_loopback_host, load_settings, require_api_key, port_of,
}
use taop_protocol.Server.Gate.Keyed.{start_server-gate}
use taop_protocol.Server.Contracts.{Contracts, Codec, BackendState, World, CapabilityData}
use taop_protocol.Server.Timelock.{execute_via_timelock, TimelockResult}
use taop_protocol.Server.Timelock.Outcomes.{
  IsExecuted, IsOutcome, execute_via_timelock-IsOutcome, execute_via_timelock-executes,
}
use taop_protocol.Server.Replies.{BodyValue, flag}
use taop_protocol.Server.Routes.{Route, run_route, Permits}
use taop_protocol.Server.Routes.Permitted.{run_route-Permits}
use taop_protocol.Server.Bootstrap.{ensure_capability}
use taop_protocol.Server.Bootstrap.Owned.{Owned, ensure_capability-Owned}
use taop_protocol.Server.Discover.{
  item_of, on_chain_discover, DiscoverQuery, DiscoveredItem, Page, on_chain, from_chain, scan_ids,
}
use taop_protocol.Server.Discover.Pages.{Qualifies, from_chain_page, scan_ids-stale}

abbrev number : Text → Number
number t = if text_beq t (text "4000") then finite (pos 4000) false else finite (pos 7) false

abbrev env : ServerEnv
env = record {
  host = some (text "0.0.0.0");
  port = none;
  api_key = some (text "k1");
  read_only = none;
}

abbrev settings : Settings
settings = record {
  host = text "0.0.0.0";
  port = 4000;
  api_key = some (text "k1");
  writes_disabled = false;
}

starts : start_server number env ≡ some settings
unfolding start_server load_settings is_loopback_host text_beq trim port_of
starts = refl

abbrev post_demo : ApiRequest
post_demo = record { method = text "POST"; path = text "/demo/run"; key_header = some (text "k1") }

abbrev no_limits : Limits
no_limits = record { read_exceeded = false; write_exceeded = false }

is_write : is_write_request post_demo.method ≡ true
unfolding is_write_request text_beq
is_write = refl

is_guarded : is_open_path post_demo.path ≡ false
unfolding is_open_path text_beq after_prefix
is_guarded = refl

passes : gate settings no_limits post_demo ≡ next
unfolding gate require_api_key is_write_request is_open_path text_beq after_prefix
passes = refl

start_server-gate_example :
    (settings.writes_disabled ≡ false)
    × ((is_loopback_host settings.host ≡ true) × (settings.api_key ≡ none)
        ⊎ ((c : ℕ) × (cs : Text) × (settings.api_key ≡ some (c ∷ cs))
            × (post_demo.key_header ≡ some (c ∷ cs))))
start_server-gate_example =
    start_server-gate number env settings no_limits post_demo starts is_write is_guarded passes

-- A node that answers every call, with a capability under each id but 9, and no delay.
abbrev agent : Text
agent = text "0xa1"

abbrev cap_of : ℕ → CapabilityData
cap_of id = record {
  creator = agent;
  bond = id;
  capability_type = text "0xh";
  metadata_cid = text "cid";
  certified = true;
  slashed = false;
}

abbrev node : Contracts ℕ
node = record {
  reset_oracle = λ w. w + 1;
  reset_agent_a = λ w. w + 1;
  now_iso = λ w. text "now";
  now_digits = λ w. text "1";
  get_balance = λ a w. (ok 10, w);
  challenge_bond = λ w. (ok 3, w);
  get_completion = λ id w. (
    ok (record {
      agent = agent;
      task_type = text "t";
      result_cid = text "r";
      timestamp = 0;
      challenged = false;
      disputed = false;
    }),
    w,
  );
  attest_completion = λ t c w. (ok (1, none), w);
  challenge_completion = λ id e b w. (ok (some (text "h")), w);
  contest_challenge = λ id c w. (ok none, w);
  attest_receipt = λ id c w. (ok none, w);
  revoke_receipt = λ id w. (ok none, w);
  finalize_challenge = λ id w. (ok none, w);
  register_agent = λ c w. (ok none, w);
  call_as_owner = λ o w. (ok none, w);
  get_agent_metadata = λ a w. (ok (text "m"), w);
  get_ranking_score = λ a w.
      (ok (record { completions = 4; disputes = 0; score = 4; score_type = text "credit" }), w);
  stake = λ a w. (ok 0, w);
  deposit_stake = λ n w. (ok none, w);
  get_capabilities_by_type = λ t w. (ok (1 ∷ 9 ∷ 2 ∷ []), w);
  get_capability = λ id w. (if nat_beq id 9 then err (text "revert") else ok (cap_of id), w);
  total_supply = λ w. (ok 1, w);
  token_by_index = λ i w. (ok 5, w);
  register_capability_eth = λ s t c b w. (ok (7, none), w);
  certify_capability = λ id w. (ok none, w);
  pin_model_card = λ w. (ok (text "card"), w);
  salt = λ w. text "salt";
  get_min_delay = λ w. (ok 0, w);
  schedule = λ t p s d w. (ok none, w);
  hash_operation = λ t p s w. (ok (text "id"), w);
  is_operation_ready = λ id w. (err (text "lag"), w);
  execute = λ t p s w. (ok (some (text "done")), w);
}

abbrev first : List ℕ → Option ℕ
first [] = none
first (id ∷ rest) = some id

abbrev codec : Codec
codec = record {
  id = λ t. text "0xH";
  encode_function_data = λ o. text "data";
  format_ether = λ n. text "e";
  parse_ether = λ t. ok 5;
  number_of_text = number;
  first_row = first;
}

abbrev backend : BackendState
backend = record {
  deployment = record {
    chain_id = 84532;
    ron = text "0xr";
    registry = text "0xg";
    timelock = some (text "0xt");
    validator = text "0xv";
    agent_a = agent;
  };
  oracle_address = text "0xo";
  agent_a_address = agent;
  uses_timelock = true;
}

abbrev world : World ℕ
world = record {
  index = init_index_schema;
  chain = 0;
  capability_id = 0;
  capability_metadata_cid = [];
}

abbrev text_of : BodyValue → Text
text_of v = text "x"

abbrev number_of : BodyValue → Number
number_of v = not_finite

abbrev uphold : Route
uphold = Route.resolve 3 (flag true)

run_route-Permits_example :
    let out = run_route node codec text_of number_of backend uphold world in
    Permits number_of backend uphold out.0.status world.index out.1.index
run_route-Permits_example = run_route-Permits node codec text_of number_of backend uphold world

execute_via_timelock-executes_example :
    (r : TimelockResult) × (t : ℕ) × (execute_via_timelock node (text "0xr") (text "data") 0
      ≡ (ok r, t))
    × IsExecuted node (text "0xr") (text "data") 0 r t
execute_via_timelock-executes_example =
    execute_via_timelock-executes node
      (record {
        no_delay = λ w. (w, refl);
        schedules = λ t p s d w. (none, w, refl);
        hashes = λ t p s w. (text "id", w, refl);
        executes = λ t p s w. (some (text "done"), w, refl);
      })
      (text "0xr") (text "data") 0

abbrev at_once : TimelockResult
at_once = record { receipt = some (text "done"); executed = true; scheduled = false; delay = 0 }

executed_at_once : execute_via_timelock node (text "0xr") (text "data") 0 ≡ (ok at_once, 11)
unfolding execute_via_timelock
executed_at_once = refl

execute_via_timelock-IsOutcome_example : IsOutcome node (text "0xr") (text "data") 0 at_once 11
execute_via_timelock-IsOutcome_example =
    execute_via_timelock-IsOutcome node (text "0xr") (text "data") 0 executed_at_once

ensured :
    ensure_capability node codec backend world
    ≡ (ok tt, (ensure_capability node codec backend world).1)
unfolding ensure_capability get_meta set_meta find is_capability_registered sort_by to_lower
    text_beq
ensured = refl

ensure_capability-Owned_example :
    Owned node codec backend (ensure_capability node codec backend world).1.capability_id
ensure_capability-Owned_example = ensure_capability-Owned node codec backend world _ ensured

abbrev query : DiscoverQuery
query = record { capability_type = text "LoRA"; min_score = 2; limit = 1; offset = 1; now = 0 }

abbrev item : ℕ → DiscoveredItem
item id =
    item_of node codec.format_ether (text "LoRA") 2 id (cap_of id)
      (record { completions = 4; disputes = 0; score = 4; score_type = text "credit" }) (text "m")

abbrev second_page : Page DiscoveredItem
second_page = record { items = item 2 ∷ []; total = 2; offset = 1; limit = 1 }

pages : from_chain node codec default_decay initial_status query 0 ≡ (ok (on_chain second_page), 0)
unfolding from_chain on_chain_discover sort_by insert_by is_revert
pages = refl

from_chain_page_example :
    IsOrdered (by_key_desc (λ i. i.score)) second_page.items
    × All (Qualifies query.min_score) second_page.items
    × (length second_page.items ≡ min query.limit (second_page.total - query.offset))
from_chain_page_example = from_chain_page node codec default_decay initial_status query 0 pages

scan_ids-stale_example :
    scan_ids node codec.format_ether (text "LoRA") 2 ((1 ∷ []) ++ 9 ∷ 2 ∷ [])
    ≡ scan_ids node codec.format_ether (text "LoRA") 2 ((1 ∷ []) ++ 2 ∷ [])
scan_ids-stale_example =
    scan_ids-stale node codec.format_ether (text "LoRA") 2 (1 ∷ []) 9 (2 ∷ [])
      (λ w. (text "revert", refl))
