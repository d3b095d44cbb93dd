-- ===== src/Tests/Metrics.antt =====
-- The metrics of packages/backend/src/metrics.ts and the ratings of packages/benchmark/src/scenarios.
use taop_protocol.Prelude.{
  ℕ, ◌+◌, ◌≤◌, ◌≡◌, ◌↔◌, refl, true, false, List, [], ◌∷◌, ◌++◌, Text, text, none, some, arith,
  length, count, nat_beq, text_eq,
}
use taop_protocol.Table.{find, put}
use taop_protocol.Indexer.Poll.{initial_status}
use taop_protocol.Metrics.{Scrape, escape_label, render_prometheus}
use taop_protocol.Metrics.Requests.{count_responses}
use taop_protocol.Metrics.Labels.{length-count_responses}
use taop_protocol.Metrics.Escape.{read_label, read_label-escape_label}
use taop_protocol.Metrics.Lines.{lines_if_read, newlines-render_prometheus}
use taop_protocol.Benchmark.Collusion.{
  Edge, member, build_graph, detect_by_k_core, numbered, ring_edges, evaluate,
}
use taop_protocol.Benchmark.Collusion.Core.{InCore}
use taop_protocol.Benchmark.Collusion.Graphs.{build_graph-IsUndirected, build_graph-InCore}
use taop_protocol.Benchmark.Collusion.Rings.{k_core-misses_none}

abbrev responses : List (Text × ℕ)
responses = (text "get", 200) ∷ (text "brew", 404) ∷ (text "GET", 204) ∷ []

length-count_responses_example : length (count_responses responses []) ≤ 80
length-count_responses_example = length-count_responses responses (omega arith)

abbrev nasty : Text
nasty = text "a\"\\\nb"

escapes : escape_label nasty ≡ text "a\\\"\\\\\\nb"
unfolding escape_label
escapes = refl

read_label-escape_label_example :
    read_label (escape_label nasty ++ b'"' ∷ text "} 1") ≡ some (nasty, text "} 1")
read_label-escape_label_example = read_label-escape_label nasty (text "} 1")

abbrev scrape : Scrape
scrape = record {
  uptime = 5;
  read_only = false;
  indexer = initial_status;
  webhooks = record {
    enabled = false;
    config_error = none;
    last_delivered_id = 0;
    pending = 0;
    delivered = 0;
    failed = 0;
    last_error = none;
    last_delivered_at = none;
  };
  requests = (text "k", record { method = nasty; status = text "2xx"; count = 3 }) ∷ [];
  alerts_stored = some 2;
  capabilities_indexed = none;
}

newlines-render_prometheus_example :
    count (λ c. nat_beq c b'\n') (render_prometheus scrape)
    ≡ 47
      + length scrape.requests
      + lines_if_read scrape.alerts_stored
      + lines_if_read scrape.capabilities_indexed
newlines-render_prometheus_example = newlines-render_prometheus scrape

abbrev edges : List Edge
edges = ring_edges 1 (numbered 0 4) (numbered 0 4) ++ (7, 8) ∷ []

flags_ring : detect_by_k_core (build_graph edges (numbered 0 4)) 3 ≡ 0 ∷ 1 ∷ 2 ∷ 3 ∷ []
unfolding detect_by_k_core build_graph ring_edges numbered member find put
flags_ring = refl

build_graph-InCore_example :
    (member 2 (detect_by_k_core (build_graph edges (numbered 0 4)) 3) ≡ true)
    ↔ InCore (build_graph edges (numbered 0 4)) (build_graph-IsUndirected edges (numbered 0 4)) 3 2
build_graph-InCore_example = build_graph-InCore edges (numbered 0 4) 3 2

k_core-misses_none_example :
    let ring = numbered 0 4 in
    let graph = build_graph (ring_edges 1 ring ring ++ (7, 8) ∷ []) (ring ++ 7 ∷ 8 ∷ []) in
    (evaluate (detect_by_k_core graph 3) ring).false_negatives ≡ 0
k_core-misses_none_example =
    k_core-misses_none 4 1 3 ((7, 8) ∷ []) (7 ∷ 8 ∷ []) (omega arith) (omega arith) (omega arith)
