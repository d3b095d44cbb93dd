-- ===== src/Metrics.antt =====
-- packages/backend/src/metrics.ts: the counters of responses, and the text that Prometheus reads. The
-- values are finite numbers that are not negative.
pub mod Decimal
pub mod Requests
mod Within
pub mod Labels
pub mod Escape
pub mod Lines
use mathlib.Core.Option
use taop_protocol.Prelude.{
  ℕ, ◌+◌, ◌/◌, Bool, true, false, ◌||◌, List, [], ◌∷◌, ◌++◌, map, Text, text, String, Option, none,
  some, ◌==◌, text_eq, if◌then◌else◌, leb, ◌&&◌, ◌-◌, bit, nat_beq, length,
}
use taop_protocol.Table.{Table, find, put, update}
use taop_protocol.Index.{Index}
use taop_protocol.Index.Alerts.{count_alerts_after}
use taop_protocol.Indexer.Poll.{IndexerStatus}
use taop_protocol.Webhooks.Status.{WebhookStatus}
use taop_protocol.Metrics.Decimal.{decimal}

upper_code : ℕ → ℕ
upper_code c = if leb b'a' c && leb c b'z' then c - 32 else c

-- String.prototype.toUpperCase, on ASCII.
unfoldable pub to_upper : Text → Text
unfolding upper_code
to_upper = map upper_code

abbrev pub known_methods : List Text
known_methods =
    text "GET"
    ∷ text "HEAD"
    ∷ text "POST"
    ∷ text "PUT"
    ∷ text "PATCH"
    ∷ text "DELETE"
    ∷ text "OPTIONS"
    ∷ []

unfoldable pub is_member : Text → List Text → Bool
is_member t [] = false
is_member t (x ∷ xs) = x == t || is_member t xs

unfoldable pub normalize_http_method : Text → Text
unfolding to_upper is_member
normalize_http_method method =
    let upper = to_upper method in if is_member upper known_methods then upper else text "OTHER"

pub record HttpEntry : Type 0 where
  pub method : Text
  pub status : Text
  pub count : ℕ

unfoldable pub status_class : ℕ → Text
status_class status_code = decimal (status_code / 100) ++ text "xx"

unfoldable pub request_key : Text → ℕ → Text
unfolding status_class normalize_http_method
request_key method status_code = normalize_http_method method ++ b':' ∷ status_class status_code

-- The listener of `metricsMiddleware`, when a response is finished.
unfoldable pub count_response : Text → ℕ → Table Text HttpEntry → Table Text HttpEntry
unfolding request_key
count_response method status_code entries =
    let key = request_key method status_code in
    elim (find key entries) [
      | some entry ↦ update key (λ e. record e { count = e.count + 1 }) entries
      | none ↦
          put key
            (record {
              method = normalize_http_method method;
              status = status_class status_code;
              count = 1;
            })
            entries
    ]

-- .replace(/c/g, by) at one character.
unfoldable pub replace_all : ℕ → Text → Text → Text
replace_all c by [] = []
replace_all c by (d ∷ ds) =
    let rest = replace_all c by ds in if nat_beq d c then by ++ rest else d ∷ rest

unfoldable pub escape_label : Text → Text
unfolding replace_all
escape_label value =
    replace_all b'\n' (text "\\n")
      (replace_all b'"' (text "\\\"") (replace_all b'\\' (text "\\\\") value))

pub data MetricType : Type 0 where
  counter gauge : MetricType

abbrev pub type_text : MetricType → Text
type_text counter = text "counter"
type_text gauge = text "gauge"

pub record Sample : Type 0 where
  pub labels : List (Text × Text)
  pub value : ℕ

-- xs.join(sep)
unfoldable pub join : Text → List Text → Text
join sep [] = []
join sep (x ∷ []) = x
join sep (x ∷ y ∷ rest) = x ++ (sep ++ join sep (y ∷ rest))

abbrev pub label_text : Text × Text → Text
label_text (k, v) = k ++ (text "=\"" ++ (escape_label v ++ text "\""))

-- No braces where the sample has no labels.
abbrev pub labels_text : List (Text × Text) → Text
labels_text [] = []
labels_text (l ∷ ls) = b'{' ∷ (join (text ",") (map label_text (l ∷ ls)) ++ text "}")

unfoldable pub sample_line : Text → Sample → Text
unfolding escape_label join
sample_line name s = name ++ (labels_text s.labels ++ b' ' ∷ decimal s.value)

abbrev pub metric_lines : Text → Text → MetricType → List Sample → List Text
metric_lines name help type samples =
    (text "# HELP " ++ (name ++ b' ' ∷ help))
    ∷ (text "# TYPE " ++ (name ++ b' ' ∷ type_text type))
    ∷ map (sample_line name) samples

unfoldable pub metric : Text → Text → MetricType → List Sample → Text
unfolding join sample_line
metric name help type samples = join (text "\n") (metric_lines name help type samples)

abbrev pub plain : ℕ → List Sample
plain value = record { labels = []; value = value } ∷ []

abbrev pub entry_sample : Text × HttpEntry → Sample
entry_sample (key, e) = record {
  labels = (text "method", e.method) ∷ (text "status", e.status) ∷ [];
  value = e.count;
}

-- What a scrape reads; `none` is a count whose read threw.
pub record Scrape : Type 0 where
  pub uptime : ℕ
  pub read_only : Bool
  pub indexer : IndexerStatus
  pub webhooks : WebhookStatus
  pub requests : Table Text HttpEntry
  pub alerts_stored : Option ℕ
  pub capabilities_indexed : Option ℕ

-- A metric with its name, help and type.
pub record Metric : Type 0 where
  pub name : Text
  pub help : Text
  pub type : MetricType
  pub samples : List Sample

abbrev pub if_read : Option ℕ → Text → Text → List Metric
if_read none name help = []
if_read (some n) name help =
    record { name = name; help = help; type = gauge; samples = plain n } ∷ []

abbrev row : String → String → MetricType → ℕ → Metric
row name help type value = record {
  name = text name;
  help = text help;
  type = type;
  samples = plain value;
}

unfoldable pub metrics : Scrape → List Metric
metrics s =
    row "taop_uptime_seconds" "Backend process uptime in seconds." gauge s.uptime
    ∷ row "taop_writes_disabled" "1 when DEMO_READ_ONLY=true (all write routes return 503)." gauge
        (bit s.read_only)
    ∷ row "taop_indexer_enabled" "1 when the off-chain indexer is running." gauge
        (bit s.indexer.enabled)
    ∷ row "taop_indexer_ready" "1 once the index has data and a live cursor." gauge
        (bit s.indexer.ready)
    ∷ row "taop_indexer_last_block" "Last fully indexed block." gauge s.indexer.last_block
    ∷ row "taop_indexer_head_block" "Chain head observed by the indexer." gauge s.indexer.head_block
    ∷ row "taop_indexer_lag_blocks" "head_block - last_block." gauge s.indexer.lag
    ∷ row "taop_indexer_reorgs_total" "Chain reorganizations detected and rebuilt." counter
        s.indexer.reorgs_detected
    ∷ row "taop_indexer_alerts_pruned_total" "Alert rows removed by retention." counter
        s.indexer.alerts_pruned
    ∷ row "taop_indexer_log_markers_pruned_total" "Idempotency log markers removed by retention."
        counter s.indexer.markers_pruned
    ∷ row "taop_webhooks_enabled" "1 when a valid webhook subscriber is configured." gauge
        (bit s.webhooks.enabled)
    ∷ row "taop_webhooks_pending" "Alerts not yet delivered to the subscriber." gauge
        s.webhooks.pending
    ∷ row "taop_webhooks_last_delivered_id" "Id of the newest delivered alert." gauge
        s.webhooks.last_delivered_id
    ∷ row "taop_webhooks_delivered_total" "Successful webhook deliveries." counter
        s.webhooks.delivered
    ∷ row "taop_webhooks_failed_total" "Failed webhook delivery attempts." counter s.webhooks.failed
    ∷ record {
      name = text "taop_http_requests_total";
      help = text "HTTP responses by method and status class.";
      type = counter;
      samples = map entry_sample s.requests;
    }
    ∷ (if_read s.alerts_stored (text "taop_alerts_stored")
          (text "Alert rows currently stored (after retention).")
        ++ if_read s.capabilities_indexed (text "taop_capabilities_indexed")
            (text "Capabilities known to the index."))

abbrev metric_text : Metric → Text
metric_text m = metric m.name m.help m.type m.samples

unfoldable pub render_prometheus : Scrape → Text
unfolding metrics metric
render_prometheus s = join (text "\n") (map metric_text (metrics s)) ++ text "\n"

-- What a scrape reads of the tables and the two tasks.
unfoldable pub read_scrape :
    ℕ → Bool → IndexerStatus → WebhookStatus → Table Text HttpEntry → Index → Scrape
read_scrape uptime read_only indexer webhooks requests ix = record {
  uptime = uptime;
  read_only = read_only;
  indexer = indexer;
  webhooks = webhooks;
  requests = requests;
  alerts_stored = some (count_alerts_after 0 ix);
  capabilities_indexed = some (length ix.capabilities);
}
