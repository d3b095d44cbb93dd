-- ===== src/Metrics/Lines.antt =====
-- The lines of the text of packages/backend/src/metrics.ts.
use taop_protocol.Prelude.{
  ℕ, suc, ◌+◌, ◌≤◌, ◌≡◌, refl, ap, ◌∙◌, List, [], ◌∷◌, ◌++◌, map, Text, text, Option, none, some,
  nat_beq, arith, length, count, count-append, All,
}
use taop_protocol.Table.{Table}
use taop_protocol.Metrics.Decimal.{decimal}
use taop_protocol.Metrics.Escape.{newlines, newlines-escape_label, newlines-decimal_within}
use taop_protocol.Metrics.{
  escape_label, join, label_text, labels_text, sample_line, metric, Sample, MetricType, type_text,
  Metric, Scrape, HttpEntry, entry_sample, plain, if_read, metrics, metric_text, render_prometheus,
}

newlines-append : (xs ys : Text) → newlines (xs ++ ys) ≡ newlines xs + newlines ys
newlines-append xs ys = count-append (λ c. nat_beq c b'\n') xs ys

newlines-decimal : (n : ℕ) → newlines (decimal n) ≡ 0
unfolding decimal
newlines-decimal n = newlines-decimal_within (suc n) n

abbrev Plain : Text → Type 0
Plain t = newlines t ≡ 0

join-Plain : (sep : Text) (xs : List Text) → Plain sep → All Plain xs → Plain (join sep xs)
unfolding join
join-Plain sep [] s h = refl
join-Plain sep (x ∷ []) s h = h.0
join-Plain sep (x ∷ y ∷ rest) s h = omega (
  arith,
  newlines-append x (sep ++ join sep (y ∷ rest)),
  newlines-append sep (join sep (y ∷ rest)),
  join-Plain sep (y ∷ rest) s h.1,
  h.0,
  s,
)

-- The names of the labels are constants of the source.
abbrev Named : Sample → Type 0
Named s = All (λ l. Plain l.0) s.labels

label_text-Plain : (l : Text × Text) → Plain l.0 → Plain (label_text l)
label_text-Plain (k, v) h = omega (
  arith,
  newlines-append k (text "=\"" ++ (escape_label v ++ text "\"")),
  newlines-append (escape_label v) (text "\""),
  newlines-escape_label v,
  h,
)

labels-Plain : (ls : List (Text × Text)) → All (λ l. Plain l.0) ls → All Plain (map label_text ls)
labels-Plain [] h = tt
labels-Plain (l ∷ ls) h = (label_text-Plain l h.0, labels-Plain ls h.1)

labels_text-Plain : (ls : List (Text × Text)) → All (λ l. Plain l.0) ls → Plain (labels_text ls)
labels_text-Plain [] h = refl
labels_text-Plain (l ∷ ls) h =
    let joined = join (text ",") (map label_text (l ∷ ls)) in
    omega (
      arith,
      newlines-append joined (text "}"),
      join-Plain (text ",") (map label_text (l ∷ ls)) refl (labels-Plain (l ∷ ls) h),
    )

sample_line-Plain : (name : Text) (s : Sample) → Plain name → Named s → Plain (sample_line name s)
unfolding sample_line
sample_line-Plain name s n h = omega (
  arith,
  newlines-append name (labels_text s.labels ++ b' ' ∷ decimal s.value),
  newlines-append (labels_text s.labels) (b' ' ∷ decimal s.value),
  labels_text-Plain s.labels h,
  newlines-decimal s.value,
  n,
)

sample_lines-Plain :
    (name : Text) (samples : List Sample)
    → Plain name
    → All Named samples
    → All Plain (map (sample_line name) samples)
sample_lines-Plain name [] n h = tt
sample_lines-Plain name (s ∷ samples) n h =
    (sample_line-Plain name s n h.0, sample_lines-Plain name samples n h.1)

-- Lines joined by newlines are as many as there are.
newlines-join :
    (x : Text) (xs : List Text)
    → All Plain (x ∷ xs)
    → newlines (join (text "\n") (x ∷ xs)) ≡ length xs
unfolding join
newlines-join x [] h = h.0
newlines-join x (y ∷ rest) h = omega (
  arith,
  newlines-append x (text "\n" ++ join (text "\n") (y ∷ rest)),
  newlines-join y rest h.1,
  h.0,
)

length-map_line :
    (name : Text) (samples : List Sample) → length (map (sample_line name) samples) ≡ length samples
length-map_line name [] = refl
length-map_line name (s ∷ samples) = ap suc (length-map_line name samples)

type_text-Plain : (type : MetricType) → Plain (type_text type)
type_text-Plain MetricType.counter = refl
type_text-Plain MetricType.gauge = refl

-- A metric whose texts are lines.
record IsPlain (m : Metric) : Type 0 where
  pub name_line : Plain m.name
  pub help_line : Plain m.help
  pub named : All Named m.samples

newlines-metric : (m : Metric) → IsPlain m → newlines (metric_text m) ≡ suc (length m.samples)
unfolding metric
newlines-metric m p =
    let help = text "# HELP " ++ (m.name ++ b' ' ∷ m.help) in
    let kind = text "# TYPE " ++ (m.name ++ b' ' ∷ type_text m.type) in
    let help_plain : Plain help =
      omega (arith, newlines-append m.name (b' ' ∷ m.help), p.name_line, p.help_line) in
    let kind_plain : Plain kind = omega (
      arith,
      newlines-append m.name (b' ' ∷ type_text m.type),
      p.name_line,
      type_text-Plain m.type,
    ) in
    newlines-join help (kind ∷ map (sample_line m.name) m.samples)
      (help_plain, (kind_plain, sample_lines-Plain m.name m.samples p.name_line p.named))
    ∙ ap suc (length-map_line m.name m.samples)

-- HELP, TYPE, and a line for each sample.
abbrev line_count : List Metric → ℕ
line_count [] = 0
line_count (m ∷ ms) = 2 + length m.samples + line_count ms

newlines-metrics :
    (m : Metric) (ms : List Metric)
    → All IsPlain (m ∷ ms)
    → newlines (join (text "\n") (map metric_text (m ∷ ms))) + 1 ≡ line_count (m ∷ ms)
unfolding join
newlines-metrics m [] h = omega (arith, newlines-metric m h.0)
newlines-metrics m (n ∷ ms) h =
    let rest = join (text "\n") (map metric_text (n ∷ ms)) in
    omega (
      arith,
      newlines-append (metric_text m) (text "\n" ++ rest),
      newlines-metric m h.0,
      newlines-metrics n ms h.1,
    )

newlines_total :
    (ms : List Metric)
    → 1 ≤ length ms
    → All IsPlain ms
    → newlines (join (text "\n") (map metric_text ms)) + 1 ≡ line_count ms
newlines_total [] n h = absurd (omega arith)
newlines_total (m ∷ ms) n h = newlines-metrics m ms h

entries-Named : (requests : Table Text HttpEntry) → All Named (map entry_sample requests)
entries-Named [] = tt
entries-Named (r ∷ rest) = ((refl, (refl, tt)), entries-Named rest)

if_read-IsPlain :
    (o : Option ℕ) (name help : Text) → Plain name → Plain help → All IsPlain (if_read o name help)
if_read-IsPlain none name help n h = tt
if_read-IsPlain (some v) name help n h =
    (record { name_line = n; help_line = h; named = (tt, tt) }, tt)

All-append : (P : Metric → Type 0) (xs ys : List Metric) → All P xs → All P ys → All P (xs ++ ys)
All-append P [] ys h k = k
All-append P (x ∷ xs) ys h k = (h.0, All-append P xs ys h.1 k)

plain_row :
    (name help : Text) (type : MetricType) (value : ℕ)
    → Plain name
    → Plain help
    → IsPlain (record { name = name; help = help; type = type; samples = plain value })
plain_row name help type value n h = record { name_line = n; help_line = h; named = (tt, tt) }

metrics-IsPlain : (s : Scrape) → All IsPlain (metrics s)
unfolding metrics
metrics-IsPlain s = (
  plain_row _ _ _ _ refl refl,
  (
    plain_row _ _ _ _ refl refl,
    (
      plain_row _ _ _ _ refl refl,
      (
        plain_row _ _ _ _ refl refl,
        (
          plain_row _ _ _ _ refl refl,
          (
            plain_row _ _ _ _ refl refl,
            (
              plain_row _ _ _ _ refl refl,
              (
                plain_row _ _ _ _ refl refl,
                (
                  plain_row _ _ _ _ refl refl,
                  (
                    plain_row _ _ _ _ refl refl,
                    (
                      plain_row _ _ _ _ refl refl,
                      (
                        plain_row _ _ _ _ refl refl,
                        (
                          plain_row _ _ _ _ refl refl,
                          (
                            plain_row _ _ _ _ refl refl,
                            (
                              plain_row _ _ _ _ refl refl,
                              (
                                record {
                                  name_line = refl;
                                  help_line = refl;
                                  named = entries-Named s.requests;
                                },
                                All-append IsPlain (if_read s.alerts_stored _ _)
                                    (if_read s.capabilities_indexed _ _)
                                    (if_read-IsPlain s.alerts_stored _ _ refl refl)
                                    (if_read-IsPlain s.capabilities_indexed _ _ refl refl),
                              ),
                            ),
                          ),
                        ),
                      ),
                    ),
                  ),
                ),
              ),
            ),
          ),
        ),
      ),
    ),
  ),
)

-- The lines of a metric with one sample, where it could be read.
abbrev pub lines_if_read : Option ℕ → ℕ
lines_if_read none = 0
lines_if_read (some n) = 3

line_count-append : (xs ys : List Metric) → line_count (xs ++ ys) ≡ line_count xs + line_count ys
line_count-append [] ys = omega arith
line_count-append (x ∷ xs) ys = omega (arith, line_count-append xs ys)

line_count-if_read :
    (o : Option ℕ) (name help : Text) → line_count (if_read o name help) ≡ lines_if_read o
line_count-if_read none name help = refl
line_count-if_read (some n) name help = refl

length-map_entry : (t : Table Text HttpEntry) → length (map entry_sample t) ≡ length t
length-map_entry [] = refl
length-map_entry (r ∷ t) = ap suc (length-map_entry t)

-- Whatever the labels hold, the text of a scrape has 47 lines, one more for each label set of the
-- counted responses, and three for each of the two stored counts that could be read: no label value
-- adds or splits a line.
pub newlines-render_prometheus :
    (s : Scrape)
    → count (λ c. nat_beq c b'\n') (render_prometheus s)
      ≡ 47
        + length s.requests
        + lines_if_read s.alerts_stored
        + lines_if_read s.capabilities_indexed
unfolding render_prometheus metrics
newlines-render_prometheus s =
    let stored =
      if_read s.alerts_stored (text "taop_alerts_stored")
        (text "Alert rows currently stored (after retention).") in
    let known =
      if_read s.capabilities_indexed (text "taop_capabilities_indexed")
        (text "Capabilities known to the index.") in
    omega (
      arith,
      newlines-append (join (text "\n") (map metric_text (metrics s))) (text "\n"),
      newlines_total (metrics s) (omega arith) (metrics-IsPlain s),
      line_count-append stored known,
      line_count-if_read s.alerts_stored (text "taop_alerts_stored")
          (text "Alert rows currently stored (after retention)."),
      line_count-if_read s.capabilities_indexed (text "taop_capabilities_indexed")
          (text "Capabilities known to the index."),
      length-map_entry s.requests,
    )
