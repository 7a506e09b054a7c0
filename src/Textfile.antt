-- ===== src/Textfile.antt =====
-- src/metrics/collector/textfile.go: metrics that other programs leave in files. What the file
-- system and the parser of the exposition format answer is in the directories that `update` is given;
-- text is bytes. Times are nanoseconds since 1970.
pub mod Labels
pub mod Accepts
pub mod Convert
pub mod Gather
pub mod Update
pub mod Loops
pub mod Help
pub mod NilHelp
pub mod Errors
pub mod Times
pub mod Total
mod Tests
use infra_pulse.Base.{
  ℕ, ◌+◌, ◌/◌, Bool, true, false, not, ◌&&◌, ◌||◌, Option, none, some, List, [], ◌∷◌, ◌++◌, ltb,
  nat_eq, list_eq, ◌==◌, length, if◌then◌else◌, Outcome, ok, err, panic, ◌>>=◌,
}
use infra_pulse.Base.Map.{Map, lookup, insert}
use infra_pulse.Base.Text.{Bytes, codes, has_suffix}

-- `dto.MetricType`
pub data MetricType : Type 0 where
  counter gauge summary untyped histogram gauge_histogram : MetricType

pub record Label : Type 0 where
  pub name : Bytes
  pub value : Bytes

-- `dto.Summary` and `dto.Histogram`: the assignments to the map of quantiles or buckets, in order.
pub record Summary (F : Type 0) : Type 0 where
  pub sample_count : ℕ
  pub sample_sum : F
  pub quantiles : List (F × F)

pub record Histogram (F : Type 0) : Type 0 where
  pub sample_count : ℕ
  pub sample_sum : F
  pub buckets : List (F × ℕ)

-- `dto.Metric`. The getters of the single values give 0 for nil, and so does the parser's reading.
pub record DtoMetric (F : Type 0) : Type 0 where
  pub labels : List Label
  pub timestamp_ms : Option ℕ
  pub counter : F
  pub gauge : F
  pub untyped : F
  pub summary : Option (Summary F)
  pub histogram : Option (Histogram F)

-- `dto.MetricFamily`
pub record MetricFamily (F : Type 0) : Type 0 where
  pub name : Bytes
  pub help : Option Bytes
  pub type : MetricType
  pub metrics : List (DtoMetric F)

-- The arguments of `NewDesc`.
pub record FamilyDesc : Type 0 where
  pub name : Bytes
  pub help : Bytes
  pub label_names : List Bytes

-- What goes to the channel, with the values of the labels last.
pub data Sent (F : Type 0) : Type 0 where
  const_metric : FamilyDesc → MetricType → F → List Bytes → Sent F
  const_summary : FamilyDesc → ℕ → F → List (F × F) → List Bytes → Sent F
  const_histogram : FamilyDesc → ℕ → F → List (F × ℕ) → List Bytes → Sent F

-- What the code leaves open: the order in which `range` visits the keys of `allLabelNames` in the round
-- of a metric, and whether `NewDesc` and the constructor of a metric accept a call.
pub record Runtime (F : Type 0) : Type 0 where
  pub visit : DtoMetric F → List Bytes → List Bytes
  pub accepts : Sent F → Bool

-- A call of `MustNewConstMetric`, `MustNewConstSummary` or `MustNewConstHistogram`, which panics unless
-- the library accepts it.
abbrev pub checked : {F : Type 0} → Runtime F → Sent F → Outcome Bytes (Sent F)
checked rt s = if rt.accepts s then ok s else panic

abbrev pub contains_name : List Bytes → Bytes → Bool
contains_name [] k = false
contains_name (n ∷ ns) k = k == n || contains_name ns k

-- The loop that fills `allLabelNames`, over the labels of one metric.
unfoldable pub add_labels : List Label → List Bytes → List Bytes
add_labels [] all = all
add_labels (l ∷ ls) all =
    add_labels ls (if contains_name all l.name then all else all ++ l.name ∷ [])

unfoldable pub all_label_names : {F : Type 0} → List (DtoMetric F) → List Bytes → List Bytes
all_label_names [] all = all
all_label_names (metric ∷ metrics) all = all_label_names metrics (add_labels metric.labels all)

-- `names` and `values` of one metric.
pub record Labelling : Type 0 where
  pub names : List Bytes
  pub values : List Bytes

unfoldable pub own_labels : List Label → Labelling
own_labels [] = record { names = []; values = [] }
own_labels (l ∷ ls) =
    let rest = own_labels ls in
    record { names = l.name ∷ rest.names; values = l.value ∷ rest.values }

-- The loop over `allLabelNames` that adds the missing names with the empty value.
unfoldable pub add_missing : List Bytes → Labelling → Labelling
add_missing [] l = l
add_missing (k ∷ all) l = add_missing all (
    if contains_name l.names k
    then l
    else record { names = l.names ++ k ∷ []; values = l.values ++ [] ∷ [] })

-- `mf.GetHelp()`
abbrev pub get_help : {F : Type 0} → MetricFamily F → Bytes
get_help mf = elim mf.help [ none ↦ [] | some h ↦ h ]

-- The sends for one metric; the default case of the switch panics, and so does reading a summary or
-- a histogram that is nil. `all` has the keys of `allLabelNames` in the order that `range` takes.
unfoldable pub convert_metric :
    {F : Type 0} → Runtime F → MetricFamily F → List Bytes → DtoMetric F → Outcome Bytes (Sent F)
convert_metric rt mf all metric =
    let l = add_missing all (own_labels metric.labels) in
    let desc : FamilyDesc = record { name = mf.name; help = get_help mf; label_names = l.names } in
    elim mf.type [
      | counter ↦ checked rt (const_metric desc counter metric.counter l.values)
      | gauge ↦ checked rt (const_metric desc gauge metric.gauge l.values)
      | untyped ↦ checked rt (const_metric desc untyped metric.untyped l.values)
      | summary ↦ elim metric.summary [
        | none ↦ panic
        | some s ↦ checked rt (const_summary desc s.sample_count s.sample_sum s.quantiles l.values)
      ]
      | histogram ↦ elim metric.histogram [
        | none ↦ panic
        | some h ↦ checked rt (const_histogram desc h.sample_count h.sample_sum h.buckets l.values)
      ]
      | gauge_histogram ↦ panic
    ]

-- The second loop.
unfoldable pub convert_all :
    {F : Type 0}
    → Runtime F
    → MetricFamily F
    → List Bytes
    → List (DtoMetric F)
    → Outcome Bytes (List (Sent F))
convert_all rt mf all [] = ok []
convert_all rt mf all (metric ∷ metrics) = do
  s ← convert_metric rt mf (rt.visit metric all) metric
  sends ← convert_all rt mf all metrics
  ok (s ∷ sends)

unfoldable pub convert_metric_family :
    {F : Type 0} → Runtime F → MetricFamily F → Outcome Bytes (List (Sent F))
convert_metric_family rt mf = convert_all rt mf (all_label_names mf.metrics []) mf.metrics
