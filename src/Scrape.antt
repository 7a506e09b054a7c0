-- ===== src/Scrape.antt =====
-- src/metrics/collector/collector.go: what a scrape sends. `execute` runs one collector; `Collect`
-- runs one goroutine for each, all sending on one channel, and waits for them. What a collector's
-- `Update` sends and returns, and the measured durations, are parameters; the logging is left out.
pub mod Interleaving
mod Tests
use infra_pulse.Base.{
  ℕ, ◌-◌, String, Option, none, some, List, [], ◌∷◌, ◌++◌, ◌≡◌, length, Outcome, ok, err, panic,
}
use infra_pulse.Base.Map.{Map}
use infra_pulse.Base.Int.{ℤ}
use infra_pulse.Metric.{Float64, FqName, build, Desc, ValueType, gauge, Metric}

abbrev pub namespace : String
namespace = "node"

abbrev pub scrape_duration_desc : Desc
scrape_duration_desc = record {
  fq_name = build namespace "scrape" "collector_duration_seconds";
  help = "node_exporter: Duration of a collector scrape.";
  label_names = "collector" ∷ [];
}

abbrev pub scrape_success_desc : Desc
scrape_success_desc = record {
  fq_name = build namespace "scrape" "collector_success";
  help = "node_exporter: Whether a collector succeeded.";
  label_names = "collector" ∷ [];
}

-- `Describe`
unfoldable pub describe : List Desc
describe = scrape_duration_desc ∷ scrape_success_desc ∷ []

-- What `Update` did: the metrics that it sent, and its error.
pub record Updated (F E : Type 0) : Type 0 where
  pub sent : List (Metric F)
  pub error : Option E

module _ {F : Type 0} ⦃fl : Float64 F⦄ where
  unfoldable pub success_value : {E : Type 0} → Option E → F
  success_value none = fl.from_uint 1
  success_value (some e) = fl.from_uint 0

  abbrev pub duration_metric : String → F → Metric F
  duration_metric name duration = record {
    desc = scrape_duration_desc;
    value_type = gauge;
    value = duration;
    label_values = name ∷ [];
  }

  abbrev pub success_metric : String → F → Metric F
  success_metric name success = record {
    desc = scrape_success_desc;
    value_type = gauge;
    value = success;
    label_values = name ∷ [];
  }

  -- The sends of `execute`, in order.
  unfoldable pub execute : {E : Type 0} → String → Updated F E → F → List (Metric F)
  unfolding success_value
  execute name updated duration =
      updated.sent
      ++ duration_metric name duration ∷ success_metric name (success_value updated.error) ∷ []

-- `Collect` in progress: the entries that its loop has yet to start, the sends that each running
-- goroutine has yet to make, the counter of the wait group, and what the channel has carried.
pub record Collecting (F C : Type 0) : Type 0 where
  pub pending : Map String C
  pub running : List (List (Metric F))
  pub waiting : ℕ
  pub sent : List (Metric F)

module _ {F C : Type 0} where
  -- Before the loop, after `wg.Add(len(n.Collectors))`.
  unfoldable pub collect_start : Map String C → Collecting F C
  collect_start collectors = record {
    pending = collectors;
    running = [];
    waiting = length collectors;
    sent = [];
  }

  -- `wg.Wait` returns, after the loop.
  abbrev pub IsDone : Collecting F C → Type 0
  IsDone s = (s.pending ≡ []) × (s.waiting ≡ 0)

  -- One step of any goroutine: the loop starts one, one sends its next metric, or one calls
  -- `wg.Done` behind its last. `run` gives the sends of `execute` for a collector.
  pub data Step (run : String → C → List (Metric F)) (s : Collecting F C)
      : Collecting F C → Type 0 where
    spawn :
        (name : String) (c : C) (rest : Map String C)
        → s.pending ≡ (name, c) ∷ rest
        → Step run s (record s { pending = rest; running = run name c ∷ s.running })
    send :
        (before after : List (List (Metric F))) (m : Metric F) (later : List (Metric F))
        → s.running ≡ before ++ (m ∷ later) ∷ after
        → Step run s (record s { running = before ++ later ∷ after; sent = s.sent ++ m ∷ [] })
    finish :
        (before after : List (List (Metric F)))
        → s.running ≡ before ++ [] ∷ after
        → Step run s (record s { running = before ++ after; waiting = s.waiting - 1 })

  pub data Reach (run : String → C → List (Metric F)) (s : Collecting F C)
      : Collecting F C → Type 0 where
    here : Reach run s s
    next : {t u : Collecting F C} → Reach run s t → Step run t u → Reach run s u

-- The dynamic type and the value of an `interface{}`, as far as `pushMetric` tells them apart; a
-- pointer is nil or points to a value.
pub data Value : Type 0 where
  uint8 uint16 uint32 uint64 : ℕ → Value
  int64 : ℤ → Value
  uint8_ptr uint16_ptr uint32_ptr uint64_ptr : Option ℕ → Value
  int64_ptr : Option ℤ → Value
  other : Value

module _ {F : Type 0} ⦃fl : Float64 F⦄ where
  -- The conversion to float64, or a return before the send.
  unfoldable pub float_value : Value → Option F
  float_value (uint8 n) = some (fl.from_uint n)
  float_value (uint16 n) = some (fl.from_uint n)
  float_value (uint32 n) = some (fl.from_uint n)
  float_value (uint64 n) = some (fl.from_uint n)
  float_value (int64 n) = some (fl.from_int n)
  float_value (uint8_ptr none) = none
  float_value (uint8_ptr (some n)) = some (fl.from_uint n)
  float_value (uint16_ptr none) = none
  float_value (uint16_ptr (some n)) = some (fl.from_uint n)
  float_value (uint32_ptr none) = none
  float_value (uint32_ptr (some n)) = some (fl.from_uint n)
  float_value (uint64_ptr none) = none
  float_value (uint64_ptr (some n)) = some (fl.from_uint n)
  float_value (int64_ptr none) = none
  float_value (int64_ptr (some n)) = some (fl.from_int n)
  float_value other = none

  -- What `pushMetric` sends. Its argument `name` is not used by the code either.
  unfoldable pub push_metric : Desc → String → Value → ValueType → List String → List (Metric F)
  unfolding float_value
  push_metric field_desc name value value_type label_values = elim (float_value value) [
    | none ↦ []
    | some v ↦
        record {
          desc = field_desc;
          value_type = value_type;
          value = v;
          label_values = label_values;
        }
        ∷ []
  ]
