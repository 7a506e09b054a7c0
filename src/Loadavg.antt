-- ===== src/Loadavg.antt =====
-- src/metrics/collector/loadavg.go and loadavg_linux.go: the load averages, from /proc/loadavg.
mod Reads
mod Tests
use infra_pulse.Base.{
  ℕ, String, Option, none, some, List, [], ◌∷◌, nat_eq, ltb, length, take, if◌then◌else◌, Outcome,
  ok, err, panic, ◌>>=◌,
}
use infra_pulse.Base.Text.{Bytes, fields}
use infra_pulse.Metric.{whole, Desc, gauge, Metric}

-- A description of a load average, by its name and its help text.
abbrev load_desc : String → String → Desc
load_desc name help = record { fq_name = whole name; help = help; label_names = [] }

abbrev pub load1_desc : Desc
load1_desc = load_desc "node_load1" "1m load average."

abbrev pub load5_desc : Desc
load5_desc = load_desc "node_load5" "5m load average."

abbrev pub load15_desc : Desc
load15_desc = load_desc "node_load15" "15m load average."

-- `NewLoadavgCollector`: the descriptions, each of a gauge.
abbrev pub load_descs : List Desc
load_descs = load1_desc ∷ load5_desc ∷ load15_desc ∷ []

pub data LoadError : Type 0 where
  unreadable : Bytes → LoadError
  unexpected_content : LoadError
  invalid_load : Bytes → LoadError

module _ {F : Type 0} where
  -- The loop of `parseLoad`.
  unfoldable pub parse_loads : (Bytes → Option F) → List Bytes → Outcome LoadError (List F)
  parse_loads parse_float [] = ok []
  parse_loads parse_float (load ∷ loads) = elim (parse_float load) [
    | none ↦ err (invalid_load load)
    | some v ↦ do vs ← parse_loads parse_float loads; ok (v ∷ vs)
  ]

  -- `parseLoad`
  unfoldable pub parse_load : (Bytes → Option F) → Bytes → Outcome LoadError (List F)
  parse_load parse_float text =
      let parts = fields text in
      if ltb (length parts) 3
      then err unexpected_content
      else parse_loads parse_float (take 3 parts)

  -- `getLoad`, by what `os.ReadFile` gives.
  abbrev pub get_load : (Bytes → Option F) → Outcome Bytes Bytes → Outcome LoadError (List F)
  get_load parse_float (ok text) = parse_load parse_float text
  get_load parse_float (err e) = err (unreadable e)
  get_load parse_float panic = panic

  -- The loop of `Update` over the loads and the descriptions behind those used; an index out of range
  -- panics.
  unfoldable pub send_loads : List Desc → List F → List (Metric F) × Outcome LoadError (Unit {0})
  send_loads descs [] = ([], ok tt)
  send_loads [] (load ∷ loads) = ([], panic)
  send_loads (desc ∷ descs) (load ∷ loads) =
      let (sent, result) = send_loads descs loads in
      (record { desc = desc; value_type = gauge; value = load; label_values = [] } ∷ sent, result)

  -- `Update`, by what `getLoad` returns.
  unfoldable pub update :
      Outcome LoadError (List F) → List (Metric F) × Outcome LoadError (Unit {0})
  update (ok loads) = send_loads load_descs loads
  update (err e) = ([], err e)
  update panic = ([], panic)
