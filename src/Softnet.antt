-- ===== src/Softnet.antt =====
-- src/metrics/collector/softnet_linux.go: the counters of the network receive queues of the processors.
mod Sends
mod Tests
use infra_pulse.Base.{ℕ, String, List, [], ◌∷◌, ◌++◌, Outcome, ok, err, panic}
use infra_pulse.Base.Text.{Bytes, format_uint}
use infra_pulse.Metric.{Float64, build, Desc, ValueType, counter, gauge, ByteMetric}
use infra_pulse.Scrape.{namespace}

-- What `NetSoftnetStat` of procfs gives for a processor, as far as `Update` reads it.
pub record SoftnetStat : Type 0 where
  pub index : ℕ
  pub processed : ℕ
  pub dropped : ℕ
  pub time_squeezed : ℕ
  pub cpu_collision : ℕ
  pub received_rps : ℕ
  pub flow_limit_count : ℕ
  pub softnet_backlog_len : ℕ

-- A description, by the last part of its name and its help text.
abbrev softnet_desc : String → String → Desc
softnet_desc name help = record {
  fq_name = build namespace "softnet" name;
  help = help;
  label_names = "cpu" ∷ [];
}

-- The descriptions of `NewSoftnetCollector`.
abbrev processed_desc : Desc
processed_desc = softnet_desc "processed_total" "Number of processed packets"

abbrev dropped_desc : Desc
dropped_desc = softnet_desc "dropped_total" "Number of dropped packets"

abbrev time_squeezed_desc : Desc
time_squeezed_desc =
    softnet_desc "times_squeezed_total" "Number of times processing packets ran out of quota"

abbrev cpu_collision_desc : Desc
cpu_collision_desc =
    softnet_desc "cpu_collision_total"
      "Number of collision occur while obtaining device lock while transmitting"

abbrev received_rps_desc : Desc
received_rps_desc = softnet_desc "received_rps_total" "Number of times cpu woken up received_rps"

abbrev flow_limit_count_desc : Desc
flow_limit_count_desc =
    softnet_desc "flow_limit_count_total" "Number of times flow limit has been reached"

abbrev backlog_len_desc : Desc
backlog_len_desc = softnet_desc "backlog_len" "Softnet backlog status"

module _ {F : Type 0} ⦃fl : Float64 F⦄ where
  -- A call of `MustNewConstMetric` in the loop.
  abbrev softnet_metric : Desc → ValueType → ℕ → ℕ → ByteMetric F
  softnet_metric desc type n cpu = record {
    desc = desc;
    value_type = type;
    value = fl.from_uint n;
    label_values = format_uint cpu ∷ [];
  }

  -- A round of the loop.
  abbrev pub softnet_metrics : SoftnetStat → List (ByteMetric F)
  softnet_metrics s =
      softnet_metric processed_desc counter s.processed s.index
      ∷ softnet_metric dropped_desc counter s.dropped s.index
      ∷ softnet_metric time_squeezed_desc counter s.time_squeezed s.index
      ∷ softnet_metric cpu_collision_desc counter s.cpu_collision s.index
      ∷ softnet_metric received_rps_desc counter s.received_rps s.index
      ∷ softnet_metric flow_limit_count_desc counter s.flow_limit_count s.index
      ∷ softnet_metric backlog_len_desc gauge s.softnet_backlog_len s.index
      ∷ []

  unfoldable pub send_softnet : List SoftnetStat → List (ByteMetric F)
  send_softnet [] = []
  send_softnet (s ∷ stats) = softnet_metrics s ++ send_softnet stats

  -- `Update`, by what `NetSoftnetStat` gives.
  unfoldable pub update :
      {E : Type 0} → Outcome E (List SoftnetStat) → List (ByteMetric F) × Outcome E (Unit {0})
  update (ok stats) = (send_softnet stats, ok tt)
  update (err e) = ([], err e)
  update panic = ([], panic)
