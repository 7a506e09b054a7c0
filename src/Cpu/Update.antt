-- ===== src/Cpu/Update.antt =====
-- `cpuCollector.Update`.
use infra_pulse.Base.{
  ℕ, Bool, Option, none, some, List, [], ◌++◌, if◌then◌else◌, Outcome, ok, err, panic,
}
use infra_pulse.Base.Text.{Bytes}
use infra_pulse.Base.Map.{Map}
use infra_pulse.Metric.{Float64, FloatOps, ByteMetric}
use infra_pulse.Cpu.{CpuStat, CpuCollector, CpuFlags}
use infra_pulse.Cpu.Stats.{MapFunctions, update_cpu_stats, send_cpus}
use infra_pulse.Cpu.Throttle.{update_thermal_throttle, update_isolated}
use infra_pulse.Cpu.Info.{CpuInfo, update_info}

-- What the system answers during a call of `Update`: /proc/cpuinfo, the counters of /proc/stat, the
-- directories of the processors, the files, and the entry of "cpufreq" in `collectorState`.
pub record Answers (F E : Type 0) : Type 0 where
  pub info : Outcome E (List (CpuInfo F))
  pub stat : Outcome E (Map ℕ (CpuStat F))
  pub directories : Outcome E (List Bytes)
  pub read : Bytes → Option Bytes
  pub cpufreq : Option Bool

-- The metrics sent, the collector behind the call, and the result.
pub record Updated (F E : Type 0) : Type 0 where
  pub sent : List (ByteMetric F)
  pub collector : CpuCollector F
  pub result : Outcome E (Unit {0})

module _ {F E : Type 0} where
  -- What was sent before goes in front.
  abbrev pub behind : List (ByteMetric F) → Updated F E → Updated F E
  behind before u = record u { sent = before ++ u.sent }

module _ {F : Type 0} ⦃fl : Float64 F⦄ where
  abbrev pub isolated_part : Option (List ℕ) → List (ByteMetric F)
  isolated_part none = []
  isolated_part (some cpus) = update_isolated cpus

module _ {F E : Type 0} ⦃fl : Float64 F⦄ where
  -- The end of `Update`, behind `updateStat`.
  abbrev pub end_update : Answers F E → CpuCollector F → Updated F E
  end_update a c =
      let (sent, result) = update_thermal_throttle a.read a.directories in
      record { sent = isolated_part c.isolated_cpus ++ sent; collector = c; result = result }

module _ {F E : Type 0} ⦃fl : Float64 F⦄ ⦃ops : FloatOps F⦄ where
  -- `updateStat` and, if it returns no error, the rest of `Update`.
  unfoldable pub update_stat_then :
      (CpuCollector F → Updated F E)
      → MapFunctions (CpuStat F)
      → CpuFlags
      → Outcome E (Map ℕ (CpuStat F))
      → CpuCollector F
      → Updated F E
  update_stat_then rest lib v (ok new) c =
      let cache = update_cpu_stats lib new c.cpu_stats in
      behind (send_cpus v.enable_cpu_guest cache) (rest (record c { cpu_stats = cache }))
  update_stat_then rest lib v (err e) c = record { sent = []; collector = c; result = err e }
  update_stat_then rest lib v panic c = record { sent = []; collector = c; result = panic }

  -- `updateInfo` has been called and returned.
  abbrev pub after_info :
      (CpuCollector F → Updated F E)
      → CpuCollector F
      → List (ByteMetric F) × Outcome E (Unit {0})
      → Updated F E
  after_info rest c (sent, ok _) = behind sent (rest c)
  after_info rest c (sent, err e) = record { sent = sent; collector = c; result = err e }
  after_info rest c (sent, panic) = record { sent = sent; collector = c; result = panic }

  -- `Update`
  unfoldable pub update :
      MapFunctions (CpuStat F) → CpuFlags → Answers F E → CpuCollector F → Updated F E
  update lib v a c =
      let rest = update_stat_then (end_update a) lib v a.stat in
      if v.enable_cpu_info
      then after_info rest c (update_info a.cpufreq c.cpu_flags_include c.cpu_bugs_include a.info)
      else rest c
