-- ===== src/Cpu.antt =====
-- src/metrics/collector/cpu_linux.go and cpu_common.go: the processors. Numbers of processors are
-- natural numbers, since procfs reads them from decimal digits. `Stats` keeps the counters of
-- /proc/stat, `Throttle` reads the throttle counts of /sys, `Info` sends what /proc/cpuinfo says, and
-- `Update` composes them.
pub mod Stats
pub mod Cache
pub mod Forward
pub mod Rounds
pub mod Throttled
pub mod Results
pub mod Throttle
pub mod Info
pub mod Update
mod Tests
use infra_pulse.Base.{
  ℕ, String, Bool, true, false, not, ◌&&◌, ◌||◌, Option, none, some, List, [], ◌∷◌, string_eq, ◌==◌,
  if◌then◌else◌, Outcome, ok, err, panic, ◌>>=◌,
}
use infra_pulse.Base.Text.{Bytes}
use infra_pulse.Base.Map.{Map}
use infra_pulse.Metric.{FqName, build, Desc}
use infra_pulse.Scrape.{namespace}

abbrev cpu_desc : String → String → List String → Desc
cpu_desc name help label_names = record {
  fq_name = build namespace "cpu" name;
  help = help;
  label_names = label_names;
}

abbrev pub node_cpu_seconds_desc : Desc
node_cpu_seconds_desc =
    cpu_desc "seconds_total" "Seconds the CPUs spent in each mode." ("cpu" ∷ "mode" ∷ [])

abbrev pub info_desc : Desc
info_desc = cpu_desc "info" "CPU information from /proc/cpuinfo." (
    "package" ∷ "core" ∷ "cpu" ∷ "vendor" ∷ "family" ∷ "model" ∷ "model_name" ∷ "microcode"
    ∷ "stepping" ∷ "cachesize" ∷ [])

abbrev pub frequency_desc : Desc
frequency_desc =
    cpu_desc "frequency_hertz" "CPU frequency in hertz from /proc/cpuinfo."
      ("package" ∷ "core" ∷ "cpu" ∷ [])

abbrev pub flags_desc : Desc
flags_desc =
    cpu_desc "flag_info"
      "The `flags` field of CPU information from /proc/cpuinfo taken from the first core."
      ("flag" ∷ [])

abbrev pub bugs_desc : Desc
bugs_desc =
    cpu_desc "bug_info"
      "The `bugs` field of CPU information from /proc/cpuinfo taken from the first core."
      ("bug" ∷ [])

abbrev pub guest_desc : Desc
guest_desc =
    cpu_desc "guest_seconds_total" "Seconds the CPUs spent in guests (VMs) for each mode."
      ("cpu" ∷ "mode" ∷ [])

abbrev pub core_throttle_desc : Desc
core_throttle_desc =
    cpu_desc "core_throttles_total" "Number of times this CPU core has been throttled."
      ("package" ∷ "core" ∷ [])

abbrev pub package_throttle_desc : Desc
package_throttle_desc =
    cpu_desc "package_throttles_total" "Number of times this CPU package has been throttled."
      ("package" ∷ [])

abbrev pub isolated_desc : Desc
isolated_desc =
    cpu_desc "isolated"
      "Whether each core is isolated, information from /sys/devices/system/cpu/isolated."
      ("cpu" ∷ [])

-- `procfs.CPUStat`
pub record CpuStat (F : Type 0) : Type 0 where
  pub user : F
  pub nice : F
  pub system : F
  pub idle : F
  pub iowait : F
  pub irq : F
  pub soft_irq : F
  pub steal : F
  pub guest : F
  pub guest_nice : F

-- `cpuCollector`, without its descriptions, which do not vary, and the mutex. A pattern is its
-- `MatchString`; `none` is nil.
pub record CpuCollector (F : Type 0) : Type 0 where
  pub cpu_stats : Map ℕ (CpuStat F)
  pub isolated_cpus : Option (List ℕ)
  pub cpu_flags_include : Option (Bytes → Bool)
  pub cpu_bugs_include : Option (Bytes → Bool)

-- The variables of the package.
pub record CpuFlags : Type 0 where
  pub enable_cpu_guest : Bool
  pub enable_cpu_info : Bool
  pub flags_include : String
  pub bugs_include : String

pub data CpuError : Type 0 where
  no_procfs no_sysfs no_isolated bad_pattern : CpuError

-- What `IsolatedCPUs` answers, with the distinction of `os.IsNotExist`.
pub data Isolated : Type 0 where
  not_there unreadable : Isolated
  listed : List ℕ → Isolated

abbrev pub compile_one :
    (String → Option (Bytes → Bool)) → String → Outcome CpuError (Option (Bytes → Bool))
compile_one compile pattern =
    if pattern == ""
    then ok none
    else elim (compile pattern) [ none ↦ err bad_pattern | some matches ↦ ok (some matches) ]

-- `compileIncludeFlags`, on the variables and on a collector whose patterns are nil.
unfoldable pub enabled_by_flags : CpuFlags → CpuFlags
enabled_by_flags v =
    if (not (v.flags_include == "") || not (v.bugs_include == "")) && not v.enable_cpu_info
    then record v { enable_cpu_info = true }
    else v

module _ {F : Type 0} where
  unfoldable pub compile_include_flags :
      (String → Option (Bytes → Bool))
      → CpuFlags
      → CpuCollector F
      → Outcome CpuError (CpuCollector F)
  compile_include_flags compile v c = do
    flags ← compile_one compile v.flags_include
    bugs ← compile_one compile v.bugs_include
    ok (record c { cpu_flags_include = flags; cpu_bugs_include = bugs })

  abbrev pub fresh_collector : Option (List ℕ) → CpuCollector F
  fresh_collector isolated = record {
    cpu_stats = [];
    isolated_cpus = isolated;
    cpu_flags_include = none;
    cpu_bugs_include = none;
  }

  -- The end of `NewCPUCollector`, behind the three errors of `NewFS` and `IsolatedCPUs`.
  abbrev pub with_isolated :
      (String → Option (Bytes → Bool))
      → CpuFlags
      → Option (List ℕ)
      → CpuFlags × Outcome CpuError (CpuCollector F)
  with_isolated compile v isolated =
      (enabled_by_flags v, compile_include_flags compile v (fresh_collector isolated))

  -- `NewCPUCollector`, by whether procfs and sysfs are there and by the isolated processors.
  unfoldable pub new_cpu_collector :
      (String → Option (Bytes → Bool))
      → Bool
      → Bool
      → Isolated
      → CpuFlags
      → CpuFlags × Outcome CpuError (CpuCollector F)
  new_cpu_collector compile false sysfs isolated v = (v, err no_procfs)
  new_cpu_collector compile true false isolated v = (v, err no_sysfs)
  new_cpu_collector compile true true unreadable v = (v, err no_isolated)
  new_cpu_collector compile true true not_there v = with_isolated compile v none
  new_cpu_collector compile true true (listed cpus) v = with_isolated compile v (some cpus)
