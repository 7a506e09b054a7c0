-- ===== src/Cpu/Throttle.antt =====
-- `updateThermalThrottle` and `updateIsolated`, with `readUintFromFile` of helper.go.
use infra_pulse.Base.{
  ℕ, Option, none, some, List, [], ◌∷◌, ◌++◌, nat_eq, Outcome, ok, err, panic, if◌then◌else◌,
}
use infra_pulse.Base.Text.{Bytes, codes, trim_space, parse_uint, format_uint}
use infra_pulse.Base.Map.{Map, insert, get_or, has}
use infra_pulse.Metric.{Float64, counter, gauge, ByteMetric}
use infra_pulse.Cpu.{package_throttle_desc, core_throttle_desc, isolated_desc}

-- `readUintFromFile`, whose errors no caller looks at; `read` is `os.ReadFile`.
unfoldable pub read_uint_from_file : (Bytes → Option Bytes) → Bytes → Option ℕ
read_uint_from_file read path = elim (read path) [
  | none ↦ none
  | some content ↦ elim (parse_uint 10 64 (trim_space content)) [
    | ok n ↦ some n
    | err e ↦ none
    | panic ↦ none
  ]
]

-- `filepath.Join(cpu, dir, file)` of clean paths
abbrev pub join_path : Bytes → Bytes → Bytes → Bytes
join_path cpu dir file = cpu ++ (b'/' ∷ dir) ++ (b'/' ∷ file)

-- `packageThrottles` and `packageCoreThrottles`
pub record Throttles : Type 0 where
  pub packages : Map ℕ ℕ
  pub cores : Map ℕ (Map ℕ ℕ)

-- A count is read where the map has no entry, and stored if it can be read.
abbrev pub read_once : ℕ → Option ℕ → Map ℕ ℕ → Map ℕ ℕ
read_once key count m = if has key m then m else elim count [ none ↦ m | some n ↦ insert key n m ]

-- A round for a processor whose package_id and core are known, by the answers of its two counts.
unfoldable pub add_counts : ℕ → ℕ → Option ℕ → Option ℕ → Throttles → Throttles
add_counts package_id core core_count package_count t =
    let by_core = if has package_id t.cores then t.cores else insert package_id [] t.cores in
    record {
      packages = read_once package_id package_count t.packages;
      cores = insert package_id (read_once core core_count (get_or package_id [] by_core)) by_core;
    }

-- The files of a processor that are read.
abbrev pub physical_package_id : (Bytes → Option Bytes) → Bytes → Option ℕ
physical_package_id read cpu =
    read_uint_from_file read (join_path cpu (codes "topology") (codes "physical_package_id"))

abbrev pub core_id : (Bytes → Option Bytes) → Bytes → Option ℕ
core_id read cpu = read_uint_from_file read (join_path cpu (codes "topology") (codes "core_id"))

abbrev pub core_throttle_count : (Bytes → Option Bytes) → Bytes → Option ℕ
core_throttle_count read cpu =
    read_uint_from_file read
      (join_path cpu (codes "thermal_throttle") (codes "core_throttle_count"))

abbrev pub package_throttle_count : (Bytes → Option Bytes) → Bytes → Option ℕ
package_throttle_count read cpu =
    read_uint_from_file read
      (join_path cpu (codes "thermal_throttle") (codes "package_throttle_count"))

-- A processor without package or core is left out.
unfoldable pub add_answers : Option ℕ → Option ℕ → Option ℕ → Option ℕ → Throttles → Throttles
add_answers none core core_count package_count t = t
add_answers (some p) none core_count package_count t = t
add_answers (some p) (some core) core_count package_count t =
    add_counts p core core_count package_count t

-- A round of the loop over the processors.
unfoldable pub add_cpu : (Bytes → Option Bytes) → Bytes → Throttles → Throttles
add_cpu read cpu t =
    add_answers (physical_package_id read cpu) (core_id read cpu) (core_throttle_count read cpu)
      (package_throttle_count read cpu) t

unfoldable pub add_cpus : (Bytes → Option Bytes) → List Bytes → Throttles → Throttles
add_cpus read [] t = t
add_cpus read (cpu ∷ cpus) t = add_cpus read cpus (add_cpu read cpu t)

module _ {F : Type 0} ⦃fl : Float64 F⦄ where
  abbrev pub send_packages : Map ℕ ℕ → List (ByteMetric F)
  send_packages [] = []
  send_packages ((package_id, count) ∷ packages) =
      record {
        desc = package_throttle_desc;
        value_type = counter;
        value = fl.from_uint count;
        label_values = format_uint package_id ∷ [];
      }
      ∷ send_packages packages

  abbrev pub send_cores : ℕ → Map ℕ ℕ → List (ByteMetric F)
  send_cores package_id [] = []
  send_cores package_id ((core, count) ∷ cores) =
      record {
        desc = core_throttle_desc;
        value_type = counter;
        value = fl.from_uint count;
        label_values = format_uint package_id ∷ format_uint core ∷ [];
      }
      ∷ send_cores package_id cores

  abbrev pub send_all_cores : Map ℕ (Map ℕ ℕ) → List (ByteMetric F)
  send_all_cores [] = []
  send_all_cores ((package_id, cores) ∷ rest) = send_cores package_id cores ++ send_all_cores rest

  -- `updateThermalThrottle`, by what `Glob` finds.
  unfoldable pub update_thermal_throttle :
      {E : Type 0}
      → (Bytes → Option Bytes)
      → Outcome E (List Bytes)
      → List (ByteMetric F) × Outcome E (Unit {0})
  update_thermal_throttle read (ok cpus) =
      let t = add_cpus read cpus (record { packages = []; cores = [] }) in
      (send_packages t.packages ++ send_all_cores t.cores, ok tt)
  update_thermal_throttle read (err e) = ([], err e)
  update_thermal_throttle read panic = ([], panic)

  -- `updateIsolated`
  unfoldable pub update_isolated : List ℕ → List (ByteMetric F)
  update_isolated [] = []
  update_isolated (cpu ∷ cpus) =
      record {
        desc = isolated_desc;
        value_type = gauge;
        value = fl.from_uint 1;
        label_values = format_uint cpu ∷ [];
      }
      ∷ update_isolated cpus
