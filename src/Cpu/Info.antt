-- ===== src/Cpu/Info.antt =====
-- `updateInfo` and `updateFieldInfo`: what /proc/cpuinfo says of the processors.
use infra_pulse.Base.{
  ℕ, Bool, Option, none, some, List, [], ◌∷◌, ◌++◌, if◌then◌else◌, Outcome, ok, err, panic,
}
use infra_pulse.Base.Text.{Bytes, format_uint}
use infra_pulse.Metric.{Float64, FloatOps, Desc, gauge, ByteMetric}
use infra_pulse.Cpu.{info_desc, frequency_desc, flags_desc, bugs_desc}

-- The fields of `procfs.CPUInfo` that the program reads.
pub record CpuInfo (F : Type 0) : Type 0 where
  pub processor : ℕ
  pub vendor_id : Bytes
  pub cpu_family : Bytes
  pub model : Bytes
  pub model_name : Bytes
  pub stepping : Bytes
  pub microcode : Bytes
  pub cpu_mhz : F
  pub cache_size : Bytes
  pub physical_id : Bytes
  pub core_id : Bytes
  pub flags : List Bytes
  pub bugs : List Bytes

module _ {F : Type 0} ⦃fl : Float64 F⦄ where
  abbrev pub info_metric : CpuInfo F → ByteMetric F
  info_metric cpu = record {
    desc = info_desc;
    value_type = gauge;
    value = fl.from_uint 1;
    label_values =
        cpu.physical_id
        ∷ cpu.core_id
        ∷ format_uint cpu.processor
        ∷ cpu.vendor_id
        ∷ cpu.cpu_family
        ∷ cpu.model
        ∷ cpu.model_name
        ∷ cpu.microcode
        ∷ cpu.stepping
        ∷ cpu.cache_size
        ∷ [];
  }

  abbrev pub send_info : List (CpuInfo F) → List (ByteMetric F)
  send_info [] = []
  send_info (cpu ∷ cpus) = info_metric cpu ∷ send_info cpus

  abbrev pub send_field : (Bytes → Bool) → List Bytes → Desc → List (ByteMetric F)
  send_field matches [] desc = []
  send_field matches (v ∷ vs) desc =
      let rest = send_field matches vs desc in
      if matches v
      then record { desc = desc; value_type = gauge; value = fl.from_uint 1; label_values = v ∷ [] }
        ∷ rest
      else rest

  -- `updateFieldInfo`, which returns no error.
  unfoldable pub update_field_info : List Bytes → Option (Bytes → Bool) → Desc → List (ByteMetric F)
  update_field_info values none desc = []
  update_field_info values (some matches) desc = send_field matches values desc

  -- The end of `updateInfo`, for the first processor.
  abbrev pub first_fields :
      Option (Bytes → Bool) → Option (Bytes → Bool) → List (CpuInfo F) → List (ByteMetric F)
  first_fields flags_include bugs_include [] = []
  first_fields flags_include bugs_include (cpu ∷ cpus) =
      update_field_info cpu.flags flags_include flags_desc
      ++ update_field_info cpu.bugs bugs_include bugs_desc

module _ {F : Type 0} ⦃fl : Float64 F⦄ ⦃ops : FloatOps F⦄ where
  abbrev pub frequency_metric : CpuInfo F → ByteMetric F
  frequency_metric cpu = record {
    desc = frequency_desc;
    value_type = gauge;
    value = ops.mul cpu.cpu_mhz (fl.from_uint 1000000);
    label_values = cpu.physical_id ∷ cpu.core_id ∷ format_uint cpu.processor ∷ [];
  }

  abbrev pub send_frequencies : List (CpuInfo F) → List (ByteMetric F)
  send_frequencies [] = []
  send_frequencies (cpu ∷ cpus) = frequency_metric cpu ∷ send_frequencies cpus

  -- The frequencies are sent when the cpufreq collector is known and disabled.
  abbrev pub frequencies : Option Bool → List (CpuInfo F) → List (ByteMetric F)
  frequencies none info = []
  frequencies (some enabled) info = if enabled then [] else send_frequencies info

  -- `updateInfo`, by the entry of "cpufreq" in `collectorState`, `none` if it is missing or nil, and by
  -- what procfs answers.
  unfoldable pub update_info :
      {E : Type 0}
      → Option Bool
      → Option (Bytes → Bool)
      → Option (Bytes → Bool)
      → Outcome E (List (CpuInfo F))
      → List (ByteMetric F) × Outcome E (Unit {0})
  update_info cpufreq flags_include bugs_include (ok info) = (
    send_info info ++ frequencies cpufreq info ++ first_fields flags_include bugs_include info,
    ok tt,
  )
  update_info cpufreq flags_include bugs_include (err e) = ([], err e)
  update_info cpufreq flags_include bugs_include panic = ([], panic)
