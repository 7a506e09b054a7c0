-- ===== src/Host/Hardware.antt =====
-- `GetInfo`: processors, memory and disks. `F` stands for float64; an int32 is its 32 bits as a number,
-- so that its sum wraps around; a uint64 is a number.
use infra_pulse.Base.{
  ℕ, ◌+◌, ◌%◌, ◌^◌, none, some, List, [], ◌∷◌, ◌++◌, get_elem?, Outcome, ok, panic, ◌>>=◌,
}
use infra_pulse.Base.Text.{Bytes}
use infra_pulse.Host.{HostError}
use infra_pulse.Host.Network.{of_system}

-- `models.CPUInfo`
pub record CpuInfo (F : Type 0) : Type 0 where
  pub cores : ℕ
  pub model_name : Bytes
  pub mhz : F

-- `models.CPU`; `percent` is the zero of float64 until it is set.
pub record Cpu (F : Type 0) : Type 0 where
  pub percent : F
  pub cores : ℕ
  pub info : List (CpuInfo F)

-- `models.Memory`
pub record Memory (F : Type 0) : Type 0 where
  pub total : ℕ
  pub available : ℕ
  pub used : ℕ
  pub used_percent : F
  pub free : ℕ

-- A partition, and the counters of `disk.Usage` for it.
pub record Partition : Type 0 where
  pub device : Bytes
  pub mountpoint : Bytes
  pub fstype : Bytes

pub record Usage (F : Type 0) : Type 0 where
  pub total : ℕ
  pub free : ℕ
  pub used : ℕ
  pub used_percent : F

-- `models.DiskInfo`
pub record DiskInfo (F : Type 0) : Type 0 where
  pub device : Bytes
  pub path : Bytes
  pub fstype : Bytes
  pub counters : Usage F

-- `models.OSInfo`
pub record OsInfo (F : Type 0) : Type 0 where
  pub cpu : Cpu F
  pub memory : Memory F
  pub disks : List (DiskInfo F)

module _ {F : Type 0} where
  -- The loop over the processors; `percent[0]` panics if the list is empty.
  unfoldable pub cpu_loop : List F → List (CpuInfo F) → Cpu F → Outcome HostError (Cpu F)
  cpu_loop percent [] c = ok c
  cpu_loop percent (info ∷ infos) c = elim (get_elem? percent 0) [
    | none ↦ panic
    | some p ↦ cpu_loop percent infos (record {
      percent = p;
      cores = (c.cores + info.cores) % 2 ^ 32;
      info = c.info ++ info ∷ [];
    })
  ]

  abbrev pub disk_info : Partition → Usage F → DiskInfo F
  disk_info d u = record { device = d.device; path = d.mountpoint; fstype = d.fstype; counters = u }

  -- The loop over the partitions, from the disks that are there.
  unfoldable pub disk_loop :
      (Bytes → Outcome Bytes (Usage F))
      → List Partition
      → List (DiskInfo F)
      → Outcome HostError (List (DiskInfo F))
  disk_loop usage [] disks = ok disks
  disk_loop usage (d ∷ partitions) disks = do
    counters ← of_system (usage d.mountpoint)
    disk_loop usage partitions (disks ++ disk_info d counters ∷ [])

  -- `zero_percent` is the zero of float64.
  unfoldable pub get_info :
      F
      → Outcome Bytes (List F)
      → Outcome Bytes (List (CpuInfo F))
      → Outcome Bytes (Memory F)
      → Outcome Bytes (List Partition)
      → (Bytes → Outcome Bytes (Usage F))
      → Outcome HostError (OsInfo F)
  get_info zero_percent percents infos memory partitions usage = do
    percent ← of_system percents
    list ← of_system infos
    c ← cpu_loop percent list (record { percent = zero_percent; cores = 0; info = [] })
    v ← of_system memory
    fdisks ← of_system partitions
    disks ← disk_loop usage fdisks []
    ok (record { cpu = c; memory = v; disks = disks })

  abbrev pub sum_cores : List (CpuInfo F) → ℕ
  sum_cores [] = 0
  sum_cores (info ∷ infos) = info.cores + sum_cores infos
