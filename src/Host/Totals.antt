-- ===== src/Host/Totals.antt =====
-- What `GetInfo` returns.
use infra_pulse.Base.{
  ℕ, ◌+◌, ◌%◌, ◌^◌, ◌<◌, List, [], ◌∷◌, ◌++◌, ◌≡◌, refl, sym, ◌∙◌, ap, arith, Outcome, ok,
  >>=-eq-ok, ok-injective, append_assoc, append-nil,
}
use infra_pulse.Base.Text.{Bytes}
use infra_pulse.Host.Network.{of_system}
use infra_pulse.Host.Interfaces.{of_system-ok}
use infra_pulse.Host.Hardware.{
  CpuInfo, Cpu, Memory, Partition, Usage, DiskInfo, OsInfo, cpu_loop, disk_info, disk_loop,
  get_info, sum_cores,
}

mod_step : (c x s : ℕ) → (((c + x) % 2 ^ 32) + s) % 2 ^ 32 ≡ (c + (x + s)) % 2 ^ 32
mod_step c x s = omega arith

mod_bound : (n : ℕ) → n % 2 ^ 32 < 2 ^ 32
mod_bound n = omega arith

module _ {F : Type 0} where
  -- The processors that the loop adds.
  pub record Adds (c : Cpu F) (infos : List (CpuInfo F)) (c' : Cpu F) : Type 0 where
    pub info : c'.info ≡ c.info ++ infos
    pub cores : c'.cores ≡ (c.cores + sum_cores infos) % 2 ^ 32

  cpu_loop-next :
      (p : F) (info : CpuInfo F) (infos : List (CpuInfo F)) (c c' : Cpu F)
      → Adds
          (record {
            percent = p;
            cores = (c.cores + info.cores) % 2 ^ 32;
            info = c.info ++ info ∷ [];
          })
          infos
          c'
      → Adds c (info ∷ infos) c'
  cpu_loop-next p info infos c c' a = record {
    info = a.info ∙ append_assoc c.info (info ∷ []) infos;
    cores = a.cores ∙ mod_step c.cores info.cores (sum_cores infos);
  }

  cpu_loop-Adds :
      (percent : List F) (infos : List (CpuInfo F)) (c : Cpu F) {c' : Cpu F}
      → c.cores < 2 ^ 32
      → cpu_loop percent infos c ≡ ok c'
      → Adds c infos c'
  unfolding cpu_loop
  cpu_loop-Adds percent [] c b h =
      let e = ok-injective h in
      record {
        info = ap (λ d. d.info) (sym e) ∙ sym (append-nil c.info);
        cores = ap (λ d. d.cores) (sym e) ∙ omega arith;
      }
  cpu_loop-Adds [] (info ∷ infos) c b h = cc
  cpu_loop-Adds (p ∷ percent) (info ∷ infos) c b h =
      cpu_loop-next p info infos c _
        (cpu_loop-Adds (p ∷ percent) infos _ (mod_bound (c.cores + info.cores)) h)

  -- The disks are the partitions in their order, each with the counters of its mount point.
  pub data Measures (usage : Bytes → Outcome Bytes (Usage F))
      : List Partition → List (DiskInfo F) → Type 0 where
    measured_none : Measures usage [] []
    measured_one :
        {d : Partition} {u : Usage F} {partitions : List Partition} {disks : List (DiskInfo F)}
        → usage d.mountpoint ≡ ok u
        → Measures usage partitions disks
        → Measures usage (d ∷ partitions) (disk_info d u ∷ disks)

  disk_loop-Measures :
      (usage : Bytes → Outcome Bytes (Usage F)) (partitions : List Partition)
      (disks : List (DiskInfo F)) {disks' : List (DiskInfo F)}
      → disk_loop usage partitions disks ≡ ok disks'
      → (more : List (DiskInfo F)) × (disks' ≡ disks ++ more) × Measures usage partitions more
  unfolding disk_loop
  disk_loop-Measures usage [] disks h =
      ([], sym (ok-injective h) ∙ sym (append-nil disks), measured_none)
  disk_loop-Measures usage (d ∷ partitions) disks h =
      let (u, hu, h') = >>=-eq-ok (of_system (usage d.mountpoint)) _ h in
      let (more, e, m) = disk_loop-Measures usage partitions (disks ++ disk_info d u ∷ []) h' in
      (
        disk_info d u ∷ more,
        e ∙ append_assoc disks (disk_info d u ∷ []) more,
        measured_one (of_system-ok (usage d.mountpoint) hu) m,
      )

  -- What `GetInfo` collects.
  pub record Collects (infos : List (CpuInfo F)) (memory : Memory F) (partitions : List Partition)
      (usage : Bytes → Outcome Bytes (Usage F)) (os : OsInfo F) : Type 0 where
    pub info : os.cpu.info ≡ infos
    pub cores : os.cpu.cores ≡ sum_cores infos % 2 ^ 32
    pub memory_is : os.memory ≡ memory
    pub disks : Measures usage partitions os.disks

  -- If `GetInfo` returns, it lists the processors that were reported, the number of cores is the sum
  -- of theirs modulo 2 ^ 32, the memory is as reported, and the disks are the partitions in their
  -- order, each with the counters of its mount point.
  pub get_info-Collects :
      (zero_percent : F) (percents : List F) (infos : List (CpuInfo F)) (memory : Memory F)
      (partitions : List Partition) (usage : Bytes → Outcome Bytes (Usage F)) {os : OsInfo F}
      → get_info zero_percent (ok percents) (ok infos) (ok memory) (ok partitions) usage ≡ ok os
      → Collects infos memory partitions usage os
  unfolding get_info
  get_info-Collects z percents infos memory partitions usage h =
      let (c, hc, h') =
        >>=-eq-ok (cpu_loop percents infos (record { percent = z; cores = 0; info = [] })) _ h in
      let (disks, hd, q) = >>=-eq-ok (disk_loop usage partitions []) _ h' in
      let a =
        cpu_loop-Adds percents infos (record { percent = z; cores = 0; info = [] }) (omega arith)
          hc in
      let (more, e, m) = disk_loop-Measures usage partitions [] hd in
      rw (sym (ok-injective q))
        (record { info = a.info; cores = a.cores ∙ omega arith; memory_is = refl; disks = rw e m })
