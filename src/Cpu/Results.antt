-- ===== src/Cpu/Results.antt =====
-- The error paths of `cpuCollector.Update`.
use infra_pulse.Base.{
  ℕ, Bool, true, false, List, ◌≡◌, refl, if◌then◌else◌, Outcome, ok, err, panic, ◌>>=◌,
}
use infra_pulse.Base.Map.{Map}
use infra_pulse.Metric.{Float64, FloatOps}
use infra_pulse.Cpu.{CpuStat, CpuCollector, CpuFlags}
use infra_pulse.Cpu.Stats.{MapFunctions, update_cpu_stats}
use infra_pulse.Cpu.Throttle.{update_thermal_throttle}
use infra_pulse.Cpu.Info.{CpuInfo, update_info}
use infra_pulse.Cpu.Update.{Answers, end_update, update_stat_then, after_info, update}

-- Whether a read succeeded, without what was read.
abbrev pub outcome_only : {E A : Type 0} → Outcome E A → Outcome E (Unit {0})
outcome_only (ok a) = ok tt
outcome_only (err e) = err e
outcome_only panic = panic

module _ {F E : Type 0} where
  -- The reads of `Update` up to the one of /proc/stat.
  abbrev pub read_stat : CpuFlags → Answers F E → Outcome E (Map ℕ (CpuStat F))
  read_stat v a = do _ ← (if v.enable_cpu_info then outcome_only a.info else ok tt); a.stat

  -- All its reads, in order.
  abbrev pub read_all : CpuFlags → Answers F E → Outcome E (Unit {0})
  read_all v a = do _ ← read_stat v a; outcome_only a.directories

  -- The cache after the reads, if `f` is what an update makes of it.
  abbrev pub cache_after :
      (Map ℕ (CpuStat F) → Map ℕ (CpuStat F))
      → Outcome E (Map ℕ (CpuStat F))
      → Map ℕ (CpuStat F)
      → Map ℕ (CpuStat F)
  cache_after f (ok new) cache = f new
  cache_after f (err e) cache = cache
  cache_after f panic cache = cache

module _ {F E : Type 0} ⦃fl : Float64 F⦄ where
  end_update-result :
      (a : Answers F E) (c : CpuCollector F) → (end_update a c).result ≡ outcome_only a.directories
  unfolding update_thermal_throttle
  end_update-result a c =
      elim a.directories as (λ d. (update_thermal_throttle {F = F} a.read d).1 ≡ outcome_only d) [
        | ok cpus ↦ refl
        | err e ↦ refl
        | panic ↦ refl
      ]

module _ {F E : Type 0} ⦃fl : Float64 F⦄ ⦃ops : FloatOps F⦄ (lib : MapFunctions (CpuStat F))
    (v : CpuFlags) (a : Answers F E) (c : CpuCollector F) where
  -- The collector with the cache brought up to date by a read of /proc/stat.
  abbrev pub collector_after : Outcome E (Map ℕ (CpuStat F)) → CpuCollector F
  collector_after stat = record c {
    cpu_stats = cache_after (λ new. update_cpu_stats lib new c.cpu_stats) stat c.cpu_stats;
  }

  stat_then-result :
      (stat : Outcome E (Map ℕ (CpuStat F)))
      → ((update_stat_then (end_update a) lib v stat c).result
          ≡ (stat >>= (λ _. outcome_only a.directories)))
        × ((update_stat_then (end_update a) lib v stat c).collector ≡ collector_after stat)
  unfolding update_stat_then
  stat_then-result (ok new) = (end_update-result a (collector_after (ok new)), refl)
  stat_then-result (err e) = (refl, refl)
  stat_then-result panic = (refl, refl)

  info_then-result :
      (enabled : Bool) (info : Outcome E (List (CpuInfo F)))
      → let rest = update_stat_then (end_update a) lib v a.stat in
        let u =
          if enabled
          then after_info rest c (update_info a.cpufreq c.cpu_flags_include c.cpu_bugs_include info)
          else rest c in
        let stat = (if enabled then outcome_only info else ok tt) >>= (λ _. a.stat) in
        (u.result ≡ (stat >>= (λ _. outcome_only a.directories)))
        × (u.collector ≡ collector_after stat)
  unfolding update_info
  info_then-result false info = stat_then-result a.stat
  info_then-result true (ok info) = stat_then-result a.stat
  info_then-result true (err e) = (refl, refl)
  info_then-result true panic = (refl, refl)

  -- `Update` returns the first error of the reads of /proc/cpuinfo, if the variable says so, of
  -- /proc/stat and of the directories of the processors, and no error if these succeed. The cache is
  -- brought up to date if the first two succeed, even when the last fails, and is as it was otherwise;
  -- nothing else of the collector changes.
  pub update-result :
      ((update lib v a c).result ≡ read_all v a)
      × ((update lib v a c).collector ≡ collector_after (read_stat v a))
  unfolding update
  update-result = info_then-result v.enable_cpu_info a.info
