-- ===== src/Cpu/Forward.antt =====
-- The counters that `updateCPUStats` keeps go forward.
use infra_pulse.Base.{ℕ, true, false, some, ◌≡◌, inl, inr, refl, nat_eq, Bool-cases}
use infra_pulse.Base.Map.{Map, lookup, IsMap}
use infra_pulse.Metric.{Float64, FloatOps}
use infra_pulse.Cpu.{CpuStat}
use infra_pulse.Cpu.Stats.{
  MapFunctions, AreDocumented, zero_stat, jump_back_seconds, forward, base_stat, advance,
  update_cpu_stats,
}
use infra_pulse.Cpu.Cache.{update_cpu_stats-lookup}

module _ {F : Type 0} ⦃fl : Float64 F⦄ ⦃ops : FloatOps F⦄ where
  -- A number, as opposed to NaN: it is not less than itself.
  abbrev pub IsNumber : F → Type 0
  IsNumber x = ops.ge x x ≡ true

  -- Every counter of the first is at least that of the second, where that is a number.
  pub record IsAtLeast (s old : CpuStat F) : Type 0 where
    pub user : IsNumber old.user → ops.ge s.user old.user ≡ true
    pub nice : IsNumber old.nice → ops.ge s.nice old.nice ≡ true
    pub system : IsNumber old.system → ops.ge s.system old.system ≡ true
    pub idle : IsNumber old.idle → ops.ge s.idle old.idle ≡ true
    pub iowait : IsNumber old.iowait → ops.ge s.iowait old.iowait ≡ true
    pub irq : IsNumber old.irq → ops.ge s.irq old.irq ≡ true
    pub soft_irq : IsNumber old.soft_irq → ops.ge s.soft_irq old.soft_irq ≡ true
    pub steal : IsNumber old.steal → ops.ge s.steal old.steal ≡ true
    pub guest : IsNumber old.guest → ops.ge s.guest old.guest ≡ true
    pub guest_nice : IsNumber old.guest_nice → ops.ge s.guest_nice old.guest_nice ≡ true

  forward-ge : (n o : F) → IsNumber o → ops.ge (forward n o) o ≡ true
  forward-ge n o h = elim (Bool-cases (ops.ge n o)) [ inl e ↦ rw e e | inr e ↦ rw e h ]

  advance-IsAtLeast : (n old : CpuStat F) → IsAtLeast (advance n old) (base_stat n old)
  unfolding advance
  advance-IsAtLeast n old =
      let s = base_stat n old in
      record {
        user = forward-ge n.user s.user;
        nice = forward-ge n.nice s.nice;
        system = forward-ge n.system s.system;
        idle = forward-ge n.idle s.idle;
        iowait = forward-ge n.iowait s.iowait;
        irq = forward-ge n.irq s.irq;
        soft_irq = forward-ge n.soft_irq s.soft_irq;
        steal = forward-ge n.steal s.steal;
        guest = forward-ge n.guest s.guest;
        guest_nice = forward-ge n.guest_nice s.guest_nice;
      }

  -- While a processor is online and its idle counter does not fall by three seconds or more, each of its
  -- counters in the cache is after a call of `updateCPUStats` at least what it was, where that was a
  -- number; if the idle counter falls so far, all its counters start again and each is at least 0.
  pub update_cpu_stats-IsAtLeast :
      (lib : MapFunctions (CpuStat F))
      → AreDocumented lib
      → (new cache : Map ℕ (CpuStat F)) → IsMap new
      → IsMap cache
      → (k : ℕ) (n old : CpuStat F) → lookup k new ≡ some n
      → lookup k cache ≡ some old
      → (s : CpuStat F) × ((lookup k (update_cpu_stats lib new cache) ≡ some s)
          × ((ops.ge (ops.sub old.idle n.idle) jump_back_seconds ≡ false → IsAtLeast s old)
              × (ops.ge (ops.sub old.idle n.idle) jump_back_seconds ≡ true
                  → IsAtLeast s zero_stat)))
  unfolding base_stat
  update_cpu_stats-IsAtLeast lib doc new cache dn dc k n old hn ho =
      let least = advance-IsAtLeast n old in
      (
        advance n old,
        (
          rw (update_cpu_stats-lookup lib doc new cache dn dc k, hn, ho) refl,
          ((λ h. rw h at least), (λ h. rw h at least)),
        ),
      )
