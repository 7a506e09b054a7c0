-- ===== src/Cpu/Stats.antt =====
-- `updateCPUStats` and `updateStat`: the counters of the processors, and the cache that keeps them from
-- going backwards. `maps.Keys`, `maps.DeleteFunc` and `slices.Contains` of golang.org/x/exp are the
-- fields of an interface with what their documentation says.
use infra_pulse.Base.{
  ℕ, Bool, true, false, not, none, some, List, [], ◌∷◌, ◌++◌, ◌≡◌, length, nat_eq, ◌==◌,
  if◌then◌else◌,
}
use infra_pulse.Base.Text.{Bytes, codes, format_uint}
use infra_pulse.Base.Map.{Map, lookup, insert, get_or, has, IsMap}
use infra_pulse.Metric.{Float64, FloatOps, Desc, counter, ByteMetric}
use infra_pulse.Cpu.{CpuStat, node_cpu_seconds_desc, guest_desc}

pub record MapFunctions (V : Type 0) : Type 0 where
  pub map_keys : Map ℕ V → List ℕ
  pub delete_func : Map ℕ V → (ℕ → V → Bool) → Map ℕ V
  pub contains : List ℕ → ℕ → Bool

abbrev pub is_among : ℕ → List ℕ → Bool
is_among k [] = false
is_among k (j ∷ js) = if j == k then true else is_among k js

pub record AreDocumented {V : Type 0} (lib : MapFunctions V) : Type 0 where
  pub map_keys_lem : (m : Map ℕ V) (k : ℕ) → is_among k (lib.map_keys m) ≡ has k m
  pub contains_lem : (ks : List ℕ) (k : ℕ) → lib.contains ks k ≡ is_among k ks
  pub lookup-delete_func :
      (m : Map ℕ V) (del : ℕ → V → Bool) (k : ℕ)
      → IsMap m
      → lookup k (lib.delete_func m del)
        ≡ elim (lookup k m) [ none ↦ none | some v ↦ (if del k v then none else some v) ]
  pub delete_func-IsMap :
      (m : Map ℕ V) (del : ℕ → V → Bool) → IsMap m → IsMap (lib.delete_func m del)

module _ {F : Type 0} ⦃fl : Float64 F⦄ ⦃ops : FloatOps F⦄ where
  -- `procfs.CPUStat{}`
  abbrev pub zero_stat : CpuStat F
  zero_stat =
      let z = fl.from_uint 0 in
      record {
        user = z;
        nice = z;
        system = z;
        idle = z;
        iowait = z;
        irq = z;
        soft_irq = z;
        steal = z;
        guest = z;
        guest_nice = z;
      }

  -- `jumpBackSeconds`
  abbrev pub jump_back_seconds : F
  jump_back_seconds = fl.from_uint 3

  -- A counter takes the new value unless it would go backwards.
  abbrev pub forward : F → F → F
  forward new old = if ops.ge new old then new else old

  -- The statistics before a round, and after a jump of the idle counter.
  unfoldable pub base_stat : CpuStat F → CpuStat F → CpuStat F
  base_stat n old = if ops.ge (ops.sub old.idle n.idle) jump_back_seconds then zero_stat else old

  -- The comparisons of a round of the loop in `updateCPUStats`.
  unfoldable pub advance : CpuStat F → CpuStat F → CpuStat F
  advance n old =
      let s = base_stat n old in
      record {
        user = forward n.user s.user;
        nice = forward n.nice s.nice;
        system = forward n.system s.system;
        idle = forward n.idle s.idle;
        iowait = forward n.iowait s.iowait;
        irq = forward n.irq s.irq;
        soft_irq = forward n.soft_irq s.soft_irq;
        steal = forward n.steal s.steal;
        guest = forward n.guest s.guest;
        guest_nice = forward n.guest_nice s.guest_nice;
      }

  -- The loop.
  unfoldable pub advance_all : Map ℕ (CpuStat F) → Map ℕ (CpuStat F) → Map ℕ (CpuStat F)
  advance_all [] cache = cache
  advance_all ((i, n) ∷ new) cache =
      advance_all new (insert i (advance n (get_or i zero_stat cache)) cache)

  abbrev pub remove_offline :
      MapFunctions (CpuStat F) → Map ℕ (CpuStat F) → Map ℕ (CpuStat F) → Map ℕ (CpuStat F)
  remove_offline lib new cache =
      if length new == length cache
      then cache
      else lib.delete_func cache (λ key item. not (lib.contains (lib.map_keys new) key))

  -- `updateCPUStats`
  unfoldable pub update_cpu_stats :
      MapFunctions (CpuStat F) → Map ℕ (CpuStat F) → Map ℕ (CpuStat F) → Map ℕ (CpuStat F)
  update_cpu_stats lib new cache = remove_offline lib new (advance_all new cache)

  abbrev pub stat_metric : Desc → F → ℕ → Bytes → ByteMetric F
  stat_metric desc value cpu mode = record {
    desc = desc;
    value_type = counter;
    value = value;
    label_values = format_uint cpu ∷ mode ∷ [];
  }

  -- What `updateStat` sends for a processor.
  abbrev pub cpu_metrics : Bool → ℕ → CpuStat F → List (ByteMetric F)
  cpu_metrics guest cpu s =
      stat_metric node_cpu_seconds_desc s.user cpu (codes "user")
      ∷ stat_metric node_cpu_seconds_desc s.nice cpu (codes "nice")
      ∷ stat_metric node_cpu_seconds_desc s.system cpu (codes "system")
      ∷ stat_metric node_cpu_seconds_desc s.idle cpu (codes "idle")
      ∷ stat_metric node_cpu_seconds_desc s.iowait cpu (codes "iowait")
      ∷ stat_metric node_cpu_seconds_desc s.irq cpu (codes "irq")
      ∷ stat_metric node_cpu_seconds_desc s.soft_irq cpu (codes "softirq")
      ∷ stat_metric node_cpu_seconds_desc s.steal cpu (codes "steal")
      ∷ (if guest
          then stat_metric guest_desc s.guest cpu (codes "user")
            ∷ stat_metric guest_desc s.guest_nice cpu (codes "nice")
            ∷ []
          else [])

  -- The loop of `updateStat`.
  unfoldable pub send_cpus : Bool → Map ℕ (CpuStat F) → List (ByteMetric F)
  send_cpus guest [] = []
  send_cpus guest ((cpu, s) ∷ cache) = cpu_metrics guest cpu s ++ send_cpus guest cache
