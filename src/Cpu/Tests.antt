-- ===== src/Cpu/Tests.antt =====
-- Concrete runs of the processor collector.
use infra_pulse.Base.{
  ℕ, String, Bool, true, false, Option, none, some, List, [], ◌∷◌, ◌≡◌, refl, arith, inl, inr,
  nat_eq, list_eq, ◌==◌, ==_iff, ==_refl, ltb, leb, ◌-◌, ◌*◌, if◌then◌else◌, ok, err, Bool-cases,
  string_eq,
}
use infra_pulse.Base.Int.{pos, negsuc}
use infra_pulse.Base.Text.{
  Bytes, codes, parse_uint, parse_digits, digit, is_space, format_from, format_uint,
}
use infra_pulse.Base.Map.{Map, keys, lookup, insert, has, IsMap, lookup-cons, lookup-nil}
use infra_pulse.Metric.{Float64, FloatOps}
use infra_pulse.Cpu.{CpuStat, CpuCollector, CpuFlags, fresh_collector}
use infra_pulse.Cpu.Stats.{
  MapFunctions, AreDocumented, is_among, zero_stat, jump_back_seconds, update_cpu_stats, advance,
  base_stat, advance_all,
}
use infra_pulse.Cpu.Cache.{updated_stat, update_cpu_stats-lookup}
use infra_pulse.Cpu.Forward.{IsAtLeast, update_cpu_stats-IsAtLeast}
use infra_pulse.Cpu.Throttle.{read_uint_from_file}
use infra_pulse.Cpu.Rounds.{first_reading, core_reading}
use infra_pulse.Cpu.Results.{read_all, read_stat, collector_after, update-result}
use infra_pulse.Cpu.Update.{Answers, update}

instance abbrev second_counts : Float64 ℕ
second_counts = record { from_uint = λ n. n; from_int = λ z. elim z [ pos n ↦ n | negsuc n ↦ 0 ] }

instance abbrev second_ops : FloatOps ℕ
second_ops = record {
  ge = λ a b. leb b a;
  gt = λ a b. ltb b a;
  sub = λ a b. a - b;
  mul = λ a b. a * b;
}

module _ {V : Type 0} where
  abbrev delete_where : Map ℕ V → (ℕ → V → Bool) → Map ℕ V
  delete_where [] del = []
  delete_where ((k, v) ∷ m) del =
      let rest = delete_where m del in if del k v then rest else (k, v) ∷ rest

  keys_lem : (m : Map ℕ V) (k : ℕ) → is_among k (keys m) ≡ has k m
  keys_lem [] k = ground (arith, lookup-nil {V = V} k)
  keys_lem ((j, v) ∷ m) k = ground (arith, keys_lem m k, lookup-cons k j v m)

  delete_where-lookup :
      (m : Map ℕ V) (del : ℕ → V → Bool) (k : ℕ)
      → IsMap m
      → lookup k (delete_where m del)
        ≡ elim (lookup k m) [ none ↦ none | some v ↦ (if del k v then none else some v) ]
  unfolding lookup
  delete_where-lookup [] del k d = refl
  delete_where-lookup ((j, v) ∷ m) del k d =
      let ih = delete_where-lookup m del k d.1 in
      elim (Bool-cases (j == k)) [
        | inl e ↦
            let q : j ≡ k = (==_iff j k).0 e in
            let absent : lookup k m ≡ none = ground (arith, d.0, q) in
            elim (Bool-cases (del k v)) [
              | inl removed ↦ rw (q, removed, ih, absent, ==_refl k, removed) refl
              | inr kept ↦ rw (q, kept, ==_refl k, kept) refl
            ]
        | inr e ↦ elim (Bool-cases (del j v)) [
          | inl removed ↦ rw (removed, e, ih) refl
          | inr kept ↦ rw (kept, e, ih) refl
        ]
      ]

  delete_where-IsMap : (m : Map ℕ V) (del : ℕ → V → Bool) → IsMap m → IsMap (delete_where m del)
  delete_where-IsMap [] del d = tt
  delete_where-IsMap ((j, v) ∷ m) del d =
      ground (arith, delete_where-lookup m del j, delete_where-IsMap m del d.1)

  abbrev plain_maps : MapFunctions V
  plain_maps = record {
    map_keys = keys;
    delete_func = delete_where;
    contains = λ ks k. is_among k ks;
  }

  plain_maps-AreDocumented : AreDocumented plain_maps
  plain_maps-AreDocumented = record {
    map_keys_lem = keys_lem;
    contains_lem = λ ks k. refl;
    lookup-delete_func = delete_where-lookup;
    delete_func-IsMap = delete_where-IsMap;
  }

abbrev busy : ℕ → ℕ → CpuStat ℕ
busy user idle = record (zero_stat {F = ℕ}) { user = user; idle = idle }

-- Processor 0 was and is online, 1 went offline, 2 came online.
abbrev was : Map ℕ (CpuStat ℕ)
was = (0, busy 5 9) ∷ (1, busy 7 7) ∷ []

abbrev is : Map ℕ (CpuStat ℕ)
is = (0, busy 4 10) ∷ (2, busy 1 1) ∷ []

removed_and_added : update_cpu_stats plain_maps is was ≡ (0, busy 5 10) ∷ (2, busy 1 1) ∷ []
unfolding update_cpu_stats advance_all advance base_stat insert lookup
removed_and_added = refl

was-IsMap : IsMap was
unfolding lookup
was-IsMap = (refl, (refl, tt))

is-IsMap : IsMap is
unfolding lookup
is-IsMap = (refl, (refl, tt))

update_cpu_stats-lookup_example :
    lookup 1 (update_cpu_stats plain_maps is was) ≡ updated_stat (lookup 1 is) (lookup 1 was)
update_cpu_stats-lookup_example =
    update_cpu_stats-lookup plain_maps plain_maps-AreDocumented is was is-IsMap was-IsMap 1

looked_up : (lookup 0 is ≡ some (busy 4 10)) × (lookup 0 was ≡ some (busy 5 9))
unfolding lookup
looked_up = (refl, refl)

update_cpu_stats-IsAtLeast_example :
    (s : CpuStat ℕ) × ((lookup 0 (update_cpu_stats plain_maps is was) ≡ some s)
      × ((leb jump_back_seconds (9 - 10) ≡ false → IsAtLeast s (busy 5 9))
          × (leb jump_back_seconds (9 - 10) ≡ true → IsAtLeast s zero_stat)))
update_cpu_stats-IsAtLeast_example =
    update_cpu_stats-IsAtLeast plain_maps plain_maps-AreDocumented is was is-IsMap was-IsMap 0
      (busy 4 10) (busy 5 9) looked_up.0 looked_up.1

abbrev sys_file : Bytes → Option Bytes
sys_file path =
    if path == codes "/sys/cpu0/topology/physical_package_id"
    then some (codes "0\n")
    else if path == codes "/sys/cpu0/topology/core_id"
    then some (codes "1\n")
    else if path == codes "/sys/cpu0/thermal_throttle/core_throttle_count"
    then some (codes "12\n")
    else none

abbrev directories : List Bytes
directories = codes "/sys/cpu0" ∷ codes "/sys/cpu1" ∷ []

core_read : first_reading (core_reading sys_file 0 1) directories ≡ some 12
unfolding read_uint_from_file parse_uint parse_digits digit is_space
core_read = refl

abbrev answers : Answers ℕ String
answers = record {
  info = err "no cpuinfo";
  stat = ok is;
  directories = ok directories;
  read = sys_file;
  cpufreq = none;
}

abbrev variables : CpuFlags
variables = record {
  enable_cpu_guest = true;
  enable_cpu_info = false;
  flags_include = "";
  bugs_include = "";
}

abbrev collector : CpuCollector ℕ
collector = record (fresh_collector (some (3 ∷ []))) { cpu_stats = was }

decimal : format_uint 1204 ≡ codes "1204"
unfolding format_from
decimal = refl

update-result_example :
    ((update plain_maps variables answers collector).result ≡ read_all variables answers)
    × ((update plain_maps variables answers collector).collector
        ≡ collector_after plain_maps variables answers collector (read_stat variables answers))
update-result_example = update-result plain_maps variables answers collector
