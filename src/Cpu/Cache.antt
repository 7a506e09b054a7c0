-- ===== src/Cpu/Cache.antt =====
-- The cache of `updateCPUStats`: which processors it holds.
use infra_pulse.Base.{
  ℕ, Bool, true, false, not, Option, none, some, [], ◌∷◌, ◌≡◌, inl, inr, refl, ◌∙◌, sym, arith,
  length, nat_eq, ◌==◌, ==_iff, if◌then◌else◌, Bool-cases,
}
use infra_pulse.Base.Map.{
  Map, lookup, insert, get_or, has, IsMap, lookup-insert, lookup-nil, lookup-cons, insert-IsMap,
}
use infra_pulse.Base.Sizes.{has-same_length}
use infra_pulse.Metric.{Float64, FloatOps}
use infra_pulse.Cpu.{CpuStat}
use infra_pulse.Cpu.Stats.{
  MapFunctions, AreDocumented, zero_stat, advance, advance_all, update_cpu_stats,
}

module _ {F : Type 0} ⦃fl : Float64 F⦄ ⦃ops : FloatOps F⦄ where
  advance_all-IsMap : (new cache : Map ℕ (CpuStat F)) → IsMap cache → IsMap (advance_all new cache)
  unfolding advance_all
  advance_all-IsMap [] cache d = d
  advance_all-IsMap ((i, n) ∷ new) cache d =
      advance_all-IsMap new _ (insert-IsMap i (advance n (get_or i zero_stat cache)) cache d)

  -- What the loop makes of an entry.
  abbrev advanced : Option (CpuStat F) → Option (CpuStat F) → Option (CpuStat F)
  advanced none old = old
  advanced (some n) old = some (advance n (elim old [ none ↦ zero_stat | some s ↦ s ]))

  advance_all-lookup :
      (k : ℕ) (new cache : Map ℕ (CpuStat F))
      → IsMap new
      → lookup k (advance_all new cache) ≡ advanced (lookup k new) (lookup k cache)
  unfolding advance_all
  advance_all-lookup k [] cache d = rw (lookup-nil {V = CpuStat F} k) refl
  advance_all-lookup k ((i, n) ∷ new) cache d =
      let s = advance n (get_or i zero_stat cache) in
      let ih = advance_all-lookup k new (insert i s cache) d.1 in
      elim (Bool-cases (i == k)) [
        | inl same ↦
            let q : k ≡ i = sym ((==_iff i k).0 same) in
            let absent : lookup i new ≡ none = ground (arith, d.0) in
            rw (ih, lookup-cons k i n new, lookup-insert i k s cache, same, q, absent) refl
        | inr other ↦ rw (ih, lookup-cons k i n new, lookup-insert i k s cache, other) refl
      ]

  -- What the cache holds for a processor that was or was not online.
  abbrev pub updated_stat : Option (CpuStat F) → Option (CpuStat F) → Option (CpuStat F)
  updated_stat none old = none
  updated_stat (some n) old = some (advance n (elim old [ none ↦ zero_stat | some s ↦ s ]))

  updated_of :
      (n old x : Option (CpuStat F))
      → x ≡ advanced n old
      → elim x [ none ↦ false | some v ↦ true ] ≡ elim n [ none ↦ false | some v ↦ true ]
      → x ≡ updated_stat n old
  updated_of none old none e h = refl
  updated_of none old (some v) e h = ground arith
  updated_of (some n) old x e h = e

  removed_of :
      (b : Bool) (n old x : Option (CpuStat F))
      → x ≡ advanced n old
      → b ≡ elim n [ none ↦ false | some v ↦ true ]
      → elim x [ none ↦ none | some v ↦ (if not b then none else some v) ] ≡ updated_stat n old
  removed_of b none old none e h = refl
  removed_of b none old (some v) e h = rw h refl
  removed_of b (some n) old x e h = rw (e, h) refl

  contains-keys :
      (lib : MapFunctions (CpuStat F))
      → AreDocumented lib
      → (m : Map ℕ (CpuStat F)) (k : ℕ) → lib.contains (lib.map_keys m) k ≡ has k m
  contains-keys lib doc m k = doc.contains_lem (lib.map_keys m) k ∙ doc.map_keys_lem m k

  keys_stay :
      (new cache : Map ℕ (CpuStat F)) (k : ℕ)
      → IsMap new
      → has k new ≡ true
      → has k (advance_all new cache) ≡ true
  keys_stay new cache k d h = ground (arith, advance_all-lookup k new cache d)

  -- `updateCPUStats` leaves in the cache exactly the processors that are online, each with its old
  -- counters brought forward, or with new ones if it was not there, although it looks for processors
  -- that went offline only when the numbers of entries differ.
  pub update_cpu_stats-lookup :
      (lib : MapFunctions (CpuStat F))
      → AreDocumented lib
      → (new cache : Map ℕ (CpuStat F)) → IsMap new
      → IsMap cache
      → (k : ℕ)
      → lookup k (update_cpu_stats lib new cache) ≡ updated_stat (lookup k new) (lookup k cache)
  unfolding update_cpu_stats
  update_cpu_stats-lookup lib doc new cache dn dc k =
      let all = advance_all new cache in
      let at_k = advance_all-lookup k new cache dn in
      elim (Bool-cases (length new == length all)) [
        | inl same ↦
            let agree : has k all ≡ has k new =
              has-same_length new all k dn (advance_all-IsMap new cache dc)
                (λ j h. keys_stay new cache j dn h) ((==_iff (length new) (length all)).0 same) in
            rw same (updated_of (lookup k new) (lookup k cache) (lookup k all) at_k agree)
        | inr other ↦
            rw
              (
                other,
                doc.lookup-delete_func all (λ key item. not (lib.contains (lib.map_keys new) key)) k
                    (advance_all-IsMap new cache dc),
              )
              (removed_of (lib.contains (lib.map_keys new) k) (lookup k new) (lookup k cache)
                (lookup k all) at_k (contains-keys lib doc new k))
      ]

  -- Repeated updates keep a cache with one entry for each processor.
  pub update_cpu_stats-IsMap :
      (lib : MapFunctions (CpuStat F))
      → AreDocumented lib
      → (new cache : Map ℕ (CpuStat F)) → IsMap cache
      → IsMap (update_cpu_stats lib new cache)
  unfolding update_cpu_stats
  update_cpu_stats-IsMap lib doc new cache d =
      let all = advance_all-IsMap new cache d in
      elim (Bool-cases (length new == length (advance_all new cache))) [
        | inl same ↦ rw same all
        | inr other ↦ rw other (doc.delete_func-IsMap _ _ all)
      ]
