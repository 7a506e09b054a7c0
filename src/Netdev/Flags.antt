-- ===== src/Netdev/Flags.antt =====
-- What the flags of the device filter do.
use infra_pulse.Base.{
  String, Bool, true, false, Option, none, List, [], ◌∷◌, ◌≡◌, refl, sym, ◌∙◌, ap, arith, string_eq,
  ◌==◌, ==_iff, Outcome, ok, err, panic, ok-injective, Bool-cases, Option-cases, inl, inr,
}
use infra_pulse.Base.Map.{Map, lookup, lookup-insert}
use infra_pulse.Netdev.{
  DeviceFilter, ignored, FlagValues, include_twice, take_exclude, behind_exclude,
  new_net_dev_collector, DevStats,
}
use infra_pulse.Netdev.Stats.{
  LinkMessage, NetDevLine, link_stats, netlink_map, proc_map, parse_netlink_stats,
  proc_net_dev_loop, get_net_dev_stats,
}

module _ (filter : DeviceFilter) (name : String) where
  parse_netlink_stats-ignored :
      (links : List LinkMessage) (metrics : Map String DevStats)
      → ignored filter name ≡ true
      → lookup name metrics ≡ none
      → lookup name (parse_netlink_stats filter links metrics) ≡ none
  unfolding parse_netlink_stats
  parse_netlink_stats-ignored [] metrics i n = n
  parse_netlink_stats-ignored (msg ∷ links) metrics i n =
      parse_netlink_stats-ignored links _ i (elim (Option-cases (link_stats msg)) [
        | inl e ↦ ground arith
        | inr (stats, e) ↦
            ground
              (arith, lookup-insert msg.name name (netlink_map stats) metrics, ==_iff msg.name name)
      ])

  proc_net_dev_loop-ignored :
      (net_dev : List NetDevLine) (metrics : Map String DevStats)
      → ignored filter name ≡ true
      → lookup name metrics ≡ none
      → lookup name (proc_net_dev_loop filter net_dev metrics) ≡ none
  unfolding proc_net_dev_loop
  proc_net_dev_loop-ignored [] metrics i n = n
  proc_net_dev_loop-ignored (stats ∷ net_dev) metrics i n = proc_net_dev_loop-ignored net_dev _ i (
      ground
        (arith, lookup-insert stats.name name (proc_map stats) metrics, ==_iff stats.name name))

-- The include flags stay as they are behind the first test.
behind_exclude-keeps :
    (compile : String → Option (String → Bool)) (v : FlagValues)
    → ((behind_exclude compile (take_exclude v)).0.device_include ≡ v.device_include)
      × ((behind_exclude compile (take_exclude v)).0.old_device_include ≡ v.old_device_include)
behind_exclude-keeps compile v = elim (Bool-cases (v.old_device_exclude == "")) [
  | inl o ↦ rw o (refl, refl)
  | inr o ↦ elim (Bool-cases (v.device_exclude == "")) [
    | inl n ↦ rw (o, n) (refl, refl)
    | inr n ↦ rw (o, n) (refl, refl)
  ]
]

new_net_dev_collector-takes :
    (compile : String → Option (String → Bool)) (v : FlagValues) {f : DeviceFilter}
    → (v.old_device_include == "") ≡ false
    → (new_net_dev_collector compile v).1 ≡ ok f
    → ((new_net_dev_collector compile v).0.device_include ≡ v.old_device_include)
      × ((new_net_dev_collector compile v).0.old_device_include ≡ v.old_device_include)
unfolding new_net_dev_collector
new_net_dev_collector-takes compile v o h = elim (Bool-cases (v.device_include == "")) [
  | inl n ↦
      rw (o, n) (behind_exclude-keeps compile (record v { device_include = v.old_device_include }))
  | inr n ↦ ground arith
]

new_net_dev_collector-twice :
    (compile : String → Option (String → Bool)) (v : FlagValues)
    → (v.old_device_include == "") ≡ false
    → (v.device_include == "") ≡ false
    → (new_net_dev_collector compile v).1 ≡ err include_twice
unfolding new_net_dev_collector
new_net_dev_collector-twice compile v o n = rw (o, n) refl

-- If `NewNetDevCollector` returns a collector and the old include flag
-- is set, the next call fails, since the first one wrote the old value to the new variable.
new_net_dev_collector_again :
    (compile : String → Option (String → Bool)) (v : FlagValues) {f : DeviceFilter}
    → (v.old_device_include == "") ≡ false
    → (new_net_dev_collector compile v).1 ≡ ok f
    → (new_net_dev_collector compile (new_net_dev_collector compile v).0).1 ≡ err include_twice
new_net_dev_collector_again compile v o h =
    let (i, j) = new_net_dev_collector-takes compile v o h in
    new_net_dev_collector-twice compile (new_net_dev_collector compile v).0 (rw j o) (rw i o)

-- Whether the counters come from netlink or from /proc/net/dev: if there are any, a device that the
-- filter ignores has none.
pub get_net_dev_stats-ignored :
    {E : Type 0} (netlink : Bool) (filter : DeviceFilter) (links : Outcome E (List LinkMessage))
    (net_dev : Outcome E (List NetDevLine)) (name : String) {stats : Map String DevStats}
    → ignored filter name ≡ true
    → get_net_dev_stats netlink filter links net_dev ≡ ok stats
    → lookup name stats ≡ none
unfolding get_net_dev_stats lookup
get_net_dev_stats-ignored true filter (ok links) net_dev name i h =
    ap (lookup name) (sym (ok-injective h))
    ∙ parse_netlink_stats-ignored filter name links [] i refl
get_net_dev_stats-ignored true filter (err e) net_dev name i h = cc
get_net_dev_stats-ignored true filter panic net_dev name i h = cc
get_net_dev_stats-ignored false filter links (ok net_dev) name i h =
    ap (lookup name) (sym (ok-injective h))
    ∙ proc_net_dev_loop-ignored filter name net_dev [] i refl
get_net_dev_stats-ignored false filter links (err e) name i h = cc
get_net_dev_stats-ignored false filter links panic name i h = cc
