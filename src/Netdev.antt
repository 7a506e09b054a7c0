-- ===== src/Netdev.antt =====
-- src/metrics/collector/netdev_common.go, netdev_linux.go and device_filter.go: the counters of the
-- network devices. What netlink and procfs answer is an argument.
pub mod Stats
pub mod Legacy
pub mod Flags
pub mod Update
pub mod Sends
mod Tests
use infra_pulse.Base.{
  ℕ, ◌+◌, ◌%◌, ◌^◌, String, Bool, true, false, not, ◌&&◌, ◌||◌, Option, none, some, List, [], ◌∷◌,
  ◌++◌, string_eq, ◌==◌, if◌then◌else◌, Outcome, ok, err, panic, ◌>>=◌,
}
use infra_pulse.Base.Map.{Map, lookup, insert, delete}

-- A compiled regular expression is its `MatchString`.
pub record DeviceFilter : Type 0 where
  pub ignore_pattern : Option (String → Bool)
  pub accept_pattern : Option (String → Bool)

-- `regexp.MustCompile` panics on a pattern that `compile` refuses.
abbrev pub compiled :
    {E : Type 0} → (String → Option (String → Bool)) → String → Outcome E (Option (String → Bool))
compiled compile pattern =
    if pattern == ""
    then ok none
    else elim (compile pattern) [ none ↦ panic | some matches ↦ ok (some matches) ]

unfoldable pub new_device_filter :
    {E : Type 0} → (String → Option (String → Bool)) → String → String → Outcome E DeviceFilter
new_device_filter compile ignored_pattern accept_pattern = do
  ignore ← compiled compile ignored_pattern
  accept ← compiled compile accept_pattern
  ok (record { ignore_pattern = ignore; accept_pattern = accept })

unfoldable pub ignored : DeviceFilter → String → Bool
ignored f name =
    elim f.ignore_pattern [ none ↦ false | some matches ↦ matches name ]
    || elim f.accept_pattern [ none ↦ false | some matches ↦ not (matches name) ]

-- The variables of the package that hold the flags.
pub record FlagValues : Type 0 where
  pub device_include : String
  pub old_device_include : String
  pub device_exclude : String
  pub old_device_exclude : String

pub data FlagError : Type 0 where
  include_twice exclude_twice include_and_exclude : FlagError

abbrev pub take_include : FlagValues → FlagValues × Outcome FlagError (Unit {0})
take_include v =
    if v.old_device_include == ""
    then (v, ok tt)
    else if v.device_include == ""
    then (record v { device_include = v.old_device_include }, ok tt)
    else (v, err include_twice)

abbrev pub take_exclude : FlagValues → FlagValues × Outcome FlagError (Unit {0})
take_exclude v =
    if v.old_device_exclude == ""
    then (v, ok tt)
    else if v.device_exclude == ""
    then (record v { device_exclude = v.old_device_exclude }, ok tt)
    else (v, err exclude_twice)

-- The last part of `NewNetDevCollector`. Of the collector, the filter matters here.
abbrev pub make_collector :
    (String → Option (String → Bool)) → FlagValues → Outcome FlagError DeviceFilter
make_collector compile v =
    if not (v.device_exclude == "") && not (v.device_include == "")
    then err include_and_exclude
    else new_device_filter compile v.device_exclude v.device_include

abbrev pub behind_exclude :
    (String → Option (String → Bool))
    → FlagValues × Outcome FlagError (Unit {0})
    → FlagValues × Outcome FlagError DeviceFilter
behind_exclude compile (v, ok _) = (v, make_collector compile v)
behind_exclude compile (v, err e) = (v, err e)
behind_exclude compile (v, panic) = (v, panic)

abbrev pub behind_include :
    (String → Option (String → Bool))
    → FlagValues × Outcome FlagError (Unit {0})
    → FlagValues × Outcome FlagError DeviceFilter
behind_include compile (v, ok _) = behind_exclude compile (take_exclude v)
behind_include compile (v, err e) = (v, err e)
behind_include compile (v, panic) = (v, panic)

-- `NewNetDevCollector`, which writes to the variables that it reads.
unfoldable pub new_net_dev_collector :
    (String → Option (String → Bool)) → FlagValues → FlagValues × Outcome FlagError DeviceFilter
new_net_dev_collector compile v = behind_include compile (take_include v)

-- A uint64 counter by its name.
abbrev pub DevStats : Type 0
DevStats = Map String ℕ

abbrev pub add64 : ℕ → ℕ → ℕ
add64 a b = (a + b) % 2 ^ 64

unfoldable pub pop : String → DevStats → DevStats × Option ℕ
pop key m = (delete key m, lookup key m)

unfoldable pub popz : String → DevStats → DevStats × ℕ
popz key m = elim (lookup key m) [ some value ↦ (delete key m, value) | none ↦ (m, 0) ]

-- `metric + popz(metrics, e1) + popz(metrics, e2) + ...`
unfoldable pub add_popped : List String → ℕ → DevStats → DevStats × ℕ
add_popped [] metric m = (m, metric)
add_popped (extra ∷ extras) metric m =
    let (m', value) = popz extra m in add_popped extras (add64 metric value) m'

-- One `if` of `legacy`: `from` becomes `to`, together with the extras.
unfoldable pub rename : String → String → List String → DevStats → DevStats
rename from to extras m =
    let (m', found) = pop from m in
    elim found [
      | none ↦ m'
      | some metric ↦ let (m'', total) = add_popped extras metric m' in insert to total m''
    ]

unfoldable pub legacy : DevStats → DevStats
legacy m0 =
    let m1 = rename "receive_errors" "receive_errs" [] m0 in
    let m2 = rename "receive_dropped" "receive_drop" ("receive_missed_errors" ∷ []) m1 in
    let m3 = rename "receive_fifo_errors" "receive_fifo" [] m2 in
    let m4 =
      rename "receive_frame_errors" "receive_frame"
        ("receive_length_errors" ∷ "receive_over_errors" ∷ "receive_crc_errors" ∷ []) m3 in
    let m5 = rename "multicast" "receive_multicast" [] m4 in
    let m6 = rename "transmit_errors" "transmit_errs" [] m5 in
    let m7 = rename "transmit_dropped" "transmit_drop" [] m6 in
    let m8 = rename "transmit_fifo_errors" "transmit_fifo" [] m7 in
    let m9 = rename "multicast" "receive_multicast" [] m8 in
    let m10 = rename "collisions" "transmit_colls" [] m9 in
    rename "transmit_carrier_errors" "transmit_carrier"
      ("transmit_aborted_errors" ∷ "transmit_heartbeat_errors" ∷ "transmit_window_errors" ∷ []) m10
