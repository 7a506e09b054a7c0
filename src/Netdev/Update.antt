-- ===== src/Netdev/Update.antt =====
-- `metricDesc` and `Update`: the cache of descriptions and what is sent.
use Prim.Native.String.{◌++◌ as concat}
use infra_pulse.Base.{
  ℕ, String, Bool, Option, none, some, List, [], ◌∷◌, ◌++◌, string_eq, if◌then◌else◌, Outcome, ok,
  panic, ◌>>=◌,
}
use infra_pulse.Base.Map.{Map, lookup, insert, has}
use infra_pulse.Metric.{Float64, build, Desc, counter, gauge, Metric}
use infra_pulse.Scrape.{namespace}
use infra_pulse.Netdev.{DevStats, legacy}

abbrev pub new_metric_desc : String → String → Desc
new_metric_desc subsystem key = record {
  fq_name = build namespace subsystem (concat key "_total");
  help = concat "Network device statistic " (concat key ".");
  label_names = "device" ∷ [];
}

-- The field `metricDescs` behind a call of `metricDesc`, whose result is the entry of the key.
unfoldable pub metric_desc : String → String → Map String Desc → Map String Desc
metric_desc subsystem key descs =
    if has key descs then descs else insert key (new_metric_desc subsystem key) descs

-- The entry that `metricDesc` returns; a missing one is nil, which `MustNewConstMetric` refuses.
abbrev pub desc_at : String → Map String Desc → Option Desc
desc_at key descs = lookup key descs

-- An address of an interface, as `getAddrsInfo` lists it.
pub record AddrInfo : Type 0 where
  pub device : String
  pub addr : String
  pub scope : String
  pub netmask : String

abbrev pub address_desc : Desc
address_desc = record {
  fq_name = build namespace "network_address" "info";
  help = "node network address by device";
  label_names = "device" ∷ "address" ∷ "netmask" ∷ "scope" ∷ [];
}

-- The cache and the sends, in order.
pub record Sending (F : Type 0) : Type 0 where
  pub descs : Map String Desc
  pub sent : List (Metric F)

module _ {F : Type 0} ⦃fl : Float64 F⦄ where
  abbrev pub counter_metric : Desc → ℕ → String → Metric F
  counter_metric desc value dev = record {
    desc = desc;
    value_type = counter;
    value = fl.from_uint value;
    label_values = dev ∷ [];
  }

  -- The inner loop of `Update`, over the counters of a device.
  unfoldable pub send_counters :
      {E : Type 0} → String → String → DevStats → Sending F → Outcome E (Sending F)
  send_counters subsystem dev [] s = ok s
  send_counters subsystem dev ((key, value) ∷ stats) s =
      let descs = metric_desc subsystem key s.descs in
      elim (desc_at key descs) [
        | none ↦ panic
        | some desc ↦
            send_counters subsystem dev stats
              (record { descs = descs; sent = s.sent ++ counter_metric desc value dev ∷ [] })
      ]

  -- The loop over the devices; without detailed metrics the names are the legacy ones.
  unfoldable pub send_devices :
      {E : Type 0} → String → Bool → Map String DevStats → Sending F → Outcome E (Sending F)
  send_devices subsystem detailed [] s = ok s
  send_devices subsystem detailed ((dev, stats) ∷ net_dev) s = do
    s' ← send_counters subsystem dev (if detailed then stats else legacy stats) s
    send_devices subsystem detailed net_dev s'

  abbrev pub address_metric : AddrInfo → Metric F
  address_metric a = record {
    desc = address_desc;
    value_type = gauge;
    value = fl.from_uint 1;
    label_values = a.device ∷ a.addr ∷ a.netmask ∷ a.scope ∷ [];
  }

  unfoldable pub send_addresses : List AddrInfo → Sending F → Sending F
  send_addresses [] s = s
  send_addresses (a ∷ addrs) s =
      send_addresses addrs (record s { sent = s.sent ++ address_metric a ∷ [] })

  -- `Update`: `addresses` is none unless the flag for the address information is set.
  unfoldable pub update :
      {E : Type 0}
      → String
      → Bool
      → Outcome E (Map String DevStats)
      → Option (Outcome E (List AddrInfo))
      → Map String Desc
      → Outcome E (Sending F)
  update subsystem detailed net_dev addresses descs = do
    stats ← net_dev
    s ← send_devices subsystem detailed stats (record { descs = descs; sent = [] })
    elim addresses [ none ↦ ok s | some found ↦ (do addrs ← found; ok (send_addresses addrs s)) ]
