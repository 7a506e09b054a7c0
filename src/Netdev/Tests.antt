-- ===== src/Netdev/Tests.antt =====
-- One device, a filter and the deprecated include flag.
use infra_pulse.Base.{
  ℕ, String, Bool, true, false, Option, none, some, List, [], ◌∷◌, ◌++◌, ◌≡◌, refl, string_eq, ◌==◌,
  All, ok, err,
}
use infra_pulse.Base.Map.{Map, lookup, insert, delete, keys}
use infra_pulse.Base.Int.{pos, negsuc}
use infra_pulse.Metric.{Float64}
use infra_pulse.Netdev.{
  DeviceFilter, FlagValues, include_twice, new_device_filter, new_net_dev_collector, DevStats, pop,
  popz, add_popped, rename, legacy,
}
use infra_pulse.Netdev.Stats.{
  LinkStats, LinkMessage, netlink_map, proc_map, parse_netlink_stats, get_net_dev_stats,
}
use infra_pulse.Netdev.Legacy.{kernel_line, legacy-kernel_line}
use infra_pulse.Netdev.Update.{update}
use infra_pulse.Netdev.Sends.{Sends, all_counters, update-Sends}

instance abbrev plain_floats : Float64 ℕ
plain_floats = record { from_uint = λ n. n; from_int = λ z. elim z [ pos n ↦ n | negsuc n ↦ 0 ] }

abbrev eth0_stats : LinkStats
eth0_stats = record {
  rx_packets = 1;
  tx_packets = 2;
  rx_bytes = 3;
  tx_bytes = 4;
  rx_errors = 5;
  tx_errors = 6;
  rx_dropped = 18446744073709551615;
  tx_dropped = 8;
  multicast = 9;
  collisions = 10;
  rx_length_errors = 11;
  rx_over_errors = 12;
  rx_crc_errors = 13;
  rx_frame_errors = 14;
  rx_fifo_errors = 15;
  rx_missed_errors = 16;
  tx_aborted_errors = 17;
  tx_carrier_errors = 18;
  tx_fifo_errors = 19;
  tx_heartbeat_errors = 20;
  tx_window_errors = 21;
  rx_compressed = 22;
  tx_compressed = 23;
  rx_no_handler = 24;
}

-- The sum of the drops wraps around.
receive_drop_of_eth0 : lookup "receive_drop" (legacy (netlink_map eth0_stats)) ≡ some 15
unfolding legacy rename pop popz add_popped netlink_map lookup insert delete
receive_drop_of_eth0 = refl

legacy-kernel_line_example :
    All
      (λ k.
        lookup k (legacy (netlink_map eth0_stats))
        ≡ lookup k (legacy (proc_map (kernel_line "eth0" eth0_stats))))
      (keys (legacy (proc_map (kernel_line "eth0" eth0_stats))))
legacy-kernel_line_example = legacy-kernel_line "eth0" eth0_stats

abbrev compile : String → Option (String → Bool)
compile pattern = some (λ name. name == pattern)

abbrev old_include : FlagValues
old_include = record {
  device_include = "";
  old_device_include = "eth0";
  device_exclude = "";
  old_device_exclude = "";
}

abbrev only_eth0 : DeviceFilter
only_eth0 = record { ignore_pattern = none; accept_pattern = some (λ name. name == "eth0") }

first_call : (new_net_dev_collector compile old_include).1 ≡ ok only_eth0
unfolding new_net_dev_collector new_device_filter
first_call = refl

-- The call behind it, with the variables as the first one leaves them.
second_call :
    (new_net_dev_collector compile (new_net_dev_collector compile old_include).0).1
    ≡ err include_twice
unfolding new_net_dev_collector new_device_filter
second_call = refl

abbrev links : List LinkMessage
links =
    record { attributes = true; name = "lo"; stats64 = some eth0_stats; stats = none }
    ∷ record { attributes = true; name = "eth0"; stats64 = none; stats = some eth0_stats }
    ∷ []

abbrev eth0_only : Map String DevStats
eth0_only = parse_netlink_stats only_eth0 links []

links_read : get_net_dev_stats {E = String} true only_eth0 (ok links) (ok []) ≡ ok eth0_only
unfolding get_net_dev_stats
links_read = refl

abbrev packets : Map String DevStats
packets = ("eth0", ("receive_packets", 7) ∷ []) ∷ []

-- The address flag is not set.
update-Sends_example :
    Sends {F = ℕ} {E = String} "network"
      (record { descs = []; sent = [] })
      (all_counters "network" false packets ++ [])
      (update "network" false (ok packets) none [])
unfolding lookup
update-Sends_example =
    update-Sends {F = ℕ} {E = String} "network" false packets none [] (λ k d h. cc)
