-- ===== src/Netdev/Stats.antt =====
-- `parseNetlinkStats` and `procNetDevStats`: the counters of the devices by name.
use infra_pulse.Base.{
  ℕ, String, Bool, true, false, Option, none, some, List, [], ◌∷◌, string_eq, if◌then◌else◌,
  Outcome, ok, err, panic,
}
use infra_pulse.Base.Map.{Map, insert}
use infra_pulse.Netdev.{DeviceFilter, ignored, DevStats}

-- `rtnetlink.LinkStats64`, and `LinkStats` with fields of 32 bits, as far as the program reads them.
pub record LinkStats : Type 0 where
  pub rx_packets : ℕ
  pub tx_packets : ℕ
  pub rx_bytes : ℕ
  pub tx_bytes : ℕ
  pub rx_errors : ℕ
  pub tx_errors : ℕ
  pub rx_dropped : ℕ
  pub tx_dropped : ℕ
  pub multicast : ℕ
  pub collisions : ℕ
  pub rx_length_errors : ℕ
  pub rx_over_errors : ℕ
  pub rx_crc_errors : ℕ
  pub rx_frame_errors : ℕ
  pub rx_fifo_errors : ℕ
  pub rx_missed_errors : ℕ
  pub tx_aborted_errors : ℕ
  pub tx_carrier_errors : ℕ
  pub tx_fifo_errors : ℕ
  pub tx_heartbeat_errors : ℕ
  pub tx_window_errors : ℕ
  pub rx_compressed : ℕ
  pub tx_compressed : ℕ
  pub rx_no_handler : ℕ

-- A message of netlink. `attributes` is false for nil attributes.
pub record LinkMessage : Type 0 where
  pub attributes : Bool
  pub name : String
  pub stats64 : Option LinkStats
  pub stats : Option LinkStats

-- A device of /proc/net/dev, as procfs parses it.
pub record NetDevLine : Type 0 where
  pub name : String
  pub rx_bytes : ℕ
  pub rx_packets : ℕ
  pub rx_errors : ℕ
  pub rx_dropped : ℕ
  pub rx_fifo : ℕ
  pub rx_frame : ℕ
  pub rx_compressed : ℕ
  pub rx_multicast : ℕ
  pub tx_bytes : ℕ
  pub tx_packets : ℕ
  pub tx_errors : ℕ
  pub tx_dropped : ℕ
  pub tx_fifo : ℕ
  pub tx_collisions : ℕ
  pub tx_carrier : ℕ
  pub tx_compressed : ℕ

-- The map of a device from its netlink counters.
unfoldable pub netlink_map : LinkStats → DevStats
netlink_map stats =
    ("receive_packets", stats.rx_packets)
    ∷ ("transmit_packets", stats.tx_packets)
    ∷ ("receive_bytes", stats.rx_bytes)
    ∷ ("transmit_bytes", stats.tx_bytes)
    ∷ ("receive_errors", stats.rx_errors)
    ∷ ("transmit_errors", stats.tx_errors)
    ∷ ("receive_dropped", stats.rx_dropped)
    ∷ ("transmit_dropped", stats.tx_dropped)
    ∷ ("multicast", stats.multicast)
    ∷ ("collisions", stats.collisions)
    ∷ ("receive_length_errors", stats.rx_length_errors)
    ∷ ("receive_over_errors", stats.rx_over_errors)
    ∷ ("receive_crc_errors", stats.rx_crc_errors)
    ∷ ("receive_frame_errors", stats.rx_frame_errors)
    ∷ ("receive_fifo_errors", stats.rx_fifo_errors)
    ∷ ("receive_missed_errors", stats.rx_missed_errors)
    ∷ ("transmit_aborted_errors", stats.tx_aborted_errors)
    ∷ ("transmit_carrier_errors", stats.tx_carrier_errors)
    ∷ ("transmit_fifo_errors", stats.tx_fifo_errors)
    ∷ ("transmit_heartbeat_errors", stats.tx_heartbeat_errors)
    ∷ ("transmit_window_errors", stats.tx_window_errors)
    ∷ ("receive_compressed", stats.rx_compressed)
    ∷ ("transmit_compressed", stats.tx_compressed)
    ∷ ("receive_nohandler", stats.rx_no_handler)
    ∷ []

-- The map of a device from its line of /proc/net/dev.
unfoldable pub proc_map : NetDevLine → DevStats
proc_map stats =
    ("receive_bytes", stats.rx_bytes)
    ∷ ("receive_packets", stats.rx_packets)
    ∷ ("receive_errors", stats.rx_errors)
    ∷ ("receive_dropped", stats.rx_dropped)
    ∷ ("receive_fifo", stats.rx_fifo)
    ∷ ("receive_frame", stats.rx_frame)
    ∷ ("receive_compressed", stats.rx_compressed)
    ∷ ("receive_multicast", stats.rx_multicast)
    ∷ ("transmit_bytes", stats.tx_bytes)
    ∷ ("transmit_packets", stats.tx_packets)
    ∷ ("transmit_errors", stats.tx_errors)
    ∷ ("transmit_dropped", stats.tx_dropped)
    ∷ ("transmit_fifo", stats.tx_fifo)
    ∷ ("transmit_colls", stats.tx_collisions)
    ∷ ("transmit_carrier", stats.tx_carrier)
    ∷ ("transmit_compressed", stats.tx_compressed)
    ∷ []

-- `stats`: the 64-bit counters, or else the 32-bit ones, widened.
abbrev pub link_stats : LinkMessage → Option LinkStats
link_stats msg = elim msg.stats64 [ some s ↦ some s | none ↦ msg.stats ]

unfoldable pub parse_netlink_stats :
    DeviceFilter → List LinkMessage → Map String DevStats → Map String DevStats
parse_netlink_stats filter [] metrics = metrics
parse_netlink_stats filter (msg ∷ links) metrics = parse_netlink_stats filter links (
    if msg.attributes
    then if ignored filter msg.name then metrics else elim (link_stats msg) [
      | none ↦ metrics
      | some stats ↦ insert msg.name (netlink_map stats) metrics
    ]
    else metrics)

unfoldable pub proc_net_dev_loop :
    DeviceFilter → List NetDevLine → Map String DevStats → Map String DevStats
proc_net_dev_loop filter [] metrics = metrics
proc_net_dev_loop filter (stats ∷ net_dev) metrics =
    proc_net_dev_loop filter net_dev
      (if ignored filter stats.name then metrics else insert stats.name (proc_map stats) metrics)

-- `netDevNetlink` chooses the source; either may fail.
unfoldable pub get_net_dev_stats :
    {E : Type 0}
    → Bool
    → DeviceFilter
    → Outcome E (List LinkMessage)
    → Outcome E (List NetDevLine)
    → Outcome E (Map String DevStats)
get_net_dev_stats true filter (ok links) net_dev = ok (parse_netlink_stats filter links [])
get_net_dev_stats true filter (err e) net_dev = err e
get_net_dev_stats true filter panic net_dev = panic
get_net_dev_stats false filter links (ok net_dev) = ok (proc_net_dev_loop filter net_dev [])
get_net_dev_stats false filter links (err e) = err e
get_net_dev_stats false filter links panic = panic
