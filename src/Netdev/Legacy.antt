-- ===== src/Netdev/Legacy.antt =====
-- The counters of netlink under their legacy names are those of /proc/net/dev.
use infra_pulse.Base.{ℕ, ◌+◌, ◌%◌, ◌^◌, String, some, ◌≡◌, refl, ap, arith, string_eq, All}
use infra_pulse.Base.Map.{lookup, insert, delete, keys}
use infra_pulse.Netdev.{add64, pop, popz, add_popped, rename, legacy}
use infra_pulse.Netdev.Stats.{LinkStats, NetDevLine, netlink_map, proc_map}

-- The line that the kernel prints for these counters: drops with the missed packets, frame errors
-- with those of length, overrun and checksum, and carrier errors with the aborted transmissions and
-- the heartbeat and window errors, in 64 bits.
abbrev pub kernel_line : String → LinkStats → NetDevLine
kernel_line device s = record {
  name = device;
  rx_bytes = s.rx_bytes;
  rx_packets = s.rx_packets;
  rx_errors = s.rx_errors;
  rx_dropped = (s.rx_dropped + s.rx_missed_errors) % 2 ^ 64;
  rx_fifo = s.rx_fifo_errors;
  rx_frame = (s.rx_length_errors + s.rx_over_errors + s.rx_crc_errors + s.rx_frame_errors) % 2 ^ 64;
  rx_compressed = s.rx_compressed;
  rx_multicast = s.multicast;
  tx_bytes = s.tx_bytes;
  tx_packets = s.tx_packets;
  tx_errors = s.tx_errors;
  tx_dropped = s.tx_dropped;
  tx_fifo = s.tx_fifo_errors;
  tx_collisions = s.collisions;
  tx_carrier =
      (s.tx_carrier_errors + s.tx_aborted_errors + s.tx_window_errors + s.tx_heartbeat_errors)
      % 2 ^ 64;
  tx_compressed = s.tx_compressed;
}

sum_four : (a b c d t : ℕ) → t ≡ a + b + c + d → add64 (add64 (add64 a b) c) d ≡ t % 2 ^ 64
sum_four a b c d t h = omega arith

-- For all counters of a device: every legacy name that `legacy` makes of the device's line in
-- /proc/net/dev has the same value in what it makes of the device's netlink counters.
pub legacy-kernel_line :
    (device : String) (s : LinkStats)
    → All
        (λ k.
          lookup k (legacy (netlink_map s)) ≡ lookup k (legacy (proc_map (kernel_line device s))))
        (keys (legacy (proc_map (kernel_line device s))))
unfolding legacy rename pop popz add_popped netlink_map proc_map lookup insert delete
legacy-kernel_line device s = (
  refl,
  (
    refl,
    (
      refl,
      (
        ap some (
            sum_four s.rx_frame_errors s.rx_length_errors s.rx_over_errors s.rx_crc_errors
              (s.rx_length_errors + s.rx_over_errors + s.rx_crc_errors + s.rx_frame_errors)
              (omega arith)),
        (
          refl,
          (
            refl,
            (
              refl,
              (
                refl,
                (
                  refl,
                  (
                    refl,
                    (
                      ap some (
                          sum_four s.tx_carrier_errors s.tx_aborted_errors s.tx_heartbeat_errors
                            s.tx_window_errors
                            (s.tx_carrier_errors + s.tx_aborted_errors + s.tx_window_errors
                              + s.tx_heartbeat_errors)
                            (omega arith)),
                      (refl, (refl, (ap some (omega arith), (refl, (refl, tt))))),
                    ),
                  ),
                ),
              ),
            ),
          ),
        ),
      ),
    ),
  ),
)
