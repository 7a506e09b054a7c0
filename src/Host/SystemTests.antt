-- ===== src/Host/SystemTests.antt =====
-- Two interfaces, and two processors with one disk.
use infra_pulse.Base.{ℕ, [], ◌∷◌, ◌≡◌, refl, Outcome, ok, nat_eq, list_eq}
use infra_pulse.Base.Map.{Map, insert}
use infra_pulse.Base.Text.{Bytes, codes, has_prefix}
use infra_pulse.Host.Network.{
  Interface, NetworkConfig, pick_addrs, ip_to_string, net_loop, get_net_works, main_loop,
  get_main_ip,
}
use infra_pulse.Host.Hardware.{
  CpuInfo, Memory, Partition, Usage, OsInfo, cpu_loop, disk_info, disk_loop, get_info,
}

-- An injective text of an address, in place of the dotted form.
abbrev show : Bytes → Bytes
show [] = codes "<nil>"
show (b ∷ ip) = b'#' ∷ b ∷ ip

abbrev lo : Interface
lo = record { name = codes "lo"; hardware_addr = []; addrs = ok ((127 ∷ 0 ∷ 0 ∷ 1 ∷ []) ∷ []) }

abbrev eth0 : Interface
eth0 = record {
  name = codes "eth0";
  hardware_addr = codes "aa:bb";
  addrs = ok ((254 ∷ 128 ∷ []) ∷ (10 ∷ 0 ∷ 0 ∷ 5 ∷ []) ∷ (10 ∷ 0 ∷ 0 ∷ 6 ∷ []) ∷ []);
}

abbrev all_nets : Map Bytes NetworkConfig
all_nets =
    (codes "lo", record { inet = b'#' ∷ 127 ∷ 0 ∷ 0 ∷ 1 ∷ []; inet6 = []; hardware_addr = [] })
    ∷ (
      codes "eth0",
      record {
        inet = b'#' ∷ 10 ∷ 0 ∷ 0 ∷ 5 ∷ [];
        inet6 = b'#' ∷ 254 ∷ 128 ∷ [];
        hardware_addr = codes "aa:bb";
      },
    )
    ∷ []

nets_of_host : get_net_works show (ok (lo ∷ eth0 ∷ [])) ≡ ok all_nets
unfolding get_net_works net_loop pick_addrs ip_to_string insert has_prefix
nets_of_host = refl

main_of_host : get_main_ip show (ok (lo ∷ eth0 ∷ [])) (ok (10 ∷ 0 ∷ 0 ∷ 6 ∷ [])) ≡ ok (codes "eth0")
unfolding get_main_ip main_loop has_prefix
main_of_host = refl

abbrev cpu0 : CpuInfo ℕ
cpu0 = record { cores = 4; model_name = codes "X"; mhz = 2000 }

abbrev memory : Memory ℕ
memory = record { total = 8; available = 5; used = 3; used_percent = 37; free = 5 }

abbrev root_disk : Partition
root_disk = record { device = codes "sda"; mountpoint = codes "/"; fstype = codes "ext4" }

abbrev half_full : Bytes → Outcome Bytes (Usage ℕ)
half_full path = ok (record { total = 10; free = 5; used = 5; used_percent = 50 })

abbrev host_os : OsInfo ℕ
host_os = record {
  cpu = record { percent = 9; cores = 8; info = cpu0 ∷ cpu0 ∷ [] };
  memory = memory;
  disks = disk_info root_disk (record { total = 10; free = 5; used = 5; used_percent = 50 }) ∷ [];
}

info_of_host :
    get_info 0 (ok (9 ∷ [])) (ok (cpu0 ∷ cpu0 ∷ [])) (ok memory) (ok (root_disk ∷ [])) half_full
    ≡ ok host_os
unfolding get_info cpu_loop disk_loop
info_of_host = refl
