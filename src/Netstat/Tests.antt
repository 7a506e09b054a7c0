-- ===== src/Netstat/Tests.antt =====
-- Lines, addresses and links as /proc gives them.
use infra_pulse.Base.{
  Bool, true, none, some, [], ◌∷◌, ◌≡◌, ◌≢◌, refl, arith, ok, panic, nat_eq, list_eq, ◌==◌, ◌<◌,
  ◌>>=◌, select,
}
use infra_pulse.Base.Text.{
  Bytes, codes, index, split, fields_from, is_space, digit, parse_digits, parse_uint,
}
use infra_pulse.Base.Int.{pos}
use infra_pulse.Netstat.{SockAddr, SockTabEntry, Process}
use infra_pulse.Netstat.Address.{parse_ipv4, parse_ip, parse_addr, parse_addr_fields}
use infra_pulse.Netstat.Address.RoundTrip.{Word, v4, parse_addr-hex}
use infra_pulse.Netstat.Address.Bounds.{IsIpAddress, parse_addr-IsIpAddress}
use infra_pulse.Netstat.Table.{Scanned, listen, parse_line, read_fields, parse_socktab, at_end}
use infra_pulse.Netstat.Table.Select.{parse_all, parse_socktab-select}
use infra_pulse.Netstat.Owner.{ProcDir, read_process, iter_fd_dir}
use infra_pulse.Netstat.Owner.Name.{read_process_name, read_process_loses_name}
use infra_pulse.Netstat.Owner.Assign.{iter_fd_dir-assign}

abbrev localhost : Word
localhost = record { b0 = 127; b1 = 0; b2 = 0; b3 = 1 }

abbrev ssh_line : Bytes
ssh_line =
    codes
      "   0: 0100007F:0016 00000000:0000 0A 00000000:00000000 00:00000000 00000000  1000  0 5860846 1 0 100"

abbrev ssh_entry : SockTabEntry
ssh_entry = record {
  ino = codes "5860846";
  local_addr = some (record { ip = 127 ∷ 0 ∷ 0 ∷ 1 ∷ []; port = 22 });
  remote_addr = some (record { ip = 0 ∷ 0 ∷ 0 ∷ 0 ∷ []; port = 0 });
  state = 10;
  uid = 1000;
  process = none;
}

parse_line_ssh : parse_line ssh_line ≡ ok ssh_entry
unfolding parse_line read_fields parse_addr parse_addr_fields parse_ip parse_ipv4 parse_uint
    parse_digits digit fields_from is_space index split
parse_line_ssh = refl

parse_addr-hex_example :
    parse_addr (codes "0100007F:0016") ≡ ok (record { ip = 127 ∷ 0 ∷ 0 ∷ 1 ∷ []; port = 22 })
parse_addr-hex_example =
    parse_addr-hex (localhost ∷ []) 22 (v4 localhost (omega arith)) (omega arith)

parse_addr-IsIpAddress_example :
    (parse_addr (codes "0100007F:0016") ≢ panic)
    × ((a : SockAddr)
        → parse_addr (codes "0100007F:0016") ≡ ok a
        → IsIpAddress a.ip × (a.port < 65536))
parse_addr-IsIpAddress_example = parse_addr-IsIpAddress (codes "0100007F:0016")

abbrev table_file : Scanned
table_file = record { lines = codes "  sl  local_address" ∷ ssh_line ∷ []; error = none }

abbrev listening : SockTabEntry → Bool
listening e = e.state == listen

parse_socktab-select_example :
    parse_socktab table_file listening
    ≡ (parse_all (ssh_line ∷ []) >>= λ es. at_end none (select listening es))
parse_socktab-select_example = parse_socktab-select listening table_file

abbrev sshd : Process
sshd = record { pid = pos 812; name = codes "sshd" }

abbrev sshd_dir : ProcDir
sshd_dir = record {
  name = codes "812";
  is_dir = true;
  links = some (some (codes "/dev/null") ∷ none ∷ some (codes "socket:[5860846]") ∷ []);
  stat = some (codes "812 (sshd) S 1 812");
}

sshd_named : read_process (pos 812) (some (codes "812 (sshd) S 1 812")) ≡ ok sshd
sshd_named =
    read_process_name (pos 812) (codes "812") (codes "sshd") (codes "S 1 812") (omega arith)
      (omega arith)

read_process_loses_name_example :
    read_process (pos 77) (some (codes "77 (tmux: server) S 1"))
    ≡ ok (record { pid = pos 77; name = [] })
read_process_loses_name_example =
    read_process_loses_name (pos 77) (codes "77") (codes "tmux:") (codes "server") (codes "S 1")
      (omega arith) (omega arith) (omega arith)

iter_fd_dir-assign_example :
    iter_fd_dir (pos 812) sshd_dir (ssh_entry ∷ [])
    ≡ ok (record ssh_entry { process = some sshd } ∷ [])
iter_fd_dir-assign_example =
    iter_fd_dir-assign (pos 812) sshd_dir sshd
      (some (codes "/dev/null") ∷ none ∷ some (codes "socket:[5860846]") ∷ []) (ssh_entry ∷ []) refl
      sshd_named
