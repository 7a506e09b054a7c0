-- ===== src/Host/Tests.antt =====
-- A host with one listening socket, on port 22, which belongs to the first of its two processes.
use infra_pulse.Base.{
  ℕ, true, false, none, some, List, [], ◌∷◌, ◌≡◌, refl, ok, select, nat_eq, list_eq,
}
use infra_pulse.Base.Text.{
  Bytes, codes, index, last_index, split, split_n, fields_from, is_space, digit, parse_digits,
  parse_uint, has_prefix, atoi, negated,
}
use infra_pulse.Base.Int.{pos, int_eq}
use infra_pulse.Netstat.{SockTabEntry}
use infra_pulse.Netstat.Address.{parse_addr, parse_addr_fields, parse_ip, parse_ipv4}
use infra_pulse.Netstat.Table.{Scanned, parse_line, read_fields, parse_rows, parse_socktab}
use infra_pulse.Netstat.Owner.{
  ProcDir, get_proc_name, read_process, mark_entries, iter_links, iter_fd_dir, extract_one,
  extract_all, extract_proc_info, do_netstat,
}
use infra_pulse.Host.{SocketFiles}
use infra_pulse.Host.Slices.{delete_slice_string, delete_loop, differs, delete_slice_string-select}
use infra_pulse.Host.Sockets.{
  tcp_socks, tcp6_socks, is_listening, ports, find_port, get_processes_by_port,
}
use infra_pulse.Host.Processes.{Answer, HostProcess, Environment}

delete_slice_string_test :
    delete_slice_string (codes "a" ∷ [] ∷ codes "b" ∷ [] ∷ codes "c" ∷ []) []
    ≡ codes "a" ∷ codes "b" ∷ codes "c" ∷ []
unfolding delete_slice_string delete_loop
delete_slice_string_test = refl

delete_slice_string-select_example :
    delete_slice_string (codes "a" ∷ [] ∷ codes "b" ∷ []) []
    ≡ select (differs []) (codes "a" ∷ [] ∷ codes "b" ∷ [])
delete_slice_string-select_example = delete_slice_string-select [] (codes "a" ∷ [] ∷ codes "b" ∷ [])

abbrev ssh_dir : ProcDir
ssh_dir = record {
  name = codes "42";
  is_dir = true;
  links = some (some (codes "socket:[77]") ∷ []);
  stat = some (codes "42 (sshd) S 1");
}

abbrev tcp_file : Scanned
tcp_file = record {
  lines =
      codes "  sl  local_address"
      ∷ codes
          "   0: 0100007F:0016 00000000:0000 0A 00000000:00000000 00:00000000 00000000  1000  0 77 1 0 100"
      ∷ [];
  error = none;
}

abbrev empty_file : Scanned
empty_file = record { lines = codes "  sl  local_address" ∷ []; error = none }

abbrev host_files : SocketFiles
host_files = record {
  tcp = ok tcp_file;
  tcp6 = ok empty_file;
  procs = some (ssh_dir ∷ []);
  procs6 = none;
}

abbrev ssh_socket : SockTabEntry
ssh_socket = record {
  ino = codes "77";
  local_addr = some (record { ip = 127 ∷ 0 ∷ 0 ∷ 1 ∷ []; port = 22 });
  remote_addr = some (record { ip = 0 ∷ 0 ∷ 0 ∷ 0 ∷ []; port = 0 });
  state = 10;
  uid = 1000;
  process = some (record { pid = pos 42; name = codes "sshd" });
}

ports_of_host : ports host_files ≡ ok (ssh_socket ∷ [])
unfolding ports tcp_socks tcp6_socks do_netstat parse_socktab parse_rows parse_line read_fields
    parse_addr parse_addr_fields parse_ip parse_ipv4 parse_uint parse_digits digit fields_from
    is_space index split extract_proc_info extract_all extract_one iter_fd_dir iter_links
    mark_entries read_process get_proc_name last_index split_n has_prefix atoi negated
ports_of_host = refl

tcp_of_host : do_netstat (ok tcp_file) (some (ssh_dir ∷ [])) is_listening ≡ ok (ssh_socket ∷ [])
unfolding do_netstat parse_socktab parse_rows parse_line read_fields parse_addr parse_addr_fields
    parse_ip parse_ipv4 parse_uint parse_digits digit fields_from is_space index split
    extract_proc_info extract_all extract_one iter_fd_dir iter_links mark_entries read_process
    get_proc_name last_index split_n has_prefix atoi negated
tcp_of_host = refl

by_port : get_processes_by_port (pos 22) host_files ≡ ok (pos 42)
unfolding get_processes_by_port find_port
by_port = rw ports_of_host refl

abbrev answered : {A : Type 0} → A → Answer A
answered a = record { value = a; failed = false }

abbrev host_process : ℕ → Bytes → HostProcess ℕ ℕ
host_process pid command = record {
  pid = pos pid;
  name = answered command;
  status = answered (codes "S" ∷ []);
  cpu_percent = answered 1;
  memory_percent = answered 2;
  ppid = answered (pos 1);
  create_time = answered (pos 0);
  username = answered (codes "root");
  environ = answered ([] ∷ codes "A=1" ∷ []);
  cmdline = answered command;
  cwd = answered [];
}

abbrev host_env : Environment
host_env = record { home = codes "/root"; format_time = λ t. codes "1970" }

abbrev host_processes : List (HostProcess ℕ ℕ)
host_processes = host_process 42 (codes "sshd") ∷ host_process 43 (codes "bash") ∷ []
