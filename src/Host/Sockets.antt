-- ===== src/Host/Sockets.antt =====
-- The queries over the socket tables: `Ports`, `PortsByPid` and `GetProcessesByPort`, with the functions
-- of src/utils/netstat that open the tables, and `ToSockTabEntry`.
use infra_pulse.Base.{
  ℕ, Bool, false, Option, none, some, List, [], ◌∷◌, ◌++◌, nat_eq, list_eq, ◌==◌, if◌then◌else◌,
  Outcome, ok, err, panic, ◌>>=◌,
}
use infra_pulse.Base.Int.{ℤ, pos, int_eq}
use infra_pulse.Netstat.{SockAddr, SockTabEntry, Error}
use infra_pulse.Netstat.Table.{listen}
use infra_pulse.Netstat.Owner.{do_netstat}
use infra_pulse.Host.{HostError, port_not_found, of_netstat, SocketFiles}

unfoldable pub tcp_socks : (SockTabEntry → Bool) → SocketFiles → Outcome Error (List SockTabEntry)
tcp_socks accept_fn files = do_netstat files.tcp files.procs accept_fn

unfoldable pub tcp6_socks : (SockTabEntry → Bool) → SocketFiles → Outcome Error (List SockTabEntry)
tcp6_socks accept_fn files = do_netstat files.tcp6 files.procs6 accept_fn

-- The filter that the queries pass.
abbrev pub is_listening : SockTabEntry → Bool
is_listening s = s.state == listen

unfoldable pub ports : SocketFiles → Outcome HostError (List SockTabEntry)
ports files = do
  socks ← of_netstat (tcp_socks is_listening files)
  socks6 ← of_netstat (tcp6_socks is_listening files)
  ok (socks ++ socks6)

-- `sock.Process != nil && sock.Process.Pid == pid`
abbrev pub is_owned_by : ℤ → SockTabEntry → Bool
is_owned_by pid sock = elim sock.process [ none ↦ false | some p ↦ p.pid == pid ]

-- The loop that appends the sockets of a process.
unfoldable pub collect_owned : ℤ → List SockTabEntry → List SockTabEntry → List SockTabEntry
collect_owned pid [] entries = entries
collect_owned pid (sock ∷ socks) entries =
    collect_owned pid socks (if is_owned_by pid sock then entries ++ sock ∷ [] else entries)

unfoldable pub ports_by_pid : ℤ → SocketFiles → Outcome HostError (List SockTabEntry)
ports_by_pid pid files = do
  socks ← of_netstat (tcp_socks is_listening files)
  socks6 ← of_netstat (tcp6_socks is_listening files)
  ok (collect_owned pid (socks ++ socks6) [])

-- One round of `GetProcessesByPort`: the process, or on to the next entry. A port of 16 bits is the
-- same number as an int32.
abbrev pub port_owner : ℤ → SockTabEntry → Option ℤ
port_owner port entry = elim entry.local_addr [
  | none ↦ none
  | some addr ↦ elim entry.process [
    | none ↦ none
    | some p ↦ if pos addr.port == port then some p.pid else none
  ]
]

unfoldable pub find_port : ℤ → List SockTabEntry → Outcome HostError ℤ
find_port port [] = err (port_not_found port)
find_port port (entry ∷ entries) = elim (port_owner port entry) [
  | some pid ↦ ok pid
  | none ↦ find_port port entries
]

unfoldable pub get_processes_by_port : ℤ → SocketFiles → Outcome HostError ℤ
get_processes_by_port port files = do entries ← ports files; find_port port entries

-- `models.SockTabEntry`
pub record PortState : Type 0 where
  pub local_addr : SockAddr
  pub remote_addr : SockAddr
  pub state : ℕ

-- An entry with a nil address panics.
abbrev pub port_state : Option SockAddr → Option SockAddr → ℕ → Outcome HostError PortState
port_state none remote state = panic
port_state (some local) none state = panic
port_state (some local) (some remote) state =
    ok (record { local_addr = local; remote_addr = remote; state = state })

unfoldable pub to_sock_tab_entry : List SockTabEntry → Outcome HostError (List PortState)
to_sock_tab_entry [] = ok []
to_sock_tab_entry (en ∷ entries) = do
  one ← port_state en.local_addr en.remote_addr en.state
  more ← to_sock_tab_entry entries
  ok (one ∷ more)
