-- ===== src/Host/States.antt =====
-- `GetProcessesState`: which processes it lists, and with which sockets.
use infra_pulse.Base.{
  ℕ, Bool, true, false, not, ◌&&◌, ◌||◌, Option, none, some, List, [], ◌∷◌, ◌≡◌, refl, arith,
  select, ltb, length, nat_eq, list_eq, ok,
}
use infra_pulse.Base.Int.{int_eq}
use infra_pulse.Netstat.{SockAddr, SockTabEntry}
use infra_pulse.Netstat.Filled.{has_addrs, all_pass}
use infra_pulse.Host.Sockets.{is_owned_by, PortState, port_state, to_sock_tab_entry}
use infra_pulse.Host.Processes.{
  HostProcess, Environment, ProcessesState, work_dir_of, describe_process,
}

-- The state of an entry as it is sent: its addresses and its state.
pub data Copies : List SockTabEntry → List PortState → Type 0 where
  copied_none : Copies [] []
  copied_one :
      {e : SockTabEntry} {s : PortState} {entries : List SockTabEntry} {states : List PortState}
      → e.local_addr ≡ some s.local_addr
      → e.remote_addr ≡ some s.remote_addr
      → e.state ≡ s.state
      → Copies entries states
      → Copies (e ∷ entries) (s ∷ states)

port_state-ok :
    (local remote : Option SockAddr) (state : ℕ)
    → (elim local [ none ↦ false | some a ↦ true ] && elim remote [ none ↦ false | some a ↦ true ])
      ≡ true
    → (s : PortState) × (port_state local remote state ≡ ok s)
      × (local ≡ some s.local_addr)
      × (remote ≡ some s.remote_addr)
      × (state ≡ s.state)
port_state-ok none remote state h = ground arith
port_state-ok (some l) none state h = ground arith
port_state-ok (some l) (some r) state h = (_, refl, refl, refl, refl)

-- Entries with both addresses are copied, without a panic.
pub to_sock_tab_entry-Copies :
    (entries : List SockTabEntry)
    → all_pass has_addrs entries ≡ true
    → (states : List PortState) × (to_sock_tab_entry entries ≡ ok states) × Copies entries states
unfolding to_sock_tab_entry
to_sock_tab_entry-Copies [] h = ([], refl, copied_none)
to_sock_tab_entry-Copies (e ∷ entries) h =
    let (s, o, l, r, t) = port_state-ok e.local_addr e.remote_addr e.state (ground arith) in
    let (states, os, c) = to_sock_tab_entry-Copies entries (ground arith) in
    (s ∷ states, rw (o, os) refl, copied_one l r t c)

module _ {F G : Type 0} (env : Environment) (has_listen_port : Bool)
    (socks : List SockTabEntry) where
  -- Whether a process is listed: all are, or those with a listening socket.
  abbrev pub is_listed : HostProcess F G → Bool
  is_listed p = not has_listen_port || ltb 0 (length (select (is_owned_by p.pid) socks))

  -- The listed processes, in order, each with exactly the sockets that it owns.
  pub data Lists : List (HostProcess F G) → List (ProcessesState F G) → Type 0 where
    listed_none : Lists [] []
    listed_one :
        {p : HostProcess F G} {s : ProcessesState F G} {ps : List (HostProcess F G)}
        {states : List (ProcessesState F G)}
        → s.processes ≡ describe_process env p p.cmdline.value (work_dir_of env p.cwd.value)
        → Copies (select (is_owned_by p.pid) socks) s.sock_tab_entries
        → Lists ps states
        → Lists (p ∷ ps) (s ∷ states)
