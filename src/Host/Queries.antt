-- ===== src/Host/Queries.antt =====
-- The queries over the socket tables are filters of one table, that of `Ports`.
use infra_pulse.Base.{
  ℕ, suc, Bool, true, some, List, [], ◌∷◌, ◌++◌, ◌≡◌, refl, sym, ◌∙◌, ap, arith, select, get_elem?,
  nat_eq, list_eq, ==_iff, Outcome, ok, err, panic, ◌>>=◌, >>=-eq-ok, ok-injective, Bool-cases,
  Option-cases, inl, inr, append_assoc, append-nil,
}
use infra_pulse.Base.Int.{ℤ, pos, int_eq}
use infra_pulse.Netstat.{SockAddr, SockTabEntry, Error}
use infra_pulse.Netstat.Filled.{has_addrs, all_pass, Filled, do_netstat-Filled}
use infra_pulse.Host.{HostError, of_netstat, SocketFiles}
use infra_pulse.Host.Sockets.{
  tcp_socks, tcp6_socks, is_listening, ports, is_owned_by, collect_owned, ports_by_pid, port_owner,
  find_port, get_processes_by_port,
}

pub collect_owned-select :
    (pid : ℤ) (socks entries : List SockTabEntry)
    → collect_owned pid socks entries ≡ entries ++ select (is_owned_by pid) socks
unfolding collect_owned
collect_owned-select pid [] entries = sym (append-nil entries)
collect_owned-select pid (sock ∷ socks) entries = elim (Bool-cases (is_owned_by pid sock)) [
  | inl o ↦
      rw o
        (collect_owned-select pid socks (entries ++ sock ∷ []) ∙ append_assoc entries (sock ∷ []) _)
  | inr o ↦ rw o (collect_owned-select pid socks entries)
]

-- `PortsByPid` is `Ports` and then the entries of the process, in their order; it fails where `Ports`
-- fails, with the same error.
pub ports_by_pid-select :
    (pid : ℤ) (files : SocketFiles)
    → ports_by_pid pid files ≡ (ports files >>= λ socks. ok (select (is_owned_by pid) socks))
unfolding ports_by_pid ports
ports_by_pid-select pid files =
    go (of_netstat (tcp_socks is_listening files)) (of_netstat (tcp6_socks is_listening files))
  where
    go :
        (o o6 : Outcome HostError (List SockTabEntry))
        → (o >>= λ socks. o6 >>= λ socks6. ok (collect_owned pid (socks ++ socks6) [])) ≡ (
            (o >>= λ socks. o6 >>= λ socks6. ok (socks ++ socks6)) >>= λ socks.
            ok (select (is_owned_by pid) socks))
    go (ok a) (ok b) = ap ok (collect_owned-select pid (a ++ b) [])
    go (ok a) (err e) = refl
    go (ok a) panic = refl
    go (err e) o6 = refl
    go panic o6 = refl

of_netstat-ok :
    (o : Outcome Error (List SockTabEntry)) {tab : List SockTabEntry}
    → of_netstat o ≡ ok tab
    → o ≡ ok tab
of_netstat-ok (ok t) h = ap ok (ok-injective h)
of_netstat-ok (err e) h = cc
of_netstat-ok panic h = cc

all_pass-append :
    (test : SockTabEntry → Bool) (xs ys : List SockTabEntry)
    → all_pass test xs ≡ true
    → all_pass test ys ≡ true
    → all_pass test (xs ++ ys) ≡ true
all_pass-append test [] ys h k = k
all_pass-append test (x ∷ xs) ys h k = ground (arith, all_pass-append test xs ys)

-- Every entry that `Ports` returns has a local and a remote address and is in the state Listen.
pub ports-Filled :
    (files : SocketFiles) {socks : List SockTabEntry}
    → ports files ≡ ok socks
    → Filled is_listening socks
unfolding ports tcp_socks tcp6_socks
ports-Filled files h =
    let (a, ha, h') = >>=-eq-ok (of_netstat (tcp_socks is_listening files)) _ h in
    let (b, hb, q) = >>=-eq-ok (of_netstat (tcp6_socks is_listening files)) _ h' in
    let fa =
      do_netstat-Filled files.tcp files.procs is_listening (λ e. refl) (of_netstat-ok _ ha) in
    let fb =
      do_netstat-Filled files.tcp6 files.procs6 is_listening (λ e. refl) (of_netstat-ok _ hb) in
    rw (sym (ok-injective q))
      (all_pass-append has_addrs a b fa.0 fb.0, all_pass-append is_listening a b fa.1 fb.1)

-- The process listens on the port, by this entry.
pub record ListensOn (port pid : ℤ) (entry : SockTabEntry) : Type 0 where
  pub addr : SockAddr
  pub local : entry.local_addr ≡ some addr
  pub port_is : pos addr.port ≡ port
  pub owner : is_owned_by pid entry ≡ true

port_owner-ListensOn :
    (port pid : ℤ) (entry : SockTabEntry)
    → port_owner port entry ≡ some pid
    → ListensOn port pid entry
port_owner-ListensOn port pid entry h = elim (Option-cases entry.local_addr) [
  | inl n ↦ ground arith
  | inr (a, n) ↦ elim (Option-cases entry.process) [
    | inl m ↦ ground arith
    | inr (p, m) ↦ record {
      addr = a;
      local = n;
      port_is = ground (arith, ==_iff (pos a.port) port);
      owner = ground (arith, ==_iff p.pid pid);
    }
  ]
]

find_port-ListensOn :
    (port : ℤ) (socks : List SockTabEntry) {pid : ℤ}
    → find_port port socks ≡ ok pid
    → (i : ℕ) × (entry : SockTabEntry) × (get_elem? (select (is_owned_by pid) socks) i ≡ some entry)
      × ListensOn port pid entry
unfolding find_port
find_port-ListensOn port [] h = cc
find_port-ListensOn port (entry ∷ socks) {pid} h = elim (Option-cases (port_owner port entry)) [
  | inl n ↦ elim (Bool-cases (is_owned_by pid entry)) [
    | inl o ↦
        let (i, e, g, l) = find_port-ListensOn port socks {pid = pid} (rw (find_port, n) at h) in
        (suc i, e, rw o g, l)
    | inr o ↦
        let (i, e, g, l) = find_port-ListensOn port socks {pid = pid} (rw (find_port, n) at h) in
        (i, e, rw o g, l)
  ]
  | inr (q, n) ↦
      let same : q ≡ pid = ok-injective (rw (find_port, n) at h) in
      let l = port_owner-ListensOn port pid entry (n ∙ ap some same) in
      (0, entry, rw (l.owner) refl, l)
]

-- If `GetProcessesByPort` returns a process, then `PortsByPid` for this process, on the same tables,
-- returns an entry that listens on the port with this process as its owner.
pub get_processes_by_port-ListensOn :
    (port : ℤ) (files : SocketFiles) {pid : ℤ}
    → get_processes_by_port port files ≡ ok pid
    → (owned : List SockTabEntry) × (i : ℕ) × (entry : SockTabEntry) × (ports_by_pid pid files
        ≡ ok owned)
      × (get_elem? owned i ≡ some entry)
      × ListensOn port pid entry
unfolding get_processes_by_port
get_processes_by_port-ListensOn port files {pid} h =
    let (socks, hs, f) = >>=-eq-ok (ports files) _ h in
    let (i, entry, g, l) = find_port-ListensOn port socks f in
    (
      select (is_owned_by pid) socks,
      i,
      entry,
      ports_by_pid-select pid files ∙ ap (λ o. o >>= λ s. ok (select (is_owned_by pid) s)) hs,
      g,
      l,
    )
