-- ===== src/Host.antt =====
-- src/vm/os_linux.go with src/models: what the agent tells of its host. What the operating system and
-- gopsutil answer is an argument.
pub mod Slices
pub mod Sockets
pub mod Processes
pub mod Queries
pub mod States
pub mod Network
pub mod Interfaces
pub mod Hardware
pub mod Totals
mod Tests
mod SystemTests
use infra_pulse.Base.{ℕ, Option, List, Outcome, ok, err, panic}
use infra_pulse.Base.Text.{Bytes}
use infra_pulse.Base.Int.{ℤ}
use infra_pulse.Netstat.{Error}
use infra_pulse.Netstat.Owner.{ProcDir}
use infra_pulse.Netstat.Table.{Scanned}

pub data HostError : Type 0 where
  netstat_failed : Error → HostError
  system_failed : Bytes → HostError
  port_not_found : ℤ → HostError
  filter_failed : Bytes → HostError
  no_main_ip : HostError

abbrev pub of_netstat {ℓ} : {A : Type ℓ} → Outcome Error A → Outcome HostError A
of_netstat (ok a) = ok a
of_netstat (err e) = err (netstat_failed e)
of_netstat panic = panic

-- What opening and scanning the files of the socket tables gives, and the directories of /proc at each
-- of the two reads of a query.
pub record SocketFiles : Type 0 where
  pub tcp : Outcome Bytes Scanned
  pub tcp6 : Outcome Bytes Scanned
  pub procs : Option (List ProcDir)
  pub procs6 : Option (List ProcDir)
