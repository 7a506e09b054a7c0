-- ===== src/Netstat.antt =====
-- src/utils/netstat/netstat.go and netstat_linux.go: the socket tables of /proc/net. `Address` has
-- the addresses, `Table` the lines, `Owner` the search for the owners of the sockets.
pub mod Address
pub mod Table
pub mod Owner
pub mod Filled
mod Tests
use infra_pulse.Base.{ℕ, Bool, Option, List, Outcome}
use infra_pulse.Base.Text.{Bytes, NumError}
use infra_pulse.Base.Int.{ℤ}

-- An IP is its bytes in network order.
pub record SockAddr : Type 0 where
  pub ip : Bytes
  pub port : ℕ

pub record Process : Type 0 where
  pub pid : ℤ
  pub name : Bytes

-- The pointers of an entry are nil or point to a value that nobody changes.
pub record SockTabEntry : Type 0 where
  pub ino : Bytes
  pub local_addr : Option SockAddr
  pub remote_addr : Option SockAddr
  pub state : ℕ
  pub uid : ℕ
  pub process : Option Process

pub data Error : Type 0 where
  addr_fields : Bytes → Error
  addr_format : Bytes → Error
  number : NumError → Error
  line_fields : List Bytes → Error
  scanner : Bytes → Error
  open_failed : Bytes → Error
