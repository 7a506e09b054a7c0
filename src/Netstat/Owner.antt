-- ===== src/Netstat/Owner.antt =====
-- `getProcName`, `iterFdDir`, `extractProcInfo` and `doNetstat`. What the file system says of the
-- directories of /proc is an argument.
pub mod Name
pub mod Assign
pub mod Keeps
use infra_pulse.Base.{
  ℕ, ◌+◌, Bool, true, false, Option, none, some, List, [], ◌∷◌, ◌++◌, ltb, get_elem?, nat_eq,
  list_eq, ◌==◌, if◌then◌else◌, Outcome, ok, err, panic,
}
use infra_pulse.Base.Text.{Bytes, codes, index, last_index, slice, has_prefix, split_n, atoi}
use infra_pulse.Base.Int.{ℤ}
use infra_pulse.Netstat.{SockTabEntry, Process, Error, open_failed}
use infra_pulse.Netstat.Table.{Scanned, parse_socktab}

abbrev pub sock_prefix : Bytes
sock_prefix = codes "socket:["

-- `bytes.LastIndex` may give -1, which is before any position of "(".
unfoldable pub get_proc_name : Bytes → Bytes
get_proc_name s = elim (index b'(' s) [
  | none ↦ []
  | some i ↦ elim (last_index b')' s) [
    | none ↦ []
    | some j ↦ if ltb j i then [] else slice (i + 1) j s
  ]
]

-- A directory entry of /proc: the links of its fd directory (`none` if that cannot be read, and for
-- each link that cannot), and the first 128 bytes of its stat file (`none` if opening or reading fails).
pub record ProcDir : Type 0 where
  pub name : Bytes
  pub is_dir : Bool
  pub links : Option (List (Option Bytes))
  pub stat : Option Bytes

-- The process that `iterFdDir` makes at its first match: `z[1]` panics if there is no space. An
-- error is its early return.
unfoldable pub read_process : ℤ → Option Bytes → Outcome (Unit {0}) Process
read_process pid none = err tt
read_process pid (some buf) = elim (get_elem? (split_n b' ' 3 buf) 1) [
  | none ↦ panic
  | some z1 ↦ ok (record { pid = pid; name = get_proc_name z1 })
]

-- The fields `p` and `sktab` of `procFd`, which change.
pub record Marked : Type 0 where
  pub proc : Option Process
  pub table : List SockTabEntry

-- The entry before the rest of the table, whether the loop went on or returned.
abbrev pub onto : SockTabEntry → Outcome Marked Marked → Outcome Marked Marked
onto sk (ok m) = ok (record m { table = sk ∷ m.table })
onto sk (err m) = err (record m { table = sk ∷ m.table })
onto sk panic = panic

-- `ss`, the name of the link of a socket
abbrev pub link_name : SockTabEntry → Bytes
link_name sk = sock_prefix ++ sk.ino ++ b']' ∷ []

abbrev pub owned_by : Process → SockTabEntry → SockTabEntry
owned_by p sk = record sk { process = some p }

-- `p.p` if it is there, and else the process that is read now
abbrev pub get_process : Option Process → Outcome (Unit {0}) Process → Outcome (Unit {0}) Process
get_process (some p) o = ok p
get_process none o = o

-- The inner loop, over the table, for one link. `ok` goes on to the next link; `err` is a return of
-- the whole function, with the table as it is by then.
unfoldable pub mark_entries :
    ℤ → Option Bytes → Bytes → Option Process → List SockTabEntry → Outcome Marked Marked
mark_entries pid stat lname p [] = ok (record { proc = p; table = [] })
mark_entries pid stat lname p (sk ∷ rest) =
    let others = mark_entries pid stat lname p rest in
    if link_name sk == lname
    then elim (get_process p (read_process pid stat)) [
      | ok q ↦ onto (owned_by q sk) (mark_entries pid stat lname (some q) rest)
      | err _ ↦ err (record { proc = p; table = sk ∷ rest })
      | panic ↦ panic
    ]
    else onto sk others

-- The outer loop, over the links.
unfoldable pub iter_links : ℤ → Option Bytes → List (Option Bytes) → Marked → Outcome Marked Marked
iter_links pid stat [] m = ok m
iter_links pid stat (none ∷ links) m = iter_links pid stat links m
iter_links pid stat (some lname ∷ links) m =
    let next = iter_links pid stat links m in
    if has_prefix lname sock_prefix
    then elim (mark_entries pid stat lname m.proc m.table) [
      | ok m' ↦ iter_links pid stat links m'
      | err m' ↦ err m'
      | panic ↦ panic
    ]
    else next

abbrev pub returned : Outcome Marked Marked → Outcome Error (List SockTabEntry)
returned (ok m) = ok m.table
returned (err m) = ok m.table
returned panic = panic

-- The table after `iterFdDir` of a process; it returns nothing but may panic.
unfoldable pub iter_fd_dir : ℤ → ProcDir → List SockTabEntry → Outcome Error (List SockTabEntry)
iter_fd_dir pid dir sktab = elim dir.links [
  | none ↦ ok sktab
  | some links ↦ returned (iter_links pid dir.stat links (record { proc = none; table = sktab }))
]

-- One round of the loop of `extractProcInfo`.
unfoldable pub extract_one : ProcDir → List SockTabEntry → Outcome Error (List SockTabEntry)
extract_one dir sktab =
    if dir.is_dir
    then elim (atoi dir.name) [ ok pid ↦ iter_fd_dir pid dir sktab | _ ↦ ok sktab ]
    else ok sktab

unfoldable pub extract_all : List ProcDir → List SockTabEntry → Outcome Error (List SockTabEntry)
extract_all [] sktab = ok sktab
extract_all (dir ∷ dirs) sktab = elim (extract_one dir sktab) [
  | ok sktab' ↦ extract_all dirs sktab'
  | err e ↦ err e
  | panic ↦ panic
]

-- `none` if /proc cannot be read.
unfoldable pub extract_proc_info :
    Option (List ProcDir) → List SockTabEntry → Outcome Error (List SockTabEntry)
extract_proc_info none sktab = ok sktab
extract_proc_info (some dirs) sktab = extract_all dirs sktab

-- `doNetstat`: the file is what opening and scanning it gave.
unfoldable pub do_netstat :
    Outcome Bytes Scanned
    → Option (List ProcDir)
    → (SockTabEntry → Bool)
    → Outcome Error (List SockTabEntry)
do_netstat (err e) procs fn = err (open_failed e)
do_netstat panic procs fn = panic
do_netstat (ok file) procs fn = elim (parse_socktab file fn) [
  | ok tabs ↦ extract_proc_info procs tabs
  | err e ↦ err e
  | panic ↦ panic
]
