-- ===== src/Host/Processes.antt =====
-- The process lists: `GetProcessesState`, `GetProcessesByName`, `GetProcessesById` and `GetProcesses`.
use infra_pulse.Base.{
  ℕ, Bool, not, ◌||◌, Option, none, some, List, [], ◌∷◌, ◌++◌, ltb, length, nat_eq, list_eq, ◌==◌,
  if◌then◌else◌, Outcome, ok, err, panic, ◌>>=◌,
}
use infra_pulse.Base.Text.{Bytes}
use infra_pulse.Base.Int.{ℤ}
use infra_pulse.Netstat.{SockTabEntry}
use infra_pulse.Host.{HostError, system_failed, filter_failed, SocketFiles}
use infra_pulse.Host.Slices.{delete_slice_string}
use infra_pulse.Host.Sockets.{ports, collect_owned, ports_by_pid, PortState, to_sock_tab_entry}

-- What a method of a gopsutil process answers: a value, and whether there is an error beside it.
pub record Answer (A : Type 0) : Type 0 where
  pub value : A
  pub failed : Bool

-- A process of gopsutil; `F` stands for float64 and `G` for float32.
pub record HostProcess (F G : Type 0) : Type 0 where
  pub pid : ℤ
  pub name : Answer Bytes
  pub status : Answer (List Bytes)
  pub cpu_percent : Answer F
  pub memory_percent : Answer G
  pub ppid : Answer ℤ
  pub create_time : Answer ℤ
  pub username : Answer Bytes
  pub environ : Answer (List Bytes)
  pub cmdline : Answer Bytes
  pub cwd : Answer Bytes

-- `models.Processes`; `Result` is never set here.
pub record Processes (F G : Type 0) : Type 0 where
  pub pid : ℤ
  pub environ : List Bytes
  pub work_dir : Bytes
  pub name : Bytes
  pub state : ℕ
  pub status : List Bytes
  pub cpu_used_percent : F
  pub memory_used_percent : G
  pub ppid : ℤ
  pub start_time : Bytes
  pub user_name : Bytes
  pub command : Bytes

-- `models.ProcessesState`
pub record ProcessesState (F G : Type 0) : Type 0 where
  pub processes : Processes F G
  pub sock_tab_entries : List PortState

-- The home directory of the environment, and the format of a time in milliseconds.
pub record Environment : Type 0 where
  pub home : Bytes
  pub format_time : ℤ → Bytes

-- `workdir` after the test for the empty path.
abbrev pub work_dir_of : Environment → Bytes → Bytes
work_dir_of env workdir = if workdir == [] then env.home else workdir

-- A filter of `GetProcessesByName` may change the process that it is given, or fail.
abbrev pub NoopFilter : Type 0 → Type 0 → Type 0
NoopFilter F G = Processes F G → Outcome Bytes (Processes F G)

module _ {F G : Type 0} (env : Environment) where
  -- The literal of `models.Processes`, with errors of the answers ignored.
  unfoldable pub describe_process : HostProcess F G → Bytes → Bytes → Processes F G
  describe_process p name workdir = record {
    pid = p.pid;
    environ = delete_slice_string p.environ.value [];
    work_dir = workdir;
    name = name;
    state = 1;
    status = p.status.value;
    cpu_used_percent = p.cpu_percent.value;
    memory_used_percent = p.memory_percent.value;
    ppid = p.ppid.value;
    start_time = env.format_time p.create_time.value;
    user_name = p.username.value;
    command = p.cmdline.value;
  }

  -- One round of `GetProcessesState`, over the sockets of `Ports`.
  unfoldable pub state_round :
      Bool
      → List SockTabEntry
      → HostProcess F G
      → List (ProcessesState F G)
      → Outcome HostError (List (ProcessesState F G))
  state_round has_listen_port socks p processes =
      let entries = collect_owned p.pid socks [] in
      if not has_listen_port || ltb 0 (length entries)
      then (do
        ports_of ← to_sock_tab_entry entries
        ok (
            processes
            ++ record {
              processes = describe_process p p.cmdline.value (work_dir_of env p.cwd.value);
              sock_tab_entries = ports_of;
            }
              ∷ []))
      else ok processes

  unfoldable pub state_loop :
      Bool
      → List SockTabEntry
      → List (HostProcess F G)
      → List (ProcessesState F G)
      → Outcome HostError (List (ProcessesState F G))
  state_loop has_listen_port socks [] processes = ok processes
  state_loop has_listen_port socks (p ∷ ps) processes = do
    processes' ← state_round has_listen_port socks p processes
    state_loop has_listen_port socks ps processes'

  unfoldable pub get_processes_state :
      Bool
      → SocketFiles
      → Outcome Bytes (List (HostProcess F G))
      → Outcome HostError (List (ProcessesState F G))
  get_processes_state has_listen_port files ps = do
    socks ← ports files
    elim ps [
      | ok list ↦ state_loop has_listen_port socks list []
      | err e ↦ err (system_failed e)
      | panic ↦ panic
    ]

  abbrev pub filtered : Option (NoopFilter F G) → Processes F G → Outcome HostError (Processes F G)
  filtered none proc = ok proc
  filtered (some filter) proc = elim (filter proc) [
    | ok proc' ↦ ok proc'
    | err e ↦ err (filter_failed e)
    | panic ↦ panic
  ]

  -- One round of `GetProcessesByName`: the socket tables are read again for each process, `files`
  -- says what they hold then. `contains` is `strings.Contains`.
  unfoldable pub name_round :
      (Bytes → Bytes → Bool)
      → Bytes
      → Option (NoopFilter F G)
      → (ℤ → SocketFiles)
      → HostProcess F G
      → List (ProcessesState F G)
      → Outcome HostError (List (ProcessesState F G))
  name_round contains name filter files p processes =
      if contains p.cmdline.value name
      then (do
        proc ← filtered filter (describe_process p name (work_dir_of env p.cwd.value))
        entries ← ports_by_pid p.pid (files p.pid)
        ports_of ← to_sock_tab_entry entries
        ok (processes ++ record { processes = proc; sock_tab_entries = ports_of } ∷ []))
      else ok processes

  unfoldable pub name_loop :
      (Bytes → Bytes → Bool)
      → Bytes
      → Option (NoopFilter F G)
      → (ℤ → SocketFiles)
      → List (HostProcess F G)
      → List (ProcessesState F G)
      → Outcome HostError (List (ProcessesState F G))
  name_loop contains name filter files [] processes = ok processes
  name_loop contains name filter files (p ∷ ps) processes = do
    processes' ← name_round contains name filter files p processes
    name_loop contains name filter files ps processes'

  unfoldable pub get_processes_by_name :
      (Bytes → Bytes → Bool)
      → Bytes
      → Option (NoopFilter F G)
      → (ℤ → SocketFiles)
      → Outcome Bytes (List (HostProcess F G))
      → Outcome HostError (List (ProcessesState F G))
  get_processes_by_name contains name filter files (ok ps) =
      name_loop contains name filter files ps []
  get_processes_by_name contains name filter files (err e) = err (system_failed e)
  get_processes_by_name contains name filter files panic = panic

  unfoldable pub get_processes_by_id :
      Outcome Bytes (HostProcess F G) → Outcome HostError (Processes F G)
  get_processes_by_id (ok p) = ok (describe_process p p.name.value p.cwd.value)
  get_processes_by_id (err e) = err (system_failed e)
  get_processes_by_id panic = panic

  -- The early `continue`s of `GetProcesses`.
  abbrev pub any_failed : HostProcess F G → Bool
  any_failed p =
      p.name.failed || p.status.failed || p.cpu_percent.failed || p.memory_percent.failed
      || p.ppid.failed || p.create_time.failed || p.username.failed || p.cmdline.failed

  -- The literal of `GetProcesses` leaves out the environment and the working directory.
  abbrev pub short_process : HostProcess F G → Processes F G
  short_process p = record {
    pid = p.pid;
    environ = [];
    work_dir = [];
    name = p.name.value;
    state = 1;
    status = p.status.value;
    cpu_used_percent = p.cpu_percent.value;
    memory_used_percent = p.memory_percent.value;
    ppid = p.ppid.value;
    start_time = env.format_time p.create_time.value;
    user_name = p.username.value;
    command = p.cmdline.value;
  }

  unfoldable pub processes_loop :
      List (HostProcess F G) → List (Processes F G) → List (Processes F G)
  processes_loop [] processes = processes
  processes_loop (p ∷ ps) processes =
      processes_loop ps (if any_failed p then processes else processes ++ short_process p ∷ [])

  unfoldable pub get_processes :
      Outcome Bytes (List (HostProcess F G)) → Outcome HostError (List (Processes F G))
  get_processes (ok ps) = ok (processes_loop ps [])
  get_processes (err e) = err (system_failed e)
  get_processes panic = panic
