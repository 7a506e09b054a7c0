-- ===== src/Lib.antt =====
-- Verification of infra-pulse, an agent that collects what a CMDB wants to know of a machine: metrics,
-- in the manner of the Prometheus node exporter, and the sockets and processes of the host. Paths are
-- from the root of the repository.
--
-- The parts and their models
--
-- * src/metrics/collector/collector.go, the registry: Registry. The package's maps `factories`,
--   `initiatedCollectors`, `collectorState` and `forcedCollectors` are the fields of one record, and
--   `registerCollector`, `DisableDefaultCollectors`, `collectorFlagAction` and `NewNodeCollector` are
--   functions on it (`register_collector`, ..., `new_node_collector`). A collector, the world in which
--   factories run and their errors are type parameters. Registry/Filters, Create, Node and State hold
--   the proofs.
-- * The same file, a scrape: Scrape. `execute` is the list of what one goroutine sends; `Collect` is
--   a step relation over the goroutines, the wait group and the channel; `pushMetric` is a function.
--   Proofs in Scrape/Interleaving.
-- * src/utils/netstat/netstat.go and netstat_linux.go, the socket tables of /proc/net: Netstat, with
--   Netstat/Address (`parseIPv4`, `parseIPv6`, `parseAddr`), Netstat/Table (`parseSocktab`) and
--   Netstat/Owner (`getProcName`, `iterFdDir`, `extractProcInfo`, `doNetstat`).
-- * src/metrics/collector/textfile.go, metrics that other programs leave in files: Textfile
--   (`convertMetricFamily`), Textfile/Gather (`processFile` and the loops of `Update`) and
--   Textfile/Update (what `Update` sends). The variables of `Update` are the record `Gathered`; the
--   file system and the parser of the exposition format are arguments, and so are the order in which
--   `range` visits the names of the labels and the calls that the Prometheus client library accepts,
--   where its constructors panic otherwise.
--   Proofs in Textfile/Labels, Accepts, Convert, Loops, Help, NilHelp, Errors, Times and Total.
-- * src/vm/os_linux.go with src/models, the host: Host, with Host/Sockets (`Ports`, `PortsByPid`,
--   `GetProcessesByPort`, `ToSockTabEntry`), Host/Processes (the process lists), Host/Slices
--   (`DeleteSliceString` on the array that it overwrites), Host/Network (`GetNetWorks`, `GetMainIp`)
--   and Host/Hardware (`GetInfo`). What gopsutil, the environment, the network interfaces and the
--   files of /proc give is an argument. Proofs in Netstat/Filled, Host/Queries, States, Interfaces
--   and Totals.
-- * src/metrics/collector/netdev_common.go, netdev_linux.go and device_filter.go, the counters of the
--   network devices: Netdev (the filter, `NewNetDevCollector` with the package's flag variables,
--   `legacy`), Netdev/Stats (`parseNetlinkStats`, `procNetDevStats`) and Netdev/Update (`metricDesc`,
--   `Update`). A compiled pattern is its match function; the answers of netlink and procfs and the
--   list of addresses are arguments. Proofs in Netdev/Legacy, Flags and Sends.
-- * src/metrics/collector/filesystem_common.go and filesystem_linux.go, the mounted file systems, with
--   `rootfsStripPrefix` of paths.go: Filesystem (`NewFilesystemCollector`, `processStat`),
--   Filesystem/Mounts (`mountPointDetails`, `parseFilesystemLabels`), Filesystem/Gather (`GetStats`: the
--   feeder, the workers and the caller as a step relation), Filesystem/Watch (`stuckMountWatcher` and the
--   map of stuck mounts, as a step relation for one mount point) and Filesystem/Update. What statfs
--   answers and the patterns are arguments. Proofs in Filesystem/Mounts/Kernel and RoundTrip, Gather/Complete,
--   Gather/Progress, Gather/Race and Filesystem/Sends.
-- * src/metrics/collector/cpu_linux.go and cpu_common.go, the processors, with `readUintFromFile` of
--   helper.go: Cpu (`NewCPUCollector`, `compileIncludeFlags`), Cpu/Stats (`updateCPUStats`,
--   `updateStat`), Cpu/Throttle (`updateThermalThrottle`, `updateIsolated`), Cpu/Info (`updateInfo`) and
--   Cpu/Update. The functions on maps of golang.org/x/exp are an interface with their documented laws;
--   what procfs and sysfs answer is an argument. Proofs in Cpu/Cache, Forward, Rounds, Throttled
--   and Results.
-- * src/metrics/collector/os_release.go, the release of the operating system: OsRelease, OsRelease/Load
--   (`UpdateStruct`) and OsRelease/Update. The files, the parsers of other packages and the times are a
--   record of arguments. Proofs in OsRelease/Again, Repeat and Twice.
-- * src/metrics/collector/netstat_linux.go, the protocol statistics: NetStats (`parseNetStats`,
--   `parseSNMP6Stats`) and NetStats/Update. Proofs in NetStats/Parse and Merged.
-- * src/metrics/collector/diskstats_common.go and diskstats_linux.go, the disks: Diskstats
--   (`NewDiskstatsCollector`, with the device filter of Netdev), Diskstats/Udev
--   (`getUdevDeviceProperties`) and Diskstats/Update. Proofs in Diskstats/Udev and Sends.
-- * src/metrics/collector/meminfo.go and meminfo_linux.go, the memory: Meminfo. Proofs in Meminfo/Parens
--   and RoundTrip.
-- * src/metrics/collector/vmstat_linux.go, the virtual memory: Vmstat. Proofs in Vmstat/Sends.
-- * src/metrics/collector/loadavg.go and loadavg_linux.go, the load averages: Loadavg. Proofs in
--   Loadavg/Reads.
-- * src/metrics/collector/softnet_linux.go, the receive queues: Softnet. Proofs in Softnet/Sends.
-- * src/metrics/collector/sockstat_linux.go, the socket statistics: Sockstat. Proofs in Sockstat/Memory.
-- * Metric holds the calls of the Prometheus client library that collectors make, as data. Base has
--   lists, equality, Go maps, results of Go functions, and the byte-string functions of the standard
--   library that the program calls.
--
-- Conventions
--
-- A Go map is a list of pairs with distinct keys; the order of the list is the order in which `range`
-- visits the map, which Go leaves open, and results hold for every such list. A function that returns
-- an error or may panic returns an `Outcome`. Text that the program takes apart is a list of bytes;
-- text that it only compares is a `String`. Unsigned numbers are natural numbers, bounded where a
-- parser bounds them; sums of uint64 and int32 wrap around. float64 is a type parameter with the
-- conversions that the program uses. Loops are recursions on the list that they range over, or on the
-- number of rounds left, so no fuel is needed.
--
-- Not modelled
--
-- Logging; the HTTP server and its routes; the Prometheus client library, whose
-- constructors panic at a call that it refuses, which is in the model of the text files alone, where names
-- and labels come from outside; the collectors of Linux other than those above; the collectors for other operating
-- systems. What a file system, a scanner, a clock or a
-- collector's `Update` answers is an argument. `strings.Fields` is modelled for ASCII, which is what
-- the files of /proc hold.
mod Base
pub mod Metric
pub mod Registry
pub mod Scrape
pub mod Netstat
pub mod Textfile
pub mod Host
pub mod Netdev
pub mod Filesystem
pub mod Cpu
pub mod OsRelease
pub mod NetStats
pub mod Diskstats
pub mod Meminfo
pub mod Vmstat
pub mod Loadavg
pub mod Softnet
pub mod Sockstat
