-- ===== src/Diskstats.antt =====
-- src/metrics/collector/diskstats_common.go and diskstats_linux.go: the counters of the disks. `Udev`
-- reads the properties that udev keeps of a device, `Update` sends.
pub mod Udev
pub mod Update
pub mod Sends
mod Tests
use infra_pulse.Base.{
  ℕ, String, Bool, true, false, not, ◌&&◌, Option, List, [], ◌∷◌, string_eq, ◌==◌, if◌then◌else◌,
  Outcome, ok, err, panic, ◌>>=◌,
}
use infra_pulse.Base.Text.{Bytes, codes}
use infra_pulse.Metric.{build, Desc, ValueType, counter, gauge}
use infra_pulse.Scrape.{namespace}
use infra_pulse.Netdev.{DeviceFilter, new_device_filter}

abbrev disk_desc : String → String → List String → Desc
disk_desc name help label_names = record {
  fq_name = build namespace "disk" name;
  help = help;
  label_names = label_names;
}

abbrev pub disk_label_names : List String
disk_label_names = "device" ∷ []

abbrev pub reads_completed_desc : Desc
reads_completed_desc =
    disk_desc "reads_completed_total" "The total number of reads completed successfully."
      disk_label_names

abbrev pub read_bytes_desc : Desc
read_bytes_desc =
    disk_desc "read_bytes_total" "The total number of bytes read successfully." disk_label_names

abbrev pub writes_completed_desc : Desc
writes_completed_desc =
    disk_desc "writes_completed_total" "The total number of writes completed successfully."
      disk_label_names

abbrev pub written_bytes_desc : Desc
written_bytes_desc =
    disk_desc "written_bytes_total" "The total number of bytes written successfully."
      disk_label_names

abbrev pub io_time_seconds_desc : Desc
io_time_seconds_desc =
    disk_desc "io_time_seconds_total" "Total seconds spent doing I/Os." disk_label_names

abbrev pub read_time_seconds_desc : Desc
read_time_seconds_desc =
    disk_desc "read_time_seconds_total" "The total number of seconds spent by all reads."
      disk_label_names

abbrev pub write_time_seconds_desc : Desc
write_time_seconds_desc =
    disk_desc "write_time_seconds_total" "This is the total number of seconds spent by all writes."
      disk_label_names

-- `typedFactorDesc`
pub record TypedFactorDesc : Type 0 where
  pub desc : Desc
  pub value_type : ValueType

abbrev counting : Desc → TypedFactorDesc
counting desc = record { desc = desc; value_type = counter }

abbrev counting_as : String → String → TypedFactorDesc
counting_as name help = counting (disk_desc name help disk_label_names)

-- The field `descs`.
abbrev pub descs : List TypedFactorDesc
descs =
    counting reads_completed_desc
    ∷ counting_as "reads_merged_total" "The total number of reads merged."
    ∷ counting read_bytes_desc
    ∷ counting read_time_seconds_desc
    ∷ counting writes_completed_desc
    ∷ counting_as "writes_merged_total" "The number of writes merged."
    ∷ counting written_bytes_desc
    ∷ counting write_time_seconds_desc
    ∷ record {
      desc = disk_desc "io_now" "The number of I/Os currently in progress." disk_label_names;
      value_type = gauge;
    }
    ∷ counting io_time_seconds_desc
    ∷ counting_as "io_time_weighted_seconds_total" "The weighted # of seconds spent doing I/Os."
    ∷ counting_as "discards_completed_total" "The total number of discards completed successfully."
    ∷ counting_as "discards_merged_total" "The total number of discards merged."
    ∷ counting_as "discarded_sectors_total" "The total number of sectors discarded successfully."
    ∷ counting_as "discard_time_seconds_total"
        "This is the total number of seconds spent by all discards."
    ∷ counting_as "flush_requests_total" "The total number of flush requests completed successfully"
    ∷ counting_as "flush_requests_time_seconds_total"
        "This is the total number of seconds spent by all flush requests."
    ∷ []

abbrev pub disk_info_desc : Desc
disk_info_desc =
    disk_desc "info" "Info of /sys/block/<block_device>."
      ("device" ∷ "major" ∷ "minor" ∷ "path" ∷ "wwn" ∷ "model" ∷ "serial" ∷ "revision" ∷ [])

abbrev pub filesystem_info_desc : Desc
filesystem_info_desc =
    disk_desc "filesystem_info" "Info about disk filesystem."
      ("device" ∷ "type" ∷ "usage" ∷ "uuid" ∷ "version" ∷ [])

abbrev pub device_mapper_info_desc : Desc
device_mapper_info_desc =
    disk_desc "device_mapper_info" "Info about disk device mapper."
      ("device" ∷ "name" ∷ "uuid" ∷ "vg_name" ∷ "lv_name" ∷ "lv_layer" ∷ [])

-- The field `ataDescs`, whose values are all gauges.
abbrev pub ata_descs : List (Bytes × Desc)
ata_descs =
    (
      codes "ID_ATA_WRITE_CACHE",
      disk_desc "ata_write_cache" "ATA disk has a write cache." disk_label_names,
    )
    ∷ (
      codes "ID_ATA_WRITE_CACHE_ENABLED",
      disk_desc "ata_write_cache_enabled" "ATA disk has its write cache enabled." disk_label_names,
    )
    ∷ (
      codes "ID_ATA_ROTATION_RATE_RPM",
      disk_desc "ata_rotation_rate_rpm" "ATA disk rotation rate in RPMs (0 for SSDs)."
          disk_label_names,
    )
    ∷ []

-- The variables of the package.
pub record DiskFlags : Type 0 where
  pub device_exclude_set : Bool
  pub device_exclude : String
  pub old_device_exclude : String
  pub device_include : String

pub data DiskError : Type 0 where
  no_sysfs exclude_twice include_and_exclude : DiskError

-- The first test of `newDiskstatsDeviceFilter`.
abbrev pub take_old_exclude : DiskFlags → DiskFlags × Outcome DiskError (Unit {0})
take_old_exclude v =
    if v.old_device_exclude == ""
    then (v, ok tt)
    else if v.device_exclude_set
    then (v, err exclude_twice)
    else (record v { device_exclude = v.old_device_exclude }, ok tt)

abbrev pub filter_of :
    (String → Option (String → Bool)) → DiskFlags → Outcome DiskError DeviceFilter
filter_of compile v =
    if not (v.device_exclude == "") && not (v.device_include == "")
    then err include_and_exclude
    else new_device_filter compile v.device_exclude v.device_include

abbrev pub behind_old_exclude :
    (String → Option (String → Bool))
    → DiskFlags × Outcome DiskError (Unit {0})
    → DiskFlags × Outcome DiskError DeviceFilter
behind_old_exclude compile (v, ok _) = (v, filter_of compile v)
behind_old_exclude compile (v, err e) = (v, err e)
behind_old_exclude compile (v, panic) = (v, panic)

-- `newDiskstatsDeviceFilter`, which writes to a variable that it reads.
unfoldable pub new_diskstats_device_filter :
    (String → Option (String → Bool)) → DiskFlags → DiskFlags × Outcome DiskError DeviceFilter
new_diskstats_device_filter compile v = behind_old_exclude compile (take_old_exclude v)

-- `diskstatsCollector`, without the descriptions that do not vary. Its field
-- `getUdevDeviceProperties` is not here, since nothing reads it.
pub record Disks : Type 0 where
  pub device_filter : DeviceFilter
  pub descs : List TypedFactorDesc
  pub ata_descs : List (Bytes × Desc)

abbrev pub collector_of :
    DiskFlags × Outcome DiskError DeviceFilter → DiskFlags × Outcome DiskError Disks
collector_of (v, ok f) =
    (v, ok (record { device_filter = f; descs = descs; ata_descs = ata_descs }))
collector_of (v, err e) = (v, err e)
collector_of (v, panic) = (v, panic)

-- `NewDiskstatsCollector`, by whether /proc and /sys are there.
unfoldable pub new_diskstats_collector :
    Bool → (String → Option (String → Bool)) → DiskFlags → DiskFlags × Outcome DiskError Disks
new_diskstats_collector false compile v = (v, err no_sysfs)
new_diskstats_collector true compile v = collector_of (new_diskstats_device_filter compile v)
