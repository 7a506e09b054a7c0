-- ===== src/Diskstats/Tests.antt =====
-- Concrete runs of the disk collector.
use infra_pulse.Base.{
  ℕ, String, Bool, true, false, not, Option, none, some, List, [], ◌∷◌, ◌≡◌, refl, nat_eq, list_eq,
  string_eq, ◌==◌, select, take, All, leb, ltb, ◌-◌, ◌*◌, ok, err,
}
use infra_pulse.Base.Int.{pos, negsuc}
use infra_pulse.Base.Text.{Bytes, codes, has_prefix}
use infra_pulse.Base.Map.{lookup, IsMap}
use infra_pulse.Metric.{Float64, FloatOps}
use infra_pulse.Netdev.{ignored, new_device_filter}
use infra_pulse.Diskstats.{
  Disks, descs, DiskFlags, exclude_twice, ata_descs, new_diskstats_device_filter,
  new_diskstats_collector,
}
use infra_pulse.Diskstats.Udev.{UdevLine, of_property, of_other, properties_of, IsUdevLine}
use infra_pulse.Diskstats.Update.{DiskStats, update}
use infra_pulse.Diskstats.Sends.{
  AreCounters, sent_counters, disk_counters, all_device_metrics, update-paired,
}

instance abbrev disk_numbers : Float64 ℕ
disk_numbers = record { from_uint = λ n. n; from_int = λ z. elim z [ pos n ↦ n | negsuc n ↦ 0 ] }

instance abbrev disk_ops : FloatOps ℕ
disk_ops = record {
  ge = λ a b. leb b a;
  gt = λ a b. ltb b a;
  sub = λ a b. a - b;
  mul = λ a b. a * b;
}

abbrev udev_lines : List UdevLine
udev_lines =
    of_other (codes "S:disk/by-id/x")
    ∷ of_property (codes "ID_FS_TYPE") (codes "ext4")
    ∷ of_property (codes "ID_SERIAL_SHORT") (codes "a=b")
    ∷ []

udev_lines-IsMap : IsMap (properties_of udev_lines)
unfolding lookup
udev_lines-IsMap = (refl, (refl, tt))

udev_lines-IsUdevLine : All IsUdevLine udev_lines
unfolding has_prefix
udev_lines-IsUdevLine = (refl, (refl, (refl, tt)))

abbrev compile : String → Option (String → Bool)
compile pattern = some (λ name. name == pattern)

abbrev without_loop : DiskFlags
without_loop = record {
  device_exclude_set = false;
  device_exclude = "loop0";
  old_device_exclude = "";
  device_include = "";
}

abbrev disks : Disks
disks = record {
  device_filter = record { ignore_pattern = some (λ name. name == "loop0"); accept_pattern = none };
  descs = descs;
  ata_descs = ata_descs;
}

made : (new_diskstats_collector true compile without_loop).1 ≡ ok disks
unfolding new_diskstats_collector new_diskstats_device_filter new_device_filter
made = refl

twice :
    (new_diskstats_device_filter compile
      (record without_loop { device_exclude_set = true; old_device_exclude = "sr0" })).1
    ≡ err exclude_twice
unfolding new_diskstats_device_filter
twice = refl

abbrev disk_named : String → ℕ → DiskStats
disk_named name count = record {
  major_number = 8;
  minor_number = 0;
  device_name = name;
  read_ios = 1;
  read_merges = 2;
  read_sectors = 3;
  read_ticks = 4;
  write_ios = 5;
  write_merges = 6;
  write_sectors = 7;
  write_ticks = 8;
  ios_in_progress = 9;
  ios_total_ticks = 10;
  weighted_io_ticks = 11;
  discard_ios = 12;
  discard_merges = 13;
  discard_sectors = 14;
  discard_ticks = 15;
  flush_requests_completed = 16;
  time_spent_flushing = 17;
  io_stats_count = count;
}

abbrev parse_nothing : Bytes → Option ℕ
parse_nothing text = none

abbrev no_udev : ℕ → ℕ → Option (List Bytes)
no_udev major minor = none

abbrev line_of_two : List DiskStats
line_of_two = disk_named "sda" 14 ∷ disk_named "loop0" 20 ∷ []

update-paired_example :
    (update 1 parse_nothing no_udev {E = String} disks (ok line_of_two)
      ≡ ok (
          all_device_metrics 1 parse_nothing no_udev disks
            (select (λ s. not (ignored disks.device_filter s.device_name)) line_of_two)))
    × ((s : DiskStats)
        → AreCounters 1 parse_nothing no_udev
            (codes s.device_name)
            (sent_counters 1 parse_nothing no_udev disks s)
            (take (s.io_stats_count - 3) (disk_counters 1 parse_nothing no_udev s)))
update-paired_example =
    update-paired 1 parse_nothing no_udev {E = String} compile without_loop disks line_of_two made
