-- ===== src/Filesystem/Tests.antt =====
-- Concrete runs of the file system collector.
use mathlib.Core.List.{Perm}
use infra_pulse.Base.{
  ℕ, String, true, false, List, [], ◌∷◌, ◌++◌, ◌≡◌, refl, ◌⊎◌, inr, none, map, nat_eq, list_eq,
  ◌==◌, leb, ltb, ◌-◌, ◌*◌, ok, arith,
}
use infra_pulse.Base.Int.{pos, negsuc}
use infra_pulse.Base.Text.{Bytes, codes, is_space}
use infra_pulse.Metric.{Float64, FloatOps}
use infra_pulse.Filesystem.{Labels, Stats, Filesystems, Statfs, process_stat}
use infra_pulse.Filesystem.Mounts.{table, not_there, mount_point_details}
use infra_pulse.Filesystem.Mounts.Kernel.{Mount, mount_line}
use infra_pulse.Filesystem.Mounts.RoundTrip.{below, IsMount, mount_point_details-mount_line}
use infra_pulse.Filesystem.Gather.{
  Gathering, gather_start, IsGathered, stuck_stats, GatherStep, GatherReach, here, next, skip, hand,
  process, receive, store,
}
use infra_pulse.Filesystem.Gather.Complete.{responsive, included, get_stats-complete}
use infra_pulse.Filesystem.Gather.Progress.{get_stats-progress}
use infra_pulse.Filesystem.Gather.Race.{get_stats-loses}
use infra_pulse.Filesystem.Watch.{
  Watching, WatchReach, started, onward, call, give_up, mark_stuck, recover, watch-IsClean, mark,
  unmark, finished,
}
use infra_pulse.Filesystem.Update.{update, stat_metrics}
use infra_pulse.Filesystem.Sends.{
  all_metrics, has_labels, AreDistinct, IsPartOf, update-once, update-repeats,
}

instance abbrev whole_numbers : Float64 ℕ
whole_numbers = record { from_uint = λ n. n; from_int = λ z. elim z [ pos n ↦ n | negsuc n ↦ 0 ] }

instance abbrev whole_ops : FloatOps ℕ
whole_ops = record {
  ge = λ a b. leb b a;
  gt = λ a b. ltb b a;
  sub = λ a b. a - b;
  mul = λ a b. a * b;
}

abbrev root : Labels
root = record {
  device = codes "/dev/sda1";
  mount_point = codes "/";
  fs_type = codes "ext4";
  options = codes "rw";
  device_error = [];
}

abbrev disk : Labels
disk = record {
  device = codes "/dev/sdb1";
  mount_point = codes "/media/my disk";
  fs_type = codes "vfat";
  options = codes "ro,noexec";
  device_error = [];
}

abbrev proc : Labels
proc = record {
  device = codes "proc";
  mount_point = codes "/proc";
  fs_type = codes "proc";
  options = codes "rw";
  device_error = [];
}

abbrev root_mount : Mount
root_mount = record {
  device = codes "/dev/sda1";
  mount_point = codes "/";
  fs_type = codes "ext4";
  options = codes "rw";
}

-- A share, whose name has a blank and a number sign.
abbrev share : Mount
share = record {
  device = codes "//nas/share #1";
  mount_point = codes "/media/my disk";
  fs_type = codes "cifs";
  options = codes "ro,noexec";
}

share_line : mount_line share ≡ codes "//nas/share\\040\\0431 /media/my\\040disk cifs ro,noexec 0 0"
share_line = refl

root-IsMount : IsMount root_mount
unfolding is_space
root-IsMount = record {
  device = refl;
  has_device = refl;
  mount_point = refl;
  not_empty = refl;
  fs_type = refl;
  has_type = refl;
  options = refl;
}

share-IsMount : IsMount share
unfolding is_space
share-IsMount = record {
  device = refl;
  has_device = refl;
  mount_point = refl;
  not_empty = refl;
  fs_type = refl;
  has_type = refl;
  options = refl;
}

abbrev mounts : List Mount
mounts = root_mount ∷ share ∷ []

mount_point_details-mount_line_example :
    (mount_point_details (codes "/media") (table (map mount_line mounts) none) not_there
      ≡ ok (map (below (codes "/media")) mounts))
    × (mount_point_details (codes "/media") not_there (table (map mount_line mounts) none)
        ≡ ok (map (below (codes "/media")) mounts))
mount_point_details-mount_line_example =
    mount_point_details-mount_line (codes "/media") mounts not_there
      (root-IsMount, (share-IsMount, tt))

abbrev no_proc : Filesystems
no_proc = record { excluded_mount_points = λ m. m == codes "/proc"; excluded_fs_types = λ t. false }

abbrev statfs : Bytes → Bytes ⊎ Statfs
statfs path = inr (record { blocks = 10; bsize = 512; bfree = 5; bavail = 4; files = 3; ffree = 2 })

abbrev run : Labels → Stats ℕ
run = process_stat statfs

abbrev table_of_two : List Labels
table_of_two = root ∷ proc ∷ []

abbrev after_two : Gathering ℕ
after_two = record {
  todo = [];
  feeder = none;
  idle = 4;
  busy = [];
  ready = [];
  main = none;
  stats = run root ∷ [];
}

two-GatherReach : GatherReach no_proc run (gather_start 4 (responsive table_of_two)) after_two
unfolding gather_start
two-GatherReach =
    next
      (next
        (next
          (next (next here (hand root ((proc, false) ∷ []) 3 refl refl refl refl))
            (process [] [] root refl))
          (receive [] [] (run root) refl refl))
        (store [] (run root) refl))
      (skip proc false [] refl refl refl)

two-IsGathered : IsGathered after_two
two-IsGathered = record { todo = refl; feeder = refl; busy = refl; ready = refl; main = refl }

get_stats-complete_example : Perm (run root ∷ []) (map run (included no_proc table_of_two))
get_stats-complete_example =
    get_stats-complete no_proc run 4 table_of_two after_two two-GatherReach two-IsGathered

get_stats-progress_example :
    IsGathered (gather_start {F = ℕ} 0 ((root, false) ∷ []))
    ⊎ ((t : Gathering ℕ) × GatherStep no_proc run (gather_start 0 ((root, false) ∷ [])) t)
get_stats-progress_example =
    get_stats-progress no_proc run 0 ((root, false) ∷ []) (gather_start 0 ((root, false) ∷ [])) here

get_stats-loses_example :
    (s : Gathering ℕ) × (GatherReach no_proc run
        (gather_start 4 ((root, false) ∷ (disk, true) ∷ []))
        s
      × (IsGathered s × (s.stats ≡ stuck_stats disk ∷ [])))
get_stats-loses_example = get_stats-loses no_proc run 4 root disk refl refl

abbrev marked_late : Watching
marked_late = record {
  stuck = unmark (mark false false);
  calls = record { closed = true; watcher = finished } ∷ [];
}

marked_late-WatchReach : WatchReach marked_late
marked_late-WatchReach =
    onward
      (onward (onward (onward started call) (give_up [] [] false refl))
        (mark_stuck [] [] false refl))
      (recover [] [] finished refl)

watch-IsClean_example : marked_late.stuck ≡ false
watch-IsClean_example = watch-IsClean marked_late marked_late-WatchReach (refl, tt)

process_stat_lem : (run disk).free ≡ 2560
unfolding process_stat
process_stat_lem = refl

update-once_example :
    (kept : List (Stats ℕ)) × (IsPartOf kept (run root ∷ run disk ∷ run root ∷ [])
      × (AreDistinct kept
          × (((l : Labels) → has_labels l kept ≡ has_labels l (run root ∷ run disk ∷ run root ∷ []))
              × (update {E = String} (ok (run root ∷ run disk ∷ run root ∷ []))
                  ≡ (all_metrics kept, ok tt)))))
update-once_example = update-once {E = String} (run root ∷ run disk ∷ run root ∷ [])

update-repeats_example :
    (update {E = String} (
      ok (
        run root
        ∷ record (run root) { labels = record (run root).labels { options = codes "ro" } }
        ∷ []))).0
    ≡ stat_metrics (run root) ++ stat_metrics (run root)
unfolding process_stat
update-repeats_example = update-repeats String (run root) (codes "ro") (λ q. ground arith)
