-- ===== src/Filesystem.antt =====
-- src/metrics/collector/filesystem_common.go and filesystem_linux.go: the mounted file systems. Labels
-- are bytes, as they are read from the mount table. `Mounts` reads the table, `Gather` is the step
-- relation of `GetStats`, `Watch` that of the watchers of stuck mounts, and `Update` sends.
pub mod Mounts
pub mod Gather
pub mod Watch
pub mod Update
pub mod Sends
mod Tests
use infra_pulse.Base.{
  ◌⊎◌, inl, inr, ℕ, String, Bool, true, false, not, ◌&&◌, Option, none, some, List, [], ◌∷◌, ◌≡◌,
  ◌↔◌, ap, refl, arith, Eq, ◌==◌, ==_iff, nat_eq, list_eq, string_eq, if◌then◌else◌, Outcome, ok,
  err, panic, ◌>>=◌,
}
use infra_pulse.Base.Text.{Bytes, split}
use infra_pulse.Metric.{Float64, FloatOps, build, Desc}
use infra_pulse.Scrape.{namespace}

-- `filesystemLabels`
pub record Labels : Type 0 where
  pub device : Bytes
  pub mount_point : Bytes
  pub fs_type : Bytes
  pub options : Bytes
  pub device_error : Bytes

-- `filesystemStats`
pub record Stats (F : Type 0) : Type 0 where
  pub labels : Labels
  pub size : F
  pub free : F
  pub avail : F
  pub files : F
  pub files_free : F
  pub ro : F
  pub device_error : F

-- The variables of the package that hold the flags.
pub record FsFlags : Type 0 where
  pub mount_points_exclude : String
  pub old_mount_points_excluded : String
  pub mount_points_exclude_set : Bool
  pub fs_types_exclude : String
  pub old_fs_types_excluded : String
  pub fs_types_exclude_set : Bool

pub data FsFlagError : Type 0 where
  mount_points_twice fs_types_twice : FsFlagError

-- The patterns of `filesystemCollector`, as their `MatchString`; its descriptions do not vary.
pub record Filesystems : Type 0 where
  pub excluded_mount_points : Bytes → Bool
  pub excluded_fs_types : Bytes → Bool

-- `regexp.MustCompile` panics on a pattern that `compile` refuses.
abbrev pub must_compile :
    {E : Type 0} → (String → Option (Bytes → Bool)) → String → Outcome E (Bytes → Bool)
must_compile compile pattern = elim (compile pattern) [ none ↦ panic | some matches ↦ ok matches ]

abbrev pub take_mount_points : FsFlags → FsFlags × Outcome FsFlagError (Unit {0})
take_mount_points v =
    if v.old_mount_points_excluded == ""
    then (v, ok tt)
    else if v.mount_points_exclude_set
    then (v, err mount_points_twice)
    else (record v { mount_points_exclude = v.old_mount_points_excluded }, ok tt)

abbrev pub take_fs_types : FsFlags → FsFlags × Outcome FsFlagError (Unit {0})
take_fs_types v =
    if v.old_fs_types_excluded == ""
    then (v, ok tt)
    else if v.fs_types_exclude_set
    then (v, err fs_types_twice)
    else (record v { fs_types_exclude = v.old_fs_types_excluded }, ok tt)

abbrev pub compile_patterns :
    (String → Option (Bytes → Bool)) → FsFlags → Outcome FsFlagError Filesystems
compile_patterns compile v = do
  mount_points ← must_compile compile v.mount_points_exclude
  fs_types ← must_compile compile v.fs_types_exclude
  ok (record { excluded_mount_points = mount_points; excluded_fs_types = fs_types })

abbrev pub behind_fs_types :
    (String → Option (Bytes → Bool))
    → FsFlags × Outcome FsFlagError (Unit {0})
    → FsFlags × Outcome FsFlagError Filesystems
behind_fs_types compile (v, ok _) = (v, compile_patterns compile v)
behind_fs_types compile (v, err e) = (v, err e)
behind_fs_types compile (v, panic) = (v, panic)

abbrev pub behind_mount_points :
    (String → Option (Bytes → Bool))
    → FsFlags × Outcome FsFlagError (Unit {0})
    → FsFlags × Outcome FsFlagError Filesystems
behind_mount_points compile (v, ok _) = behind_fs_types compile (take_fs_types v)
behind_mount_points compile (v, err e) = (v, err e)
behind_mount_points compile (v, panic) = (v, panic)

-- `NewFilesystemCollector`, which writes to the variables that it reads.
unfoldable pub new_filesystem_collector :
    (String → Option (Bytes → Bool)) → FsFlags → FsFlags × Outcome FsFlagError Filesystems
new_filesystem_collector compile v = behind_mount_points compile (take_mount_points v)

abbrev pub labels_eqb : Labels → Labels → Bool
labels_eqb a b =
    a.device == b.device
    && a.mount_point == b.mount_point
    && a.fs_type == b.fs_type
    && a.options == b.options
    && a.device_error == b.device_error

pub labels_eqb_iff : (a b : Labels) → (labels_eqb a b ≡ true) ↔ (a ≡ b)
labels_eqb_iff a b = ground (
  arith,
  ==_iff a.device b.device,
  ==_iff a.mount_point b.mount_point,
  ==_iff a.fs_type b.fs_type,
  ==_iff a.options b.options,
  ==_iff a.device_error b.device_error,
)

-- Labels are compared field by field, as keys of a map.
instance abbrev pub labels_eq : Eq Labels
labels_eq = record { eqb = labels_eqb; eqb_iff = labels_eqb_iff }

-- The numbers of `unix.Statfs_t` that the program reads; a block size is not negative.
pub record Statfs : Type 0 where
  pub blocks : ℕ
  pub bsize : ℕ
  pub bfree : ℕ
  pub bavail : ℕ
  pub files : ℕ
  pub ffree : ℕ

abbrev pub has_option : Bytes → List Bytes → Bool
has_option o [] = false
has_option o (option ∷ options) = elim (option == o) [ true ↦ true | false ↦ has_option o options ]

module _ {F : Type 0} ⦃fl : Float64 F⦄ where
  -- `ro`: whether the option "ro" is among those of the mount.
  abbrev pub ro_value : Bytes → F
  ro_value options =
      fl.from_uint (if has_option (b'r' ∷ b'o' ∷ []) (split b',' options) then 1 else 0)

  abbrev pub failed_stats : Labels → F → Bytes → Stats F
  failed_stats labels ro message = record {
    labels = record labels { device_error = message };
    size = fl.from_uint 0;
    free = fl.from_uint 0;
    avail = fl.from_uint 0;
    files = fl.from_uint 0;
    files_free = fl.from_uint 0;
    ro = ro;
    device_error = fl.from_uint 1;
  }

module _ {F : Type 0} ⦃fl : Float64 F⦄ ⦃ops : FloatOps F⦄ where
  -- `processStat`, by what `unix.Statfs` answers, the text of an error or the numbers; its dealings with the watcher are in `Watch`.
  unfoldable pub process_stat : (Bytes → Bytes ⊎ Statfs) → Labels → Stats F
  process_stat statfs labels = elim (statfs labels.mount_point) [
    | inl message ↦ failed_stats labels (ro_value labels.options) message
    | inr buf ↦ record {
      labels = labels;
      size = ops.mul (fl.from_uint buf.blocks) (fl.from_uint buf.bsize);
      free = ops.mul (fl.from_uint buf.bfree) (fl.from_uint buf.bsize);
      avail = ops.mul (fl.from_uint buf.bavail) (fl.from_uint buf.bsize);
      files = fl.from_uint buf.files;
      files_free = fl.from_uint buf.ffree;
      ro = ro_value labels.options;
      device_error = fl.from_uint 0;
    }
  ]
