-- ===== src/Filesystem/Mounts.antt =====
-- `parseFilesystemLabels`, which reads the mount table of the kernel, with `rootfsStripPrefix` of
-- src/metrics/collector/paths.go.
pub mod Kernel
pub mod RoundTrip
use infra_pulse.Base.{
  ℕ, Bool, true, false, Option, none, some, List, [], ◌∷◌, ◌++◌, ltb, length, get_or, drop, nat_eq,
  list_eq, ◌==◌, if◌then◌else◌, Outcome, ok, err, panic, ◌>>=◌,
}
use infra_pulse.Base.Text.{Bytes, codes, fields, replace_all, trim_prefix}
use infra_pulse.Filesystem.{Labels}

abbrev pub slash : Bytes
slash = b'/' ∷ []

unfoldable pub rootfs_strip_prefix : Bytes → Bytes → Bytes
rootfs_strip_prefix rootfs_path path =
    if rootfs_path == slash
    then path
    else let stripped = trim_prefix path rootfs_path in if stripped == [] then slash else stripped

pub data MountsError : Type 0 where
  malformed : Bytes → MountsError
  scan_failed : Bytes → MountsError

-- The translation of the escapes of fstab(5).
abbrev pub unescape : Bytes → Bytes
unescape part = replace_all (replace_all part (codes "\\040") (b' ' ∷ [])) (codes "\\011") (9 ∷ [])

-- The labels of a line from its fields, of which there are at least 4.
abbrev pub labels_of : Bytes → List Bytes → Labels
labels_of rootfs_path parts = record {
  device = get_or parts 0 [];
  mount_point = rootfs_strip_prefix rootfs_path (unescape (get_or parts 1 []));
  fs_type = get_or parts 2 [];
  options = get_or parts 3 [];
  device_error = [];
}

-- One round of the loop.
unfoldable pub parse_mount : Bytes → Bytes → Outcome MountsError Labels
parse_mount rootfs_path line =
    let parts = fields line in
    if ltb (length parts) 4 then err (malformed line) else ok (labels_of rootfs_path parts)

unfoldable pub parse_mounts : Bytes → List Bytes → Outcome MountsError (List Labels)
parse_mounts rootfs_path [] = ok []
parse_mounts rootfs_path (line ∷ lines) = do
  labels ← parse_mount rootfs_path line
  filesystems ← parse_mounts rootfs_path lines
  ok (labels ∷ filesystems)

-- The lines that the scanner gives, and its error at the end, if any; the caller drops the labels then.
abbrev pub at_end : Option Bytes → List Labels → Outcome MountsError (List Labels)
at_end none filesystems = ok filesystems
at_end (some e) filesystems = err (scan_failed e)

unfoldable pub parse_filesystem_labels :
    Bytes → List Bytes → Option Bytes → Outcome MountsError (List Labels)
parse_filesystem_labels rootfs_path lines error = do
  filesystems ← parse_mounts rootfs_path lines
  at_end error filesystems

-- `mountPointDetails`: the table of process 1, or the system's if that file does not exist. A file is
-- the lines and the scanner's error, or the text of the error of `Open`.
pub data Opened : Type 0 where
  not_there : Opened
  open_failed : Bytes → Opened
  table : List Bytes → Option Bytes → Opened

abbrev pub read_table : Bytes → Opened → Outcome MountsError (List Labels)
read_table rootfs_path not_there = err (scan_failed (codes "file does not exist"))
read_table rootfs_path (open_failed e) = err (scan_failed e)
read_table rootfs_path (table lines error) = parse_filesystem_labels rootfs_path lines error

abbrev pub fallback : Opened → Opened → Opened
fallback not_there system = system
fallback (open_failed e) system = open_failed e
fallback (table lines error) system = table lines error

unfoldable pub mount_point_details : Bytes → Opened → Opened → Outcome MountsError (List Labels)
mount_point_details rootfs_path of_init system = read_table rootfs_path (fallback of_init system)
