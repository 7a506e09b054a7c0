-- ===== src/Filesystem/Mounts/RoundTrip.antt =====
-- The lines that the kernel prints are read back.
use infra_pulse.Base.{
  ℕ, Bool, true, false, not, ◌&&◌, ◌||◌, none, List, [], ◌∷◌, ◌++◌, ◌≡◌, refl, ap, arith, nat_eq,
  list_eq, ◌==◌, ==_iff, if◌then◌else◌, ok, All, Bool-cases, ◌⊎◌, inl, inr, map,
}
use infra_pulse.Base.Words.{no_space, is_word, fields-word}
use infra_pulse.Base.Text.{Bytes, codes, fields, fields_from, is_space, has_prefix, replace_from}
use infra_pulse.Filesystem.{Labels}
use infra_pulse.Filesystem.Mounts.{
  rootfs_strip_prefix, unescape, parse_mount, parse_mounts, parse_filesystem_labels, Opened, table,
  not_there, mount_point_details,
}
use infra_pulse.Filesystem.Mounts.Kernel.{
  escape, mangle, Mount, mount_line, all_printed, mangle-word,
}

-- Bytes that the kernel leaves alone or that the program translates back: no backslash, and no white
-- space but blanks and tabs.
abbrev pub is_plain : ℕ → Bool
is_plain c = not (c == 92) && not (c == 10) && (not (is_space c) || c == b' ' || c == 9)

abbrev pub all_plain : Bytes → Bool
all_plain [] = true
all_plain (c ∷ cs) = is_plain c && all_plain cs

abbrev half_escape : Bytes → Bytes
half_escape [] = []
half_escape (c ∷ cs) = (if c == 9 then codes "\\011" else c ∷ []) ++ half_escape cs

escape_cases :
    (c : ℕ)
    → is_plain c ≡ true
    → (c ≡ b' ')
      ⊎ ((c ≡ 9)
          ⊎ ((c == b' ' ≡ false)
              × (c == 9 ≡ false)
              × (c == 10 ≡ false)
              × (c == 92 ≡ false)
              × (is_space c ≡ false)))
escape_cases c h = elim (Bool-cases (c == b' ')) [
  | inl e ↦ inl ((==_iff c b' ').0 e)
  | inr e ↦ elim (Bool-cases (c == 9)) [
    | inl f ↦ inr (inl ((==_iff c 9).0 f))
    | inr f ↦ inr (inr (e, f, ground arith, ground arith, ground arith))
  ]
]

first_pass :
    (cs : Bytes)
    → all_plain cs ≡ true
    → replace_from (codes "\\040") (b' ' ∷ []) 0 (escape cs) ≡ half_escape cs
unfolding replace_from has_prefix
first_pass [] h = refl
first_pass (c ∷ cs) h =
    let ih = first_pass cs (ground arith) in
    elim (escape_cases c (ground arith)) [
      | inl e ↦ rw e (ap (λ t. b' ' ∷ t) ih)
      | inr (inl e) ↦ rw e (ap (λ t. codes "\\011" ++ t) ih)
      | inr (inr (a, b, n, d, s)) ↦ rw (a, b, n, d) (rw d (ap (λ t. c ∷ t) ih))
    ]

second_pass :
    (cs : Bytes)
    → all_plain cs ≡ true
    → replace_from (codes "\\011") (9 ∷ []) 0 (half_escape cs) ≡ cs
unfolding replace_from has_prefix
second_pass [] h = refl
second_pass (c ∷ cs) h =
    let ih = second_pass cs (ground arith) in
    elim (escape_cases c (ground arith)) [
      | inl e ↦ rw e (ap (λ t. b' ' ∷ t) ih)
      | inr (inl e) ↦ rw e (ap (λ t. 9 ∷ t) ih)
      | inr (inr (a, b, n, d, s)) ↦ rw (b, d) (ap (λ t. c ∷ t) ih)
    ]

unescape-escape : (cs : Bytes) → all_plain cs ≡ true → unescape (escape cs) ≡ cs
unescape-escape cs h = rw (first_pass cs h) (second_pass cs h)

escape-no_space : (cs : Bytes) → all_plain cs ≡ true → no_space (escape cs) ≡ true
unfolding is_space
escape-no_space [] h = refl
escape-no_space (c ∷ cs) h =
    let ih = escape-no_space cs (ground arith) in
    elim (escape_cases c (ground arith)) [
      | inl e ↦ rw e ih
      | inr (inl e) ↦ rw e ih
      | inr (inr (a, b, n, d, s)) ↦ rw (a, b, n, d) (ground arith)
    ]

-- A mount that can be told apart in the table: nothing is empty, no field has white space that the
-- kernel does not escape, and the mount point is of plain bytes.
pub record IsMount (l : Mount) : Type 0 where
  pub device : all_printed l.device ≡ true
  pub has_device : (l.device == []) ≡ false
  pub mount_point : all_plain l.mount_point ≡ true
  pub not_empty : (l.mount_point == []) ≡ false
  pub fs_type : all_printed l.fs_type ≡ true
  pub has_type : (l.fs_type == []) ≡ false
  pub options : is_word l.options ≡ true

escape-not_empty : (c : ℕ) (cs : Bytes) → (escape (c ∷ cs) == []) ≡ false
escape-not_empty c cs = elim (Bool-cases (c == b' ')) [
  | inl e ↦ rw e refl
  | inr e ↦ elim (Bool-cases (c == 9)) [
    | inl f ↦ rw (e, f) refl
    | inr f ↦ elim (Bool-cases (c == 10)) [
      | inl g ↦ rw (e, f, g) refl
      | inr g ↦ elim (Bool-cases (c == 92)) [
        | inl i ↦ rw (e, f, g, i) refl
        | inr i ↦ rw (e, f, g, i) refl
      ]
    ]
  ]
]

escape-word : (cs : Bytes) → all_plain cs ≡ true → (cs == []) ≡ false → is_word (escape cs) ≡ true
escape-word [] h n = ground arith
escape-word (c ∷ cs) h n = rw (escape-not_empty c cs, escape-no_space (c ∷ cs) h) refl

fields-mount_line :
    (l : Mount)
    → IsMount l
    → fields (mount_line l)
      ≡ mangle l.device
        ∷ escape l.mount_point
        ∷ mangle l.fs_type
        ∷ l.options
        ∷ codes "0"
        ∷ codes "0"
        ∷ []
fields-mount_line l m =
    rw
      (
        fields-word (mangle l.device) _ (mangle-word l.device m.device m.has_device),
        fields-word (escape l.mount_point) _ (escape-word l.mount_point m.mount_point m.not_empty),
        fields-word (mangle l.fs_type) _ (mangle-word l.fs_type m.fs_type m.has_type),
        fields-word l.options (codes "0 0") m.options,
      )
      (unfold fields_from is_space in refl)

-- The labels of a mount: the device and the type as they are printed, and the mount point itself below
-- the root file system's path.
abbrev pub below : Bytes → Mount → Labels
below rootfs_path l = record {
  device = mangle l.device;
  mount_point = rootfs_strip_prefix rootfs_path l.mount_point;
  fs_type = mangle l.fs_type;
  options = l.options;
  device_error = [];
}

parse_mount-mount_line :
    (rootfs_path : Bytes) (l : Mount)
    → IsMount l
    → parse_mount rootfs_path (mount_line l) ≡ ok (below rootfs_path l)
unfolding parse_mount
parse_mount-mount_line rootfs_path l m =
    rw (fields-mount_line l m, unescape-escape l.mount_point m.mount_point) refl

parse_mounts-mount_line :
    (rootfs_path : Bytes) (ls : List Mount)
    → All IsMount ls
    → parse_mounts rootfs_path (map mount_line ls) ≡ ok (map (below rootfs_path) ls)
unfolding parse_mounts
parse_mounts-mount_line rootfs_path [] h = refl
parse_mounts-mount_line rootfs_path (l ∷ ls) h =
    rw (parse_mount-mount_line rootfs_path l h.0, parse_mounts-mount_line rootfs_path ls h.1) refl

-- If no mount has an empty field, none has white space other than blanks, tabs and newlines in its device
-- or type or any in its options, and no mount point has a backslash, a newline, or white space other than
-- blanks and tabs: `mountPointDetails` reads back the lines that the kernel prints for the mounts, in
-- order. It translates the mount points back and takes the path of the root file system off, and leaves
-- the escapes in devices and types. It reads the system's table if process 1 has none.
pub mount_point_details-mount_line :
    (rootfs_path : Bytes) (ls : List Mount) (system : Opened)
    → All IsMount ls
    → (mount_point_details rootfs_path (table (map mount_line ls) none) system
        ≡ ok (map (below rootfs_path) ls))
      × (mount_point_details rootfs_path not_there (table (map mount_line ls) none)
          ≡ ok (map (below rootfs_path) ls))
unfolding mount_point_details parse_filesystem_labels
mount_point_details-mount_line rootfs_path ls system h =
    let e = parse_mounts-mount_line rootfs_path ls h in (rw e refl, rw e refl)
