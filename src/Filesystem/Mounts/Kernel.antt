-- ===== src/Filesystem/Mounts/Kernel.antt =====
-- The lines of /proc/mounts as the kernel prints them.
use infra_pulse.Base.{
  ℕ, Bool, true, false, not, ◌&&◌, ◌||◌, [], ◌∷◌, ◌++◌, ◌≡◌, refl, arith, nat_eq, list_eq, ◌==◌,
  if◌then◌else◌, Bool-cases, inl, inr,
}
use infra_pulse.Base.Words.{no_space, is_word}
use infra_pulse.Base.Text.{Bytes, codes, is_space}

-- How the kernel writes a byte of a mount point: blanks, tabs, newlines and backslashes in octal.
abbrev pub escape_byte : ℕ → Bytes
escape_byte c =
    if c == b' '
    then codes "\\040"
    else if c == 9
    then codes "\\011"
    else if c == 10
    then codes "\\012"
    else if c == 92
    then codes "\\134"
    else c ∷ []

abbrev pub escape : Bytes → Bytes
escape [] = []
escape (c ∷ cs) = escape_byte c ++ escape cs

-- How it writes a byte of a device or of a type, where it escapes the number sign too.
abbrev pub mangle_byte : ℕ → Bytes
mangle_byte c = if c == b'#' then codes "\\043" else escape_byte c

abbrev pub mangle : Bytes → Bytes
mangle [] = []
mangle (c ∷ cs) = mangle_byte c ++ mangle cs

-- A mount as the kernel knows it, with the options as its file system prints them.
pub record Mount : Type 0 where
  pub device : Bytes
  pub mount_point : Bytes
  pub fs_type : Bytes
  pub options : Bytes

-- The line of a mount, with the two numbers that are not read.
abbrev pub mount_line : Mount → Bytes
mount_line l =
    mangle l.device
    ++ (b' '
        ∷ (escape l.mount_point
            ++ (b' ' ∷ (mangle l.fs_type ++ (b' ' ∷ (l.options ++ (b' ' ∷ codes "0 0")))))))

-- Bytes of a device or of a type that are no white space once they are printed.
abbrev pub is_printed : ℕ → Bool
is_printed c = not (is_space c) || c == b' ' || c == 9 || c == 10

abbrev pub all_printed : Bytes → Bool
all_printed [] = true
all_printed (c ∷ cs) = is_printed c && all_printed cs

no_space-append : (xs ys : Bytes) → no_space (xs ++ ys) ≡ no_space xs && no_space ys
no_space-append [] ys = refl
no_space-append (x ∷ xs) ys = ground (arith, no_space-append xs ys)

mangle_byte-word :
    (c : ℕ)
    → is_printed c ≡ true
    → (no_space (mangle_byte c) ≡ true) × ((mangle_byte c == []) ≡ false)
unfolding is_space
mangle_byte-word c h = elim (Bool-cases (c == b'#')) [
  | inl e ↦ rw e (refl, refl)
  | inr e ↦ elim (Bool-cases (c == b' ')) [
    | inl f ↦ rw (e, f) (refl, refl)
    | inr f ↦ elim (Bool-cases (c == 9)) [
      | inl g ↦ rw (e, f, g) (refl, refl)
      | inr g ↦ elim (Bool-cases (c == 10)) [
        | inl i ↦ rw (e, f, g, i) (refl, refl)
        | inr i ↦ elim (Bool-cases (c == 92)) [
          | inl j ↦ rw (e, f, g, i, j) (refl, refl)
          | inr j ↦ rw (e, f, g, i, j) (ground arith, refl)
        ]
      ]
    ]
  ]
]

mangle-no_space : (cs : Bytes) → all_printed cs ≡ true → no_space (mangle cs) ≡ true
mangle-no_space [] h = refl
mangle-no_space (c ∷ cs) h =
    let one = (mangle_byte-word c (ground arith)).0 in
    let more = mangle-no_space cs (ground arith) in
    ground (arith, no_space-append (mangle_byte c) (mangle cs), one, more)

append-not_empty : (xs ys : Bytes) → (xs == []) ≡ false → (xs ++ ys == []) ≡ false
append-not_empty [] ys h = ground arith
append-not_empty (x ∷ xs) ys h = refl

pub mangle-word :
    (cs : Bytes) → all_printed cs ≡ true → (cs == []) ≡ false → is_word (mangle cs) ≡ true
mangle-word [] h n = ground arith
mangle-word (c ∷ cs) h n =
    let some_byte = (mangle_byte-word c (ground arith)).1 in
    rw (append-not_empty (mangle_byte c) (mangle cs) some_byte, mangle-no_space (c ∷ cs) h) refl
