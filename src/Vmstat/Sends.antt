-- ===== src/Vmstat/Sends.antt =====
-- The metrics of a file as the kernel prints it.
use infra_pulse.Base.{
  Bool, true, Option, none, some, List, [], ◌∷◌, ◌++◌, ◌≡◌, inl, inr, refl, nat_eq, list_eq, All,
  Bool-cases, if◌then◌else◌, ok,
}
use infra_pulse.Base.Text.{Bytes, fields}
use infra_pulse.Base.Words.{is_word, fields-word, fields_last}
use infra_pulse.Vmstat.{VmMetric, opened, send_entry, send_lines, update}

-- A counter: its name, its digits and what they mean.
pub record VmField (F : Type 0) : Type 0 where
  pub name : Bytes
  pub digits : Bytes
  pub value : F

module _ {F : Type 0} where
  -- A line of /proc/vmstat.
  abbrev pub print_field : VmField F → Bytes
  print_field f = f.name ++ (b' ' ∷ f.digits)

  abbrev pub print_fields : List (VmField F) → List Bytes
  print_fields [] = []
  print_fields (f ∷ fs) = print_field f ∷ print_fields fs

  -- The metrics of the counters that are wanted.
  abbrev pub metrics_of : (Bytes → Bool) → List (VmField F) → List (VmMetric F)
  metrics_of matches [] = []
  metrics_of matches (f ∷ fs) =
      if matches f.name
      then record { field = f.name; value = f.value } ∷ metrics_of matches fs
      else metrics_of matches fs

  pub record IsVmField (parse_float : Bytes → Option F) (f : VmField F) : Type 0 where
    pub name : is_word f.name ≡ true
    pub digits : is_word f.digits ≡ true
    pub value : parse_float f.digits ≡ some f.value

module _ {F : Type 0} (parse_float : Bytes → Option F) (matches : Bytes → Bool) where
  send_lines-print :
      (fs : List (VmField F))
      → All (IsVmField parse_float) fs
      → send_lines parse_float matches none (print_fields fs) ≡ (metrics_of matches fs, ok tt)
  unfolding send_lines
  send_lines-print [] h = refl
  send_lines-print (f ∷ fs) (v, h) =
      let words : fields (print_field f) ≡ f.name ∷ f.digits ∷ [] =
        rw (fields-word f.name f.digits v.name, fields_last f.digits v.digits) refl in
      rw (words, send_entry, v.value, send_lines-print fs h)
        (elim (Bool-cases (matches f.name)) [ inl e ↦ rw e refl | inr e ↦ rw e refl ])

  -- If every counter has a name and digits without white space, which the parser reads as its value: from
  -- the lines that the kernel prints for them, `Update` sends one metric for each counter whose name matches,
  -- in the file's order and with its value, and returns no error.
  pub update-print :
      (fs : List (VmField F))
      → All (IsVmField parse_float) fs
      → update parse_float matches (opened (print_fields fs) none) ≡ (metrics_of matches fs, ok tt)
  unfolding update
  update-print fs h = send_lines-print fs h
