-- ===== src/Meminfo/RoundTrip.antt =====
-- The lines that the kernel prints are read back.
use infra_pulse.Base.{
  ℕ, Bool, true, false, Option, none, some, List, [], ◌∷◌, ◌++◌, ◌≡◌, refl, sym, ap, ◌∙◌, nat_eq,
  list_eq, All, replicate, append-nil, append_assoc, if◌then◌else◌, ok, err, ◌>>=◌,
}
use infra_pulse.Base.Text.{Bytes, codes, fields, is_space}
use infra_pulse.Base.Map.{Map, IsMap}
use infra_pulse.Base.Fresh.{AreFresh, AreFresh-nil, insert_absent, fresh_after}
use infra_pulse.Base.Words.{is_word, fields-word, fields_last, fields-blanks, take_but_last}
use infra_pulse.Metric.{Float64, FloatOps}
use infra_pulse.Meminfo.{
  replace_parens, key_of, invalid_value, by_unit, mem_entry, store_entry, parse_lines, scanned,
  parse_mem_info,
}
use infra_pulse.Meminfo.Parens.{lacks, replace_parens-plain, replace_parens-grouped}

-- A name of the kernel, with a part in parentheses or without.
pub data MemName : Type 0 where
  plain : Bytes → MemName
  grouped : Bytes → Bytes → MemName

abbrev pub print_name : MemName → Bytes
print_name (plain w) = w
print_name (grouped w part) = w ++ b'(' ∷ (part ++ b')' ∷ [])

-- The name that the collector gives it.
abbrev pub metric_name : MemName → Bytes
metric_name (plain w) = w
metric_name (grouped w part) = w ++ b'_' ∷ part

abbrev pub has_no_parens : MemName → Bool
has_no_parens (plain w) = lacks b'(' w
has_no_parens (grouped w part) = lacks b'(' w

-- A line: a name, blanks, the value as text and as a number, and whether it is in kB.
pub record MemLine (F : Type 0) : Type 0 where
  pub name : MemName
  pub blanks : ℕ
  pub digits : Bytes
  pub value : F
  pub in_kb : Bool

abbrev pub title : MemName → Bytes
title name = print_name name ++ b':' ∷ []

abbrev pub unit_text : Bool → Bytes
unit_text true = codes " kB"
unit_text false = []

module _ {F : Type 0} where
  abbrev pub print_line : MemLine F → Bytes
  print_line l =
      title l.name ++ (b' ' ∷ (replicate l.blanks b' ' ++ (l.digits ++ unit_text l.in_kb)))

  abbrev pub print_lines : List (MemLine F) → List Bytes
  print_lines [] = []
  print_lines (l ∷ ls) = print_line l ∷ print_lines ls

module _ {F : Type 0} ⦃fl : Float64 F⦄ ⦃ops : FloatOps F⦄ where
  -- What a line means.
  abbrev pub entry_of : MemLine F → Bytes × F
  entry_of l =
      if l.in_kb
      then (metric_name l.name ++ codes "_bytes", ops.mul l.value (fl.from_uint 1024))
      else (metric_name l.name, l.value)

  abbrev pub entries_of : List (MemLine F) → Map Bytes F
  entries_of [] = []
  entries_of (l ∷ ls) = entry_of l ∷ entries_of ls

-- What the kernel prints, where `parse_float` reads the digits.
pub record IsMemLine {F : Type 0} (parse_float : Bytes → Option F) (l : MemLine F) : Type 0 where
  pub name : has_no_parens l.name ≡ true
  pub title : is_word (title l.name) ≡ true
  pub digits : is_word l.digits ≡ true
  pub value : parse_float l.digits ≡ some l.value

key_of-title : (name : MemName) → has_no_parens name ≡ true → key_of (title name) ≡ metric_name name
key_of-title (plain w) h = ap replace_parens (take_but_last w b':') ∙ replace_parens-plain w h
key_of-title (grouped w part) h =
    ap replace_parens (take_but_last (w ++ b'(' ∷ (part ++ b')' ∷ [])) b':')
    ∙ replace_parens-grouped w part h

fields-digits :
    (digits : Bytes) (in_kb : Bool)
    → is_word digits ≡ true
    → fields (digits ++ unit_text in_kb) ≡ digits ∷ (if in_kb then codes "kB" ∷ [] else [])
unfolding is_space
fields-digits digits true h =
    fields-word digits (codes "kB") h ∙ ap (λ t. digits ∷ t) (fields_last (codes "kB") kb)
  where
    kb : is_word (codes "kB") ≡ true
    kb = refl
fields-digits digits false h = ap fields (append-nil digits) ∙ fields_last digits h

module _ {F : Type 0} ⦃fl : Float64 F⦄ ⦃ops : FloatOps F⦄ (parse_float : Bytes → Option F) where
  fields-print_line :
      (l : MemLine F)
      → IsMemLine parse_float l
      → fields (print_line l) ≡ title l.name ∷ l.digits ∷ (if l.in_kb then codes "kB" ∷ [] else [])
  fields-print_line l m =
      fields-word (title l.name) (replicate l.blanks b' ' ++ (l.digits ++ unit_text l.in_kb))
        m.title
      ∙ ap (λ t. title l.name ∷ t)
          (fields-blanks l.blanks (l.digits ++ unit_text l.in_kb)
            ∙ fields-digits l.digits l.in_kb m.digits)

  by_unit-kb :
      (b : Bool) (key : Bytes) (v : F)
      → by_unit key v (if b then codes "kB" ∷ [] else [])
        ≡ ok (some (if b then (key ++ codes "_bytes", ops.mul v (fl.from_uint 1024)) else (key, v)))
  by_unit-kb true key v = refl
  by_unit-kb false key v = refl

  mem_entry-line :
      (l : MemLine F)
      → IsMemLine parse_float l
      → mem_entry parse_float (fields (print_line l)) ≡ ok (some (entry_of l))
  mem_entry-line l m =
      let units = if l.in_kb then codes "kB" ∷ [] else [] in
      let read : mem_entry parse_float (title l.name ∷ l.digits ∷ units)
          ≡ by_unit (key_of (title l.name)) l.value units =
        ap
          (λ r. elim r [
            | none ↦ err (invalid_value l.digits)
            | some fv ↦ by_unit (key_of (title l.name)) fv units
          ])
          m.value in
      ap (mem_entry parse_float) (fields-print_line l m)
      ∙ read
      ∙ ap (λ k. by_unit k l.value units) (key_of-title l.name m.name)
      ∙ by_unit-kb l.in_kb (metric_name l.name) l.value

  parse_lines-print :
      (ls : List (MemLine F)) (acc : Map Bytes F)
      → All (IsMemLine parse_float) ls
      → IsMap (entries_of ls)
      → AreFresh acc (entries_of ls)
      → parse_lines parse_float (print_lines ls) acc ≡ ok (acc ++ entries_of ls)
  unfolding parse_lines
  parse_lines-print [] acc m d f = ap ok (sym (append-nil acc))
  parse_lines-print (l ∷ ls) acc m d f =
      ap (λ r. r >>= (λ e. parse_lines parse_float (print_lines ls) (store_entry e acc)))
        (mem_entry-line l m.0)
      ∙ ap (λ i. parse_lines parse_float (print_lines ls) i)
          (insert_absent (entry_of l).0 (entry_of l).1 acc f.0)
      ∙ parse_lines-print ls (acc ++ entry_of l ∷ []) m.1 d.1
          (fresh_after (entry_of l).0 (entry_of l).1 acc (entries_of ls) d.0 f.1)
      ∙ ap ok (append_assoc acc (entry_of l ∷ []) (entries_of ls))

  -- `parseMemInfo` reads back the lines that the kernel prints, with any number of blanks: each name, a
  -- part in parentheses set off by an underscore, has its value, and with kB behind the value the name
  -- ends in _bytes and the value is multiplied by 1024. The names that result must differ.
  pub parse_mem_info-print :
      (ls : List (MemLine F))
      → All (IsMemLine parse_float) ls
      → IsMap (entries_of ls)
      → parse_mem_info parse_float (print_lines ls) none ≡ ok (entries_of ls)
  unfolding parse_mem_info
  parse_mem_info-print ls m d =
      ap (λ r. r >>= scanned none) (parse_lines-print ls [] m d (AreFresh-nil (entries_of ls)))
