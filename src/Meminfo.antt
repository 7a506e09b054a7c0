-- ===== src/Meminfo.antt =====
-- src/metrics/collector/meminfo.go and meminfo_linux.go: the memory of the system, from /proc/meminfo.
pub mod Parens
pub mod RoundTrip
mod Tests
use infra_pulse.Base.{
  ℕ, suc, ◌-◌, Bool, true, false, Option, none, some, List, [], ◌∷◌, ◌++◌, nat_eq, ltb, length,
  take, drop, if◌then◌else◌, Outcome, ok, err, panic, ◌>>=◌, list_eq,
}
use infra_pulse.Base.Text.{Bytes, codes, slice, index, last_index, fields, has_suffix}
use infra_pulse.Base.Map.{Map, insert}
use infra_pulse.Metric.{Float64, FloatOps, ValueType, counter, gauge}

-- `reParens.ReplaceAllString(key, "_${1}")`, where the pattern is `\((.*)\)`: it matches from the first
-- opening parenthesis to the last closing one behind it, and so at most once.
unfoldable pub replace_parens : Bytes → Bytes
replace_parens key = elim (index b'(' key) [
  | none ↦ key
  | some i ↦ elim (last_index b')' key) [
    | none ↦ key
    | some j ↦
        if ltb i j then take i key ++ (b'_' ∷ slice (suc i) j key) ++ drop (suc j) key else key
  ]
]

-- `key` of the first field of a line.
abbrev pub key_of : Bytes → Bytes
key_of name = replace_parens (take (length name - 1) name)

pub data MemError : Type 0 where
  invalid_value : Bytes → MemError
  invalid_line : MemError
  scan_failed : Bytes → MemError

module _ {F : Type 0} ⦃fl : Float64 F⦄ ⦃ops : FloatOps F⦄ where
  -- The switch on the number of fields, for those behind the value.
  abbrev pub by_unit : Bytes → F → List Bytes → Outcome MemError (Option (Bytes × F))
  by_unit key fv [] = ok (some (key, fv))
  by_unit key fv (unit ∷ []) = ok (some (key ++ codes "_bytes", ops.mul fv (fl.from_uint 1024)))
  by_unit key fv (unit ∷ more ∷ rest) = err invalid_line

  -- A round of the loop: the entry of a line, none if it is blank. A line with one field panics.
  abbrev pub mem_entry : (Bytes → Option F) → List Bytes → Outcome MemError (Option (Bytes × F))
  mem_entry parse_float [] = ok none
  mem_entry parse_float (name ∷ []) = panic
  mem_entry parse_float (name ∷ value ∷ rest) = elim (parse_float value) [
    | none ↦ err (invalid_value value)
    | some fv ↦ by_unit (key_of name) fv rest
  ]

  abbrev pub store_entry : Option (Bytes × F) → Map Bytes F → Map Bytes F
  store_entry none mem_info = mem_info
  store_entry (some (key, fv)) mem_info = insert key fv mem_info

  unfoldable pub parse_lines :
      (Bytes → Option F) → List Bytes → Map Bytes F → Outcome MemError (Map Bytes F)
  parse_lines parse_float [] mem_info = ok mem_info
  parse_lines parse_float (line ∷ lines) mem_info = do
    entry ← mem_entry parse_float (fields line)
    parse_lines parse_float lines (store_entry entry mem_info)

module _ {F : Type 0} where
  abbrev pub scanned : Option Bytes → Map Bytes F → Outcome MemError (Map Bytes F)
  scanned none mem_info = ok mem_info
  scanned (some e) mem_info = err (scan_failed e)

module _ {F : Type 0} ⦃fl : Float64 F⦄ ⦃ops : FloatOps F⦄ where
  -- `parseMemInfo`, by the lines and the error that the scanner gives.
  unfoldable pub parse_mem_info :
      (Bytes → Option F) → List Bytes → Option Bytes → Outcome MemError (Map Bytes F)
  parse_mem_info parse_float lines error = do
    mem_info ← parse_lines parse_float lines []
    scanned error mem_info

-- A metric of `Update`: the last part of its name, which is also in its help text, its type and value.
pub record MemMetric (F : Type 0) : Type 0 where
  pub key : Bytes
  pub value_type : ValueType
  pub value : F

module _ {F : Type 0} where
  abbrev pub mem_metrics : Map Bytes F → List (MemMetric F)
  mem_metrics [] = []
  mem_metrics ((k, v) ∷ mem_info) =
      record {
        key = k;
        value_type = if has_suffix k (codes "_total") then counter else gauge;
        value = v;
      }
      ∷ mem_metrics mem_info

  -- `Update`, by what `getMemInfo` returns.
  unfoldable pub update :
      Outcome MemError (Map Bytes F) → List (MemMetric F) × Outcome MemError (Unit {0})
  update (ok mem_info) = (mem_metrics mem_info, ok tt)
  update (err e) = ([], err e)
  update panic = ([], panic)
