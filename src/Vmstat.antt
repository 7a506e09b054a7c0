-- ===== src/Vmstat.antt =====
-- src/metrics/collector/vmstat_linux.go: the counters of the virtual memory, from /proc/vmstat.
mod Sends
mod Tests
use infra_pulse.Base.{
  Bool, Option, none, some, List, [], ◌∷◌, nat_eq, list_eq, if◌then◌else◌, Outcome, ok, err, panic,
}
use infra_pulse.Base.Text.{Bytes, fields}

pub data VmError : Type 0 where
  not_opened not_scanned : Bytes → VmError
  invalid_value : Bytes → VmError

-- An untyped metric of `Update` without labels: the field, which is in its name and its help text.
pub record VmMetric (F : Type 0) : Type 0 where
  pub field : Bytes
  pub value : F

-- `scanner.Err()`
abbrev pub scan_result : Option Bytes → Outcome VmError (Unit {0})
scan_result none = ok tt
scan_result (some e) = err (not_scanned e)

module _ {F : Type 0} (parse_float : Bytes → Option F) (matches : Bytes → Bool)
    (error : Option Bytes) where
  -- A round of the loop, where `rest` is what the rounds behind it send and return. A line with fewer
  -- than two fields panics; a value that is no number ends the loop, even one that is not wanted.
  abbrev pub send_entry :
      List Bytes
      → List (VmMetric F) × Outcome VmError (Unit {0})
      → List (VmMetric F) × Outcome VmError (Unit {0})
  send_entry [] rest = ([], panic)
  send_entry (name ∷ []) rest = ([], panic)
  send_entry (name ∷ value ∷ more) rest = elim (parse_float value) [
    | none ↦ ([], err (invalid_value value))
    | some v ↦ if matches name then (record { field = name; value = v } ∷ rest.0, rest.1) else rest
  ]

  -- The loop of `Update`, over the lines that the scanner gives before it stops.
  unfoldable pub send_lines : List Bytes → List (VmMetric F) × Outcome VmError (Unit {0})
  send_lines [] = ([], scan_result error)
  send_lines (line ∷ lines) = send_entry (fields line) (send_lines lines)

-- What opening /proc/vmstat gives: the text of an error, or the lines and the error of the scanner.
pub data VmFile : Type 0 where
  unopened : Bytes → VmFile
  opened : List Bytes → Option Bytes → VmFile

module _ {F : Type 0} (parse_float : Bytes → Option F) (matches : Bytes → Bool) where
  -- `Update`
  unfoldable pub update : VmFile → List (VmMetric F) × Outcome VmError (Unit {0})
  update (unopened e) = ([], err (not_opened e))
  update (opened lines error) = send_lines parse_float matches error lines
