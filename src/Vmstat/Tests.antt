-- ===== src/Vmstat/Tests.antt =====
-- Concrete runs of the virtual memory collector.
use infra_pulse.Base.{
  ℕ, Bool, Option, none, some, [], ◌∷◌, ◌≡◌, refl, nat_eq, list_eq, ok, err, panic,
}
use infra_pulse.Base.Text.{
  Bytes, codes, is_space, fields_from, has_prefix, parse_uint, parse_digits, digit,
}
use infra_pulse.Vmstat.Sends.{VmField, IsVmField, print_fields, metrics_of, update-print}
use infra_pulse.Vmstat.{opened, invalid_value, send_lines, update}

abbrev parse_number : Bytes → Option ℕ
parse_number text = elim (parse_uint 10 64 text) [ ok n ↦ some n | err e ↦ none | panic ↦ none ]

abbrev wanted : Bytes → Bool
wanted name = has_prefix name (codes "pg")

two_lines :
    update parse_number wanted (opened (codes "nr_free_pages 8" ∷ codes "pgpgin 12" ∷ []) none)
    ≡ (record { field = codes "pgpgin"; value = 12 } ∷ [], ok tt)
unfolding update send_lines fields_from is_space has_prefix parse_uint parse_digits digit
two_lines = refl

-- A value that is no number ends the call, and so does a counter without a value.
no_number :
    update parse_number wanted (opened (codes "nr_dirty x" ∷ codes "pgpgin 12" ∷ []) none)
    ≡ ([], err (invalid_value (codes "x")))
unfolding update send_lines fields_from is_space has_prefix parse_uint parse_digits digit
no_number = refl

no_value : update parse_number wanted (opened (codes "pgpgin" ∷ []) none) ≡ ([], panic)
unfolding update send_lines fields_from is_space has_prefix parse_uint parse_digits digit
no_value = refl

abbrev free_pages : VmField ℕ
free_pages = record { name = codes "nr_free_pages"; digits = codes "8"; value = 8 }

abbrev pages_in : VmField ℕ
pages_in = record { name = codes "pgpgin"; digits = codes "12"; value = 12 }

free_pages-IsVmField : IsVmField parse_number free_pages
unfolding is_space parse_uint parse_digits digit
free_pages-IsVmField = record { name = refl; digits = refl; value = refl }

pages_in-IsVmField : IsVmField parse_number pages_in
unfolding is_space parse_uint parse_digits digit
pages_in-IsVmField = record { name = refl; digits = refl; value = refl }

update-print_example :
    update parse_number wanted (opened (print_fields (free_pages ∷ pages_in ∷ [])) none)
    ≡ (metrics_of wanted (free_pages ∷ pages_in ∷ []), ok tt)
update-print_example =
    update-print parse_number wanted (free_pages ∷ pages_in ∷ [])
      (free_pages-IsVmField, (pages_in-IsVmField, tt))
