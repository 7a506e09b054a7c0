-- ===== src/Loadavg/Tests.antt =====
-- Concrete runs of the load average collector.
use infra_pulse.Base.{ℕ, Option, none, some, [], ◌∷◌, ◌≡◌, refl, nat_eq, list_eq, ok, err, panic}
use infra_pulse.Base.Text.{Bytes, codes, is_space, fields_from, parse_uint, parse_digits, digit}
use infra_pulse.Loadavg.{
  load1_desc, load5_desc, load15_desc, unexpected_content, invalid_load, parse_loads, parse_load,
  get_load, send_loads, update,
}
use infra_pulse.Loadavg.Reads.{load_metric}

abbrev parse_number : Bytes → Option ℕ
parse_number text = elim (parse_uint 10 64 text) [ ok n ↦ some n | err e ↦ none | panic ↦ none ]

three_loads :
    update (get_load parse_number (ok (codes "1 2 3 1/345 9999")))
    ≡ (load_metric load1_desc 1 ∷ load_metric load5_desc 2 ∷ load_metric load15_desc 3 ∷ [], ok tt)
unfolding update parse_load parse_loads send_loads fields_from is_space parse_uint parse_digits
    digit
three_loads = refl

two_loads : update (get_load parse_number (ok (codes "1 2"))) ≡ ([], err unexpected_content)
unfolding update parse_load fields_from is_space
two_loads = refl

bad_load :
    update (get_load parse_number (ok (codes "1 x 3"))) ≡ ([], err (invalid_load (codes "x")))
unfolding update parse_load parse_loads fields_from is_space parse_uint parse_digits digit
bad_load = refl
