-- ===== src/Meminfo/Tests.antt =====
-- Concrete runs of the memory collector.
use infra_pulse.Base.{
  ℕ, true, false, Option, none, some, [], ◌∷◌, ◌≡◌, refl, nat_eq, list_eq, leb, ltb, ◌-◌, ◌*◌, ok,
  err, panic,
}
use infra_pulse.Base.Int.{pos, negsuc}
use infra_pulse.Base.Text.{Bytes, codes, is_space, fields_from, parse_uint, parse_digits, digit}
use infra_pulse.Base.Map.{lookup, IsMap}
use infra_pulse.Metric.{Float64, FloatOps}
use infra_pulse.Meminfo.{parse_mem_info, parse_lines}
use infra_pulse.Meminfo.RoundTrip.{
  plain, grouped, MemLine, print_lines, entries_of, IsMemLine, parse_mem_info-print,
}

instance abbrev memory_numbers : Float64 ℕ
memory_numbers = record { from_uint = λ n. n; from_int = λ z. elim z [ pos n ↦ n | negsuc n ↦ 0 ] }

instance abbrev memory_ops : FloatOps ℕ
memory_ops = record {
  ge = λ a b. leb b a;
  gt = λ a b. ltb b a;
  sub = λ a b. a - b;
  mul = λ a b. a * b;
}

abbrev parse_number : Bytes → Option ℕ
parse_number text = elim (parse_uint 10 64 text) [ ok n ↦ some n | err e ↦ none | panic ↦ none ]

abbrev active : MemLine ℕ
active = record {
  name = grouped (codes "Active") (codes "anon");
  blanks = 5;
  digits = codes "12";
  value = 12;
  in_kb = true;
}

abbrev huge_pages : MemLine ℕ
huge_pages = record {
  name = plain (codes "HugePages_Total");
  blanks = 0;
  digits = codes "7";
  value = 7;
  in_kb = false;
}

printed :
    print_lines (active ∷ huge_pages ∷ [])
    ≡ codes "Active(anon):      12 kB" ∷ codes "HugePages_Total: 7" ∷ []
printed = refl

meant :
    entries_of (active ∷ huge_pages ∷ [])
    ≡ (codes "Active_anon_bytes", 12288) ∷ (codes "HugePages_Total", 7) ∷ []
meant = refl

active-IsMemLine : IsMemLine parse_number active
unfolding is_space parse_uint parse_digits digit
active-IsMemLine = record { name = refl; title = refl; digits = refl; value = refl }

huge_pages-IsMemLine : IsMemLine parse_number huge_pages
unfolding is_space parse_uint parse_digits digit
huge_pages-IsMemLine = record { name = refl; title = refl; digits = refl; value = refl }

entries-IsMap : IsMap (entries_of (active ∷ huge_pages ∷ []))
unfolding lookup
entries-IsMap = (refl, (refl, tt))

parse_mem_info-print_example :
    parse_mem_info parse_number (print_lines (active ∷ huge_pages ∷ [])) none
    ≡ ok (entries_of (active ∷ huge_pages ∷ []))
parse_mem_info-print_example =
    parse_mem_info-print parse_number (active ∷ huge_pages ∷ [])
      (active-IsMemLine, (huge_pages-IsMemLine, tt)) entries-IsMap

-- A line with a name alone makes the parser panic.
name_alone : parse_mem_info parse_number (codes "MemTotal:" ∷ []) none ≡ panic
unfolding parse_mem_info parse_lines fields_from is_space
name_alone = refl
