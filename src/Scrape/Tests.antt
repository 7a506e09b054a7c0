-- ===== src/Scrape/Tests.antt =====
-- A scrape of two collectors, one of which fails, under one of its schedules.
use mathlib.Core.List.{Perm, Mem}
use infra_pulse.Base.{ℕ, suc, String, none, some, List, [], ◌∷◌, ◌≡◌, refl, ◌⊎◌, string_eq}
use infra_pulse.Base.Map.{Map, lookup}
use infra_pulse.Base.Int.{pos, negsuc}
use infra_pulse.Metric.{Float64, Metric, counter, whole}
use infra_pulse.Scrape.{
  Collecting, collect_start, IsDone, Step, spawn, send, finish, Reach, here, next, Updated, execute,
  success_value, success_metric, duration_metric, push_metric, float_value, uint8_ptr,
  scrape_success_desc,
}
use infra_pulse.Scrape.Interleaving.{
  all_runs, run_of, collect_complete, collect_reports, collect_progress, steps_left,
  Step-steps_left,
}

-- Numbers for float64, which the examples keep small and unsigned.
instance abbrev small_floats : Float64 ℕ
small_floats = record { from_uint = λ n. n; from_int = λ z. elim z [ pos n ↦ n | negsuc n ↦ 0 ] }

abbrev m1 : Metric ℕ
m1 = record {
  desc = record { fq_name = whole "node_load1"; help = "1m load average."; label_names = [] };
  value_type = counter;
  value = 3;
  label_values = [];
}

abbrev update : String → ℕ → Updated ℕ String
update name c = record { sent = m1 ∷ []; error = none }

abbrev run : String → ℕ → List (Metric ℕ)
run = run_of update (λ _. 5)

abbrev node : Map String ℕ
node = ("loadavg", 1) ∷ []

abbrev trace : List (Metric ℕ)
trace = m1 ∷ duration_metric "loadavg" 5 ∷ success_metric "loadavg" 1 ∷ []

abbrev at : Map String ℕ → List (List (Metric ℕ)) → ℕ → List (Metric ℕ) → Collecting ℕ ℕ
at pending running waiting sent = record {
  pending = pending;
  running = running;
  waiting = waiting;
  sent = sent;
}

run-trace : run "loadavg" 1 ≡ trace
unfolding execute success_value
run-trace = refl

finished : Reach run (collect_start node) (at [] [] 0 trace)
unfolding collect_start execute success_value
finished =
    next
      (next
        (next (next (next here (spawn "loadavg" 1 [] refl)) (send [] [] _ _ refl))
          (send [] [] _ _ refl))
        (send [] [] _ _ refl))
      (finish [] [] refl)

collect_complete_example : Perm trace (all_runs run node)
collect_complete_example = collect_complete run node finished (refl, refl)

collect_reports_example :
    ((update "loadavg" 1).error ≡ none → Mem (success_metric "loadavg" 1) trace)
    × ((e : String) → (update "loadavg" 1).error ≡ some e → Mem (success_metric "loadavg" 0) trace)
unfolding lookup
collect_reports_example =
    collect_reports update (λ _. 5) node finished (refl, refl) "loadavg" 1 refl

begun : Collecting ℕ ℕ
begun = collect_start node

collect_progress_example : IsDone begun ⊎ ((t : Collecting ℕ ℕ) × Step run begun t)
unfolding begun
collect_progress_example = collect_progress run node (collect_start node) here

final_move : Step run (at [] ([] ∷ []) 1 trace) (at [] [] 0 trace)
final_move = finish [] [] refl

Step-steps_left_example :
    steps_left run (at [] ([] ∷ []) 1 trace) ≡ suc (steps_left run (at [] [] 0 trace))
Step-steps_left_example = Step-steps_left run final_move

push_nil : push_metric {F = ℕ} scrape_success_desc "x" (uint8_ptr none) counter [] ≡ []
unfolding push_metric float_value
push_nil = refl
