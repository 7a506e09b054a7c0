-- ===== src/Textfile/Tests.antt =====
-- Text files in one directory: three families of one name, two metrics with labels.
use infra_pulse.Base.{
  ℕ, true, false, Option, none, some, List, [], ◌∷◌, ◌++◌, ◌≡◌, refl, ok, list_eq, nat_eq, not,
  ◌==◌, ◌*◌,
}
use infra_pulse.Base.Map.{lookup, insert}
use infra_pulse.Base.Int.{pos, negsuc}
use infra_pulse.Base.Text.{Bytes, codes, has_suffix}
use infra_pulse.Metric.{Float64}
use infra_pulse.Textfile.{
  counter, gauge, Label, Runtime, DtoMetric, MetricFamily, Sent, FamilyDesc, const_metric,
  add_labels, all_label_names, own_labels, add_missing, convert_metric, convert_all,
  convert_metric_family,
}
use infra_pulse.Textfile.Accepts.{Rules, in_order}
use infra_pulse.Textfile.Convert.{RendersAll, IsSendable, convert_metric_family-RendersAll}
use infra_pulse.Textfile.Gather.{
  TextFile, Listing, has_timestamps, process_file, Gathered, add_family, add_families, add_file,
  add_files, add_dirs, nothing_gathered,
}
use infra_pulse.Textfile.Update.{scrape_error, update}
use infra_pulse.Textfile.Help.{add_dirs-same_help}
use infra_pulse.Textfile.Loops.{AllFiles}
use infra_pulse.Textfile.Times.{AcceptsInOrder}
use infra_pulse.Textfile.Total.{IsComplete, update-total}

instance abbrev small_numbers : Float64 ℕ
small_numbers = record { from_uint = λ n. n; from_int = λ z. elim z [ pos n ↦ n | negsuc n ↦ 0 ] }

abbrev metric : List Label → ℕ → DtoMetric ℕ
metric labels v = record {
  labels = labels;
  timestamp_ms = none;
  counter = v;
  gauge = v;
  untyped = v;
  summary = none;
  histogram = none;
}

abbrev family : Option Bytes → List (DtoMetric ℕ) → MetricFamily ℕ
family help metrics = record { name = b'e' ∷ []; help = help; type = counter; metrics = metrics }

abbrev label : ℕ → Bytes → Label
label n v = record { name = n ∷ []; value = v }

-- One metric has the label x, the other the labels y and z.
abbrev events : MetricFamily ℕ
events = family (some (codes "Events.")) (
    metric (label b'x' (codes "1") ∷ []) 7
    ∷ metric (label b'y' (codes "2") ∷ label b'z' (codes "3") ∷ []) 8
    ∷ [])

-- Names that are not empty, and all values.
abbrev rules : Rules
rules = record {
  is_metric_name = λ name. not (name == []);
  is_label_name = λ name. not (name == []);
  is_text = λ text. true;
}

abbrev runtime : Runtime ℕ
runtime = record { visit = λ m names. names; accepts = λ s. in_order rules s }

runtime-AcceptsInOrder : AcceptsInOrder runtime rules
runtime-AcceptsInOrder = record {
  accepted = λ s h. h;
  empty_text = refl;
  label_names = refl;
  mtime_name = refl;
  error_name = refl;
}

abbrev events_desc : List Bytes → FamilyDesc
events_desc names = record { name = b'e' ∷ []; help = codes "Events."; label_names = names }

abbrev events_sent : List (Sent ℕ)
events_sent =
    const_metric (events_desc (codes "x" ∷ codes "y" ∷ codes "z" ∷ [])) counter 7
      (codes "1" ∷ [] ∷ [] ∷ [])
    ∷ const_metric (events_desc (codes "y" ∷ codes "z" ∷ codes "x" ∷ [])) counter 8
        (codes "2" ∷ codes "3" ∷ [] ∷ [])
    ∷ []

events_converted : convert_metric_family runtime events ≡ ok events_sent
unfolding convert_metric_family convert_all convert_metric all_label_names add_labels own_labels
    add_missing
events_converted = refl

events-IsSendable : IsSendable rules events
events-IsSendable = record { name = refl; metrics = (refl, (refl, tt)) }

convert_metric_family-RendersAll_example :
    (sends : List (Sent ℕ)) × (convert_metric_family runtime events ≡ ok sends)
    × RendersAll events events.metrics sends
convert_metric_family-RendersAll_example =
    convert_metric_family-RendersAll runtime rules events (λ s h. h) refl (λ m names k. refl)
      events-IsSendable

abbrev join : Bytes → Bytes → Bytes
join dir name = dir ++ b'/' ∷ name

-- A file with one family, read at a time in seconds.
abbrev one_family : ℕ → MetricFamily ℕ → ℕ → TextFile ℕ
one_family letter mf seconds = record {
  name = letter ∷ codes ".prom";
  opened = true;
  parsed = some ((mf.name, mf) ∷ []);
  mtime = some (seconds * 1000000000);
}

abbrev others : MetricFamily ℕ
others = family (some (codes "Others.")) []

abbrev broken_file : TextFile ℕ
broken_file = record { name = codes "d.prom"; opened = true; parsed = none; mtime = some 6 }

abbrev read_dir : Bytes → Listing ℕ
read_dir dir = record {
  failed = false;
  files =
      one_family b'a' events 5
      ∷ one_family b'b' others 6
      ∷ one_family b'c' events 7
      ∷ broken_file
      ∷ [];
}

abbrev dir_path : Bytes
dir_path = codes "d"

abbrev sent_mtime : ℕ → ℕ → Sent ℕ
sent_mtime letter seconds =
    const_metric
      (record {
        name = codes "node_textfile_mtime_seconds";
        help = codes "Unixtime mtime of textfiles successfully read.";
        label_names = codes "file" ∷ [];
      })
      gauge seconds ((codes "d/" ++ letter ∷ codes ".prom") ∷ [])

abbrev all_sent : List (Sent ℕ)
all_sent =
    events_sent
    ++ sent_mtime b'a' 5 ∷ sent_mtime b'b' 6 ∷ sent_mtime b'c' 7 ∷ scrape_error true ∷ []

read_dir-IsComplete :
    (dir : Bytes)
    → AllFiles (IsComplete rules) (λ p. rules.is_text p ≡ true) (join dir) (read_dir dir).files
unfolding process_file has_timestamps
read_dir-IsComplete dir =
    let one : IsComplete rules events = record {
      text = codes "Events.";
      help = refl;
      sendable = events-IsSendable;
    } in
    let other : IsComplete rules others = record {
      text = codes "Others.";
      help = refl;
      sendable = record { name = refl; metrics = tt };
    } in
    (((one, tt), refl), (((other, tt), refl), (((one, tt), refl), ((tt, refl), tt))))

update-total_example :
    (sends : List (Sent ℕ)) × (update runtime join read_dir none dir_path none ≡ ok sends)
update-total_example =
    update-total runtime rules join read_dir none dir_path none runtime-AcceptsInOrder
      (λ m names k. refl) read_dir-IsComplete

abbrev agreeing : Listing ℕ
agreeing = record {
  failed = false;
  files =
      one_family b'a' events 5 ∷ one_family b'b' (family none []) 6 ∷ one_family b'c' events 7 ∷ [];
}

abbrev path_of : ℕ → Bytes
path_of letter = codes "d/" ++ letter ∷ codes ".prom"

abbrev all_gathered : Gathered ℕ
all_gathered = record {
  errored = false;
  parsed = events ∷ family none [] ∷ events ∷ [];
  files = (b'e' ∷ [], path_of b'a' ∷ path_of b'b' ∷ path_of b'c' ∷ []) ∷ [];
  helps = (b'e' ∷ [], (codes "Events.", [])) ∷ [];
  mtimes =
      (path_of b'a', 5000000000) ∷ (path_of b'b', 6000000000) ∷ (path_of b'c', 7000000000) ∷ [];
}

gathered : add_dirs join (λ _. agreeing) (dir_path ∷ []) nothing_gathered ≡ ok all_gathered
unfolding add_dirs add_files add_file add_families add_family process_file has_timestamps lookup
    insert has_suffix
gathered = refl

add_dirs-same_help_example : codes "Events." ≡ codes "Events."
add_dirs-same_help_example =
    add_dirs-same_help join (λ _. agreeing) (dir_path ∷ []) all_gathered 0 2 {a = events}
      {b = events} (codes "Events.") (codes "Events.") gathered refl refl refl refl refl

abbrev nil_behind : Listing ℕ
nil_behind = record {
  failed = false;
  files =
      one_family b'a' events 5 ∷ one_family b'b' others 6 ∷ one_family b'c' (family none []) 7 ∷ [];
}
