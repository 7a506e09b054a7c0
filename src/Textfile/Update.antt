-- ===== src/Textfile/Update.antt =====
-- The second half of `Update`, which sends what was gathered, and `exportMTimes`.
use infra_pulse.Base.{
  ℕ, ◌/◌, Bool, true, false, ◌&&◌, ◌||◌, Option, none, some, List, [], ◌∷◌, ◌++◌, ltb, nat_eq,
  list_eq, ◌==◌, if◌then◌else◌, Outcome, ok, ◌>>=◌,
}
use infra_pulse.Base.Map.{Map, get_or}
use infra_pulse.Base.Text.{Bytes, codes}
use infra_pulse.Metric.{Float64}
use infra_pulse.Textfile.{
  MetricFamily, FamilyDesc, Runtime, checked, Sent, const_metric, gauge, convert_metric_family,
}
use infra_pulse.Textfile.Gather.{Listing, Gathered, add_dirs, nothing_gathered, paths_of}

-- `strings.Join(paths, ", ")`
abbrev pub join_paths : List Bytes → Bytes
join_paths [] = []
join_paths (p ∷ []) = p
join_paths (p ∷ q ∷ paths) = p ++ codes ", " ++ join_paths (q ∷ paths)

module _ {F : Type 0} where
  -- The help text of a family that has none.
  unfoldable pub fill_help : Map Bytes (List Bytes) → MetricFamily F → MetricFamily F
  fill_help files mf = elim mf.help [
    | none ↦ record mf {
      help = some (codes "Metric read from " ++ join_paths (get_or mf.name [] files));
    }
    | some h ↦ mf
  ]

  unfoldable pub fill_helps : Map Bytes (List Bytes) → List (MetricFamily F) → List (MetricFamily F)
  fill_helps files [] = []
  fill_helps files (mf ∷ families) = fill_help files mf ∷ fill_helps files families

  unfoldable pub send_families : Runtime F → List (MetricFamily F) → Outcome Bytes (List (Sent F))
  send_families rt [] = ok []
  send_families rt (mf ∷ families) = do
    sends ← convert_metric_family rt mf
    more ← send_families rt families
    ok (sends ++ more)

-- Calls of `MustNewConstMetric` in a loop.
unfoldable pub checked_all :
    {F : Type 0} → Runtime F → List (Sent F) → Outcome Bytes (List (Sent F))
checked_all rt [] = ok []
checked_all rt (s ∷ sends) = do one ← checked rt s; more ← checked_all rt sends; ok (one ∷ more)

-- The order of strings, and `sort.Strings` on the keys with their times.
abbrev pub before : Bytes → Bytes → Bool
before [] ys = true
before (x ∷ xs) [] = false
before (x ∷ xs) (y ∷ ys) = ltb x y || x == y && before xs ys

unfoldable pub insert_sorted : Bytes × ℕ → Map Bytes ℕ → Map Bytes ℕ
insert_sorted e [] = e ∷ []
insert_sorted e (x ∷ xs) = if before e.0 x.0 then e ∷ x ∷ xs else x ∷ insert_sorted e xs

unfoldable pub sort_paths : Map Bytes ℕ → Map Bytes ℕ
sort_paths [] = []
sort_paths (e ∷ entries) = insert_sorted e (sort_paths entries)

abbrev pub mtime_desc : FamilyDesc
mtime_desc = record {
  name = codes "node_textfile_mtime_seconds";
  help = codes "Unixtime mtime of textfiles successfully read.";
  label_names = codes "file" ∷ [];
}

abbrev pub scrape_error_desc : FamilyDesc
scrape_error_desc = record {
  name = codes "node_textfile_scrape_error";
  help = codes "1 if there was an error opening or reading a file, 0 otherwise";
  label_names = [];
}

module _ {F : Type 0} ⦃fl : Float64 F⦄ where
  -- The field `mtime` of the collector replaces the time if it is set.
  abbrev pub mtime_value : Option F → ℕ → F
  mtime_value none t = fl.from_uint (t / 1000000000)
  mtime_value (some fixed) t = fixed

  unfoldable pub send_mtimes : Option F → Map Bytes ℕ → List (Sent F)
  send_mtimes fixed [] = []
  send_mtimes fixed ((path, t) ∷ entries) =
      const_metric mtime_desc gauge (mtime_value fixed t) (path ∷ []) ∷ send_mtimes fixed entries

  unfoldable pub export_mtimes : Option F → Map Bytes ℕ → List (Sent F)
  export_mtimes fixed mtimes = send_mtimes fixed (sort_paths mtimes)

  abbrev pub scrape_error : Bool → Sent F
  scrape_error errored =
      const_metric scrape_error_desc gauge (fl.from_uint (if errored then 1 else 0)) []

  unfoldable pub send_all : Runtime F → Option F → Gathered F → Outcome Bytes (List (Sent F))
  send_all rt fixed g = do
    sends ← send_families rt (fill_helps g.files g.parsed)
    times ← checked_all rt (export_mtimes fixed g.mtimes)
    error ← checked rt (scrape_error g.errored)
    ok (sends ++ times ++ error ∷ [])

  -- What `Update` sends; it returns nil always, so `err` does not occur.
  unfoldable pub update :
      Runtime F
      → (Bytes → Bytes → Bytes)
      → (Bytes → Listing F)
      → Option F
      → Bytes
      → Option (List Bytes)
      → Outcome Bytes (List (Sent F))
  update rt join read_dir fixed path glob = do
    g ← add_dirs join read_dir (paths_of path glob) nothing_gathered
    send_all rt fixed g
