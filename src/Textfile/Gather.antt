-- ===== src/Textfile/Gather.antt =====
-- The first half of `Update`: `processFile`, `hasTimestamps` and the loops over directories, files
-- and families.
use infra_pulse.Base.{
  ℕ, Bool, true, false, not, ◌&&◌, ◌||◌, Option, none, some, List, [], ◌∷◌, ◌++◌, nat_eq, list_eq,
  ◌==◌, get_elem?, if◌then◌else◌, Outcome, ok, panic, ◌>>=◌, ◌⊎◌, inl, inr,
}
use infra_pulse.Base.Map.{Map, lookup, insert, get_or}
use infra_pulse.Base.Text.{Bytes, codes, has_suffix}
use infra_pulse.Textfile.{DtoMetric, MetricFamily}

-- A file of a directory: whether it can be opened, the families that the parser gives by their names, and its modification
-- time if `Stat` succeeds.
pub record TextFile (F : Type 0) : Type 0 where
  pub name : Bytes
  pub opened : Bool
  pub parsed : Option (Map Bytes (MetricFamily F))
  pub mtime : Option ℕ

-- What `os.ReadDir` answers; it may return entries beside its error.
pub record Listing (F : Type 0) : Type 0 where
  pub failed : Bool
  pub files : List (TextFile F)

abbrev pub any_timestamp : {F : Type 0} → List (DtoMetric F) → Bool
any_timestamp [] = false
any_timestamp (m ∷ metrics) =
    elim m.timestamp_ms [ none ↦ false | some t ↦ true ] || any_timestamp metrics

unfoldable pub has_timestamps : {F : Type 0} → Map Bytes (MetricFamily F) → Bool
has_timestamps [] = false
has_timestamps ((name, mf) ∷ families) = any_timestamp mf.metrics || has_timestamps families

pub data FileError : Type 0 where
  open_failed parse_failed unsupported_timestamps stat_failed : FileError

-- The families may come with an error, the time never does.
pub record Processed (F : Type 0) : Type 0 where
  pub mtime : FileError ⊎ ℕ
  pub families : Map Bytes (MetricFamily F)

abbrev pub refused : {F : Type 0} → FileError → Processed F
refused e = record { mtime = inl e; families = [] }

abbrev pub with_stat : {F : Type 0} → Map Bytes (MetricFamily F) → Option ℕ → Processed F
with_stat families none = record { mtime = inl stat_failed; families = families }
with_stat families (some t) = record { mtime = inr t; families = families }

unfoldable pub process_file : {F : Type 0} → TextFile F → Processed F
process_file f =
    if f.opened
    then elim f.parsed [
      | none ↦ refused parse_failed
      | some families ↦
          if has_timestamps families
          then refused unsupported_timestamps
          else with_stat families f.mtime
    ]
    else refused open_failed

-- The variables of `Update`. The two texts of a help entry are the first and the first that differs.
pub record Gathered (F : Type 0) : Type 0 where
  pub errored : Bool
  pub parsed : List (MetricFamily F)
  pub files : Map Bytes (List Bytes)
  pub helps : Map Bytes (Bytes × Bytes)
  pub mtimes : Map Bytes ℕ

-- `mf.Help != nil && helpTexts[0] != *mf.Help || helpTexts[1] != ""`
abbrev pub inconsistent : Option (Bytes × Bytes) → Option Bytes → Bool
inconsistent none help = false
inconsistent (some (h0, h1)) none = not (h1 == [])
inconsistent (some (h0, h1)) (some h) = not (h0 == h) || not (h1 == [])

-- The first help text of an entry.
abbrev pub first_help : Option (Bytes × Bytes) → Bytes
first_help none = []
first_help (some (h0, h1)) = h0

abbrev pub prom_suffix : Bytes
prom_suffix = codes ".prom"

module _ {F : Type 0} where
  -- The body of the branch for inconsistent texts: reading a nil help panics, and so does the first
  -- file of a name that has none.
  abbrev pub reject :
      MetricFamily F → Bytes → Option Bytes → Option Bytes → Gathered F → Outcome Bytes (Gathered F)
  reject mf h0 none file g = panic
  reject mf h0 (some h) none g = panic
  reject mf h0 (some h) (some file) g =
      ok (record g { errored = true; helps = insert mf.name (h0, h) g.helps })

  abbrev pub note_help :
      MetricFamily F → Option Bytes → Map Bytes (Bytes × Bytes) → Map Bytes (Bytes × Bytes)
  note_help mf none helps = helps
  note_help mf (some h) helps = insert mf.name (h, []) helps

  abbrev pub accept : Bytes → MetricFamily F → Gathered F → Gathered F
  accept path mf g = record g {
    helps = note_help mf mf.help g.helps;
    files = insert mf.name (get_or mf.name [] g.files ++ path ∷ []) g.files;
    parsed = g.parsed ++ mf ∷ [];
  }

  -- One round of the loop over the families of a file.
  unfoldable pub add_family : Bytes → MetricFamily F → Gathered F → Outcome Bytes (Gathered F)
  add_family path mf g =
      let entry = lookup mf.name g.helps in
      if inconsistent entry mf.help
      then reject mf (first_help entry) mf.help (get_elem? (get_or mf.name [] g.files) 0) g
      else ok (accept path mf g)

  unfoldable pub add_families :
      Bytes → Map Bytes (MetricFamily F) → Gathered F → Outcome Bytes (Gathered F)
  add_families path [] g = ok g
  add_families path ((name, mf) ∷ families) g = do
    g' ← add_family path mf g
    add_families path families g'

  -- `mtimes[metricsFilePath] = *mtime`, or the error.
  abbrev pub note_mtime : Bytes → FileError ⊎ ℕ → Gathered F → Gathered F
  note_mtime path (inr t) g = record g { mtimes = insert path t g.mtimes }
  note_mtime path (inl e) g = record g { errored = true }

  -- One round of the loop over the files of a directory.
  unfoldable pub add_file : Bytes → TextFile F → Gathered F → Outcome Bytes (Gathered F)
  add_file path f g =
      if has_suffix f.name prom_suffix
      then (do
        g' ← add_families path (process_file f).families g
        ok (note_mtime path (process_file f).mtime g'))
      else ok g

  -- `join` is `filepath.Join`.
  unfoldable pub add_files :
      (Bytes → Bytes → Bytes) → Bytes → List (TextFile F) → Gathered F → Outcome Bytes (Gathered F)
  add_files join dir [] g = ok g
  add_files join dir (f ∷ files) g = do
    g' ← add_file (join dir f.name) f g
    add_files join dir files g'

  -- An unreadable directory is an error, except for the empty path.
  abbrev pub note_listing : Bytes → Bool → Gathered F → Gathered F
  note_listing dir failed g = record g { errored = g.errored || failed && not (dir == []) }

  unfoldable pub add_dirs :
      (Bytes → Bytes → Bytes)
      → (Bytes → Listing F)
      → List Bytes
      → Gathered F
      → Outcome Bytes (Gathered F)
  add_dirs join read_dir [] g = ok g
  add_dirs join read_dir (dir ∷ dirs) g = do
    g' ← add_files join dir (read_dir dir).files (note_listing dir (read_dir dir).failed g)
    add_dirs join read_dir dirs g'

  abbrev pub nothing_gathered : Gathered F
  nothing_gathered = record { errored = false; parsed = []; files = []; helps = []; mtimes = [] }

-- The paths of the glob, or the path itself.
abbrev pub paths_of : Bytes → Option (List Bytes) → List Bytes
paths_of path none = path ∷ []
paths_of path (some []) = path ∷ []
paths_of path (some (p ∷ paths)) = p ∷ paths
