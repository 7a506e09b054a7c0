-- ===== src/Textfile/Loops.antt =====
-- The loops of `Update` over directories, files and families, with an invariant of its variables.
use infra_pulse.Base.{
  Bool, true, false, List, [], ◌∷◌, ◌≡◌, refl, arith, list_eq, nat_eq, Outcome, ok, err, panic,
  ◌>>=◌, All, ◌⊎◌, inl, inr, Bool-cases,
}
use infra_pulse.Base.Map.{Map, insert}
use infra_pulse.Base.Text.{Bytes, has_suffix}
use infra_pulse.Textfile.{MetricFamily}
use infra_pulse.Textfile.Gather.{
  TextFile, Listing, FileError, process_file, Gathered, add_family, add_families, note_mtime,
  add_file, add_files, add_dirs, prom_suffix,
}

-- A value has the property, and anything else is excused by `X`.
abbrev pub Ends : {A : Type 0} → (A → Type 0) → Type 0 → Outcome Bytes A → Type 0
Ends Inv X (ok g) = Inv g
Ends Inv X (err e) = X
Ends Inv X panic = X

pub >>=-Ends :
    {A B : Type 0} (P : A → Type 0) (Q : B → Type 0) (X : Type 0) (o : Outcome Bytes A)
    (next : A → Outcome Bytes B)
    → Ends P X o
    → ((a : A) → P a → Ends Q X (next a))
    → Ends Q X (o >>= next)
>>=-Ends P Q X (ok a) next h n = n a h
>>=-Ends P Q X (err e) next h n = h
>>=-Ends P Q X panic next h n = h

pub Ends-any : {A : Type 0} (o : Outcome Bytes A) → Ends (λ (_ : A). Unit {0}) Unit o
Ends-any (ok a) = tt
Ends-any (err e) = tt
Ends-any panic = tt

-- Where nothing excuses, there is a value.
pub Ends-total :
    {A : Type 0} (P : A → Type 0) (o : Outcome Bytes A)
    → Ends P (true ≡ false) o
    → (a : A) × (o ≡ ok a) × P a
Ends-total P (ok a) h = (a, refl, h)
Ends-total P (err e) h = ground arith
Ends-total P panic h = ground arith

pub Ends-ok :
    {A : Type 0} (P : A → Type 0) (X : Type 0) {o : Outcome Bytes A} {a : A}
    → Ends P X o
    → o ≡ ok a
    → P a
Ends-ok P X h e = rw e at h

-- Every family of a map.
abbrev pub AllValues :
    {F : Type 0} → (MetricFamily F → Type 0) → Map Bytes (MetricFamily F) → Type 0
AllValues Good families = All (λ e. Good e.1) families

-- Every file of a directory: its families, as `processFile` returns them, and its path.
abbrev pub AllFiles :
    {F : Type 0}
    → (MetricFamily F → Type 0)
    → (Bytes → Type 0)
    → (Bytes → Bytes)
    → List (TextFile F)
    → Type 0
AllFiles Good Place path files =
    All (λ f. AllValues Good (process_file f).families × Place (path f.name)) files

module _ {F : Type 0} (Inv : Gathered F → Type 0) (X : Type 0) (Good : MetricFamily F → Type 0)
    (Place : Bytes → Type 0)
    (family : (path : Bytes) (mf : MetricFamily F) (g : Gathered F)
      → Good mf
      → Inv g
      → Ends Inv X (add_family path mf g))
    (time : (g : Gathered F) (path : Bytes) (t : _)
      → Place path
      → Inv g
      → Inv (record g { mtimes = insert path t g.mtimes }))
    (error : (g : Gathered F) (e : Bool)
      → (g.errored ≡ true → e ≡ true)
      → Inv g
      → Inv (record g { errored = e })) where
  add_families-Ends :
      (path : Bytes) (families : Map Bytes (MetricFamily F)) (g : Gathered F)
      → AllValues Good families
      → Inv g
      → Ends Inv X (add_families path families g)
  unfolding add_families
  add_families-Ends path [] g h i = i
  add_families-Ends path ((name, mf) ∷ families) g h i =
      >>=-Ends Inv Inv X (add_family path mf g) _ (family path mf g h.0 i)
        (λ g' i'. add_families-Ends path families g' h.1 i')

  note_mtime-Inv :
      (path : Bytes) (mtime : FileError ⊎ _) (g : Gathered F)
      → Place path
      → Inv g
      → Inv (note_mtime path mtime g)
  note_mtime-Inv path (inl e) g p i = error g true (λ _. refl) i
  note_mtime-Inv path (inr t) g p i = time g path t p i

  add_file-Ends :
      (path : Bytes) (f : TextFile F) (g : Gathered F)
      → AllValues Good (process_file f).families
      → Place path
      → Inv g
      → Ends Inv X (add_file path f g)
  unfolding add_file
  add_file-Ends path f g h p i = elim (Bool-cases (has_suffix f.name prom_suffix)) [
    | inl s ↦ rw s (
        >>=-Ends Inv Inv X (add_families path (process_file f).families g) _
          (add_families-Ends path (process_file f).families g h i)
          (λ g' i'. note_mtime-Inv path (process_file f).mtime g' p i'))
    | inr s ↦ rw s i
  ]

  pub add_files-Ends :
      (join : Bytes → Bytes → Bytes) (dir : Bytes) (files : List (TextFile F)) (g : Gathered F)
      → AllFiles Good Place (join dir) files
      → Inv g
      → Ends Inv X (add_files join dir files g)
  unfolding add_files
  add_files-Ends join dir [] g h i = i
  add_files-Ends join dir (f ∷ files) g h i =
      >>=-Ends Inv Inv X (add_file (join dir f.name) f g) _
        (add_file-Ends (join dir f.name) f g h.0.0 h.0.1 i)
        (λ g' i'. add_files-Ends join dir files g' h.1 i')

  pub add_dirs-Ends :
      (join : Bytes → Bytes → Bytes) (read_dir : Bytes → Listing F) (dirs : List Bytes)
      (g : Gathered F)
      → ((dir : Bytes) → AllFiles Good Place (join dir) (read_dir dir).files)
      → Inv g
      → Ends Inv X (add_dirs join read_dir dirs g)
  unfolding add_dirs
  add_dirs-Ends join read_dir [] g h i = i
  add_dirs-Ends join read_dir (dir ∷ dirs) g h i =
      >>=-Ends Inv Inv X (add_files join dir (read_dir dir).files _) _
        (add_files-Ends join dir (read_dir dir).files _ (h dir) (error g _ (λ e. rw e refl) i))
        (λ g' i'. add_dirs-Ends join read_dir dirs g' h i')
