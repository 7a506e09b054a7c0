-- ===== src/OsRelease/Load.antt =====
-- `UpdateStruct`.
use infra_pulse.Base.{
  ℕ, Bool, ◌&&◌, ◌||◌, Option, none, some, [], ◌∷◌, nat_eq, list_eq, Eq, ◌==◌, if◌then◌else◌,
  Outcome, ok, err, panic, leb,
}
use infra_pulse.Base.Text.{Bytes, codes, has_prefix}
use infra_pulse.Metric.{Float64}
use infra_pulse.OsRelease.{
  Release, OsError, other, ReleaseFile, System, OsCollector, parse_os_release, empty_release,
  product_loop, release_of,
}

-- `strings.Contains`
unfoldable pub contains : Bytes → Bytes → Bool
contains [] part = has_prefix [] part
contains (c ∷ cs) part = has_prefix (c ∷ cs) part || contains cs part

abbrev pub is_digit : ℕ → Bool
is_digit c = leb b'0' c && leb c b'9'

-- The digits in front.
unfoldable pub digits : Bytes → Bytes
digits [] = []
digits (c ∷ cs) = if is_digit c then c ∷ digits cs else []

-- The longest piece in front that `[0-9]*\.?[0-9]*` matches.
unfoldable pub number_from : Bytes → Bytes
number_from [] = []
number_from (c ∷ cs) =
    let rest = number_from cs in
    if is_digit c then c ∷ rest else if c == b'.' then c ∷ digits cs else []

-- `versionRegex.FindString`, where the pattern is `^[0-9]+\.?[0-9]*`
unfoldable pub major_minor : Bytes → Bytes
major_minor [] = []
major_minor (c ∷ cs) = if is_digit c then c ∷ number_from cs else []

module _ {F T E : Type 0} where
  -- `getMacosProductVersion`: the release and the error, both of which the caller assigns.
  unfoldable pub get_macos_product_version : System F T E → Bytes → Outcome E (Release × Option E)
  get_macos_product_version w content = elim (w.unmarshal content) [
    | err e ↦ ok (empty_release, some e)
    | panic ↦ panic
    | ok (keys, strings) ↦
        elim (product_loop keys strings
          (record { version_id = []; version_name = []; build_id = [] })) [
            | ok p ↦ ok (release_of p, none)
            | err e ↦ err e
            | panic ↦ panic
          ]
  ]

  -- How the file is read, by its name.
  unfoldable pub read_release : System F T E → Bytes → Bytes → Outcome E (Release × Option E)
  read_release w path content =
      if contains path (codes "SystemVersion.plist")
      then get_macos_product_version w content
      else let (env, error) = w.env_parse content in ok (parse_os_release env, error)

module _ {E C : Type 0} where
  abbrev pub failed : Option E → C → C × Outcome (OsError E) (Unit {0})
  failed none c = (c, ok tt)
  failed (some e) c = (c, err (other e))

module _ {F T E : Type 0} where
  -- The end of `UpdateStruct`: the end of support.
  abbrev pub set_support_end :
      System F T E → Release → OsCollector F T → OsCollector F T × Outcome (OsError E) (Unit {0})
  set_support_end w os c =
      if os.support_end == []
      then (c, ok tt)
      else let (t, error) = w.parse_date os.support_end in
        failed error (record c { support_end = t })

  -- The version, and what follows if it can be parsed.
  abbrev pub behind_version :
      System F T E
      → Release
      → Option E
      → OsCollector F T
      → OsCollector F T × Outcome (OsError E) (Unit {0})
  behind_version w os none c = set_support_end w os c
  behind_version w os (some e) c = (c, err (other e))

module _ {F T E : Type 0} ⦃fl : Float64 F⦄ where
  unfoldable pub set_version :
      System F T E → Release → OsCollector F T → OsCollector F T × Outcome (OsError E) (Unit {0})
  set_version w os c =
      let text = major_minor os.version_id in
      if text == []
      then set_support_end w os (record c { version = fl.from_uint 0 })
      else let (v, error) = w.parse_float text in
        behind_version w os error (record c { version = v })

  -- `UpdateStruct` behind the assignment of the file's name and time.
  unfoldable pub set_release :
      System F T E
      → Outcome E (Release × Option E)
      → OsCollector F T
      → OsCollector F T × Outcome (OsError E) (Unit {0})
  set_release w (ok (os, none)) c = set_version w os (record c { os = some os })
  set_release w (ok (os, some e)) c = (record c { os = some os }, err (other e))
  set_release w (err e) c = (c, err (other e))
  set_release w panic c = (c, panic)

module _ {F T E : Type 0} ⦃fl : Float64 F⦄ ⦃te : Eq T⦄ where
  -- `UpdateStruct` behind `Stat`.
  unfoldable pub update_from :
      System F T E
      → Bytes
      → Bytes
      → T
      → OsCollector F T
      → OsCollector F T × Outcome (OsError E) (Unit {0})
  update_from w path content t c =
      if path == c.os_filename && t == c.os_mtime
      then (c, ok tt)
      else set_release w (read_release w path content)
          (record c { os_filename = path; os_mtime = t })

  abbrev pub behind_stat :
      System F T E
      → Bytes
      → Bytes
      → OsCollector F T
      → Outcome (OsError E) T
      → OsCollector F T × Outcome (OsError E) (Unit {0})
  behind_stat w path content c (ok t) = update_from w path content t c
  behind_stat w path content c (err e) = (c, err e)
  behind_stat w path content c panic = (c, panic)

  abbrev pub behind_open :
      System F T E
      → Bytes
      → OsCollector F T
      → Outcome (OsError E) (ReleaseFile T E)
      → OsCollector F T × Outcome (OsError E) (Unit {0})
  behind_open w path c (ok file) = behind_stat w path file.content c file.stat
  behind_open w path c (err e) = (c, err e)
  behind_open w path c panic = (c, panic)

  -- `UpdateStruct`
  unfoldable pub update_struct :
      System F T E → Bytes → OsCollector F T → OsCollector F T × Outcome (OsError E) (Unit {0})
  update_struct w path c = behind_open w path c (w.open_file path)
