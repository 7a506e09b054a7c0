-- ===== src/OsRelease.antt =====
-- src/metrics/collector/os_release.go: the release of the operating system, cached by the name and the
-- modification time of its file. `Load` is `UpdateStruct`, `Update` is `Update`.
pub mod Load
pub mod Update
pub mod Again
pub mod Repeat
pub mod Twice
mod Tests
use infra_pulse.Base.{
  ℕ, String, Bool, true, false, ◌&&◌, ◌||◌, Option, none, some, List, [], ◌∷◌, ◌++◌, nat_eq,
  list_eq, ◌==◌, get_elem?, if◌then◌else◌, Outcome, ok, err, panic, ◌>>=◌, leb,
}
use infra_pulse.Base.Text.{Bytes, codes, has_prefix}
use infra_pulse.Base.Map.{Map, get_or}
use infra_pulse.Metric.{build, Desc}
use infra_pulse.Scrape.{namespace}

-- `osRelease`
pub record Release : Type 0 where
  pub name : Bytes
  pub id : Bytes
  pub id_like : Bytes
  pub pretty_name : Bytes
  pub variant : Bytes
  pub variant_id : Bytes
  pub version : Bytes
  pub version_id : Bytes
  pub version_codename : Bytes
  pub build_id : Bytes
  pub image_id : Bytes
  pub image_version : Bytes
  pub support_end : Bytes

-- The errors that `Update` tells apart: `os.ErrNotExist`, and `ErrNoData`, which it returns itself.
pub data OsError (E : Type 0) : Type 0 where
  not_exist no_data : OsError E
  other : E → OsError E

-- An opened file: what `Stat` and what reading it give.
pub record ReleaseFile (T E : Type 0) : Type 0 where
  pub stat : Outcome (OsError E) T
  pub content : Bytes

-- The file system, the parsers of other packages, and float64 and the times with their parsers; a
-- parser's value is assigned even when it returns an error.
pub record System (F T E : Type 0) : Type 0 where
  pub open_file : Bytes → Outcome (OsError E) (ReleaseFile T E)
  pub env_parse : Bytes → Map Bytes Bytes × Option E
  pub unmarshal : Bytes → Outcome E (List Bytes × List Bytes)
  pub parse_float : Bytes → F × Option E
  pub parse_date : Bytes → T × Option E
  pub unix : T → F

-- `osReleaseCollector`, without its descriptions, which do not vary, and the mutex.
pub record OsCollector (F T : Type 0) : Type 0 where
  pub os : Option Release
  pub os_filename : Bytes
  pub os_mtime : T
  pub os_release_filenames : List Bytes
  pub version : F
  pub support_end : T

-- `NewOSCollector`, by the zero values of float64 and of `time.Time`.
unfoldable pub new_os_collector : {F T : Type 0} → F → T → OsCollector F T
new_os_collector zero_float zero_time = record {
  os = none;
  os_filename = [];
  os_mtime = zero_time;
  os_release_filenames =
      codes "/etc/os-release"
      ∷ codes "/usr/lib/os-release"
      ∷ codes "/System/Library/CoreServices/SystemVersion.plist"
      ∷ [];
  version = zero_float;
  support_end = zero_time;
}

abbrev pub info_desc : Desc
info_desc = record {
  fq_name = build namespace "os" "info";
  help =
      "A metric with a constant '1' value labeled by build_id, id, id_like, image_id, image_version, name, pretty_name, variant, variant_id, version, version_codename, version_id.";
  label_names =
      "build_id" ∷ "id" ∷ "id_like" ∷ "image_id" ∷ "image_version" ∷ "name" ∷ "pretty_name"
      ∷ "variant" ∷ "variant_id" ∷ "version" ∷ "version_codename" ∷ "version_id" ∷ [];
}

abbrev pub version_desc : Desc
version_desc = record {
  fq_name = build namespace "os" "version";
  help = "Metric containing the major.minor part of the OS version.";
  label_names = "id" ∷ "id_like" ∷ "name" ∷ [];
}

abbrev pub support_end_desc : Desc
support_end_desc = record {
  fq_name = build namespace "os" "support_end_timestamp_seconds";
  help = "Metric containing the end-of-life date timestamp of the OS.";
  label_names = [];
}

abbrev value_of : String → Map Bytes Bytes → Bytes
value_of name env = get_or (codes name) [] env

-- `parseOSRelease`, from what `envparse.Parse` gives.
unfoldable pub parse_os_release : Map Bytes Bytes → Release
parse_os_release env = record {
  name = value_of "NAME" env;
  id = value_of "ID" env;
  id_like = value_of "ID_LIKE" env;
  pretty_name = value_of "PRETTY_NAME" env;
  variant = value_of "VARIANT" env;
  variant_id = value_of "VARIANT_ID" env;
  version = value_of "VERSION" env;
  version_id = value_of "VERSION_ID" env;
  version_codename = value_of "VERSION_CODENAME" env;
  build_id = value_of "BUILD_ID" env;
  image_id = value_of "IMAGE_ID" env;
  image_version = value_of "IMAGE_VERSION" env;
  support_end = value_of "SUPPORT_END" env;
}

abbrev pub empty_release : Release
empty_release = parse_os_release []

-- The variables of `getMacosProductVersion`.
pub record Product : Type 0 where
  pub version_id : Bytes
  pub version_name : Bytes
  pub build_id : Bytes

abbrev pub is_product_key : Bytes → Bool
is_product_key key =
    key == codes "ProductVersion"
    || key == codes "ProductName"
    || key == codes "ProductBuildVersion"

-- The cases of its switch.
abbrev pub set_product : Bytes → Bytes → Product → Product
set_product key value p =
    if key == codes "ProductVersion"
    then record p { version_id = value }
    else if key == codes "ProductName"
    then record p { version_name = value }
    else if key == codes "ProductBuildVersion"
    then record p { build_id = value }
    else p

-- Its loop over the keys and the strings behind the keys seen; an index that is out of range panics.
unfoldable pub product_loop : {E : Type 0} → List Bytes → List Bytes → Product → Outcome E Product
product_loop [] strings p = ok p
product_loop (key ∷ keys) [] p = if is_product_key key then panic else product_loop keys [] p
product_loop (key ∷ keys) (s ∷ strings) p = product_loop keys strings (set_product key s p)

abbrev pub release_of : Product → Release
release_of p = record empty_release {
  name = p.version_name;
  version = p.version_id;
  version_id = p.version_id;
  build_id = p.build_id;
}
