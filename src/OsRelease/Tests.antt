-- ===== src/OsRelease/Tests.antt =====
-- Concrete runs of the release collector.
use infra_pulse.Base.{
  ℕ, false, none, some, [], ◌∷◌, ◌≡◌, refl, nat_eq, list_eq, ◌==◌, leb, ltb, ◌-◌, ◌*◌, ok, err,
  if◌then◌else◌,
}
use infra_pulse.Base.Int.{pos, negsuc}
use infra_pulse.Base.Text.{Bytes, codes, has_prefix}
use infra_pulse.Base.Map.{Map, lookup}
use infra_pulse.Metric.{Float64, FloatOps}
use infra_pulse.OsRelease.{
  not_exist, other, ReleaseFile, System, OsCollector, new_os_collector, parse_os_release,
}
use infra_pulse.OsRelease.Load.{
  read_release, contains, major_minor, digits, number_from, set_release, set_version, update_from,
  update_struct,
}
use infra_pulse.OsRelease.Update.{OsUpdated, update, os_metrics, update_files, send_os}
use infra_pulse.OsRelease.Again.{update-forgets_error}
use infra_pulse.OsRelease.Twice.{update_again}

instance abbrev plain_counts : Float64 ℕ
plain_counts = record { from_uint = λ n. n; from_int = λ z. elim z [ pos n ↦ n | negsuc n ↦ 0 ] }

instance abbrev plain_ops : FloatOps ℕ
plain_ops = record {
  ge = λ a b. leb b a;
  gt = λ a b. ltb b a;
  sub = λ a b. a - b;
  mul = λ a b. a * b;
}

-- A parser that stops at its second line.
abbrev half_env : Map Bytes Bytes
half_env = (codes "NAME", codes "Debian") ∷ []

abbrev broken_file : ReleaseFile ℕ ℕ
broken_file = record { stat = ok 5; content = codes "NAME=Debian\n=" }

abbrev broken_system : System ℕ ℕ ℕ
broken_system = record {
  open_file = λ path. if path == codes "//etc/os-release" then ok broken_file else err not_exist;
  env_parse = λ content. (half_env, some 1);
  unmarshal = λ content. err 2;
  parse_float = λ text. (0, none);
  parse_date = λ text. (0, none);
  unix = λ t. t;
}

abbrev new_collector : OsCollector ℕ ℕ
new_collector = new_os_collector 0 0

new_filenames :
    new_collector.os_release_filenames
    ≡ codes "/etc/os-release"
      ∷ codes "/usr/lib/os-release"
      ∷ codes "/System/Library/CoreServices/SystemVersion.plist"
      ∷ []
unfolding new_os_collector
new_filenames = refl

broken_read :
    read_release broken_system (codes "//etc/os-release") broken_file.content
    ≡ ok (parse_os_release half_env, some 1)
unfolding read_release contains has_prefix
broken_read = refl

not_read : (codes "//etc/os-release" == new_collector.os_filename) ≡ false
unfolding new_os_collector
not_read = refl

major_minor_lem : major_minor (codes "22.04.1") ≡ codes "22.04"
unfolding major_minor number_from digits
major_minor_lem = refl

abbrev first_update : OsUpdated ℕ ℕ ℕ
first_update = update broken_system (codes "/") new_collector

update-forgets_error_example :
    (first_update.result ≡ err (other 1))
    × ((update broken_system (codes "/") first_update.collector).result ≡ ok tt)
    × ((update broken_system (codes "/") first_update.collector).sent
        ≡ os_metrics broken_system (parse_os_release half_env) first_update.collector)
unfolding new_os_collector
update-forgets_error_example =
    update-forgets_error broken_system (codes "/") (codes "/etc/os-release")
      (codes "/usr/lib/os-release" ∷ codes "/System/Library/CoreServices/SystemVersion.plist" ∷ [])
      broken_file 5 (parse_os_release half_env) 1 new_collector new_filenames refl refl broken_read
      refl

-- A file that is read to its end.
abbrev whole_env : Map Bytes Bytes
whole_env = (codes "NAME", codes "Debian") ∷ (codes "VERSION_ID", codes "12") ∷ []

abbrev whole_file : ReleaseFile ℕ ℕ
whole_file = record { stat = ok 6; content = codes "NAME=Debian" }

abbrev whole_system : System ℕ ℕ ℕ
whole_system = record {
  open_file = λ path. if path == codes "//usr/lib/os-release" then ok whole_file else err not_exist;
  env_parse = λ content. (whole_env, none);
  unmarshal = λ content. err 2;
  parse_float = λ text. (12, none);
  parse_date = λ text. (0, none);
  unix = λ t. t;
}

abbrev whole_update : OsUpdated ℕ ℕ ℕ
whole_update = update whole_system (codes "/") new_collector

whole_succeeded : whole_update.result ≡ ok tt
unfolding new_os_collector update update_files update_struct update_from set_release set_version
    send_os read_release contains has_prefix major_minor number_from digits parse_os_release lookup
whole_succeeded = refl

update_again_example : update whole_system (codes "/") whole_update.collector ≡ whole_update
update_again_example = update_again whole_system (codes "/") new_collector whole_succeeded
