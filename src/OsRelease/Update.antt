-- ===== src/OsRelease/Update.antt =====
-- `osReleaseCollector.Update`.
use infra_pulse.Base.{
  Bool, true, false, none, some, List, [], ◌∷◌, ◌++◌, nat_eq, list_eq, Eq, ◌==◌, if◌then◌else◌,
  Outcome, ok, err, panic,
}
use infra_pulse.Base.Text.{Bytes}
use infra_pulse.Metric.{Float64, FloatOps, gauge, ByteMetric}
use infra_pulse.OsRelease.{
  Release, OsError, not_exist, no_data, other, System, OsCollector, info_desc, version_desc,
  support_end_desc,
}
use infra_pulse.OsRelease.Load.{update_struct}

-- The metrics sent, the collector behind the call, and the result.
pub record OsUpdated (F T E : Type 0) : Type 0 where
  pub sent : List (ByteMetric F)
  pub collector : OsCollector F T
  pub result : Outcome (OsError E) (Unit {0})

abbrev pub is_empty : List Bytes → Bool
is_empty [] = true
is_empty (p ∷ ps) = false

module _ {F T E : Type 0} where
  -- What follows a call of `UpdateStruct` in the loop, where `rest` is the loop over the other files and
  -- `last` tells that there are none.
  abbrev pub next_file :
      Bool
      → (OsCollector F T → OsCollector F T × Outcome (OsError E) (Unit {0}))
      → OsCollector F T × Outcome (OsError E) (Unit {0})
      → OsCollector F T × Outcome (OsError E) (Unit {0})
  next_file last rest (c, ok _) = (c, ok tt)
  next_file last rest (c, err not_exist) = if last then (c, err no_data) else rest c
  next_file last rest (c, err no_data) = (c, err no_data)
  next_file last rest (c, err (other e)) = (c, err (other e))
  next_file last rest (c, panic) = (c, panic)

module _ {F T E : Type 0} ⦃fl : Float64 F⦄ ⦃te : Eq T⦄ where
  -- The loop of `Update` over the names of files.
  unfoldable pub update_files :
      System F T E
      → Bytes
      → List Bytes
      → OsCollector F T
      → OsCollector F T × Outcome (OsError E) (Unit {0})
  update_files w rootfs_path [] c = (c, ok tt)
  update_files w rootfs_path (path ∷ paths) c =
      next_file (is_empty paths) (λ d. update_files w rootfs_path paths d)
        (update_struct w (rootfs_path ++ path) c)

module _ {F T E : Type 0} ⦃fl : Float64 F⦄ ⦃ops : FloatOps F⦄ where
  abbrev pub os_metrics : System F T E → Release → OsCollector F T → List (ByteMetric F)
  os_metrics w os c =
      record {
        desc = info_desc;
        value_type = gauge;
        value = fl.from_uint 1;
        label_values =
            os.build_id ∷ os.id ∷ os.id_like ∷ os.image_id ∷ os.image_version ∷ os.name
            ∷ os.pretty_name ∷ os.variant ∷ os.variant_id ∷ os.version ∷ os.version_codename
            ∷ os.version_id ∷ [];
      }
      ∷ ((if ops.gt c.version (fl.from_uint 0)
            then record {
              desc = version_desc;
              value_type = gauge;
              value = c.version;
              label_values = os.id ∷ os.id_like ∷ os.name ∷ [];
            }
              ∷ []
            else [])
          ++ (if os.support_end == []
              then []
              else record {
                desc = support_end_desc;
                value_type = gauge;
                value = w.unix c.support_end;
                label_values = [];
              }
                ∷ []))

  -- The end of `Update`; a nil `os` panics.
  unfoldable pub send_os :
      System F T E → OsCollector F T × Outcome (OsError E) (Unit {0}) → OsUpdated F T E
  send_os w (c, ok _) = elim c.os [
    | none ↦ record { sent = []; collector = c; result = panic }
    | some os ↦ record { sent = os_metrics w os c; collector = c; result = ok tt }
  ]
  send_os w (c, err e) = record { sent = []; collector = c; result = err e }
  send_os w (c, panic) = record { sent = []; collector = c; result = panic }

module _ {F T E : Type 0} ⦃fl : Float64 F⦄ ⦃ops : FloatOps F⦄ ⦃te : Eq T⦄ where
  -- `Update`
  unfoldable pub update : System F T E → Bytes → OsCollector F T → OsUpdated F T E
  update w rootfs_path c = send_os w (update_files w rootfs_path c.os_release_filenames c)
