-- ===== src/Filesystem/Update.antt =====
-- `filesystemCollector.Update` and the descriptions that `NewFilesystemCollector` makes.
use infra_pulse.Base.{
  String, Bool, true, false, List, [], ◌∷◌, ◌++◌, if◌then◌else◌, Outcome, ok, err, panic,
}
use infra_pulse.Base.Map.{Map, insert, get_or}
use infra_pulse.Metric.{Float64, FloatOps, build, Desc, gauge, ByteMetric}
use infra_pulse.Scrape.{namespace}
use infra_pulse.Filesystem.{Labels, Stats, labels_eq}

abbrev pub filesystem_label_names : List String
filesystem_label_names = "device" ∷ "mountpoint" ∷ "fstype" ∷ "device_error" ∷ []

abbrev filesystem_desc : String → String → Desc
filesystem_desc name help = record {
  fq_name = build namespace "filesystem" name;
  help = help;
  label_names = filesystem_label_names;
}

abbrev pub size_desc : Desc
size_desc = filesystem_desc "size_bytes" "Filesystem size in bytes."

abbrev pub free_desc : Desc
free_desc = filesystem_desc "free_bytes" "Filesystem free space in bytes."

abbrev pub avail_desc : Desc
avail_desc = filesystem_desc "avail_bytes" "Filesystem space available to non-root users in bytes."

abbrev pub files_desc : Desc
files_desc = filesystem_desc "files" "Filesystem total file nodes."

abbrev pub files_free_desc : Desc
files_free_desc = filesystem_desc "files_free" "Filesystem total free file nodes."

abbrev pub ro_desc : Desc
ro_desc = filesystem_desc "readonly" "Filesystem read-only status."

abbrev pub device_error_desc : Desc
device_error_desc =
    filesystem_desc "device_error"
      "Whether an error occurred while getting statistics for the given device."

abbrev pub stat_metric : {F : Type 0} → Desc → F → Labels → ByteMetric F
stat_metric desc value labels = record {
  desc = desc;
  value_type = gauge;
  value = value;
  label_values = labels.device ∷ labels.mount_point ∷ labels.fs_type ∷ labels.device_error ∷ [];
}

module _ {F : Type 0} ⦃fl : Float64 F⦄ ⦃ops : FloatOps F⦄ where
  -- What `Update` sends for statistics that it has not seen.
  unfoldable pub stat_metrics : Stats F → List (ByteMetric F)
  stat_metrics s =
      stat_metric device_error_desc s.device_error s.labels
      ∷ stat_metric ro_desc s.ro s.labels
      ∷ (if ops.gt s.device_error (fl.from_uint 0)
          then []
          else stat_metric size_desc s.size s.labels
            ∷ stat_metric free_desc s.free s.labels
            ∷ stat_metric avail_desc s.avail s.labels
            ∷ stat_metric files_desc s.files s.labels
            ∷ stat_metric files_free_desc s.files_free s.labels
            ∷ [])

  -- The loop of `Update`.
  unfoldable pub send_stats : Map Labels Bool → List (Stats F) → List (ByteMetric F)
  send_stats seen [] = []
  send_stats seen (s ∷ stats) = elim (get_or s.labels false seen) [
    | true ↦ send_stats seen stats
    | false ↦ stat_metrics s ++ send_stats (insert s.labels true seen) stats
  ]

  -- `Update`, by what `GetStats` returns: the metrics sent, and the result.
  unfoldable pub update :
      {E : Type 0} → Outcome E (List (Stats F)) → List (ByteMetric F) × Outcome E (Unit {0})
  update (ok stats) = (send_stats [] stats, ok tt)
  update (err e) = ([], err e)
  update panic = ([], panic)
