-- ===== src/Diskstats/Update.antt =====
-- `diskstatsCollector.Update`.
use infra_pulse.Base.{
  ℕ, zero, suc, ◌-◌, String, true, false, Option, none, some, List, [], ◌∷◌, ◌++◌, nat_eq, list_eq,
  ◌==◌, if◌then◌else◌, Outcome, ok, panic, ◌>>=◌,
}
use infra_pulse.Base.Text.{Bytes, codes, format_uint}
use infra_pulse.Base.Map.{get_or, lookup}
use infra_pulse.Metric.{Float64, FloatOps, Desc, gauge, ByteMetric}
use infra_pulse.Netdev.{ignored}
use infra_pulse.Diskstats.{
  TypedFactorDesc, Disks, disk_info_desc, filesystem_info_desc, device_mapper_info_desc,
}
use infra_pulse.Diskstats.Udev.{UdevInfo, get_udev_device_properties}

-- `blockdevice.Diskstats`, with the fields of `Info` and `IOStats`.
pub record DiskStats : Type 0 where
  pub major_number : ℕ
  pub minor_number : ℕ
  pub device_name : String
  pub read_ios : ℕ
  pub read_merges : ℕ
  pub read_sectors : ℕ
  pub read_ticks : ℕ
  pub write_ios : ℕ
  pub write_merges : ℕ
  pub write_sectors : ℕ
  pub write_ticks : ℕ
  pub ios_in_progress : ℕ
  pub ios_total_ticks : ℕ
  pub weighted_io_ticks : ℕ
  pub discard_ios : ℕ
  pub discard_merges : ℕ
  pub discard_sectors : ℕ
  pub discard_ticks : ℕ
  pub flush_requests_completed : ℕ
  pub time_spent_flushing : ℕ
  pub io_stats_count : ℕ

-- An entry of a map that may be nil.
abbrev pub property : String → Option UdevInfo → Bytes
property name none = []
property name (some info) = get_or (codes name) [] info

-- `serial`
abbrev pub serial_of : Option UdevInfo → Bytes
serial_of info =
    if property "SCSI_IDENT_SERIAL" info == []
    then property "ID_SERIAL_SHORT" info
    else property "SCSI_IDENT_SERIAL" info

-- `mustNewConstMetric` of a description for the device alone.
abbrev pub device_metric : {F : Type 0} → TypedFactorDesc → F → Bytes → ByteMetric F
device_metric d v dev = record {
  desc = d.desc;
  value_type = d.value_type;
  value = v;
  label_values = dev ∷ [];
}

-- The loop over the values, of which the first `n` are sent. `descs` is indexed, so a missing
-- description panics.
unfoldable pub send_values :
    {F E : Type 0} → ℕ → List TypedFactorDesc → List F → Bytes → Outcome E (List (ByteMetric F))
send_values zero ds vs dev = ok []
send_values (suc n) ds [] dev = ok []
send_values (suc n) [] (v ∷ vs) dev = panic
send_values (suc n) (d ∷ ds) (v ∷ vs) dev = do
  rest ← send_values n ds vs dev
  ok (device_metric d v dev ∷ rest)

module _ {F : Type 0} ⦃fl : Float64 F⦄ where
  abbrev pub label_metric : Desc → List Bytes → ByteMetric F
  label_metric desc labels = record {
    desc = desc;
    value_type = gauge;
    value = fl.from_uint 1;
    label_values = labels;
  }

  abbrev pub info_metric : DiskStats → Bytes → Option UdevInfo → ByteMetric F
  info_metric s dev info = label_metric disk_info_desc (
      dev
      ∷ format_uint s.major_number
      ∷ format_uint s.minor_number
      ∷ property "ID_PATH" info
      ∷ property "ID_WWN" info
      ∷ property "ID_MODEL" info
      ∷ serial_of info
      ∷ property "ID_REVISION" info
      ∷ [])

  abbrev pub filesystem_part : Bytes → Option UdevInfo → List (ByteMetric F)
  filesystem_part dev info =
      if property "ID_FS_TYPE" info == []
      then []
      else label_metric filesystem_info_desc (
          dev
          ∷ property "ID_FS_TYPE" info
          ∷ property "ID_FS_USAGE" info
          ∷ property "ID_FS_UUID" info
          ∷ property "ID_FS_VERSION" info
          ∷ [])
        ∷ []

  abbrev pub mapper_part : Bytes → Option UdevInfo → List (ByteMetric F)
  mapper_part dev info =
      if property "DM_NAME" info == []
      then []
      else label_metric device_mapper_info_desc (
          dev
          ∷ property "DM_NAME" info
          ∷ property "DM_UUID" info
          ∷ property "DM_VG_NAME" info
          ∷ property "DM_LV_NAME" info
          ∷ property "DM_LV_LAYER" info
          ∷ [])
        ∷ []

-- The loop over `ataDescs`; `text` is the property, if there is one.
abbrev pub ata_metric :
    {F : Type 0} → (Bytes → Option F) → Bytes → Desc → Option Bytes → List (ByteMetric F)
ata_metric parse_float dev desc none = []
ata_metric parse_float dev desc (some text) = elim (parse_float text) [
  | none ↦ []
  | some v ↦ device_metric (record { desc = desc; value_type = gauge }) v dev ∷ []
]

abbrev pub udev_value : Bytes → Option UdevInfo → Option Bytes
udev_value attr none = none
udev_value attr (some info) = lookup attr info

abbrev pub send_ata :
    {F : Type 0}
    → (Bytes → Option F)
    → Bytes
    → Option UdevInfo
    → List (Bytes × Desc)
    → List (ByteMetric F)
send_ata parse_float dev info [] = []
send_ata parse_float dev info ((attr, desc) ∷ ata_descs) =
    ata_metric parse_float dev desc (udev_value attr info)
    ++ send_ata parse_float dev info ata_descs

abbrev pub ata_part :
    {F : Type 0}
    → (Bytes → Option F)
    → Bytes
    → Option UdevInfo
    → List (Bytes × Desc)
    → List (ByteMetric F)
ata_part parse_float dev info ata_descs =
    if property "ID_ATA" info == [] then [] else send_ata parse_float dev info ata_descs

-- `seconds_per_tick` is the constant 1.0 / 1000.0, and `read` the files of udev for a major and a minor
-- number.
module _ {F : Type 0} ⦃fl : Float64 F⦄ ⦃ops : FloatOps F⦄ (seconds_per_tick : F)
    (parse_float : Bytes → Option F) (read : ℕ → ℕ → Option (List Bytes)) where
  abbrev in_seconds : ℕ → F
  in_seconds ticks = ops.mul (fl.from_uint ticks) seconds_per_tick

  -- With `unixSectorSize`.
  abbrev in_bytes : ℕ → F
  in_bytes sectors = ops.mul (fl.from_uint sectors) (fl.from_uint 512)

  abbrev pub disk_values : DiskStats → List F
  disk_values s =
      fl.from_uint s.read_ios
      ∷ fl.from_uint s.read_merges
      ∷ in_bytes s.read_sectors
      ∷ in_seconds s.read_ticks
      ∷ fl.from_uint s.write_ios
      ∷ fl.from_uint s.write_merges
      ∷ in_bytes s.write_sectors
      ∷ in_seconds s.write_ticks
      ∷ fl.from_uint s.ios_in_progress
      ∷ in_seconds s.ios_total_ticks
      ∷ in_seconds s.weighted_io_ticks
      ∷ fl.from_uint s.discard_ios
      ∷ fl.from_uint s.discard_merges
      ∷ fl.from_uint s.discard_sectors
      ∷ in_seconds s.discard_ticks
      ∷ fl.from_uint s.flush_requests_completed
      ∷ in_seconds s.time_spent_flushing
      ∷ []

  abbrev pub udev_of : DiskStats → Option UdevInfo
  udev_of s = get_udev_device_properties (read s.major_number s.minor_number)

  -- What is sent behind the values of a device.
  abbrev pub udev_parts : Disks → DiskStats → List (ByteMetric F)
  udev_parts c s =
      let dev = codes s.device_name in
      filesystem_part dev (udev_of s)
      ++ mapper_part dev (udev_of s)
      ++ ata_part parse_float dev (udev_of s) c.ata_descs

  -- A round of the loop for a device that is not ignored.
  unfoldable pub send_device : {E : Type 0} → Disks → DiskStats → Outcome E (List (ByteMetric F))
  send_device c s = do
    values ← send_values (s.io_stats_count - 3) c.descs (disk_values s) (codes s.device_name)
    ok (info_metric s (codes s.device_name) (udev_of s) ∷ (values ++ udev_parts c s))

  unfoldable pub send_devices :
      {E : Type 0} → Disks → List DiskStats → Outcome E (List (ByteMetric F))
  send_devices c [] = ok []
  send_devices c (s ∷ stats) = elim (ignored c.device_filter s.device_name) [
    | true ↦ send_devices c stats
    | false ↦ do sent ← send_device c s; rest ← send_devices c stats; ok (sent ++ rest)
  ]

  -- `Update`, by what `ProcDiskstats` returns.
  unfoldable pub update :
      {E : Type 0} → Disks → Outcome E (List DiskStats) → Outcome E (List (ByteMetric F))
  update c disk_stats = do stats ← disk_stats; send_devices c stats
