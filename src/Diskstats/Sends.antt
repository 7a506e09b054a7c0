-- ===== src/Diskstats/Sends.antt =====
-- What `diskstatsCollector.Update` sends.
use infra_pulse.Base.{
  ℕ, zero, suc, ◌-◌, String, Bool, true, false, subst, Option, List, [], ◌∷◌, ◌++◌, ◌≡◌, inl, inr,
  refl, sym, ap, ok-injective, arith, length, take, select, not, Bool-cases, Outcome, ok, err,
  panic, ◌>>=◌,
}
use infra_pulse.Base.Text.{Bytes, codes}
use infra_pulse.Metric.{Float64, FloatOps, build, ValueType, counter, gauge, ByteMetric}
use infra_pulse.Scrape.{namespace}
use infra_pulse.Netdev.{DeviceFilter, ignored}
use infra_pulse.Diskstats.{
  TypedFactorDesc, Disks, descs, DiskFlags, DiskError, collector_of, new_diskstats_device_filter,
  new_diskstats_collector,
}
use infra_pulse.Diskstats.Update.{
  DiskStats, device_metric, send_values, info_metric, disk_values, udev_of, udev_parts, send_device,
  send_devices, update,
}

-- Each value with the description of the same place.
abbrev pub paired : {F : Type 0} → List TypedFactorDesc → List F → Bytes → List (ByteMetric F)
paired [] vs dev = []
paired (d ∷ ds) [] dev = []
paired (d ∷ ds) (v ∷ vs) dev = device_metric d v dev ∷ paired ds vs dev

send_values-paired :
    {F E : Type 0} (n : ℕ) (ds : List TypedFactorDesc) (vs : List F) (dev : Bytes)
    → length ds ≡ length vs
    → send_values {E = E} n ds vs dev ≡ ok (take n (paired ds vs dev))
unfolding send_values
send_values-paired zero ds vs dev h = refl
send_values-paired (suc n) [] [] dev h = refl
send_values-paired (suc n) [] (v ∷ vs) dev h = absurd (omega (arith, h))
send_values-paired (suc n) (d ∷ ds) [] dev h = absurd (omega (arith, h))
send_values-paired {E = E} (suc n) (d ∷ ds) (v ∷ vs) dev h =
    rw (send_values-paired {E = E} n ds vs dev (omega (arith, h))) refl

collector_of-descs :
    (r : DiskFlags × Outcome DiskError DeviceFilter) (c : Disks)
    → (collector_of r).1 ≡ ok c
    → c.descs ≡ descs
collector_of-descs (v, ok f) c h = sym (ap (λ d. d.descs) (ok-injective h))
collector_of-descs (v, err e) c h = cc
collector_of-descs (v, panic) c h = cc

module _ {F : Type 0} ⦃fl : Float64 F⦄ ⦃ops : FloatOps F⦄ (seconds_per_tick : F)
    (parse_float : Bytes → Option F) (read : ℕ → ℕ → Option (List Bytes)) where
  -- The counters that a device's line has, which are three fewer than its fields.
  abbrev pub sent_counters : Disks → DiskStats → List (ByteMetric F)
  sent_counters c s =
      take (s.io_stats_count - 3)
        (paired c.descs (disk_values seconds_per_tick parse_float read s) (codes s.device_name))

  -- What a device is to be sent with: its information, its counters, and what udev says of it.
  abbrev pub device_metrics : Disks → DiskStats → List (ByteMetric F)
  device_metrics c s =
      info_metric s (codes s.device_name) (udev_of seconds_per_tick parse_float read s)
      ∷ (sent_counters c s ++ udev_parts seconds_per_tick parse_float read c s)

  abbrev pub all_device_metrics : Disks → List DiskStats → List (ByteMetric F)
  all_device_metrics c [] = []
  all_device_metrics c (s ∷ stats) = device_metrics c s ++ all_device_metrics c stats

  -- The counters of a device by the last part of their names, each with its type and its value: times
  -- are kept in milliseconds and sent in seconds, and the sectors of reads and writes have 512 bytes.
  abbrev pub disk_counters : DiskStats → List (String × (ValueType × F))
  disk_counters s =
      let plain : ℕ → F = λ n. fl.from_uint n in
      let bytes : ℕ → F = λ n. ops.mul (fl.from_uint n) (fl.from_uint 512) in
      let seconds : ℕ → F = λ n. ops.mul (fl.from_uint n) seconds_per_tick in
      ("reads_completed_total", (counter, plain s.read_ios))
      ∷ ("reads_merged_total", (counter, plain s.read_merges))
      ∷ ("read_bytes_total", (counter, bytes s.read_sectors))
      ∷ ("read_time_seconds_total", (counter, seconds s.read_ticks))
      ∷ ("writes_completed_total", (counter, plain s.write_ios))
      ∷ ("writes_merged_total", (counter, plain s.write_merges))
      ∷ ("written_bytes_total", (counter, bytes s.write_sectors))
      ∷ ("write_time_seconds_total", (counter, seconds s.write_ticks))
      ∷ ("io_now", (gauge, plain s.ios_in_progress))
      ∷ ("io_time_seconds_total", (counter, seconds s.ios_total_ticks))
      ∷ ("io_time_weighted_seconds_total", (counter, seconds s.weighted_io_ticks))
      ∷ ("discards_completed_total", (counter, plain s.discard_ios))
      ∷ ("discards_merged_total", (counter, plain s.discard_merges))
      ∷ ("discarded_sectors_total", (counter, plain s.discard_sectors))
      ∷ ("discard_time_seconds_total", (counter, seconds s.discard_ticks))
      ∷ ("flush_requests_total", (counter, plain s.flush_requests_completed))
      ∷ ("flush_requests_time_seconds_total", (counter, seconds s.time_spent_flushing))
      ∷ []

  -- A metric of a disk under one of these names, with the device as its only label.
  abbrev pub IsCounter : Bytes → ByteMetric F → String × (ValueType × F) → Type 0
  IsCounter dev m (name, (type, value)) = m ≡ record {
    desc = record {
      fq_name = build namespace "disk" name;
      help = m.desc.help;
      label_names = "device" ∷ [];
    };
    value_type = type;
    value = value;
    label_values = dev ∷ [];
  }

  abbrev pub AreCounters : Bytes → List (ByteMetric F) → List (String × (ValueType × F)) → Type 0
  AreCounters dev [] [] = Unit
  AreCounters dev [] (c ∷ cs) = true ≡ false
  AreCounters dev (m ∷ ms) [] = true ≡ false
  AreCounters dev (m ∷ ms) (c ∷ cs) = IsCounter dev m c × AreCounters dev ms cs

  send_device-paired :
      {E : Type 0} (c : Disks) (s : DiskStats)
      → length c.descs ≡ 17
      → send_device seconds_per_tick parse_float read {E = E} c s ≡ ok (device_metrics c s)
  unfolding send_device
  send_device-paired {E} c s h =
      let values = disk_values seconds_per_tick parse_float read s in
      ap
        (λ r. r >>= (λ vs. ok (
          info_metric s (codes s.device_name) (udev_of seconds_per_tick parse_float read s)
          ∷ (vs ++ udev_parts seconds_per_tick parse_float read c s))))
        (send_values-paired {E = E} (s.io_stats_count - 3) c.descs values (codes s.device_name) h)

  send_devices-select :
      {E : Type 0} (c : Disks) (stats : List DiskStats)
      → length c.descs ≡ 17
      → send_devices seconds_per_tick parse_float read {E = E} c stats
        ≡ ok
            (all_device_metrics c (select (λ s. not (ignored c.device_filter s.device_name)) stats))
  unfolding send_devices
  send_devices-select c [] h = refl
  send_devices-select {E} c (s ∷ stats) h =
      let rest = send_devices-select {E = E} c stats h in
      elim (Bool-cases (ignored c.device_filter s.device_name)) [
        | inl e ↦ rw (send_devices, e) rest
        | inr e ↦ rw (send_devices, e, send_device-paired {E = E} c s h, rest) refl
      ]

  AreCounters-take :
      (n : ℕ) (dev : Bytes) (ms : List (ByteMetric F)) (cs : List (String × (ValueType × F)))
      → AreCounters dev ms cs
      → AreCounters dev (take n ms) (take n cs)
  AreCounters-take zero dev ms cs h = tt
  AreCounters-take (suc n) dev [] [] h = tt
  AreCounters-take (suc n) dev [] (c ∷ cs) h = absurd cc
  AreCounters-take (suc n) dev (m ∷ ms) [] h = absurd cc
  AreCounters-take (suc n) dev (m ∷ ms) (c ∷ cs) h = (h.0, AreCounters-take n dev ms cs h.1)

  paired-AreCounters :
      (s : DiskStats)
      → AreCounters
          (codes s.device_name)
          (paired descs (disk_values seconds_per_tick parse_float read s) (codes s.device_name))
          (disk_counters s)
  paired-AreCounters s = (
    refl,
    (
      refl,
      (
        refl,
        (
          refl,
          (
            refl,
            (
              refl,
              (
                refl,
                (refl, (refl, (refl, (refl, (refl, (refl, (refl, (refl, (refl, (refl, tt)))))))))),
              ),
            ),
          ),
        ),
      ),
    ),
  )

  sent-AreCounters :
      (c : Disks) (s : DiskStats)
      → c.descs ≡ descs
      → AreCounters
          (codes s.device_name)
          (sent_counters c s)
          (take (s.io_stats_count - 3) (disk_counters s))
  sent-AreCounters c s d =
      AreCounters-take (s.io_stats_count - 3) (codes s.device_name) _ (disk_counters s) (
        subst
          (λ l.
            AreCounters (codes s.device_name)
              (paired l (disk_values seconds_per_tick parse_float read s) (codes s.device_name))
              (disk_counters s))
          (sym d) (paired-AreCounters s))

  -- `Update` of a collector that `NewDiskstatsCollector` returns sends for every device that the filter
  -- does not ignore, in order, the information, the counters of the device, and what udev says of it. The
  -- counters are as many as the device's line has: the completed and the merged reads and writes, the
  -- bytes and the seconds of each, the I/Os in progress, the time of all, and the same of discards and
  -- flushes, each under its own name, as a counter or a gauge, and labelled with the device. No index is
  -- out of range, however many fields a line has.
  pub update-paired :
      {E : Type 0} (compile : String → Option (String → Bool)) (v : DiskFlags) (c : Disks)
      (stats : List DiskStats)
      → (new_diskstats_collector true compile v).1 ≡ ok c
      → (update seconds_per_tick parse_float read {E = E} c (ok stats)
          ≡ ok (
              all_device_metrics c
                (select (λ s. not (ignored c.device_filter s.device_name)) stats)))
        × ((s : DiskStats)
            → AreCounters
                (codes s.device_name)
                (sent_counters c s)
                (take (s.io_stats_count - 3) (disk_counters s)))
  unfolding update new_diskstats_collector
  update-paired {E} compile v c stats h =
      let d : c.descs ≡ descs = collector_of-descs (new_diskstats_device_filter compile v) c h in
      (send_devices-select {E = E} c stats (ap length d), (λ s. sent-AreCounters c s d))
