-- ===== src/Softnet/Sends.antt =====
-- What is sent under each name.
use infra_pulse.Base.{
  ℕ, String, Bool, false, List, [], ◌∷◌, ◌≡◌, refl, string_eq, ◌==◌, All, if◌then◌else◌, ok,
}
use infra_pulse.Base.Text.{Bytes, format_uint}
use infra_pulse.Metric.{Float64, build, whole, ByteMetric}
use infra_pulse.Softnet.{SoftnetStat, send_softnet, update}

-- The names with the field that each stands for.
abbrev pub softnet_fields : List (String × (SoftnetStat → ℕ))
softnet_fields =
    ("processed_total", (λ s. s.processed))
    ∷ ("dropped_total", (λ s. s.dropped))
    ∷ ("times_squeezed_total", (λ s. s.time_squeezed))
    ∷ ("cpu_collision_total", (λ s. s.cpu_collision))
    ∷ ("received_rps_total", (λ s. s.received_rps))
    ∷ ("flow_limit_count_total", (λ s. s.flow_limit_count))
    ∷ ("backlog_len", (λ s. s.softnet_backlog_len))
    ∷ []

module _ {F : Type 0} where
  abbrev pub is_named : String → ByteMetric F → Bool
  is_named name m = elim m.desc.fq_name [ build space subsystem n ↦ n == name | whole n ↦ false ]

  -- The values sent under a name, with their labels.
  abbrev pub sent_as : String → List (ByteMetric F) → List (F × List Bytes)
  sent_as name [] = []
  sent_as name (m ∷ ms) =
      if is_named name m then (m.value, m.label_values) ∷ sent_as name ms else sent_as name ms

module _ {F : Type 0} ⦃fl : Float64 F⦄ where
  abbrev pub field_values : (SoftnetStat → ℕ) → List SoftnetStat → List (F × List Bytes)
  field_values field [] = []
  field_values field (s ∷ stats) =
      (fl.from_uint (field s), format_uint s.index ∷ []) ∷ field_values field stats

  -- Under each of its names `Update` sends the field of that name, once for each processor, in order and
  -- labelled with the processor's number.
  pub update-fields :
      (E : Type 0) (stats : List SoftnetStat)
      → All
          (λ f. sent_as f.0 (update {F = F} {E = E} (ok stats)).0 ≡ field_values f.1 stats)
          softnet_fields
  unfolding update send_softnet
  update-fields E [] = (refl, (refl, (refl, (refl, (refl, (refl, (refl, tt)))))))
  update-fields E (s ∷ stats) =
      let (a, (b, (c, (d, (e, (f, (g, u))))))) = update-fields E stats in
      (rw a refl, (rw b refl, (rw c refl, (rw d refl, (rw e refl, (rw f refl, (rw g refl, tt)))))))
