-- ===== src/Textfile/NilHelp.antt =====
-- A family without a help text behind two families of its name with different texts.
use infra_pulse.Base.{true, [], ◌∷◌, ◌≡◌, list_eq, nat_eq}
use infra_pulse.Base.Text.{has_suffix}
use infra_pulse.Textfile.{MetricFamily}
use infra_pulse.Textfile.Gather.{TextFile, process_file, prom_suffix}

module _ {F : Type 0} where
  -- A `.prom` file that holds one family.
  pub record Holds (f : TextFile F) (mf : MetricFamily F) : Type 0 where
    pub suffix : has_suffix f.name prom_suffix ≡ true
    pub families : (process_file f).families ≡ (mf.name, mf) ∷ []
