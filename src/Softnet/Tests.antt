-- ===== src/Softnet/Tests.antt =====
-- A concrete run of the receive queue collector.
use infra_pulse.Base.{ℕ, String, [], ◌∷◌, ◌≡◌, refl, ok}
use infra_pulse.Base.Int.{pos, negsuc}
use infra_pulse.Base.Text.{codes, format_from}
use infra_pulse.Metric.{Float64}
use infra_pulse.Softnet.{SoftnetStat, send_softnet, update}
use infra_pulse.Softnet.Sends.{sent_as}

instance abbrev queue_numbers : Float64 ℕ
queue_numbers = record { from_uint = λ n. n; from_int = λ z. elim z [ pos n ↦ n | negsuc n ↦ 0 ] }

abbrev queue : SoftnetStat
queue = record {
  index = 12;
  processed = 1;
  dropped = 2;
  time_squeezed = 3;
  cpu_collision = 4;
  received_rps = 5;
  flow_limit_count = 6;
  softnet_backlog_len = 7;
}

squeezed :
    sent_as "times_squeezed_total" (update {F = ℕ} {E = String} (ok (queue ∷ []))).0
    ≡ (3, codes "12" ∷ []) ∷ []
unfolding update send_softnet format_from
squeezed = refl
