-- ===== src/Sockstat/Tests.antt =====
-- Concrete runs of the socket statistics.
use infra_pulse.Base.{ℕ, String, false, none, some, [], ◌∷◌, ◌≡◌, refl, ok, err}
use infra_pulse.Base.Int.{pos, negsuc}
use infra_pulse.Base.Text.{codes}
use infra_pulse.Metric.{Float64}
use infra_pulse.Sockstat.{
  SockStat, SockMetric, not_exist, other, ipv6_failed, in_pages, send_pairs, send_sockets,
  update_stat, update,
}

instance abbrev socket_numbers : Float64 ℕ
socket_numbers = record { from_uint = λ n. n; from_int = λ z. elim z [ pos n ↦ n | negsuc n ↦ 0 ] }

abbrev tcp : SockStat
tcp = record {
  used = some (pos 9);
  protocols =
      record {
        protocol = codes "TCP";
        in_use = pos 4;
        orphan = none;
        tw = none;
        alloc = none;
        mem = some (pos 2);
        memory = none;
      }
      ∷ [];
}

abbrev number : SockMetric ℕ → ℕ
number m = m.value

-- Without IPv6 the metrics of IPv4 alone.
only_ipv4 :
    update {F = ℕ} {E = String} 4096 none (some tcp, none) (none, some not_exist)
    ≡ (update_stat 4096 (false) (some tcp), ok tt)
unfolding update update_stat send_sockets send_pairs
only_ipv4 = refl

failed_ipv6 :
    update {F = ℕ} {E = String} 4096 none (some tcp, none) (none, some (other "x"))
    ≡ ([], err (ipv6_failed "x"))
unfolding update
failed_ipv6 = refl

negative_pages : in_pages 4096 (negsuc 0) ≡ negsuc 4095
negative_pages = refl
