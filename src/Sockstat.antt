-- ===== src/Sockstat.antt =====
-- src/metrics/collector/sockstat_linux.go: the sockets in use, for each protocol.
mod Memory
mod Tests
use infra_pulse.Base.{
  ℕ, suc, ◌-◌, ◌*◌, ◌%◌, ◌^◌, Bool, true, false, not, ◌&&◌, Option, none, some, List, [], ◌∷◌, ◌++◌,
  ltb, if◌then◌else◌, Outcome, ok, err, panic,
}
use infra_pulse.Base.Int.{ℤ, pos, negsuc}
use infra_pulse.Base.Text.{Bytes, codes}
use infra_pulse.Metric.{Float64}

-- `NetSockstatProtocol` of procfs.
pub record SockProtocol : Type 0 where
  pub protocol : Bytes
  pub in_use : ℤ
  pub orphan : Option ℤ
  pub tw : Option ℤ
  pub alloc : Option ℤ
  pub mem : Option ℤ
  pub memory : Option ℤ

-- `NetSockstat` of procfs.
pub record SockStat : Type 0 where
  pub used : Option ℤ
  pub protocols : List SockProtocol

-- A gauge without labels, by the last part of its name, its help text and its value.
pub record SockMetric (F : Type 0) : Type 0 where
  pub name : Bytes
  pub help : Bytes
  pub value : F

-- The integer of 64 bits.
abbrev pub of_bits : ℕ → ℤ
of_bits n = if ltb n (2 ^ 63) then pos n else negsuc (2 ^ 64 - 1 - n)

-- The product of an int with the size of a page, in 64 bits.
abbrev pub in_pages : ℕ → ℤ → ℤ
in_pages page_size (pos n) = of_bits ((n * page_size) % 2 ^ 64)
in_pages page_size (negsuc n) = of_bits ((2 ^ 64 - (suc n * page_size) % 2 ^ 64) % 2 ^ 64)

abbrev pub mem_bytes : ℕ → Option ℤ → List (Bytes × Option ℤ)
mem_bytes page_size none = []
mem_bytes page_size (some v) = (codes "mem_bytes", some (in_pages page_size v)) ∷ []

-- `pairs`
abbrev pub pairs : ℕ → SockProtocol → List (Bytes × Option ℤ)
pairs page_size p =
    ((codes "inuse", some p.in_use)
      ∷ (codes "orphan", p.orphan)
      ∷ (codes "tw", p.tw)
      ∷ (codes "alloc", p.alloc)
      ∷ (codes "mem", p.mem)
      ∷ (codes "memory", p.memory)
      ∷ [])
    ++ mem_bytes page_size p.mem

module _ {F : Type 0} ⦃fl : Float64 F⦄ where
  -- The metric of a pair that has a value.
  abbrev pub pair_metric : Bytes → Bytes → ℤ → SockMetric F
  pair_metric protocol name v = record {
    name = protocol ++ (b'_' ∷ name);
    help = codes "Number of " ++ protocol ++ codes " sockets in state " ++ name ++ codes ".";
    value = fl.from_int v;
  }

  -- The inner loop of `update`.
  unfoldable pub send_pairs : Bytes → List (Bytes × Option ℤ) → List (SockMetric F)
  send_pairs protocol [] = []
  send_pairs protocol ((name, none) ∷ ps) = send_pairs protocol ps
  send_pairs protocol ((name, some v) ∷ ps) = pair_metric protocol name v ∷ send_pairs protocol ps

  -- The outer loop.
  unfoldable pub send_sockets : ℕ → List SockProtocol → List (SockMetric F)
  send_sockets page_size [] = []
  send_sockets page_size (p ∷ ps) =
      send_pairs p.protocol (pairs page_size p) ++ send_sockets page_size ps

  abbrev pub send_used : Bool → Option ℤ → List (SockMetric F)
  send_used is_ipv6 none = []
  send_used true (some v) = []
  send_used false (some v) =
      record {
        name = codes "sockets_used";
        help = codes "Number of IPv4 sockets in use.";
        value = fl.from_int v;
      }
      ∷ []

  -- `update`
  unfoldable pub update_stat : ℕ → Bool → Option SockStat → List (SockMetric F)
  update_stat page_size is_ipv6 none = []
  update_stat page_size is_ipv6 (some s) =
      send_used is_ipv6 s.used ++ send_sockets page_size s.protocols

-- The errors of procfs that `Update` tells apart: `os.ErrNotExist` and the others.
pub data SockError (E : Type 0) : Type 0 where
  not_exist : SockError E
  other : E → SockError E

pub data SockUpdateError (E : Type 0) : Type 0 where
  no_procfs ipv4_failed ipv6_failed : E → SockUpdateError E

module _ {E : Type 0} where
  -- A switch of `Update`: the error that ends the call, if there is one.
  abbrev pub ends : Option (SockError E) → Option E
  ends none = none
  ends (some not_exist) = none
  ends (some (other e)) = some e

module _ {F E : Type 0} ⦃fl : Float64 F⦄ (page_size : ℕ) where
  -- `Update` behind the first switch.
  abbrev pub behind_ipv4 :
      Option SockStat
      → Option SockStat × Option (SockError E)
      → List (SockMetric F) × Outcome (SockUpdateError E) (Unit {0})
  behind_ipv4 stat4 (stat6, error) = elim (ends error) [
    | some e ↦ ([], err (ipv6_failed e))
    | none ↦ (update_stat page_size false stat4 ++ update_stat page_size true stat6, ok tt)
  ]

  -- `Update`, by what `NewFS`, `NetSockstat` and `NetSockstat6` give: an error, and a statistic with an
  -- error each.
  unfoldable pub update :
      Option E
      → Option SockStat × Option (SockError E)
      → Option SockStat × Option (SockError E)
      → List (SockMetric F) × Outcome (SockUpdateError E) (Unit {0})
  update (some e) ipv4 ipv6 = ([], err (no_procfs e))
  update none (stat4, error) ipv6 = elim (ends error) [
    | some e ↦ ([], err (ipv4_failed e))
    | none ↦ behind_ipv4 stat4 ipv6
  ]
