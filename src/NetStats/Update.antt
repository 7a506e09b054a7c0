-- ===== src/NetStats/Update.antt =====
-- `getNetStats`, `getSNMP6Stats` and `netStatCollector.Update`.
use infra_pulse.Base.{
  Bool, Option, none, some, List, [], ◌∷◌, ◌++◌, nat_eq, list_eq, if◌then◌else◌, Outcome, ok, err,
  panic, ◌>>=◌,
}
use infra_pulse.Base.Text.{Bytes, codes}
use infra_pulse.Base.Map.{Map, insert}
use infra_pulse.NetStats.{NetStats, NetStatsError, parse_net_stats, parse_snmp6_stats}

-- A file, as `os.Open` and a scanner give it; the text of an error of `Open`, or that there is no file.
pub data Source : Type 0 where
  missing : Source
  unopened : Bytes → Source
  text : List Bytes → Option Bytes → Source

-- The errors of `Update`.
pub data UpdateError : Type 0 where
  no_file : UpdateError
  not_opened : Bytes → UpdateError
  not_parsed : NetStatsError → UpdateError
  invalid_value : Bytes → UpdateError

abbrev pub parsed : Outcome NetStatsError NetStats → Outcome UpdateError NetStats
parsed (ok stats) = ok stats
parsed (err e) = err (not_parsed e)
parsed panic = panic

-- `getNetStats`
unfoldable pub get_net_stats : Source → Outcome UpdateError NetStats
get_net_stats missing = err no_file
get_net_stats (unopened e) = err (not_opened e)
get_net_stats (text lines error) = parsed (parse_net_stats lines error)

-- `getSNMP6Stats`: nothing if there is no file.
unfoldable pub get_snmp6_stats : Source → Outcome UpdateError NetStats
get_snmp6_stats missing = ok []
get_snmp6_stats (unopened e) = err (not_opened e)
get_snmp6_stats (text lines error) = parsed (parse_snmp6_stats lines error)

-- The loops that merge: the statistics of a protocol replace those that are there.
unfoldable pub merge_into : NetStats → NetStats → NetStats
merge_into [] stats = stats
merge_into ((protocol, values) ∷ more) stats = merge_into more (insert protocol values stats)

-- The merged statistics of the three files, or the first error.
unfoldable pub merged : Source → Source → Source → Outcome UpdateError NetStats
merged netstat snmp snmp6 = do
  net_stats ← get_net_stats netstat
  snmp_stats ← get_net_stats snmp
  snmp6_stats ← get_snmp6_stats snmp6
  ok (merge_into snmp6_stats (merge_into snmp_stats net_stats))

-- An untyped metric of `Update`, under its name and the two parts of its help text.
pub record NetStatMetric (F : Type 0) : Type 0 where
  pub key : Bytes
  pub help : Bytes
  pub value : F

module _ {F : Type 0} (parse_float : Bytes → Option F) (matches : Bytes → Bool) where
  -- The inner loop of `Update`: a value that is no number ends it, even one that is not wanted.
  unfoldable pub send_values :
      Bytes → Map Bytes Bytes → List (NetStatMetric F) × Outcome UpdateError (Unit {0})
  send_values protocol [] = ([], ok tt)
  send_values protocol ((name, value) ∷ values) = elim (parse_float value) [
    | none ↦ ([], err (invalid_value value))
    | some v ↦
        let key = protocol ++ (b'_' ∷ name) in
        let (sent, result) = send_values protocol values in
        if matches key
        then (
          record {
            key = key;
            help = codes "Statistic " ++ protocol ++ name ++ codes ".";
            value = v;
          }
              ∷ sent,
          result,
        )
        else (sent, result)
  ]

  -- What follows a round of the outer loop.
  abbrev pub after_protocol :
      List (NetStatMetric F) × Outcome UpdateError (Unit {0})
      → List (NetStatMetric F) × Outcome UpdateError (Unit {0})
      → List (NetStatMetric F) × Outcome UpdateError (Unit {0})
  after_protocol (sent, ok _) (later, result) = (sent ++ later, result)
  after_protocol (sent, err e) rest = (sent, err e)
  after_protocol (sent, panic) rest = (sent, panic)

  unfoldable pub send_protocols : NetStats → List (NetStatMetric F) × Outcome UpdateError (Unit {0})
  send_protocols [] = ([], ok tt)
  send_protocols ((protocol, values) ∷ stats) =
      after_protocol (send_values protocol values) (send_protocols stats)

  -- `Update`
  unfoldable pub update :
      Source → Source → Source → List (NetStatMetric F) × Outcome UpdateError (Unit {0})
  update netstat snmp snmp6 = elim (merged netstat snmp snmp6) [
    | ok stats ↦ send_protocols stats
    | err e ↦ ([], err e)
    | panic ↦ ([], panic)
  ]
