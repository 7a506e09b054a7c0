-- ===== src/NetStats.antt =====
-- src/metrics/collector/netstat_linux.go: the protocol statistics of /proc/net/netstat, snmp and snmp6.
-- `Update` merges them and sends.
pub mod Update
pub mod Parse
pub mod Merged
mod Tests
use infra_pulse.Base.{
  ℕ, zero, suc, ◌+◌, ◌-◌, Bool, true, false, Option, none, some, List, [], ◌∷◌, ltb, length, get_or,
  take, drop, nat_eq, list_eq, ◌==◌, if◌then◌else◌, Outcome, ok, err, panic, ◌>>=◌,
}
use infra_pulse.Base.Text.{Bytes, split, fields, index}
use infra_pulse.Base.Map.{Map, insert, has, get_or as value_or}

-- The statistics of each protocol, as text.
abbrev pub NetStats : Type 0
NetStats = Map Bytes (Map Bytes Bytes)

pub data NetStatsError : Type 0 where
  mismatch : Bytes → NetStatsError
  scan_failed : Bytes → NetStatsError

-- The inner loop of `parseNetStats`, over names and values of the same number.
unfoldable pub fill : List Bytes → List Bytes → Map Bytes Bytes → Map Bytes Bytes
fill [] values stats = stats
fill (name ∷ names) [] stats = stats
fill (name ∷ names) (value ∷ values) stats = fill names values (insert name value stats)

-- A round of `parseNetStats` for a protocol whose name has been read.
abbrev pub add_protocol :
    Bytes → List Bytes → List Bytes → NetStats → Outcome NetStatsError NetStats
add_protocol protocol name_parts value_parts stats =
    if length name_parts == length value_parts
    then ok (insert protocol (fill (drop 1 name_parts) (drop 1 value_parts) []) stats)
    else err (mismatch protocol)

-- A round of `parseNetStats`: the last byte of the first name is cut, which panics if there is none.
unfoldable pub add_pair : Bytes → Bytes → NetStats → Outcome NetStatsError NetStats
add_pair names values stats =
    let name_parts = split b' ' names in
    let value_parts = split b' ' values in
    let first = get_or name_parts 0 [] in
    if first == []
    then panic
    else add_protocol (take (length first - 1) first) name_parts value_parts stats

-- The loop of `parseNetStats`; at the end of the text the second `Scan` leaves the empty line.
unfoldable pub parse_pairs : List Bytes → NetStats → Outcome NetStatsError NetStats
parse_pairs [] stats = ok stats
parse_pairs (names ∷ []) stats = add_pair names [] stats
parse_pairs (names ∷ values ∷ lines) stats = do
  more ← add_pair names values stats
  parse_pairs lines more

-- The return of both parsers: the scanner's error goes along, and the callers drop the map then.
abbrev pub scanned : Option Bytes → NetStats → Outcome NetStatsError NetStats
scanned none stats = ok stats
scanned (some e) stats = err (scan_failed e)

-- `parseNetStats`, by the lines and the error that the scanner gives.
unfoldable pub parse_net_stats : List Bytes → Option Bytes → Outcome NetStatsError NetStats
parse_net_stats lines error = do stats ← parse_pairs lines []; scanned error stats

-- A line of snmp6 whose name has a 6 at `i`.
abbrev pub add_six : ℕ → Bytes → Bytes → NetStats → NetStats
add_six i name value stats =
    let protocol = take (suc i) name in
    insert protocol (insert (drop (suc i) name) value (value_or protocol [] stats)) stats

-- A round of `parseSNMP6Stats`.
unfoldable pub add_line : Bytes → NetStats → NetStats
add_line line stats =
    let stat = fields line in
    if ltb (length stat) 2 then stats else elim (index b'6' (get_or stat 0 [])) [
      | none ↦ stats
      | some i ↦ add_six i (get_or stat 0 []) (get_or stat 1 []) stats
    ]

unfoldable pub add_lines : List Bytes → NetStats → NetStats
add_lines [] stats = stats
add_lines (line ∷ lines) stats = add_lines lines (add_line line stats)

-- `parseSNMP6Stats`
unfoldable pub parse_snmp6_stats : List Bytes → Option Bytes → Outcome NetStatsError NetStats
parse_snmp6_stats lines error = scanned error (add_lines lines [])
