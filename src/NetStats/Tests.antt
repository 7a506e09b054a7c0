-- ===== src/NetStats/Tests.antt =====
-- Concrete runs of the protocol statistics.
use infra_pulse.Base.{none, List, [], ◌∷◌, ◌≡◌, refl, nat_eq, list_eq, ok, panic}
use infra_pulse.Base.Text.{Bytes, codes, split, index, fields_from, is_space}
use infra_pulse.Base.Map.{Map, lookup, insert, IsMap}
use infra_pulse.NetStats.{
  NetStats, add_pair, parse_pairs, parse_net_stats, add_line, add_lines, parse_snmp6_stats,
}
use infra_pulse.NetStats.Update.{text, get_net_stats, get_snmp6_stats}
use infra_pulse.NetStats.Parse.{IsProtocol, print_stats, parse_net_stats-print}

abbrev tcp : Map Bytes Bytes
tcp = (codes "InSegs", codes "12") ∷ (codes "OutSegs", codes "7") ∷ []

abbrev ip : Map Bytes Bytes
ip = (codes "Forwarding", codes "1") ∷ []

abbrev tables : NetStats
tables = (codes "Ip", ip) ∷ (codes "Tcp", tcp) ∷ []

tables-IsMap : IsMap tables
unfolding lookup
tables-IsMap = (refl, (refl, tt))

ip-IsProtocol : IsProtocol (codes "Ip", ip)
unfolding lookup
ip-IsProtocol = record {
  protocol = refl;
  names = (refl, tt);
  values = (refl, tt);
  distinct = (refl, tt);
}

tcp-IsProtocol : IsProtocol (codes "Tcp", tcp)
unfolding lookup
tcp-IsProtocol = record {
  protocol = refl;
  names = (refl, (refl, tt));
  values = (refl, (refl, tt));
  distinct = (refl, (refl, tt));
}

printed :
    print_stats tables
    ≡ codes "Ip: Forwarding" ∷ codes "Ip: 1" ∷ codes "Tcp: InSegs OutSegs" ∷ codes "Tcp: 12 7" ∷ []
printed = refl

parse_net_stats-print_example : parse_net_stats (print_stats tables) none ≡ ok tables
parse_net_stats-print_example =
    parse_net_stats-print tables (ip-IsProtocol, (tcp-IsProtocol, tt)) tables-IsMap

-- An empty line in front of the values of a protocol makes the parser panic.
empty_line : parse_net_stats (codes "" ∷ codes "Ip: 1" ∷ []) none ≡ panic
unfolding parse_net_stats parse_pairs add_pair split
empty_line = refl

abbrev snmp6_lines : List Bytes
snmp6_lines = codes "Ip6InReceives 5" ∷ codes "Icmp6InMsgs 2" ∷ []

abbrev six : NetStats
six =
    (codes "Ip6", (codes "InReceives", codes "5") ∷ [])
    ∷ (codes "Icmp6", (codes "InMsgs", codes "2") ∷ [])
    ∷ []

six_read : get_snmp6_stats (text snmp6_lines none) ≡ ok six
unfolding get_snmp6_stats parse_snmp6_stats add_lines add_line fields_from is_space index insert
    lookup
six_read = refl

tables_read : get_net_stats (text (print_stats tables) none) ≡ ok tables
unfolding get_net_stats
tables_read =
    rw (parse_net_stats-print tables (ip-IsProtocol, (tcp-IsProtocol, tt)) tables-IsMap) refl
