-- ===== src/NetStats/Merged.antt =====
-- Which of the three files `netStatCollector.Update` takes a protocol from.
use infra_pulse.Base.{
  Option, none, some, List, [], ◌∷◌, ◌≡◌, inl, inr, refl, subst, arith, nat_eq, Option-cases,
  list_eq, ◌==◌, ==_iff, Bool-cases, Outcome, ok, err, panic, ltb, length, get_or, or_else, ◌>>=◌,
}
use infra_pulse.Base.Text.{Bytes, fields, split, index}
use infra_pulse.Base.Map.{
  Map, lookup, insert, IsMap, lookup-insert, lookup-cons, lookup-nil, insert-IsMap,
}
use infra_pulse.NetStats.{
  NetStats, NetStatsError, add_protocol, add_pair, parse_pairs, scanned, parse_net_stats, add_line,
  add_lines, parse_snmp6_stats,
}
use infra_pulse.NetStats.Update.{
  Source, missing, unopened, text, parsed, get_net_stats, get_snmp6_stats, merge_into, merged,
}

-- The statistics, if there are any, have one entry for each protocol.
abbrev AreMaps : {E : Type 0} → Outcome E NetStats → Type 0
AreMaps (ok stats) = IsMap stats
AreMaps (err e) = Unit
AreMaps panic = Unit

add_protocol-AreMaps :
    (protocol : Bytes) (names values : List Bytes) (stats : NetStats)
    → IsMap stats
    → AreMaps (add_protocol protocol names values stats)
add_protocol-AreMaps protocol names values stats d =
    elim (Bool-cases (length names == length values)) [
      | inl e ↦ rw e (insert-IsMap protocol _ stats d)
      | inr e ↦ rw e tt
    ]

add_pair-AreMaps :
    (names values : Bytes) (stats : NetStats) → IsMap stats → AreMaps (add_pair names values stats)
unfolding add_pair
add_pair-AreMaps names values stats d =
    let first = get_or (split b' ' names) 0 [] in
    elim (Bool-cases (first == [])) [
      | inl e ↦ rw e tt
      | inr e ↦ rw e (add_protocol-AreMaps _ (split b' ' names) (split b' ' values) stats d)
    ]

bind-AreMaps :
    {E : Type 0} (r : Outcome E NetStats) (next : NetStats → Outcome E NetStats)
    → AreMaps r
    → ((stats : NetStats) → IsMap stats → AreMaps (next stats))
    → AreMaps (r >>= next)
bind-AreMaps (ok stats) next h f = f stats h
bind-AreMaps (err e) next h f = tt
bind-AreMaps panic next h f = tt

parse_pairs-AreMaps :
    (lines : List Bytes) (stats : NetStats) → IsMap stats → AreMaps (parse_pairs lines stats)
unfolding parse_pairs
parse_pairs-AreMaps [] stats d = d
parse_pairs-AreMaps (names ∷ []) stats d = add_pair-AreMaps names [] stats d
parse_pairs-AreMaps (names ∷ values ∷ lines) stats d =
    bind-AreMaps (add_pair names values stats) (λ more. parse_pairs lines more)
      (add_pair-AreMaps names values stats d) (λ more h. parse_pairs-AreMaps lines more h)

scanned-AreMaps :
    (error : Option Bytes) (stats : NetStats) → IsMap stats → AreMaps (scanned error stats)
scanned-AreMaps none stats d = d
scanned-AreMaps (some e) stats d = tt

add_line-IsMap : (line : Bytes) (stats : NetStats) → IsMap stats → IsMap (add_line line stats)
unfolding add_line
add_line-IsMap line stats d =
    let stat = fields line in
    elim (Bool-cases (ltb (length stat) 2)) [
      | inl e ↦ rw e d
      | inr e ↦ elim (Option-cases (index b'6' (get_or stat 0 []))) [
        | inl n ↦ rw (e, n) d
        | inr (i, s) ↦ rw (e, s) (insert-IsMap _ _ stats d)
      ]
    ]

add_lines-IsMap :
    (lines : List Bytes) (stats : NetStats) → IsMap stats → IsMap (add_lines lines stats)
unfolding add_lines
add_lines-IsMap [] stats d = d
add_lines-IsMap (line ∷ lines) stats d =
    add_lines-IsMap lines (add_line line stats) (add_line-IsMap line stats d)

parsed-AreMaps : (r : Outcome NetStatsError NetStats) → AreMaps r → AreMaps (parsed r)
parsed-AreMaps (ok stats) h = h
parsed-AreMaps (err e) h = tt
parsed-AreMaps panic h = tt

get_net_stats-AreMaps : (file : Source) → AreMaps (get_net_stats file)
unfolding get_net_stats parse_net_stats
get_net_stats-AreMaps missing = tt
get_net_stats-AreMaps (unopened e) = tt
get_net_stats-AreMaps (text lines error) = parsed-AreMaps (parse_net_stats lines error) (
    bind-AreMaps (parse_pairs lines []) (scanned error) (parse_pairs-AreMaps lines [] tt)
      (scanned-AreMaps error))

get_snmp6_stats-AreMaps : (file : Source) → AreMaps (get_snmp6_stats file)
unfolding get_snmp6_stats parse_snmp6_stats
get_snmp6_stats-AreMaps missing = tt
get_snmp6_stats-AreMaps (unopened e) = tt
get_snmp6_stats-AreMaps (text lines error) =
    parsed-AreMaps (parse_snmp6_stats lines error)
      (scanned-AreMaps error (add_lines lines []) (add_lines-IsMap lines [] tt))

merge_into-lookup :
    (p : Bytes) (more stats : NetStats)
    → IsMap more
    → lookup p (merge_into more stats) ≡ or_else (lookup p more) (lookup p stats)
unfolding merge_into
merge_into-lookup p [] stats d = ground (arith, lookup-nil {V = Map Bytes Bytes} p)
merge_into-lookup p ((q, v) ∷ more) stats d = ground (
  arith,
  ==_iff q p,
  d.0,
  merge_into-lookup p more (insert q v stats) d.1,
  lookup-insert q p v stats,
  lookup-cons p q v more,
)

-- When all three files are read, a protocol's statistics are those of snmp6 if it has the protocol,
-- else those of snmp, else those of netstat, and no other protocol is there.
pub merged-lookup :
    (netstat snmp snmp6 : Source) (net_stats snmp_stats snmp6_stats : NetStats)
    → get_net_stats netstat ≡ ok net_stats
    → get_net_stats snmp ≡ ok snmp_stats
    → get_snmp6_stats snmp6 ≡ ok snmp6_stats
    → (stats : NetStats) × ((merged netstat snmp snmp6 ≡ ok stats)
        × ((p : Bytes)
            → lookup p stats
              ≡ or_else
                  (lookup p snmp6_stats)
                  (or_else (lookup p snmp_stats) (lookup p net_stats))))
unfolding merged
merged-lookup netstat snmp snmp6 net_stats snmp_stats snmp6_stats a b c =
    let snmp-IsMap : IsMap snmp_stats = subst AreMaps b (get_net_stats-AreMaps snmp) in
    let snmp6-IsMap : IsMap snmp6_stats = subst AreMaps c (get_snmp6_stats-AreMaps snmp6) in
    (
      merge_into snmp6_stats (merge_into snmp_stats net_stats),
      (
        rw (a, b, c) refl,
        (λ p.
            rw
              (
                merge_into-lookup p snmp6_stats (merge_into snmp_stats net_stats) snmp6-IsMap,
                merge_into-lookup p snmp_stats net_stats snmp-IsMap,
              )
              refl),
      ),
    )
