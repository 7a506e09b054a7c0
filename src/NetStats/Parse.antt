-- ===== src/NetStats/Parse.antt =====
-- The tables that the kernel prints are read back.
use infra_pulse.Base.{
  suc, Bool, true, false, not, ◌&&◌, none, List, [], ◌∷◌, ◌++◌, ◌≡◌, refl, sym, ap, arith, All,
  length, append_assoc, append-nil, nat_eq, list_eq, ◌==◌, ==_iff, ok,
}
use infra_pulse.Base.Text.{Bytes, split}
use infra_pulse.Base.Map.{Map, has, IsMap, keys}
use infra_pulse.Base.Words.{take_but_last}
use infra_pulse.Base.Fresh.{AreFresh, AreFresh-nil, insert_absent, fresh_after}
use infra_pulse.NetStats.{NetStats, fill, add_pair, parse_pairs, parse_net_stats}

abbrev pub lacks_space : Bytes → Bool
lacks_space [] = true
lacks_space (c ∷ cs) = not (c == b' ') && lacks_space cs

split-word :
    (w rest : Bytes) → lacks_space w ≡ true → split b' ' (w ++ (b' ' ∷ rest)) ≡ w ∷ split b' ' rest
unfolding split
split-word [] rest h = refl
split-word (c ∷ cs) rest h =
    let ih = split-word cs rest (ground arith) in
    let no : (c == b' ') ≡ false = ground arith in rw (no, ih) refl

split_last : (w : Bytes) → lacks_space w ≡ true → split b' ' w ≡ w ∷ []
unfolding split
split_last [] h = refl
split_last (c ∷ cs) h =
    let ih = split_last cs (ground arith) in
    let no : (c == b' ') ≡ false = ground arith in rw (no, ih) refl

-- Words behind others, each with a blank in front.
abbrev pub behind_blanks : List Bytes → Bytes
behind_blanks [] = []
behind_blanks (w ∷ ws) = b' ' ∷ (w ++ behind_blanks ws)

split-behind_blanks :
    (first : Bytes) (ws : List Bytes)
    → lacks_space first ≡ true
    → All (λ w. lacks_space w ≡ true) ws
    → split b' ' (first ++ behind_blanks ws) ≡ first ∷ ws
split-behind_blanks first [] h g = rw (append-nil first) (split_last first h)
split-behind_blanks first (w ∷ ws) h g =
    rw (split-word first (w ++ behind_blanks ws) h, split-behind_blanks w ws g.0 g.1) refl

abbrev pub values_of : Map Bytes Bytes → List Bytes
values_of [] = []
values_of ((n, v) ∷ m) = v ∷ values_of m

length-values_of : (m : Map Bytes Bytes) → length (values_of m) ≡ length (keys m)
length-values_of [] = refl
length-values_of ((n, v) ∷ m) = omega (arith, length-values_of m)

fill-keys :
    (es acc : Map Bytes Bytes)
    → AreFresh acc es
    → IsMap es
    → fill (keys es) (values_of es) acc ≡ acc ++ es
unfolding fill
fill-keys [] acc f d = sym (append-nil acc)
fill-keys ((n, v) ∷ es) acc f d =
    rw
      (
        insert_absent n v acc f.0,
        fill-keys es (acc ++ (n, v) ∷ []) (fresh_after n v acc es d.0 f.1) d.1,
      )
      (append_assoc acc ((n, v) ∷ []) es)

-- The two lines that the kernel prints for a protocol.
abbrev pub title : Bytes → Bytes
title protocol = protocol ++ b':' ∷ []

abbrev pub print_stats : NetStats → List Bytes
print_stats [] = []
print_stats ((p, es) ∷ stats) =
    (title p ++ behind_blanks (keys es))
    ∷ (title p ++ behind_blanks (values_of es))
    ∷ print_stats stats

-- What the kernel prints: words without blanks, and names that differ.
pub record IsProtocol (t : Bytes × Map Bytes Bytes) : Type 0 where
  pub protocol : lacks_space t.0 ≡ true
  pub names : All (λ w. lacks_space w ≡ true) (keys t.1)
  pub values : All (λ w. lacks_space w ≡ true) (values_of t.1)
  pub distinct : IsMap t.1

title-lacks_space : (p : Bytes) → lacks_space p ≡ true → lacks_space (title p) ≡ true
title-lacks_space [] h = refl
title-lacks_space (c ∷ cs) h = ground (arith, title-lacks_space cs)

title-ne : (p : Bytes) → (title p == []) ≡ false
title-ne [] = refl
title-ne (c ∷ cs) = refl

add_pair-lines :
    (p : Bytes) (es : Map Bytes Bytes) (stats : NetStats)
    → IsProtocol (p, es)
    → has p stats ≡ false
    → add_pair (title p ++ behind_blanks (keys es)) (title p ++ behind_blanks (values_of es)) stats
      ≡ ok (stats ++ (p, es) ∷ [])
unfolding add_pair
add_pair-lines p es stats t h =
    let word = title-lacks_space p t.protocol in
    let same : (suc (length (keys es)) == suc (length (values_of es))) ≡ true =
      (==_iff (suc (length (keys es))) (suc (length (values_of es)))).1
        (ap suc (sym (length-values_of es))) in
    rw
      (
        split-behind_blanks (title p) (keys es) word t.names,
        split-behind_blanks (title p) (values_of es) word t.values,
        title-ne p,
        same,
        take_but_last p b':',
        fill-keys es [] (AreFresh-nil es) t.distinct,
        insert_absent p es stats h,
      )
      refl

parse_pairs-print :
    (tables acc : NetStats)
    → All IsProtocol tables
    → IsMap tables
    → AreFresh acc tables
    → parse_pairs (print_stats tables) acc ≡ ok (acc ++ tables)
unfolding parse_pairs
parse_pairs-print [] acc t d f = ap ok (sym (append-nil acc))
parse_pairs-print ((p, es) ∷ tables) acc t d f =
    rw
      (
        add_pair-lines p es acc t.0 f.0,
        parse_pairs-print tables (acc ++ (p, es) ∷ []) t.1 d.1
            (fresh_after p es acc tables d.0 f.1),
      )
      (ap ok (append_assoc acc ((p, es) ∷ []) tables))

-- `parseNetStats` reads back exactly what the kernel prints of protocols that differ, each with names
-- that differ and no blank in a name or a value: it loses, joins and reorders nothing.
pub parse_net_stats-print :
    (tables : NetStats)
    → All IsProtocol tables
    → IsMap tables
    → parse_net_stats (print_stats tables) none ≡ ok tables
unfolding parse_net_stats
parse_net_stats-print tables t d = rw (parse_pairs-print tables [] t d (AreFresh-nil tables)) refl
