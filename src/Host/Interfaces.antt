-- ===== src/Host/Interfaces.antt =====
-- What `GetNetWorks` and `GetMainIp` return.
use infra_pulse.Base.{
  true, false, Option, none, some, List, [], ◌∷◌, ◌++◌, ◌≡◌, refl, sym, ◌∙◌, ap, arith, All, length,
  length-drop, drop, nat_eq, list_eq, ◌==◌, ==_iff, if◌then◌else◌, Outcome, ok, err, panic, ◌>>=◌,
  >>=-eq-ok, ok-injective, Bool-cases, Option-cases, ◌⊎◌, inl, inr,
}
use infra_pulse.Base.Map.{Map, lookup, insert, lookup-insert}
use infra_pulse.Base.Text.{Bytes}
use infra_pulse.Host.Network.{
  to4, Interface, NetworkConfig, of_system, if_nil, pick_addrs, ip_to_string, config_of, net_loop,
  get_net_works, has_local, main_loop, get_main_ip,
}

-- The first address that is an IPv4 one, and the first that is not; nil if there is none.
abbrev pub first_v4 : List Bytes → Bytes
first_v4 [] = []
first_v4 (ip ∷ addrs) = elim (to4 ip) [ some ip4 ↦ ip4 | none ↦ first_v4 addrs ]

abbrev pub first_v6 : List Bytes → Bytes
first_v6 [] = []
first_v6 (ip ∷ addrs) = elim (to4 ip) [
  | some ip4 ↦ first_v6 addrs
  | none ↦ if_nil ip (first_v6 addrs)
]

four_bytes : (ip : Bytes) → length ip ≡ 4 → (ip == []) ≡ false
four_bytes [] h = ground arith
four_bytes (b ∷ ip) h = refl

to4-nonempty : (ip : Bytes) {ip4 : Bytes} → to4 ip ≡ some ip4 → (ip4 == []) ≡ false
to4-nonempty ip h = ground (
  arith,
  ==_iff (length ip) 4,
  ==_iff (length ip) 16,
  length-drop 12 ip,
  four_bytes ip,
  four_bytes (drop 12 ip),
)

pick_addrs-first :
    (addrs : List Bytes) (v4 v6 : Bytes)
    → pick_addrs addrs v4 v6 ≡ (if_nil v4 (first_v4 addrs), if_nil v6 (first_v6 addrs))
unfolding pick_addrs
pick_addrs-first [] v4 v6 = ground (arith, ==_iff v4 [], ==_iff v6 [])
pick_addrs-first (ip ∷ addrs) v4 v6 = elim (Option-cases (to4 ip)) [
  | inl n ↦ ground (arith, pick_addrs-first addrs v4 (if_nil v6 ip), ==_iff v6 [], ==_iff ip [])
  | inr (ip4, n) ↦
      ground (arith, pick_addrs-first addrs (if_nil v4 ip4) v6, ==_iff v4 [], to4-nonempty ip n)
]

-- The last interface of a name, whose entry of the map stays.
abbrev pub last_named : Bytes → List Interface → Option Interface
last_named k [] = none
last_named k (i ∷ interfaces) = elim (last_named k interfaces) [
  | some j ↦ some j
  | none ↦ if i.name == k then some i else none
]

-- What the map says of an interface: the texts of its first IPv4 address and of its first other
-- address, or empty texts, and its hardware address.
pub record Describes (show : Bytes → Bytes) (i : Interface) (c : NetworkConfig) : Type 0 where
  pub addrs : List Bytes
  pub answered : i.addrs ≡ ok addrs
  pub inet : c.inet ≡ ip_to_string show (first_v4 addrs)
  pub inet6 : c.inet6 ≡ ip_to_string show (first_v6 addrs)
  pub hardware : c.hardware_addr ≡ i.hardware_addr

pub of_system-ok : {A : Type 0} (o : Outcome Bytes A) {a : A} → of_system o ≡ ok a → o ≡ ok a
of_system-ok (ok b) h = ap ok (ok-injective h)
of_system-ok (err e) h = cc
of_system-ok panic h = cc

config_of-Describes :
    (show : Bytes → Bytes) (i : Interface) (addrs : List Bytes)
    → i.addrs ≡ ok addrs
    → Describes show i (config_of show i addrs)
config_of-Describes show i addrs h = record {
  addrs = addrs;
  answered = h;
  inet = ap (λ p. ip_to_string show p.0) (pick_addrs-first addrs [] []);
  inet6 = ap (λ p. ip_to_string show p.1) (pick_addrs-first addrs [] []);
  hardware = refl;
}

net_loop-Describes :
    (show : Bytes → Bytes) (interfaces : List Interface) (nets : Map Bytes NetworkConfig)
    {nets' : Map Bytes NetworkConfig} (k : Bytes)
    → net_loop show interfaces nets ≡ ok nets'
    → ((last_named k interfaces ≡ none) × (lookup k nets' ≡ lookup k nets))
      ⊎ ((i : Interface) × (c : NetworkConfig) × (last_named k interfaces ≡ some i)
          × (lookup k nets' ≡ some c)
          × Describes show i c)
unfolding net_loop
net_loop-Describes show [] nets k h = inl (refl, ap (lookup k) (sym (ok-injective h)))
net_loop-Describes show (i ∷ interfaces) nets k h =
    let (addrs, ha, h') = >>=-eq-ok (of_system i.addrs) _ h in
    let c = config_of show i addrs in
    elim (net_loop-Describes show interfaces (insert i.name c nets) k h') [
      | inr (j, d, l, e, w) ↦ inr (j, d, rw l refl, e, w)
      | inl (l, e) ↦ elim (Bool-cases (i.name == k)) [
        | inl s ↦ inr (
          i,
          c,
          rw (l, s) refl,
          e ∙ lookup-insert i.name k c nets ∙ rw s refl,
          config_of-Describes show i addrs (of_system-ok i.addrs ha),
        )
        | inr s ↦ inl (rw (l, s) refl, e ∙ lookup-insert i.name k c nets ∙ rw s refl)
      ]
    ]

-- If `GetNetWorks` returns a map, a name is in it exactly if an interface has it, and its entry
-- describes the last interface of the name: the text of its first IPv4 address, that of its first
-- address that is no IPv4 address, each empty if there is none, and the hardware address.
pub get_net_works-Describes :
    (show : Bytes → Bytes) (interfaces : List Interface) {nets : Map Bytes NetworkConfig}
    (k : Bytes)
    → get_net_works show (ok interfaces) ≡ ok nets
    → ((last_named k interfaces ≡ none) × (lookup k nets ≡ none))
      ⊎ ((i : Interface) × (c : NetworkConfig) × (last_named k interfaces ≡ some i)
          × (lookup k nets ≡ some c)
          × Describes show i c)
unfolding get_net_works lookup
get_net_works-Describes show interfaces k h = net_loop-Describes show interfaces [] k h

-- The first interface with an IPv4 address that has the text of the local one.
pub record IsMain (show : Bytes → Bytes) (local : Bytes) (interfaces : List Interface)
    (name : Bytes) : Type 0 where
  pub earlier : List Interface
  pub main : Interface
  pub later : List Interface
  pub split : interfaces ≡ earlier ++ main ∷ later
  pub named : main.name ≡ name
  pub matches : main.addrs >>= (λ a. ok (has_local show local a)) ≡ ok true
  pub first : All (λ j. j.addrs >>= (λ a. ok (has_local show local a)) ≡ ok false) earlier

main_loop-IsMain :
    (show : Bytes → Bytes) (interfaces : List Interface) (local : Bytes) {name : Bytes}
    → main_loop show local interfaces ≡ ok name
    → IsMain show local interfaces name
unfolding main_loop
main_loop-IsMain show [] local h = cc
main_loop-IsMain show (i ∷ interfaces) local h =
    let (addrs, ha, h') = >>=-eq-ok (of_system i.addrs) _ h in
    let hb = of_system-ok i.addrs ha in
    elim (Bool-cases (has_local show local addrs)) [
      | inl m ↦ record {
        earlier = [];
        main = i;
        later = interfaces;
        split = refl;
        named = ok-injective (rw m at h');
        matches = rw (hb, m) refl;
        first = tt;
      }
      | inr m ↦
          let r = main_loop-IsMain show interfaces local (rw m at h') in
          record {
            earlier = i ∷ r.earlier;
            main = r.main;
            later = r.later;
            split = ap (λ l. i ∷ l) r.split;
            named = r.named;
            matches = r.matches;
            first = (rw (hb, m) refl, r.first);
          }
    ]

-- If `GetMainIp` returns a name, it is that of the first interface of which an IPv4 address has the
-- text of the local address of the connection, and the addresses of those before it could be read.
pub get_main_ip-IsMain :
    (show : Bytes → Bytes) (interfaces : List Interface) (local : Bytes) {name : Bytes}
    → get_main_ip show (ok interfaces) (ok local) ≡ ok name
    → IsMain show local interfaces name
unfolding get_main_ip
get_main_ip-IsMain show interfaces local h = main_loop-IsMain show interfaces local h
