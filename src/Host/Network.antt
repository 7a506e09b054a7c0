-- ===== src/Host/Network.antt =====
-- `GetNetWorks`, `IPToString` and `GetMainIp`. A nil IP is the empty list of bytes.
use infra_pulse.Base.{
  Bool, false, ◌&&◌, ◌||◌, Option, none, some, List, [], ◌∷◌, ◌++◌, length, drop, replicate, nat_eq,
  list_eq, ◌==◌, if◌then◌else◌, Outcome, ok, err, panic, ◌>>=◌,
}
use infra_pulse.Base.Map.{Map, insert}
use infra_pulse.Base.Text.{Bytes, codes, has_prefix}
use infra_pulse.Host.{HostError, system_failed, no_main_ip}

-- `net.IP.To4`
abbrev pub to4 : Bytes → Option Bytes
to4 ip =
    if length ip == 4
    then some ip
    else if length ip == 16 && has_prefix ip (replicate 10 0 ++ 255 ∷ 255 ∷ [])
    then some (drop 12 ip)
    else none

-- A network interface, and what its `Addrs` answers: each address is an IPNet with this IP.
pub record Interface : Type 0 where
  pub name : Bytes
  pub hardware_addr : Bytes
  pub addrs : Outcome Bytes (List Bytes)

-- `models.NetworkConfig`
pub record NetworkConfig : Type 0 where
  pub inet : Bytes
  pub inet6 : Bytes
  pub hardware_addr : Bytes

abbrev pub of_system {ℓ} : {A : Type ℓ} → Outcome Bytes A → Outcome HostError A
of_system (ok a) = ok a
of_system (err e) = err (system_failed e)
of_system panic = panic

-- An address is taken if there is none yet.
abbrev pub if_nil : Bytes → Bytes → Bytes
if_nil held ip = if held == [] then ip else held

-- The loop over the addresses of an interface, with `ipv4Addr` and `ipv6Addr`.
unfoldable pub pick_addrs : List Bytes → Bytes → Bytes → Bytes × Bytes
pick_addrs [] v4 v6 = (v4, v6)
pick_addrs (ip ∷ addrs) v4 v6 = elim (to4 ip) [
  | some ip4 ↦ pick_addrs addrs (if_nil v4 ip4) v6
  | none ↦ pick_addrs addrs v4 (if_nil v6 ip)
]

-- `show` is `net.IP.String`.
module _ (show : Bytes → Bytes) where
  unfoldable pub ip_to_string : Bytes → Bytes
  ip_to_string ip = if show ip == codes "<nil>" then [] else show ip

  abbrev pub config_of : Interface → List Bytes → NetworkConfig
  config_of i addrs = record {
    inet = ip_to_string (pick_addrs addrs [] []).0;
    inet6 = ip_to_string (pick_addrs addrs [] []).1;
    hardware_addr = i.hardware_addr;
  }

  unfoldable pub net_loop :
      List Interface → Map Bytes NetworkConfig → Outcome HostError (Map Bytes NetworkConfig)
  net_loop [] nets = ok nets
  net_loop (i ∷ interfaces) nets = do
    addrs ← of_system i.addrs
    net_loop interfaces (insert i.name (config_of i addrs) nets)

  unfoldable pub get_net_works :
      Outcome Bytes (List Interface) → Outcome HostError (Map Bytes NetworkConfig)
  get_net_works interfaces = do list ← of_system interfaces; net_loop list []

  -- The inner loop of `GetMainIp`: whether it returns the interface.
  abbrev pub has_local : Bytes → List Bytes → Bool
  has_local local [] = false
  has_local local (ip ∷ addrs) =
      elim (to4 ip) [ none ↦ false | some ip4 ↦ show local == show ip4 ] || has_local local addrs

  unfoldable pub main_loop : Bytes → List Interface → Outcome HostError Bytes
  main_loop local [] = err no_main_ip
  main_loop local (i ∷ interfaces) = do
    addrs ← of_system i.addrs
    (let rest = main_loop local interfaces in if has_local local addrs then ok i.name else rest)

  -- `dialled` is the local address of the connection that `net.Dial` makes.
  unfoldable pub get_main_ip :
      Outcome Bytes (List Interface) → Outcome Bytes Bytes → Outcome HostError Bytes
  get_main_ip interfaces dialled = do
    list ← of_system interfaces
    local ← of_system dialled
    main_loop local list
