-- ===== src/Registry/State.antt =====
-- The functions that change the registry before the server starts, and that no call of a nil
-- factory can happen.
use infra_pulse.Base.{
  String, Bool, true, false, ◌&&◌, Option, none, some, List, [], ◌∷◌, ◌≡◌, ◌≢◌, refl, arith,
  Outcome, ok, err, panic, string_eq, ==_iff, ==_refl,
}
use infra_pulse.Base.Map.{
  Map, lookup, insert, get_or, has, lookup-cons, lookup-insert, IsMap, insert-IsMap,
}
use infra_pulse.Registry.{
  Registry, Error, disabled_collector, Called, Factory, Building, start, made, call, reuse, skips,
  create, create_all, outcome, after_filters, filter_set, new_node_collector, register_collector,
  disable_default_collectors, disable_unforced, collector_flag_action,
}
use infra_pulse.Registry
use infra_pulse.Registry.Filters.{passes}
use infra_pulse.Registry.Node.{new_node_collector-exact}

lookup-disable_unforced :
    (forced m : Map String Bool) (k : String)
    → lookup k (disable_unforced forced m)
      ≡ elim (lookup k m) [ none ↦ none | some enabled ↦ some (enabled && has k forced) ]
unfolding disable_unforced lookup
lookup-disable_unforced forced [] k = refl
lookup-disable_unforced forced ((j, enabled) ∷ rest) k =
    ground (arith, ==_iff j k, lookup-disable_unforced forced rest k)

disable_unforced-IsMap : (forced m : Map String Bool) → IsMap m → IsMap (disable_unforced forced m)
unfolding disable_unforced
disable_unforced-IsMap forced [] h = tt
disable_unforced-IsMap forced ((j, enabled) ∷ rest) h =
    ground (arith, lookup-disable_unforced forced rest j, disable_unforced-IsMap forced rest h.1)

-- The state is a map, and every name of it has a factory.
pub record IsRegistered {W C E : Type 0} (r : Registry W C E) : Type 0 where
  pub distinct : IsMap r.state
  pub made : (k : String) → has k r.state ≡ true → has k r.factories ≡ true

module _ {W C E : Type 0} where
  register_collector-IsRegistered :
      (name : String) (enabled : Bool) (factory : Factory W C E) {r : Registry W C E}
      → IsRegistered r
      → IsRegistered (register_collector name enabled factory r)
  unfolding register_collector
  register_collector-IsRegistered name enabled factory {r} h = record {
    distinct = insert-IsMap name enabled r.state h.distinct;
    made = λ k e. ground (
      arith,
      lookup-insert name k enabled r.state,
      lookup-insert name k factory r.factories,
      h.made k,
    );
  }

  disable_default_collectors-IsRegistered :
      {r : Registry W C E} → IsRegistered r → IsRegistered (disable_default_collectors r)
  unfolding disable_default_collectors
  disable_default_collectors-IsRegistered {r} h = record {
    distinct = disable_unforced-IsMap r.forced r.state h.distinct;
    made = λ k e. ground (arith, lookup-disable_unforced r.forced r.state k, h.made k);
  }

  -- What runs before the server starts: registrations, flags, and disabling the defaults.
  pub data Setup : Registry W C E → Type 0 where
    none_yet : Setup (record { factories = []; initiated = []; state = []; forced = [] })
    register :
        (name : String) (enabled : Bool) (factory : Factory W C E) {r : Registry W C E}
        → Setup r
        → Setup (register_collector name enabled factory r)
    flag : (name : String) {r : Registry W C E} → Setup r → Setup (collector_flag_action name r)
    disable : {r : Registry W C E} → Setup r → Setup (disable_default_collectors r)

  Setup-IsRegistered : {r : Registry W C E} → Setup r → IsRegistered r
  unfolding collector_flag_action
  Setup-IsRegistered none_yet = record {
    distinct = tt;
    made = λ k e. unfold lookup in ground arith;
  }
  Setup-IsRegistered (register name enabled factory s) =
      register_collector-IsRegistered name enabled factory (Setup-IsRegistered s)
  Setup-IsRegistered (flag name s) = record {
    distinct = (Setup-IsRegistered s).distinct;
    made = (Setup-IsRegistered s).made;
  }
  Setup-IsRegistered (disable s) = disable_default_collectors-IsRegistered (Setup-IsRegistered s)

module _ {W C E : Type 0} (factories : Map String (Factory W C E)) where
  -- No factory panics by itself.
  abbrev pub NoPanic : Type 0
  NoPanic =
      (k : String) (factory : Factory W C E) (w : W)
      → lookup k factories ≡ some factory
      → (factory w).1 ≢ panic

  call-ne-panic :
      (key : String) (b : Building W C) (o : Option (Factory W C E))
      → lookup key factories ≡ o
      → NoPanic
      → has key factories ≡ true
      → (call key b o).1 ≢ panic
  call-ne-panic key b none e h t p = ground arith
  call-ne-panic key b (some factory) e h t p =
      made-ne-panic (factory b.world).1 (h key factory b.world e) p
    where
      made-ne-panic :
          (o : Outcome E C) → o ≢ panic → (Registry.made key b (factory b.world).0 o).1 ≢ panic
      made-ne-panic (ok c) n q = cc
      made-ne-panic (err x) n q = cc
      made-ne-panic panic n q = n refl

  create-ne-panic :
      (f : Map String Bool) (key : String) (enabled : Bool) (b : Building W C)
      → NoPanic
      → has key factories ≡ true
      → (create factories f key enabled b).1 ≢ panic
  unfolding create
  create-ne-panic f key enabled b h t p =
      ground (arith, call-ne-panic key b (lookup key factories) refl h t)

  create_all-ne-panic :
      (f st : Map String Bool) (b : Building W C)
      → NoPanic
      → ((k : String) → has k st ≡ true → has k factories ≡ true)
      → (create_all factories f st b).1 ≢ panic
  unfolding create_all
  create_all-ne-panic f [] b h t p = cc
  create_all-ne-panic f ((key, enabled) ∷ rest) b h t p =
      let first = t key (ground (arith, lookup-cons key key enabled rest, ==_refl key)) in
      let later = λ (k : String) (e : has k rest ≡ true).
        t k (ground (arith, lookup-cons k key enabled rest)) in
      ground (
        arith,
        create-ne-panic f key enabled b h first,
        create_all-ne-panic f rest (create factories f key enabled b).0 h later,
      )

filter_set-ne-panic :
    {E : Type 0} (state : Map String Bool) (filters : List String) (f : Map String Bool)
    → filter_set {E = E} state filters f ≢ panic
unfolding filter_set
filter_set-ne-panic {E} state [] f h = cc
filter_set-ne-panic {E} state (x ∷ xs) f h =
    ground (arith, filter_set-ne-panic {E = E} state xs (insert x true f))

module _ {W C E : Type 0} (filters : List String) {r : Registry W C E} (w : W) where
  -- However the registry was set up, `NewNodeCollector` calls no nil factory: it panics only if some
  -- factory does.
  pub new_node_collector-ne-panic :
      Setup r → NoPanic r.factories → (new_node_collector filters r w).result ≢ panic
  unfolding new_node_collector
  new_node_collector-ne-panic s h = go (filter_set r.state filters []) refl
    where
      go :
          (o : Outcome (Error E) (Map String Bool))
          → filter_set {E = E} r.state filters [] ≡ o
          → (after_filters r w o).result ≢ panic
      go (ok f) e p =
          create_all-ne-panic r.factories f r.state (start r.initiated w) h
            (Setup-IsRegistered s).made (ground arith)
      go (err x) e p = cc
      go panic e p = filter_set-ne-panic r.state filters [] e

  -- After `DisableDefaultCollectors`, a call of `NewNodeCollector` that succeeds has exactly the
  -- collectors that were enabled, were named by a flag, and pass the filters.
  pub disable_default_collectors-exact :
      {nc : Map String C}
      → IsRegistered r
      → (new_node_collector filters (disable_default_collectors r) w).result ≡ ok nc
      → (k : String) → has k nc ≡ (get_or k false r.state && has k r.forced && passes filters k)
  unfolding disable_default_collectors
  disable_default_collectors-exact s h k = ground (
    arith,
    (new_node_collector-exact filters (disable_default_collectors r) w
        (disable_default_collectors-IsRegistered s).distinct h k).0,
    lookup-disable_unforced r.forced r.state k,
  )
