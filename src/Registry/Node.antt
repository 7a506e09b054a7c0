-- ===== src/Registry/Node.antt =====
-- The contract of `NewNodeCollector`.
use infra_pulse.Base.{
  String, Bool, true, false, ◌&&◌, none, some, List, [], ◌∷◌, ◌++◌, ◌≡◌, refl, arith, if◌then◌else◌,
  Outcome, ok, err, panic, string_eq,
}
use infra_pulse.Base.Map.{Map, lookup, get_or, has, lookup-nil, IsMap}
use infra_pulse.Registry.{
  Registry, Error, missing_collector, disabled_collector, Building, start, after_filters,
  filter_set, create_all, new_node_collector,
}
use infra_pulse.Registry.Filters.{
  AllEnabled, passes, filter_set-missing, filter_set-disabled, filter_set-skips,
}
use infra_pulse.Registry.Create.{takes, create_all-Fills, create_all_keeps, create_all_again}

-- Whether a name is enabled and passes the filters.
abbrev pub wanted : {W C E : Type 0} → List String → Registry W C E → String → Bool
wanted filters r k = get_or k false r.state && passes filters k

module _ {W C E : Type 0} (r : Registry W C E) (w : W) where
  abbrev looped : Map String Bool → Building W C × Outcome E (Unit {0})
  looped f = create_all r.factories f r.state (start r.initiated w)

  after_filters-ok :
      (o : Outcome (Error E) (Map String Bool)) {nc : Map String C}
      → (after_filters r w o).result ≡ ok nc
      → (f : Map String Bool) × (o ≡ ok f) × ((looped f).1 ≡ ok tt) × ((looped f).0.collectors ≡ nc)
  after_filters-ok (ok f) h = (f, refl, ground arith, ground arith)
  after_filters-ok (err e) h = cc
  after_filters-ok panic h = cc

module _ {W C E : Type 0} (filters : List String) (r : Registry W C E) (w : W) where
  -- A call that succeeds got past its filters, and its loop ended.
  record Succeeds (nc : Map String C) : Type 0 where
    set : Map String Bool
    set_eq : filter_set {E = E} r.state filters [] ≡ ok set
    ended : (looped r w set).1 ≡ ok tt
    collected : (looped r w set).0.collectors ≡ nc
    called : new_node_collector filters r w ≡ after_filters r w (ok set)

  new_node_collector-Succeeds :
      {nc : Map String C} → (new_node_collector filters r w).result ≡ ok nc → Succeeds nc
  unfolding new_node_collector
  new_node_collector-Succeeds {nc} h =
      let (f, e, l, c) = after_filters-ok r w (filter_set r.state filters []) h in
      record { set = f; set_eq = e; ended = l; collected = c; called = rw e }

  takes-wanted :
      (f : Map String Bool) (k : String)
      → filter_set {E = E} r.state filters [] ≡ ok f
      → takes f r.state k ≡ wanted filters r k
  takes-wanted f k h =
      let skip = filter_set-skips r.state filters h k in ground (arith, skip true, skip false)

  -- When `NewNodeCollector` succeeds, its result has exactly the names that are enabled in the state
  -- and, if any filters are given, are among them; each is mapped to the collector that the cache
  -- then holds under that name. The state is a map, so no name stands twice in it.
  pub new_node_collector-exact :
      {nc : Map String C}
      → IsMap r.state
      → (new_node_collector filters r w).result ≡ ok nc
      → (k : String)
      → (has k nc ≡ wanted filters r k)
        × (lookup k nc ≡ (
            if wanted filters r k
            then lookup k (new_node_collector filters r w).registry.initiated
            else none))
  new_node_collector-exact m h k =
      let s = new_node_collector-Succeeds h in
      let fill = create_all-Fills r.factories s.set r.state (start r.initiated w) m s.ended k in
      rw s.called (
        ground (
          arith,
          takes-wanted s.set k s.set_eq,
          fill.collected,
          fill.cached,
          s.collected,
          lookup-nil {V = C} k,
        ))

  -- Called again with the same filters after it succeeded, in any world, `NewNodeCollector` returns
  -- the same collectors, and changes neither the registry nor the world.
  pub new_node_collector_again :
      {nc : Map String C}
      → (w' : W) → (new_node_collector filters r w).result ≡ ok nc
      → let r' = (new_node_collector filters r w).registry in
        new_node_collector filters r' w' ≡ record { registry = r'; world = w'; result = ok nc }
  new_node_collector_again w' h =
      let s = new_node_collector-Succeeds h in
      let again =
        create_all_again r.factories s.set r.state (start r.initiated w)
          (looped r w s.set).0.initiated w' s.ended (λ k c t. t) in
      rw s.called (unfold new_node_collector in rw (s.set_eq, again) (rw s.collected))

module _ {W C E : Type 0} (r : Registry W C E) (w : W) where
  -- The first filter that is not registered, or is disabled, is refused with the error that names
  -- it, however many enabled ones stand before it; the registry and the world stay as they were.
  pub new_node_collector_refuses :
      (pre : List String) (bad : String) (post : List String)
      → AllEnabled r.state pre
      → (lookup bad r.state ≡ none
          → new_node_collector (pre ++ bad ∷ post) r w
            ≡ record { registry = r; world = w; result = err (missing_collector bad) })
        × (lookup bad r.state ≡ some false
            → new_node_collector (pre ++ bad ∷ post) r w
              ≡ record { registry = r; world = w; result = err (disabled_collector bad) })
  unfolding new_node_collector
  new_node_collector_refuses pre bad post all = (
    (λ e. rw (filter_set-missing {E = E} r.state pre bad post [] all e)),
    (λ e. rw (filter_set-disabled {E = E} r.state pre bad post [] all e)),
  )

  -- A collector that was made once is never replaced: it stays in the cache under its name, whether
  -- the call succeeds, fails or panics, and nothing else of the registry changes.
  pub new_node_collector_keeps :
      (filters : List String) (k : String) {c : C}
      → lookup k r.initiated ≡ some c
      → let r' = (new_node_collector filters r w).registry in
        (lookup k r'.initiated ≡ some c)
        × (r'.state ≡ r.state)
        × (r'.factories ≡ r.factories)
        × (r'.forced ≡ r.forced)
  unfolding new_node_collector
  new_node_collector_keeps filters k {c} h = go (filter_set r.state filters [])
    where
      go :
          (o : Outcome (Error E) (Map String Bool))
          → let r' = (after_filters r w o).registry in
            (lookup k r'.initiated ≡ some c)
            × (r'.state ≡ r.state)
            × (r'.factories ≡ r.factories)
            × (r'.forced ≡ r.forced)
      go (ok f) =
          (create_all_keeps r.factories f r.state (start r.initiated w) k h, refl, refl, refl)
      go (err e) = (h, refl, refl, refl)
      go panic = (h, refl, refl, refl)
