-- ===== src/Registry.antt =====
-- src/metrics/collector/collector.go: the registry of collectors and `NewNodeCollector`. A collector
-- is a value of the parameter `C`; a factory may read and change the world `W`, and returns a
-- collector, an error of `E`, or panics. The maps of the package are the fields of one state, since
-- the mutex is held over the whole loop that changes `initiatedCollectors`, and the others are
-- changed only before the server starts.
pub mod Filters
pub mod Create
pub mod Node
pub mod State
mod Tests
use infra_pulse.Base.{
  String, Bool, true, false, not, ◌&&◌, Option, none, some, List, [], ◌∷◌, ltb, length,
  if◌then◌else◌, Outcome, ok, err, panic, string_eq,
}
use infra_pulse.Base.Map.{Map, lookup, insert, get_or, has}

pub data Error (E : Type 0) : Type 0 where
  missing_collector : String → Error E
  disabled_collector : String → Error E
  factory_failed : E → Error E

abbrev pub Factory : Type 0 → Type 0 → Type 0 → Type 0
Factory W C E = W → W × Outcome E C

pub record Registry (W C E : Type 0) : Type 0 where
  pub factories : Map String (Factory W C E)
  pub initiated : Map String C
  pub state : Map String Bool
  pub forced : Map String Bool

-- The loop of `DisableDefaultCollectors`, over the entries of the state.
unfoldable pub disable_unforced : Map String Bool → Map String Bool → Map String Bool
disable_unforced forced [] = []
disable_unforced forced ((c, enabled) ∷ rest) =
    (c, if has c forced then enabled else false) ∷ disable_unforced forced rest

-- The guard of the loop of `NewNodeCollector`: whether it skips an entry of the state.
abbrev pub skips : Map String Bool → String → Bool → Bool
skips f key enabled = elim enabled [
  | false ↦ true
  | true ↦ ltb 0 (length f) && not (get_or key false f)
]

module _ {W C E : Type 0} where
  unfoldable pub register_collector :
      String → Bool → Factory W C E → Registry W C E → Registry W C E
  unfolding insert
  register_collector name enabled factory r = record r {
    state = insert name enabled r.state;
    factories = insert name factory r.factories;
  }

  unfoldable pub disable_default_collectors : Registry W C E → Registry W C E
  unfolding disable_unforced
  disable_default_collectors r = record r { state = disable_unforced r.forced r.state }

  unfoldable pub collector_flag_action : String → Registry W C E → Registry W C E
  unfolding insert
  collector_flag_action name r = record r { forced = insert name true r.forced }

-- The first loop of `NewNodeCollector`: the set of filters, or the first filter that is refused.
unfoldable pub filter_set :
    {E : Type 0}
    → Map String Bool
    → List String
    → Map String Bool
    → Outcome (Error E) (Map String Bool)
filter_set state [] f = ok f
filter_set state (filter ∷ filters) f = elim (lookup filter state) [
  | none ↦ err (missing_collector filter)
  | some false ↦ err (disabled_collector filter)
  | some true ↦ filter_set state filters (insert filter true f)
]

-- What the second loop of `NewNodeCollector` changes: the result, the cache and the world.
pub record Building (W C : Type 0) : Type 0 where
  pub collectors : Map String C
  pub initiated : Map String C
  pub world : W

-- The state after a call of `NewNodeCollector`, and its result: the collectors by name.
pub record Called (W C E : Type 0) : Type 0 where
  pub registry : Registry W C E
  pub world : W
  pub result : Outcome (Error E) (Map String C)

abbrev pub start : {W C : Type 0} → Map String C → W → Building W C
start initiated w = record { collectors = []; initiated = initiated; world = w }

-- `collectors[key] = collector` of a cached one.
abbrev pub reuse : {W C : Type 0} → String → C → Building W C → Building W C
reuse key c b = record b { collectors = insert key c b.collectors }

module _ {W C E : Type 0} where
  -- After a factory returned: an error leaves the loop.
  abbrev pub made : String → Building W C → W → Outcome E C → Building W C × Outcome E (Unit {0})
  made key b w (ok c) = (
    record {
      collectors = insert key c b.collectors;
      initiated = insert key c b.initiated;
      world = w;
    },
    ok tt,
  )
  made key b w (err e) = (record b { world = w }, err e)
  made key b w panic = (record b { world = w }, panic)

  -- A missing entry of `factories` is a nil function: its call panics.
  abbrev pub call :
      String → Building W C → Option (Factory W C E) → Building W C × Outcome E (Unit {0})
  call key b none = (b, panic)
  call key b (some factory) = let (w, result) = factory b.world in made key b w result

  -- One round of the loop over the state.
  unfoldable pub create :
      Map String (Factory W C E)
      → Map String Bool
      → String
      → Bool
      → Building W C
      → Building W C × Outcome E (Unit {0})
  create factories f key enabled b =
      if skips f key enabled then (b, ok tt) else elim (lookup key b.initiated) [
        | some c ↦ (reuse key c b, ok tt)
        | none ↦ call key b (lookup key factories)
      ]

  -- The loop; an error or a panic ends it.
  unfoldable pub create_all :
      Map String (Factory W C E)
      → Map String Bool
      → Map String Bool
      → Building W C
      → Building W C × Outcome E (Unit {0})
  create_all factories f [] b = (b, ok tt)
  create_all factories f ((key, enabled) ∷ rest) b =
      let (b', result) = create factories f key enabled b in
      elim result [
        | ok _ ↦ create_all factories f rest b'
        | err e ↦ (b', err e)
        | panic ↦ (b', panic)
      ]

  abbrev pub outcome : Building W C → Outcome E (Unit {0}) → Outcome (Error E) (Map String C)
  outcome b (ok _) = ok b.collectors
  outcome b (err e) = err (factory_failed e)
  outcome b panic = panic

  abbrev pub after_filters : Registry W C E → W → Outcome (Error E) (Map String Bool) → Called W C E
  after_filters r w (err e) = record { registry = r; world = w; result = err e }
  after_filters r w panic = record { registry = r; world = w; result = panic }
  after_filters r w (ok f) =
      let (b, done) = create_all r.factories f r.state (start r.initiated w) in
      record {
        registry = record r { initiated = b.initiated };
        world = b.world;
        result = outcome b done;
      }

  unfoldable pub new_node_collector : List String → Registry W C E → W → Called W C E
  new_node_collector filters r w = after_filters r w (filter_set r.state filters [])
