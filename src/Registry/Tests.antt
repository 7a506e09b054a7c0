-- ===== src/Registry/Tests.antt =====
-- The registry at a small example: two collectors enabled, one disabled, one that fails.
use infra_pulse.Base.{
  ℕ, ◌+◌, String, true, false, none, some, [], ◌∷◌, ◌≡◌, ◌≢◌, refl, ok, err, panic, arith,
  string_eq, Bool-cases, inl, inr, ◌==◌, subst, sym,
}
use infra_pulse.Base.Map.{Map, lookup, insert, has}
use infra_pulse.Registry.{
  Registry, Factory, register_collector, disable_default_collectors, disable_unforced, filter_set,
  create, create_all, new_node_collector, missing_collector, disabled_collector, factory_failed,
}
use infra_pulse.Registry.Node.{
  new_node_collector-exact, new_node_collector_again, new_node_collector_refuses,
}
use infra_pulse.Registry.State.{
  Setup, none_yet, register, IsRegistered, NoPanic, new_node_collector-ne-panic,
  disable_default_collectors-exact,
}

-- The world counts the calls of factories; a collector is the number of its call.
abbrev counting : Factory ℕ ℕ String
counting w = (w + 1, ok w)

abbrev failing : Factory ℕ ℕ String
failing w = (w + 1, err "no such device")

abbrev sample : Registry ℕ ℕ String
sample = record {
  factories = ("cpu", counting) ∷ ("time", counting) ∷ ("ntp", counting) ∷ ("drm", failing) ∷ [];
  initiated = ("time", 0) ∷ [];
  state = ("cpu", true) ∷ ("time", true) ∷ ("ntp", false) ∷ [];
  forced = ("cpu", true) ∷ [];
}

all_enabled : (new_node_collector [] sample 7).result ≡ ok (("cpu", 7) ∷ ("time", 0) ∷ [])
unfolding new_node_collector filter_set create_all create lookup insert
all_enabled = refl

one_filter : (new_node_collector ("cpu" ∷ []) sample 7).result ≡ ok (("cpu", 7) ∷ [])
unfolding new_node_collector filter_set create_all create lookup insert
one_filter = refl

factory_error :
    (new_node_collector [] (register_collector "drm" true failing sample) 7).result
    ≡ err (factory_failed "no such device")
unfolding register_collector new_node_collector filter_set create_all create lookup insert
factory_error = refl

after_disable :
    (new_node_collector [] (disable_default_collectors sample) 7).result ≡ ok (("cpu", 7) ∷ [])
unfolding disable_default_collectors disable_unforced new_node_collector filter_set create_all
    create lookup insert
after_disable = refl

abbrev only_cpu : Map String ℕ
only_cpu = ("cpu", 7) ∷ []

new_node_collector-exact_example :
    (has "cpu" only_cpu ≡ true)
    × (lookup "cpu" only_cpu
        ≡ lookup "cpu" (new_node_collector ("cpu" ∷ []) sample 7).registry.initiated)
unfolding lookup
new_node_collector-exact_example =
    new_node_collector-exact ("cpu" ∷ []) sample 7 (refl, (refl, (refl, tt))) one_filter "cpu"

new_node_collector_again_example :
    new_node_collector ("cpu" ∷ []) (new_node_collector ("cpu" ∷ []) sample 7).registry 9 ≡ record {
      registry = (new_node_collector ("cpu" ∷ []) sample 7).registry;
      world = 9;
      result = ok (("cpu", 7) ∷ []);
    }
new_node_collector_again_example = new_node_collector_again ("cpu" ∷ []) sample 7 9 one_filter

new_node_collector_refuses_example :
    (lookup "wifi" sample.state ≡ none
      → new_node_collector ("cpu" ∷ "wifi" ∷ []) sample 7
        ≡ record { registry = sample; world = 7; result = err (missing_collector "wifi") })
    × (lookup "wifi" sample.state ≡ some false
        → new_node_collector ("cpu" ∷ "wifi" ∷ []) sample 7
          ≡ record { registry = sample; world = 7; result = err (disabled_collector "wifi") })
unfolding lookup
new_node_collector_refuses_example =
    new_node_collector_refuses sample 7 ("cpu" ∷ []) "wifi" [] (refl, tt)

abbrev empty : Registry ℕ ℕ String
empty = record { factories = []; initiated = []; state = []; forced = [] }

set_up : Setup (register_collector "cpu" true counting empty)
set_up = register "cpu" true counting none_yet

set_up-NoPanic : NoPanic (register_collector "cpu" true counting empty).factories
unfolding register_collector lookup insert
set_up-NoPanic k factory w h p = elim (Bool-cases ("cpu" == k)) [
  | inl same ↦
      let e : counting ≡ factory = cc (rw same at h) in
      let q : (counting w).1 ≡ panic =
        subst (λ (g : Factory ℕ ℕ String). (g w).1 ≡ panic) (sym e) p in
      cc
  | inr other ↦ cc (rw other at h)
]

new_node_collector-ne-panic_example :
    (new_node_collector ("cpu" ∷ []) (register_collector "cpu" true counting empty) 3).result
    ≢ panic
new_node_collector-ne-panic_example =
    new_node_collector-ne-panic ("cpu" ∷ []) 3 set_up set_up-NoPanic

sample-IsRegistered : IsRegistered sample
unfolding lookup
sample-IsRegistered = record { distinct = (refl, (refl, (refl, tt))); made = λ k e. ground arith }

disable_default_collectors-exact_example : has "cpu" only_cpu ≡ true
unfolding lookup
disable_default_collectors-exact_example =
    disable_default_collectors-exact [] {r = sample} 7 sample-IsRegistered after_disable "cpu"
