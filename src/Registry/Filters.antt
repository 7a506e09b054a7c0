-- ===== src/Registry/Filters.antt =====
-- The first loop of `NewNodeCollector`: which names its set of filters holds.
use infra_pulse.Base.{
  String, Bool, true, false, not, ◌&&◌, ◌||◌, none, some, List, [], ◌∷◌, ◌≡◌, refl, arith, ltb,
  length, ok, err, string_eq, contains, All, Option-cases, inl, inr, ◌++◌,
}
use infra_pulse.Base.Map.{Map, lookup, insert, get_or, lookup-insert}
use infra_pulse.Registry.{missing_collector, disabled_collector, filter_set, skips}

-- Whether a name passes the filters: without filters every name does.
abbrev pub passes : List String → String → Bool
passes [] k = true
passes (x ∷ xs) k = contains (x ∷ xs) k

abbrev nonempty : List String → Bool
nonempty [] = false
nonempty (x ∷ xs) = true

insert_nonempty :
    {V : Type 0} (k : String) (v : V) (m : Map String V) → ltb 0 (length (insert k v m)) ≡ true
unfolding insert
insert_nonempty k v [] = refl
insert_nonempty k v ((j, w) ∷ m) = ground arith

record Holds (filters : List String) (f g : Map String Bool) : Type 0 where
  member : (k : String) → get_or k false g ≡ (contains filters k || get_or k false f)
  size : ltb 0 (length g) ≡ (nonempty filters || ltb 0 (length f))

-- Every name is registered and enabled.
abbrev pub AllEnabled : Map String Bool → List String → Type 0
AllEnabled state = All (λ x. lookup x state ≡ some true)

module _ {E : Type 0} (state : Map String Bool) where
  filter_set-Holds :
      (filters : List String) (f : Map String Bool) {g : Map String Bool}
      → filter_set {E = E} state filters f ≡ ok g
      → Holds filters f g
  unfolding filter_set
  filter_set-Holds [] f h = record { member = λ k. ground arith; size = ground arith }
  filter_set-Holds (x ∷ xs) f h = elim (Option-cases (lookup x state)) [
    | inl e ↦ absurd (ground arith)
    | inr (false, e) ↦ absurd (ground arith)
    | inr (true, e) ↦
        let rest = filter_set-Holds xs (insert x true f) (rw (e, filter_set) at h) in
        record {
          member = λ k. ground (arith, rest.member k, lookup-insert x k true f);
          size = ground (arith, rest.size, insert_nonempty x true f);
        }
  ]

  -- Behind enabled names, a name that is not registered is refused.
  pub filter_set-missing :
      (pre : List String) (bad : String) (post : List String) (f : Map String Bool)
      → AllEnabled state pre
      → lookup bad state ≡ none
      → filter_set {E = E} state (pre ++ bad ∷ post) f ≡ err (missing_collector bad)
  unfolding filter_set
  filter_set-missing [] bad post f all e = rw (e, filter_set)
  filter_set-missing (x ∷ xs) bad post f all e =
      rw (all.0, filter_set) (filter_set-missing xs bad post _ all.1 e)

  -- Behind enabled names, a disabled one is refused.
  pub filter_set-disabled :
      (pre : List String) (bad : String) (post : List String) (f : Map String Bool)
      → AllEnabled state pre
      → lookup bad state ≡ some false
      → filter_set {E = E} state (pre ++ bad ∷ post) f ≡ err (disabled_collector bad)
  unfolding filter_set
  filter_set-disabled [] bad post f all e = rw (e, filter_set)
  filter_set-disabled (x ∷ xs) bad post f all e =
      rw (all.0, filter_set) (filter_set-disabled xs bad post _ all.1 e)

  pub filter_set-enabled :
      (filters : List String) (f : Map String Bool)
      → AllEnabled state filters
      → (g : Map String Bool) × (filter_set {E = E} state filters f ≡ ok g)
  unfolding filter_set
  filter_set-enabled [] f all = (f, refl)
  filter_set-enabled (x ∷ xs) f all = rw (all.0, filter_set) (filter_set-enabled xs _ all.1)

  -- With the set of the filters, the loop skips what is disabled or does not pass them.
  pub filter_set-skips :
      (filters : List String) {f : Map String Bool}
      → filter_set {E = E} state filters [] ≡ ok f
      → (k : String) (enabled : Bool) → skips f k enabled ≡ not (enabled && passes filters k)
  filter_set-skips [] {f} h k enabled =
      let s = filter_set-Holds [] [] h in ground (arith, s.size, s.member k)
  filter_set-skips (x ∷ xs) {f} h k enabled =
      let s = filter_set-Holds (x ∷ xs) [] h in unfold lookup in ground (arith, s.size, s.member k)
