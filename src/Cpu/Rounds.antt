-- ===== src/Cpu/Rounds.antt =====
-- One round of the loop of `updateThermalThrottle`, seen through what a processor gives.
use infra_pulse.Base.{
  or_else, or_else-none, ℕ, Bool, Option, none, some, List, [], ◌∷◌, ◌≡◌, inl, inr, refl, sym,
  subst, arith, nat_eq, ◌==◌, ==_iff, Bool-cases, if◌then◌else◌,
}
use infra_pulse.Base.Text.{Bytes}
use infra_pulse.Base.Map.{Map, lookup, insert, get_or, has, IsMap, lookup-insert, insert-IsMap}
use infra_pulse.Cpu.Throttle.{
  physical_package_id, core_id, core_throttle_count, package_throttle_count, Throttles, read_once,
  add_counts, add_answers,
}

abbrev pub first_reading : (Bytes → Option ℕ) → List Bytes → Option ℕ
first_reading f [] = none
first_reading f (cpu ∷ cpus) = or_else (f cpu) (first_reading f cpus)

abbrev only_if : {A : Type 0} → Bool → Option A → Option A
only_if b x = if b then x else none

-- A count of a processor that belongs to the package `p` and says to which core it belongs.
abbrev pub of_package : ℕ → Option ℕ → Option ℕ → Option ℕ → Option ℕ
of_package p none core count = none
of_package p (some q) none count = none
of_package p (some q) (some d) count = if q == p then count else none

-- A count of a processor that belongs to the core `c` of the package `p`.
abbrev pub of_core : ℕ → ℕ → Option ℕ → Option ℕ → Option ℕ → Option ℕ
of_core p c none core count = none
of_core p c (some q) none count = none
of_core p c (some q) (some d) count = if q == p then (if d == c then count else none) else none

abbrev pub package_reading : (Bytes → Option Bytes) → ℕ → Bytes → Option ℕ
package_reading read p cpu =
    of_package p (physical_package_id read cpu) (core_id read cpu) (package_throttle_count read cpu)

abbrev pub core_reading : (Bytes → Option Bytes) → ℕ → ℕ → Bytes → Option ℕ
core_reading read p c cpu =
    of_core p c (physical_package_id read cpu) (core_id read cpu) (core_throttle_count read cpu)

read_once-lookup :
    (p q : ℕ) (count : Option ℕ) (m : Map ℕ ℕ)
    → lookup p (read_once q count m) ≡ or_else (lookup p m) (if q == p then count else none)
read_once-lookup p q none m = ground arith
read_once-lookup p q (some n) m = ground (arith, ==_iff q p, lookup-insert q p n m)

read_once-IsMap : (q : ℕ) (count : Option ℕ) (m : Map ℕ ℕ) → IsMap m → IsMap (read_once q count m)
read_once-IsMap q none m d = ground arith
read_once-IsMap q (some n) m d = ground (arith, insert-IsMap q n m d)

-- The cores of a package, none if there is no entry.
abbrev pub cores_at : ℕ → Map ℕ (Map ℕ ℕ) → Map ℕ ℕ
cores_at p m = get_or p [] m

abbrev with_entry : ℕ → Map ℕ (Map ℕ ℕ) → Map ℕ (Map ℕ ℕ)
with_entry q m = if has q m then m else insert q [] m

cores_at-insert :
    (p q : ℕ) (cores : Map ℕ ℕ) (m : Map ℕ (Map ℕ ℕ))
    → cores_at p (insert q cores m) ≡ (if q == p then cores else cores_at p m)
cores_at-insert p q cores m = ground (arith, lookup-insert q p cores m)

cores_at-with_entry : (p q : ℕ) (m : Map ℕ (Map ℕ ℕ)) → cores_at p (with_entry q m) ≡ cores_at p m
cores_at-with_entry p q m = ground (arith, ==_iff q p, lookup-insert q p [] m)

-- A map of maps, each with distinct keys.
abbrev pub AreMaps : Map ℕ (Map ℕ ℕ) → Type 0
AreMaps [] = Unit
AreMaps ((p, cores) ∷ m) = IsMap cores × AreMaps m

insert-AreMaps :
    (q : ℕ) (cores : Map ℕ ℕ) (m : Map ℕ (Map ℕ ℕ))
    → IsMap cores
    → AreMaps m
    → AreMaps (insert q cores m)
unfolding insert
insert-AreMaps q cores [] d h = (d, tt)
insert-AreMaps q cores ((j, v) ∷ m) d h = elim (Bool-cases (j == q)) [
  | inl e ↦ rw e (d, h.1)
  | inr e ↦ rw e (h.0, insert-AreMaps q cores m d h.1)
]

cores_at-IsMap : (q : ℕ) (m : Map ℕ (Map ℕ ℕ)) → AreMaps m → IsMap (cores_at q m)
unfolding lookup
cores_at-IsMap q [] h = tt
cores_at-IsMap q ((j, v) ∷ m) h = elim (Bool-cases (j == q)) [
  | inl e ↦ let here : v ≡ cores_at q ((j, v) ∷ m) = ground (arith, e) in subst IsMap here h.0
  | inr e ↦
      let later : cores_at q m ≡ cores_at q ((j, v) ∷ m) = ground (arith, e) in
      subst IsMap later (cores_at-IsMap q m h.1)
]

-- The invariant of the loop.
pub record AreThrottles (t : Throttles) : Type 0 where
  pub packages : IsMap t.packages
  pub cores : IsMap t.cores
  pub inner : AreMaps t.cores

add_counts-AreThrottles :
    (q c : ℕ) (core_count package_count : Option ℕ) (t : Throttles)
    → AreThrottles t
    → AreThrottles (add_counts q c core_count package_count t)
unfolding add_counts
add_counts-AreThrottles q c core_count package_count t h =
    let by_core = with_entry q t.cores in
    let entry : IsMap by_core × AreMaps by_core = elim (Bool-cases (has q t.cores)) [
      | inl e ↦ rw e (h.cores, h.inner)
      | inr e ↦ rw e (insert-IsMap q [] t.cores h.cores, insert-AreMaps q [] t.cores tt h.inner)
    ] in
    let mine =
      read_once-IsMap c core_count (cores_at q by_core) (cores_at-IsMap q by_core entry.1) in
    record {
      packages = read_once-IsMap q package_count t.packages h.packages;
      cores = insert-IsMap q (read_once c core_count (cores_at q by_core)) by_core entry.0;
      inner = insert-AreMaps q (read_once c core_count (cores_at q by_core)) by_core mine entry.1;
    }

add_counts-core :
    (p c q d : ℕ) (core_count package_count : Option ℕ) (t : Throttles)
    → lookup c (cores_at p (add_counts q d core_count package_count t).cores)
      ≡ or_else
          (lookup c (cores_at p t.cores))
          (if q == p then (if d == c then core_count else none) else none)
unfolding add_counts
add_counts-core p c q d core_count package_count t =
    let by_core = with_entry q t.cores in
    let mine = read_once d core_count (cores_at q by_core) in
    elim (Bool-cases (q == p)) [
      | inl e ↦
          let same : q ≡ p = (==_iff q p).0 e in
          rw
            (
              cores_at-insert p q mine by_core,
              e,
              read_once-lookup c d core_count (cores_at q by_core),
              cores_at-with_entry q q t.cores,
              same,
            )
            refl
      | inr e ↦
          rw
            (
              cores_at-insert p q mine by_core,
              e,
              cores_at-with_entry p q t.cores,
              or_else-none (lookup c (cores_at p t.cores)),
            )
            refl
    ]

pub add_answers-package :
    (p : ℕ) (q d core_count package_count : Option ℕ) (t : Throttles)
    → lookup p (add_answers q d core_count package_count t).packages
      ≡ or_else (lookup p t.packages) (of_package p q d package_count)
unfolding add_answers add_counts
add_answers-package p none d core_count package_count t = sym (or_else-none (lookup p t.packages))
add_answers-package p (some q) none core_count package_count t =
    sym (or_else-none (lookup p t.packages))
add_answers-package p (some q) (some d) core_count package_count t =
    read_once-lookup p q package_count t.packages

pub add_answers-core :
    (p c : ℕ) (q d core_count package_count : Option ℕ) (t : Throttles)
    → lookup c (cores_at p (add_answers q d core_count package_count t).cores)
      ≡ or_else (lookup c (cores_at p t.cores)) (of_core p c q d core_count)
unfolding add_answers
add_answers-core p c none d core_count package_count t =
    sym (or_else-none (lookup c (cores_at p t.cores)))
add_answers-core p c (some q) none core_count package_count t =
    sym (or_else-none (lookup c (cores_at p t.cores)))
add_answers-core p c (some q) (some d) core_count package_count t =
    add_counts-core p c q d core_count package_count t

pub add_answers-AreThrottles :
    (q d core_count package_count : Option ℕ) (t : Throttles)
    → AreThrottles t
    → AreThrottles (add_answers q d core_count package_count t)
unfolding add_answers
add_answers-AreThrottles none d core_count package_count t h = h
add_answers-AreThrottles (some q) none core_count package_count t h = h
add_answers-AreThrottles (some q) (some d) core_count package_count t h =
    add_counts-AreThrottles q d core_count package_count t h
