-- ===== src/Registry/Create.antt =====
-- The second loop of `NewNodeCollector`: what it puts into its result and into the cache.
use infra_pulse.Base.{
  String, Bool, true, false, not, ◌||◌, Option, none, some, [], ◌∷◌, ◌≡◌, refl, ◌∙◌, arith,
  if◌then◌else◌, Outcome, ok, err, panic, string_eq, ==_iff, ==_refl, ◌==◌, Option-cases,
  Bool-cases, ◌⊎◌, inl, inr,
}
use infra_pulse.Base.Map.{Map, lookup, insert, has, lookup-cons, lookup-nil, lookup-insert, IsMap}
use infra_pulse.Registry.{Factory, Building, reuse, made, call, create, create_all, skips}

-- Whether the loop over the entries `st` takes the name `k`.
abbrev pub takes : Map String Bool → Map String Bool → String → Bool
takes f st k = elim (lookup k st) [ none ↦ false | some enabled ↦ not (skips f k enabled) ]

-- A successful round took `key`.
record Took {W C : Type 0} (key : String) (b b' : Building W C) : Type 0 where
  collector : C
  collectors : b'.collectors ≡ insert key collector b.collectors
  cached : lookup key b'.initiated ≡ some collector

module _ {W C E : Type 0} where
  made_keeps :
      (key : String) (b : Building W C) (w : W) (result : Outcome E C) (k : String) {c : C}
      → lookup key b.initiated ≡ none
      → lookup k b.initiated ≡ some c
      → lookup k (made key b w result).0.initiated ≡ some c
  made_keeps key b w (ok d) k n h = ground (arith, lookup-insert key k d b.initiated, ==_iff key k)
  made_keeps key b w (err e) k n h = h
  made_keeps key b w panic k n h = h

  call_keeps :
      (key : String) (b : Building W C) (o : Option (Factory W C E)) (k : String) {c : C}
      → lookup key b.initiated ≡ none
      → lookup k b.initiated ≡ some c
      → lookup k (call key b o).0.initiated ≡ some c
  call_keeps key b none k n h = h
  call_keeps key b (some factory) k n h = made_keeps key b _ (factory b.world).1 k n h

  made-Took :
      (key : String) (b : Building W C) (w : W) (result : Outcome E C)
      → (made key b w result).1 ≡ ok tt
      → Took key b (made key b w result).0
  made-Took key b w (ok d) h = record {
    collector = d;
    collectors = refl;
    cached = ground (arith, lookup-insert key key d b.initiated, ==_refl key);
  }
  made-Took key b w (err e) h = cc
  made-Took key b w panic h = cc

  call-Took :
      (key : String) (b : Building W C) (o : Option (Factory W C E))
      → (call key b o).1 ≡ ok tt
      → Took key b (call key b o).0
  call-Took key b none h = cc
  call-Took key b (some factory) h = made-Took key b _ (factory b.world).1 h

module _ {W C E : Type 0} (factories : Map String (Factory W C E)) (f : Map String Bool) where
  -- A collector in the cache stays there, whatever a round does.
  create_keeps :
      (key : String) (enabled : Bool) (b : Building W C) (k : String) {c : C}
      → lookup k b.initiated ≡ some c
      → lookup k (create factories f key enabled b).0.initiated ≡ some c
  unfolding create
  create_keeps key enabled b k {c} h =
      ground (arith, call_keeps key b (lookup key factories) k {c = c})

  create-Took :
      (key : String) (enabled : Bool) (b : Building W C)
      → (create factories f key enabled b).1 ≡ ok tt
      → ((skips f key enabled ≡ true) × ((create factories f key enabled b).0 ≡ b))
        ⊎ ((skips f key enabled ≡ false) × Took key b (create factories f key enabled b).0)
  create-Took key enabled b h = elim (Bool-cases (skips f key enabled)) [
    | inl s ↦ inl (s, unfold create in rw s)
    | inr s ↦ inr (
      s,
      elim (Option-cases (lookup key b.initiated)) [
        | inl n ↦
            let e : create factories f key enabled b ≡ call key b (lookup key factories) =
              unfold create in rw (s, n) in
            rw e (call-Took key b (lookup key factories) (rw e at h))
        | inr (c, n) ↦
            let e : create factories f key enabled b ≡ (reuse key c b, ok tt) =
              unfold create in rw (s, n) in
            rw e (record { collector = c; collectors = refl; cached = n })
      ],
    )
  ]

  pub create_all_keeps :
      (st : Map String Bool) (b : Building W C) (k : String) {c : C}
      → lookup k b.initiated ≡ some c
      → lookup k (create_all factories f st b).0.initiated ≡ some c
  unfolding create_all
  create_all_keeps [] b k h = h
  create_all_keeps ((key, enabled) ∷ rest) b k {c} h = ground (
    arith,
    create_keeps key enabled b k {c = c},
    create_all_keeps rest (create factories f key enabled b).0 k {c = c},
  )

  create_all-step :
      (key : String) (enabled : Bool) (rest : Map String Bool) (b : Building W C)
      → (create_all factories f ((key, enabled) ∷ rest) b).1 ≡ ok tt
      → ((create factories f key enabled b).1 ≡ ok tt)
        × (create_all factories f ((key, enabled) ∷ rest) b
            ≡ create_all factories f rest (create factories f key enabled b).0)
  unfolding create_all
  create_all-step key enabled rest b h = ground arith

  create_all-next :
      (key : String) (enabled : Bool) (rest : Map String Bool) (b : Building W C)
      {b' : Building W C}
      → create factories f key enabled b ≡ (b', ok tt)
      → create_all factories f ((key, enabled) ∷ rest) b ≡ create_all factories f rest b'
  unfolding create_all
  create_all-next key enabled rest b h = ground arith

  -- What the loop over `st`, from `b` to `b'`, did to the name `k`.
  pub record Fills (st : Map String Bool) (b b' : Building W C) (k : String) : Type 0 where
    pub collected :
        lookup k b'.collectors
        ≡ (if takes f st k then lookup k b'.initiated else lookup k b.collectors)
    pub cached : (has k b'.initiated || not (takes f st k)) ≡ true

  takes-cons :
      (key : String) (enabled : Bool) (rest : Map String Bool) (k : String)
      → takes f ((key, enabled) ∷ rest) k
        ≡ (if key == k then not (skips f key enabled) else takes f rest k)
  takes-cons key enabled rest k = ground (arith, lookup-cons k key enabled rest, ==_iff key k)

  Fills-Took :
      (key : String) (enabled : Bool) (rest : Map String Bool) (b b' : Building W C)
      {d : Building W C} (k : String)
      → has key rest ≡ false
      → skips f key enabled ≡ false
      → (t : Took key b b') → lookup key d.initiated ≡ some t.collector
      → Fills rest b' d k
      → Fills ((key, enabled) ∷ rest) b d k
  Fills-Took key enabled rest b b' k fresh s t e r = record {
    collected = ground (
      arith,
      r.collected,
      t.collectors,
      takes-cons key enabled rest k,
      ==_iff key k,
      lookup-insert key k t.collector b.collectors,
    );
    cached = ground (arith, r.cached, takes-cons key enabled rest k, ==_iff key k);
  }

  Fills-skip :
      (key : String) (enabled : Bool) (rest : Map String Bool) (b b' : Building W C)
      {d : Building W C} (k : String)
      → has key rest ≡ false
      → skips f key enabled ≡ true
      → b' ≡ b
      → Fills rest b' d k
      → Fills ((key, enabled) ∷ rest) b d k
  Fills-skip key enabled rest b b' k fresh s e r = record {
    collected = ground (arith, r.collected, takes-cons key enabled rest k, ==_iff key k);
    cached = ground (arith, r.cached, takes-cons key enabled rest k, ==_iff key k);
  }

  -- The collectors of a result are those taken, each the one in the cache; the rest is as before.
  pub create_all-Fills :
      (st : Map String Bool) (b : Building W C)
      → IsMap st
      → (create_all factories f st b).1 ≡ ok tt
      → (k : String) → Fills st b (create_all factories f st b).0 k
  create_all-Fills [] b m h k = record {
    collected = unfold create_all in ground (arith, lookup-nil {V = Bool} k);
    cached = unfold create_all in ground (arith, lookup-nil {V = Bool} k);
  }
  create_all-Fills ((key, enabled) ∷ rest) b m h k =
      let (one, e) = create_all-step key enabled rest b h in
      let b' = (create factories f key enabled b).0 in
      let ih = create_all-Fills rest b' m.1 (rw e at h) k in
      rw e (elim (create-Took key enabled b one) [
        | inl (s, same) ↦ Fills-skip key enabled rest b b' k m.0 s same ih
        | inr (s, t) ↦
            Fills-Took key enabled rest b b' k m.0 s t (create_all_keeps rest b' key t.cached) ih
      ])

  -- A building with other cached collectors, in another world.
  abbrev elsewhere : Building W C → Map String C → W → Building W C
  elsewhere b d w = record { collectors = b.collectors; initiated = d; world = w }

  create_again :
      (key : String) (enabled : Bool) (b : Building W C) (d : Map String C) (w : W)
      → (create factories f key enabled b).1 ≡ ok tt
      → ((c : C)
          → lookup key (create factories f key enabled b).0.initiated ≡ some c
          → lookup key d ≡ some c)
      → create factories f key enabled (elsewhere b d w)
        ≡ (elsewhere (create factories f key enabled b).0 d w, ok tt)
  create_again key enabled b d w h held = elim (create-Took key enabled b h) [
    | inl (s, same) ↦ rw same (unfold create in rw s)
    | inr (s, t) ↦ rw t.collectors (unfold create in rw (s, held t.collector t.cached))
  ]

  -- Run again over a cache that holds what the first run left there, the loop gives the same
  -- collectors, and touches neither the cache nor the world.
  pub create_all_again :
      (st : Map String Bool) (b : Building W C) (d : Map String C) (w : W)
      → (create_all factories f st b).1 ≡ ok tt
      → ((k : String) (c : C)
          → lookup k (create_all factories f st b).0.initiated ≡ some c
          → lookup k d ≡ some c)
      → create_all factories f st (elsewhere b d w)
        ≡ (elsewhere (create_all factories f st b).0 d w, ok tt)
  create_all_again [] b d w h held = unfold create_all in refl
  create_all_again ((key, enabled) ∷ rest) b d w h held =
      let (one, e) = create_all-step key enabled rest b h in
      let b' = (create factories f key enabled b).0 in
      let again =
        create_again key enabled b d w one
          (λ c t. held key c (rw e (create_all_keeps rest b' key t))) in
      let ih = create_all_again rest b' d w (rw e at h) (λ k c t. held k c (rw e t)) in
      rw e (create_all-next key enabled rest _ again ∙ ih)
