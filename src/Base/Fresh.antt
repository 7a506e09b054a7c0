-- ===== src/Base/Fresh.antt =====
-- Maps that grow by keys that they do not have: an insertion then appends.
use infra_pulse.Base.{false, [], ◌∷◌, ◌++◌, ◌≡◌, refl, arith, All, Eq, ==_iff}
use infra_pulse.Base.Map.{Map, lookup, insert, has}

module _ {K V : Type 0} ⦃e : Eq K⦄ where
  pub insert_absent :
      (k : K) (v : V) (m : Map K V) → has k m ≡ false → insert k v m ≡ m ++ (k, v) ∷ []
  unfolding insert lookup
  insert_absent k v [] h = refl
  insert_absent k v ((j, w) ∷ m) h = ground (arith, insert_absent k v m)

  has-append : (k : K) (m n : Map K V) → has k m ≡ false → has k n ≡ false → has k (m ++ n) ≡ false
  unfolding lookup
  has-append k [] n h g = g
  has-append k ((j, w) ∷ m) n h g = ground (arith, has-append k m n)

  -- No key of the second map stands in the first.
  abbrev pub AreFresh : Map K V → Map K V → Type 0
  AreFresh acc m = All (λ x. has x.0 acc ≡ false) m

  pub fresh_after :
      (k : K) (v : V) (acc m : Map K V)
      → has k m ≡ false
      → AreFresh acc m
      → AreFresh (acc ++ (k, v) ∷ []) m
  unfolding lookup
  fresh_after k v acc [] h f = tt
  fresh_after k v acc ((j, w) ∷ m) h f = (
    has-append j acc ((k, v) ∷ []) f.0 (ground (arith, ==_iff k j, ==_iff j k)),
    fresh_after k v acc m (ground arith) f.1,
  )

  pub AreFresh-nil : (m : Map K V) → AreFresh [] m
  unfolding lookup
  AreFresh-nil [] = tt
  AreFresh-nil ((k, v) ∷ m) = (refl, AreFresh-nil m)
