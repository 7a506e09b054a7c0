-- ===== src/Base/Sizes.antt =====
-- How many keys a map has, compared with another.
use infra_pulse.Base.{
  suc, ◌≤◌, true, false, [], ◌∷◌, ◌≡◌, inl, inr, refl, arith, length, Eq, ==_iff, ==_refl,
  Bool-cases,
}
use infra_pulse.Base.Map.{Map, lookup, delete, has, IsMap, lookup-delete, lookup-cons, delete-IsMap}

module _ {K V : Type 0} ⦃e : Eq K⦄ where
  length-delete_absent : (k : K) (m : Map K V) → has k m ≡ false → length (delete k m) ≡ length m
  unfolding lookup delete
  length-delete_absent k [] h = refl
  length-delete_absent k ((j, v) ∷ m) h = ground (arith, length-delete_absent k m)

  length-delete_present :
      (k : K) (m : Map K V) → IsMap m → has k m ≡ true → suc (length (delete k m)) ≡ length m
  unfolding lookup delete
  length-delete_present k [] d h = ground arith
  length-delete_present k ((j, v) ∷ m) d h =
      ground (arith, ==_iff j k, length-delete_present k m d.1, length-delete_absent k m)

module _ {K V W : Type 0} ⦃e : Eq K⦄ where
  -- The keys of a map that all stand in another are no more than the keys of that.
  length-le :
      (a : Map K V) (b : Map K W)
      → IsMap a
      → IsMap b
      → ((k : K) → has k a ≡ true → has k b ≡ true)
      → length a ≤ length b
  length-le [] b da db h = omega arith
  length-le ((j, v) ∷ a) b da db h =
      let here : has j b ≡ true = h j (ground (arith, lookup-cons j j v a, ==_refl j)) in
      let there : (k : K) → has k a ≡ true → has k (delete j b) ≡ true =
        λ k e. ground (arith, ==_iff j k, da.0, lookup-cons k j v a, h k, lookup-delete j k b) in
      let shorter = length-le a (delete j b) da.1 (delete-IsMap j b db) there in
      omega (arith, length-delete_present j b db here, shorter)

module _ {K V : Type 0} ⦃e : Eq K⦄ where
  -- When one map has every key of another and no more entries, it has no other keys.
  pub has-same_length :
      (a b : Map K V) (k : K)
      → IsMap a
      → IsMap b
      → ((j : K) → has j a ≡ true → has j b ≡ true)
      → length a ≡ length b
      → has k b ≡ has k a
  has-same_length a b k da db h same = elim (Bool-cases (has k a)) [
    | inl present ↦ rw (present, h k present) refl
    | inr absent ↦ elim (Bool-cases (has k b)) [
      | inr q ↦ rw (absent, q) refl
      | inl q ↦
          let more =
            length-le a (delete k b) da (delete-IsMap k b db)
              (λ j p. ground (arith, ==_iff k j, absent, h j p, lookup-delete k j b)) in
          absurd (omega (arith, more, length-delete_present k b db q, same))
    ]
  ]
