-- ===== src/Base/Results.antt =====
-- What a Go function does: it returns a value, returns an error, or panics.
use mathlib.Core.Path.{◌≡◌, refl, ap}

pub data Outcome {ℓ κ} (E : Type ℓ) (A : Type κ) : Type (ℓ ⊔ κ) where
  ok : A → Outcome E A
  err : E → Outcome E A
  panic : Outcome E A

infixl 5 ◌>>=◌
abbrev pub ◌>>=◌ {ℓ κ μ} :
    {E : Type ℓ} {A : Type κ} {B : Type μ} → Outcome E A → (A → Outcome E B) → Outcome E B
ok v >>= next = next v
err failure >>= next = err failure
panic >>= next = panic

-- A chain that returned a value passed through both of its parts.
pub >>=-eq-ok {ℓ κ μ} :
    {E : Type ℓ} {A : Type κ} {B : Type μ} (r : Outcome E A) (next : A → Outcome E B) {last : B}
    → r >>= next ≡ ok last
    → (v : A) × (r ≡ ok v) × (next v ≡ ok last)
>>=-eq-ok (ok v) next chained = (v, refl, chained)
>>=-eq-ok (err failure) next chained = cc
>>=-eq-ok panic next chained = cc

pub ok-injective {ℓ κ} :
    {E : Type ℓ} {A : Type κ} {a b : A} → Path (Outcome E A) (ok a) (ok b) → a ≡ b
ok-injective {a = a} e = ap (λ o. elim o [ ok x ↦ x | err _ ↦ a | panic ↦ a ]) e
