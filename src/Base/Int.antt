-- ===== src/Base/Int.antt =====
-- Signed integers over the native numbers.
use infra_pulse.Base.{ℕ, Bool, true, false, Eq, ◌==◌, ==_iff, nat_eq, ◌≡◌, ◌↔◌, arith}

-- `negsuc n` is -(n + 1).
pub data ℤ : Type 0 where
  pos : ℕ → ℤ
  negsuc : ℕ → ℤ

abbrev pub int_eqb : ℤ → ℤ → Bool
int_eqb (pos m) (pos n) = m == n
int_eqb (negsuc m) (negsuc n) = m == n
int_eqb _ _ = false

pub int_eqb_iff : (a b : ℤ) → (int_eqb a b ≡ true) ↔ (a ≡ b)
int_eqb_iff (pos m) (pos n) = ground (arith, ==_iff m n)
int_eqb_iff (negsuc m) (negsuc n) = ground (arith, ==_iff m n)
int_eqb_iff (pos m) (negsuc n) = ground arith
int_eqb_iff (negsuc m) (pos n) = ground arith

instance abbrev pub int_eq : Eq ℤ
int_eq = record { eqb = int_eqb; eqb_iff = int_eqb_iff }
