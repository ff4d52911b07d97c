-- ===== src/Misc/Division.antt =====
-- Division and remainder of api/misc.hpp.
use julelang.Prelude.{ℕ, ◌+◌, ◌*◌, ◌/◌, ◌%◌, ◌<◌, ◌≡◌, ◌⊎◌, inl, inr, sym, arith, ℕ_discrete}
use native.Mathlib.Nat.{mod-lt, div-add-mod'}
use julelang.Panic
use julelang.Panic.{Result, divide_by_zero}
use julelang.Misc.{div, modulo}

-- For a denominator of 0 both panic; for any other both return, and what they return is the
-- quotient and the remainder: the number is the quotient times the denominator, plus a remainder
-- below the denominator.
pub div-modulo :
    (x d : ℕ)
    → ((d ≡ 0) × (div x d ≡ Panic.panic divide_by_zero) × (modulo x d ≡ Panic.panic divide_by_zero))
      ⊎ ((q : ℕ) × (r : ℕ) × (div x d ≡ Panic.ok q)
          × (modulo x d ≡ Panic.ok r)
          × (x ≡ q * d + r)
          × (r < d))
unfolding div modulo
div-modulo x d = elim (ℕ_discrete d 0) [
  | yes null ↦ inl (null, ground (arith, null), ground (arith, null))
  | no real ↦
      inr (x / d, x % d, ground arith, ground arith, sym (div-add-mod' x d), mod-lt x (omega arith))
]
