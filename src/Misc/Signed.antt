-- ===== src/Misc/Signed.antt =====
-- Division and remainder of signed integers in api/misc.hpp, whose `/` and `%` round towards zero. The
-- values are those from -half to half - 1, where half is 2 ^ 63 for `jule::Int`.
use julelang.Prelude.{
  ℕ, ◌+◌, ◌/◌, ◌%◌, ◌≤◌, ◌<◌, Bool, true, false, not, ◌&&◌, Option, none, some, ltb, leb, ◌==◌,
  if◌then◌else◌,
}
use julelang.Prelude.Int.{ℤ, pos, pos_part, neg_part, sub_ℕ}
use julelang.Panic
use julelang.Panic.{Result, divide_by_zero}

abbrev pub magnitude : ℤ → ℕ
magnitude z = pos_part z + neg_part z

abbrev pub is_negative : ℤ → Bool
is_negative z = not (neg_part z == 0)

abbrev pub differ : Bool → Bool → Bool
differ true b = not b
differ false b = b

abbrev pub signed : Bool → ℕ → ℤ
signed negative n = if negative then sub_ℕ 0 n else pos n

-- `x / denominator` and `x % denominator` of integers without bounds.
unfoldable pub quotient : ℤ → ℤ → ℤ
quotient x d = signed (differ (is_negative x) (is_negative d)) (magnitude x / magnitude d)

unfoldable pub remainder : ℤ → ℤ → ℤ
remainder x d = signed (is_negative x) (magnitude x % magnitude d)

abbrev pub fits : ℕ → ℤ → Bool
fits half z = ltb (pos_part z) half && leb (neg_part z) half

abbrev pub Fits : ℕ → ℤ → Type 0
Fits half z = (pos_part z < half) × (neg_part z ≤ half)

-- `div`; `none` where the quotient is no value of the type, and the division has no defined behaviour.
unfoldable pub div_int : ℕ → ℤ → ℤ → Option (Result ℤ)
div_int half x d =
    if magnitude d == 0
    then some (Panic.panic divide_by_zero)
    else if fits half (quotient x d)
    then some (Panic.ok (quotient x d))
    else none

-- `mod`, which is undefined where the quotient is.
unfoldable pub modulo_int : ℕ → ℤ → ℤ → Option (Result ℤ)
modulo_int half x d =
    if magnitude d == 0
    then some (Panic.panic divide_by_zero)
    else if fits half (quotient x d)
    then some (Panic.ok (remainder x d))
    else none
