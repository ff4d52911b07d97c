-- ===== src/Prelude/Bits.antt =====
-- The bit operations on native numbers as arithmetic: the lowest digit, a low mask, and the
-- disjunction of two fields that share no bit.
use Prim.Native.Nat.{ℕ, zero, suc, ◌+◌, ◌-◌, ◌*◌, ◌/◌, ◌%◌, ◌^◌, ◌≤◌, ◌<◌, min, max}
use Prim.Native.Nat.{bit_and, bit_or, digits, bit_and-bitwise, bit_or-bitwise}
use mathlib.Core.Path.{◌≡◌, refl, ap}
use native.Mathlib.Nat.{pow-suc, one-le-pow}
use native.Mathlib.Omega.{arith}

-- Two amounts of fuel that both cover the first operand give the same digits.
digits_enough :
    (z : ℕ → ℕ) (op : ℕ → ℕ → ℕ) (j k x y : ℕ)
    → x ≤ j
    → x ≤ k
    → digits z op j x y ≡ digits z op k x y
digits_enough z op zero zero x y p q = refl
digits_enough z op (suc j) zero zero y p q = refl
digits_enough z op zero (suc k) zero y p q = refl
digits_enough z op (suc j) (suc k) zero y p q = refl
digits_enough z op (suc j) zero (suc x) y p q = absurd (omega arith)
digits_enough z op zero (suc k) (suc x) y p q = absurd (omega arith)
digits_enough z op (suc j) (suc k) (suc x) y p q =
    let below = digits_enough z op j k (suc x / 2) (y / 2) (omega arith) (omega arith) in rw below

pub bit_or_digit : (x y : ℕ) → bit_or x y ≡ bit_or (x / 2) (y / 2) * 2 + max (x % 2) (y % 2)
bit_or_digit zero y = simp bit_or-bitwise (omega arith)
bit_or_digit (suc x) y = simp bit_or-bitwise (
    omega (
      arith,
      digits_enough (λ b. b) max x (suc x / 2) (suc x / 2) (y / 2) (omega arith) (omega arith),
    ))

pub bit_and_digit : (x y : ℕ) → bit_and x y ≡ bit_and (x / 2) (y / 2) * 2 + min (x % 2) (y % 2)
bit_and_digit zero y = simp bit_and-bitwise (omega arith)
bit_and_digit (suc x) y = simp bit_and-bitwise (
    omega (
      arith,
      digits_enough (λ b. zero) min x (suc x / 2) (suc x / 2) (y / 2) (omega arith) (omega arith),
    ))

or_zero_below : (fuel x : ℕ) → x ≤ fuel → bit_or x 0 ≡ x
or_zero_below fuel zero p = refl
or_zero_below zero (suc x) p = absurd (omega arith)
or_zero_below (suc fuel) (suc x) p =
    omega (arith, bit_or_digit (suc x) 0, or_zero_below fuel (suc x / 2) (omega arith))

and_zero_below : (fuel x : ℕ) → x ≤ fuel → bit_and x 0 ≡ 0
and_zero_below fuel zero p = refl
and_zero_below zero (suc x) p = absurd (omega arith)
and_zero_below (suc fuel) (suc x) p =
    omega (arith, bit_and_digit (suc x) 0, and_zero_below fuel (suc x / 2) (omega arith))

double_pow : (hi k : ℕ) → hi * 2 ^ suc k ≡ 2 * (hi * 2 ^ k)
double_pow hi k = omega (arith, ap (λ (t : ℕ). hi * t) (pow-suc 2 k))

-- `(hi << k) | lo` is a sum where `lo` has at most k bits.
pub bit_or-eq-add : (k hi lo : ℕ) → lo < 2 ^ k → bit_or (hi * 2 ^ k) lo ≡ hi * 2 ^ k + lo
bit_or-eq-add zero hi lo small = ground (arith, or_zero_below hi hi (omega arith))
bit_or-eq-add (suc k) hi lo small =
    let half : lo / 2 < 2 ^ k = omega (arith, pow-suc 2 k) in
    ground
      (arith, double_pow hi k, bit_or_digit (hi * 2 ^ suc k) lo, bit_or-eq-add k hi (lo / 2) half)

and_low_field : (k hi lo : ℕ) → lo < 2 ^ k → bit_and (hi * 2 ^ k + lo) (2 ^ k - 1) ≡ lo
and_low_field zero hi lo small =
    ground (arith, and_zero_below (hi * 1 + lo) (hi * 1 + lo) (omega arith))
and_low_field (suc k) hi lo small =
    let half : lo / 2 < 2 ^ k = omega (arith, pow-suc 2 k) in
    ground (
      arith,
      double_pow hi k,
      pow-suc 2 k,
      bit_and_digit (hi * 2 ^ suc k + lo) (2 ^ suc k - 1),
      and_low_field k hi (lo / 2) half,
    )

-- `x & ((1 << k) - 1)` is the remainder by 2^k.
pub bit_and-eq-mod : (k x : ℕ) → bit_and x (2 ^ k - 1) ≡ x % 2 ^ k
bit_and-eq-mod k x =
    let small : x % 2 ^ k < 2 ^ k = omega (arith, one-le-pow k 2) in
    ground (arith, one-le-pow k 2, and_low_field k (x / 2 ^ k) (x % 2 ^ k) small)

-- The disjunction of two numbers, by blocks of k bits.
pub bit_or_blocks :
    (k hi lo hi' lo' : ℕ)
    → lo < 2 ^ k
    → lo' < 2 ^ k
    → bit_or (hi * 2 ^ k + lo) (hi' * 2 ^ k + lo') ≡ bit_or hi hi' * 2 ^ k + bit_or lo lo'
bit_or_blocks zero hi lo hi' lo' p q =
    let none_left : lo ≡ 0 = omega arith in
    let none_right : lo' ≡ 0 = omega arith in ground (arith, or_zero_below 0 0 (omega arith))
bit_or_blocks (suc k) hi lo hi' lo' p q = ground (
  arith,
  double_pow hi k,
  double_pow hi' k,
  double_pow (bit_or hi hi') k,
  bit_or_digit (hi * 2 ^ suc k + lo) (hi' * 2 ^ suc k + lo'),
  bit_or_digit lo lo',
  bit_or_blocks k hi (lo / 2) hi' (lo' / 2) (omega (arith, pow-suc 2 k))
      (omega (arith, pow-suc 2 k)),
)
