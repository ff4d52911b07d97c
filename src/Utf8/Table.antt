-- ===== src/Utf8/Table.antt =====
-- The class of a lead byte, read off the ranges that the table `utf8_first` of api/utf8.hpp lists.
use julelang.Prelude.{
  ℕ, zero, suc, ◌<◌, ◌≡◌, refl, Bool, true, ◌&&◌, arith, ltb, ◌==◌, ==_iff, if◌then◌else◌,
}
use julelang.Utf8.{first, class_as, class_xx}

unfoldable pub classify : ℕ → ℕ
classify a =
    if ltb a 128
    then class_as
    else if ltb a 194
    then class_xx
    else if ltb a 224
    then 2
    else if a == 224
    then 19
    else if a == 237
    then 35
    else if ltb a 240
    then 3
    else if a == 240
    then 52
    else if ltb a 244
    then 4
    else if a == 244
    then 68
    else class_xx

all_below : ℕ → (ℕ → Bool) → Bool
all_below zero p = true
all_below (suc n) p = p n && all_below n p

all_below-holds : (n : ℕ) (p : ℕ → Bool) (x : ℕ) → all_below n p ≡ true → x < n → p x ≡ true
unfolding all_below
all_below-holds zero p x h lt = absurd (omega arith)
all_below-holds (suc n) p x h lt = ground (arith, all_below-holds n p x)

checked : all_below 256 (λ a. first a == classify a) ≡ true
unfolding all_below first classify
checked = refl

pub first-eq-classify : (a : ℕ) → a < 256 → first a ≡ classify a
first-eq-classify a h = (==_iff _ _).0 (all_below-holds 256 _ a checked h)
