-- ===== src/Threads/Family.antt =====
-- Families indexed by thread: one entry changed, and the sum over the first n.
use julelang.Prelude.{
  ℕ, zero, suc, ◌+◌, ◌≤◌, ◌<◌, ◌≡◌, ◌≢◌, refl, ap, arith, ◌==◌, if◌then◌else◌, dec_lt,
}

module _ {X : Type 0} where
  abbrev pub put_at : (ℕ → X) → ℕ → X → ℕ → X
  put_at f i x j = if i == j then x else f j

  pub put_at_same : (f : ℕ → X) (i : ℕ) (x : X) → put_at f i x i ≡ x
  put_at_same f i x = ground arith

  pub put_at_other : (f : ℕ → X) (i j : ℕ) (x : X) → i ≢ j → put_at f i x j ≡ f j
  put_at_other f i j x ne = ground arith

unfoldable pub total : ℕ → (ℕ → ℕ) → ℕ
total zero f = 0
total (suc n) f = f n + total n f

total-put_at_above : (n : ℕ) (f : ℕ → ℕ) (i x : ℕ) → n ≤ i → total n (put_at f i x) ≡ total n f
unfolding total
total-put_at_above zero f i x h = refl
total-put_at_above (suc n) f i x h = ground (arith, total-put_at_above n f i x)

pub total-put_at :
    (n : ℕ) (f : ℕ → ℕ) (i x : ℕ) → i < n → total n (put_at f i x) + f i ≡ total n f + x
unfolding total
total-put_at zero f i x h = absurd (omega arith)
total-put_at (suc n) f i x h = elim (dec_lt i n) [
  | yes below ↦ ground (arith, total-put_at n f i x below)
  | no last ↦
      let same : i ≡ n = omega arith in
      let held : f i ≡ f n = ap f same in ground (arith, total-put_at_above n f i x)
]

pub le-total : (n : ℕ) (f : ℕ → ℕ) (i : ℕ) → i < n → f i ≤ total n f
unfolding total
le-total zero f i h = absurd (omega arith)
le-total (suc n) f i h = elim (dec_lt i n) [
  | yes below ↦ omega (arith, le-total n f i below)
  | no last ↦ let held : f i ≡ f n = ap f (omega arith) in omega arith
]
