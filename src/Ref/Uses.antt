-- ===== src/Ref/Uses.antt =====
-- Which variables refer to an allocation: the owners that a reference count of api/ref.hpp counts.
use julelang.Prelude.{
  ℕ, zero, suc, ◌+◌, ◌≤◌, ◌<◌, ◌≡◌, ◌≢◌, refl, ap, ap₂, sym, fun_ext, ◌∙◌, Bool, arith, ◌==◌,
  if◌then◌else◌, ℕ_discrete,
}
use julelang.Ref.{Ref}

-- The references that the first n variables hold.
abbrev pub Vars : Type 0
Vars = ℕ → Ref

abbrev pub update : Vars → ℕ → Ref → Vars
update vars i r j = if i == j then r else vars j

abbrev pub one_if : Bool → ℕ
one_if b = if b then 1 else 0

-- Writing what a variable holds changes nothing.
pub update_same : (vars : Vars) (i : ℕ) (r : Ref) → vars i ≡ r → update vars i r ≡ vars
update_same vars i r e = fun_ext λ j. elim (ℕ_discrete i j) [
  | yes same ↦ let here : vars j ≡ r = ap vars (sym same) ∙ e in ground (arith, here)
  | no other ↦ ground arith
]

pub update-update :
    (vars : Vars) (i : ℕ) (r t : Ref) → update (update vars i r) i t ≡ update vars i t
update-update vars i r t = fun_ext λ j. ground arith

-- How many of the first n variables have `f` equal to `p`.
pub uses : (Ref → ℕ) → ℕ → ℕ → Vars → ℕ
uses f p zero vars = 0
uses f p (suc n) vars = one_if (f (vars n) == p) + uses f p n vars

module _ (f : Ref → ℕ) (p : ℕ) (vars : Vars) where
  pub uses-le : (n : ℕ) → uses f p n vars ≤ n
  unfolding uses
  uses-le zero = omega arith
  uses-le (suc n) = ground (arith, uses-le n)

  pub uses_pos : (n j : ℕ) → j < n → f (vars j) ≡ p → 0 < uses f p n vars
  unfolding uses
  uses_pos zero j h e = absurd (omega arith)
  uses_pos (suc n) j h e = elim (ℕ_discrete j n) [
    | yes last ↦
        let here : f (vars n) ≡ p = ap (λ (k : ℕ). f (vars k)) (omega arith) ∙ e in ground arith
    | no other ↦ ground (arith, uses_pos n j (omega arith) e)
  ]

  pub uses_none : (n : ℕ) → ((j : ℕ) → j < n → f (vars j) ≢ p) → uses f p n vars ≡ 0
  unfolding uses
  uses_none zero h = refl
  uses_none (suc n) h = ground (arith, h n (omega arith), uses_none n (λ j lt. h j (omega arith)))

  -- A used allocation has a variable that uses it.
  pub uses_some : (n : ℕ) → 0 < uses f p n vars → (j : ℕ) × (j < n) × (f (vars j) ≡ p)
  unfolding uses
  uses_some zero h = absurd (omega arith)
  uses_some (suc n) h = elim (ℕ_discrete (f (vars n)) p) [
    | yes hit ↦ (n, omega arith, hit)
    | no miss ↦ let (j, lt, e) = uses_some n (ground arith) in (j, omega arith, e)
  ]

  -- Of two variables that use it, one is left when the other is gone.
  pub uses_two :
      (n i : ℕ)
      → i < n
      → f (vars i) ≡ p
      → 1 < uses f p n vars
      → (j : ℕ) × (j < n) × (j ≢ i) × (f (vars j) ≡ p)
  unfolding uses
  uses_two zero i lt e h = absurd (omega arith)
  uses_two (suc n) i lt e h = elim (ℕ_discrete (f (vars n)) p) [
    | yes hit ↦ elim (ℕ_discrete n i) [
      | yes same ↦
          let (j, below, found) = uses_some n (ground arith) in (j, omega arith, omega arith, found)
      | no other ↦ (n, omega arith, other, hit)
    ]
    | no miss ↦
        let (j, below, ne, found) =
          uses_two n i (ground (arith, ap (λ (k : ℕ). f (vars k)))) e (ground arith) in
        (j, omega arith, ne, found)
  ]

  pub uses-update_above :
      (n i : ℕ) (r : Ref) → n ≤ i → uses f p n (update vars i r) ≡ uses f p n vars
  unfolding uses
  uses-update_above zero i r h = refl
  uses-update_above (suc n) i r h = ground (arith, uses-update_above n i r (omega arith))

  -- One variable changes its reference.
  pub uses-update :
      (n i : ℕ) (r : Ref)
      → i < n
      → uses f p n (update vars i r) + one_if (f (vars i) == p)
        ≡ uses f p n vars + one_if (f r == p)
  unfolding uses
  uses-update zero i r h = absurd (omega arith)
  uses-update (suc n) i r h = elim (ℕ_discrete i n) [
    | yes last ↦ rw last (ground (arith, uses-update_above n n r (omega arith)))
    | no other ↦ ground (arith, uses-update n i r (omega arith))
  ]

-- Only the first n variables matter.
pub uses_same :
    (f : Ref → ℕ) (p : ℕ) (n : ℕ) (vars vars' : Vars)
    → ((k : ℕ) → k < n → vars k ≡ vars' k)
    → uses f p n vars ≡ uses f p n vars'
unfolding uses
uses_same f p zero vars vars' e = refl
uses_same f p (suc n) vars vars' e =
    ap₂ (λ (k m : ℕ). one_if (k == p) + m) (ap f (e n (omega arith)))
      (uses_same f p n vars vars' λ k lk. e k (omega arith))

pub uses-suc :
    (f : Ref → ℕ) (p n : ℕ) (vars : Vars)
    → uses f p (suc n) vars ≡ one_if (f (vars n) == p) + uses f p n vars
unfolding uses
uses-suc f p n vars = refl
