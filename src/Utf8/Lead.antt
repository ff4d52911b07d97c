-- ===== src/Utf8/Lead.antt =====
-- The second bytes that the tables of api/utf8.hpp admit behind a lead byte of three or four.
use julelang.Prelude.{ℕ, ◌/◌, ◌%◌, ◌≤◌, ◌<◌, ◌≡◌, arith, dec_lt, ℕ_discrete}
use julelang.Utf8.{first, accept_range}
use julelang.Utf8.Table.{classify, first-eq-classify}
use julelang.Utf8.WellFormed.{Second3, Second4}

-- The class of a lead byte of three or four admits the second bytes that the standard lists.
pub lead3 :
    (a b : ℕ)
    → 224 ≤ a
    → a ≤ 239
    → (x : ℕ) × (first a ≡ x)
      × (x < 240)
      × (x % 8 ≡ 3)
      × (Second3 a b → ((accept_range (x / 16)).lo ≤ b) × (b ≤ (accept_range (x / 16)).hi))
      × ((accept_range (x / 16)).lo ≤ b → b ≤ (accept_range (x / 16)).hi → Second3 a b)
unfolding classify accept_range
lead3 a b l h = elim (ℕ_discrete a 224) [
  | yes low ↦ (
    19,
    ground (arith, first-eq-classify a),
    omega arith,
    omega arith,
    (λ s. ground arith),
    λ p q. ground arith,
  )
  | no above ↦ elim (ℕ_discrete a 237) [
    | yes mid ↦ (
      35,
      ground (arith, first-eq-classify a),
      omega arith,
      omega arith,
      (λ s. ground arith),
      λ p q. ground arith,
    )
    | no other ↦ (
      3,
      ground (arith, first-eq-classify a),
      omega arith,
      omega arith,
      (λ s. ground arith),
      λ p q. ground arith,
    )
  ]
]

pub lead4 :
    (a b : ℕ)
    → 240 ≤ a
    → a ≤ 244
    → (x : ℕ) × (first a ≡ x)
      × (x < 240)
      × (x % 8 ≡ 4)
      × (Second4 a b → ((accept_range (x / 16)).lo ≤ b) × (b ≤ (accept_range (x / 16)).hi))
      × ((accept_range (x / 16)).lo ≤ b → b ≤ (accept_range (x / 16)).hi → Second4 a b)
unfolding classify accept_range
lead4 a b l h = elim (dec_lt a 244) [
  | yes below ↦ elim (dec_lt 240 a) [
    | yes above ↦ (
      4,
      ground (arith, first-eq-classify a),
      omega arith,
      omega arith,
      (λ s. ground arith),
      λ p q. ground arith,
    )
    | no edge ↦ (
      52,
      ground (arith, first-eq-classify a),
      omega arith,
      omega arith,
      (λ s. ground arith),
      λ p q. ground arith,
    )
  ]
  | no edge ↦ (
    68,
    ground (arith, first-eq-classify a),
    omega arith,
    omega arith,
    (λ s. ground arith),
    λ p q. ground arith,
  )
]
