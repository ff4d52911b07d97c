-- ===== src/Utf8/WellFormed.antt =====
-- The well-formed byte sequences of UTF-8 (Unicode, table 3-7), each with the scalar value it
-- stands for: what api/utf8.hpp is measured against.
use julelang.Prelude.{ℕ, ◌+◌, ◌-◌, ◌*◌, ◌≤◌, ◌<◌, ◌≡◌, ◌⊎◌, List, [], ◌∷◌, arith}

abbrev pub IsByte : ℕ → Type 0
IsByte b = b < 256

-- A continuation byte.
abbrev pub IsTail : ℕ → Type 0
IsTail b = (128 ≤ b) × (b ≤ 191)

-- A rune that Unicode assigns to text: in range and no surrogate.
abbrev pub IsScalar : ℕ → Type 0
IsScalar r = (r < 55296) ⊎ ((57344 ≤ r) × (r ≤ 1114111))

-- The second byte behind a lead byte of three or four.
pub record Second3 (a b : ℕ) : Type 0 where
  pub tail : IsTail b
  pub not_overlong : (224 < a) ⊎ (160 ≤ b)
  pub not_surrogate : (a < 237) ⊎ (237 < a) ⊎ (b ≤ 159)

pub record Second4 (a b : ℕ) : Type 0 where
  pub tail : IsTail b
  pub not_overlong : (240 < a) ⊎ (144 ≤ b)
  pub in_range : (a < 244) ⊎ (b ≤ 143)

pub data WellFormed : ℕ → List ℕ → Type 0 where
  one : {r a : ℕ} → a < 128 → r ≡ a → WellFormed r (a ∷ [])
  two :
      {r a b : ℕ}
      → 194 ≤ a
      → a ≤ 223
      → IsTail b
      → r ≡ (a - 192) * 64 + (b - 128)
      → WellFormed r (a ∷ b ∷ [])
  three :
      {r a b c : ℕ}
      → 224 ≤ a
      → a ≤ 239
      → Second3 a b
      → IsTail c
      → r ≡ (a - 224) * 4096 + (b - 128) * 64 + (c - 128)
      → WellFormed r (a ∷ b ∷ c ∷ [])
  four :
      {r a b c d : ℕ}
      → 240 ≤ a
      → a ≤ 244
      → Second4 a b
      → IsTail c
      → IsTail d
      → r ≡ (a - 240) * 262144 + (b - 128) * 4096 + (c - 128) * 64 + (d - 128)
      → WellFormed r (a ∷ b ∷ c ∷ d ∷ [])

-- The sequences stand for scalar values only: overlong forms and surrogates are excluded.
pub WellFormed-IsScalar : {r : ℕ} {bs : List ℕ} → WellFormed r bs → IsScalar r
WellFormed-IsScalar (one h e) = omega arith
WellFormed-IsScalar (two l h t e) = omega arith
WellFormed-IsScalar (three l h s t e) = ground arith
WellFormed-IsScalar (four l h s t u e) = ground arith
