-- ===== src/Map/Members.antt =====
-- Membership in a list, and lists without repetitions.
use julelang.Prelude.{◌≡◌, ◌⊎◌, List, [], ◌∷◌}

module _ {A : Type 0} where
  abbrev pub In : A → List A → Type 0
  In x [] = ⊥
  In x (y ∷ ys) = (x ≡ y) ⊎ In x ys

  abbrev pub Distinct : List A → Type 0
  Distinct [] = Unit {0}
  Distinct (x ∷ xs) = (¬ In x xs) × Distinct xs
