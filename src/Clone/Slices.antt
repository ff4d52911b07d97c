-- ===== src/Clone/Slices.antt =====
-- Clones of slices and arrays by api/derive/clone.hpp.
use julelang.Prelude.{◌≡◌, refl, ap, List, [], ◌∷◌, map}
use julelang.Heap.{Heap}
use julelang.Slice.{Slice}
use julelang.Clone.{clone_array}

module _ {A : Type 0} (dup : A → A) where
  -- The clone of an array has clones of its items.
  pub clone_array-map : (xs : List A) → clone_array dup xs ≡ map dup xs
  unfolding clone_array
  clone_array-map [] = refl
  clone_array-map (x ∷ xs) = ap (λ (l : List A). dup x ∷ l) (clone_array-map xs)
