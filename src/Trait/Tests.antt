-- ===== src/Trait/Tests.antt =====
-- The theorem on api/trait.hpp at a counted number.
use julelang.Prelude.{ℕ, true, none, some, List, [], ◌∷◌, ◌==◌, if◌then◌else◌}
use julelang.Heap.{Heap}
use julelang.Ref.{Ref}
use julelang.Trait.{Trait}

abbrev memory : Heap ℕ
memory = record {
  block = λ a. if a == 1 then some (7 ∷ []) else none;
  count = λ p. if p == 2 then some 1 else none;
  next = 2;
  grants = λ _. true;
}

abbrev r : Ref
r = record { alloc = 1; ref = 2 }

abbrev boxed : List ℕ
boxed = 7 ∷ []

abbrev one : ℕ
one = 1

abbrev name : ℕ
name = 5
