-- ===== src/Clone/Tests.antt =====
-- The theorems on api/derive/clone.hpp at a slice of numbers.
use julelang.Prelude.{ℕ, true, none, some, List, [], ◌∷◌, ◌==◌, if◌then◌else◌}
use julelang.Heap.{Heap}
use julelang.Ref.{Ref}
use julelang.Slice.{Slice}

abbrev memory : Heap ℕ
memory = record {
  block = λ a. if a == 1 then some (10 ∷ 20 ∷ []) else none;
  count = λ p. if p == 2 then some 1 else none;
  next = 2;
  grants = λ _. true;
}

abbrev r : Ref
r = record { alloc = 1; ref = 2 }

abbrev pair : Slice
pair = record { refs = r; base = 1; off = 0; len = 2; cap = 2 }

abbrev items : List ℕ
items = 10 ∷ 20 ∷ []

abbrev dup : ℕ → ℕ
dup x = x

abbrev front : ℕ
front = 10
