-- ===== src/Builtin/Tests.antt =====
-- The theorems on api/builtin.hpp on two overlapping slices.
use julelang.Prelude.{
  ℕ, ◌+◌, ◌*◌, ◌≡◌, refl, true, none, some, List, [], ◌∷◌, ◌++◌, arith, ◌==◌, if◌then◌else◌,
}
use julelang.Heap.{Heap, ok}
use julelang.Slice.{Slice}
use julelang.Slice.Items.{Holds}
use julelang.Slice.Release.{Counted}
use julelang.Builtin.{append}
use julelang.Builtin.Grow.{append_grow-Holds}

abbrev memory : Heap ℕ
memory = record {
  block = λ a. if a == 1 then some (10 ∷ 20 ∷ 30 ∷ []) else none;
  count = λ p. if p == 2 then some 2 else none;
  next = 2;
  grants = λ _. true;
}

abbrev whole : Slice
whole = record { refs = record { alloc = 1; ref = 2 }; base = 1; off = 0; len = 3; cap = 3 }

abbrev tail : Slice
tail = record { refs = record { alloc = 1; ref = 2 }; base = 1; off = 1; len = 2; cap = 2 }

abbrev first : ℕ
first = 10

abbrev two : ℕ
two = 2

abbrev three : List ℕ
three = 10 ∷ 20 ∷ 30 ∷ []

abbrev last_two : List ℕ
last_two = 20 ∷ 30 ∷ []

whole-Counted : Counted memory (record { alloc = 1; ref = 2 }) 2 three
whole-Counted = record { counted = omega arith; placed = omega arith; count = refl; block = refl }

whole-Holds : Holds memory whole (10 ∷ 20 ∷ 30 ∷ [])
whole-Holds = record {
  here = record { front = []; rest = []; holds = refl; starts = refl };
  len = refl;
  within = omega arith;
  room = omega arith;
  real = omega arith;
}

tail-Holds : Holds memory tail (20 ∷ 30 ∷ [])
tail-Holds = record {
  here = record { front = 10 ∷ []; rest = []; holds = refl; starts = refl };
  len = refl;
  within = omega arith;
  room = omega arith;
  real = omega arith;
}

append_grow-Holds_example :
    (s' : Slice) × (h' : Heap ℕ) × (append 0 whole tail memory ≡ ok s' h')
    × Holds h' s' (three ++ last_two)
    × (s'.cap ≡ (whole.len + tail.len) * 2)
    × (h'.count s'.refs.ref ≡ some 1)
    × (h'.count whole.refs.ref ≡ some (0 + 1))
append_grow-Holds_example =
    append_grow-Holds 0 memory whole three three two 0 whole-Holds (omega arith) whole-Counted
      (omega arith) (omega arith) (omega arith) (omega arith) refl refl tail last_two tail-Holds
      refl (omega arith)
