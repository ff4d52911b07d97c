-- ===== src/Any/Tests.antt =====
-- The theorems on api/any.hpp at concrete values: numbers, of two types, even and odd.
use julelang.Prelude.{
  ℕ, ◌%◌, ◌<◌, ◌≡◌, ◌≢◌, ◌⊎◌, inr, refl, Bool, true, false, none, some, List, [], ◌∷◌, arith, ◌==◌,
  if◌then◌else◌,
}
use julelang.Panic.{incompatible_type}
use julelang.Heap.{Heap, ok, panic}
use julelang.Any.{Any, cast}
use julelang.Any.Holding.{Boxed}
use julelang.Any.{type_is, assign_expr}
use julelang.Any.Casts.{cast-assign_expr}
use julelang.Any.Statements.{
  Op, store_value, store_variable, reset, cast_to, compare_value, compare_variable, AllNames, run,
  Fine, nothing_allocated, no_values,
}
use julelang.Any.Program.{run-Owned, initial-Owned}
use julelang.Panic.{allocation_failed}

abbrev type_name : ℕ → ℕ
type_name v = v % 2

abbrev eq : ℕ → ℕ → Bool
eq v w = v == w

abbrev memory : Heap ℕ
memory = record {
  block = λ a. if a == 1 then some (7 ∷ []) else if a == 2 then some (8 ∷ []) else none;
  count = λ _. none;
  next = 2;
  grants = λ _. true;
}

abbrev odd : Any
odd = record { data' = 1; type' = some 1 }

abbrev even : Any
even = record { data' = 2; type' = some 0 }

odd-Boxed : Boxed type_name eq memory odd 7
odd-Boxed = record { placed = omega arith; below = omega arith; block = refl; type' = refl }

even-Boxed : Boxed type_name eq memory even 8
even-Boxed = record { placed = omega arith; below = omega arith; block = refl; type' = refl }

abbrev always : ℕ → Bool
always _ = true

-- Variable 1 gets a copy of what variable 0 holds, which then changes its type.
abbrev program : List (Op ℕ)
program =
    store_value 0 7
    ∷ store_variable 1 0
    ∷ store_value 0 8
    ∷ cast_to 1 1
    ∷ compare_variable 0 1
    ∷ compare_value 0 8
    ∷ reset 1
    ∷ []

two_below : (0 < 2) × (1 < 2)
two_below = (omega arith, omega arith)

program-Names : AllNames 2 program
program-Names =
    let (zero_below, one_below) = two_below in
    (
      zero_below,
      (
        (one_below, zero_below),
        (zero_below, (one_below, ((zero_below, one_below), (zero_below, (one_below, tt))))),
      ),
    )

run-Owned_example :
    Fine type_name eq 2 (run type_name eq program no_values (nothing_allocated always))
run-Owned_example =
    run-Owned type_name eq 2 program no_values (nothing_allocated always) program-Names
      (initial-Owned type_name eq always 2)

cast-assign_expr_example :
    ((b : Any) × (h' : Heap ℕ) × (assign_expr type_name eq odd 12 memory ≡ ok b h')
      × (((1 ≡ type_name 12) × (type_is 1 b ≡ true) × (cast type_name eq 1 b h' ≡ ok 12 h'))
          ⊎ ((1 ≢ type_name 12)
              × (type_is 1 b ≡ false)
              × (cast type_name eq 1 b h' ≡ panic incompatible_type h'))))
    ⊎ ((h' : Heap ℕ) × (assign_expr type_name eq odd 12 memory ≡ panic allocation_failed h'))
cast-assign_expr_example = cast-assign_expr type_name eq memory odd 12 7 1 (inr odd-Boxed)
