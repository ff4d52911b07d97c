-- ===== src/Misc.antt =====
-- api/misc.hpp: division and remainder of unsigned integers, with safety checks on, and references
-- to new structures.
pub mod Division
pub mod Structs
pub mod Signed
mod Tests
use julelang.Prelude.{ℕ, ◌/◌, ◌%◌, ◌==◌, if◌then◌else◌, List, [], ◌∷◌}
use julelang.Panic
use julelang.Panic.{Result, divide_by_zero, allocation_failed}
use julelang.Heap.{Cmd, pure, throw, ◌>>=◌, new_count}
use julelang.Ref
use julelang.Ref.{Ref, nil, make_ptr}

-- `div` and `mod`.
unfoldable pub div : ℕ → ℕ → Result ℕ
div x denominator =
    if denominator == 0 then Panic.panic divide_by_zero else Panic.ok (x / denominator)

unfoldable pub modulo : ℕ → ℕ → Result ℕ
modulo x denominator =
    if denominator == 0 then Panic.panic divide_by_zero else Panic.ok (x % denominator)

module _ {A : Type 0} where
  unfoldable pub new_struct : ℕ → Cmd A Ref
  new_struct ptr = if ptr == 0 then throw allocation_failed else make_ptr ptr

  -- `new_struct_ref`: the structure's own reference `self` is at its address; the result is a copy.
  unfoldable pub new_struct_ref : ℕ → Cmd A Ref
  new_struct_ref ptr = if ptr == 0 then throw allocation_failed else (do
    ref ← new_count 0
    if ref == 0
        then throw allocation_failed
        else Ref.assign nil (record { alloc = ptr; ref = ref }))
