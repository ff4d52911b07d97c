-- ===== src/Atomic.antt =====
-- api/atomic.hpp on the 64-bit words of memory that hold counts. Each operation is one step, with any
-- memory order; the operations of a count that api/ref.hpp uses are `load_count` and `fetch_add` of
-- the module of the heap.
pub mod Exchange
use julelang.Prelude.{ℕ, Bool, true, false, Option, none, some, ◌==◌, if◌then◌else◌}
use julelang.Heap.{Heap, Cmd, ok, fault, put}

module _ {A : Type 0} where
  -- `__jule_atomic_store_explicit`.
  unfoldable pub atomic_store : ℕ → ℕ → Cmd A (Unit {0})
  atomic_store p v h = elim (h.count p) [
    | none ↦ fault
    | some n ↦ ok tt (record h { count = put h.count p (some v) })
  ]

  -- `__jule_atomic_swap_explicit`, which gives the old value.
  unfoldable pub atomic_swap : ℕ → ℕ → Cmd A ℕ
  atomic_swap p v h = elim (h.count p) [
    | none ↦ fault
    | some n ↦ ok n (record h { count = put h.count p (some v) })
  ]

  -- `__jule_atomic_compare_swap_explicit`: whether the value was the expected one, and what the
  -- expected value's variable holds afterwards.
  unfoldable pub atomic_compare_swap : ℕ → ℕ → ℕ → Cmd A (Bool × ℕ)
  atomic_compare_swap p old v h = elim (h.count p) [
    | none ↦ fault
    | some n ↦
        if n == old
        then ok (true, old) (record h { count = put h.count p (some v) })
        else ok (false, n) h
  ]
