-- ===== src/Any/Table/Calls.antt =====
-- The calls through the table of api/any.hpp do what the members of `Any` are modelled to do.
use julelang.Prelude.{ℕ, ◌≡◌, ◌≢◌, refl, Bool, not, some, arith}
use julelang.Heap.{Heap, ok, load_block}
use julelang.Str.{Str}
use julelang.Any.{Any, alloc_new_copy, eq_any, value}
use julelang.Any.Holding.{Boxed, eq_any-Boxed}
use julelang.Any.Table.{new_type, dynamic_eq, dynamic_to_str, dynamic_copy, at_pointer, ne_any}

module _ {V : Type 0} (type_name : V → ℕ) (eq : V → V → Bool) (show : V → Str) where
  -- The table of the type of a value compares, prints and copies the value through the address of its
  -- block, and leaves memory alone except for the copy.
  pub new_type-Boxed :
      (h : Heap V) (a b : Any) (v w : V)
      → Boxed type_name eq h a v
      → Boxed type_name eq h b w
      → let table = new_type (type_name v) eq show in
        (a.type' ≡ some table.type_id)
        × (table.eq a.data' b.data' h ≡ ok (eq v w) h)
        × (table.to_str a.data' h ≡ ok (show v) h)
        × (table.alloc_new_copy a.data' h ≡ alloc_new_copy type_name eq a.data' h)
  unfolding new_type dynamic_eq dynamic_to_str dynamic_copy at_pointer alloc_new_copy value
      load_block
  new_type-Boxed h a b v w held held' =
      (held.type', ground (arith, held.block, held'.block), ground (arith, held.block), refl)

  -- Two `Any`s with values of one type in blocks of their own are equal exactly if the values are, and
  -- `!=` is the opposite.
  pub ne_any-Boxed :
      (h : Heap V) (a b : Any) (v w : V)
      → Boxed type_name eq h a v
      → Boxed type_name eq h b w
      → a.data' ≢ b.data'
      → type_name v ≡ type_name w
      → (eq_any type_name eq a b h ≡ ok (eq v w) h)
        × (ne_any type_name eq a b h ≡ ok (not (eq v w)) h)
  unfolding ne_any
  ne_any-Boxed h a b v w held held' apart same =
      let told = eq_any-Boxed type_name eq h a b v w held held' in
      (ground (arith, told, apart, same), ground (arith, told, apart, same))
