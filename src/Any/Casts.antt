-- ===== src/Any/Casts.antt =====
-- Type safety of `jule::Any` (api/any.hpp): what an assigned value can be read back as.
use julelang.Prelude.{ℕ, ◌≡◌, ◌≢◌, ◌⊎◌, inl, inr, Bool, true, false, arith, ◌==◌}
use julelang.Panic.{incompatible_type, allocation_failed}
use julelang.Heap.{Heap, ok, panic}
use julelang.Any.{Any, nil_any, any_is_nil, type_is, assign_expr, cast}
use julelang.Any.Holding.{Boxed, assign_expr-Boxed, cast-Boxed}

module _ {V : Type 0} (type_name : V → ℕ) (eq : V → V → Bool) where
  -- `type_is` says whether a value in an `Any` is of a type.
  type_is-Boxed :
      (h : Heap V) (a : Any) (v : V) (name : ℕ)
      → Boxed type_name eq h a v
      → type_is name a ≡ (type_name v == name)
  unfolding type_is any_is_nil
  type_is-Boxed h a v name held = ground (arith, held.placed, held.type')

  -- A value that is assigned to an `Any`, which was nil or held a value of any type, is read back by a
  -- cast to its own type, and a cast to any other type panics; `type_is` tells which. Only a lack of
  -- memory prevents the assignment.
  pub cast-assign_expr :
      (h : Heap V) (a : Any) (v w : V) (name : ℕ)
      → (a ≡ nil_any) ⊎ Boxed type_name eq h a w
      → ((b : Any) × (h' : Heap V) × (assign_expr type_name eq a v h ≡ ok b h')
          × (((name ≡ type_name v)
                × (type_is name b ≡ true)
                × (cast type_name eq name b h' ≡ ok v h'))
              ⊎ ((name ≢ type_name v)
                  × (type_is name b ≡ false)
                  × (cast type_name eq name b h' ≡ panic incompatible_type h'))))
        ⊎ ((h' : Heap V) × (assign_expr type_name eq a v h ≡ panic allocation_failed h'))
  cast-assign_expr h a v w name before = elim (assign_expr-Boxed type_name eq h a v w before) [
    | inr refused ↦ inr refused
    | inl (b, h', run, held, _) ↦
        let told = type_is-Boxed h' b v name held in
        inl (
          b,
          h',
          run,
          elim (cast-Boxed type_name eq h' b v name held) [
            | inl (same, got) ↦ inl (same, ground (arith, told, same), got)
            | inr (other, failed) ↦ inr (other, ground (arith, told, other), failed)
          ],
        )
  ]
