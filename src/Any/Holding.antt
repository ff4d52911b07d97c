-- ===== src/Any/Holding.antt =====
-- What a `jule::Any` of api/any.hpp holds, and how its members treat it.
use julelang.Prelude.{
  ℕ, suc, ◌≤◌, ◌<◌, ◌≡◌, ◌≢◌, ◌⊎◌, inl, inr, refl, Bool, Bool-cases, true, false, none, some, [],
  ◌∷◌, ◌==◌, if◌then◌else◌, arith, ap, ℕ_discrete,
}
use julelang.Panic.{incompatible_type, allocation_failed}
use julelang.Heap.{Heap, ok, panic, new_block, delete_block, load_block, put}
use julelang.Any.{
  Any, nil_any, any_is_nil, type_is, value, any_dealloc, assign_expr, alloc_new_copy, assign_any,
  cast, eq_any,
}

module _ {V : Type 0} (type_name : V → ℕ) (eq : V → V → Bool) where
  -- `a` owns a block with the value `v` and names its type.
  pub record Boxed (h : Heap V) (a : Any) (v : V) : Type 0 where
    pub placed : 0 < a.data'
    pub below : a.data' ≤ h.next
    pub block : h.block a.data' ≡ some (v ∷ [])
    pub type' : a.type' ≡ some (type_name v)

  abbrev stored : V → Heap V → Any
  stored v h = record { data' = suc h.next; type' = some (type_name v) }

  abbrev with_box : Heap V → V → Heap V
  with_box h v = record h { block = put h.block (suc h.next) (some (v ∷ [])); next = suc h.next }

  abbrev freed : Heap V → Any → Heap V
  freed h a = record h { block = put h.block a.data' none }

  boxed :
      (h : Heap V) (p : ℕ) (v : V)
      → 0 < p
      → p ≤ h.next
      → h.block p ≡ some (v ∷ [])
      → Boxed h (record { data' = p; type' = some (type_name v) }) v
  boxed h p v placed below block = record {
    placed = placed;
    below = below;
    block = block;
    type' = refl;
  }

  -- Assigning a value stores it under its type and frees the value held before; without memory the
  -- assignment panics.
  pub assign_expr-Boxed :
      (h : Heap V) (a : Any) (v w : V)
      → (a ≡ nil_any) ⊎ Boxed h a w
      → ((b : Any) × (h' : Heap V) × (assign_expr type_name eq a v h ≡ ok b h')
          × Boxed h' b v
          × ((a.data' ≡ 0) ⊎ (h'.block a.data' ≡ none)))
        ⊎ ((h' : Heap V) × (assign_expr type_name eq a v h ≡ panic allocation_failed h'))
  unfolding any_is_nil assign_expr any_dealloc new_block delete_block
  assign_expr-Boxed h a v w before = elim (Bool-cases (h.grants h.next)) [
    | inl grant ↦ elim before [
      | inl e ↦
          let zero_data : a.data' ≡ 0 = ap (λ (b : Any). b.data') e in
          inl (
            stored v h,
            with_box h v,
            ground arith,
            boxed (with_box h v) (suc h.next) v (omega arith) (omega arith) (ground arith),
            inl zero_data,
          )
      | inr held ↦
          let gone = freed h a in
          inl (
            stored v h,
            with_box gone v,
            ground (arith, held.placed, held.block),
            boxed (with_box gone v) (suc h.next) v (omega arith) (omega arith) (ground arith),
            inr (ground (arith, held.below)),
          )
    ]
    | inr refused ↦ elim before [
      | inl e ↦
          let zero_data : a.data' ≡ 0 = ap (λ (b : Any). b.data') e in
          inr (record h { next = suc h.next }, ground arith)
      | inr held ↦
          inr (record (freed h a) { next = suc h.next }, ground (arith, held.placed, held.block))
    ]
  ]

  -- A cast of an `Any` that holds a value gives it for its type, and panics for another type.
  pub cast-Boxed :
      (h : Heap V) (a : Any) (v : V) (name : ℕ)
      → Boxed h a v
      → ((name ≡ type_name v) × (cast type_name eq name a h ≡ ok v h))
        ⊎ ((name ≢ type_name v) × (cast type_name eq name a h ≡ panic incompatible_type h))
  unfolding any_is_nil cast value type_is load_block
  cast-Boxed h a v name held = elim (ℕ_discrete name (type_name v)) [
    | yes same ↦ inl (same, ground (arith, held.placed, held.block, held.type'))
    | no other ↦ inr (other, ground (arith, held.placed, held.block, held.type'))
  ]

  -- With memory for it, assigning another `Any` that holds a value, to one that holds a value in
  -- another block, copies the value into a block of its own and frees the old one.
  pub assign_any-Boxed :
      (h : Heap V) (a src : Any) (v w : V)
      → Boxed h a w
      → Boxed h src v
      → a.data' ≢ src.data'
      → h.grants h.next ≡ true
      → (b : Any) × (h' : Heap V) × (assign_any type_name eq a src h ≡ ok b h')
        × Boxed h' b v
        × Boxed h' src v
        × (b.data' ≢ src.data')
        × (h'.block a.data' ≡ none)
  unfolding any_is_nil assign_any any_dealloc alloc_new_copy value new_block delete_block load_block
  assign_any-Boxed h a src v w held from apart grant = (
    record { data' = suc h.next; type' = src.type' },
    record h {
      block = put (put h.block a.data' none) (suc h.next) (some (v ∷ []));
      next = suc h.next;
    },
    ground (arith, held.placed, held.block, held.below, from.placed, from.block, from.below),
    record { placed = omega arith; below = omega arith; block = ground arith; type' = from.type' },
    record {
      placed = from.placed;
      below = omega (arith, from.below);
      block = ground (arith, from.block, from.below);
      type' = from.type';
    },
    (λ e. absurd (omega (arith, e, from.below))),
    ground (arith, held.below),
  )

  -- Two `Any`s that hold values are equal if they hold one block, or values of one type that are
  -- equal.
  pub eq_any-Boxed :
      (h : Heap V) (a b : Any) (v w : V)
      → Boxed h a v
      → Boxed h b w
      → eq_any type_name eq a b h
        ≡ ok
            (if a.data' == b.data'
              then true
              else if type_name v == type_name w
              then eq v w
              else false)
            h
  unfolding any_is_nil eq_any value load_block
  eq_any-Boxed h a b v w held from =
      ground (arith, held.placed, held.block, held.type', from.placed, from.block, from.type')
