-- ===== src/Trait/Values.antt =====
-- Traits of api/trait.hpp that are made of a value, and their casts.
use julelang.Prelude.{
  ℕ, suc, ◌+◌, ◌-◌, ◌%◌, ◌^◌, ◌≡◌, ◌≢◌, ◌⊎◌, inl, inr, refl, Bool-cases, true, some, [], ◌∷◌, arith,
  ℕ_discrete,
}
use julelang.Panic.{incompatible_type, allocation_failed}
use julelang.Heap.{Heap, ok, panic, new_block, new_count, fetch_add, load_block, put}
use julelang.Ref
use julelang.Ref.{Ref, nil, make_ptr, add_ref, drop_ref, take_over}
use julelang.Slice.{adopt}
use julelang.Slice.Release.{Counted}
use julelang.Trait.{
  get_mask, Trait, trait_is_nil, from_value, check_type, trait_must_ok, to_value, trait_eq,
}

module _ {V : Type 0} (type_name : V → ℕ) where
  abbrev made : Heap V → V → Trait
  made h v = record {
    ref = record { alloc = suc h.next; ref = suc (suc h.next) };
    type_id = some (type_name v);
  }

  abbrev with_made : Heap V → V → Heap V
  with_made h v = record h {
    block = put h.block (suc h.next) (some (v ∷ []));
    count =
        put (put (put h.count (suc (suc h.next)) (some 1)) (suc (suc h.next)) (some 2))
          (suc (suc h.next)) (some 1);
    next = suc (suc h.next);
  }

  -- With memory for value and count, a trait made of a value is the one owner of a copy of it, under
  -- the value's type; with none for the value, or none for the count, the constructor panics.
  pub from_value-Counted :
      (h : Heap V) (v : V)
      → ((t : Trait) × (h' : Heap V) × (from_value type_name v h ≡ ok t h')
          × Counted h' t.ref 1 (v ∷ [])
          × (t.type_id ≡ some (type_name v))
          × (t.ref.alloc ≡ suc h.next))
        ⊎ ((h' : Heap V) × (from_value type_name v h ≡ panic allocation_failed h'))
  unfolding from_value adopt make_ptr Ref.assign take_over Ref.drop add_ref drop_ref new_block
      new_count fetch_add
  from_value-Counted h v =
      let up : (1 + 1) % 2 ^ 64 ≡ 2 = omega arith in
      let down : (2 + (2 ^ 64 - 1)) % 2 ^ 64 ≡ 1 = omega arith in
      elim (Bool-cases (h.grants h.next)) [
        | inr no_value ↦ inr (record h { next = suc h.next }, ground arith)
        | inl value ↦ elim (Bool-cases (h.grants (suc h.next))) [
          | inr no_count ↦ inr (
            record h { block = put h.block (suc h.next) (some (v ∷ [])); next = suc (suc h.next) },
            ground arith,
          )
          | inl count ↦ inl (
            made h v,
            with_made h v,
            ground arith,
            record {
              counted = omega arith;
              placed = omega arith;
              count = ground arith;
              block = ground arith;
            },
            refl,
            refl,
          )
        ]
      ]

module _ {V : Type 0} (h : Heap V) (t : Trait) (v : V) (n own : ℕ) (c : Counted h t.ref n (v ∷ []))
    (named : t.type_id ≡ some own) where
  -- A cast of a trait to the type of its value gives the value, and to any other type it panics.
  pub to_value-Counted :
      (name : ℕ)
      → ((name ≡ own) × (to_value name t h ≡ ok v h))
        ⊎ ((name ≢ own) × (to_value name t h ≡ panic incompatible_type h))
  unfolding to_value check_type trait_must_ok trait_is_nil load_block
  to_value-Counted name = elim (ℕ_discrete name own) [
    | yes same ↦ inl (same, ground (arith, c.placed, c.block))
    | no other ↦ inr (other, ground (arith, c.placed, c.block))
  ]

-- The object that methods are called on is the value.
pub get_mask-Counted :
    {V : Type 0} (h : Heap V) (t : Trait) (v : V) (n : ℕ)
    → Counted h t.ref n (v ∷ [])
    → get_mask t h ≡ ok v h
unfolding get_mask trait_must_ok trait_is_nil load_block
get_mask-Counted h t v n c = ground (arith, c.placed, c.block)

-- `==` of two traits holds of any two.
pub trait_eq-true : (t u : Trait) → trait_eq t u ≡ true
unfolding trait_eq
trait_eq-true t u = ground arith
