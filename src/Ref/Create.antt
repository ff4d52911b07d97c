-- ===== src/Ref/Create.antt =====
-- `make` of api/ref.hpp, which is `new_ref`: a new allocation and its count, or a panic.
use julelang.Prelude.{
  ℕ, suc, ◌<◌, ◌≡◌, ◌⊎◌, true, some, [], ◌∷◌, arith, Bool-cases, inl, inr, ℕ_discrete,
}
use julelang.Panic.{allocation_failed}
use julelang.Heap.{Heap, ok, panic, put, new_count, new_block}
use julelang.Ref.{Ref, nil, make, make_counted}
use julelang.Ref.Uses.{Vars, uses, update, uses_none, uses-update}
use julelang.Ref.Ownership.{Owned, alloc_of, ref_of}

module _ {A : Type 0} (h : Heap A) (v : A) where
  -- The address that the count is given, and the one behind it for the value.
  abbrev pub first_free : ℕ
  first_free = suc h.next

  abbrev pub made : Ref
  made = record { alloc = suc first_free; ref = first_free }

  abbrev pub grown : Heap A
  grown = record h {
    count = put h.count first_free (some 1);
    block = put h.block (suc first_free) (some (v ∷ []));
    next = suc first_free;
  }

  pub make-ok : h.grants h.next ≡ true → h.grants first_free ≡ true → make v h ≡ ok made grown
  unfolding make make_counted new_count new_block
  make-ok a b = ground arith

  module _ (n : ℕ) (vars : Vars) (o : Owned h n vars) (i : ℕ) (li : i < n)
      (empty : vars i ≡ nil) where
    unused_ref : (p : ℕ) → h.next < p → uses ref_of p n vars ≡ 0
    unused_ref p above =
        uses_none ref_of p vars n λ j lj e. absurd (omega (arith, (o.fresh j lj).1))

    unused_alloc : (p : ℕ) → h.next < p → uses alloc_of p n vars ≡ 0
    unused_alloc p above =
        uses_none alloc_of p vars n λ j lj e. absurd (omega (arith, (o.fresh j lj).0))

    grown-Owned : Owned grown n (update vars i made)
    grown-Owned = record {
      whole = λ k below. ground (arith, o.whole k below);
      counts = λ p some_p. ground (
        arith,
        o.counts p some_p,
        uses-update ref_of p vars n i made li,
        unused_ref first_free (omega arith),
      );
      paired = λ k l lk ll. (
        (λ e. ground (arith, o.paired k l lk ll, o.fresh k lk, o.fresh l ll)),
        λ e. ground (arith, o.paired k l lk ll, o.fresh k lk, o.fresh l ll),
      );
      alive = λ k below some_a. elim (ℕ_discrete i k) [
        | yes same ↦ (v ∷ [], ground arith)
        | no other ↦
            let (items, live) = o.alive k below (ground arith) in
            (items, ground (arith, live, o.fresh k below))
      ];
      reachable = λ a some_a unused. ground (
        arith,
        o.reachable a some_a,
        uses-update alloc_of a vars n i made li,
        unused_alloc (suc first_free) (omega arith),
      );
      fresh = λ k below. ground (arith, o.fresh k below);
    }

-- Creating a reference in a variable that holds none: with memory for count and value it is
-- defined, and leaves memory and owners in step; without, it panics.
pub make-Owned :
    {A : Type 0} (h : Heap A) (v : A) (n : ℕ) (vars : Vars) (i : ℕ)
    → Owned h n vars
    → i < n
    → vars i ≡ nil
    → ((r : Ref) × (h' : Heap A) × (make v h ≡ ok r h') × Owned h' n (update vars i r))
      ⊎ ((h' : Heap A) × (make v h ≡ panic allocation_failed h'))
unfolding make make_counted new_count new_block
make-Owned h v n vars i o li empty = elim (Bool-cases (h.grants h.next)) [
  | inr no_count ↦ inr (record h { next = suc h.next }, ground arith)
  | inl count ↦ elim (Bool-cases (h.grants (suc h.next))) [
    | inr no_value ↦ inr (
      record h { count = put h.count (suc h.next) (some 1); next = suc (suc h.next) },
      ground arith,
    )
    | inl value ↦
        inl (made h v, grown h v, make-ok h v count value, grown-Owned h v n vars o i li empty)
  ]
]
