-- ===== src/Ref/Preserve.antt =====
-- The members of api/ref.hpp keep memory and owners in step.
use julelang.Prelude.{
  ℕ, ◌+◌, ◌-◌, ◌%◌, ◌^◌, ◌≤◌, ◌<◌, ◌≡◌, ◌↔◌, ◌⊎◌, refl, ap, ◌∙◌, sym, none, some, arith, ◌==◌,
  ℕ_discrete, dec_lt,
}
use julelang.Heap.{Heap, ok, put, fetch_add, delete_count, delete_block}
use julelang.Ref.{nil, drop, drop_ref}
use julelang.Ref.Uses.{
  Vars, uses, update, update_same, one_if, uses-le, uses_pos, uses_two, uses-update,
}
use julelang.Ref.Ownership.{Owned, Bounded, alloc_of, ref_of}

module _ {A : Type 0} (h : Heap A) (n : ℕ) (vars : Vars) (o : Owned h n vars)
    (bound : Bounded n) where
  -- The count of a variable's reference.
  count_of :
      (i : ℕ)
      → i < n
      → 0 < ref_of (vars i)
      → (h.count (ref_of (vars i)) ≡ some (uses ref_of (ref_of (vars i)) n vars))
        × (0 < uses ref_of (ref_of (vars i)) n vars)
        × (uses ref_of (ref_of (vars i)) n vars ≤ n)
  count_of i lt pos =
      let some_use = uses_pos ref_of (ref_of (vars i)) vars n i lt refl in
      (
        ground (arith, o.counts (ref_of (vars i)) pos, some_use),
        some_use,
        uses-le ref_of (ref_of (vars i)) vars n,
      )

  -- Dropping a nil reference changes nothing.
  drop-nil : (i : ℕ) → i < n → ref_of (vars i) ≡ 0 → drop (vars i) h ≡ ok nil h
  unfolding drop
  drop-nil i lt e = ground (arith, o.whole i lt)

  -- Memory after the count of an owner that is not the last one goes down.
  abbrev shared : ℕ → Heap A
  shared i = record h {
    count = put h.count (ref_of (vars i)) (some (uses ref_of (ref_of (vars i)) n vars - 1));
  }

  -- Memory after the last owner is gone.
  abbrev freed : ℕ → Heap A
  freed i = record h {
    count = put (put h.count (ref_of (vars i)) (some 0)) (ref_of (vars i)) none;
    block = put h.block (alloc_of (vars i)) none;
  }

  drop-shared :
      (i : ℕ)
      → i < n
      → 1 < uses ref_of (ref_of (vars i)) n vars
      → 0 < ref_of (vars i)
      → drop (vars i) h ≡ ok nil (shared i)
  unfolding drop drop_ref fetch_add
  drop-shared i lt more pos =
      let (stored, _, few) = count_of i lt pos in
      let down : (uses ref_of (ref_of (vars i)) n vars + (2 ^ 64 - 1)) % 2 ^ 64
          ≡ uses ref_of (ref_of (vars i)) n vars - 1 =
        omega arith in
      ground arith

  drop_last :
      (i : ℕ)
      → i < n
      → uses ref_of (ref_of (vars i)) n vars ≡ 1
      → 0 < ref_of (vars i)
      → drop (vars i) h ≡ ok nil (freed i)
  unfolding drop drop_ref fetch_add delete_count delete_block
  drop_last i lt last pos =
      let (stored, _, _) = count_of i lt pos in
      let at_one : h.count (ref_of (vars i)) ≡ some 1 = stored ∙ ap some last in
      let (items, live) = o.alive i lt (ground (arith, o.whole i lt)) in
      ground (arith, o.whole i lt)

  module _ (i : ℕ) (lt : i < n) (pos : 0 < ref_of (vars i)) where
    abbrev left : Vars
    left = update vars i nil

    left-uses :
        (p : ℕ)
        → 0 < p
        → uses ref_of p n left + one_if (ref_of (vars i) == p) ≡ uses ref_of p n vars
    left-uses p some_p = ground (arith, uses-update ref_of p vars n i nil lt)

    left-uses_alloc :
        (a : ℕ)
        → 0 < a
        → uses alloc_of a n left + one_if (alloc_of (vars i) == a) ≡ uses alloc_of a n vars
    left-uses_alloc a some_a = ground (arith, uses-update alloc_of a vars n i nil lt)

    left_whole :
        (j : ℕ)
        → j < n
        → ((alloc_of (left j) ≡ 0) × (ref_of (left j) ≡ 0))
          ⊎ ((0 < alloc_of (left j)) × (0 < ref_of (left j)))
    left_whole j below = ground (arith, o.whole j below)

    left_paired :
        (j k : ℕ)
        → j < n
        → k < n
        → (alloc_of (left j) ≡ alloc_of (left k)) ↔ (ref_of (left j) ≡ ref_of (left k))
    left_paired j k lj lk = (
      (λ e. ground (arith, o.paired j k lj lk, o.whole j lj, o.whole k lk)),
      λ e. ground (arith, o.paired j k lj lk, o.whole j lj, o.whole k lk),
    )

    left_fresh : (j : ℕ) → j < n → (alloc_of (left j) ≤ h.next) × (ref_of (left j) ≤ h.next)
    left_fresh j below = ground (arith, o.fresh j below)

    -- With another owner left, the allocation stays and its count falls by one.
    shared-Owned : 1 < uses ref_of (ref_of (vars i)) n vars → Owned (shared i) n left
    shared-Owned more = record {
      whole = left_whole;
      counts = λ p some_p. ground (arith, left-uses p some_p, o.counts p some_p);
      paired = left_paired;
      alive = λ j below some_a. ground (arith, o.alive j below);
      reachable = λ a some_a unused. elim (ℕ_discrete (alloc_of (vars i)) a) [
        | yes same ↦
            let (j, below, ne, e) = uses_two ref_of (ref_of (vars i)) vars n i lt refl more in
            let also : alloc_of (vars j) ≡ a = (o.paired j i below lt).1 e ∙ same in
            absurd (ground (arith, uses_pos alloc_of a left n j below))
        | no other ↦ o.reachable a some_a (ground (arith, left-uses_alloc a some_a))
      ];
      fresh = left_fresh;
    }

    -- Without one, allocation and count are freed.
    freed-Owned : uses ref_of (ref_of (vars i)) n vars ≡ 1 → Owned (freed i) n left
    freed-Owned last = record {
      whole = left_whole;
      counts = λ p some_p. ground (arith, left-uses p some_p, o.counts p some_p);
      paired = left_paired;
      alive = λ j below some_a. elim (ℕ_discrete (alloc_of (vars i)) (alloc_of (left j))) [
        | yes same ↦
            let kept : left j ≡ vars j = ground arith in
            let also : ref_of (left j) ≡ ref_of (vars i) =
              ap ref_of kept ∙ (o.paired j i below lt).0 (sym (ap alloc_of kept) ∙ sym same) in
            absurd (
              ground (
                arith,
                uses_pos ref_of (ref_of (vars i)) left n j below also,
                left-uses (ref_of (vars i)) pos,
              ))
        | no other ↦ ground (arith, o.alive j below)
      ];
      reachable = λ a some_a unused. elim (ℕ_discrete (alloc_of (vars i)) a) [
        | yes same ↦ ground arith
        | no other ↦ ground (arith, o.reachable a some_a, left-uses_alloc a some_a)
      ];
      fresh = left_fresh;
    }

-- Where memory and owners are in step and no count can wrap, dropping a variable's reference is
-- defined, and leaves them in step.
pub drop-Owned :
    {A : Type 0} (h : Heap A) (n : ℕ) (vars : Vars) (i : ℕ)
    → Owned h n vars
    → Bounded n
    → i < n
    → (h' : Heap A) × (drop (vars i) h ≡ ok nil h')
      × Owned h' n (update vars i nil)
      × (h'.next ≡ h.next)
drop-Owned h n vars i o bound lt = elim (dec_lt 0 (ref_of (vars i))) [
  | yes pos ↦ elim (dec_lt 1 (uses ref_of (ref_of (vars i)) n vars)) [
    | yes more ↦ (
      shared h n vars o bound i,
      drop-shared h n vars o bound i lt more pos,
      shared-Owned h n vars o bound i lt pos more,
      refl,
    )
    | no few ↦
        let last : uses ref_of (ref_of (vars i)) n vars ≡ 1 =
          omega (arith, uses_pos ref_of (ref_of (vars i)) vars n i lt refl) in
        (
          freed h n vars o bound i,
          drop_last h n vars o bound i lt last pos,
          freed-Owned h n vars o bound i lt pos last,
          refl,
        )
  ]
  | no none_held ↦
      let zero_ref : ref_of (vars i) ≡ 0 = omega arith in
      let is_nil : vars i ≡ nil = ground (arith, o.whole i lt) in
      let same : update vars i nil ≡ vars = update_same vars i nil is_nil in
      (h, drop-nil h n vars o bound i lt zero_ref, rw same o, refl)
]
