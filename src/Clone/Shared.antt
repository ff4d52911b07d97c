-- ===== src/Clone/Shared.antt =====
-- The clone of a trait by api/derive/clone.hpp is the trait itself.
use julelang.Prelude.{
  ℕ, suc, ◌+◌, ◌-◌, ◌%◌, ◌^◌, ◌≤◌, ◌<◌, ◌≡◌, ◌≢◌, refl, true, false, not, ◌&&◌, none, some, List,
  [], ◌∷◌, ◌==◌, arith, ◌∙◌,
}
use julelang.Heap.{
  Heap, ok, new_count, new_block, fetch_add, load_block, delete_count, delete_block, put,
}
use julelang.Ref
use julelang.Ref.{Ref, nil, make, make_counted, get, must_ok, real, add_ref, drop_ref, take_over}
use julelang.Ref.Assign.{assign-nil}
use julelang.Slice.Release.{Counted, with_count}
use julelang.Trait.{Trait, nil_trait, assign_trait, trait_dealloc, trait_is_nil}
use julelang.Clone.{clone_ref, clone_trait}

module _ {A : Type 0} where
  drop_shared :
      (h : Heap A) (r : Ref) (n : ℕ)
      → 0 < r.ref
      → h.count r.ref ≡ some (n + 2)
      → n < 2 ^ 64 - 2
      → Ref.drop r h ≡ ok nil (with_count h r (some (n + 1)))
  unfolding Ref.drop drop_ref fetch_add
  drop_shared h r n pos stored few =
      let down : (n + 2 + (2 ^ 64 - 1)) % 2 ^ 64 ≡ n + 1 = omega arith in ground arith

  drop_last :
      (h : Heap A) (r : Ref) (items : List A)
      → Counted h r 1 items
      → Ref.drop r h
        ≡ ok nil (record (with_count (with_count h r (some 0)) r none) {
          block = put h.block r.alloc none;
        })
  unfolding Ref.drop drop_ref fetch_add delete_count delete_block
  drop_last h r items c =
      let down : (1 + (2 ^ 64 - 1)) % 2 ^ 64 ≡ 0 = omega arith in
      ground (arith, c.counted, c.placed, c.count, c.block)

  drop_none : (h : Heap A) → Ref.drop nil h ≡ ok nil h
  unfolding Ref.drop
  drop_none h = refl

  -- Assigning a reference to another allocation is dropping, then copying.
  take-over :
      (h h' : Heap A) (r t : Ref)
      → r.alloc ≢ t.alloc
      → Ref.drop r h ≡ ok nil h'
      → Ref.assign r t h ≡ Ref.assign nil t h'
  unfolding Ref.assign take_over
  take-over h h' r t apart dropped =
      let differ : (not (r.alloc == 0) && (r.alloc == t.alloc)) ≡ false = ground arith in
      rw (differ, dropped, drop_none h') refl

  copy_trait :
      (h : Heap A) (t : Trait) (n : ℕ)
      → 0 < t.ref.alloc
      → 0 < t.ref.ref
      → h.count t.ref.ref ≡ some n
      → n < 2 ^ 64 - 1
      → assign_trait nil_trait t h ≡ ok t (with_count h t.ref (some (n + 1)))
  unfolding assign_trait trait_dealloc trait_is_nil Ref.drop
  copy_trait h t n placed pos stored few = ground (arith, assign-nil h t.ref n pos stored few)

  clone_ref-fresh :
      (dup : A → A) (h : Heap A) (r : Ref) (v : A) (vs : List A)
      → 0 < r.alloc
      → h.block r.alloc ≡ some (v ∷ vs)
      → h.grants h.next ≡ true
      → h.grants (suc h.next) ≡ true
      → clone_ref dup r h
        ≡ ok
            (record { alloc = suc (suc h.next); ref = suc h.next })
            (record h {
              count = put h.count (suc h.next) (some 1);
              block = put h.block (suc (suc h.next)) (some (dup v ∷ []));
              next = suc (suc h.next);
            })
  unfolding clone_ref get must_ok real make make_counted new_count new_block load_block
  clone_ref-fresh dup h r v vs placed live g1 g2 = ground arith

  module _ (dup : A → A) (h : Heap A) (t : Trait) (v : A) (vs : List A) (m : ℕ)
      (c : Counted h t.ref (m + 1) (v ∷ vs)) (few : m < 2 ^ 64 - 3) (seen : t.ref.ref ≤ h.next)
      (seen' : t.ref.alloc ≤ h.next) (g1 : h.grants h.next ≡ true)
      (g2 : h.grants (suc h.next) ≡ true) where
    abbrev twin : Ref
    twin = record { alloc = suc (suc h.next); ref = suc h.next }

    abbrev copied : Heap A
    copied = with_count h t.ref (some (m + 1 + 1))

    abbrev cloned : Heap A
    cloned = record copied {
      count = put copied.count (suc h.next) (some 1);
      block = put h.block (suc (suc h.next)) (some (dup v ∷ []));
      next = suc (suc h.next);
    }

    abbrev given : Heap A
    given = with_count (with_count cloned t.ref (some (m + 1))) twin (some (1 + 1))

    abbrev alone : Heap A
    alone = with_count given twin (some (0 + 1))

    abbrev again : Heap A
    again = with_count alone t.ref (some (m + 1 + 1))

    abbrev ended : Heap A
    ended = record (with_count (with_count again twin (some 0)) twin none) {
      block = put again.block twin.alloc none;
    }

    -- The clone of a trait is the trait: it shares the value with the original, as one owner more.
    pub clone_trait-shares :
        (h' : Heap A) × (clone_trait dup t h ≡ ok t h') × Counted h' t.ref (m + 2) (v ∷ vs)
    unfolding clone_trait
    clone_trait-shares =
        let apart : t.ref.alloc ≢ twin.alloc = λ e. absurd (omega (arith, e)) in
        let first = copy_trait h t (m + 1) c.placed c.counted c.count (omega arith) in
        let made = clone_ref-fresh dup copied t.ref v vs c.placed c.block g1 g2 in
        let two : cloned.count t.ref.ref ≡ some (m + 2) = ground arith in
        let dropped = drop_shared cloned t.ref m c.counted two (omega arith) in
        let one : (with_count cloned t.ref (some (m + 1))).count twin.ref ≡ some 1 = ground arith in
        let taken : Ref.assign t.ref twin cloned ≡ ok twin given =
          take-over cloned (with_count cloned t.ref (some (m + 1))) t.ref twin apart dropped
          ∙ assign-nil (with_count cloned t.ref (some (m + 1))) twin 1 (omega arith) one
              (omega arith) in
        let temporary : Ref.drop twin given ≡ ok nil alone =
          drop_shared given twin 0 (omega arith) (ground arith) (omega arith) in
        let back : alone.count t.ref.ref ≡ some (m + 1) = ground arith in
        let second = copy_trait alone t (m + 1) c.placed c.counted back (omega arith) in
        let gone : Ref.drop twin again ≡ ok nil ended = drop_last again twin (dup v ∷ []) (record {
          counted = omega arith;
          placed = omega arith;
          count = ground arith;
          block = ground arith;
        }) in
        (
          ended,
          rw (first, made, taken, temporary, second, gone) refl,
          record {
            counted = c.counted;
            placed = c.placed;
            count = ground arith;
            block = ground (arith, c.block);
          },
        )
