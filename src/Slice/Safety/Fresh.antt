-- ===== src/Slice/Safety/Fresh.antt =====
-- Allocations of api/slice.hpp under n variables.
use julelang.Prelude.{
  ℕ, suc, ◌≤◌, ◌<◌, ◌≡◌, ◌⊎◌, inl, inr, refl, subst, some, arith, ℕ_discrete, replicate,
  length-replicate, Bool-cases,
}
use julelang.Panic.{allocation_failed}
use julelang.Heap.{Heap, ok, panic, put, new_block, new_count}
use julelang.Ref.{nil, make_ptr}
use julelang.Slice.{Slice, empty_slice, dealloc, alloc_new, adopt}
use julelang.Slice.Grow.{fresh, with_fresh, alloc_new-fresh}
use julelang.Threads.Family.{put_at}
use julelang.Slice.Safety.{Slices, Inside, Safe, holders, holders-put_at, holders_none}

module _ {A : Type 0} (fill : A) (h : Heap A) (n : ℕ) (vars : Slices) (safe : Safe h n vars) (i : ℕ)
    (li : i < n) (empty : (vars i).refs ≡ nil) (len cap : ℕ) (fits : len ≤ cap) where
  abbrev new : Slice
  new = fresh h len cap

  abbrev after : Heap A
  after = with_fresh fill h cap

  unused : (q : ℕ) → h.next < q → holders q n vars ≡ 0
  unused q above = holders_none q n vars (λ j lj e. absurd (omega (arith, e, safe.fresh j lj)))

  old-Inside : (j : ℕ) → j < n → Inside after (vars j)
  old-Inside j lj = record {
    within = (safe.inside j lj).within;
    empty = (safe.inside j lj).empty;
    whole = (safe.inside j lj).whole;
    room = λ pos.
        let (items, live, inner) = (safe.inside j lj).room pos in
        (items, ground (arith, live, safe.fresh j lj), inner);
  }

  new-Inside : Inside after new
  new-Inside = record {
    within = fits;
    empty = λ none_left. absurd (omega (arith, none_left));
    whole = λ pos. (omega arith, refl);
    room = λ pos. (replicate cap fill, ground arith, omega (arith, length-replicate cap fill));
  }

  fresh-Safe : Safe after n (put_at vars i new)
  fresh-Safe = record {
    counts = λ q some_q. ground (
      arith,
      empty,
      safe.counts q some_q,
      unused (suc (suc h.next)) (omega arith),
      holders-put_at q n vars i new li,
    );
    paired =
        λ j k lj lk pj pk. ground (arith, safe.paired j k lj lk, safe.fresh j lj, safe.fresh k lk);
    inside = λ j lj. elim (ℕ_discrete i j) [
      | yes here ↦ subst (Inside after) (ground arith) new-Inside
      | no other ↦ subst (Inside after) (ground arith) (old-Inside j lj)
    ];
    fresh = λ j lj. ground (arith, safe.fresh j lj);
  }

  -- An allocation into a variable without a reference is defined, or panics for want of memory.
  pub alloc_new-Safe :
      ((h' : Heap A) × (s : Slice) × (alloc_new fill empty_slice len cap h ≡ ok s h')
        × Safe h' n (put_at vars i s)
        × (s.len ≡ len)
        × (s.cap ≡ cap))
      ⊎ ((h' : Heap A) × (alloc_new fill empty_slice len cap h ≡ panic allocation_failed h'))
  unfolding alloc_new dealloc adopt make_ptr new_block new_count
  alloc_new-Safe = elim (Bool-cases (h.grants h.next)) [
    | inr no_items ↦ inr (record h { next = suc h.next }, ground arith)
    | inl items ↦ elim (Bool-cases (h.grants (suc h.next))) [
      | inr no_count ↦ inr (
        record h {
          block = put h.block (suc h.next) (some (replicate cap fill));
          next = suc (suc h.next);
        },
        ground arith,
      )
      | inl count ↦
          inl (after, new, alloc_new-fresh fill h len cap items count, fresh-Safe, refl, refl)
    ]
  ]
