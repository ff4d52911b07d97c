-- ===== src/Slice/Safety/Shares.antt =====
-- How the variables of api/slice.hpp take shares of a count, and allocate.
use julelang.Prelude.{
  ℕ, ◌+◌, ◌-◌, ◌%◌, ◌^◌, ◌<◌, ◌≡◌, refl, subst, none, some, Option, arith, ℕ_discrete,
}
use julelang.Heap.{Heap, ok, put, fetch_add, delete_count, delete_block}
use julelang.Ref
use julelang.Ref.{Ref, nil, delta, add_ref, drop_ref, get_ref_n, take_over, make_ptr}
use julelang.Ref.Assign.{assign-nil}
use julelang.Ref.Ownership.{counted}
use julelang.Slice.{Slice}
use julelang.Threads.Family.{put_at}
use julelang.Slice.Safety.{Slices, Inside, Safe, Bounded, holders, holders-put_at}
use julelang.Slice.Safety.Counts.{Cleared, SameFuture, count_of, reshare}

module _ {A : Type 0} (h : Heap A) (n : ℕ) (vars : Slices) (safe : Safe h n vars)
    (bound : Bounded n) (i : ℕ) (li : i < n) where
  abbrev p : ℕ
  p = (vars i).refs.ref

  abbrev held : ℕ
  held = holders p n vars

  lower :
      (s : Slice) (f : ℕ → Option ℕ)
      → Cleared s
      → s.refs.ref ≡ 0
      → 0 < p
      → ((q : ℕ) → f q ≡ put h.count p (counted (held - 1)) q)
      → Safe (record h { count = f }) n (put_at vars i s)
  lower s f c unheld pos e = reshare h n vars safe i li s f c (omega (arith, unheld)) (λ q some_q.
      ground (arith, e q, safe.counts q some_q, holders-put_at q n vars i s li, unheld, pos))

  -- The rest of a slice without a block gives up its share of the count.
  pub drop-Safe :
      (s : Slice)
      → Cleared s
      → s.refs.ref ≡ 0
      → Cleared (vars i)
      → (h' : Heap A) × (Ref.drop (vars i).refs h ≡ ok nil h')
        × Safe h' n (put_at vars i s)
        × SameFuture h h'
  unfolding Ref.drop drop_ref fetch_add delete_count delete_block
  drop-Safe s c unheld given = elim (ℕ_discrete p 0) [
    | yes none_held ↦ (
      h,
      ground (arith, given.alloc),
      reshare h n vars safe i li s h.count c (omega (arith, unheld)) (λ q some_q.
          ground (arith, safe.counts q some_q, holders-put_at q n vars i s li, unheld)),
      record { next = refl; grants = refl },
    )
    | no some_held ↦
        let (stored, pos, few) = count_of h n vars safe i li (omega arith) in
        let down : (held + (2 ^ 64 - 1)) % 2 ^ 64 ≡ held - 1 = omega arith in
        elim (ℕ_discrete held 1) [
          | yes last ↦ (
            record h { count = put (put h.count p (some 0)) p none },
            ground (arith, given.alloc, stored, down, last),
            lower s (put (put h.count p (some 0)) p none) c unheld (omega arith)
                (λ q. ground (arith, last)),
            record { next = refl; grants = refl },
          )
          | no more ↦ (
            record h { count = put h.count p (some (held - 1)) },
            ground (arith, given.alloc, stored, down, more),
            lower s (put h.count p (some (held - 1))) c unheld (omega arith)
                (λ q. ground (arith, more)),
            record { next = refl; grants = refl },
          )
        ]
  ]

-- What lies in memory under other counts.
pub Inside-count :
    {A : Type 0} (h : Heap A) (f : ℕ → Option ℕ) (s : Slice)
    → Inside h s
    → Inside (record h { count = f }) s
Inside-count h f s inside = record {
  within = inside.within;
  empty = inside.empty;
  whole = inside.whole;
  room = inside.room;
}

module _ {A : Type 0} (h : Heap A) (n : ℕ) (vars : Slices) (safe : Safe h n vars)
    (bound : Bounded n) (i j : ℕ) (li : i < n) (lj : j < n) (empty : (vars i).refs ≡ nil)
    (t : Slice) (same : t.refs ≡ (vars j).refs) (inside : Inside h t) where
  abbrev r : Ref
  r = (vars j).refs

  retake :
      (f : ℕ → Option ℕ)
      → ((q : ℕ) → 0 < q → f q ≡ counted (holders q n (put_at vars i t)))
      → Safe (record h { count = f }) n (put_at vars i t)
  retake f exact = record {
    counts = exact;
    paired = λ k l lk ll pk pl.
        ground (arith, same, safe.paired k l lk ll, safe.paired j l lj ll, safe.paired k j lk lj);
    inside = λ k lk. elim (ℕ_discrete i k) [
      | yes here ↦
          subst (Inside (record h { count = f })) (ground arith) (Inside-count h f t inside)
      | no other ↦
          subst (Inside (record h { count = f })) (ground arith)
            (Inside-count h f (vars k) (safe.inside k lk))
    ];
    fresh = λ k lk. ground (arith, same, safe.fresh k lk, safe.fresh j lj);
  }

  -- A variable without a reference takes that of another one, with a window in its block.
  pub take-Safe :
      (h' : Heap A) × (Ref.assign nil r h ≡ ok r h') × Safe h' n (put_at vars i t) × SameFuture h h'
  unfolding Ref.assign take_over Ref.drop
  take-Safe = elim (ℕ_discrete r.ref 0) [
    | yes unheld ↦ (
      h,
      ground arith,
      retake h.count (λ q some_q.
          ground
            (arith, same, empty, unheld, safe.counts q some_q, holders-put_at q n vars i t li)),
      record { next = refl; grants = refl },
    )
    | no held ↦
        let m = holders r.ref n vars in
        let (stored, pos, few) = count_of h n vars safe j lj (omega arith) in
        (
          record h { count = put h.count r.ref (some (m + 1)) },
          assign-nil h r m (omega arith) stored (omega arith),
          retake (put h.count r.ref (some (m + 1))) (λ q some_q.
              ground
                (arith, same, empty, held, safe.counts q some_q, holders-put_at q n vars i t li)),
          record { next = refl; grants = refl },
        )
  ]

-- A variable takes another window in its block.
pub rewindow :
    {A : Type 0} (h : Heap A) (n : ℕ) (vars : Slices)
    → Safe h n vars
    → (i : ℕ) → i < n
    → (t : Slice) → t.refs ≡ (vars i).refs
    → Inside h t
    → Safe h n (put_at vars i t)
rewindow h n vars safe i li t same inside = record {
  counts = λ q some_q. ground (arith, same, safe.counts q some_q, holders-put_at q n vars i t li);
  paired = λ k l lk ll pk pl. ground (arith, same, safe.paired k l lk ll);
  inside = λ k lk. elim (ℕ_discrete i k) [
    | yes here ↦ subst (Inside h) (ground arith) inside
    | no other ↦ subst (Inside h) (ground arith) (safe.inside k lk)
  ];
  fresh = λ k lk. ground (arith, same, safe.fresh k lk);
}
