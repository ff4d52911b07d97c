-- ===== src/Slice/Safety/Counts.antt =====
-- How api/slice.hpp takes and gives up shares of a count, over n variables.
use julelang.Prelude.{
  ℕ, ◌≤◌, ◌<◌, ◌≡◌, ◌≢◌, refl, ap, ◌∙◌, sym, subst, none, some, Option, arith, ◌==◌, if◌then◌else◌,
  ℕ_discrete,
}
use julelang.Heap.{Heap, ok, put, load_count, delete_count, delete_block}
use julelang.Ref.{nil, get_ref_n}
use julelang.Ref.Ownership.{counted}
use julelang.Slice.{Slice, empty_slice, dealloc}
use julelang.Threads.Family.{put_at}
use julelang.Slice.Safety.{Slices, Inside, Safe, holders, holders-put_at, holders-le, holders_pos}

-- A slice without a block: nothing is in its window.
pub record Cleared (s : Slice) : Type 0 where
  pub alloc : s.refs.alloc ≡ 0
  pub len : s.len ≡ 0
  pub cap : s.cap ≡ 0

-- What attempts to allocate will succeed, and where, is as before.
pub record SameFuture {A : Type 0} (h h' : Heap A) : Type 0 where
  pub next : h'.next ≡ h.next
  pub grants : h'.grants ≡ h.grants

module _ {A : Type 0} where
  pub Cleared-Inside : (h : Heap A) (s : Slice) → Cleared s → Inside h s
  Cleared-Inside h s c = record {
    within = omega (arith, c.len);
    empty = λ _. c.cap;
    whole = λ pos. absurd (omega (arith, c.alloc));
    room = λ pos. absurd (omega (arith, c.alloc));
  }

  module _ (h : Heap A) (n : ℕ) (vars : Slices) (safe : Safe h n vars) (i : ℕ) (li : i < n) where
    abbrev p : ℕ
    p = (vars i).refs.ref

    pub count_of :
        0 < p
        → (h.count p ≡ some (holders p n vars)) × (0 < holders p n vars) × (holders p n vars ≤ n)
    count_of pos =
        let some_use = holders_pos p n vars i li refl in
        (ground (arith, safe.counts p pos, some_use), some_use, holders-le p n vars)

    -- A variable gives up its block, and counts change with it.
    pub reshare :
        (s : Slice) (f : ℕ → Option ℕ)
        → Cleared s
        → s.refs.ref ≤ h.next
        → ((q : ℕ) → 0 < q → f q ≡ counted (holders q n (put_at vars i s)))
        → Safe (record h { count = f }) n (put_at vars i s)
    reshare s f c below exact = record {
      counts = exact;
      paired = λ j k lj lk pj pk. ground (arith, safe.paired j k lj lk, c.alloc);
      inside = λ j lj. elim (ℕ_discrete i j) [
        | yes here ↦
            subst (Inside (record h { count = f })) (ground arith)
              (Cleared-Inside (record h { count = f }) s c)
        | no other ↦ subst (Inside (record h { count = f })) (ground arith) (kept j lj)
      ];
      fresh = λ j lj. ground (arith, safe.fresh j lj, c.alloc, below);
    }
      where
        kept : (j : ℕ) → j < n → Inside (record h { count = f }) (vars j)
        kept j lj = record {
          within = (safe.inside j lj).within;
          empty = (safe.inside j lj).empty;
          whole = (safe.inside j lj).whole;
          room = (safe.inside j lj).room;
        }

    -- It keeps its share of the count.
    loosen : (s : Slice) → Cleared s → s.refs.ref ≡ p → Safe h n (put_at vars i s)
    loosen s c same =
        reshare s h.count c (omega (arith, same, safe.fresh i li))
          (λ q some_q. ground (arith, safe.counts q some_q, holders-put_at q n vars i s li, same))

    abbrev a : ℕ
    a = (vars i).refs.alloc

    abbrev gone : Heap A
    gone = record h {
      count = put h.count p none;
      block = if a == 0 then h.block else put h.block a none;
    }

    -- The last holder of a count shares its block with no other variable.
    alone : holders p n vars ≡ 1 → 0 < p → (j : ℕ) → j < n → i ≢ j → (vars j).refs.ref ≢ p
    alone last pos j lj other e =
        let kept : (put_at vars i empty_slice j).refs.ref ≡ p = ground (arith, e) in
        let still = holders_pos p n (put_at vars i empty_slice) j lj kept in
        absurd (ground (arith, still, holders-put_at p n vars i empty_slice li, last))

    gone-Inside : holders p n vars ≡ 1 → 0 < p → (j : ℕ) → j < n → i ≢ j → Inside gone (vars j)
    gone-Inside last pos j lj other = record {
      within = (safe.inside j lj).within;
      empty = (safe.inside j lj).empty;
      whole = (safe.inside j lj).whole;
      room = λ real.
          let (items, live, fits) = (safe.inside j lj).room real in
          let apart : a ≢ (vars j).refs.alloc = λ e.
            alone last pos j lj other (sym ((safe.paired i j li lj (omega (arith, e)) real).0 e)) in
          (items, ground (arith, live, apart), fits);
    }

    -- The last holder frees count and block.
    free : holders p n vars ≡ 1 → 0 < p → Safe gone n (put_at vars i empty_slice)
    free last pos = record {
      counts = λ q some_q.
          ground (arith, safe.counts q some_q, holders-put_at q n vars i empty_slice li, last);
      paired = λ j k lj lk pj pk. ground (arith, safe.paired j k lj lk);
      inside = λ j lj. elim (ℕ_discrete i j) [
        | yes here ↦
            subst (Inside gone) (ground arith)
              (Cleared-Inside gone empty_slice (record { alloc = refl; len = refl; cap = refl }))
        | no other ↦ subst (Inside gone) (ground arith) (gone-Inside last pos j lj other)
      ];
      fresh = λ j lj. ground (arith, safe.fresh j lj);
    }

    dealloc-gone :
        holders p n vars ≡ 1
        → 0 < p
        → dealloc (vars i) h
          ≡ ok (record (vars i) { len = 0; cap = 0; refs = nil; base = 0; off = 0 }) gone
    unfolding dealloc get_ref_n load_count delete_count delete_block
    dealloc-gone last pos =
        let one : h.count p ≡ some 1 = (count_of pos).0 ∙ ap some last in
        elim (ℕ_discrete a 0) [
          | yes none_left ↦ ground arith
          | no real ↦ let (items, live, _) = (safe.inside i li).room (omega arith) in ground arith
        ]

    -- `dealloc` is defined, and leaves a slice without a block.
    pub dealloc-Safe :
        (s : Slice) × (h' : Heap A) × (dealloc (vars i) h ≡ ok s h')
        × Safe h' n (put_at vars i s)
        × Cleared s
        × SameFuture h h'
    unfolding dealloc get_ref_n load_count
    dealloc-Safe = elim (ℕ_discrete p 0) [
      | yes unheld ↦
          let s = record (vars i) { len = 0; cap = 0; refs = record { alloc = 0; ref = p } } in
          let c : Cleared s = record { alloc = refl; len = refl; cap = refl } in
          (s, h, ground arith, loosen s c refl, c, record { next = refl; grants = refl })
      | no held ↦ elim (ℕ_discrete (holders p n vars) 1) [
        | yes last ↦ (
          empty_slice,
          gone,
          dealloc-gone last (omega arith),
          free last (omega arith),
          record { alloc = refl; len = refl; cap = refl },
          record { next = refl; grants = refl },
        )
        | no more ↦
            let s = record (vars i) { len = 0; cap = 0; refs = record { alloc = 0; ref = p } } in
            let c : Cleared s = record { alloc = refl; len = refl; cap = refl } in
            let stored = (count_of (omega arith)).0 in
            (
              s,
              h,
              ground (arith, stored, more),
              loosen s c refl,
              c,
              record { next = refl; grants = refl },
            )
      ]
    ]
