-- ===== src/Slice/Grow.antt =====
-- `push` of api/slice.hpp where the capacity is used up: a new allocation, and the old one given up.
use julelang.Prelude.{
  ℕ, zero, suc, ◌+◌, ◌-◌, ◌%◌, ◌^◌, ◌<◌, ◌≡◌, ◌≢◌, refl, subst, true, false, not, ◌&&◌, List, arith,
  replicate, ◌==◌, if◌then◌else◌, some, none,
}
use julelang.Heap.{
  Heap, Cmd, ok, pure, put, ◌>>=◌, ◌>>◌, new_block, new_count, fetch_add, load_count, delete_count,
  delete_block,
}
use julelang.Ref
use julelang.Ref.{Ref, nil, make_ptr, get_ref_n, drop_ref, add_ref, take_over}
use julelang.Slice.{Slice, empty_slice, is_nil, alloc_new, adopt, dealloc, assign, destroy}
use julelang.Slice.Release.{Counted, with_count, released, destroy_shared, lowered}
use julelang.Ref.Assign.{assign-nil}

-- A slice that was given up while it had other owners.
abbrev pub loosened : Slice → Slice
loosened s = record s { len = 0; cap = 0; refs = record { alloc = 0; ref = s.refs.ref } }

module _ {A : Type 0} where
  abbrev pub fresh : Heap A → ℕ → ℕ → Slice
  fresh h len cap = record {
    refs = record { alloc = suc h.next; ref = suc (suc h.next) };
    base = suc h.next;
    off = 0;
    len = len;
    cap = cap;
  }

  abbrev pub with_fresh : A → Heap A → ℕ → Heap A
  with_fresh fill h cap = record h {
    block = put h.block (suc h.next) (some (replicate cap fill));
    count =
        put (put (put h.count (suc (suc h.next)) (some 1)) (suc (suc h.next)) (some 2))
          (suc (suc h.next)) (some 1);
    next = suc (suc h.next);
  }

  -- With memory for the items and their count, a new slice is the one owner of a new block.
  pub alloc_new-fresh :
      (fill : A) (h : Heap A) (len cap : ℕ)
      → h.grants h.next ≡ true
      → h.grants (suc h.next) ≡ true
      → alloc_new fill empty_slice len cap h ≡ ok (fresh h len cap) (with_fresh fill h cap)
  unfolding alloc_new dealloc adopt make_ptr Ref.assign take_over Ref.drop add_ref drop_ref
      new_block new_count fetch_add
  alloc_new-fresh fill h len cap items counts =
      let up : (1 + 1) % 2 ^ 64 ≡ 2 = omega arith in
      let down : (2 + (2 ^ 64 - 1)) % 2 ^ 64 ≡ 1 = omega arith in ground arith

  -- The end of `push`: `this` is given up, takes what `new` holds, and `new` ends.
  unfoldable pub move_to : Slice → Slice → Cmd A Slice
  move_to this new = do cleared ← dealloc this; s' ← assign cleared new; destroy new; pure s'

  -- Taking over from a slice that ends: two owners for a moment, then one.
  module _ (h : Heap A) (new : Slice) (items : List A) (c : Counted h new.refs 1 items)
      (nonnil : 0 < new.base) where
    abbrev two_owners : Heap A
    two_owners = with_count h new.refs (some 2)

    abbrev pub one_owner : Heap A
    one_owner = with_count two_owners new.refs (some 1)

    shared_once : Ref.assign nil new.refs h ≡ ok new.refs two_owners
    shared_once = assign-nil h new.refs 1 c.counted c.count (omega arith)

    ended : destroy new two_owners ≡ ok tt one_owner
    ended = destroy_shared two_owners new items 0 (lowered h new.refs 1 2 items c) (omega arith)

    not_nil : (new.base == 0) ≡ false
    not_nil = ground arith

    -- A slice without a reference takes it.
    settled :
        (cleared : Slice)
        → cleared.refs ≡ nil
        → (assign cleared new >>= λ s'. destroy new >> pure s') h ≡ ok new one_owner
    unfolding dealloc assign is_nil
    settled cleared e = rw (e, not_nil, shared_once, ended) refl

    pub move_to-nil : move_to empty_slice new h ≡ ok new one_owner
    unfolding move_to dealloc
    move_to-nil = settled empty_slice refl

  -- What giving up a reference leaves of the `n + 1` owners and of the block.
  pub record Left (h h' : Heap A) (r : Ref) (n : ℕ) : Type 0 where
    pub count : h'.count r.ref ≡ (if n == 0 then none else some n)
    pub block : h'.block ≡ (if n == 0 then put h.block r.alloc none else h.block)

  dealloc_last :
      (h : Heap A) (s : Slice) (items : List A)
      → Counted h s.refs 1 items
      → dealloc s h ≡ ok empty_slice (released h s.refs)
  unfolding dealloc get_ref_n load_count delete_count delete_block
  dealloc_last h s items o = ground (arith, o.counted, o.placed, o.count, o.block)

  dealloc_shared :
      (h : Heap A) (s : Slice) (n : ℕ)
      → 0 < s.refs.ref
      → h.count s.refs.ref ≡ some (n + 2)
      → dealloc s h ≡ ok (loosened s) h
  unfolding dealloc get_ref_n load_count
  dealloc_shared h s n counted count = ground (arith, counted, count)

  -- The reference of a slice that was given up while it had other owners is replaced.
  replaced :
      (h : Heap A) (r t : Ref) (n : ℕ)
      → 0 < r.ref
      → h.count r.ref ≡ some (n + 2)
      → n < 2 ^ 64 - 2
      → Ref.assign (record { alloc = 0; ref = r.ref }) t h
        ≡ Ref.assign nil t (with_count h r (some (n + 1)))
  unfolding Ref.assign take_over Ref.drop drop_ref fetch_add
  replaced h r t n counted count few =
      let down : (n + 2 + (2 ^ 64 - 1)) % 2 ^ 64 ≡ n + 1 = omega arith in ground arith

  module _ (h : Heap A) (s new : Slice) (old items : List A) (c : Counted h new.refs 1 items)
      (nonnil : 0 < new.base) (apart : s.refs.ref ≢ new.refs.ref)
      (apart' : s.refs.alloc ≢ new.refs.alloc) where
    pub move_to-last :
        Counted h s.refs 1 old
        → (h' : Heap A) × (move_to s new h ≡ ok new h')
          × Counted h' new.refs 1 items
          × Left h h' s.refs 0
    unfolding move_to
    move_to-last o =
        let gone = released h s.refs in
        let c' : Counted gone new.refs 1 items = record {
          counted = c.counted;
          placed = c.placed;
          count = ground (arith, c.count);
          block = ground (arith, c.block);
        } in
        (
          one_owner gone new items c' nonnil,
          rw (dealloc_last h s old o) (settled gone new items c' nonnil empty_slice refl),
          record { counted = c.counted; placed = c.placed; count = ground arith; block = c'.block },
          record { count = ground arith; block = refl },
        )

    pub move_to-shared :
        (n : ℕ)
        → Counted h s.refs (n + 2) old
        → n < 2 ^ 64 - 2
        → (h' : Heap A) × (move_to s new h ≡ ok new h')
          × Counted h' new.refs 1 items
          × Left h h' s.refs (n + 1)
    unfolding move_to assign is_nil
    move_to-shared n o few =
        let down = with_count h s.refs (some (n + 1)) in
        let c' : Counted down new.refs 1 items = record {
          counted = c.counted;
          placed = c.placed;
          count = ground (arith, c.count);
          block = c.block;
        } in
        (
          one_owner down new items c' nonnil,
          rw
              (
                dealloc_shared h s n o.counted o.count,
                dealloc_shared h (loosened s) n o.counted o.count,
                not_nil down new items c' nonnil,
                replaced h s.refs new.refs n o.counted o.count few,
                shared_once down new items c' nonnil,
                ended down new items c' nonnil,
              )
              refl,
          record { counted = c.counted; placed = c.placed; count = ground arith; block = c'.block },
          record { count = ground arith; block = ground arith },
        )

    -- The assignment of a new slice that ends, as `*this = f()` is, to one of several owners.
    pub assign_to-shared :
        (n : ℕ)
        → Counted h s.refs (n + 2) old
        → n < 2 ^ 64 - 2
        → (h' : Heap A) × ((assign s new >>= λ s'. destroy new >> pure s') h ≡ ok new h')
          × Counted h' new.refs 1 items
          × Left h h' s.refs (n + 1)
    unfolding assign is_nil
    assign_to-shared n o few =
        let down = with_count h s.refs (some (n + 1)) in
        let c' : Counted down new.refs 1 items = record {
          counted = c.counted;
          placed = c.placed;
          count = ground (arith, c.count);
          block = c.block;
        } in
        let differ : (not (s.refs.alloc == 0) && (s.refs.alloc == new.refs.alloc)) ≡ false =
          ground arith in
        (
          one_owner down new items c' nonnil,
          rw
              (
                differ,
                dealloc_shared h s n o.counted o.count,
                not_nil down new items c' nonnil,
                replaced h s.refs new.refs n o.counted o.count few,
                shared_once down new items c' nonnil,
                ended down new items c' nonnil,
              )
              refl,
          record { counted = c.counted; placed = c.placed; count = ground arith; block = c'.block },
          record { count = ground arith; block = ground arith },
        )

    pub move_to-Left :
        (n : ℕ)
        → Counted h s.refs (suc n) old
        → n < 2 ^ 64 - 1
        → (h' : Heap A) × (move_to s new h ≡ ok new h')
          × Counted h' new.refs 1 items
          × Left h h' s.refs n
    move_to-Left zero o few = move_to-last o
    move_to-Left (suc n) o few =
        let two : suc (suc n) ≡ n + 2 = omega arith in
        let one : n + 1 ≡ suc n = omega arith in
        let (h', run, c', left) =
          move_to-shared n (subst (λ (k : ℕ). Counted h s.refs k old) two o) (omega arith) in
        (h', run, c', subst (Left h h' s.refs) one left)
