-- ===== src/Builtin/Grow.antt =====
-- What `append` of api/builtin.hpp leaves in memory where it allocates.
use julelang.Prelude.{
  length-replicate, replicate-add, ℕ, suc, ◌+◌, ◌-◌, ◌*◌, ◌^◌, ◌≤◌, ◌<◌, ◌≡◌, ◌≢◌, refl, ap, ◌∙◌,
  sym, true, false, List, [], ◌++◌, arith, length, length-append, ◌&&◌, ltb, ◌==◌, replicate,
  append-nil, append_assoc, some, Option,
}
use julelang.Heap.{Heap, ok, put}
use julelang.Slice.{Slice, is_nil, alloc, copy_range}
use julelang.Slice.Memory.{At}
use julelang.Slice.Items.{Holds, Untouched}
use julelang.Slice.Release.{Counted}
use julelang.Slice.Grow.{fresh, with_fresh, alloc_new-fresh, assign_to-shared}
use julelang.Slice.Push.{put_same}
use julelang.Builtin.{append, alloc_for_append, reserve}
use julelang.Builtin.Returned.{copy-At, At-block, give-Counted}

module _ {A : Type 0} where
  -- Where the capacity does not reach: a new block, with the old items in front.
  module _ (fill : A) (h : Heap A) (s : Slice) (xs items : List A) (m n : ℕ) (holds : Holds h s xs)
      (full : s.cap < s.len + m) (c : Counted h s.refs (n + 2) items) (few : n < 2 ^ 64 - 2)
      (seen : s.base ≤ h.next) (seen' : s.refs.ref ≤ h.next) (seen'' : s.refs.alloc ≤ h.next)
      (g1 : h.grants h.next ≡ true) (g2 : h.grants (suc h.next) ≡ true) where
    abbrev cap : ℕ
    cap = (s.len + m) * 2

    abbrev spare : List A
    spare = replicate m fill ++ replicate (s.len + m) fill

    abbrev start : Heap A
    start = with_fresh fill h cap

    abbrev grown : Slice
    grown = record (fresh h 0 cap) { len = s.len }

    room : At start (suc h.next) 0 ([] ++ (replicate s.len fill ++ spare))
    room = record {
      front = [];
      rest = [];
      holds =
          put_same h.block (suc h.next) (some (replicate cap fill))
          ∙ ap (λ (l : List A). some l) divided;
      starts = refl;
    }
      where
        divided : replicate cap fill ≡ (replicate s.len fill ++ spare) ++ []
        divided =
            ap (λ (k : ℕ). replicate k fill) (omega arith)
            ∙ replicate-add s.len (m + (s.len + m)) fill
            ∙ ap (λ (l : List A). replicate s.len fill ++ l) (replicate-add m (s.len + m) fill)
            ∙ sym (append-nil (replicate s.len fill ++ spare))

    copied :
        (h' : Heap A) × (copy_range s.base s.off s.len (suc h.next) 0 start ≡ ok tt h')
        × At h' (suc h.next) 0 (xs ++ spare)
        × Untouched start h' (suc h.next)
    copied =
        let old = At-block h start s.base s.off xs (ground arith) holds.here in
        let (h', run, at, same) =
          copy-At start s.base s.off (suc h.next) 0 xs [] (replicate s.len fill) spare old room
            (length-replicate s.len fill ∙ sym holds.len) in
        (
          h',
          ap (λ (k : ℕ). copy_range s.base s.off k (suc h.next) 0 start) (sym holds.len) ∙ run,
          at,
          same,
        )

    reserved :
        (h' : Heap A) × (reserve fill s m h ≡ ok grown h')
        × At h' (suc h.next) 0 (xs ++ spare)
        × (h'.count (suc (suc h.next)) ≡ some 1)
        × (h'.count s.refs.ref ≡ some (n + 1))
        × ((q : ℕ) → q ≢ suc h.next → h'.block q ≡ h.block q)
    unfolding reserve alloc_for_append alloc
    reserved =
        let (h1, run, at, same) = copied in
        let apart : s.refs.ref ≢ suc (suc h.next) = λ e. absurd (omega (arith, e)) in
        let apart' : s.refs.alloc ≢ suc h.next = λ e. absurd (omega (arith, e)) in
        let sole : Counted h1 grown.refs 1 (at.front ++ ((xs ++ spare) ++ at.rest)) = record {
          counted = omega arith;
          placed = omega arith;
          count =
              ap (λ (f : ℕ → Option ℕ). f (suc (suc h.next))) same.count
              ∙ put_same (put (put h.count (suc (suc h.next)) (some 1)) (suc (suc h.next)) (some 2))
                  (suc (suc h.next)) (some 1);
          block = at.holds;
        } in
        let before : start.count s.refs.ref ≡ some (n + 2) = ground (arith, c.count) in
        let before' : start.block s.refs.alloc ≡ some items = ground (arith, c.block) in
        let owned : Counted h1 s.refs (n + 2) items = record {
          counted = c.counted;
          placed = c.placed;
          count = ap (λ (f : ℕ → Option ℕ). f s.refs.ref) same.count ∙ before;
          block = same.others s.refs.alloc apart' ∙ before';
        } in
        let (h2, moved, c', left) =
          assign_to-shared h1 s grown items (at.front ++ ((xs ++ spare) ++ at.rest)) sole
            (omega arith) apart apart' n owned few in
        let over : ltb s.cap (s.len + m) ≡ true = ground arith in
        let fits : ltb cap 0 ≡ false = ground arith in
        let one_left : h2.count s.refs.ref ≡ some (n + 1) = left.count ∙ ground arith in
        let kept : h2.block ≡ h1.block = left.block ∙ ground arith in
        (
          h2,
          rw (over, fits, alloc_new-fresh fill h 0 cap g1 g2, run) moved,
          At-block h1 h2 (suc h.next) 0 (xs ++ spare)
              (ap (λ (f : ℕ → Option (List A)). f (suc h.next)) kept) at,
          c'.count,
          one_left,
          λ q other.
              ap (λ (f : ℕ → Option (List A)). f q) kept ∙ same.others q other ∙ ground arith,
        )

    -- With memory for the new block and its count, appending to a slice that is not nil items for which
    -- the capacity does not reach returns a slice of all items, on a new block with twice the room,
    -- and gives up one of the two or more owners of the old block. The slices' addresses are among
    -- those given out before, and the count does not wrap.
    pub append_grow-Holds :
        (t : Slice) (ys : List A)
        → Holds h t ys
        → t.len ≡ m
        → t.base ≤ h.next
        → (s' : Slice) × (h' : Heap A) × (append fill s t h ≡ ok s' h')
          × Holds h' s' (xs ++ ys)
          × (s'.cap ≡ (s.len + t.len) * 2)
          × (h'.count s'.refs.ref ≡ some 1)
          × (h'.count s.refs.ref ≡ some (n + 1))
    unfolding append is_nil
    append_grow-Holds t ys from many below =
        let (h2, reserve_run, at, one, left, kept) = reserved in
        let apart : t.base ≢ suc h.next = λ e. absurd (omega (arith, e)) in
        let source = At-block h h2 t.base t.off ys (kept t.base apart) from.here in
        let behind = replicate (s.len + m) fill in
        let (h3, run, at3, same) =
          copy-At h2 t.base t.off (suc h.next) 0 ys xs (replicate m fill) behind source at
            (length-replicate m fill ∙ sym many ∙ sym from.len) in
        let new = record (fresh h 0 cap) { len = s.len + t.len } in
        let c' : Counted h3 new.refs (0 + 1) (at3.front ++ ((xs ++ (ys ++ behind)) ++ at3.rest)) =
          record {
            counted = omega arith;
            placed = omega arith;
            count = ap (λ (f : ℕ → Option ℕ). f (suc (suc h.next))) same.count ∙ one;
            block = at3.holds;
          } in
        let (h4, given, count, block, others) =
          give-Counted h3 new 0 (at3.front ++ ((xs ++ (ys ++ behind)) ++ at3.rest)) c' (omega arith)
            (omega arith) in
        let not_nil : (is_nil s && is_nil t) ≡ false = ground (arith, holds.real) in
        let some_items : (t.len == 0) ≡ false = ground (arith, many, full, holds.within) in
        let reserve_t : reserve fill s t.len h ≡ ok grown h2 =
          ap (λ (k : ℕ). reserve fill s k h) many ∙ reserve_run in
        let copy_t : copy_range t.base t.off t.len (suc h.next) (0 + s.len) h2 ≡ ok tt h3 =
          ap (λ (k : ℕ). copy_range t.base t.off k (suc h.next) (0 + s.len) h2) (sym from.len)
          ∙ ap (λ (k : ℕ). copy_range t.base t.off (length ys) (suc h.next) (0 + k) h2)
              (sym holds.len)
          ∙ run in
        let apart' : s.refs.ref ≢ suc (suc h.next) = λ e. absurd (omega (arith, e)) in
        (
          new,
          h4,
          rw (not_nil, some_items, reserve_t, copy_t) given,
          record {
            here = record {
              front = at3.front;
              rest = behind ++ at3.rest;
              holds =
                  ap (λ (f : ℕ → Option (List A)). f (suc h.next)) block
                  ∙ at3.holds
                  ∙ ap (λ (l : List A). some (at3.front ++ l))
                      (append_assoc xs (ys ++ behind) at3.rest
                        ∙ ap (λ (l : List A). xs ++ l) (append_assoc ys behind at3.rest)
                        ∙ sym (append_assoc xs ys (behind ++ at3.rest)));
              starts = at3.starts;
            };
            len = omega (arith, length-append xs ys, holds.len, from.len);
            within = omega arith;
            room = omega (arith, length-append behind at3.rest, length-replicate (s.len + m) fill);
            real = omega arith;
          },
          ap (λ (k : ℕ). (s.len + k) * 2) (sym many),
          count,
          others s.refs.ref apart' ∙ ap (λ (f : ℕ → Option ℕ). f s.refs.ref) same.count ∙ left,
        )
