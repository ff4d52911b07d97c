-- ===== src/Slice/Push.antt =====
-- `push` of api/slice.hpp on a full slice.
use julelang.Prelude.{
  length-replicate, replicate-add, ℕ, suc, ◌+◌, ◌-◌, ◌*◌, ◌^◌, ◌≤◌, ◌<◌, ◌≡◌, ◌≢◌, refl, ap, ◌∙◌,
  sym, true, List, [], ◌∷◌, ◌++◌, arith, length, length-append, replicate, ◌==◌, if◌then◌else◌,
  Option, some, none, append_assoc, append-nil,
}
use julelang.Heap.{Heap, ok, put}
use julelang.Slice.{Slice, empty_slice, read_range, write_range, copy_range, push, push_grow}
use julelang.Slice.Memory.{At, read_range-At}
use julelang.Slice.Items.{Holds, Untouched, write-At}
use julelang.Slice.Release.{Counted}
use julelang.Slice.Grow.{
  fresh, with_fresh, alloc_new-fresh, move_to, move_to-nil, move_to-Left, one_owner,
}

module _ {X : Type 0} where
  pub put_same : (f : ℕ → Option X) (p : ℕ) (c : Option X) → put f p c p ≡ c
  put_same f p c = ground arith

module _ {A : Type 0} where
  -- The new block holds what the old slice holds and the new item, when both copies are done.
  module _ (fill : A) (h : Heap A) (s : Slice) (xs : List A) (v : A) (old : At h s.base s.off xs)
      (len : length xs ≡ s.len) (seen : s.base ≤ h.next) where
    abbrev cap : ℕ
    cap = (s.len + 1) * 2

    abbrev spare : List A
    spare = replicate (s.len + 1) fill

    abbrev start : Heap A
    start = with_fresh fill h cap

    old_kept : At start s.base s.off xs
    old_kept = record {
      front = old.front;
      rest = old.rest;
      holds = ground (arith, old.holds);
      starts = old.starts;
    }

    room : At start (suc h.next) 0 ([] ++ (replicate s.len fill ++ ((fill ∷ []) ++ spare)))
    room = record {
      front = [];
      rest = [];
      holds =
          put_same h.block (suc h.next) (some (replicate cap fill))
          ∙ ap (λ (l : List A). some l) divided;
      starts = refl;
    }
      where
        divided : replicate cap fill ≡ (replicate s.len fill ++ (fill ∷ spare)) ++ []
        divided =
            ap (λ (k : ℕ). replicate k fill) (omega arith)
            ∙ replicate-add s.len (suc (s.len + 1)) fill
            ∙ sym (append-nil (replicate s.len fill ++ (fill ∷ spare)))

    filled :
        (h'' : Heap A) × (h' : Heap A) × (copy_range s.base s.off s.len (suc h.next) 0 start
          ≡ ok tt h'')
        × (write_range (suc h.next) (0 + s.len) (v ∷ []) h'' ≡ ok tt h')
        × At h' (suc h.next) 0 (xs ++ ((v ∷ []) ++ spare))
        × Untouched start h' (suc h.next)
    unfolding copy_range
    filled =
        let (h1, run1, at1, same1) =
          write-At start (suc h.next) 0 [] (replicate s.len fill) xs ((fill ∷ []) ++ spare) room
            (length-replicate s.len fill ∙ sym len) in
        let (h2, run2, at2, same2) =
          write-At h1 (suc h.next) 0 xs (fill ∷ []) (v ∷ []) spare at1 refl in
        let read : read_range s.base s.off s.len start ≡ ok xs start =
          ap (λ (k : ℕ). read_range s.base s.off k start) (sym len)
          ∙ read_range-At start s.base s.off xs old_kept in
        (
          h1,
          h2,
          rw (read, run1) refl,
          ap (λ (k : ℕ). write_range (suc h.next) (0 + k) (v ∷ []) h1) (sym len) ∙ run2,
          at2,
          record {
            count = same2.count ∙ same1.count;
            others = λ q other. same2.others q other ∙ same1.others q other;
          },
        )

    abbrev grown : Slice
    grown = record (fresh h 0 cap) { len = s.len + 1 }

    module _ (h' : Heap A) (written : At h' (suc h.next) 0 (xs ++ ((v ∷ []) ++ spare)))
        (kept : Untouched start h' (suc h.next)) where
      abbrev in_block : List A
      in_block = written.front ++ ((xs ++ ((v ∷ []) ++ spare)) ++ written.rest)

      sole : Counted h' grown.refs 1 in_block
      sole = record {
        counted = omega arith;
        placed = omega arith;
        count =
            ap (λ (f : ℕ → Option ℕ). f (suc (suc h.next))) kept.count
            ∙ put_same (put (put h.count (suc (suc h.next)) (some 1)) (suc (suc h.next)) (some 2))
                (suc (suc h.next)) (some 1);
        block = written.holds;
      }

      Holds-grown :
          (h'' : Heap A) → Counted h'' grown.refs 1 in_block → Holds h'' grown (xs ++ (v ∷ []))
      Holds-grown h'' c = record {
        here = record {
          front = written.front;
          rest = spare ++ written.rest;
          holds = c.block ∙ ap (λ (l : List A). some (written.front ++ l)) moved;
          starts = written.starts;
        };
        len = omega (arith, length-append xs (v ∷ []), len);
        within = omega arith;
        room = omega (arith, length-append spare written.rest, length-replicate (s.len + 1) fill);
        real = omega arith;
      }
        where
          moved :
              (xs ++ ((v ∷ []) ++ spare)) ++ written.rest
              ≡ (xs ++ (v ∷ [])) ++ (spare ++ written.rest)
          moved =
              append_assoc xs (v ∷ spare) written.rest
              ∙ sym (append_assoc xs (v ∷ []) (spare ++ written.rest))

  module _ (fill : A) (h h1 h3 h4 : Heap A) (s new : Slice) (v : A) (full : s.len ≡ s.cap)
      (g1 : h.grants h.next ≡ true) (g2 : h.grants (suc h.next) ≡ true) where
    abbrev cap' : ℕ
    cap' = (s.len + 1) * 2

    -- The steps of `push` on a full slice, one after the other.
    push_steps :
        copy_range s.base s.off s.len (suc h.next) 0 (with_fresh fill h cap') ≡ ok tt h1
        → write_range (suc h.next) (0 + s.len) (v ∷ []) h1 ≡ ok tt h3
        → move_to s (record (fresh h 0 cap') { len = s.len + 1 }) h3 ≡ ok new h4
        → push fill s v h ≡ ok new h4
    unfolding push push_grow move_to
    push_steps copied written moved =
        let at_cap : (s.len == s.cap) ≡ true = ground arith in
        rw (at_cap, alloc_new-fresh fill h 0 cap' g1 g2, copied, written) moved

  -- Pushing on the nil slice makes a slice of one item, on a block of its own with room for two.
  pub push-nil :
      (fill : A) (h : Heap A) (v : A)
      → h.grants h.next ≡ true
      → h.grants (suc h.next) ≡ true
      → (s' : Slice) × (h' : Heap A) × (push fill empty_slice v h ≡ ok s' h')
        × Holds h' s' (v ∷ [])
        × (s'.cap ≡ 2)
        × (h'.count s'.refs.ref ≡ some 1)
  unfolding copy_range read_range
  push-nil fill h v g1 g2 =
      let start = with_fresh fill h 2 in
      let room : At start (suc h.next) 0 ([] ++ ((fill ∷ []) ++ (fill ∷ []))) = record {
        front = [];
        rest = [];
        holds = put_same h.block (suc h.next) (some (replicate 2 fill));
        starts = refl;
      } in
      let (h1, run, written, kept) =
        write-At start (suc h.next) 0 [] (fill ∷ []) (v ∷ []) (fill ∷ []) room refl in
      let new = record (fresh h 0 2) { len = 1 } in
      let stored : h1.count (suc (suc h.next)) ≡ some 1 =
        ap (λ (f : ℕ → Option ℕ). f (suc (suc h.next))) kept.count
        ∙ put_same (put (put h.count (suc (suc h.next)) (some 1)) (suc (suc h.next)) (some 2))
            (suc (suc h.next)) (some 1) in
      let all = written.front ++ ((v ∷ (fill ∷ [])) ++ written.rest) in
      let c : Counted h1 new.refs 1 all = record {
        counted = omega arith;
        placed = omega arith;
        count = stored;
        block = written.holds;
      } in
      let h2 = one_owner h1 new all c (omega arith) in
      (
        new,
        h2,
        push_steps fill h start h1 h2 empty_slice new v refl g1 g2 refl run
            (move_to-nil h1 new all c (omega arith)),
        record {
          here = record {
            front = written.front;
            rest = fill ∷ written.rest;
            holds = written.holds;
            starts = written.starts;
          };
          len = refl;
          within = omega arith;
          room = omega arith;
          real = omega arith;
        },
        refl,
        put_same (put h1.count (suc (suc h.next)) (some 2)) (suc (suc h.next)) (some 1),
      )

  -- With memory for the new block and its count, pushing on a full slice that is not nil makes a
  -- slice of all items, on a new block with twice the room, and gives up one of the `n + 1` owners of
  -- the old block, which is freed with its last owner and else untouched. The slice's addresses are
  -- among those given out before, and the count does not wrap.
  pub push_grow-Holds :
      (fill : A) (h : Heap A) (s : Slice) (xs : List A) (v : A) (items : List A) (n : ℕ)
      → Holds h s xs
      → s.len ≡ s.cap
      → Counted h s.refs (suc n) items
      → n < 2 ^ 64 - 1
      → s.base ≤ h.next
      → s.refs.ref ≤ h.next
      → s.refs.alloc ≤ h.next
      → h.grants h.next ≡ true
      → h.grants (suc h.next) ≡ true
      → (s' : Slice) × (h' : Heap A) × (push fill s v h ≡ ok s' h')
        × Holds h' s' (xs ++ (v ∷ []))
        × (s'.cap ≡ (s.len + 1) * 2)
        × (h'.count s'.refs.ref ≡ some 1)
        × (h'.count s.refs.ref ≡ (if n == 0 then none else some n))
        × (h'.block s.refs.alloc ≡ (if n == 0 then none else some items))
  push_grow-Holds fill h s xs v items n holds full c few seen seen' seen'' g1 g2 =
      let (h1, h3, copied, wrote, written, kept) = filled fill h s xs v holds.here holds.len seen in
      let new = grown fill h s xs v holds.here holds.len seen in
      let apart : s.refs.ref ≢ suc (suc h.next) = λ e. absurd (omega (arith, e)) in
      let apart' : s.refs.alloc ≢ suc h.next = λ e. absurd (omega (arith, e)) in
      let own = sole fill h s xs v holds.here holds.len seen h3 written kept in
      let all = in_block fill h s xs v holds.here holds.len seen h3 written kept in
      let before : (with_fresh fill h ((s.len + 1) * 2)).count s.refs.ref ≡ some (suc n) =
        ground (arith, c.count) in
      let before' : (with_fresh fill h ((s.len + 1) * 2)).block s.refs.alloc ≡ some items =
        ground (arith, c.block) in
      let owned : Counted h3 s.refs (suc n) items = record {
        counted = c.counted;
        placed = c.placed;
        count = ap (λ (f : ℕ → Option ℕ). f s.refs.ref) kept.count ∙ before;
        block = kept.others s.refs.alloc apart' ∙ before';
      } in
      let (h', move, c', left) =
        move_to-Left h3 s new items all own (omega arith) apart apart' n owned few in
      let block_after : (if n == 0 then put h3.block s.refs.alloc none else h3.block) s.refs.alloc
          ≡ (if n == 0 then none else some items) =
        ground (arith, owned.block) in
      (
        new,
        h',
        push_steps fill h h1 h3 h' s new v full g1 g2 copied wrote move,
        Holds-grown fill h s xs v holds.here holds.len seen h3 written kept h' c',
        refl,
        c'.count,
        left.count,
        ap (λ (f : ℕ → Option (List A)). f s.refs.alloc) left.block ∙ block_after,
      )
