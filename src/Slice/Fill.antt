-- ===== src/Slice/Fill.antt =====
-- Slices of api/slice.hpp that a loop fills item by item.
use julelang.Prelude.{
  length-replicate, ℕ, suc, ◌+◌, ◌≡◌, refl, sym, subst, ap, ◌∙◌, true, false, List, [], ◌∷◌, ◌++◌,
  ltb, length, length-append, replicate, append-nil, append_assoc, arith, some,
}
use julelang.Heap.{Heap, ok, ◌>>=◌}
use julelang.Slice.{Slice, store_each, alloc}
use julelang.Slice.Memory.{At}
use julelang.Slice.Items.{Holds, Untouched, write-At}
use julelang.Slice.Grow.{fresh, with_fresh, alloc_new-fresh}
use julelang.Slice.Push.{put_same}

module _ {A : Type 0} where
  -- The loop writes over as many items as there are left.
  store_each-At :
      (h : Heap A) (s : Slice) (l m m' r : List A)
      → At h s.base s.off (l ++ (m ++ r))
      → length m ≡ length m'
      → (h' : Heap A) × (store_each s (length l) m' h ≡ ok s h')
        × At h' s.base s.off (l ++ (m' ++ r))
        × Untouched h h' s.base
  unfolding store_each
  store_each-At h s l [] [] r at e = (h, refl, at, record { count = refl; others = λ q _. refl })
  store_each-At h s l [] (y ∷ m') r at e = absurd (omega (arith, e))
  store_each-At h s l (x ∷ m) [] r at e = absurd (omega (arith, e))
  store_each-At h s l (x ∷ m) (y ∷ m') r at e =
      let (h1, run1, at1, same1) = write-At h s.base s.off l (x ∷ []) (y ∷ []) (m ++ r) at refl in
      let (h2, run2, at2, same2) =
        store_each-At h1 s (l ++ (y ∷ [])) m m' r
          (subst (At h1 s.base s.off) (sym (append_assoc l (y ∷ []) (m ++ r))) at1)
          (omega (arith, e)) in
      let next : length (l ++ (y ∷ [])) ≡ length l + 1 = length-append l (y ∷ []) in
      (
        h2,
        rw run1 (ap (λ (k : ℕ). store_each s k m' h1) (sym next) ∙ run2),
        subst (At h2 s.base s.off) (append_assoc l (y ∷ []) (m' ++ r)) at2,
        record {
          count = same2.count ∙ same1.count;
          others = λ q other. same2.others q other ∙ same1.others q other;
        },
      )

  -- A new slice of `n` items, all of them written by the loop.
  module _ (fill : A) (h : Heap A) (xs : List A) where
    abbrev n : ℕ
    n = length xs

    pub room : At (with_fresh fill h n) (suc h.next) 0 ([] ++ (replicate n fill ++ []))
    room = record {
      front = [];
      rest = [];
      holds =
          put_same h.block (suc h.next) (some (replicate n fill))
          ∙ ap (λ (q : List A). some q)
              (sym (append-nil (replicate n fill ++ []) ∙ append-nil (replicate n fill)));
      starts = refl;
    }

    -- The loop over a fresh slice.
    pub stored_fresh :
        (h' : Heap A) × (store_each (fresh h n n) 0 xs (with_fresh fill h n) ≡ ok (fresh h n n) h')
        × Holds h' (fresh h n n) xs
        × Untouched (with_fresh fill h n) h' (suc h.next)
    stored_fresh =
        let s = fresh h n n in
        let (h', run, written, kept) =
          store_each-At (with_fresh fill h n) s [] (replicate n fill) xs [] room
            (length-replicate n fill) in
        (
          h',
          run,
          record {
            here = subst (At h' (suc h.next) 0) (append-nil xs) written;
            len = refl;
            within = omega arith;
            room = omega arith;
            real = omega arith;
          },
          kept,
        )

    pub stored :
        h.grants h.next ≡ true
        → h.grants (suc h.next) ≡ true
        → (s : Slice) × (h' : Heap A) × ((alloc fill n n >>= λ s. store_each s 0 xs) h ≡ ok s h')
          × Holds h' s xs
          × Untouched (with_fresh fill h n) h' (suc h.next)
    unfolding alloc
    stored g1 g2 =
        let (h', run, holds, kept) = stored_fresh in
        let fits : ltb n n ≡ false = ground arith in
        (fresh h n n, h', rw (fits, alloc_new-fresh fill h n n g1 g2) run, holds, kept)
