-- ===== src/Array/Slicing.antt =====
-- Slices made of an array of api/array.hpp.
use julelang.Prelude.{
  length-replicate, suc, ◌+◌, ◌-◌, ◌≡◌, refl, sym, subst, ap, ◌∙◌, true, false, List, [], ◌∷◌, ◌++◌,
  ◌||◌, ◌==◌, length, length-append, replicate, append-nil, take, take_front, drop_front, arith,
  some,
}
use julelang.Prelude.Int.{pos, ltb_ℤ}
use julelang.Heap.{Heap, ok}
use julelang.Slice.{Slice, window}
use julelang.Slice.Memory.{At}
use julelang.Slice.Items.{Holds, Untouched, write-At}
use julelang.Slice.Grow.{fresh, with_fresh, alloc_new-fresh}
use julelang.Slice.Push.{put_same}
use julelang.Array.{slice_array}

module _ {A : Type 0} where
  -- With memory for block and count, slicing a non-empty middle part of an array gives a slice of
  -- exactly these items, on a block of its own, and changes no other block.
  pub slice_array-Holds :
      (fill : A) (h : Heap A) (l : List A) (x : A) (m r : List A)
      → h.grants h.next ≡ true
      → h.grants (suc h.next) ≡ true
      → (t : Slice) × (h' : Heap A) × (slice_array fill
            (l ++ ((x ∷ m) ++ r))
            (pos (length l))
            (pos (length l + length (x ∷ m)))
            h
          ≡ ok t h')
        × Holds h' t (x ∷ m)
        × (t.base ≡ suc h.next)
        × (t.cap ≡ length (x ∷ m))
        × Untouched (with_fresh fill h (length (x ∷ m))) h' (suc h.next)
  unfolding slice_array
  slice_array-Holds fill h l x m r g1 g2 =
      let n = length (x ∷ m) in
      let buffer = l ++ ((x ∷ m) ++ r) in
      let start = with_fresh fill h n in
      let room : At start (suc h.next) 0 ([] ++ (replicate n fill ++ [])) = record {
        front = [];
        rest = [];
        holds =
            put_same h.block (suc h.next) (some (replicate n fill))
            ∙ ap (λ (q : List A). some q)
                (sym (append-nil (replicate n fill ++ []) ∙ append-nil (replicate n fill)));
        starts = refl;
      } in
      let (h', run, written, kept) =
        write-At start (suc h.next) 0 [] (replicate n fill) (x ∷ m) [] room
          (length-replicate n fill) in
      let inside : (ltb_ℤ (pos (length l)) (pos 0)
            || (ltb_ℤ (pos (length l + n)) (pos 0)
                || (ltb_ℤ (pos (length l + n)) (pos (length l))
                    || ltb_ℤ (pos (length buffer)) (pos (length l + n)))))
          ≡ false =
        ground (arith, length-append l ((x ∷ m) ++ r), length-append (x ∷ m) r) in
      let some_items : (length l == (length l + n)) ≡ false = ground arith in
      let n_items : (length l + n) - length l ≡ n = omega arith in
      let part : window buffer (length l) n ≡ x ∷ m =
        ap (λ (q : List A). take n q) (drop_front l ((x ∷ m) ++ r)) ∙ take_front (x ∷ m) r in
      (
        record (fresh h 0 n) { len = n },
        h',
        rw (inside, some_items, n_items, alloc_new-fresh fill h 0 n g1 g2, part, run) refl,
        record {
          here = subst (At h' (suc h.next) 0) (append-nil (x ∷ m)) written;
          len = refl;
          within = omega arith;
          room = omega arith;
          real = omega arith;
        },
        refl,
        refl,
        kept,
      )
