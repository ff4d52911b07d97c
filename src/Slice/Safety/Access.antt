-- ===== src/Slice/Safety/Access.antt =====
-- Reads and writes of api/slice.hpp within a slice's capacity.
use julelang.Prelude.{
  ℕ, zero, suc, ◌+◌, ◌≤◌, ◌<◌, ◌≡◌, refl, ap, ◌∙◌, some, Option, List, [], ◌∷◌, ◌++◌, length, take,
  drop, arith, ℕ_discrete, le→leb, length-append, length-take, length-drop,
}
use julelang.Heap.{Heap, ok, load_block, store_block}
use julelang.Slice.{Slice, window, overlay, read_range, write_range}
use julelang.Slice.Memory.{with_block}
use julelang.Slice.Safety.{Slices, Inside, Safe}

module _ {A : Type 0} where
  -- What a write in place changes: a block, by one of the same length.
  pub record Rewritten (h h' : Heap A) : Type 0 where
    pub count : h'.count ≡ h.count
    pub next : h'.next ≡ h.next
    pub grants : h'.grants ≡ h.grants
    pub block :
        (a : ℕ) (items : List A)
        → h.block a ≡ some items
        → (items' : List A) × (h'.block a ≡ some items') × (length items' ≡ length items)

  pub Rewritten-refl : (h : Heap A) → Rewritten h h
  Rewritten-refl h = record {
    count = refl;
    next = refl;
    grants = refl;
    block = λ a items e. (items, e, refl);
  }

  pub Rewritten-trans : (h h' h'' : Heap A) → Rewritten h h' → Rewritten h' h'' → Rewritten h h''
  Rewritten-trans h h' h'' a b = record {
    count = b.count ∙ a.count;
    next = b.next ∙ a.next;
    grants = b.grants ∙ a.grants;
    block = λ p items e.
        let (items', e', same) = a.block p items e in
        let (items'', e'', same') = b.block p items' e' in (items'', e'', same' ∙ same);
  }

  length-overlay :
      (items src : List A) (k : ℕ)
      → k + length src ≤ length items
      → length (overlay items k src) ≡ length items
  length-overlay items src k fits = omega (
    arith,
    length-append (take k items) (src ++ drop (k + length src) items),
    length-append src (drop (k + length src) items),
    length-take k items,
    length-drop (k + length src) items,
  )

  Rewritten-with_block :
      (h : Heap A) (b : ℕ) (old new : List A)
      → h.block b ≡ some old
      → length new ≡ length old
      → Rewritten h (with_block h b new)
  Rewritten-with_block h b old new live same = record {
    count = refl;
    next = refl;
    grants = refl;
    block = λ a items e. elim (ℕ_discrete b a) [
      | yes here ↦ (new, ground arith, ground (arith, ap h.block here))
      | no other ↦ (items, ground (arith, e), refl)
    ];
  }

  pub Inside-Rewritten : (h h' : Heap A) (s : Slice) → Rewritten h h' → Inside h s → Inside h' s
  Inside-Rewritten h h' s w inside = record {
    within = inside.within;
    empty = inside.empty;
    whole = inside.whole;
    room = λ pos.
        let (items, e, fits) = inside.room pos in
        let (items', e', same) = w.block s.refs.alloc items e in
        (items', e', omega (arith, same, fits));
  }

  pub Safe-Rewritten :
      (h h' : Heap A) (n : ℕ) (vars : Slices) → Rewritten h h' → Safe h n vars → Safe h' n vars
  Safe-Rewritten h h' n vars w safe = record {
    counts = λ p some_p. ap (λ (f : ℕ → Option ℕ). f p) w.count ∙ safe.counts p some_p;
    paired = safe.paired;
    inside = λ i li. Inside-Rewritten h h' (vars i) w (safe.inside i li);
    fresh = λ i li. rw w.next (safe.fresh i li);
  }

  -- A slice whose capacity is not 0 has a block.
  pub has_block : (h : Heap A) (s : Slice) → Inside h s → 0 < s.cap → 0 < s.refs.alloc
  has_block h s inside pos = elim (ℕ_discrete s.refs.alloc 0) [
    | yes none_left ↦ absurd (omega (arith, inside.empty none_left))
    | no real ↦ omega arith
  ]

  -- A read of m items within the capacity returns as many.
  pub read-Inside :
      (h : Heap A) (s : Slice) (k m : ℕ)
      → Inside h s
      → k + m ≤ s.cap
      → (xs : List A) × (read_range s.base (s.off + k) m h ≡ ok xs h) × (length xs ≡ m)
  unfolding read_range load_block
  read-Inside h s k zero inside fits = ([], refl, refl)
  read-Inside h s k (suc m) inside fits =
      let pos = has_block h s inside (omega arith) in
      let (items, live, room) = inside.room pos in
      let at_base : h.block s.base ≡ some items = ap h.block (inside.whole pos).1 ∙ live in
      let bounded = le→leb (s.off + k + suc m) (length items) (omega arith) in
      (
        window items (s.off + k) (suc m),
        ground (arith, at_base, bounded),
        omega (arith, length-take (suc m) (drop (s.off + k) items), length-drop (s.off + k) items),
      )

  -- A write within the capacity is defined.
  pub write-Inside :
      (h : Heap A) (s : Slice) (k : ℕ) (src : List A)
      → Inside h s
      → k + length src ≤ s.cap
      → (h' : Heap A) × (write_range s.base (s.off + k) src h ≡ ok tt h') × Rewritten h h'
  unfolding write_range load_block store_block
  write-Inside h s k [] inside fits = (h, refl, Rewritten-refl h)
  write-Inside h s k (x ∷ xs) inside fits =
      let pos = has_block h s inside (omega arith) in
      let (items, live, room) = inside.room pos in
      let at_base : h.block s.base ≡ some items = ap h.block (inside.whole pos).1 ∙ live in
      let fit : s.off + k + length (x ∷ xs) ≤ length items = omega arith in
      let bounded = le→leb (s.off + k + length (x ∷ xs)) (length items) fit in
      let new = overlay items (s.off + k) (x ∷ xs) in
      (
        with_block h s.base new,
        ground (arith, at_base, bounded),
        Rewritten-with_block h s.base items new at_base
            (length-overlay items (x ∷ xs) (s.off + k) fit),
      )
