-- ===== src/Slice/Memory.antt =====
-- Reads and writes of api/slice.hpp through a pointer into a block.
use julelang.Prelude.{
  ℕ, ◌+◌, ◌≡◌, refl, some, List, [], ◌∷◌, ◌++◌, arith, length, length-append, drop, take_front,
  drop_front, drop-append_left, le→leb,
}
use julelang.Heap.{Heap, ok, put, load_block, store_block}
use julelang.Slice.{read_range, write_range, window, overlay}

module _ {A : Type 0} where
  -- `xs` stands in block `base` behind its first `off` items.
  pub record At (h : Heap A) (base off : ℕ) (xs : List A) : Type 0 where
    pub front : List A
    pub rest : List A
    pub holds : h.block base ≡ some (front ++ (xs ++ rest))
    pub starts : length front ≡ off

  abbrev pub with_block : Heap A → ℕ → List A → Heap A
  with_block h base items = record h { block = put h.block base (some items) }

  pub with_block-at :
      (h : Heap A) (base : ℕ) (items : List A) → (with_block h base items).block base ≡ some items
  with_block-at h base items = ground arith

  window-append :
      (front xs rest : List A) → window (front ++ (xs ++ rest)) (length front) (length xs) ≡ xs
  window-append front xs rest = rw (drop_front front (xs ++ rest)) (take_front xs rest)

  drop_old :
      (old new rest : List A) → length old ≡ length new → drop (length new) (old ++ rest) ≡ rest
  drop_old old new rest e = rw (← e) (drop_front old rest)

  overlay-append :
      (front old new rest : List A)
      → length old ≡ length new
      → overlay (front ++ (old ++ rest)) (length front) new ≡ front ++ (new ++ rest)
  overlay-append front old new rest e = rw (
    take_front front (old ++ rest),
    drop-append_left front (old ++ rest) (length new),
    drop_old old new rest e,
  )

  pub read_range-At :
      (h : Heap A) (base off : ℕ) (xs : List A)
      → At h base off xs
      → read_range base off (length xs) h ≡ ok xs h
  unfolding read_range load_block
  read_range-At h base off [] at = refl
  read_range-At h base off (x ∷ xs) at =
      let items = at.front ++ ((x ∷ xs) ++ at.rest) in
      let fits = le→leb (length at.front + length (x ∷ xs)) (length items) (
        omega
          (arith, length-append at.front ((x ∷ xs) ++ at.rest), length-append (x ∷ xs) at.rest)) in
      rw (← at.starts) (ground (arith, at.holds, fits, window-append at.front (x ∷ xs) at.rest))

  -- A write over as many items, and what the block holds then.
  pub write_range-At :
      (h : Heap A) (base off : ℕ) (old : List A) (y : A) (ys : List A)
      → (at : At h base off old) → length old ≡ length (y ∷ ys)
      → write_range base off (y ∷ ys) h
        ≡ ok tt (with_block h base (at.front ++ ((y ∷ ys) ++ at.rest)))
  unfolding write_range load_block store_block
  write_range-At h base off old y ys at e =
      let items = at.front ++ (old ++ at.rest) in
      let fits =
        le→leb (length at.front + length (y ∷ ys)) (length items)
          (omega (arith, length-append at.front (old ++ at.rest), length-append old at.rest)) in
      rw (← at.starts)
        (ground (arith, at.holds, fits, overlay-append at.front old (y ∷ ys) at.rest e))
