-- ===== src/Builtin/Returned.antt =====
-- A slice that api/builtin.hpp returns by value, and copies between slices.
use julelang.Prelude.{
  ℕ, ◌+◌, ◌-◌, ◌^◌, ◌<◌, ◌≡◌, ◌≢◌, refl, ◌∙◌, false, List, ◌++◌, arith, length, ◌==◌, some,
}
use julelang.Heap.{Heap, ok}
use julelang.Slice
use julelang.Slice.{Slice, empty_slice, is_nil, is_empty, alloc, copy_range, destroy}
use julelang.Slice.Memory.{At, read_range-At}
use julelang.Slice.Items.{Untouched, write-At}
use julelang.Slice.Release.{Counted, with_count, destroy_shared, lowered}
use julelang.Ref.Assign.{assign-nil}
use julelang.Builtin.{give}

module _ {A : Type 0} where
  -- A copy of all of one part over as many items of another.
  pub copy-At :
      (h : Heap A) (base off base' off' : ℕ) (xs l m r : List A)
      → At h base off xs
      → At h base' off' (l ++ (m ++ r))
      → length m ≡ length xs
      → (h' : Heap A) × (copy_range base off (length xs) base' (off' + length l) h ≡ ok tt h')
        × At h' base' off' (l ++ (xs ++ r))
        × Untouched h h' base'
  unfolding copy_range
  copy-At h base off base' off' xs l m r from to e =
      let (h', run, at, same) = write-At h base' off' l m xs r to e in
      (h', rw (read_range-At h base off xs from, run) refl, at, same)

  pub At-block :
      (h h' : Heap A) (base off : ℕ) (xs : List A)
      → h'.block base ≡ h.block base
      → At h base off xs
      → At h' base off xs
  At-block h h' base off xs same at = record {
    front = at.front;
    rest = at.rest;
    holds = same ∙ at.holds;
    starts = at.starts;
  }

  -- What is returned by value: one owner more, and then the parameter's destructor.
  pub give-Counted :
      (h : Heap A) (s : Slice) (n : ℕ) (items : List A)
      → Counted h s.refs (n + 1) items
      → n < 2 ^ 64 - 2
      → 0 < s.base
      → (h' : Heap A) × (give s h ≡ ok s h')
        × (h'.count s.refs.ref ≡ some (n + 1))
        × (h'.block ≡ h.block)
        × ((q : ℕ) → q ≢ s.refs.ref → h'.count q ≡ h.count q)
  unfolding give Slice.assign Slice.dealloc is_nil
  give-Counted h s n items c few nonnil =
      let more = with_count h s.refs (some (n + 2)) in
      let two : n + 1 + 1 ≡ n + 2 = omega arith in
      let shared = assign-nil h s.refs (n + 1) c.counted c.count (omega arith) in
      let raised : Counted more s.refs (n + 2) items = lowered h s.refs (n + 1) (n + 2) items c in
      let ended = destroy_shared more s items n raised few in
      let not_nil : (s.base == 0) ≡ false = ground arith in
      (
        with_count more s.refs (some (n + 1)),
        rw (not_nil, shared, two, ended) refl,
        ground arith,
        refl,
        λ q other. ground arith,
      )
