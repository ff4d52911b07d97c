-- ===== src/Env/Arguments.antt =====
-- What `args` of api/env.hpp returns.
use julelang.Prelude.{suc, ◌≡◌, sym, true, List, [], map, length, length-map}
use julelang.Heap.{Heap, ok}
use julelang.Slice.{Slice}
use julelang.Slice.Items.{Holds}
use julelang.Slice.Grow.{fresh, alloc_new-fresh}
use julelang.Slice.Fill.{stored_fresh}
use julelang.Str.{Str, until_nul}
use julelang.Env.{args}

module _ (h : Heap Str) (argv : List Str) where
  abbrev texts : List Str
  texts = map (λ a. until_nul a) argv

  -- Where memory is granted, the slice of the arguments has all of them in order, each up to its zero.
  pub args-Holds :
      h.grants h.next ≡ true
      → h.grants (suc h.next) ≡ true
      → (s : Slice) × (h' : Heap Str) × (args argv h ≡ ok s h') × Holds h' s texts
  unfolding args
  args-Holds g1 g2 =
      let (h', run, holds, kept) = stored_fresh [] h texts in
      let same : length texts ≡ length argv = length-map argv (λ a. until_nul a) in
      (
        fresh h (length texts) (length texts),
        h',
        rw (sym same, alloc_new-fresh [] h 0 (length texts) g1 g2) run,
        holds,
      )
