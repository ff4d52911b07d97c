-- ===== src/Array.antt =====
-- api/array.hpp: `jule::Array<Item, N>`, a value of N items. An array is the list of its items.
pub mod Slicing
pub mod Members
use julelang.Prelude.{
  ℕ, ◌+◌, ◌-◌, Bool, true, false, not, ◌||◌, ◌&&◌, List, [], ◌∷◌, ◌==◌, if◌then◌else◌, length, take,
  drop,
}
use julelang.Prelude.Int.{ℤ, pos, ltb_ℤ, leb_ℤ, pos_part}
use julelang.Panic.{index_out_of_range, slicing_out_of_range}
use julelang.Panic
use julelang.Panic.{Result}
use julelang.Heap.{Heap, Run, Cmd, pure, throw, ◌>>=◌, ◌>>◌}
use julelang.Slice.{Slice, empty_slice, window, write_range, alloc_new}

module _ {A : Type 0} where
  -- `slice(start, end)`: a new slice with copies of the items.
  pub slice_array : A → List A → ℤ → ℤ → Cmd A Slice
  slice_array fill buffer start end =
      if ltb_ℤ start (pos 0)
        || (ltb_ℤ end (pos 0) || (ltb_ℤ end start || ltb_ℤ (pos (length buffer)) end))
      then throw (slicing_out_of_range start end)
      else if pos_part start == pos_part end
      then pure empty_slice
      else (do
        let n = pos_part end - pos_part start
        s ← alloc_new fill empty_slice 0 n
        write_range s.base s.off (window buffer (pos_part start) n)
        pure (record s { len = n }))

  -- `operator[]`, read.
  pub item : A → List A → ℤ → Result A
  item fill buffer index =
      if (length buffer == 0) || (ltb_ℤ index (pos 0) || leb_ℤ (pos (length buffer)) index)
      then Panic.panic (index_out_of_range index)
      else elim (drop (pos_part index) buffer) [ [] ↦ Panic.ok fill | x ∷ xs ↦ Panic.ok x ]

  -- `operator==`, over the items' `==`.
  pub array_eq : (A → A → Bool) → List A → List A → Bool
  array_eq eq [] [] = true
  array_eq eq [] (y ∷ ys) = false
  array_eq eq (x ∷ xs) [] = false
  array_eq eq (x ∷ xs) (y ∷ ys) = eq x y && array_eq eq xs ys
