-- ===== src/Array/Members.antt =====
-- The constructors, iterators and shorter members of api/array.hpp.
pub mod Laws
use julelang.Prelude.{
  ℕ, zero, suc, ◌+◌, ◌-◌, Bool, not, Option, none, some, List, [], ◌∷◌, ◌++◌, ◌||◌, ltb, ◌==◌,
  if◌then◌else◌, length, drop, replicate, set,
}
use julelang.Prelude.Int.{ℤ, pos, ltb_ℤ, leb_ℤ, pos_part}
use julelang.Panic
use julelang.Panic.{Result, index_out_of_range}
use julelang.Heap.{Cmd}
use julelang.Slice.{Slice}
use julelang.Array.{slice_array, array_eq}

module _ {A : Type 0} where
  -- `Array()` of n items, each of which is `fill`.
  unfoldable pub new_array : A → ℕ → List A
  new_array fill n = replicate n fill

  -- `Array(const std::initializer_list&)`: `none` where it has more items than the array, which are
  -- written behind it.
  unfoldable pub array_of : A → ℕ → List A → Option (List A)
  array_of fill n src =
      if ltb n (length src) then none else some (src ++ drop (length src) (new_array fill n))

  -- `begin` and `end`, as positions.
  unfoldable pub begin : List A → ℕ
  begin buffer = 0

  unfoldable pub end : List A → ℕ
  end buffer = length buffer

  -- `slice(start)` and `slice()`.
  unfoldable pub slice_from : A → List A → ℤ → Cmd A Slice
  slice_from fill buffer start = slice_array fill buffer start (pos (length buffer))

  unfoldable pub slice_all : A → List A → Cmd A Slice
  slice_all fill buffer = slice_array fill buffer (pos 0) (pos (length buffer))

  -- `empty`.
  unfoldable pub empty : List A → Bool
  empty buffer = length buffer == 0

  unfoldable pub array_ne : (A → A → Bool) → List A → List A → Bool
  array_ne eq this src = not (array_eq eq this src)

  -- `operator[]`, written through the reference that it returns.
  unfoldable pub set_item : List A → ℤ → A → Result (List A)
  set_item buffer index v =
      if empty buffer || (ltb_ℤ index (pos 0) || leb_ℤ (pos (length buffer)) index)
      then Panic.panic (index_out_of_range index)
      else Panic.ok (set buffer (pos_part index) v)
