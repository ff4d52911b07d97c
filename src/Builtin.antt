-- ===== src/Builtin.antt =====
-- api/builtin.hpp: `alloc_for_append`, `copy` and `append` on slices.
pub mod Copy
pub mod Output
pub mod Returned
pub mod Grow
pub mod InPlace
mod Tests
use julelang.Prelude.{
  ℕ, zero, suc, ◌+◌, ◌-◌, ◌*◌, Bool, true, false, not, ◌&&◌, ◌||◌, ltb, leb, ◌==◌, if◌then◌else◌,
}
use julelang.Heap.{Heap, Run, Cmd, pure, ◌>>=◌, ◌>>◌}
use julelang.Slice
use julelang.Slice.{Slice, empty_slice, is_nil, is_empty, copy_range, alloc, destroy}

-- The conditional expression that `copy` computes its length by.
abbrev pub copy_len : ℕ → ℕ → ℕ
copy_len dest src = if ltb src dest then src else if ltb dest src then dest else src

module _ {A : Type 0} where
  unfoldable pub alloc_for_append : A → Slice → ℕ → Cmd A Slice
  alloc_for_append fill dest n =
      if ltb dest.cap (dest.len + n)
      then (do
        fresh ← alloc fill 0 ((dest.len + n) * 2)
        let buffer = record fresh { len = dest.len }
        copy_range dest.base dest.off dest.len buffer.base buffer.off
        pure buffer)
      else Slice.assign empty_slice dest

  unfoldable pub copy : Slice → Slice → Cmd A ℕ
  copy dest src = if is_empty dest || is_empty src then pure 0 else (do
    copy_range src.base src.off (copy_len dest.len src.len) dest.base dest.off
    pure (copy_len dest.len src.len))

  -- `return src` of a parameter: the result is a copy, and the parameter's destructor runs.
  unfoldable pub give : Slice → Cmd A Slice
  give src = do result ← Slice.assign empty_slice src; destroy src; pure result

  -- `src = alloc_for_append(src, n)`, with the destructor of the temporary.
  unfoldable pub reserve : A → Slice → ℕ → Cmd A Slice
  reserve fill src n =
      if ltb src.cap (src.len + n)
      then (do
        temporary ← alloc_for_append fill src n
        src' ← Slice.assign src temporary
        destroy temporary
        pure src')
      else pure src

  -- `append`: `src` is the parameter, already a copy of the argument.
  unfoldable pub append : A → Slice → Slice → Cmd A Slice
  append fill src components =
      if is_nil src && is_nil components
      then destroy src >> pure empty_slice
      else if components.len == 0
      then give src
      else (do
        room ← reserve fill src components.len
        copy_range components.base components.off components.len room.base (room.off + room.len)
        give (record room { len = room.len + components.len }))
