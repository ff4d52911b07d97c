-- ===== src/Slice/Members.antt =====
-- The iterators and shorter members of api/slice.hpp.
pub mod Laws
use julelang.Prelude.{ℕ, ◌+◌, Bool, not, List, [], ◌∷◌}
use julelang.Prelude.Int.{ℤ, pos}
use julelang.Heap.{Cmd, pure, ◌>>=◌}
use julelang.Slice
use julelang.Slice.{Slice, is_nil, slice_eq, of_items, assign}

-- `begin` and `end`: an iterator is a block's address and a position in it.
unfoldable pub begin : Slice → ℕ × ℕ
begin s = (s.base, s.off)

unfoldable pub end : Slice → ℕ × ℕ
end s = (s.base, s.off + s.len)

-- `len` and `cap`.
unfoldable pub len : Slice → ℕ
len s = s.len

unfoldable pub cap : Slice → ℕ
cap s = s.cap

-- `operator!=(nullptr)`.
unfoldable pub is_not_nil : Slice → Bool
is_not_nil s = not (is_nil s)

module _ {A : Type 0} where
  -- `slice(start)`.
  unfoldable pub slice_from : Slice → ℤ → Cmd A Slice
  slice_from s start = Slice.slice s start (pos (len s))

  -- `slice()`.
  unfoldable pub slice_all : Slice → Cmd A Slice
  slice_all s = Slice.slice s (pos 0) (pos (len s))

  -- `operator!=(const Slice&)`.
  unfoldable pub slice_ne : (A → A → Bool) → Slice → Slice → Cmd A Bool
  slice_ne ne s t = do same ← slice_eq ne s t; pure (not same)
