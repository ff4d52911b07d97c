-- ===== src/Vec.antt =====
-- std/vec/alloc.hpp: `StdJuleVecBuffer`, the buffer of the standard library's vectors.
pub mod Copies
mod Tests
use julelang.Prelude.{ℕ, Bool, not, ◌&&◌, List, ◌==◌, if◌then◌else◌, replicate}
use julelang.Heap.{Cmd, pure, ◌>>=◌, ◌>>◌, new_block}
use julelang.Slice.{copy_range}

pub record VecBuffer : Type 0 where
  pub heap : ℕ
  pub len : ℕ
  pub cap : ℕ

-- `StdJuleVecBuffer()`.
abbrev pub empty_buffer : VecBuffer
empty_buffer = record { heap = 0; len = 0; cap = 0 }

module _ {A : Type 0} where
  -- `__jule_std_vec_copy_range`.
  pub vec_copy_range : ℕ → ℕ → ℕ → Cmd A (Unit {0})
  vec_copy_range dest buff length = copy_range buff 0 length dest 0

  -- `operator=`, and the copy constructor where `this` is the empty buffer; the items of a new block
  -- are `fill`.
  pub assign : A → VecBuffer → VecBuffer → Cmd A VecBuffer
  assign fill this src = if not (this.heap == 0) && (this.heap == src.heap) then pure this else (do
    heap ← new_block (replicate src.len fill)
    vec_copy_range heap src.heap src.len
    pure (record { heap = heap; len = src.len; cap = src.len }))
