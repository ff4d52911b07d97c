-- ===== src/Str/Bytes.antt =====
-- The conversions of api/str.hpp between a `Str` and a slice of its bytes.
use julelang.Prelude.{
  ℕ, suc, ◌≡◌, ◌≢◌, refl, ◌∙◌, subst, arith, true, [], length, replicate, append-nil,
  length-replicate,
}
use julelang.Heap.{Heap, Cmd, ok, pure, ◌>>=◌, ◌>>◌}
use julelang.Slice.{Slice, empty_slice, alloc_new, write_range, read_range}
use julelang.Slice.Memory.{At, read_range-At}
use julelang.Slice.Items.{Holds, write-At}
use julelang.Slice.Grow.{fresh, with_fresh, alloc_new-fresh}
use julelang.Slice.Fill.{room}
use julelang.Str.{Str}

-- `operator jule::Slice<jule::U8>`.
pub to_bytes : Str → Cmd ℕ Slice
to_bytes s = do
  slice ← alloc_new 0 empty_slice 0 (length s)
  write_range slice.base slice.off s
  pure (record slice { len = length s })

-- `Str(const jule::Slice<U8>&)`.
pub from_bytes : Slice → Cmd ℕ Str
from_bytes src = read_range src.base src.off src.len

-- Where memory is granted, a text becomes a slice of its bytes on a block of its own, and the text
-- made of that slice is the same.
pub from_bytes-to_bytes :
    (h : Heap ℕ) (s : Str)
    → h.grants h.next ≡ true
    → h.grants (suc h.next) ≡ true
    → (slice : Slice) × (h' : Heap ℕ) × (to_bytes s h ≡ ok slice h')
      × Holds h' slice s
      × (from_bytes slice h' ≡ ok s h')
      × ((q : ℕ) → q ≢ slice.base → h'.block q ≡ h.block q)
unfolding to_bytes from_bytes
from_bytes-to_bytes h s g1 g2 =
    let n = length s in
    let (h', run, at, same) =
      write-At (with_fresh 0 h n) (suc h.next) 0 [] (replicate n 0) s [] (room 0 h s)
        (length-replicate n 0) in
    let here : At h' (suc h.next) 0 s = subst (At h' (suc h.next) 0) (append-nil s) at in
    (
      fresh h n n,
      h',
      rw (alloc_new-fresh 0 h 0 n g1 g2, run) refl,
      record {
        here = here;
        len = refl;
        within = omega arith;
        room = omega arith;
        real = omega arith;
      },
      read_range-At h' (suc h.next) 0 s here,
      λ q other. same.others q other ∙ ground arith,
    )
