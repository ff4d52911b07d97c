-- ===== src/Builtin/Copy.antt =====
-- What `copy` of api/builtin.hpp leaves in memory.
use julelang.Heap.{Heap}
use julelang.Slice.{Slice}
