-- ===== src/Trait/Counts.antt =====
-- What the constructors, assignments and casts of api/trait.hpp do to reference counts.
use julelang.Heap.{Heap}
use julelang.Ref
use julelang.Ref.{Ref, nil, make_ptr}
use julelang.Trait.{Trait}
