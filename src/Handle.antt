-- ===== src/Handle.antt =====
-- std/sync/sync.hpp and std/thread/thread.hpp: handles of mutexes and of threads, which are
-- references of api/ref.hpp. What is behind a handle is an item; what a thread runs is not modelled.
pub mod Owners
use julelang.Prelude.{Option, none, some, ℕ, ◌==◌, if◌then◌else◌, List, [], ◌∷◌}
use julelang.Panic.{allocation_failed}
use julelang.Heap.{Cmd, pure, throw, ◌>>=◌, new_block}
use julelang.Ref
use julelang.Ref.{Ref, nil, make_ptr, get_ref_n}
use julelang.Slice.{adopt}

module _ {A : Type 0} where
  -- `init` of a mutex, with the temporary reference that is assigned.
  pub init : A → Ref → Cmd A Ref
  init mutex this = do
    mtx ← new_block (mutex ∷ [])
    if mtx == 0 then throw allocation_failed else adopt this mtx

  -- `operator=` and, from a handle without a reference, the copy constructor.
  pub assign : Ref → Ref → Cmd A Ref
  assign this src = Ref.assign this src

  pub drop : Ref → Cmd A Ref
  drop this = Ref.drop this

  pub ref_count : Ref → Cmd A ℕ
  ref_count this = if this.ref == 0 then pure 0 else get_ref_n this

  -- `__jule_spawn_thread`; `none` is the `std::bad_alloc` of the `new` without `std::nothrow`.
  pub spawn_thread : A → Cmd A (Option Ref)
  spawn_thread thread = do
    ptr ← new_block (thread ∷ [])
    if ptr == 0 then pure none else (do jth ← adopt nil ptr; pure (some jth))
