-- ===== src/Vec/Tests.antt =====
-- The theorem on std/vec/alloc.hpp at two buffers.
use julelang.Prelude.{
  ℕ, ◌<◌, ◌≡◌, refl, true, none, some, List, [], ◌∷◌, arith, ◌==◌, if◌then◌else◌,
}
use julelang.Heap.{Heap, ok}
use julelang.Slice.Items.{Untouched}
use julelang.Vec.{VecBuffer, assign}
use julelang.Vec.Copies.{Stores, assign-Stores}

abbrev memory : Heap ℕ
memory = record {
  block = λ a. if a == 1 then some (10 ∷ 20 ∷ []) else if a == 2 then some (30 ∷ []) else none;
  count = λ _. none;
  next = 2;
  grants = λ _. true;
}

abbrev this : VecBuffer
this = record { heap = 2; len = 1; cap = 1 }

abbrev src : VecBuffer
src = record { heap = 1; len = 2; cap = 2 }

abbrev items : List ℕ
items = 10 ∷ 20 ∷ []

abbrev zero_item : ℕ
zero_item = 0

src-Stores : Stores memory src items
src-Stores = (record { front = []; rest = []; holds = refl; starts = refl }, refl)

assign-Stores_example :
    (new : VecBuffer) × (h' : Heap ℕ) × (assign zero_item this src memory ≡ ok new h')
    × Stores h' new items
    × (memory.next < new.heap)
    × Untouched memory h' new.heap
assign-Stores_example =
    assign-Stores zero_item memory this src items src-Stores (omega arith) (ground arith) refl
