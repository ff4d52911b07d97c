-- ===== src/Map.antt =====
-- api/map.hpp: `jule::Map<Key, Value>` over `std::unordered_map`, which is a parameter with the laws
-- of a finite map. A member function that changes the map returns the new one.
pub mod Members
pub mod Table
pub mod Hash
pub mod Refine
pub mod Keys
mod Tests
use julelang.Prelude.{
  ℕ, zero, suc, ◌+◌, Bool, true, false, not, Option, none, some, List, [], ◌∷◌, ◌==◌, if◌then◌else◌,
  map, length,
}
use julelang.Heap.{Heap, Run, Cmd, pure, ◌>>=◌, ◌>>◌}
use julelang.Slice.{Slice, store_each, alloc}
use julelang.Map.Table.{StdMap}

module _ {K V : Type 0} (t : StdMap K V) where
  open t use {Rep, empty, find, insert, put, erase, size, pairs}

  -- `Map()`, `Map(nullptr)`, and what `clear` leaves.
  unfoldable pub new : Rep
  new = empty

  -- `Map(std::initializer_list)`: a key's first pair is kept.
  pub from_pairs : List (K × V) → Rep → Rep
  from_pairs [] m = m
  from_pairs ((k, v) ∷ ps) m = from_pairs ps (insert k v m)

  pub clear : Rep → Rep
  clear m = empty

  pub has : Rep → K → Bool
  has m k = elim (find k m) [ none ↦ false | some v ↦ true ]

  unfoldable pub len : Rep → ℕ
  len m = size m

  pub del : Rep → K → Rep
  del m k = erase k m

  -- `operator==(nullptr)`.
  pub map_is_nil : Rep → Bool
  map_is_nil m = size m == 0

  -- `operator!=(nullptr)`.
  pub map_is_not_nil : Rep → Bool
  map_is_not_nil m = not (map_is_nil m)

  -- `operator[]`, also of a map that is const, whose buffer is mutable: a key that is missing is
  -- added with a default value.
  pub get : V → Rep → K → V × Rep
  get def m k = elim (find k m) [ none ↦ (def, put k def m) | some v ↦ (v, m) ]

  -- A write through `operator[]`.
  unfoldable pub set : Rep → K → V → Rep
  set m k v = put k v m

  pub keys : K → Rep → Cmd K Slice
  keys fill m = do s ← alloc fill (len m) (len m); store_each s 0 (map (λ p. p.0) (pairs m))

  pub values : V → Rep → Cmd V Slice
  values fill m = do s ← alloc fill (len m) (len m); store_each s 0 (map (λ p. p.1) (pairs m))
