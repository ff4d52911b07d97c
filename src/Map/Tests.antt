-- ===== src/Map/Tests.antt =====
-- The theorems on api/map.hpp at an association list.
use julelang.Prelude.{ℕ, ◌≡◌, ◌↔◌, refl, true, none, some, List, [], ◌∷◌, length}
use julelang.Heap.{Heap, ok}
use julelang.Slice.{Slice}
use julelang.Slice.Items.{Holds}
use julelang.Str.{Str}
use julelang.Map.{len, keys}
use julelang.Map.Members.{In, Distinct}
use julelang.Map.Table.{StdMap}
use julelang.Map.Table.Assoc.{assoc_table}
use julelang.Map.Refine.{Op, write, fetch, delete}
use julelang.Map.Keys.{keys-Distinct}

abbrev table : StdMap ℕ ℕ
table = assoc_table

abbrev calls : List (Op ℕ ℕ)
calls = write 1 10 ∷ fetch 2 ∷ delete 1 ∷ []

abbrev two_keys : table.Rep
two_keys = table.put 1 10 (table.put 2 20 table.empty)

abbrev memory : Heap ℕ
memory = record { block = λ _. none; count = λ _. none; next = 0; grants = λ _. true }

abbrev word : Str
word = 106 ∷ 117 ∷ 108 ∷ 101 ∷ []

abbrev fallback : ℕ
fallback = 7

keys-Distinct_example :
    (s : Slice) × (h' : Heap ℕ) × (ks : List ℕ) × (keys table fallback two_keys memory ≡ ok s h')
    × Holds h' s ks
    × Distinct ks
    × (length ks ≡ len table two_keys)
    × ((k : ℕ) → In k ks ↔ ((v : ℕ) × (table.find k two_keys ≡ some v)))
keys-Distinct_example = keys-Distinct table fallback memory two_keys refl refl
