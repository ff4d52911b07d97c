-- ===== src/Map/Table.antt =====
-- What api/map.hpp uses of `std::unordered_map`, as an interface, and lists that implement it.
pub mod Assoc
use julelang.Prelude.{ℕ, ◌≡◌, ◌≢◌, ◌↔◌, Option, none, some, List, map, length}
use julelang.Map.Members.{In, Distinct}

pub record StdMap (K V : Type 0) : Type 1 where
  pub Rep : Type 0
  pub empty : Rep
  pub find : K → Rep → Option V
  -- `insert` leaves a key that is there; `operator[]` and an assignment put the value.
  pub insert : K → V → Rep → Rep
  pub put : K → V → Rep → Rep
  pub erase : K → Rep → Rep
  pub size : Rep → ℕ
  -- The pairs in the order of an iteration.
  pub pairs : Rep → List (K × V)
  pub find-empty : (k : K) → find k empty ≡ none
  pub find-put_same : (k : K) (v : V) (m : Rep) → find k (put k v m) ≡ some v
  pub find-put_other : (k j : K) (v : V) (m : Rep) → k ≢ j → find j (put k v m) ≡ find j m
  pub find-insert_same :
      (k : K) (v : V) (m : Rep)
      → find k (insert k v m) ≡ elim (find k m) [ none ↦ some v | some w ↦ some w ]
  pub find-insert_other : (k j : K) (v : V) (m : Rep) → k ≢ j → find j (insert k v m) ≡ find j m
  pub find-erase_same : (k : K) (m : Rep) → find k (erase k m) ≡ none
  pub find-erase_other : (k j : K) (m : Rep) → k ≢ j → find j (erase k m) ≡ find j m
  pub size-pairs : (m : Rep) → size m ≡ length (pairs m)
  pub In-pairs : (k : K) (v : V) (m : Rep) → In (k, v) (pairs m) ↔ (find k m ≡ some v)
  pub pairs-Distinct : (m : Rep) → Distinct (map (λ p. p.0) (pairs m))
