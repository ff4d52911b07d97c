-- ===== src/Map/Refine.antt =====
-- api/map.hpp refines finite maps: on any sequence of calls a `jule::Map` reads as a function from
-- keys to values that is changed at one key at a time.
use julelang.Prelude.{
  ◌≡◌, ◌≢◌, ◌⊎◌, inl, inr, refl, true, false, Option, none, some, List, [], ◌∷◌, Option-cases,
}
use julelang.Map.Table.{StdMap}
use julelang.Map.{clear, has, del, get, set}

-- The calls that change a map; `fetch` reads through `operator[]`.
pub data Op (K V : Type 0) : Type 0 where
  write : K → V → Op K V
  fetch : K → Op K V
  delete : K → Op K V
  wipe : Op K V

-- Equality of keys is decided.
pub record Key (K : Type 0) : Type 0 where
  pub decide : (k j : K) → (k ≡ j) ⊎ (k ≢ j)

module _ {K V : Type 0} (key : Key K) where
  abbrev pub change : (K → Option V) → K → Option V → K → Option V
  change f k v j = elim (key.decide k j) [ inl same ↦ v | inr other ↦ f j ]

  -- The calls on a function; `def` is the value's default.
  pub replay : V → List (Op K V) → (K → Option V) → K → Option V
  replay def [] f = f
  replay def (write k v ∷ ops) f = replay def ops (change f k (some v))
  replay def (fetch k ∷ ops) f =
      replay def ops (change f k (elim (f k) [ none ↦ some def | some v ↦ some v ]))
  replay def (delete k ∷ ops) f = replay def ops (change f k none)
  replay def (wipe ∷ ops) f = replay def ops (λ _. none)

module _ {K V : Type 0} (t : StdMap K V) where
  open t use {Rep, find}

  pub run : V → List (Op K V) → Rep → Rep
  run def [] m = m
  run def (write k v ∷ ops) m = run def ops (set t m k v)
  run def (fetch k ∷ ops) m = run def ops (get t def m k).1
  run def (delete k ∷ ops) m = run def ops (del t m k)
  run def (wipe ∷ ops) m = run def ops (clear t m)

  abbrev pub view : Rep → K → Option V
  view m k = find k m

  module _ (key : Key K) where
    -- What a read returns, and what `has` says, is what the function holds.
    pub get-has-view :
        (def : V) (m : Rep) (k : K)
        → ((has t m k ≡ false) × (view m k ≡ none) × ((get t def m k).0 ≡ def))
          ⊎ ((v : V) × (has t m k ≡ true) × (view m k ≡ some v) × (get t def m k ≡ (v, m)))
    unfolding get has
    get-has-view def m k = elim (Option-cases (find k m)) [
      | inl lost ↦ inl (rw (lost, has) refl, lost, rw (lost, get) refl)
      | inr (v, found) ↦ inr (v, rw (found, has) refl, found, rw (found, get) refl)
    ]
