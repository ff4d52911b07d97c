-- ===== src/Map/Keys.antt =====
-- The slices that `keys` and `values` of api/map.hpp make.
use julelang.Prelude.{
  length-map, suc, ◌≡◌, ◌↔◌, inl, inr, sym, ap, ◌∙◌, true, List, [], ◌∷◌, map, length, some,
}
use julelang.Heap.{Heap, ok}
use julelang.Slice.{Slice}
use julelang.Slice.Items.{Holds}
use julelang.Map.Members.{In, Distinct}
use julelang.Map.Table.{StdMap}
use julelang.Map.{keys, len}
use julelang.Slice.Fill.{stored}

module _ {K V : Type 0} where
  pub In-first :
      (k : K) (l : List (K × V)) → In k (map (λ (p : K × V). p.0) l) → (v : V) × In (k, v) l
  In-first k [] i = absurd i
  In-first k (p ∷ l) (inl e) = (p.1, inl (ap (λ (j : K). (j, p.1)) e))
  In-first k (p ∷ l) (inr i) = let (v, j) = In-first k l i in (v, inr j)

  first-In : (k : K) (v : V) (l : List (K × V)) → In (k, v) l → In k (map (λ (p : K × V). p.0) l)
  first-In k v [] i = absurd i
  first-In k v (p ∷ l) (inl e) = inl (ap (λ (q : K × V). q.0) e)
  first-In k v (p ∷ l) (inr i) = inr (first-In k v l i)

module _ {K V : Type 0} (t : StdMap K V) where
  -- With memory for it, `keys` returns a new slice with each key once, and no other; it has as many
  -- items as the map has pairs.
  pub keys-Distinct :
      (fill : K) (h : Heap K) (m : t.Rep)
      → h.grants h.next ≡ true
      → h.grants (suc h.next) ≡ true
      → (s : Slice) × (h' : Heap K) × (ks : List K) × (keys t fill m h ≡ ok s h')
        × Holds h' s ks
        × Distinct ks
        × (length ks ≡ len t m)
        × ((k : K) → In k ks ↔ ((v : V) × (t.find k m ≡ some v)))
  unfolding keys len
  keys-Distinct fill h m g1 g2 =
      let ks = map (λ (p : K × V). p.0) (t.pairs m) in
      let (s, h', run, held, _) = stored fill h ks g1 g2 in
      let count : t.size m ≡ length ks =
        t.size-pairs m ∙ sym (length-map (t.pairs m) (λ (p : K × V). p.0)) in
      (
        s,
        h',
        ks,
        rw count run,
        held,
        t.pairs-Distinct m,
        sym count,
        λ k. (
          (λ i. let (v, j) = In-first k (t.pairs m) i in (v, (t.In-pairs k v m).0 j)),
          λ (v, e). first-In k v (t.pairs m) ((t.In-pairs k v m).1 e),
        ),
      )
