-- ===== src/Clone/Maps.antt =====
-- Clones of maps by api/derive/clone.hpp.
use julelang.Prelude.{
  ◌≡◌, inl, inr, refl, ap, subst, ◌∙◌, sym, arith, none, some, List, [], ◌∷◌, map, Option-cases,
}
use julelang.Map
use julelang.Map.Members.{In, Distinct}
use julelang.Map.Table.{StdMap}
use julelang.Map.Keys.{In-first}
use julelang.Clone.{clone_pairs, clone_map}

none-some : {V : Type 0} {v : V} → ¬ (none ≡ some v)
none-some e = ground arith

module _ {K V : Type 0} (t : StdMap K V) (dup : V → V) where
  open t use {Rep, find}

  abbrev same_key : K → K
  same_key k = k

  abbrev key_of : K × V → K
  key_of p = p.0

  -- Keys that are not among the pairs keep their value.
  pairs_other :
      (k : K) (ps : List (K × V)) (m : Rep)
      → ¬ In k (map key_of ps)
      → find k (clone_pairs t same_key dup ps m) ≡ find k m
  unfolding clone_pairs Map.set
  pairs_other k [] m out = refl
  pairs_other k (p ∷ ps) m out =
      pairs_other k ps (t.put p.0 (dup p.1) m) (λ i. out (inr i))
      ∙ t.find-put_other p.0 k (dup p.1) m (λ e. out (inl (sym e)))

  pairs-In :
      (k : K) (v : V) (ps : List (K × V)) (m : Rep)
      → Distinct (map key_of ps)
      → In (k, v) ps
      → find k (clone_pairs t same_key dup ps m) ≡ some (dup v)
  unfolding clone_pairs Map.set
  pairs-In k v [] m d i = absurd i
  pairs-In k v (p ∷ ps) m d (inl e) =
      let out : ¬ In k (map key_of ps) =
        subst (λ (q : K × V). ¬ In q.0 (map key_of ps)) (sym e) d.0 in
      pairs_other k ps (t.put p.0 (dup p.1) m) out
      ∙ ap (λ (q : K × V). find k (t.put q.0 (dup q.1) m)) (sym e)
      ∙ t.find-put_same k (dup v) m
  pairs-In k v (p ∷ ps) m d (inr i) = pairs-In k v ps (t.put p.0 (dup p.1) m) d.1 i

  -- The clone of a map whose keys are their own clones has the map's keys, and no other, each with the
  -- clone of its value.
  pub clone_map-find :
      (m : Rep) (k : K)
      → find k (clone_map t same_key dup m)
        ≡ elim (find k m) [ none ↦ none | some v ↦ some (dup v) ]
  unfolding clone_map Map.new
  clone_map-find m k = elim (Option-cases (find k m)) [
    | inr (v, found) ↦
        rw found
          (pairs-In k v (t.pairs m) t.empty (t.pairs-Distinct m) ((t.In-pairs k v m).1 found))
    | inl lost ↦
        let missing : ¬ ((v : V) × In (k, v) (t.pairs m)) =
          λ (v, i). absurd (none-some (sym lost ∙ (t.In-pairs k v m).0 i)) in
        rw lost (
          pairs_other k (t.pairs m) t.empty (λ i. missing (In-first k (t.pairs m) i))
          ∙ t.find-empty k)
  ]
