-- ===== src/Map/Table/Assoc.antt =====
-- An association list as a finite map with numbers as keys.
use julelang.Prelude.{
  ℕ, ◌≡◌, ◌≢◌, inl, inr, refl, ap, ap₂, subst, Option-cases, ◌∙◌, sym, arith, Option, none, some,
  List, [], ◌∷◌, map, length, ◌==◌, if◌then◌else◌, ℕ_discrete,
}
use julelang.Map.Members.{In, Distinct}
use julelang.Map.Table.{StdMap}

abbrev first_of : {V : Type 0} → ℕ × V → ℕ
first_of p = p.0

abbrev AssocList : Type 0 → Type 0
AssocList V = (l : List (ℕ × V)) × Distinct (map first_of l)

module _ {V : Type 0} where
  lookup : ℕ → List (ℕ × V) → Option V
  lookup k [] = none
  lookup k (p ∷ l) = if p.0 == k then some p.1 else lookup k l

  remove : ℕ → List (ℕ × V) → List (ℕ × V)
  remove k [] = []
  remove k (p ∷ l) = let rest = remove k l in if p.0 == k then rest else p ∷ rest

  lookup-remove_same : (k : ℕ) (l : List (ℕ × V)) → lookup k (remove k l) ≡ none
  unfolding lookup remove
  lookup-remove_same k [] = refl
  lookup-remove_same k (p ∷ l) = ground (arith, lookup-remove_same k l)

  lookup-remove_other : (k j : ℕ) (l : List (ℕ × V)) → k ≢ j → lookup j (remove k l) ≡ lookup j l
  unfolding lookup remove
  lookup-remove_other k j [] ne = refl
  lookup-remove_other k j (p ∷ l) ne = ground (arith, lookup-remove_other k j l ne)

  lookup-In : (k : ℕ) (l : List (ℕ × V)) (v : V) → lookup k l ≡ some v → In k (map first_of l)
  unfolding lookup
  lookup-In k [] v e = absurd (ground arith)
  lookup-In k (p ∷ l) v e = elim (ℕ_discrete k p.0) [
    | yes same ↦ inl same
    | no other ↦ inr (lookup-In k l v (ground arith))
  ]

  In-remove :
      (j k : ℕ) (l : List (ℕ × V))
      → In j (map first_of (remove k l))
      → In j (map first_of l) × (k ≢ j)
  unfolding remove
  In-remove j k [] m = absurd m
  In-remove j k (p ∷ l) m = elim (ℕ_discrete p.0 k) [
    | yes same ↦
        let cut : remove k (p ∷ l) ≡ remove k l = ground arith in
        let (old, ne) = In-remove j k l (subst (λ q. In j (map first_of q)) cut m) in (inr old, ne)
    | no other ↦
        let kept : remove k (p ∷ l) ≡ p ∷ remove k l = ground arith in
        elim (subst (λ q. In j (map first_of q)) kept m) [
          | inl e ↦ (inl e, λ same. other (sym (same ∙ e)))
          | inr rest ↦ let (old, ne) = In-remove j k l rest in (inr old, ne)
        ]
  ]

  remove-Distinct :
      (k : ℕ) (l : List (ℕ × V)) → Distinct (map first_of l) → Distinct (map first_of (remove k l))
  unfolding remove
  remove-Distinct k [] d = d
  remove-Distinct k (p ∷ l) d = elim (ℕ_discrete p.0 k) [
    | yes same ↦
        let cut : remove k (p ∷ l) ≡ remove k l = ground arith in
        subst (λ q. Distinct (map first_of q)) (sym cut) (remove-Distinct k l d.1)
    | no other ↦
        let kept : remove k (p ∷ l) ≡ p ∷ remove k l = ground arith in
        subst (λ q. Distinct (map first_of q)) (sym kept)
          ((λ m. d.0 (In-remove p.0 k l m).0), remove-Distinct k l d.1)
  ]

  In-key : (k : ℕ) (v : V) (l : List (ℕ × V)) → In (k, v) l → In k (map first_of l)
  In-key k v [] m = absurd m
  In-key k v (p ∷ l) (inl e) = inl (ap first_of e)
  In-key k v (p ∷ l) (inr m) = inr (In-key k v l m)

  In→lookup :
      (k : ℕ) (v : V) (l : List (ℕ × V))
      → Distinct (map first_of l)
      → In (k, v) l
      → lookup k l ≡ some v
  unfolding lookup
  In→lookup k v [] d m = absurd m
  In→lookup k v (p ∷ l) d (inl e) =
      let key : k ≡ p.0 = ap first_of e in
      let val : v ≡ p.1 = ap (λ (q : ℕ × V). q.1) e in ground arith
  In→lookup k v (p ∷ l) d (inr m) =
      let rest = In→lookup k v l d.1 m in
      let ne : p.0 ≢ k = λ e. d.0 (subst (λ q. In q (map first_of l)) (sym e) (In-key k v l m)) in
      ground arith

  lookup→In : (k : ℕ) (v : V) (l : List (ℕ × V)) → lookup k l ≡ some v → In (k, v) l
  unfolding lookup
  lookup→In k v [] e = absurd (ground arith)
  lookup→In k v (p ∷ l) e = elim (ℕ_discrete p.0 k) [
    | yes same ↦
        let val : p.1 ≡ v = ground arith in
        inl (ap₂ (λ (a : ℕ) (b : V). (a, b)) (sym same) (sym val))
    | no other ↦ inr (lookup→In k v l (ground arith))
  ]

  add : ℕ → V → AssocList V → AssocList V
  add k v m =
      ((k, v) ∷ remove k m.0, ((λ i. (In-remove k k m.0 i).1 refl), remove-Distinct k m.0 m.1))

  add_new : ℕ → V → AssocList V → AssocList V
  add_new k v m = elim (lookup k m.0) [ none ↦ add k v m | some w ↦ m ]

  pub assoc_table : StdMap ℕ V
  unfolding add add_new lookup
  assoc_table = record {
    Rep = AssocList V;
    empty = ([], tt);
    find = λ k m. lookup k m.0;
    insert = add_new;
    put = add;
    erase = λ k m. (remove k m.0, remove-Distinct k m.0 m.1);
    size = λ m. length m.0;
    pairs = λ m. m.0;
    find-empty = λ k. refl;
    find-put_same = λ k v m. ground arith;
    find-put_other = λ k j v m ne. ground (arith, lookup-remove_other k j m.0 ne);
    find-insert_same = λ k v m. elim (Option-cases (lookup k m.0)) [
      | inl e ↦ ground (arith, lookup-remove_same k m.0)
      | inr (w, e) ↦ ground arith
    ];
    find-insert_other = λ k j v m ne. elim (Option-cases (lookup k m.0)) [
      | inl e ↦ ground (arith, lookup-remove_other k j m.0 ne)
      | inr (w, e) ↦ ground arith
    ];
    find-erase_same = λ k m. lookup-remove_same k m.0;
    find-erase_other = λ k j m ne. lookup-remove_other k j m.0 ne;
    size-pairs = λ m. refl;
    In-pairs = λ k v m. (In→lookup k v m.0 m.1, lookup→In k v m.0);
    pairs-Distinct = λ m. m.1;
  }
