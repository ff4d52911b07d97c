-- ===== src/Any/Ownership.antt =====
-- How `dealloc` and a new block of api/any.hpp keep every value with one owner.
use julelang.Prelude.{
  ℕ, suc, ◌<◌, ◌≤◌, ◌≡◌, ◌≢◌, ◌⊎◌, inl, inr, refl, ap, ◌∙◌, sym, subst, Bool, none, some, [], ◌∷◌,
  arith, ℕ_discrete,
}
use julelang.Heap.{Heap, ok, put, delete_block}
use julelang.Any.{Any, nil_any, any_is_nil, any_dealloc}
use julelang.Any.Holding.{Boxed}
use julelang.Threads.Family.{put_at, put_at_same, put_at_other}
use julelang.Any.Statements.{Anys, Owned}

module _ {V : Type 0} (type_name : V → ℕ) (eq : V → V → Bool) where
  -- A value stays where its block does.
  Boxed_kept :
      (h h' : Heap V) (a : Any) (v : V)
      → h.next ≤ h'.next
      → h'.block a.data' ≡ h.block a.data'
      → Boxed type_name eq h a v
      → Boxed type_name eq h' a v
  Boxed_kept h h' a v later kept b = record {
    placed = b.placed;
    below = omega (arith, b.below);
    block = kept ∙ b.block;
    type' = b.type';
  }

  abbrev Held : Heap V → Any → Type 0
  Held h a = (a ≡ nil_any) ⊎ ((v : V) × Boxed type_name eq h a v)

  put_at-Held :
      (h : Heap V) (vars : Anys) (i k : ℕ) (a : Any)
      → Held h a
      → (i ≢ k → Held h (vars k))
      → Held h (put_at vars i a k)
  put_at-Held h vars i k a here elsewhere = elim (ℕ_discrete i k) [
    | yes same ↦
        subst (λ (l : ℕ). Held h (put_at vars i a l)) same
          (subst (Held h) (sym (put_at_same vars i a)) here)
    | no other ↦ subst (Held h) (sym (put_at_other vars i k a other)) (elsewhere other)
  ]

  kept-Held :
      (h h' : Heap V) (a : Any)
      → h.next ≤ h'.next
      → (0 < a.data' → h'.block a.data' ≡ h.block a.data')
      → Held h a
      → Held h' a
  kept-Held h h' a later kept (inl e) = inl e
  kept-Held h h' a later kept (inr (v, b)) = inr (v, Boxed_kept h h' a v later (kept b.placed) b)

  -- A variable gives up its block, which is freed.
  give_up :
      (h h' : Heap V) (n : ℕ) (vars : Anys)
      → Owned type_name eq h n vars
      → (i : ℕ) → i < n
      → h'.next ≡ h.next
      → ((q : ℕ) → q ≢ (vars i).data' → h'.block q ≡ h.block q)
      → (0 < (vars i).data' → h'.block (vars i).data' ≡ none)
      → Owned type_name eq h' n (put_at vars i nil_any)
  give_up h h' n vars o i li same kept gone = record {
    holds = λ k lk. put_at-Held h' vars i k nil_any (inl refl) λ other.
        kept-Held h h' (vars k) (omega (arith, same))
          (λ pos. kept (vars k).data' (o.apart k i lk li (λ e. other (sym e)) pos)) (o.holds k lk);
    apart = λ k l lk ll ne pos. ground (arith, o.apart k l lk ll ne);
    used = λ p some_p. elim (ℕ_discrete p (vars i).data') [
      | yes freed ↦ inl (ap h'.block freed ∙ gone (omega (arith, freed)))
      | no other ↦ elim (o.used p some_p) [
        | inl free ↦ inl (kept p other ∙ free)
        | inr (k, lk, e) ↦ inr (k, lk, ground (arith, e, other))
      ]
    ];
  }

  -- What a variable holds can be given up.
  pub dealloc-Owned :
      (h : Heap V) (n : ℕ) (vars : Anys)
      → Owned type_name eq h n vars
      → (i : ℕ) → i < n
      → (h' : Heap V) × (any_dealloc type_name eq (vars i) h ≡ ok nil_any h')
        × Owned type_name eq h' n (put_at vars i nil_any)
        × (h'.next ≡ h.next)
        × ((q : ℕ) → q ≢ (vars i).data' → h'.block q ≡ h.block q)
  unfolding any_dealloc any_is_nil delete_block
  dealloc-Owned h n vars o i li = elim (o.holds i li) [
    | inl e ↦
        let zero_data : (vars i).data' ≡ 0 = ap (λ (a : Any). a.data') e in
        (
          h,
          ground (arith, zero_data),
          give_up h h n vars o i li refl (λ q _. refl)
              (λ pos. absurd (omega (arith, zero_data, pos))),
          refl,
          λ q _. refl,
        )
    | inr (v, b) ↦
        let h' = record h { block = put h.block (vars i).data' none } in
        let kept : (q : ℕ) → q ≢ (vars i).data' → h'.block q ≡ h.block q =
          λ q other. ground (arith, other) in
        (
          h',
          ground (arith, b.placed, b.block),
          give_up h h' n vars o i li refl kept (λ pos. ground arith),
          refl,
          kept,
        )
  ]

  abbrev pub with_box : Heap V → V → Heap V
  with_box h v = record h { block = put h.block (suc h.next) (some (v ∷ [])); next = suc h.next }

  abbrev pub stored : Heap V → V → Any
  stored h v = record { data' = suc h.next; type' = some (type_name v) }

  below_next : (h : Heap V) (a : Any) → Held h a → a.data' ≤ h.next
  below_next h a (inl e) = omega (arith, ap (λ (b : Any). b.data') e)
  below_next h a (inr (v, b)) = b.below

  -- A variable that holds nothing is given a value in a new block.
  pub fresh-Owned :
      (h : Heap V) (n : ℕ) (vars : Anys)
      → Owned type_name eq h n vars
      → (i : ℕ) → i < n
      → (vars i).data' ≡ 0
      → (v : V) → Owned type_name eq (with_box h v) n (put_at vars i (stored h v))
  fresh-Owned h n vars o i li empty v = record {
    holds = λ k lk.
        put_at-Held (with_box h v) vars i k (stored h v)
          (inr (
            v,
            record {
              placed = omega arith;
              below = omega arith;
              block = ground arith;
              type' = refl;
            },
          ))
          λ other.
            let old = below_next h (vars k) (o.holds k lk) in
            kept-Held h (with_box h v) (vars k) (omega arith) (λ pos. ground (arith, old))
              (o.holds k lk);
    apart = λ k l lk ll ne pos.
        let old = below_next h (vars k) (o.holds k lk) in
        let old' = below_next h (vars l) (o.holds l ll) in
        ground (arith, o.apart k l lk ll ne, old, old');
    used = λ p some_p. elim (ℕ_discrete p (suc h.next)) [
      | yes new ↦ inr (i, li, ground (arith, new))
      | no other ↦ elim (o.used p some_p) [
        | inl free ↦ inl (ground (arith, free, other))
        | inr (k, lk, e) ↦ inr (k, lk, ground (arith, e, empty, some_p))
      ]
    ];
  }
