-- ===== src/Any/Program.antt =====
-- Programs over n variables of type `jule::Any` (api/any.hpp): every value has one owner, and nothing is
-- leaked or freed twice.
use julelang.Prelude.{
  ℕ, suc, ◌<◌, ◌≡◌, ◌⊎◌, inl, inr, refl, ap, fun_ext, ◌∙◌, sym, subst, Bool, true, false, not, some,
  List, [], ◌∷◌, arith, ◌==◌, ◌&&◌, ℕ_discrete, Bool-cases, if◌then◌else◌,
}
use julelang.Panic.{allocation_failed, invalid_memory, incompatible_type}
use julelang.Heap.{and_then, throw, Heap, Run, Cmd, ok, panic, pure, new_block, load_block, ◌>>=◌}
use julelang.Any.{
  Any, nil_any, any_is_nil, type_is, value, assign_expr, alloc_new_copy, assign_any, cast, eq_expr,
  eq_any,
}
use julelang.Any.Holding.{cast-Boxed, eq_any-Boxed}
use julelang.Threads.Family.{put_at}
use julelang.Any.Ownership.{dealloc-Owned, fresh-Owned, with_box, stored}
use julelang.Any.Statements.{
  Anys, Op, store_value, store_variable, reset, cast_to, compare_value, compare_variable, Names,
  AllNames, step, run, Owned, Fine, nothing_allocated, no_values,
}

module _ {V : Type 0} (type_name : V → ℕ) (eq : V → V → Bool) (h : Heap V) (n : ℕ) (vars : Anys)
    (o : Owned type_name eq h n vars) where
  -- What follows the allocation for a value.
  abbrev keep : V → ℕ → Cmd V Any
  keep v p =
      if p == 0
      then throw allocation_failed
      else pure (record { data' = p; type' = some (type_name v) })

  -- A variable that was given up gets a value, or there is no memory for it.
  put_value :
      (h1 : Heap V) (i : ℕ)
      → i < n
      → Owned type_name eq h1 n (put_at vars i nil_any)
      → (v : V)
      → ((a : Any) × (h' : Heap V) × ((new_block (v ∷ []) >>= keep v) h1 ≡ ok a h')
          × Owned type_name eq h' n (put_at vars i a))
        ⊎ ((h' : Heap V) × ((new_block (v ∷ []) >>= keep v) h1 ≡ panic allocation_failed h'))
  unfolding new_block
  put_value h1 i li o1 v = elim (Bool-cases (h1.grants h1.next)) [
    | inr refused ↦ inr (record h1 { next = suc h1.next }, ground arith)
    | inl grant ↦ inl (
      stored type_name eq h1 v,
      with_box type_name eq h1 v,
      ground arith,
      subst (Owned type_name eq (with_box type_name eq h1 v) n) (fun_ext λ k. ground arith)
          (fresh-Owned type_name eq h1 n (put_at vars i nil_any) o1 i li (ground arith) v),
    )
  ]

  store_value-Fine :
      (i : ℕ) (v : V) → i < n → Fine type_name eq n (step type_name eq (store_value i v) vars h)
  unfolding step assign_expr
  store_value-Fine i v li =
      let (h1, gone, o1, _, _) = dealloc-Owned type_name eq h n vars o i li in
      elim (put_value h1 i li o1 v) [
        | inl (a, h', ran, o') ↦ inl (put_at vars i a, h', rw (gone, ran) refl, o')
        | inr (h', failed) ↦ inr (allocation_failed, h', rw (gone, failed) refl)
      ]

  reset-Fine : (i : ℕ) → i < n → Fine type_name eq n (step type_name eq (reset i) vars h)
  unfolding step
  reset-Fine i li =
      let (h1, gone, o1, _, _) = dealloc-Owned type_name eq h n vars o i li in
      inl (put_at vars i nil_any, h1, rw gone refl, o1)

  -- The copy's type is the original's.
  from_copy :
      (j : ℕ) (w : V)
      → (vars j).type' ≡ some (type_name w)
      → (h1 : Heap V) → alloc_new_copy type_name eq (vars j).data' h1 ≡ new_block (w ∷ []) h1
      → (alloc_new_copy type_name eq (vars j).data' >>= λ p.
            if p == 0
            then throw allocation_failed
            else pure (record { data' = p; type' = (vars j).type' }))
          h1
        ≡ (new_block (w ∷ []) >>= keep w) h1
  from_copy j w named h1 same = rw named (ap (λ (r : Run V ℕ). and_then r (keep w)) same)

  store_variable-Fine :
      (i j : ℕ)
      → i < n
      → j < n
      → Fine type_name eq n (step type_name eq (store_variable i j) vars h)
  unfolding step assign_any alloc_new_copy value any_is_nil load_block
  store_variable-Fine i j li lj =
      elim (Bool-cases (not (any_is_nil (vars i)) && ((vars i).data' == (vars j).data'))) [
        | inl same ↦ inl (
          put_at vars i (vars i),
          h,
          rw same refl,
          subst (Owned type_name eq h n)
              (fun_ext λ k. elim (ℕ_discrete i k) [
                | yes here ↦ let e : vars i ≡ vars k = ap vars here in ground (arith, e)
                | no other ↦ ground arith
              ])
              o,
        )
        | inr apart ↦
            let (h1, gone, o1, _, kept) = dealloc-Owned type_name eq h n vars o i li in
            elim (o.holds j lj) [
              | inl e ↦
                  let null : any_is_nil (vars j) ≡ true = ap any_is_nil e in
                  inl (put_at vars i nil_any, h1, rw (apart, null, gone) refl, o1)
              | inr (w, b) ↦
                  let some_data : any_is_nil (vars j) ≡ false = ground (arith, b.placed) in
                  let live : h1.block (vars j).data' ≡ some (w ∷ []) =
                    kept (vars j).data' (λ e. ground (arith, e, b.placed, apart)) ∙ b.block in
                  let same : alloc_new_copy type_name eq (vars j).data' h1 ≡ new_block (w ∷ []) h1 =
                    ground (arith, live) in
                  elim (put_value h1 i li o1 w) [
                    | inl (a, h', ran, o') ↦ inl (
                      put_at vars i a,
                      h',
                      rw (apart, some_data, gone, from_copy j w b.type' h1 same ∙ ran) refl,
                      o',
                    )
                    | inr (h', failed) ↦ inr (
                      allocation_failed,
                      h',
                      rw (apart, some_data, gone, from_copy j w b.type' h1 same ∙ failed) refl,
                    )
                  ]
            ]
      ]

  cast_to-Fine :
      (i name : ℕ) → i < n → Fine type_name eq n (step type_name eq (cast_to i name) vars h)
  unfolding step cast any_is_nil
  cast_to-Fine i name li = elim (o.holds i li) [
    | inl e ↦
        let zero_data : (vars i).data' ≡ 0 = ap (λ (a : Any). a.data') e in
        inr (invalid_memory, h, ground (arith, zero_data))
    | inr (v, b) ↦ elim (cast-Boxed type_name eq h (vars i) v name b) [
      | inl (_, ran) ↦ inl (vars, h, ground (arith, ran), o)
      | inr (_, failed) ↦ inr (incompatible_type, h, ground (arith, failed))
    ]
  ]

  compare_value-Fine :
      (i : ℕ) (v : V) → i < n → Fine type_name eq n (step type_name eq (compare_value i v) vars h)
  unfolding step eq_expr type_is cast any_is_nil value load_block
  compare_value-Fine i v li = elim (o.holds i li) [
    | inl e ↦
        let zero_data : (vars i).data' ≡ 0 = ap (λ (a : Any). a.data') e in
        inl (vars, h, ground (arith, zero_data), o)
    | inr (w, b) ↦ elim (ℕ_discrete (type_name w) (type_name v)) [
      | yes same ↦ inl (vars, h, ground (arith, same, b.placed, b.type', b.block), o)
      | no other ↦ inl (vars, h, ground (arith, other, b.placed, b.type'), o)
    ]
  ]

  compare_variable-Fine :
      (i j : ℕ)
      → i < n
      → j < n
      → Fine type_name eq n (step type_name eq (compare_variable i j) vars h)
  unfolding step eq_any any_is_nil
  compare_variable-Fine i j li lj = elim (o.holds i li) [
    | inl e ↦
        let zero_data : (vars i).data' ≡ 0 = ap (λ (a : Any). a.data') e in
        inl (vars, h, ground (arith, zero_data), o)
    | inr (v, b) ↦ elim (o.holds j lj) [
      | inl e ↦
          let zero_data : (vars j).data' ≡ 0 = ap (λ (a : Any). a.data') e in
          inl (vars, h, ground (arith, zero_data, b.placed), o)
      | inr (w, c) ↦
          let told = eq_any-Boxed type_name eq h (vars i) (vars j) v w b c in
          inl (vars, h, ground (arith, told), o)
    ]
  ]

  step-Fine : (op : Op V) → Names n op → Fine type_name eq n (step type_name eq op vars h)
  step-Fine (store_value i v) li = store_value-Fine i v li
  step-Fine (store_variable i j) (li, lj) = store_variable-Fine i j li lj
  step-Fine (reset i) li = reset-Fine i li
  step-Fine (cast_to i name) li = cast_to-Fine i name li
  step-Fine (compare_value i v) li = compare_value-Fine i v li
  step-Fine (compare_variable i j) (li, lj) = compare_variable-Fine i j li lj

module _ {V : Type 0} (type_name : V → ℕ) (eq : V → V → Bool) where
  -- Any program that assigns values and variables to n variables, resets, casts and compares them, returns
  -- with each variable nil or the one owner of a value under its type, and no other memory allocated,
  -- or panics: it never leaks a value, and never touches or frees one that is not there. This holds from
  -- any state in which it held before.
  pub run-Owned :
      (n : ℕ) (ops : List (Op V)) (vars : Anys) (h : Heap V)
      → AllNames n ops
      → Owned type_name eq h n vars
      → Fine type_name eq n (run type_name eq ops vars h)
  unfolding run
  run-Owned n [] vars h names o = inl (vars, h, refl, o)
  run-Owned n (op ∷ ops) vars h (named, names) o =
      elim (step-Fine type_name eq h n vars o op named) [
        | inl (vars', h', e, o') ↦
            subst (Fine type_name eq n) (sym (rw e refl)) (run-Owned n ops vars' h' names o')
        | inr (e, h', failed) ↦ inr (e, h', rw failed refl)
      ]

  -- Before the first statement nothing is held.
  pub initial-Owned :
      (grants : ℕ → Bool) (n : ℕ) → Owned type_name eq (nothing_allocated grants) n no_values
  initial-Owned grants n = record {
    holds = λ i li. inl refl;
    apart = λ i j li lj ne pos. absurd (omega (arith, pos));
    used = λ p some_p. inl refl;
  }
