-- ===== src/Slice/Release.antt =====
-- Giving up slices of api/slice.hpp: destructors and the assignment of nil.
use julelang.Prelude.{
  ℕ, ◌+◌, ◌-◌, ◌%◌, ◌^◌, ◌<◌, ◌≡◌, ◌↔◌, refl, ap, ◌∙◌, sym, subst, true, Option, none, some, List,
  [], ◌∷◌, arith, length, ℕ_discrete,
}
use julelang.Heap.{
  Heap, Cmd, ok, pure, ◌>>=◌, ◌>>◌, put, fetch_add, load_count, delete_count, delete_block,
}
use julelang.Ref
use julelang.Ref.{Ref, nil, delta, minus_delta, get_ref_n, drop_ref}
use julelang.Slice.{Slice, is_nil, dealloc, assign_nil, destroy}

-- A count of `n` and a block stand behind the reference.
pub record Counted {A : Type 0} (h : Heap A) (r : Ref) (n : ℕ) (items : List A) : Type 0 where
  pub counted : 0 < r.ref
  pub placed : 0 < r.alloc
  pub count : h.count r.ref ≡ some n
  pub block : h.block r.alloc ≡ some items

abbrev pub ShareAll : Ref → List Slice → Type 0
ShareAll r [] = Unit {0}
ShareAll r (s ∷ rest) = (s.refs ≡ r) × ShareAll r rest

module _ {A : Type 0} where
  abbrev pub with_count : Heap A → Ref → Option ℕ → Heap A
  with_count h r n = record h { count = put h.count r.ref n }

  abbrev pub released : Heap A → Ref → Heap A
  released h r = record h { count = put h.count r.ref none; block = put h.block r.alloc none }

  pub destroy_last :
      (h : Heap A) (s : Slice) (items : List A)
      → Counted h s.refs 1 items
      → destroy s h ≡ ok tt (released h s.refs)
  unfolding destroy dealloc Ref.drop get_ref_n load_count delete_count delete_block
  destroy_last h s items c = ground (arith, c.counted, c.placed, c.count, c.block)

  pub destroy_shared :
      (h : Heap A) (s : Slice) (items : List A) (n : ℕ)
      → Counted h s.refs (n + 2) items
      → n < 2 ^ 64 - 2
      → destroy s h ≡ ok tt (with_count h s.refs (some (n + 1)))
  unfolding destroy dealloc Ref.drop drop_ref get_ref_n load_count fetch_add
  destroy_shared h s items n c few =
      let down : (n + 2 + (2 ^ 64 - 1)) % 2 ^ 64 ≡ n + 1 = omega arith in
      ground (arith, c.counted, c.placed, c.count, c.block)

  -- The destructors of several slices, one after the other.
  pub destroy_each : List Slice → Cmd A (Unit {0})
  destroy_each [] = pure tt
  destroy_each (s ∷ rest) = do destroy s; destroy_each rest

  pub lowered :
      (h : Heap A) (r : Ref) (n m : ℕ) (items : List A)
      → Counted h r n items
      → Counted (with_count h r (some m)) r m items
  lowered h r n m items c = record {
    counted = c.counted;
    placed = c.placed;
    count = ground arith;
    block = c.block;
  }

  -- The destructors of all slices on an allocation, in any order: block and count are freed by the
  -- last, and nothing is touched that is freed. There are fewer than 2^64 slices.
  pub destroy_each-frees :
      (h : Heap A) (r : Ref) (items : List A) (s : Slice) (rest : List Slice)
      → Counted h r (length (s ∷ rest)) items
      → length rest < 2 ^ 64 - 1
      → ShareAll r (s ∷ rest)
      → (h' : Heap A) × (destroy_each (s ∷ rest) h ≡ ok tt h')
        × (h'.count r.ref ≡ none)
        × (h'.block r.alloc ≡ none)
  unfolding destroy_each
  destroy_each-frees h r items s [] c few (e, _) = (
    released h r,
    rw (destroy_last h s items (subst (λ (q : Ref). Counted h q 1 items) (sym e) c))
        (ap (λ (q : Ref). ok tt (released h q)) e),
    ground arith,
    ground arith,
  )
  destroy_each-frees h r items s (t ∷ rest) c few (e, same) =
      let n = length rest in
      let here : Counted h s.refs (n + 2) items =
        subst (λ (q : Ref). Counted h q (n + 2) items) (sym e)
          (subst (λ (k : ℕ). Counted h r k items) (omega arith) c) in
      let after = with_count h r (some (n + 1)) in
      let run : destroy s h ≡ ok tt after =
        destroy_shared h s items n here (omega arith)
        ∙ ap (λ (q : Ref). ok tt (with_count h q (some (n + 1)))) e in
      let (h', runs, no_count, no_block) =
        destroy_each-frees after r items t rest
          (subst (λ (k : ℕ). Counted after r k items) (omega arith)
            (lowered h r (length (s ∷ (t ∷ rest))) (n + 1) items c))
          (omega arith) same in
      (h', rw (run, runs) refl, no_count, no_block)

  -- Assigning nil to a slice that is not nil makes it nil if and only if it is the allocation's one
  -- owner.
  pub assign_nil-is_nil :
      (h : Heap A) (s : Slice) (n : ℕ) (items : List A)
      → Counted h s.refs n items
      → 0 < s.base
      → (s' : Slice) × (h' : Heap A) × (assign_nil s h ≡ ok s' h') × ((is_nil s' ≡ true) ↔ (n ≡ 1))
  unfolding assign_nil dealloc is_nil get_ref_n load_count delete_count delete_block
  assign_nil-is_nil h s n items c nonnil = elim (ℕ_discrete n 1) [
    | yes one ↦ (
      record s { len = 0; cap = 0; refs = nil; base = 0; off = 0 },
      released h s.refs,
      ground (arith, c.counted, c.placed, c.count, c.block),
      ((λ _. one), λ _. refl),
    )
    | no more ↦ (
      record s { len = 0; cap = 0; refs = record { alloc = 0; ref = s.refs.ref } },
      h,
      ground (arith, c.counted, c.placed, c.count, c.block),
      ((λ e. ground arith), λ e. absurd (more e)),
    )
  ]

  -- Of two owners one is assigned nil; when then the other ends first, the block is never freed.
  pub assign_nil_leak :
      (h : Heap A) (s t : Slice) (items : List A)
      → Counted h s.refs 2 items
      → t.refs ≡ s.refs
      → (h' : Heap A) × ((assign_nil s >>= λ s'. destroy t >> destroy s') h ≡ ok tt h')
        × (h'.count s.refs.ref ≡ none)
        × (h'.block s.refs.alloc ≡ some items)
  unfolding assign_nil dealloc destroy Ref.drop drop_ref get_ref_n load_count fetch_add delete_count
      delete_block
  assign_nil_leak h s t items c same =
      let down : (2 + (2 ^ 64 - 1)) % 2 ^ 64 ≡ 1 = omega arith in
      (
        with_count (with_count h s.refs (some 1)) s.refs none,
        ground (arith, c.counted, c.placed, c.count, c.block),
        ground arith,
        c.block,
      )
