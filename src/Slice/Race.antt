-- ===== src/Slice/Race.antt =====
-- Two threads that run the destructor of api/slice.hpp at once, on slices of one allocation. The
-- destructor is cut at its atomic operations and deletions: `dealloc` reads the count and acts on
-- what it read, then `~Ref` lowers the count.
use julelang.Prelude.{
  ◌+◌, ◌-◌, ◌%◌, ◌^◌, ◌<◌, ◌≡◌, arith, ◌==◌, if◌then◌else◌, Bool, true, false, Bool-cases,
  Option-cases, inl, inr, some, none, List, [], ◌∷◌,
}
use julelang.Heap.{
  Heap, Cmd, ok, pure, ◌>>=◌, ◌>>◌, put, load_count, fetch_add, delete_count, delete_block,
}
use julelang.Ref
use julelang.Ref.{Ref, nil, delta, get_ref_n, drop_ref}
use julelang.Slice.{Slice, dealloc, destroy}
use julelang.Slice.Release.{Counted}

pub data Pc : Type 0 where
  loading sharing dropped_last sole sole_uncounted done : Pc

module _ {A : Type 0} where
  pub advance : Ref → Pc → Cmd A Pc
  advance r loading = get_ref_n r >>= λ n. pure (if n == delta then sole else sharing)
  advance r sharing = drop_ref r >>= λ old. pure (if old == delta then dropped_last else done)
  advance r dropped_last = delete_count r.ref >> (delete_block 0 >> pure done)
  advance r sole = delete_count r.ref >> pure sole_uncounted
  advance r sole_uncounted = delete_block r.alloc >> pure done
  advance r done = pure done

  -- Without interruption the steps are the destructor.
  pub destroy-advance :
      (h : Heap A) (s : Slice)
      → 0 < s.refs.ref
      → destroy s h
        ≡ (advance s.refs loading >>= λ p.
              advance s.refs p >>= λ q. advance s.refs q >>= λ _. pure tt)
            h
  unfolding destroy dealloc advance get_ref_n drop_ref load_count fetch_add delete_count
      delete_block Ref.drop
  destroy-advance h s pos = elim (Option-cases (h.count s.refs.ref)) [
    | inl lost ↦ ground arith
    | inr (n, stored) ↦ elim (Bool-cases (n == delta)) [
      | inl one ↦ elim (Bool-cases (s.refs.alloc == 0)) [
        | inl null ↦ ground arith
        | inr placed ↦ elim (Option-cases (h.block s.refs.alloc)) [
          | inl lost ↦ ground arith
          | inr (items, live) ↦ ground arith
        ]
      ]
      | inr more ↦ ground arith
    ]
  ]

  -- Two threads, in the order that a list of turns gives: `false` for the first, `true` for the other.
  pub interleave : Ref → List Bool → Pc → Pc → Cmd A (Pc × Pc)
  interleave r [] p q = pure (p, q)
  interleave r (false ∷ turns) p q = advance r p >>= λ p'. interleave r turns p' q
  interleave r (true ∷ turns) p q = advance r q >>= λ q'. interleave r turns p q'

  module _ (h : Heap A) (r : Ref) (items : List A) (c : Counted h r 2 items) where
    -- One thread after the other: the allocation is freed with its count.
    pub in_turn-frees :
        (h' : Heap A) × (interleave r (false ∷ false ∷ true ∷ true ∷ true ∷ []) loading loading h
          ≡ ok (done, done) h')
        × (h'.count r.ref ≡ none)
        × (h'.block r.alloc ≡ none)
    unfolding interleave advance get_ref_n drop_ref load_count fetch_add delete_count delete_block
    in_turn-frees =
        let down : (2 + (2 ^ 64 - 1)) % 2 ^ 64 ≡ 1 = omega arith in
        let h1 = record h { count = put h.count r.ref (some 1) } in
        (
          record h1 { count = put h1.count r.ref none; block = put h1.block r.alloc none },
          ground (arith, c.counted, c.placed, c.count, c.block),
          ground arith,
          ground arith,
        )

    -- On an allocation with two owners that both end, where both threads read the count before one lowers
    -- it: the count is freed, the block never.
    pub race-leaks :
        (h' : Heap A) × (interleave r (false ∷ true ∷ false ∷ true ∷ true ∷ []) loading loading h
          ≡ ok (done, done) h')
        × (h'.count r.ref ≡ none)
        × (h'.block r.alloc ≡ some items)
    unfolding interleave advance get_ref_n drop_ref load_count fetch_add delete_count delete_block
    race-leaks =
        let down : (2 + (2 ^ 64 - 1)) % 2 ^ 64 ≡ 1 = omega arith in
        let h1 = record h { count = put h.count r.ref (some 1) } in
        let h2 = record h1 { count = put h1.count r.ref (some 0) } in
        (
          record h2 { count = put h2.count r.ref none },
          ground (arith, c.counted, c.placed, c.count, c.block),
          ground arith,
          c.block,
        )
