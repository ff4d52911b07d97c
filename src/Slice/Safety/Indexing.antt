-- ===== src/Slice/Safety/Indexing.antt =====
-- `operator[]` of api/slice.hpp keeps to the items, or panics.
use julelang.Prelude.{
  ℕ, ◌<◌, ◌≡◌, ◌⊎◌, inl, inr, refl, ap, List, [], ◌∷◌, length, arith, ◌==◌, ◌||◌, Bool-cases,
}
use julelang.Prelude.Int.{ℤ, pos, negsuc, leb_ℤ, pos_part}
use julelang.Panic.{Error, invalid_memory, index_out_of_range}
use julelang.Heap.{Heap, ok, panic, fault, pure, ◌>>◌}
use julelang.Slice.{Slice, is_nil, is_empty, check, check_index, at, set_at}
use julelang.Slice.Safety.{Slices, Safe}
use julelang.Slice.Safety.Access.{read-Inside, write-Inside, Safe-Rewritten}
use julelang.Slice.Safety.Statements.{read_item, write_item, step, Fine}

module _ {A : Type 0} where
  -- An index that passes the check is below the length.
  index_cases :
      (h : Heap A) (s : Slice) (index : ℤ)
      → ((k : ℕ) × (index ≡ pos k) × (k < s.len) × (check_index s index h ≡ ok tt h))
        ⊎ ((e : Error) × (check_index s index h ≡ panic e h))
  unfolding check_index check is_nil is_empty
  index_cases h s (negsuc k) = inr (elim (Bool-cases (s.base == 0)) [
    | inl null ↦ (invalid_memory, ground arith)
    | inr real ↦ (index_out_of_range (negsuc k), ground arith)
  ])
  index_cases h s (pos k) = elim (Bool-cases (s.base == 0)) [
    | inl null ↦ inr (invalid_memory, ground arith)
    | inr real ↦ elim (Bool-cases (is_empty s || leb_ℤ (pos s.len) (pos k))) [
      | inl out ↦ inr (index_out_of_range (pos k), ground arith)
      | inr within ↦ inl (k, refl, ground arith, ground arith)
    ]
  ]

  module _ (fill : A) (n : ℕ) (vars : Slices) (h : Heap A) (safe : Safe h n vars) where
    pub read-Fine : (i : ℕ) (index : ℤ) → i < n → Fine n (step fill (read_item i index) vars h)
    unfolding step at
    read-Fine i index li = elim (index_cases h (vars i) index) [
      | inr (e, failed) ↦ inr (e, h, rw failed refl)
      | inl (k, e, below, passed) ↦
          let inside = safe.inside i li in
          let (xs, read, one) = read-Inside h (vars i) k 1 inside (omega (arith, inside.within)) in
          let part : pos_part index ≡ k = ap pos_part e in
          inl (vars, h, rw (passed, part, read) (only xs one), safe)
    ]
      where
        only :
            (xs : List A)
            → length xs ≡ 1
            → ((elim xs [ [] ↦ (λ h. fault) | x ∷ xs ↦ pure x ]) >> pure vars) h ≡ ok vars h
        only [] one = absurd (omega (arith, one))
        only (x ∷ xs) one = refl

    pub write-Fine :
        (i : ℕ) (index : ℤ) (item : A) → i < n → Fine n (step fill (write_item i index item) vars h)
    unfolding step set_at
    write-Fine i index item li = elim (index_cases h (vars i) index) [
      | inr (e, failed) ↦ inr (e, h, rw failed refl)
      | inl (k, e, below, passed) ↦
          let inside = safe.inside i li in
          let (h', wrote, w) =
            write-Inside h (vars i) k (item ∷ []) inside (omega (arith, inside.within)) in
          let part : pos_part index ≡ k = ap pos_part e in
          inl (vars, h', rw (passed, part, wrote) refl, Safe-Rewritten h h' n vars w safe)
    ]
