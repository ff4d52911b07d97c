-- ===== src/Slice/Checks.antt =====
-- The checks of api/slice.hpp on an index and on the bounds of a slicing.
use julelang.Prelude.{
  ℕ, ◌≤◌, ◌<◌, ◌≡◌, refl, ap, true, false, Bool-cases, arith, inl, inr, ◌⊎◌, dec_lt, dec_le,
}
use julelang.Prelude.Int.{ℤ, pos, negsuc}
use julelang.Panic.{invalid_memory, index_out_of_range, slicing_out_of_range}
use julelang.Heap.{Heap, ok, panic}
use julelang.Slice.{Slice, is_nil, is_empty, check, check_index, slice}

abbrev pub InRange : Slice → ℤ → Type 0
InRange s i = (k : ℕ) × (i ≡ pos k) × (k < s.len)

abbrev pub InBounds : Slice → ℤ → ℤ → Type 0
InBounds s start end = (a : ℕ) × (b : ℕ) × (start ≡ pos a) × (end ≡ pos b) × (a ≤ b) × (b ≤ s.len)

pos-injective : (m n : ℕ) → pos m ≡ pos n → m ≡ n
pos-injective m n e = ap (λ (i : ℤ). elim i [ pos k ↦ k | negsuc k ↦ 0 ]) e

negative : (k n : ℕ) → ¬ (negsuc k ≡ pos n)
negative k n e = ground arith

module _ {A : Type 0} where
  -- Where the length is within the capacity, a nil slice panics, an index in range passes, and every
  -- other index panics; none reads memory.
  pub check_index-cases :
      (h : Heap A) (s : Slice) (i : ℤ)
      → s.len ≤ s.cap
      → ((is_nil s ≡ true) × (check_index s i h ≡ panic invalid_memory h))
        ⊎ ((is_nil s ≡ false) × InRange s i × (check_index s i h ≡ ok tt h))
        ⊎ ((is_nil s ≡ false)
            × (¬ InRange s i)
            × (check_index s i h ≡ panic (index_out_of_range i) h))
  unfolding check_index check is_nil is_empty
  check_index-cases h s (negsuc k) fits = elim (Bool-cases (is_nil s)) [
    | inl nothing ↦ inl (nothing, ground arith)
    | inr some_items ↦ inr (inr (some_items, (λ (n, e, _). negative k n e), ground arith))
  ]
  check_index-cases h s (pos k) fits = elim (Bool-cases (is_nil s)) [
    | inl nothing ↦ inl (nothing, ground arith)
    | inr some_items ↦ elim (dec_lt k s.len) [
      | yes below ↦ inr (inl (some_items, (k, refl, below), ground arith))
      | no above ↦ inr (
          inr
            (some_items, (λ (n, e, lt). above (omega (arith, pos-injective k n e))), ground arith))
    ]
  ]

  -- Slicing a slice that is not nil outside its bounds panics.
  pub slice_outside :
      (h : Heap A) (s : Slice) (start end : ℤ)
      → is_nil s ≡ false
      → ¬ InBounds s start end
      → slice s start end h ≡ panic (slicing_out_of_range start end) h
  unfolding slice check is_nil
  slice_outside h s (negsuc a) end some_items out = ground arith
  slice_outside h s (pos a) (negsuc b) some_items out = ground arith
  slice_outside h s (pos a) (pos b) some_items out = elim (dec_le a b) [
    | no above ↦ ground arith
    | yes below ↦ elim (dec_le b s.len) [
      | yes inside ↦ absurd (out (a, b, refl, refl, below, inside))
      | no above ↦ ground arith
    ]
  ]
