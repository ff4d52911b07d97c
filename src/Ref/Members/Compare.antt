-- ===== src/Ref/Members/Compare.antt =====
-- What the comparisons of api/ref.hpp say of references to live values, and to nothing.
use julelang.Prelude.{
  ◌≡◌, ◌<◌, refl, Bool, true, false, not, some, List, ◌∷◌, ◌==◌, if◌then◌else◌, arith, ℕ_discrete,
}
use julelang.Panic.{invalid_memory}
use julelang.Heap.{Heap, ok, panic, load_block}
use julelang.Ref.{Ref, nil, get, must_ok, real, ref_eq, assign_value}
use julelang.Ref.Members.{new_ref, ref_eq_value, ref_ne_value, ref_ne}

module _ {A : Type 0} (eq : A → A → Bool) where
  -- References to values compare as the values, but for one shared value, which is always equal to
  -- itself; a value compares with what a reference refers to. `!=` is the opposite throughout.
  pub ref_eq_lem :
      (h : Heap A) (r s : Ref) (x y : A) (xs ys : List A)
      → 0 < r.alloc
      → 0 < s.alloc
      → h.block r.alloc ≡ some (x ∷ xs)
      → h.block s.alloc ≡ some (y ∷ ys)
      → let same = if r.alloc == s.alloc then true else eq x y in
        (ref_eq eq r s h ≡ ok same h)
        × (ref_ne eq r s h ≡ ok (not same) h)
        × (ref_eq_value eq r y h ≡ ok (eq x y) h)
        × (ref_ne_value eq r y h ≡ ok (not (eq x y)) h)
  unfolding ref_eq ref_ne ref_eq_value ref_ne_value get must_ok real load_block
  ref_eq_lem h r s x y xs ys real_r real_s holds holds' = elim (ℕ_discrete r.alloc s.alloc) [
    | yes shared ↦ (
      ground (arith, shared, real_r),
      ground (arith, shared, real_r),
      ground (arith, holds, real_r),
      ground (arith, holds, real_r),
    )
    | no apart ↦ (
      ground (arith, apart, real_r, real_s, holds, holds'),
      ground (arith, apart, real_r, real_s, holds, holds'),
      ground (arith, holds, real_r),
      ground (arith, holds, real_r),
    )
  ]

  -- What `new_ref()` returns is equal to nothing but nil, and neither read nor written: both panic.
  pub new_ref-nil :
      (h : Heap A) (r : Ref) (x : A)
      → 0 < r.alloc
      → (ref_eq eq new_ref r h ≡ ok false h)
        × (ref_eq eq r new_ref h ≡ ok false h)
        × (ref_eq eq new_ref nil h ≡ ok true h)
        × (ref_eq_value eq new_ref x h ≡ ok false h)
        × (get new_ref h ≡ panic invalid_memory h)
        × (assign_value new_ref x h ≡ panic invalid_memory h)
  unfolding ref_eq ref_eq_value get must_ok real assign_value
  new_ref-nil h r x real_r =
      (ground (arith, real_r), ground (arith, real_r), refl, refl, refl, refl)
