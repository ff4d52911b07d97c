-- ===== src/Str/Slicing.antt =====
-- `slice` and `operator[]` of api/str.hpp: when they panic, and what they return.
use julelang.Prelude.{
  ℕ, zero, suc, ◌+◌, ◌-◌, ◌≤◌, ◌<◌, ◌≡◌, ◌↔◌, refl, ap, ◌∙◌, [], ◌∷◌, ◌++◌, arith, ℕ_discrete,
  dec_lt, length, take_front, drop_front, length-append, take, drop, get_or, get_elem?, some,
}
use julelang.Prelude.Int.{ℤ, pos, negsuc, ◌≤ℤ◌}
use julelang.Panic.{Result, ok, panic, index_out_of_range, slicing_out_of_range}
use julelang.Str.{Str, slice, at}

abbrev pub InRange : ℤ → ℤ → ℕ → Type 0
InRange start end n = (pos 0 ≤ℤ start) × (start ≤ℤ end) × (end ≤ℤ pos n)

zero_diff : (a b : ℕ) → a ≡ b → b - a ≡ 0
zero_diff a b e = omega arith

add_sub : (a b : ℕ) → a + b - a ≡ b
add_sub a b = omega arith

pub slice-in_range :
    (s : Str) (a b : ℕ)
    → a ≤ b
    → b ≤ length s
    → slice s (pos a) (pos b) ≡ ok (take (b - a) (drop a s))
unfolding slice
slice-in_range s a b p q = elim (ℕ_discrete a b) [
  | yes same ↦ ground (arith, ap (λ (n : ℕ). take n (drop a s)) (zero_diff a b same))
  | no differ ↦ ground arith
]

-- Slicing between two positions returns the bytes that stand between them.
pub slice-append :
    (front mid back : Str)
    → slice (front ++ (mid ++ back)) (pos (length front)) (pos (length front + length mid)) ≡ ok mid
slice-append front mid back =
    slice-in_range (front ++ (mid ++ back)) (length front) (length front + length mid) (omega arith)
      (omega (arith, length-append front (mid ++ back), length-append mid back))
    ∙ ap ok (
        rw (drop_front front (mid ++ back), add_sub (length front) (length mid))
          (take_front mid back))

-- Slicing panics exactly outside the range 0 ≤ start ≤ end ≤ length.
pub slice_panics :
    (s : Str) (start end : ℤ)
    → (slice s start end ≡ panic (slicing_out_of_range start end))
      ↔ (¬ InRange start end (length s))
unfolding slice
slice_panics s start end = (λ e r. ground arith, λ out. ground arith)

-- What `operator[]` returns at an index: the byte that stands there, or a panic where none does.
pub data Indexed (s : Str) : ℤ → Result ℕ → Type 0 where
  inside : {k b : ℕ} → get_elem? s k ≡ some b → Indexed s (pos k) (ok b)
  outside :
      {i : ℤ} → ((k : ℕ) → i ≡ pos k → length s ≤ k) → Indexed s i (panic (index_out_of_range i))

get_elem?-get_or : (s : Str) (k : ℕ) → k < length s → get_elem? s k ≡ some (get_or s k 0)
get_elem?-get_or [] k h = absurd (omega arith)
get_elem?-get_or (b ∷ s) zero h = refl
get_elem?-get_or (b ∷ s) (suc k) h = get_elem?-get_or s k (omega arith)

-- Indexing returns the byte at the index, and panics exactly where there is none.
pub at-Indexed : (s : Str) (i : ℤ) → Indexed s i (at s i)
unfolding at
at-Indexed s (negsuc n) =
    let run : at s (negsuc n) ≡ panic (index_out_of_range (negsuc n)) = ground arith in
    rw run (outside λ k e. ground arith)
at-Indexed s (pos k) = elim (dec_lt k (length s)) [
  | yes p ↦
      let run : at s (pos k) ≡ ok (get_or s k 0) = ground arith in
      rw run (inside (get_elem?-get_or s k p))
  | no p ↦
      let run : at s (pos k) ≡ panic (index_out_of_range (pos k)) = ground arith in
      rw run (outside λ j e. ground arith)
]
