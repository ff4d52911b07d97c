-- ===== src/Str/Members/Laws.antt =====
-- What the constructors, conversions and shorter members of class `Str` of api/str.hpp keep of a text.
use julelang.Prelude.{
  ℕ, zero, suc, ◌-◌, ◌≤◌, ◌<◌, ◌≡◌, ◌↔◌, refl, subst, get_or, ap, sym, ◌∙◌, true, some, [], ◌∷◌,
  ◌++◌, length, take, drop, get_elem?, arith, append_assoc, append-nil, take-append-drop,
  ℕ_discrete, length-drop, take_front,
}
use julelang.Prelude.Int.{pos}
use julelang.Panic.{ok, panic, index_out_of_range, ◌>>=◌}
use julelang.Str.Search.{bytes_eq_sound, bytes_eq_refl}
use julelang.Str.{Str, slice, at, until_nul, bytes_eq}
use julelang.Str.Slicing.{slice-in_range}
use julelang.Str.Members.{
  from_memory, c_length, from_c_str, c_str, len, slice_from, at_const, append_assign, str_eq,
  print_str, to_str, to_str_str,
}

from_memory_front : (s rest : Str) → from_memory (s ++ rest) (length s) ≡ some s
unfolding from_memory
from_memory_front [] rest = refl
from_memory_front (b ∷ s) rest = rw (from_memory_front s rest) refl

c_length-c_str : (s : Str) → c_length (c_str s) ≡ some (length (until_nul s))
unfolding c_str c_length until_nul
c_length-c_str [] = refl
c_length-c_str (b ∷ s) = elim (ℕ_discrete b 0) [
  | yes end ↦ ground (arith, end)
  | no byte ↦ ground (arith, byte, c_length-c_str s)
]

from_memory-until_nul :
    (s rest : Str) → from_memory (s ++ rest) (length (until_nul s)) ≡ some (until_nul s)
unfolding from_memory until_nul
from_memory-until_nul [] rest = refl
from_memory-until_nul (b ∷ s) rest = elim (ℕ_discrete b 0) [
  | yes end ↦ ground (arith, end)
  | no byte ↦ ground (arith, byte, from_memory-until_nul s rest)
]

from_memory-c_str : (s : Str) → from_memory (c_str s) (length (until_nul s)) ≡ some (until_nul s)
unfolding c_str
from_memory-c_str s = from_memory-until_nul s (0 ∷ [])

-- A text that is handed over as a C string is read back up to its first zero byte.
pub from_c_str-c_str : (s : Str) → from_c_str (c_str s) ≡ some (until_nul s)
unfolding from_c_str
from_c_str-c_str s = ground (arith, c_length-c_str s, from_memory-c_str s)

-- A text whose `operator<<` writes to a stream stands at its end, so that `to_str` of it is itself.
pub print_str_lem : (stream s : Str) → print_str stream s ≡ stream ++ s
unfolding print_str
print_str_lem stream [] = sym (append-nil stream)
print_str_lem stream (b ∷ s) = print_str_lem (stream ++ (b ∷ [])) s ∙ append_assoc stream (b ∷ []) s

pub to_str-print_str : (s : Str) → to_str (λ t stream. print_str stream t) s ≡ to_str_str s
unfolding to_str to_str_str
to_str-print_str s = print_str_lem [] s

sub_zero : (k : ℕ) → k - 0 ≡ k
sub_zero k = omega arith

take_rest : (s : Str) (k : ℕ) → take (length s - k) (drop k s) ≡ drop k s
take_rest s k =
    ap (λ (n : ℕ). take n (drop k s)) (sym (length-drop k s))
    ∙ ap (take (length (drop k s))) (sym (append-nil (drop k s)))
    ∙ take_front (drop k s) []

-- A text cut in two at a position within it and joined again is the text.
pub slice_from-join :
    (s : Str) (k : ℕ)
    → k ≤ length s
    → (slice s (pos 0) (pos k) >>= λ front.
        slice_from s (pos k) >>= λ back. ok (append_assign front back))
      ≡ ok s
unfolding slice_from append_assign len
slice_from-join s k within =
    rw
      (
        slice-in_range s 0 k (omega arith) within,
        slice-in_range s k (length s) within (omega arith),
        take_rest s k,
        sub_zero k,
      )
      (ap ok (take-append-drop k s))

get_elem?-append : (s t : Str) (k : ℕ) → k < length s → get_elem? (s ++ t) k ≡ some (get_or s k 0)
get_elem?-append [] t k h = absurd (omega arith)
get_elem?-append (b ∷ s) t zero h = refl
get_elem?-append (b ∷ s) t (suc k) h = get_elem?-append s t k (omega arith)

-- Within the length the unchecked `operator[]` of a const text returns what the checked one does; at
-- the length it returns zero where the checked one panics.
pub at_const-at :
    (s : Str) (k : ℕ) → k < length s → (at s (pos k) >>= λ b. ok (some b)) ≡ ok (at_const s (pos k))
unfolding at_const c_str at
at_const-at s k below = ground (arith, get_elem?-append s (0 ∷ []) k below)

pub at_const_end :
    (s : Str)
    → (at_const s (pos (length s)) ≡ some 0)
      × (at s (pos (length s)) ≡ panic (index_out_of_range (pos (length s))))
unfolding at_const c_str at
at_const_end s = (last s, ground arith)
  where
    last : (s : Str) → get_elem? (s ++ (0 ∷ [])) (length s) ≡ some 0
    last [] = refl
    last (b ∷ s) = last s

-- `operator==` tests whether two texts have the same bytes.
pub str_eq_lem : (s t : Str) → (str_eq s t ≡ true) ↔ (s ≡ t)
unfolding str_eq
str_eq_lem s t = (bytes_eq_sound s t, λ e. subst (λ u. bytes_eq s u ≡ true) e (bytes_eq_refl s))
