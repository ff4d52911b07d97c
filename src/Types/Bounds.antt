-- ===== src/Types/Bounds.antt =====
-- What the types of api/types.hpp hold.
use julelang.Prelude.{ℕ, ◌-◌, ◌^◌, ◌≤◌, ◌<◌, ◌≡◌, ◌↔◌, refl, Bool, true, false, arith}
use julelang.Prelude.Int.{ℤ, pos, negsuc, ◌≤ℤ◌, pos_part, neg_part}
use julelang.Types.{
  i32, i64, u32, u64, int, uint, uintptr, width, is_signed, max_i64, min_i64, max_u64,
}

-- The values of a type with its width and sign.
abbrev pub IsValue : ℕ → Bool → ℤ → Type 0
IsValue w false z = (neg_part z ≡ 0) × (pos_part z < 2 ^ w)
IsValue w true z = (neg_part z ≤ 2 ^ (w - 1)) × (pos_part z < 2 ^ (w - 1))

-- The constants are the bounds of I64 and U64, whatever the system.
pub IsValue-i64 :
    (long : ℕ) (arch_32 : Bool) (z : ℤ)
    → (IsValue (width long arch_32 i64) (is_signed i64) z ↔ ((min_i64 ≤ℤ z) × (z ≤ℤ max_i64)))
      × (IsValue (width long arch_32 u64) (is_signed u64) z ↔ ((pos 0 ≤ℤ z) × (z ≤ℤ max_u64)))
unfolding width is_signed
IsValue-i64 long arch_32 (pos k) =
    ((λ v. ground arith, λ v. ground arith), (λ v. ground arith, λ v. ground arith))
IsValue-i64 long arch_32 (negsuc k) =
    ((λ v. ground arith, λ v. ground arith), (λ v. ground arith, λ v. ground arith))

-- I32 and U32 have the bits of their names exactly where `long` has 32; the sizes of Int, Uint and Uintptr
-- agree.
pub width-i32 :
    (long : ℕ) (arch_32 : Bool)
    → ((width long arch_32 i32 ≡ 32) ↔ (long ≡ 32))
      × (width long arch_32 u32 ≡ width long arch_32 i32)
      × (width long arch_32 int ≡ width long arch_32 uint)
      × (width long arch_32 uint ≡ width long arch_32 uintptr)
unfolding width
width-i32 long arch_32 = ((λ e. e, λ e. e), refl, refl, refl)
