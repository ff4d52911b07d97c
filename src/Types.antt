-- ===== src/Types.antt =====
-- api/types.hpp: the integer types and their bounds. The width of `long` is a parameter: 64 bits on 64-bit
-- Linux and Darwin, 32 bits on Windows and on systems of 32 bits.
pub mod Bounds
use julelang.Prelude.{ℕ, ◌+◌, ◌-◌, ◌*◌, ◌^◌, Bool, true, false, if◌then◌else◌}
use julelang.Prelude.Int.{ℤ, pos, negsuc}
use julelang.Str.{Str}

pub data IntType : Type 0 where
  i8 i16 i32 i64 u8 u16 u32 u64 int uint uintptr : IntType

-- The bits of a type, where `arch_32` is whether ARCH_32BIT is defined.
unfoldable pub width : (long : ℕ) → (arch_32 : Bool) → IntType → ℕ
width long arch_32 i8 = 8
width long arch_32 i16 = 16
width long arch_32 i32 = long
width long arch_32 i64 = 64
width long arch_32 u8 = 8
width long arch_32 u16 = 16
width long arch_32 u32 = long
width long arch_32 u64 = 64
width long arch_32 int = if arch_32 then long else 64
width long arch_32 uint = if arch_32 then long else 64
width long arch_32 uintptr = if arch_32 then long else 64

unfoldable pub is_signed : IntType → Bool
is_signed i8 = true
is_signed i16 = true
is_signed i32 = true
is_signed i64 = true
is_signed u8 = false
is_signed u16 = false
is_signed u32 = false
is_signed u64 = false
is_signed int = true
is_signed uint = false
is_signed uintptr = false

-- `MAX_I64`, `MIN_I64` and `MAX_U64`: `negsuc n` is -n - 1.
abbrev pub max_i64 : ℤ
max_i64 = pos 9223372036854775807

abbrev pub min_i64 : ℤ
min_i64 = negsuc 9223372036854775807

abbrev pub max_u64 : ℤ
max_u64 = pos 18446744073709551615

-- `operator<<` of I8 and of U8: a number, not a character; `show` writes an `int`.
unfoldable pub print_small : (ℤ → Str) → ℤ → Str
print_small show x = show x
