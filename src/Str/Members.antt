-- ===== src/Str/Members.antt =====
-- The constructors, shorter members and conversions of class `Str` of api/str.hpp, and `to_str`.
pub mod Laws
use julelang.Prelude.{
  ℕ, zero, suc, Bool, not, Option, none, some, List, [], ◌∷◌, ◌++◌, length, take, get_elem?, ◌==◌,
  if◌then◌else◌,
}
use julelang.Prelude.Int.{ℤ, pos, negsuc}
use julelang.Panic.{Result}
use julelang.Utf8.{utf8_rune_to_bytes}
use julelang.Str
use julelang.Str.{Str, bytes_eq, until_nul, ◌+str◌}

-- `Str(const jule::I32&)`.
unfoldable pub from_rune : ℤ → Str
from_rune rune = utf8_rune_to_bytes rune

-- `Str(const char*, len)`: the memory at `src` is a list; `none` where it is read behind its end.
pub from_memory : Str → ℕ → Option Str
from_memory src zero = some []
from_memory [] (suc len) = none
from_memory (b ∷ src) (suc len) = elim (from_memory src len) [ none ↦ none | some s ↦ some (b ∷ s) ]

-- `std::strlen`; `none` where the memory has no zero byte.
pub c_length : Str → Option ℕ
c_length [] = none
c_length (b ∷ src) =
    if b == 0 then some 0 else elim (c_length src) [ none ↦ none | some n ↦ some (suc n) ]

-- `Str(const char*)`.
pub from_c_str : Str → Option Str
from_c_str src = elim (c_length src) [ none ↦ none | some n ↦ from_memory src n ]

-- `operator const char*`: the memory that it points to, a zero byte behind the last byte.
unfoldable pub c_str : Str → Str
c_str s = s ++ (0 ∷ [])

-- `len`.
unfoldable pub len : Str → ℕ
len s = length s

-- `slice(start)`.
unfoldable pub slice_from : Str → ℤ → Result Str
slice_from s start = Str.slice s start (pos (len s))

-- `slice()`.
unfoldable pub slice_all : Str → Result Str
slice_all s = Str.slice s (pos 0) (pos (len s))

-- `empty`.
unfoldable pub empty : Str → Bool
empty s = length s == 0

-- `operator[]` of a const `Str`, which tests nothing: `basic_string` has a zero byte at its length, and
-- `none` behind it.
pub at_const : Str → ℤ → Option ℕ
at_const s (pos k) = get_elem? (c_str s) k
at_const s (negsuc k) = none

-- `operator+=`.
unfoldable pub append_assign : Str → Str → Str
append_assign this str = this ++ str

-- `operator==` and `operator!=`.
unfoldable pub str_eq : Str → Str → Bool
str_eq this str = bytes_eq this str

unfoldable pub str_ne : Str → Str → Bool
str_ne this str = not (str_eq this str)

-- `operator<<`: the bytes that the stream is given.
pub print_str : Str → Str → Str
print_str stream [] = stream
print_str stream (b ∷ src) = print_str (stream ++ (b ∷ [])) src

-- `to_str(const T&)`, where `show` is what `operator<<` of T writes.
unfoldable pub to_str : {T : Type 0} → (T → Str → Str) → T → Str
to_str show obj = show obj []

-- `to_str(const Str&)`.
unfoldable pub to_str_str : Str → Str
to_str_str s = s

-- `to_str(const char*)`.
unfoldable pub to_str_c : Str → Option Str
to_str_c s = from_c_str s
