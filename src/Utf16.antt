-- ===== src/Utf16.antt =====
-- api/utf16.hpp. A `jule::I32` is an integer ℤ, a `jule::U16` a number below 65536. `+` binds
-- tighter than `&` and `|` in C++, and the definitions below are bracketed as the code is parsed.
pub mod Surrogates
pub mod Decode
pub mod Encode
pub mod RoundTrip
mod Tests
use julelang.Prelude.{
  ℕ, zero, suc, ◌+◌, ◌-◌, ◌*◌, ◌/◌, ◌%◌, ◌^◌, Bool, true, false, ◌&&◌, ◌||◌, Option, none, some,
  List, [], ◌∷◌, ◌++◌, ltb, leb, ◌==◌, if◌then◌else◌, length, map, bit_and, bit_or,
}
use julelang.Prelude.Int.{ℤ, pos, negsuc, ltb_ℤ, leb_ℤ, pos_part}
use julelang.Panic.{Result, ok, panic, ◌>>=◌}
use julelang.Buffer.{alloc, write, cut}
use julelang.Str.{Str, from_runes, to_runes}

abbrev pub replacement : ℕ
replacement = 65533

abbrev pub surr1 : ℕ
surr1 = 0xd800

abbrev pub surr2 : ℕ
surr2 = 0xdc00

abbrev pub surr3 : ℕ
surr3 = 0xe000

abbrev pub surr_self : ℕ
surr_self = 0x10000

abbrev pub max_rune : ℕ
max_rune = 1114111

-- `utf16_decode_rune`, at numbers: its callers pass units.
pub utf16_decode_rune : ℕ → ℕ → ℕ
utf16_decode_rune r1 r2 =
    if leb surr1 r1 && (ltb r1 surr2 && (leb surr2 r2 && ltb r2 surr3))
    then bit_or ((r1 - surr1) * 2 ^ 10) (r2 - surr2 + surr_self)
    else replacement

-- The tests of `utf16_decode`: a unit that is no surrogate, and a pair of surrogates.
pub is_plain : ℕ → Bool
is_plain r = ltb r surr1 || leb surr3 r

pub is_pair : ℕ → ℕ → Bool
is_pair r next = leb surr1 r && (ltb r surr2 && (leb surr2 next && ltb next surr3))

-- The loop of `utf16_decode`: the units from index `i` on are the list.
pub decode_loop : List ℕ → List ℤ → ℕ → Result (List ℤ × ℕ)
decode_loop [] a n = ok (a, n)
decode_loop (r ∷ []) a n = do
  a' ← write a n (pos (if is_plain r then r else replacement))
  ok (a', n + 1)
decode_loop (r ∷ next ∷ s) a n = elim (is_plain r) [
  | true ↦ write a n (pos r) >>= λ a'. decode_loop (next ∷ s) a' (n + 1)
  | false ↦ elim (is_pair r next) [
    | true ↦ write a n (pos (utf16_decode_rune r next)) >>= λ a'. decode_loop s a' (n + 1)
    | false ↦ write a n (pos replacement) >>= λ a'. decode_loop (next ∷ s) a' (n + 1)
  ]
]

pub utf16_decode : ℤ → List ℕ → Result (List ℤ)
utf16_decode fill s = do (a, n) ← decode_loop s (alloc fill (length s)) 0; cut a n

-- `static_cast<jule::U16>(v)`.
abbrev pub u16 : ℕ → ℕ
u16 n = n % 2 ^ 16

-- `utf16_to_utf8_str`: `wstr` is a list of wide characters.
pub utf16_to_utf8_str : ℤ → List ℕ → Result Str
utf16_to_utf8_str fill wstr = do
  runes ← utf16_decode fill (map (λ w. u16 w) wstr)
  ok (from_runes runes)

-- `utf16_encode_rune`.
pub utf16_encode_rune : ℤ → ℕ × ℕ
utf16_encode_rune r =
    if ltb_ℤ r (pos surr_self) || ltb_ℤ (pos max_rune) r
    then (replacement, replacement)
    else let r' = pos_part r - surr_self in
      (bit_and (surr1 + r' / 2 ^ 10) 0x3ff, bit_and (surr2 + r') 0x3ff)

abbrev pub in_range : ℕ → ℤ → ℕ → Bool
in_range lo v hi = leb_ℤ (pos lo) v && ltb_ℤ v (pos hi)

-- The first loop of `utf16_encode`: how many units are allocated.
pub count_units : List ℤ → ℕ → ℕ
count_units [] n = n
count_units (v ∷ vs) n = count_units vs (if leb_ℤ (pos surr_self) v then n + 1 else n)

-- The tests of the second loop: a rune that is one unit, and a rune that needs two.
pub is_single : ℤ → Bool
is_single v = in_range 0 v surr1 || in_range surr3 v surr_self

pub is_double : ℤ → Bool
is_double v = leb_ℤ (pos surr_self) v && leb_ℤ v (pos max_rune)

-- The second loop.
pub encode_loop : List ℤ → List ℕ → ℕ → Result (List ℕ × ℕ)
encode_loop [] a n = ok (a, n)
encode_loop (v ∷ vs) a n = elim (is_single v) [
  | true ↦ write a n (u16 (pos_part v)) >>= λ a'. encode_loop vs a' (n + 1)
  | false ↦ elim (is_double v) [
    | true ↦ do
      let (r1, r2) = utf16_encode_rune v
      a' ← write a n (u16 r1)
      a'' ← write a' (n + 1) (u16 r2)
      encode_loop vs a'' (n + 2)
    | false ↦ write a n (u16 replacement) >>= λ a'. encode_loop vs a' (n + 1)
  ]
]

pub utf16_encode : ℕ → List ℤ → Result (List ℕ)
utf16_encode fill runes = do
  (a, n) ← encode_loop runes (alloc fill (count_units runes (length runes))) 0
  cut a n

-- `utf16_append_rune`: the units that `a` is given at its end, by one `push` or two.
pub utf16_append_rune : List ℕ → ℤ → List ℕ
utf16_append_rune a r =
    if leb_ℤ (pos 0) r && ((ltb_ℤ r (pos surr1) || leb_ℤ (pos surr3) r) && ltb_ℤ r (pos surr_self))
    then a ++ (u16 (pos_part r) ∷ [])
    else if leb_ℤ (pos surr_self) r && leb_ℤ r (pos max_rune)
    then (let (r1, r2) = utf16_encode_rune r in (a ++ (u16 r1 ∷ [])) ++ (u16 r2 ∷ []))
    else a ++ (u16 replacement ∷ [])

-- The loop of `utf16_from_str`.
pub append_loop : List ℤ → List ℕ → List ℕ
append_loop [] buff = buff
append_loop (r ∷ rs) buff =
    let rest = append_loop rs (utf16_append_rune buff r) in
    if leb_ℤ (pos 0) r && leb_ℤ r (pos 0) then buff else rest

pub utf16_from_str : Str → Option (List ℕ)
utf16_from_str s = elim (to_runes s) [
  | none ↦ none
  | some runes ↦ some (utf16_append_rune (append_loop runes []) (pos 0))
]
