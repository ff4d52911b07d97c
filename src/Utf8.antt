-- ===== src/Utf8.antt =====
-- api/utf8.hpp: the constants, the two tables, `utf8_decode_rune_str` and `utf8_rune_to_bytes`.
-- A `jule::I32` is an integer ℤ and a `jule::U32` its bit pattern, both 64 bits wide as `long` is on
-- the LP64 targets; a `jule::U8` is a number below 256. The bytes that a `const char *` points to
-- are a list, and `s[k]` is read only where `len` covers it.
pub mod WellFormed
pub mod Table
pub mod Fields
pub mod Lead
pub mod Decode
pub mod Sound
pub mod Encode
mod Tests
use julelang.Prelude.{
  ℕ, ◌+◌, ◌-◌, ◌*◌, ◌/◌, ◌%◌, ◌^◌, Bool, ◌||◌, ◌&&◌, List, [], ◌∷◌, ◌++◌, ltb, leb, ◌==◌,
  if◌then◌else◌, get_or, replicate, bit_and, bit_or,
}
use julelang.Prelude.Int.{ℤ, pos, negsuc, ltb_ℤ}

abbrev pub rune_error : ℕ
rune_error = 65533

abbrev pub maskx : ℕ
maskx = 63

abbrev pub mask2 : ℕ
mask2 = 31

abbrev pub mask3 : ℕ
mask3 = 15

abbrev pub mask4 : ℕ
mask4 = 7

abbrev pub locb : ℕ
locb = 128

abbrev pub hicb : ℕ
hicb = 191

abbrev pub class_xx : ℕ
class_xx = 241

abbrev pub class_as : ℕ
class_as = 240

abbrev pub max_rune : ℕ
max_rune = 1114111

abbrev pub surrogate_min : ℕ
surrogate_min = 55296

abbrev pub surrogate_max : ℕ
surrogate_max = 57343

-- `utf8_first`: the class of a lead byte, its low digit the length of the sequence and its high
-- digit an index into the accept ranges.
first_table : List ℕ
first_table =
    replicate 128 class_as
    ++ (replicate 66 class_xx
        ++ (replicate 30 2
            ++ (19
                ∷ (replicate 12 3 ++ (35 ∷ 3 ∷ 3 ∷ 52 ∷ 4 ∷ 4 ∷ 4 ∷ 68 ∷ replicate 11 class_xx)))))

unfoldable pub first : ℕ → ℕ
unfolding first_table
first s0 = get_or first_table s0 0

pub record AcceptRange : Type 0 where
  pub lo : ℕ
  pub hi : ℕ

abbrev pub accept_ranges : List AcceptRange
accept_ranges =
    record { lo = locb; hi = hicb }
    ∷ record { lo = 0xA0; hi = hicb }
    ∷ record { lo = locb; hi = 0x9F }
    ∷ record { lo = 0x90; hi = hicb }
    ∷ record { lo = locb; hi = 0x8F }
    ∷ replicate 11 (record { lo = 0; hi = 0 })

-- `utf8_accept_ranges[k]`, an array of 16.
unfoldable pub accept_range : ℕ → AcceptRange
accept_range k = get_or accept_ranges k (record { lo = 0; hi = 0 })

abbrev pub rejected : ℤ × ℕ
rejected = (pos rune_error, 1)

-- The decoder from its first read of `s[1]` on: `sz` and `accept` are what the lead byte asks for.
unfoldable pub decode_rest : ℕ → AcceptRange → List ℕ → ℤ × ℕ
decode_rest sz accept s =
    let s0 = get_or s 0 0 in
    let s1 = get_or s 1 0 in
    if ltb s1 accept.lo || ltb accept.hi s1
    then rejected
    else if leb sz 2
    then (pos (bit_or (bit_and s0 mask2 * 2 ^ 6) (bit_and s1 maskx)), 2)
    else let s2 = get_or s 2 0 in
      if ltb s2 locb || ltb hicb s2
      then rejected
      else if leb sz 3
      then (
        pos (
            bit_or (bit_or (bit_and s0 mask3 * 2 ^ 12) (bit_and s1 maskx * 2 ^ 6))
              (bit_and s2 maskx)),
        3,
      )
      else let s3 = get_or s 3 0 in
        if ltb s3 locb || ltb hicb s3 then rejected else (
          pos (
              bit_or
                (bit_or (bit_or (bit_and s0 mask4 * 2 ^ 18) (bit_and s1 maskx * 2 ^ 12))
                  (bit_and s2 maskx * 2 ^ 6))
                (bit_and s3 maskx)),
          4,
        )

-- `utf8_decode_rune_str`. The mask `x << 31 >> 31` is all ones exactly if the lowest bit of `x` is
-- set, and then it selects the error rune.
unfoldable pub utf8_decode_rune_str : List ℕ → ℤ → ℤ × ℕ
utf8_decode_rune_str s len =
    if ltb_ℤ len (pos 1)
    then (pos rune_error, 0)
    else let x = first (get_or s 0 0) in
      if leb class_as x
      then (pos (if x % 2 == 1 then rune_error else get_or s 0 0), 1)
      else if ltb_ℤ len (pos (x % 8))
      then rejected
      else decode_rest (x % 8) (accept_range (x / 16)) s

-- `static_cast<jule::U32>(r)`.
abbrev pub u32 : ℤ → ℕ
u32 (pos n) = n
u32 (negsuc n) = 2 ^ 64 - 1 - n

-- `static_cast<jule::U8>(n)`.
abbrev pub u8 : ℕ → ℕ
u8 n = n % 2 ^ 8

continuation : ℕ → ℕ
continuation n = u8 (bit_or 128 (bit_and (u8 n) maskx))

-- `utf8_rune_to_bytes`, over `i`. Where a branch reads `r` itself, `r` is not negative and is `i`.
pub rune_to_bytes : ℕ → List ℕ
rune_to_bytes i =
    if leb i 127
    then u8 i ∷ []
    else if ltb i 2047
    then u8 (bit_or 192 (u8 (i / 2 ^ 6))) ∷ continuation i ∷ []
    else let r' =
        if ltb max_rune i || (leb surrogate_min i && leb i surrogate_max) then rune_error else i in
      if leb i 65535
      then u8 (bit_or 224 (u8 (r' / 2 ^ 12))) ∷ continuation (r' / 2 ^ 6) ∷ continuation r' ∷ []
      else u8 (bit_or 240 (u8 (r' / 2 ^ 18)))
        ∷ continuation (r' / 2 ^ 12)
        ∷ continuation (r' / 2 ^ 6)
        ∷ continuation r'
        ∷ []

unfoldable pub utf8_rune_to_bytes : ℤ → List ℕ
unfolding rune_to_bytes continuation
utf8_rune_to_bytes r = rune_to_bytes (u32 r)
