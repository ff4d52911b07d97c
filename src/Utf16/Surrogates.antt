-- ===== src/Utf16/Surrogates.antt =====
-- The surrogate pairs of UTF-16, and what `utf16_decode_rune` and `utf16_encode_rune` of
-- api/utf16.hpp make of them.
use julelang.Prelude.{ℕ, ◌+◌, ◌-◌, ◌*◌, ◌/◌, ◌%◌, ◌^◌, ◌≤◌, ◌<◌, ◌≡◌, ◌↔◌, ap, ◌∙◌, arith, bit_or}
use julelang.Prelude.Bits.{bit_or_digit, bit_or-eq-add, bit_and-eq-mod, bit_or_blocks}
use julelang.Prelude.Int.{pos}
use julelang.Utf16.{utf16_decode_rune, utf16_encode_rune}

-- A rune above the first plane, and its high and low surrogate (RFC 2781).
pub record Pair (r hi lo : ℕ) : Type 0 where
  pub high : (0xd800 ≤ hi) × (hi < 0xdc00)
  pub low : (0xdc00 ≤ lo) × (lo < 0xe000)
  pub value : r ≡ 0x10000 + (hi - 0xd800) * 1024 + (lo - 0xdc00)

or_one : (q : ℕ) → bit_or q 1 ≡ q + 1 - q % 2
or_one q = ground (arith, bit_or_digit q 1, bit_or-eq-add 0 (q / 2) 0 (omega arith))

decode_rune_value :
    (q m l : ℕ)
    → m < 64
    → l < 1024
    → bit_or ((q * 64 + m) * 2 ^ 10) (l + 0x10000) ≡ (q + 1 - q % 2) * 65536 + m * 1024 + l
decode_rune_value q m l hm hl =
    let left : (q * 64 + m) * 2 ^ 10 ≡ q * 2 ^ 16 + m * 2 ^ 10 = omega arith in
    let right : l + 0x10000 ≡ 1 * 2 ^ 16 + l = omega arith in
    rw
      (
        left,
        right,
        bit_or_blocks 16 q (m * 2 ^ 10) 1 l (omega arith) (omega arith),
        or_one q,
        bit_or-eq-add 10 m l hl,
      )
      (omega arith)

-- `utf16_decode_rune` joins a pair to its rune exactly if the plane of the rune is odd: its `|`
-- stands where a sum is meant, and loses the plane's lowest bit.
pub decode_rune-Pair :
    (r hi lo : ℕ) → Pair r hi lo → (utf16_decode_rune hi lo ≡ r) ↔ (r / 65536 % 2 ≡ 1)
unfolding utf16_decode_rune
decode_rune-Pair r hi lo p =
    let h = hi - 0xd800 in
    let l = lo - 0xdc00 in
    let split : h ≡ h / 64 * 64 + h % 64 = omega arith in
    let value : bit_or (h * 2 ^ 10) (l + 0x10000)
        ≡ (h / 64 + 1 - h / 64 % 2) * 65536 + h % 64 * 1024 + l =
      ap (λ (x : ℕ). bit_or (x * 2 ^ 10) (l + 0x10000)) split
      ∙ decode_rune_value (h / 64) (h % 64) l (omega arith) (omega arith) in
    let run : utf16_decode_rune hi lo ≡ bit_or (h * 2 ^ 10) (l + 0x10000) = ground arith in
    ((λ e. omega (arith, run, value, e)), λ odd. omega (arith, run, value))

-- `utf16_encode_rune` gives the offsets of the two surrogates and not the surrogates: both of its
-- units are below 1024.
pub encode_rune-Pair :
    (r hi lo : ℕ) → Pair r hi lo → utf16_encode_rune (pos r) ≡ (hi - 0xd800, lo - 0xdc00)
unfolding utf16_encode_rune
encode_rune-Pair r hi lo p = ground (
  arith,
  bit_and-eq-mod 10 (0xd800 + (r - 0x10000) / 1024),
  bit_and-eq-mod 10 (0xdc00 + (r - 0x10000)),
)
