-- ===== src/Utf8/Encode.antt =====
-- `utf8_rune_to_bytes` of api/utf8.hpp against the well-formed sequences.
use julelang.Prelude.{
  ℕ, ◌+◌, ◌/◌, ◌%◌, ◌≤◌, ◌<◌, ◌≡◌, ◌≢◌, ◌↔◌, refl, List, [], ◌∷◌, ◌++◌, arith, length,
  length-append, ap₂, ◌∙◌, sym, dec_lt, dec_le, le→leb, bit_or,
}
use julelang.Prelude.Bits.{bit_or-eq-add, bit_and-eq-mod}
use julelang.Prelude.Int.{ℤ, pos}
use julelang.Utf8.{
  utf8_rune_to_bytes, rune_to_bytes, continuation, u32, u8, max_rune, rune_error, surrogate_min,
  surrogate_max, decode_rest, first, accept_range, utf8_decode_rune_str, rejected,
}
use julelang.Utf8.Decode.{decode-WellFormed}
use julelang.Utf8.WellFormed.{IsScalar, WellFormed, WellFormed-IsScalar, one, two, three, four}

continuation_lem : (n : ℕ) → continuation n ≡ 128 + n % 64
unfolding continuation
continuation_lem n =
    ground (arith, bit_and-eq-mod 6 (n % 256), bit_or-eq-add 6 2 (n % 64) (omega arith))

lead2_lem : (n : ℕ) → n < 32 → u8 (bit_or 192 (u8 n)) ≡ 192 + n
lead2_lem n h = ground (arith, bit_or-eq-add 6 3 n (omega arith))

lead3_lem : (n : ℕ) → n < 16 → u8 (bit_or 224 (u8 n)) ≡ 224 + n
lead3_lem n h = ground (arith, bit_or-eq-add 4 14 n (omega arith))

lead4_lem : (n : ℕ) → n < 8 → u8 (bit_or 240 (u8 n)) ≡ 240 + n
lead4_lem n h = ground (arith, bit_or-eq-add 3 30 n (omega arith))

-- The bytes of a rune in each branch, as arithmetic.
bytes2 : (i : ℕ) → 127 < i → i < 2047 → rune_to_bytes i ≡ (192 + i / 64) ∷ (128 + i % 64) ∷ []
unfolding rune_to_bytes
bytes2 i lo hi = ground (arith, lead2_lem (i / 64) (omega arith), continuation_lem i)

bytes3 :
    (i : ℕ)
    → 2047 ≤ i
    → i ≤ 65535
    → IsScalar i
    → rune_to_bytes i ≡ (224 + i / 4096) ∷ (128 + i / 64 % 64) ∷ (128 + i % 64) ∷ []
unfolding rune_to_bytes
bytes3 i lo hi s =
    ground
      (arith, lead3_lem (i / 4096) (omega arith), continuation_lem (i / 64), continuation_lem i)

bytes4 :
    (i : ℕ)
    → 65535 < i
    → i ≤ 1114111
    → rune_to_bytes i
      ≡ (240 + i / 262144) ∷ (128 + i / 4096 % 64) ∷ (128 + i / 64 % 64) ∷ (128 + i % 64) ∷ []
unfolding rune_to_bytes
bytes4 i lo hi = ground (
  arith,
  lead4_lem (i / 262144) (omega arith),
  continuation_lem (i / 4096),
  continuation_lem (i / 64),
  continuation_lem i,
)

bytes_error : (i : ℕ) → 1114111 < i → rune_to_bytes i ≡ 240 ∷ 143 ∷ 191 ∷ 189 ∷ []
unfolding rune_to_bytes continuation
bytes_error i h = ground arith

pub bytes-WellFormed : (i : ℕ) → IsScalar i → i ≢ 2047 → WellFormed i (rune_to_bytes i)
unfolding rune_to_bytes
bytes-WellFormed i s ne = elim (dec_lt i 128) [
  | yes p ↦ rw (le→leb i 127 (omega arith)) (one (omega arith) (omega arith))
  | no p ↦ elim (dec_lt i 2047) [
    | yes q ↦
        rw (bytes2 i (omega arith) q) (two (omega arith) (omega arith) (omega arith) (omega arith))
    | no q ↦ elim (dec_le i 65535) [
      | yes t ↦
          rw (bytes3 i (omega arith) t s)
            (three (omega arith) (omega arith) (ground arith) (omega arith) (omega arith))
      | no t ↦ rw (bytes4 i (omega arith) (ground arith)) (
          four (omega arith) (omega arith) (ground arith) (omega arith) (omega arith) (omega arith))
    ]
  ]
]

-- The overlong forms that the encoder may write, read by the decoder.
overlong4 :
    (rest : List ℕ)
    → utf8_decode_rune_str
        (0xF0 ∷ 0x8F ∷ 0xBF ∷ 0xBD ∷ rest)
        (pos (length (0xF0 ∷ 0x8F ∷ 0xBF ∷ 0xBD ∷ rest)))
      ≡ rejected
unfolding utf8_decode_rune_str decode_rest first accept_range
overlong4 rest = ground arith

overlong3 :
    (rest : List ℕ)
    → utf8_decode_rune_str (rune_to_bytes 2047 ++ rest) (pos (length (rune_to_bytes 2047 ++ rest)))
      ≡ rejected
unfolding utf8_decode_rune_str decode_rest first accept_range rune_to_bytes continuation
overlong3 rest = ground arith

overlong-ne :
    (r : ℕ) (rest : List ℕ)
    → r ≡ 2047
    → utf8_decode_rune_str (rune_to_bytes r ++ rest) (pos (length (rune_to_bytes r ++ rest)))
      ≢ (pos r, length (rune_to_bytes r))
overlong-ne r rest e = rw e λ same.
    let clash : ◌≡◌ {A = ℤ × ℕ} (pos 2047, length (rune_to_bytes 2047)) rejected =
      sym same ∙ overlong3 rest in
    ground arith

-- For every scalar value the decoder reads back what the encoder wrote, whatever follows, if and
-- only if the value is not 2047.
pub decode-encode :
    (r : ℕ) (rest : List ℕ)
    → IsScalar r
    → (utf8_decode_rune_str
          (utf8_rune_to_bytes (pos r) ++ rest)
          (pos (length (utf8_rune_to_bytes (pos r) ++ rest)))
        ≡ (pos r, length (utf8_rune_to_bytes (pos r))))
      ↔ (r ≢ 2047)
unfolding utf8_rune_to_bytes
decode-encode r rest s = (
  (λ same e. overlong-ne r rest e same),
  λ ne.
      decode-WellFormed rest (length (rune_to_bytes r ++ rest)) (bytes-WellFormed r s ne)
        (omega (arith, length-append (rune_to_bytes r) rest)),
)

-- The encoder writes the one well-formed sequence of a scalar value, except for 2047.
pub encode-WellFormed :
    {r : ℕ} {bs : List ℕ} → WellFormed r bs → r ≢ 2047 → utf8_rune_to_bytes (pos r) ≡ bs
unfolding utf8_rune_to_bytes rune_to_bytes
encode-WellFormed {r} (one {a} h e) ne = ground arith
encode-WellFormed {r} (two {a} {b} lo hi t e) ne =
    bytes2 r (omega arith) (ground arith)
    ∙ ap₂ (λ (x y : ℕ). x ∷ y ∷ []) (omega arith) (omega arith)
encode-WellFormed {r} (three {a} {b} {c} lo hi s t e) ne =
    bytes3 r (ground arith) (omega arith) (WellFormed-IsScalar (three lo hi s t e))
    ∙ (let first_byte : 224 + r / 4096 ≡ a = omega arith in
        let second_byte : 128 + r / 64 % 64 ≡ b = omega arith in
        let third_byte : 128 + r % 64 ≡ c = omega arith in rw (first_byte, second_byte, third_byte))
encode-WellFormed {r} (four {a} {b} {c} {d} lo hi s t u e) ne =
    bytes4 r (ground arith) (ground arith)
    ∙ (let first_byte : 240 + r / 262144 ≡ a = omega arith in
        let second_byte : 128 + r / 4096 % 64 ≡ b = omega arith in
        let third_byte : 128 + r / 64 % 64 ≡ c = omega arith in
        let fourth_byte : 128 + r % 64 ≡ d = omega arith in
        rw (first_byte, second_byte, third_byte, fourth_byte))

-- A rune that is negative or above U+10FFFF is written as four bytes that the decoder rejects.
pub encode_invalid :
    (r : ℤ) (rest : List ℕ)
    → max_rune < u32 r
    → (utf8_rune_to_bytes r ≡ 0xF0 ∷ 0x8F ∷ 0xBF ∷ 0xBD ∷ [])
      × (utf8_decode_rune_str
            (utf8_rune_to_bytes r ++ rest)
            (pos (length (utf8_rune_to_bytes r ++ rest)))
          ≡ rejected)
unfolding utf8_rune_to_bytes
encode_invalid r rest h = rw (bytes_error (u32 r) h) (refl, overlong4 rest)

-- A surrogate is written as the error rune is.
pub encode_surrogate :
    (r : ℕ)
    → surrogate_min ≤ r
    → r ≤ surrogate_max
    → utf8_rune_to_bytes (pos r) ≡ utf8_rune_to_bytes (pos rune_error)
unfolding utf8_rune_to_bytes rune_to_bytes
encode_surrogate r lo hi = ground arith
