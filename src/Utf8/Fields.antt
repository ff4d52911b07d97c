-- ===== src/Utf8/Fields.antt =====
-- The runes that the decoder of api/utf8.hpp puts together by masks, shifts and `|`, as sums.
use julelang.Prelude.{ℕ, ◌+◌, ◌*◌, ◌%◌, ◌^◌, ◌≡◌, arith, bit_and, bit_or}
use julelang.Prelude.Bits.{bit_or-eq-add, bit_and-eq-mod}

-- The fields of a sequence, put together by shifts and `|`, are a sum.
pub two_fields : (a b : ℕ) → bit_or (bit_and a 31 * 2 ^ 6) (bit_and b 63) ≡ a % 32 * 64 + b % 64
two_fields a b =
    ground (
      arith,
      bit_and-eq-mod 5 a,
      bit_and-eq-mod 6 b,
      bit_or-eq-add 6 (a % 32) (b % 64) (omega arith),
    )

pub three_fields :
    (a b c : ℕ)
    → bit_or (bit_or (bit_and a 15 * 2 ^ 12) (bit_and b 63 * 2 ^ 6)) (bit_and c 63)
      ≡ a % 16 * 4096 + b % 64 * 64 + c % 64
three_fields a b c =
    rw
      (
        bit_and-eq-mod 4 a,
        bit_and-eq-mod 6 b,
        bit_and-eq-mod 6 c,
        bit_or-eq-add 12 (a % 16) (b % 64 * 2 ^ 6) (omega arith),
      )
      (ground (arith, bit_or-eq-add 6 (a % 16 * 64 + b % 64) (c % 64) (omega arith)))

pub four_fields :
    (a b c d : ℕ)
    → bit_or
        (bit_or (bit_or (bit_and a 7 * 2 ^ 18) (bit_and b 63 * 2 ^ 12)) (bit_and c 63 * 2 ^ 6))
        (bit_and d 63)
      ≡ a % 8 * 262144 + b % 64 * 4096 + c % 64 * 64 + d % 64
four_fields a b c d =
    rw
      (
        bit_and-eq-mod 3 a,
        bit_and-eq-mod 6 b,
        bit_and-eq-mod 6 c,
        bit_and-eq-mod 6 d,
        bit_or-eq-add 18 (a % 8) (b % 64 * 2 ^ 12) (omega arith),
      )
      (ground (
        arith,
        bit_or-eq-add 12 (a % 8 * 64 + b % 64) (c % 64 * 2 ^ 6) (omega arith),
        bit_or-eq-add 6 (a % 8 * 4096 + b % 64 * 64 + c % 64) (d % 64) (omega arith),
      ))
