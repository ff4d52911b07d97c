-- ===== src/Utf8/Decode.antt =====
-- `utf8_decode_rune_str` of api/utf8.hpp accepts exactly the well-formed sequences.
use julelang.Prelude.{
  ℕ, ◌+◌, ◌*◌, ◌/◌, ◌%◌, ◌≤◌, ◌<◌, ◌≡◌, List, ◌∷◌, ◌++◌, arith, length, ltb, leb, false, ap, ◌∙◌,
}
use julelang.Prelude.Int.{pos}
use julelang.Utf8.{utf8_decode_rune_str, decode_rest, first, accept_range, AcceptRange}
use julelang.Utf8.Table.{classify, first-eq-classify}
use julelang.Utf8.Fields.{two_fields, three_fields, four_fields}
use julelang.Utf8.Lead.{lead3, lead4}
use julelang.Utf8.WellFormed.{IsTail, WellFormed, one, two, three, four}

-- Behind a lead byte that announces more bytes, enough of them present.
pub decode_long :
    (a x : ℕ) (s : List ℕ) (n : ℕ)
    → first a ≡ x
    → x < 240
    → x % 8 ≤ n
    → 1 ≤ n
    → utf8_decode_rune_str (a ∷ s) (pos n) ≡ decode_rest (x % 8) (accept_range (x / 16)) (a ∷ s)
unfolding utf8_decode_rune_str
decode_long a x s n e long fits some_len =
    let present : ltb (n + 0) (1 + 0) ≡ false = ground arith in
    let multi : leb 240 x ≡ false = ground arith in
    let enough : ltb (n + 0) (x % 8 + 0) ≡ false = ground arith in rw (present, e, multi, enough)

decode_four :
    (accept : AcceptRange) (a b c d : ℕ) (rest : List ℕ)
    → accept.lo ≤ b
    → b ≤ accept.hi
    → IsTail c
    → IsTail d
    → decode_rest 4 accept (a ∷ b ∷ c ∷ d ∷ rest)
      ≡ (pos (a % 8 * 262144 + b % 64 * 4096 + c % 64 * 64 + d % 64), 4)
unfolding decode_rest
decode_four accept a b c d rest lo hi t u = ground (arith, four_fields a b c d)

decode_three :
    (accept : AcceptRange) (a b c : ℕ) (rest : List ℕ)
    → accept.lo ≤ b
    → b ≤ accept.hi
    → IsTail c
    → decode_rest 3 accept (a ∷ b ∷ c ∷ rest) ≡ (pos (a % 16 * 4096 + b % 64 * 64 + c % 64), 3)
unfolding decode_rest
decode_three accept a b c rest lo hi t = ground (arith, three_fields a b c)

pub decode-WellFormed :
    {r : ℕ} {bs : List ℕ} (rest : List ℕ) (n : ℕ)
    → WellFormed r bs
    → length bs ≤ n
    → utf8_decode_rune_str (bs ++ rest) (pos n) ≡ (pos r, length bs)
unfolding utf8_decode_rune_str decode_rest classify accept_range
decode-WellFormed rest n (one {a} h e) l = ground (arith, first-eq-classify a)
decode-WellFormed rest n (two {a} {b} lo hi t e) l =
    ground (arith, first-eq-classify a, two_fields a b)
decode-WellFormed rest n (three {a} {b} {c} lo hi t u e) l =
    let (x, class, multi, size, bounds, _) = lead3 a b lo hi in
    decode_long a x (b ∷ c ∷ rest) n class multi (omega arith) (omega arith)
    ∙ rw size (
        decode_three (accept_range (x / 16)) a b c rest (bounds t).0 (bounds t).1 u
        ∙ ap (λ (k : ℕ). (pos k, 3)) (omega arith))
decode-WellFormed rest n (four {a} {b} {c} {d} lo hi t u v e) l =
    let (x, class, multi, size, bounds, _) = lead4 a b lo hi in
    decode_long a x (b ∷ c ∷ d ∷ rest) n class multi (omega arith) (omega arith)
    ∙ rw size (
        decode_four (accept_range (x / 16)) a b c d rest (bounds t).0 (bounds t).1 u v
        ∙ ap (λ (k : ℕ). (pos k, 4)) (omega arith))
