-- ===== src/Utf16/Decode.antt =====
-- `utf16_decode` of api/utf16.hpp: it never panics, and its runes are those of a plain recursion.
use julelang.Prelude.{
  ℕ, suc, ◌≡◌, refl, true, false, List, [], ◌∷◌, inl, inr, arith, if◌then◌else◌, length, Bool-cases,
  map,
}
use julelang.Str.{from_runes}
use julelang.Prelude.Int.{ℤ, pos}
use julelang.Panic.{ok}
use julelang.Buffer.{Fills, fill_none, fill_one, fill_all}
use julelang.Utf16.{
  utf16_to_utf8_str, u16, utf16_decode_rune, is_plain, is_pair, decode_loop, utf16_decode,
  replacement,
}

-- The runes of a list of units: a plain unit is itself, a pair of surrogates is one rune, and a
-- surrogate without its partner is the replacement character.
unfoldable pub decoded : List ℕ → List ℤ
decoded [] = []
decoded (r ∷ []) = pos (if is_plain r then r else replacement) ∷ []
decoded (r ∷ next ∷ s) = elim (is_plain r) [
  | true ↦ pos r ∷ decoded (next ∷ s)
  | false ↦ elim (is_pair r next) [
    | true ↦ pos (utf16_decode_rune r next) ∷ decoded s
    | false ↦ pos replacement ∷ decoded (next ∷ s)
  ]
]

decode_loop_lem : (s : List ℕ) → Fills (length s) (decode_loop s) (decoded s)
unfolding decode_loop decoded
decode_loop_lem [] done room h = fill_none 0 done room h
decode_loop_lem (r ∷ []) done room h =
    fill_one 0 (λ a n. ok (a, n)) [] (pos (if is_plain r then r else replacement)) (fill_none 0)
      done room h
decode_loop_lem (r ∷ next ∷ s) done room h = elim (Bool-cases (is_plain r)) [
  | inl plain ↦
      rw (plain, decode_loop, decoded)
        (fill_one (suc (length s)) (decode_loop (next ∷ s)) (decoded (next ∷ s)) (pos r)
          (decode_loop_lem (next ∷ s)) done room h)
  | inr other ↦ elim (Bool-cases (is_pair r next)) [
    | inl pair ↦
        rw (other, decode_loop, decoded, pair)
          (fill_one (length s) (decode_loop s) (decoded s) (pos (utf16_decode_rune r next))
            (decode_loop_lem s) done room (omega arith))
    | inr single ↦
        rw (other, decode_loop, decoded, single)
          (fill_one (suc (length s)) (decode_loop (next ∷ s)) (decoded (next ∷ s)) (pos replacement)
            (decode_loop_lem (next ∷ s)) done room h)
  ]
]

pub utf16_decode-decoded : (fill : ℤ) (s : List ℕ) → utf16_decode fill s ≡ ok (decoded s)
unfolding utf16_decode
utf16_decode-decoded fill s =
    fill_all (length s) (length s) fill (decode_loop s) (decoded s) (omega arith)
      (decode_loop_lem s)

-- `utf16_to_utf8_str` never panics, and returns its text in UTF-8.
pub utf16_to_utf8_str-decoded :
    (fill : ℤ) (wstr : List ℕ)
    → utf16_to_utf8_str fill wstr ≡ ok (from_runes (decoded (map (λ w. u16 w) wstr)))
unfolding utf16_to_utf8_str
utf16_to_utf8_str-decoded fill wstr = rw (utf16_decode-decoded fill (map (λ w. u16 w) wstr)) refl
