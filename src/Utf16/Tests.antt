-- ===== src/Utf16/Tests.antt =====
-- The theorems on api/utf16.hpp at concrete runes and units.
use julelang.Prelude.{ℕ, ◌-◌, ◌≡◌, refl, some, List, [], ◌∷◌, arith}
use julelang.Prelude.Int.{ℤ, pos, negsuc}
use julelang.Panic.{ok, ◌>>=◌}
use julelang.Utf8.WellFormed.{one, two}
use julelang.Str.{Str, to_runes}
use julelang.Str.Runes.{nil, cons, to_runes-IsUtf8}
use julelang.Utf16.{utf16_decode, utf16_encode}
use julelang.Utf16.Surrogates.{Pair}
use julelang.Utf16.RoundTrip.{decode-encode_Pair}

abbrev runes : List ℤ
runes = pos 65 ∷ pos 0x1F600 ∷ negsuc 0 ∷ []

abbrev units_of : List ℕ
units_of = 65 ∷ 0xd83d ∷ 0xde00 ∷ 0xd800 ∷ []

abbrev letters : List ℕ
letters = 65 ∷ 233 ∷ []

abbrev text : Str
text = 65 ∷ 0xC3 ∷ 0xA9 ∷ []

text-runes : to_runes text ≡ some (pos 65 ∷ pos 233 ∷ [])
text-runes = to_runes-IsUtf8 (
    cons (one (omega arith) refl) refl
      (cons (two (omega arith) (omega arith) (omega arith, omega arith) (omega arith)) refl nil))

smile : Pair 0x1F600 0xd83d 0xde00
smile = record {
  high = (omega arith, omega arith);
  low = (omega arith, omega arith);
  value = omega arith;
}

decode-encode_Pair_example :
    (utf16_encode 0 (pos 0x1F600 ∷ []) >>= utf16_decode (pos 0))
    ≡ ok (pos (0xd83d - 0xd800) ∷ pos (0xde00 - 0xdc00) ∷ [])
decode-encode_Pair_example = decode-encode_Pair (pos 0) 0 0x1F600 0xd83d 0xde00 smile
