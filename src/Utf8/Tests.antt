-- ===== src/Utf8/Tests.antt =====
-- The theorems on api/utf8.hpp at concrete texts.
use julelang.Prelude.{ℕ, ◌≡◌, ◌≢◌, ◌↔◌, inl, List, [], ◌∷◌, ◌++◌, arith, length}
use julelang.Prelude.Int.{pos}
use julelang.Utf8.{utf8_decode_rune_str, utf8_rune_to_bytes}
use julelang.Utf8.WellFormed.{WellFormed, two}
use julelang.Utf8.Sound.{Decoded, decode-Decoded}
use julelang.Utf8.Encode.{decode-encode}

-- "é", and a byte behind it.
abbrev accented : List ℕ
accented = 0xA9 ∷ 0x21 ∷ []

abbrev accent : ℕ
accent = 233

accented-WellFormed : WellFormed 233 (0xC3 ∷ 0xA9 ∷ [])
accented-WellFormed = two (omega arith) (omega arith) (omega arith, omega arith) (omega arith)

decode-Decoded_example :
    Decoded
      (0xC3 ∷ accented)
      (utf8_decode_rune_str (0xC3 ∷ accented) (pos (length (0xC3 ∷ accented))))
decode-Decoded_example = decode-Decoded 0xC3 accented (omega arith)

decode-encode_example :
    (utf8_decode_rune_str
        (utf8_rune_to_bytes (pos accent) ++ accented)
        (pos (length (utf8_rune_to_bytes (pos accent) ++ accented)))
      ≡ (pos accent, length (utf8_rune_to_bytes (pos accent))))
    ↔ (accent ≢ 2047)
decode-encode_example = decode-encode accent accented (inl (omega arith))
