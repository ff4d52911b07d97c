-- ===== src/Utf16/RoundTrip.antt =====
-- What survives the way into UTF-16 and back through api/utf16.hpp.
use julelang.Prelude.{ℕ, ◌-◌, ◌≤◌, ◌<◌, ◌≡◌, ◌⊎◌, refl, ap, List, [], ◌∷◌, inl, arith, map}
use julelang.Prelude.Int.{ℤ, pos}
use julelang.Panic.{ok, ◌>>=◌}
use julelang.Utf16.{utf16_encode, utf16_decode, is_plain, is_single, is_double}
use julelang.Utf16.Decode.{decoded, utf16_decode-decoded}
use julelang.Utf16.Encode.{units, all_units, utf16_encode-units}
use julelang.Utf16.Surrogates.{Pair, encode_rune-Pair}

-- A rune of the first plane that is no surrogate.
abbrev pub IsPlain : ℕ → Type 0
IsPlain r = (r < 0xd800) ⊎ ((0xe000 ≤ r) × (r < 0x10000))

abbrev pub AllPlain : List ℕ → Type 0
AllPlain [] = Unit {0}
AllPlain (r ∷ rs) = IsPlain r × AllPlain rs

units_plain : (r : ℕ) → IsPlain r → units (pos r) ≡ r ∷ []
unfolding units is_single
units_plain r p = ground arith

decoded_cons : (r : ℕ) (s : List ℕ) → IsPlain r → decoded (r ∷ s) ≡ pos r ∷ decoded s
unfolding decoded is_plain
decoded_cons r [] p = ground arith
decoded_cons r (next ∷ s) p = ground arith

decoded-units : (rs : List ℕ) → AllPlain rs → decoded (all_units (map pos rs)) ≡ map pos rs
unfolding all_units decoded
decoded-units [] a = refl
decoded-units (r ∷ rs) (p, a) =
    rw (units_plain r p, decoded_cons r (all_units (map pos rs)) p, decoded-units rs a)

-- Runes of the first plane, no surrogates among them, survive the way into UTF-16 and back.
pub decode-encode_plain :
    (fill : ℤ) (fill' : ℕ) (rs : List ℕ)
    → AllPlain rs
    → (utf16_encode fill' (map pos rs) >>= utf16_decode fill) ≡ ok (map pos rs)
decode-encode_plain fill fill' rs a =
    rw (utf16_encode-units fill' (map pos rs), utf16_decode-decoded fill (all_units (map pos rs)))
      (ap ok (decoded-units rs a))

units-Pair : (r hi lo : ℕ) → Pair r hi lo → units (pos r) ≡ (hi - 0xd800) ∷ (lo - 0xdc00) ∷ []
unfolding units is_single is_double
units-Pair r hi lo p = ground (arith, encode_rune-Pair r hi lo p)

-- No rune above the first plane survives the way into UTF-16 and back: it comes back as two runes
-- below 1024, the offsets of its surrogates.
pub decode-encode_Pair :
    (fill : ℤ) (fill' r hi lo : ℕ)
    → Pair r hi lo
    → (utf16_encode fill' (pos r ∷ []) >>= utf16_decode fill)
      ≡ ok (pos (hi - 0xd800) ∷ pos (lo - 0xdc00) ∷ [])
unfolding all_units decoded
decode-encode_Pair fill fill' r hi lo p = rw (
  utf16_encode-units fill' (pos r ∷ []),
  units-Pair r hi lo p,
  utf16_decode-decoded fill ((hi - 0xd800) ∷ (lo - 0xdc00) ∷ []),
  decoded_cons (hi - 0xd800) ((lo - 0xdc00) ∷ []) (inl (omega arith)),
  decoded_cons (lo - 0xdc00) [] (inl (omega arith)),
)
