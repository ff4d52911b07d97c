-- ===== src/Str/Runes.antt =====
-- The conversions between texts and runes of api/str.hpp, through api/utf8.hpp.
use julelang.Prelude.{
  ℕ, zero, suc, ◌≤◌, ◌<◌, ◌≡◌, ◌≢◌, refl, ap, sym, some, List, [], ◌∷◌, ◌++◌, arith, length,
  drop_front, length-append, length-drop, drop, map,
}
use julelang.Prelude.Int.{ℤ, pos}
use julelang.Utf8.{utf8_rune_to_bytes, utf8_decode_rune_str}
use julelang.Utf8.WellFormed.{IsByte, IsScalar, WellFormed, one, two, three, four}
use julelang.Utf8.Decode.{decode-WellFormed}
use julelang.Utf8.Encode.{bytes-WellFormed, encode-WellFormed}
use julelang.Utf8.Sound.{Decoded, accepted, refused, decode-Decoded}
use julelang.Str.{Str, from_runes, runes_loop, to_runes}

abbrev pub AllBytes : Str → Type 0
AllBytes [] = Unit {0}
AllBytes (b ∷ s) = IsByte b × AllBytes s

-- The runes that the encoder writes faithfully.
abbrev pub AllScalar : List ℕ → Type 0
AllScalar [] = Unit {0}
AllScalar (r ∷ rs) = IsScalar r × (r ≢ 2047) × AllScalar rs

-- A text that is well-formed UTF-8, with its scalar values.
pub data IsUtf8 : List ℕ → Str → Type 0 where
  nil : IsUtf8 [] []
  cons :
      {r : ℕ} {rs : List ℕ} {bs s t : Str}
      → WellFormed r bs
      → t ≡ bs ++ s
      → IsUtf8 rs s
      → IsUtf8 (r ∷ rs) t

-- One round of the loop.
runes_step :
    (fuel b : ℕ) (s : Str) (rune : ℤ) (n : ℕ) {rs : List ℤ}
    → utf8_decode_rune_str (b ∷ s) (pos (length (b ∷ s))) ≡ (rune, n)
    → runes_loop fuel (drop n (b ∷ s)) ≡ some rs
    → runes_loop (suc fuel) (b ∷ s) ≡ some (rune ∷ rs)
unfolding runes_loop
runes_step fuel b s rune n {rs} e run =
    rw (e, runes_loop, run) (ap (λ (r : ℤ). some (r ∷ rs)) (ap (λ (o : ℤ × ℕ). o.0) e))

runes_cons :
    (fuel b r : ℕ) (bs s : Str) {rs : List ℤ}
    → WellFormed r (b ∷ bs)
    → runes_loop fuel s ≡ some rs
    → runes_loop (suc fuel) ((b ∷ bs) ++ s) ≡ some (pos r ∷ rs)
runes_cons fuel b r bs s wf e =
    runes_step fuel b (bs ++ s) (pos r) (length (b ∷ bs))
      (decode-WellFormed s (length ((b ∷ bs) ++ s)) wf (omega (arith, length-append (b ∷ bs) s)))
      (rw (drop_front (b ∷ bs) s) e)

-- One well-formed sequence in front of a text is one rune in front of its runes.
runes_front :
    {r : ℕ} {bs : Str} (fuel : ℕ) (s : Str) {rs : List ℤ}
    → WellFormed r bs
    → runes_loop fuel s ≡ some rs
    → runes_loop (suc fuel) (bs ++ s) ≡ some (pos r ∷ rs)
runes_front {r} fuel s (one {a} h e) run = runes_cons fuel a r [] s (one h e) run
runes_front {r} fuel s (two {a} {b} l h t e) run = runes_cons fuel a r (b ∷ []) s (two l h t e) run
runes_front {r} fuel s (three {a} {b} {c} l h t u e) run =
    runes_cons fuel a r (b ∷ c ∷ []) s (three l h t u e) run
runes_front {r} fuel s (four {a} {b} {c} {d} l h t u v e) run =
    runes_cons fuel a r (b ∷ c ∷ d ∷ []) s (four l h t u v e) run

length-WellFormed : {r : ℕ} {bs : Str} → WellFormed r bs → 0 < length bs
length-WellFormed (one h e) = omega arith
length-WellFormed (two l h t e) = omega arith
length-WellFormed (three l h t u e) = omega arith
length-WellFormed (four l h t u v e) = omega arith

runes_loop-IsUtf8 :
    {rs : List ℕ} {s : Str} (fuel : ℕ)
    → IsUtf8 rs s
    → length s ≤ fuel
    → runes_loop fuel s ≡ some (map pos rs)
unfolding runes_loop
runes_loop-IsUtf8 zero nil h = refl
runes_loop-IsUtf8 (suc fuel) nil h = refl
runes_loop-IsUtf8 zero (cons {bs = bs} {s = s} wf e rest) h =
    absurd (omega (arith, ap length e, length-append bs s, length-WellFormed wf))
runes_loop-IsUtf8 (suc fuel) (cons {bs = bs} {s = s} wf e rest) h = rw e (
    runes_front fuel s wf (
      runes_loop-IsUtf8 fuel rest
        (omega (arith, ap length e, length-append bs s, length-WellFormed wf))))

-- A text that is well-formed UTF-8 is converted to its scalar values.
pub to_runes-IsUtf8 : {rs : List ℕ} {s : Str} → IsUtf8 rs s → to_runes s ≡ some (map pos rs)
unfolding to_runes
to_runes-IsUtf8 {s = s} u = runes_loop-IsUtf8 (length s) u (omega arith)

-- Runes written by the encoder are well-formed UTF-8.
from_runes-IsUtf8 : (rs : List ℕ) → AllScalar rs → IsUtf8 rs (from_runes (map pos rs))
unfolding from_runes utf8_rune_to_bytes
from_runes-IsUtf8 [] a = nil
from_runes-IsUtf8 (r ∷ rs) (s, ne, a) = cons (bytes-WellFormed r s ne) refl (from_runes-IsUtf8 rs a)

-- Scalar values other than 2047 survive the way into a text and back.
pub to_runes-from_runes :
    (rs : List ℕ) → AllScalar rs → to_runes (from_runes (map pos rs)) ≡ some (map pos rs)
to_runes-from_runes rs a = to_runes-IsUtf8 (from_runes-IsUtf8 rs a)

-- A well-formed text survives the way into runes and back, if the value 2047 is not among them.
pub from_runes-to_runes :
    {rs : List ℕ} {s : Str} → IsUtf8 rs s → AllScalar rs → from_runes (map pos rs) ≡ s
unfolding from_runes
from_runes-to_runes nil a = refl
from_runes-to_runes (cons {r} {rs} {bs} {s} wf e rest) (_, ne, a) =
    rw (encode-WellFormed wf ne, from_runes-to_runes rest a) (sym e)

-- The decoder moves on by one byte at least.
decode_progress :
    (b : ℕ) (s : Str) → IsByte b → 0 < (utf8_decode_rune_str (b ∷ s) (pos (length (b ∷ s)))).1
decode_progress b s h = advance (decode-Decoded b s h)
  where
    advance : {o : ℤ × ℕ} → Decoded (b ∷ s) o → 0 < o.1
    advance (accepted rest e wf) = length-WellFormed wf
    advance (refused none_fits) = omega arith

drop-AllBytes : (n : ℕ) (s : Str) → AllBytes s → AllBytes (drop n s)
drop-AllBytes zero s a = a
drop-AllBytes (suc n) [] a = tt
drop-AllBytes (suc n) (b ∷ s) a = drop-AllBytes n s a.1

runes_loop_total :
    (fuel : ℕ) (s : Str)
    → AllBytes s
    → length s ≤ fuel
    → (rs : List ℤ) × (runes_loop fuel s ≡ some rs) × (length rs ≤ length s)
unfolding runes_loop
runes_loop_total zero [] a h = ([], refl, omega arith)
runes_loop_total (suc fuel) [] a h = ([], refl, omega arith)
runes_loop_total zero (b ∷ s) a h = absurd (omega arith)
runes_loop_total (suc fuel) (b ∷ s) a h =
    let out = utf8_decode_rune_str (b ∷ s) (pos (length (b ∷ s))) in
    let (rs, run, few) =
      runes_loop_total fuel (drop out.1 (b ∷ s)) (drop-AllBytes out.1 (b ∷ s) a)
        (omega (arith, length-drop out.1 (b ∷ s), decode_progress b s a.0)) in
    (
      out.0 ∷ rs,
      runes_step fuel b s out.0 out.1 refl run,
      omega (arith, length-drop out.1 (b ∷ s), decode_progress b s a.0),
    )

-- The conversion ends on any bytes, with no more runes than bytes.
pub to_runes_total :
    (s : Str) → AllBytes s → (rs : List ℤ) × (to_runes s ≡ some rs) × (length rs ≤ length s)
unfolding to_runes
to_runes_total s a = runes_loop_total (length s) s a (omega arith)
