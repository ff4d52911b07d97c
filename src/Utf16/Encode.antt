-- ===== src/Utf16/Encode.antt =====
-- `utf16_encode`, `utf16_append_rune` and `utf16_from_str` of api/utf16.hpp.
use julelang.Prelude.{
  ℕ, suc, ◌+◌, ◌≤◌, ◌≡◌, refl, ap, ◌∙◌, sym, ◌&&◌, some, List, [], ◌∷◌, ◌++◌, inl, inr, arith,
  if◌then◌else◌, length, length-append, append_assoc, append-nil, Bool-cases,
}
use julelang.Prelude.Int.{ℤ, pos, leb_ℤ, pos_part}
use julelang.Panic.{ok, ◌>>=◌}
use julelang.Buffer.{write, Fills, fill_none, fill_one, fill_all}
use julelang.Str.{Str, to_runes}
use julelang.Utf16.{
  utf16_encode_rune, utf16_encode, utf16_append_rune, utf16_from_str, encode_loop, count_units,
  append_loop, u16, is_single, is_double, replacement, surr_self,
}

-- The units of one rune.
unfoldable pub units : ℤ → List ℕ
units v =
    if is_single v
    then u16 (pos_part v) ∷ []
    else if is_double v
    then u16 (utf16_encode_rune v).0 ∷ u16 (utf16_encode_rune v).1 ∷ []
    else u16 replacement ∷ []

unfoldable pub all_units : List ℤ → List ℕ
all_units [] = []
all_units (v ∷ vs) = units v ++ all_units vs

encode_loop_lem : (vs : List ℤ) → Fills (length (all_units vs)) (encode_loop vs) (all_units vs)
unfolding encode_loop all_units units
encode_loop_lem [] done room h = fill_none 0 done room h
encode_loop_lem (v ∷ vs) done room h =
    let need = length (all_units vs) in
    elim (Bool-cases (is_single v)) [
      | inl single ↦
          rw (single, encode_loop, units)
            (fill_one need (encode_loop vs) (all_units vs) (u16 (pos_part v)) (encode_loop_lem vs)
              done room (ground arith))
      | inr other ↦ elim (Bool-cases (is_double v)) [
        | inl double ↦
            let (r1, r2) = utf16_encode_rune v in
            let (left, run) =
              fill_one (suc need) (λ a n. write a n (u16 r2) >>= λ a'. encode_loop vs a' (n + 1))
                (u16 r2 ∷ all_units vs) (u16 r1)
                (fill_one need (encode_loop vs) (all_units vs) (u16 r2) (encode_loop_lem vs)) done
                room (ground arith) in
            let two_on : length done + 2 ≡ length done + 1 + 1 = omega arith in
            rw (other, encode_loop, double, units, two_on) (left, run)
        | inr bad ↦
            rw (other, encode_loop, bad, units)
              (fill_one need (encode_loop vs) (all_units vs) (u16 replacement) (encode_loop_lem vs)
                done room (ground arith))
      ]
    ]

length-units-le :
    (v : ℤ) (n : ℕ) → n + length (units v) ≤ (if leb_ℤ (pos surr_self) v then n + 1 else n) + 1
unfolding units is_single is_double
length-units-le v n = ground arith

count_units-suc : (vs : List ℤ) (n : ℕ) → count_units vs (n + 1) ≡ count_units vs n + 1
unfolding count_units
count_units-suc [] n = refl
count_units-suc (v ∷ vs) n = ground (arith, count_units-suc vs n, count_units-suc vs (n + 1))

count_units_lem : (vs : List ℤ) (n : ℕ) → length (all_units vs) + n ≤ count_units vs (n + length vs)
unfolding count_units all_units
count_units_lem [] n = omega arith
count_units_lem (v ∷ vs) n =
    let shift : n + suc (length vs) ≡ n + length vs + 1 = omega arith in
    rw shift (
      ground (
        arith,
        length-append (units v) (all_units vs),
        length-units-le v 0,
        count_units_lem vs n,
        count_units-suc vs (n + length vs),
        count_units-suc vs (n + length vs + 1),
      ))

append_rune-units : (a : List ℕ) (r : ℤ) → utf16_append_rune a r ≡ a ++ units r
unfolding utf16_append_rune units is_single is_double
append_rune-units a r =
    ground
      (arith, append_assoc a (u16 (utf16_encode_rune r).0 ∷ []) (u16 (utf16_encode_rune r).1 ∷ []))

pub utf16_encode-units : (fill : ℕ) (vs : List ℤ) → utf16_encode fill vs ≡ ok (all_units vs)
unfolding utf16_encode
utf16_encode-units fill vs =
    let zero_more : length vs ≡ 0 + length vs = omega arith in
    fill_all (length (all_units vs)) (count_units vs (length vs)) fill (encode_loop vs)
      (all_units vs) (rw zero_more (omega (arith, count_units_lem vs 0))) (encode_loop_lem vs)

-- Appending the runes one by one gives the units that encoding them at once gives.
unfoldable pub append_all : List ℤ → List ℕ → List ℕ
append_all [] a = a
append_all (r ∷ rs) a = append_all rs (utf16_append_rune a r)

append_all-units : (rs : List ℤ) (a : List ℕ) → append_all rs a ≡ a ++ all_units rs
unfolding append_all all_units
append_all-units [] a = sym (append-nil a)
append_all-units (r ∷ rs) a =
    append_all-units rs (utf16_append_rune a r)
    ∙ ap (λ (t : List ℕ). t ++ all_units rs) (append_rune-units a r)
    ∙ append_assoc a (units r) (all_units rs)

-- `utf16_encode` and repeated `utf16_append_rune` agree on all runes, valid or not.
pub encode-eq-append : (fill : ℕ) (rs : List ℤ) → utf16_encode fill rs ≡ ok (append_all rs [])
encode-eq-append fill rs = utf16_encode-units fill rs ∙ ap ok (sym (append_all-units rs []))

-- The runes in front of the first zero.
unfoldable pub before_zero : List ℤ → List ℤ
before_zero [] = []
before_zero (r ∷ rs) = if leb_ℤ (pos 0) r && leb_ℤ r (pos 0) then [] else r ∷ before_zero rs

append_loop-units :
    (rs : List ℤ) (buff : List ℕ) → append_loop rs buff ≡ buff ++ all_units (before_zero rs)
unfolding append_loop all_units before_zero
append_loop-units [] buff = sym (append-nil buff)
append_loop-units (r ∷ rs) buff = elim (Bool-cases (leb_ℤ (pos 0) r && leb_ℤ r (pos 0))) [
  | inl stop ↦ rw (stop, append_loop, before_zero) (sym (append-nil buff))
  | inr more ↦
      rw (more, append_loop, before_zero)
        (append_loop-units rs (utf16_append_rune buff r)
          ∙ ap (λ (t : List ℕ). t ++ all_units (before_zero rs)) (append_rune-units buff r)
          ∙ append_assoc buff (units r) (all_units (before_zero rs)))
]

-- `utf16_from_str` gives the units of the runes up to the first zero, and one zero behind them.
pub utf16_from_str-units :
    (s : Str) (rs : List ℤ)
    → to_runes s ≡ some rs
    → utf16_from_str s ≡ some (all_units (before_zero rs) ++ (0 ∷ []))
unfolding utf16_from_str units is_single
utf16_from_str-units s rs e = rw (
  e,
  utf16_from_str,
  append_rune-units (append_loop rs []) (pos 0),
  append_loop-units rs [],
  units_zero,
)
  where
    units_zero : units (pos 0) ≡ 0 ∷ []
    units_zero = ground arith
