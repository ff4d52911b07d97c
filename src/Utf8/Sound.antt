-- ===== src/Utf8/Sound.antt =====
-- What `utf8_decode_rune_str` of api/utf8.hpp says of any bytes: the sequence at their front, or
-- that there is none.
use julelang.Prelude.{
  ℕ, ◌+◌, ◌/◌, ◌%◌, ◌≤◌, ◌<◌, ◌≡◌, refl, ◌⊎◌, inl, inr, List, [], ◌∷◌, ◌++◌, arith, length,
  length-append, ◌∙◌, sym, dec_lt, dec_le, ltb-false, leb-false, lt→ltb,
}
use julelang.Prelude.Int.{ℤ, pos}
use julelang.Utf8.{utf8_decode_rune_str, decode_rest, first, accept_range, AcceptRange, rejected}
use julelang.Utf8.Table.{classify, first-eq-classify}
use julelang.Utf8.Lead.{lead3, lead4}
use julelang.Utf8.Decode.{decode_long, decode-WellFormed}
use julelang.Utf8.WellFormed.{WellFormed, one, two, three, four}

-- The bytes `s` begin with a well-formed sequence.
abbrev Front : List ℕ → Type 0
Front s = (r : ℕ) × (bs : List ℕ) × (rest : List ℕ) × (s ≡ bs ++ rest) × WellFormed r bs

abbrev decode : List ℕ → ℤ × ℕ
decode s = utf8_decode_rune_str s (pos (length s))

decode_short :
    (a x : ℕ) (s : List ℕ)
    → first a ≡ x
    → x < 240
    → length (a ∷ s) < x % 8
    → decode (a ∷ s) ≡ rejected
unfolding utf8_decode_rune_str
decode_short a x s e long few =
    let present = ltb-false (length (a ∷ s) + 0) (1 + 0) (omega arith) in
    let multi = leb-false 240 x long in
    let missing = lt→ltb (length (a ∷ s) + 0) (x % 8 + 0) (omega arith) in
    rw (present, e, multi, missing)

module _ (accept : AcceptRange) (a b : ℕ) where
  bad_second :
      (sz : ℕ) (s : List ℕ)
      → (b < accept.lo) ⊎ (accept.hi < b)
      → decode_rest sz accept (a ∷ b ∷ s) ≡ rejected
  unfolding decode_rest
  bad_second sz s bad = ground arith

  bad_third :
      (sz c : ℕ) (s : List ℕ)
      → 2 < sz
      → (c < 128) ⊎ (191 < c)
      → decode_rest sz accept (a ∷ b ∷ c ∷ s) ≡ rejected
  unfolding decode_rest
  bad_third sz c s size bad = ground arith

  bad_fourth :
      (sz c d : ℕ) (s : List ℕ)
      → 3 < sz
      → (d < 128) ⊎ (191 < d)
      → decode_rest sz accept (a ∷ b ∷ c ∷ d ∷ s) ≡ rejected
  unfolding decode_rest
  bad_fourth sz c d s size bad = ground arith

-- A byte within bounds or not.
within_cases : (lo hi b : ℕ) → ((lo ≤ b) × (b ≤ hi)) ⊎ ((b < lo) ⊎ (hi < b))
within_cases lo hi b = ground (arith, dec_le lo b)

split2 : (a : ℕ) (s : List ℕ) → 194 ≤ a → a ≤ 223 → (decode (a ∷ s) ≡ rejected) ⊎ Front (a ∷ s)
unfolding classify accept_range
split2 a [] lo hi =
    inl (decode_short a 2 [] (ground (arith, first-eq-classify a)) (omega arith) (omega arith))
split2 a (b ∷ s) lo hi = elim (within_cases 128 191 b) [
  | inl t ↦ inr (_, a ∷ b ∷ [], s, refl, two lo hi t refl)
  | inr bad ↦ inl (
      decode_long a 2 (b ∷ s) (length (a ∷ b ∷ s)) (ground (arith, first-eq-classify a))
        (omega arith) (omega arith) (omega arith)
      ∙ bad_second (accept_range 0) a b 2 s bad)
]

split3 : (a : ℕ) (s : List ℕ) → 224 ≤ a → a ≤ 239 → (decode (a ∷ s) ≡ rejected) ⊎ Front (a ∷ s)
split3 a [] lo hi =
    let (x, class, multi, size, _, _) = lead3 a 0 lo hi in
    inl (decode_short a x [] class multi (omega arith))
split3 a (b ∷ []) lo hi =
    let (x, class, multi, size, _, _) = lead3 a 0 lo hi in
    inl (decode_short a x (b ∷ []) class multi (omega arith))
split3 a (b ∷ c ∷ s) lo hi =
    let (x, class, multi, size, _, second) = lead3 a b lo hi in
    let accept = accept_range (x / 16) in
    let long =
      decode_long a x (b ∷ c ∷ s) (length (a ∷ b ∷ c ∷ s)) class multi (omega arith)
        (omega arith) in
    elim (within_cases accept.lo accept.hi b) [
      | inl (p, q) ↦ elim (within_cases 128 191 c) [
        | inl t ↦ inr (_, a ∷ b ∷ c ∷ [], s, refl, three lo hi (second p q) t refl)
        | inr bad ↦ inl (long ∙ bad_third accept a b (x % 8) c s (omega arith) bad)
      ]
      | inr bad ↦ inl (long ∙ bad_second accept a b (x % 8) (c ∷ s) bad)
    ]

split4 : (a : ℕ) (s : List ℕ) → 240 ≤ a → a ≤ 244 → (decode (a ∷ s) ≡ rejected) ⊎ Front (a ∷ s)
split4 a [] lo hi =
    let (x, class, multi, size, _, _) = lead4 a 0 lo hi in
    inl (decode_short a x [] class multi (omega arith))
split4 a (b ∷ []) lo hi =
    let (x, class, multi, size, _, _) = lead4 a 0 lo hi in
    inl (decode_short a x (b ∷ []) class multi (omega arith))
split4 a (b ∷ c ∷ []) lo hi =
    let (x, class, multi, size, _, _) = lead4 a 0 lo hi in
    inl (decode_short a x (b ∷ c ∷ []) class multi (omega arith))
split4 a (b ∷ c ∷ d ∷ s) lo hi =
    let (x, class, multi, size, _, second) = lead4 a b lo hi in
    let accept = accept_range (x / 16) in
    let long =
      decode_long a x (b ∷ c ∷ d ∷ s) (length (a ∷ b ∷ c ∷ d ∷ s)) class multi (omega arith)
        (omega arith) in
    elim (within_cases accept.lo accept.hi b) [
      | inl (p, q) ↦ elim (within_cases 128 191 c) [
        | inl t ↦ elim (within_cases 128 191 d) [
          | inl u ↦ inr (_, a ∷ b ∷ c ∷ d ∷ [], s, refl, four lo hi (second p q) t u refl)
          | inr bad ↦ inl (long ∙ bad_fourth accept a b (x % 8) c d s (omega arith) bad)
        ]
        | inr bad ↦ inl (long ∙ bad_third accept a b (x % 8) c (d ∷ s) (omega arith) bad)
      ]
      | inr bad ↦ inl (long ∙ bad_second accept a b (x % 8) (c ∷ d ∷ s) bad)
    ]

bad_lead :
    (a : ℕ) (s : List ℕ) → a < 256 → ((128 ≤ a) × (a < 194)) ⊎ (244 < a) → decode (a ∷ s) ≡ rejected
unfolding utf8_decode_rune_str classify
bad_lead a s byte bad =
    let class : first a ≡ 241 = ground (arith, first-eq-classify a) in
    rw (ltb-false (length (a ∷ s) + 0) (1 + 0) (omega arith), class)

decode_split : (a : ℕ) (s : List ℕ) → a < 256 → (decode (a ∷ s) ≡ rejected) ⊎ Front (a ∷ s)
decode_split a s byte = elim (dec_lt a 128) [
  | yes ascii ↦ inr (a, a ∷ [], s, refl, one ascii refl)
  | no up ↦ elim (within_cases 194 244 a) [
    | inr bad ↦ inl (bad_lead a s byte (ground arith))
    | inl (lo, hi) ↦ elim (dec_lt a 224) [
      | yes p ↦ split2 a s lo (omega arith)
      | no p ↦ elim (dec_lt a 240) [
        | yes q ↦ split3 a s (omega arith) (omega arith)
        | no q ↦ split4 a s (omega arith) hi
      ]
    ]
  ]
]

-- A rejection is the error rune and one byte, which no sequence stands for.
rejected-not_front :
    {r : ℕ} {bs : List ℕ} → WellFormed r bs → ¬ (◌≡◌ {A = ℤ × ℕ} (pos r, length bs) rejected)
rejected-not_front (one h e) same = ground arith
rejected-not_front (two l h t e) same = ground arith
rejected-not_front (three l h s t e) same = ground arith
rejected-not_front (four l h s t u e) same = ground arith

-- What the decoder returns at `s`: the rune and the length of the well-formed sequence at its
-- front, or the error rune and one byte where `s` begins with no well-formed sequence.
pub data Decoded (s : List ℕ) : ℤ × ℕ → Type 0 where
  accepted :
      {r : ℕ} {bs : List ℕ} (rest : List ℕ)
      → s ≡ bs ++ rest
      → WellFormed r bs
      → Decoded s (pos r, length bs)
  refused : ((r : ℕ) (bs rest : List ℕ) → s ≡ bs ++ rest → ¬ WellFormed r bs) → Decoded s rejected

front_value :
    {r : ℕ} {bs : List ℕ} (s rest : List ℕ)
    → s ≡ bs ++ rest
    → WellFormed r bs
    → decode s ≡ (pos r, length bs)
front_value {bs = bs} s rest same wf =
    rw same (decode-WellFormed rest (length (bs ++ rest)) wf (omega (arith, length-append bs rest)))

-- On any bytes, at least one, the decoder returns the rune and the length of the well-formed
-- sequence at their front, and the error rune with length one exactly where there is none.
pub decode-Decoded :
    (a : ℕ) (s : List ℕ)
    → a < 256
    → Decoded (a ∷ s) (utf8_decode_rune_str (a ∷ s) (pos (length (a ∷ s))))
decode-Decoded a s byte = elim (decode_split a s byte) [
  | inl e ↦ rw e (
      refused
        λ r bs rest same wf. rejected-not_front wf (sym (front_value (a ∷ s) rest same wf) ∙ e))
  | inr (r, bs, rest, same, wf) ↦ rw (front_value (a ∷ s) rest same wf) (accepted rest same wf)
]
