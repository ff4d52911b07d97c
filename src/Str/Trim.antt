-- ===== src/Str/Trim.antt =====
-- `ltrim`, `rtrim` and `trim` of api/str.hpp: what is cut and what is kept.
use julelang.Prelude.{
  ℕ, zero, suc, ◌≤◌, ◌<◌, ◌≡◌, refl, ap, ◌∙◌, sym, true, false, [], ◌∷◌, ◌++◌, ◌⊎◌, inl, inr, arith,
  length, take, get_or, Bool-cases, append_assoc, append-nil,
}
use julelang.Str.{Str, exists, ltrim, rtrim_loop, rtrim, trim}

-- Every byte of a text is one of `bytes`.
abbrev pub AllIn : Str → Str → Type 0
AllIn bytes [] = Unit {0}
AllIn bytes (b ∷ s) = (exists b bytes ≡ true) × AllIn bytes s

-- The first byte, if there is one, is none of `bytes`.
abbrev pub HeadOut : Str → Str → Type 0
HeadOut bytes [] = Unit {0}
HeadOut bytes (b ∷ s) = exists b bytes ≡ false

-- The last byte, if there is one, is none of `bytes`.
abbrev pub LastOut : Str → Str → Type 0
LastOut bytes s =
    (s ≡ []) ⊎ ((front : Str) × (b : ℕ) × (s ≡ front ++ (b ∷ [])) × (exists b bytes ≡ false))

AllIn-append : (bytes s t : Str) → AllIn bytes s → AllIn bytes t → AllIn bytes (s ++ t)
AllIn-append bytes [] t a b = b
AllIn-append bytes (x ∷ s) t a b = (a.0, AllIn-append bytes s t a.1 b)

-- `ltrim` cuts a front of bytes to trim, and stops at the first other byte.
pub ltrim_lem :
    (s bytes : Str)
    → (cut : Str) × (s ≡ cut ++ ltrim s bytes) × AllIn bytes cut × HeadOut bytes (ltrim s bytes)
unfolding ltrim
ltrim_lem [] bytes = ([], refl, tt, tt)
ltrim_lem (b ∷ s) bytes = elim (Bool-cases (exists b bytes)) [
  | inl hit ↦
      let (cut, e, all, head) = ltrim_lem s bytes in
      rw (hit, ltrim) ((b ∷ cut), ap (λ (t : Str). b ∷ t) e, (hit, all), head)
  | inr miss ↦ rw (miss, ltrim) ([], refl, tt, miss)
]

take_last : (s : Str) (k : ℕ) → k < length s → take (suc k) s ≡ take k s ++ (get_or s k 0 ∷ [])
take_last [] k h = absurd (omega arith)
take_last (x ∷ s) zero h = refl
take_last (x ∷ s) (suc k) h = ap (λ (t : Str). x ∷ t) (take_last s k (omega arith))

rtrim_loop_lem :
    (s bytes : Str) (k : ℕ)
    → k ≤ length s
    → (cut : Str) × (take k s ≡ rtrim_loop s bytes k ++ cut)
      × AllIn bytes cut
      × LastOut bytes (rtrim_loop s bytes k)
unfolding rtrim_loop
rtrim_loop_lem s bytes zero h = ([], refl, tt, inl refl)
rtrim_loop_lem s bytes (suc k) h = elim (Bool-cases (exists (get_or s k 0) bytes)) [
  | inl hit ↦
      let (cut, e, all, last) = rtrim_loop_lem s bytes k (omega arith) in
      rw (hit, rtrim_loop)
        (
          cut ++ (get_or s k 0 ∷ []),
          take_last s k h
              ∙ ap (λ (t : Str). t ++ (get_or s k 0 ∷ [])) e
              ∙ append_assoc (rtrim_loop s bytes k) cut (get_or s k 0 ∷ []),
          AllIn-append bytes cut (get_or s k 0 ∷ []) all (hit, tt),
          last,
        )
  | inr miss ↦
      rw (miss, rtrim_loop)
        (
          [],
          sym (append-nil (take (suc k) s)),
          tt,
          inr (take k s, get_or s k 0, take_last s k h, miss),
        )
]

take_all : (s : Str) → take (length s) s ≡ s
take_all [] = refl
take_all (x ∷ s) = ap (λ (t : Str). x ∷ t) (take_all s)

-- `rtrim` cuts an end of bytes to trim, and stops at the last other byte.
pub rtrim_lem :
    (s bytes : Str)
    → (cut : Str) × (s ≡ rtrim s bytes ++ cut) × AllIn bytes cut × LastOut bytes (rtrim s bytes)
unfolding rtrim
rtrim_lem s bytes =
    let (cut, e, all, last) = rtrim_loop_lem s bytes (length s) (omega arith) in
    (cut, sym (take_all s) ∙ e, all, last)

HeadOut-front : (bytes s t : Str) → HeadOut bytes (s ++ t) → HeadOut bytes s
HeadOut-front bytes [] t h = tt
HeadOut-front bytes (x ∷ s) t h = h

-- `trim` cuts both ends, and keeps a text that neither begins nor ends with a byte to trim.
pub trim_lem :
    (s bytes : Str)
    → (front : Str) × (end : Str) × (s ≡ front ++ (trim s bytes ++ end))
      × AllIn bytes front
      × AllIn bytes end
      × HeadOut bytes (trim s bytes)
      × LastOut bytes (trim s bytes)
unfolding trim
trim_lem s bytes =
    let (front, e, all, head) = ltrim_lem s bytes in
    let (end, e', all', last) = rtrim_lem (ltrim s bytes) bytes in
    (
      front,
      end,
      e ∙ ap (λ (t : Str). front ++ t) e',
      all,
      all',
      HeadOut-front bytes (rtrim (ltrim s bytes) bytes) end (rw (← e') head),
      last,
    )
