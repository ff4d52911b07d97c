-- ===== src/Str/Split.antt =====
-- `split` of api/str.hpp: the parts, joined by the separator, are the text.
use julelang.Prelude.{
  ℕ, zero, suc, ◌+◌, ◌≤◌, ◌<◌, ◌≡◌, refl, ap, ◌∙◌, sym, none, some, List, [], ◌∷◌, ◌++◌, ◌⊎◌, inl,
  inr, arith, length, length-append, length-drop, length-take, take-append-drop, ◌≡⟨◌⟩◌, ◌∎, dec_le,
  dec_lt, take, drop, Option-cases, append_assoc, append-nil, ltb, le→leb, leb-false, lt→ltb,
}
use julelang.Prelude.Int.{pos, negsuc}
use julelang.Str.{
  Str, starts_with, find_bytes, push_rest, finish, split_all, split_upto, split, until_nul,
}
use julelang.Str.Search.{OccursAt, find-OccursAt, find-append}

-- The text whose parts `ps`, each followed by `sub`, stand before `last`.
unfoldable pub unsplit : Str → List Str → Str → Str
unsplit sub [] last = last
unsplit sub (p ∷ ps) last = p ++ (sub ++ unsplit sub ps last)

-- `sub` occurs in none of the parts.
abbrev pub Free : Str → List Str → Type 0
Free sub [] = Unit {0}
Free sub (p ∷ ps) = (find_bytes p sub ≡ none) × Free sub ps

-- An occurrence in a front of `s` is one in `s`.
front-OccursAt :
    (s sub : Str) (k j : ℕ)
    → OccursAt (take k s) sub j
    → s ≡ take j (take k s) ++ (sub ++ (drop (j + length sub) (take k s) ++ drop k s))
front-OccursAt s sub k j (fits, e) =
    let t = take k s in
    let r = drop (j + length sub) t in
    s
    ≡⟨ sym (take-append-drop k s) ⟩ t ++ drop k s
    ≡⟨ ap (λ (x : Str). x ++ drop k s) e ⟩ (take j t ++ (sub ++ r)) ++ drop k s
    ≡⟨ append_assoc (take j t) (sub ++ r) (drop k s) ⟩ take j t ++ ((sub ++ r) ++ drop k s)
    ≡⟨ ap (λ (x : Str). take j t ++ x) (append_assoc sub r (drop k s)) ⟩
      take j t ++ (sub ++ (r ++ drop k s)) ∎

-- What stands before the first occurrence holds none.
pub before_first :
    (s sub : Str) (k : ℕ)
    → 0 < length sub
    → find_bytes s sub ≡ some k
    → find_bytes (take k s) sub ≡ none
before_first s sub k some_sub e = elim (Option-cases (find_bytes (take k s) sub)) [
  | inl lost ↦ lost
  | inr (j, found) ↦
      let inner = find-OccursAt (take k s) sub j found in
      let rest = drop (j + length sub) (take k s) ++ drop k s in
      let (i, found', le) = find-append (take j (take k s)) sub rest in
      let whole = front-OccursAt s sub k j inner in
      let same : some k ≡ some i = sym e ∙ ap (λ (t : Str). find_bytes t sub) whole ∙ found' in
      let equal : k ≡ i = ground arith in
      absurd (omega (arith, inner.0, length-take j (take k s), length-take k s))
]

push_rest_lem : (parts : List Str) (s : Str) → push_rest parts s ≡ parts ++ push_rest [] s
unfolding push_rest
push_rest_lem parts [] = sym (append-nil parts)
push_rest_lem parts (b ∷ s) = refl

split_all_lem :
    (fuel : ℕ) (sub s : Str) (parts : List Str)
    → 0 < length sub
    → length s < fuel
    → (ps : List Str) × (last : Str) × (split_all fuel sub s parts
        ≡ some (parts ++ (ps ++ push_rest [] last)))
      × (s ≡ unsplit sub ps last)
      × (find_bytes last sub ≡ none)
      × Free sub ps
unfolding split_all unsplit
split_all_lem zero sub s parts some_sub h = absurd (omega arith)
split_all_lem (suc fuel) sub s parts some_sub h = elim (Option-cases (find_bytes s sub)) [
  | inl lost ↦ ([], s, rw (lost, split_all) (ap some (push_rest_lem parts s)), refl, lost, tt)
  | inr (k, found) ↦
      let (fits, e) = find-OccursAt s sub k found in
      let (ps, last, run, whole, clean, free) =
        split_all_lem fuel sub (drop (k + length sub) s) (parts ++ (take k s ∷ [])) some_sub
          (omega (arith, length-drop (k + length sub) s)) in
      (
        take k s ∷ ps,
        last,
        rw (found, split_all)
            (run ∙ ap some (append_assoc parts (take k s ∷ []) (ps ++ push_rest [] last))),
        e ∙ ap (λ (t : Str). take k s ++ (sub ++ t)) whole,
        clean,
        (before_first s sub k some_sub found, free),
      )
]

finish_lem :
    (parts : List Str) (s : Str) (n : ℕ)
    → length parts < n
    → finish parts s (ltb (length parts) n) ≡ parts ++ (s ∷ [])
unfolding finish
finish_lem [] s n h = refl
finish_lem (p ∷ ps) s n h = rw (lt→ltb (length (p ∷ ps)) n h)

split_upto_lem :
    (fuel : ℕ) (sub s : Str) (n count : ℕ) (parts : List Str)
    → 0 < length sub
    → length s < fuel
    → count ≡ length parts
    → count < n
    → (ps : List Str) × (last : Str) × (split_upto fuel sub s n count parts
        ≡ some (parts ++ (ps ++ (last ∷ []))))
      × (s ≡ unsplit sub ps last)
      × (count + length ps < n)
      × (count + length ps + 1 < n → find_bytes last sub ≡ none)
      × Free sub ps
unfolding split_upto unsplit
split_upto_lem zero sub s n count parts some_sub h c below = absurd (omega arith)
split_upto_lem (suc fuel) sub s n count parts some_sub h c below =
    elim (Option-cases (find_bytes s sub)) [
      | inl lost ↦ (
        [],
        s,
        rw (lost, c, split_upto) (ap some (finish_lem parts s n (omega arith))),
        refl,
        omega arith,
        (λ _. lost),
        tt,
      )
      | inr (k, found) ↦ elim (dec_le n (suc count)) [
        | yes full ↦ (
          [],
          s,
          rw (found, le→leb n (suc count) full, split_upto),
          refl,
          omega arith,
          (λ room. absurd (omega arith)),
          tt,
        )
        | no room ↦
            let (fits, e) = find-OccursAt s sub k found in
            let (ps, last, run, whole, most, clean, free) =
              split_upto_lem fuel sub (drop (k + length sub) s) n (suc count)
                (parts ++ (take k s ∷ [])) some_sub (omega (arith, length-drop (k + length sub) s))
                (omega (arith, length-append parts (take k s ∷ []))) (omega arith) in
            (
              take k s ∷ ps,
              last,
              rw (found, leb-false n (suc count) (omega arith), split_upto)
                  (run ∙ ap some (append_assoc parts (take k s ∷ []) (ps ++ (last ∷ [])))),
              e ∙ ap (λ (t : Str). take k s ++ (sub ++ t)) whole,
              omega arith,
              (λ more. clean (omega arith)),
              (before_first s sub k some_sub found, free),
            )
      ]
    ]

length-until_nul-le : (s : Str) → length (until_nul s) ≤ length s
unfolding until_nul
length-until_nul-le [] = omega arith
length-until_nul-le (b ∷ s) = ground (arith, length-until_nul-le s)

-- With a separator that is not empty and a negative `n`, `split` ends. Its parts and the
-- separators between them make up the text up to its first zero byte, the separator occurs in no
-- part, and a last part is left out exactly if it is empty.
pub split-unsplit :
    (fuel : ℕ) (s sub : Str) (n : ℕ)
    → 0 < length sub
    → length s < fuel
    → (ps : List Str) × (last : Str) × (split fuel s sub (negsuc n)
        ≡ some (ps ++ push_rest [] last))
      × (until_nul s ≡ unsplit sub ps last)
      × (find_bytes last sub ≡ none)
      × Free sub ps
unfolding split
split-unsplit fuel s sub n some_sub h =
    split_all_lem fuel sub (until_nul s) [] some_sub (omega (arith, length-until_nul-le s))

split_limit_parts :
    (fuel : ℕ) (s sub : Str) (n : ℕ)
    → 0 < length sub
    → length s < fuel
    → (ps : List Str) × (last : Str) × (split fuel s sub (pos (suc n)) ≡ some (ps ++ (last ∷ [])))
      × (until_nul s ≡ unsplit sub ps last)
      × (length ps < suc n)
      × (length ps + 1 < suc n → find_bytes last sub ≡ none)
      × Free sub ps
unfolding split
split_limit_parts fuel s sub n some_sub h =
    let (ps, last, run, whole, most, clean, free) =
      split_upto_lem fuel sub (until_nul s) (suc n) 0 [] some_sub
        (omega (arith, length-until_nul-le s)) refl (omega arith) in
    (ps, last, run, whole, omega arith, (λ room. clean (omega arith)), free)

split_all-empty : (fuel : ℕ) (s : Str) (parts : List Str) → split_all fuel [] s parts ≡ none
unfolding split_all find_bytes starts_with
split_all-empty zero s parts = refl
split_all-empty (suc fuel) [] parts = split_all-empty fuel [] (parts ++ ([] ∷ []))
split_all-empty (suc fuel) (b ∷ s) parts = split_all-empty fuel (b ∷ s) (parts ++ ([] ∷ []))

-- With an empty separator and a negative `n` no amount of fuel ends the loop, at any text.
pub split-empty_sub : (fuel : ℕ) (s : Str) (n : ℕ) → split fuel s [] (negsuc n) ≡ none
unfolding split
split-empty_sub fuel s n = split_all-empty fuel (until_nul s) []

-- With a positive limit `n` and a separator that is not empty, `split` ends with at most `n` parts,
-- the last one always kept: joined by the separator they are the text up to its first zero byte.
-- The separator occurs in no part but the last, and there only if the limit is met.
pub split_limit-unsplit :
    (fuel : ℕ) (s sub : Str) (n : ℕ)
    → 0 < length sub
    → length s < fuel
    → (ps : List Str) × (last : Str) × (split fuel s sub (pos (suc n)) ≡ some (ps ++ (last ∷ [])))
      × (until_nul s ≡ unsplit sub ps last)
      × ((length ps ≡ n) ⊎ ((length ps < n) × (find_bytes last sub ≡ none)))
      × Free sub ps
split_limit-unsplit fuel s sub n some_sub enough =
    let (ps, last, run, parts, few, rest, free) = split_limit_parts fuel s sub n some_sub enough in
    (
      ps,
      last,
      run,
      parts,
      elim (dec_lt (length ps) n) [
        | yes less ↦ inr (less, rest (omega arith))
        | no not_less ↦ inl (omega arith)
      ],
      free,
    )
