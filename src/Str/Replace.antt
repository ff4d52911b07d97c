-- ===== src/Str/Replace.antt =====
-- `replace` of api/str.hpp: the text split at the occurrences, with the new text between the parts.
use julelang.Prelude.{
  dec_lt, ◌⊎◌, ℕ, zero, suc, ◌+◌, ◌≤◌, ◌<◌, ◌≡◌, refl, ap, ◌∙◌, none, some, List, [], ◌∷◌, ◌++◌,
  inl, inr, arith, length, take-append_left, drop-append_left, length-append, length-drop,
  length-take, take, drop, Option-cases, append_assoc, le→leb, leb-false, dec_le,
}
use julelang.Prelude.Int.{pos, negsuc}
use julelang.Str.{Str, find_bytes, find_from, splice, replace_all, replace_upto, replace}
use julelang.Str.Search.{find-OccursAt}
use julelang.Str.Split.{unsplit, Free, before_first}

find_from-none :
    (done rest sub : Str)
    → find_bytes rest sub ≡ none
    → find_from (done ++ rest) sub (length done) ≡ none
unfolding find_from
find_from-none [] rest sub e = e
find_from-none (x ∷ done) rest sub e = rw (find_from-none done rest sub e)

find_from-some :
    (done rest sub : Str) (k : ℕ)
    → find_bytes rest sub ≡ some k
    → find_from (done ++ rest) sub (length done) ≡ some (length done + k)
unfolding find_from
find_from-some [] rest sub k e = e ∙ ap some (omega arith)
find_from-some (x ∷ done) rest sub k e =
    rw (find_from-some done rest sub k e) (ap some (omega arith))

-- One replacement behind the part that is done.
splice_lem :
    (done rest sub new : Str) (k : ℕ)
    → splice (done ++ rest) (length done + k) (length sub) new
      ≡ (done ++ (take k rest ++ new)) ++ drop (k + length sub) rest
unfolding splice
splice_lem done rest sub new k =
    let e : length done + k + length sub ≡ length done + (k + length sub) = omega arith in
    rw (
      e,
      take-append_left done rest k,
      drop-append_left done rest (k + length sub),
      append_assoc done (take k rest) (new ++ drop (k + length sub) rest),
      append_assoc done (take k rest ++ new) (drop (k + length sub) rest),
      append_assoc (take k rest) new (drop (k + length sub) rest),
    )

done_length :
    (done rest new : Str) (k : ℕ)
    → k ≤ length rest
    → length done + k + length new ≡ length (done ++ (take k rest ++ new))
done_length done rest new k h = omega (
  arith,
  length-append done (take k rest ++ new),
  length-append (take k rest) new,
  length-take k rest,
)

regroup :
    (done front new last : Str)
    → (done ++ (front ++ new)) ++ last ≡ done ++ (front ++ (new ++ last))
regroup done front new last =
    append_assoc done (front ++ new) last
    ∙ ap (λ (t : Str). done ++ t) (append_assoc front new last)

replace_all_lem :
    (fuel : ℕ) (sub new done rest : Str)
    → 0 < length sub
    → length rest < fuel
    → (ps : List Str) × (last : Str) × (replace_all fuel sub new (done ++ rest) (length done)
        ≡ some (done ++ unsplit new ps last))
      × (rest ≡ unsplit sub ps last)
      × (find_bytes last sub ≡ none)
      × Free sub ps
unfolding replace_all unsplit
replace_all_lem zero sub new done rest some_sub h = absurd (omega arith)
replace_all_lem (suc fuel) sub new done rest some_sub h =
    elim (Option-cases (find_bytes rest sub)) [
      | inl lost ↦ ([], rest, rw (find_from-none done rest sub lost, replace_all), refl, lost, tt)
      | inr (k, found) ↦
          let (fits, e) = find-OccursAt rest sub k found in
          let (ps, last, run, whole, clean, free) =
            replace_all_lem fuel sub new (done ++ (take k rest ++ new)) (drop (k + length sub) rest)
              some_sub (omega (arith, length-drop (k + length sub) rest)) in
          (
            take k rest ∷ ps,
            last,
            rw
                (
                  find_from-some done rest sub k found,
                  replace_all,
                  splice_lem done rest sub new k,
                  done_length done rest new k (omega arith),
                )
                (run ∙ ap some (regroup done (take k rest) new (unsplit new ps last))),
            e ∙ ap (λ (t : Str). take k rest ++ (sub ++ t)) whole,
            clean,
            (before_first rest sub k some_sub found, free),
          )
    ]

replace_upto_lem :
    (fuel : ℕ) (sub new done rest : Str) (n count : ℕ)
    → 0 < length sub
    → length rest < fuel
    → count < n
    → (ps : List Str) × (last : Str) × (replace_upto fuel sub new
          (done ++ rest)
          (length done)
          n
          count
        ≡ some (done ++ unsplit new ps last))
      × (rest ≡ unsplit sub ps last)
      × (count + length ps ≤ n)
      × (count + length ps < n → find_bytes last sub ≡ none)
      × Free sub ps
unfolding replace_upto unsplit
replace_upto_lem zero sub new done rest n count some_sub h below = absurd (omega arith)
replace_upto_lem (suc fuel) sub new done rest n count some_sub h below =
    elim (Option-cases (find_bytes rest sub)) [
      | inl lost ↦ (
        [],
        rest,
        rw (find_from-none done rest sub lost, replace_upto),
        refl,
        omega arith,
        (λ _. lost),
        tt,
      )
      | inr (k, found) ↦
          let (fits, e) = find-OccursAt rest sub k found in
          elim (dec_le n (suc count)) [
            | yes full ↦ (
              take k rest ∷ [],
              drop (k + length sub) rest,
              rw
                  (
                    find_from-some done rest sub k found,
                    le→leb n (suc count) full,
                    replace_upto,
                    splice_lem done rest sub new k,
                  )
                  (ap some (regroup done (take k rest) new (drop (k + length sub) rest))),
              e,
              omega arith,
              (λ room. absurd (omega arith)),
              (before_first rest sub k some_sub found, tt),
            )
            | no room ↦
                let (ps, last, run, whole, most, clean, free) =
                  replace_upto_lem fuel sub new (done ++ (take k rest ++ new))
                    (drop (k + length sub) rest) n (suc count) some_sub
                    (omega (arith, length-drop (k + length sub) rest)) (omega arith) in
                (
                  take k rest ∷ ps,
                  last,
                  rw
                      (
                        find_from-some done rest sub k found,
                        leb-false n (suc count) (omega arith),
                        replace_upto,
                        splice_lem done rest sub new k,
                        done_length done rest new k (omega arith),
                      )
                      (run ∙ ap some (regroup done (take k rest) new (unsplit new ps last))),
                  e ∙ ap (λ (t : Str). take k rest ++ (sub ++ t)) whole,
                  omega arith,
                  (λ more. clean (omega arith)),
                  (before_first rest sub k some_sub found, free),
                )
          ]
    ]

-- With a negative `n` and a text `sub` that is not empty, `replace` ends, and puts `new` in place
-- of every occurrence of `sub`: the parts between the occurrences stay.
pub replace-unsplit :
    (fuel : ℕ) (s sub new : Str) (n : ℕ)
    → 0 < length sub
    → length s < fuel
    → (ps : List Str) × (last : Str) × (replace fuel s sub new (negsuc n)
        ≡ some (unsplit new ps last))
      × (s ≡ unsplit sub ps last)
      × (find_bytes last sub ≡ none)
      × Free sub ps
unfolding replace
replace-unsplit fuel s sub new n some_sub h = replace_all_lem fuel sub new [] s some_sub h

replace_limit_parts :
    (fuel : ℕ) (s sub new : Str) (n : ℕ)
    → 0 < length sub
    → length s < fuel
    → (ps : List Str) × (last : Str) × (replace fuel s sub new (pos (suc n))
        ≡ some (unsplit new ps last))
      × (s ≡ unsplit sub ps last)
      × (length ps ≤ suc n)
      × (length ps < suc n → find_bytes last sub ≡ none)
      × Free sub ps
unfolding replace
replace_limit_parts fuel s sub new n some_sub h =
    let (ps, last, run, whole, most, clean, free) =
      replace_upto_lem fuel sub new [] s (suc n) 0 some_sub h (omega arith) in
    (ps, last, run, whole, omega arith, (λ room. clean (omega arith)), free)

-- With a positive `n` and a text `sub` that is not empty, `replace` ends, and puts `new` in place of
-- the first occurrences of `sub`, `n` of them at most and fewer only where no more are left.
pub replace_limit-unsplit :
    (fuel : ℕ) (s sub new : Str) (n : ℕ)
    → 0 < length sub
    → length s < fuel
    → (ps : List Str) × (last : Str) × (replace fuel s sub new (pos (suc n))
        ≡ some (unsplit new ps last))
      × (s ≡ unsplit sub ps last)
      × ((length ps ≡ suc n) ⊎ ((length ps ≤ n) × (find_bytes last sub ≡ none)))
      × Free sub ps
replace_limit-unsplit fuel s sub new n some_sub enough =
    let (ps, last, run, parts, few, rest, free) =
      replace_limit_parts fuel s sub new n some_sub enough in
    (
      ps,
      last,
      run,
      parts,
      elim (dec_lt (length ps) (suc n)) [
        | yes less ↦ inr (omega arith, rest less)
        | no not_less ↦ inl (omega arith)
      ],
      free,
    )
