-- ===== src/Str/LastOccurrence.antt =====
-- `rfind` of api/str.hpp against occurrences of a text.
use julelang.Prelude.{
  ℕ, suc, ◌≤◌, ◌≡◌, ◌≢◌, refl, ◌∙◌, sym, true, none, some, [], ◌∷◌, ◌++◌, inl, inr, arith, length,
  Option-cases,
}
use julelang.Prelude.Int.{ℤ, pos, negsuc}
use julelang.Str.{Str, starts_with, rfind_bytes, rfind}
use julelang.Str.Search.{OccursAt, OccursAt-cons, starts_with-append, starts_with-OccursAt}

rfind-OccursAt : (s sub : Str) (k : ℕ) → rfind_bytes s sub ≡ some k → OccursAt s sub k
unfolding rfind_bytes
rfind-OccursAt [] sub k e = starts_with-OccursAt [] sub k e
rfind-OccursAt (x ∷ s) sub k e = elim (Option-cases (rfind_bytes s sub)) [
  | inl lost ↦ starts_with-OccursAt (x ∷ s) sub k (ground arith)
  | inr (j, found) ↦
      let same : k ≡ suc j = ground arith in
      rw same (OccursAt-cons x s sub j (rfind-OccursAt s sub j found))
]

-- Where the text goes on with `sub`, the search returns a position.
here_or_behind : (s sub : Str) → starts_with s sub ≡ true → (k : ℕ) × (rfind_bytes s sub ≡ some k)
unfolding rfind_bytes
here_or_behind [] sub hit = (0, ground (arith, hit))
here_or_behind (x ∷ s) sub hit = elim (Option-cases (rfind_bytes s sub)) [
  | inl lost ↦ (0, ground (arith, hit))
  | inr (j, found) ↦ (suc j, ground arith)
]

-- An occurrence is found, or one behind it.
rfind-append :
    (front sub t : Str)
    → (k : ℕ) × (rfind_bytes (front ++ (sub ++ t)) sub ≡ some k) × (length front ≤ k)
unfolding rfind_bytes
rfind-append [] sub t =
    let (k, found) = here_or_behind (sub ++ t) sub (starts_with-append sub t) in
    (k, found, omega arith)
rfind-append (x ∷ front) sub t =
    let (k, found, le) = rfind-append front sub t in (suc k, rw found refl, omega arith)

-- What `rfind` returns: the last position at which `sub` occurs, or -1 where it does not occur.
pub data FoundLast (s sub : Str) : ℤ → Type 0 where
  at :
      (k : ℕ)
      → OccursAt s sub k
      → ((front t : Str) → s ≡ front ++ (sub ++ t) → length front ≤ k)
      → FoundLast s sub (pos k)
  nowhere : ((front t : Str) → s ≢ front ++ (sub ++ t)) → FoundLast s sub (negsuc 0)

-- `rfind` returns the last occurrence, and -1 exactly where there is none.
pub rfind-FoundLast : (s sub : Str) → FoundLast s sub (rfind s sub)
unfolding rfind
rfind-FoundLast s sub = elim (Option-cases (rfind_bytes s sub)) [
  | inl lost ↦ rw lost (
      nowhere λ front t e.
        let (k, found, _) = rfind-append front sub t in
        let clash : none ≡ some k = sym lost ∙ (rw e found) in cc)
  | inr (k, found) ↦ rw found (
      at k (rfind-OccursAt s sub k found) λ front t e.
        let (j, found', le) = rfind-append front sub t in
        let same : some k ≡ some j = sym found ∙ (rw e found') in ground arith)
]
