-- ===== src/Str/Search.antt =====
-- `find`, `rfind`, `has_prefix` and `has_suffix` of api/str.hpp against occurrences of a text.
use julelang.Prelude.{
  ℕ, suc, ◌+◌, ◌-◌, ◌≤◌, ◌≡◌, ◌≢◌, ◌↔◌, refl, ap, ◌∙◌, sym, true, none, some, [], ◌∷◌, ◌++◌, inl,
  inr, arith, if◌then◌else◌, length, drop_front, length-append, take, drop, take-append-drop,
  Option-cases, Bool-cases, le→leb,
}
use julelang.Prelude.Int.{ℤ, pos, negsuc}
use julelang.Str.{Str, bytes_eq, starts_with, find_bytes, find_from, find, has_prefix, has_suffix}

-- `sub` stands in `s` behind its first k bytes.
abbrev pub OccursAt : Str → Str → ℕ → Type 0
OccursAt s sub k = (k + length sub ≤ length s) × (s ≡ take k s ++ (sub ++ drop (k + length sub) s))

pub OccursAt-cons : (x : ℕ) (s sub : Str) (k : ℕ) → OccursAt s sub k → OccursAt (x ∷ s) sub (suc k)
OccursAt-cons x s sub k h =
    let e : suc k + length sub ≡ suc (k + length sub) = omega arith in
    (omega arith, rw e (ap (λ (r : Str). x ∷ r) h.1))

pub starts_with-append : (sub t : Str) → starts_with (sub ++ t) sub ≡ true
unfolding starts_with
starts_with-append [] [] = refl
starts_with-append [] (x ∷ t) = refl
starts_with-append (x ∷ sub) t = ground (arith, starts_with-append sub t)

pub starts_with_sound : (s sub : Str) → starts_with s sub ≡ true → OccursAt s sub 0
unfolding starts_with
starts_with_sound [] [] e = (omega arith, refl)
starts_with_sound (x ∷ s) [] e = (omega arith, refl)
starts_with_sound [] (y ∷ sub) e = cc
starts_with_sound (x ∷ s) (y ∷ sub) e =
    let ih = starts_with_sound s sub in (ground (arith, ih), ground (arith, ih))

pub starts_with-OccursAt :
    (s sub : Str) (k : ℕ) → (if starts_with s sub then some 0 else none) ≡ some k → OccursAt s sub k
starts_with-OccursAt s sub k e = elim (Bool-cases (starts_with s sub)) [
  | inl hit ↦ ground (arith, starts_with_sound s sub hit)
  | inr miss ↦ ground arith
]

pub find-OccursAt : (s sub : Str) (k : ℕ) → find_bytes s sub ≡ some k → OccursAt s sub k
unfolding find_bytes
find-OccursAt [] sub k e = starts_with-OccursAt [] sub k e
find-OccursAt (x ∷ s) sub k e = elim (Bool-cases (starts_with (x ∷ s) sub)) [
  | inl hit ↦ starts_with-OccursAt (x ∷ s) sub k (ground arith)
  | inr miss ↦ elim (Option-cases (find_bytes s sub)) [
    | inl lost ↦ ground arith
    | inr (j, found) ↦
        let same : k ≡ suc j = ground arith in
        rw same (OccursAt-cons x s sub j (find-OccursAt s sub j found))
  ]
]

-- An occurrence is found, or one before it.
pub find-append :
    (front sub t : Str)
    → (k : ℕ) × (find_bytes (front ++ (sub ++ t)) sub ≡ some k) × (k ≤ length front)
unfolding find_bytes
find-append [] [] [] = (0, ground (arith, starts_with-append [] []), omega arith)
find-append [] [] (x ∷ t) = (0, ground (arith, starts_with-append [] (x ∷ t)), omega arith)
find-append [] (y ∷ sub) t = (0, ground (arith, starts_with-append (y ∷ sub) t), omega arith)
find-append (x ∷ front) sub t =
    let (k, found, le) = find-append front sub t in
    elim (Bool-cases (starts_with (x ∷ (front ++ (sub ++ t))) sub)) [
      | inl hit ↦ (0, rw hit, omega arith)
      | inr miss ↦ (suc k, rw (miss, found), omega arith)
    ]

-- What `find` returns: the first position at which `sub` occurs, or -1 where it does not occur.
pub data Found (s sub : Str) : ℤ → Type 0 where
  at :
      (k : ℕ)
      → OccursAt s sub k
      → ((front t : Str) → s ≡ front ++ (sub ++ t) → k ≤ length front)
      → Found s sub (pos k)
  nowhere : ((front t : Str) → s ≢ front ++ (sub ++ t)) → Found s sub (negsuc 0)

-- `find` returns the first occurrence, and -1 exactly where there is none.
pub find-Found : (s sub : Str) → Found s sub (find s sub)
unfolding find
find-Found s sub = elim (Option-cases (find_bytes s sub)) [
  | inl lost ↦ rw lost (
      nowhere λ front t e.
        let (k, found, _) = find-append front sub t in
        let clash : none ≡ some k = sym lost ∙ (rw e found) in cc)
  | inr (k, found) ↦ rw found (
      at k (find-OccursAt s sub k found) λ front t e.
        let (j, found', le) = find-append front sub t in
        let same : some k ≡ some j = sym found ∙ (rw e found') in ground arith)
]

-- `has_prefix` holds exactly of the texts that go on from `sub`.
pub has_prefix_lem : (s sub : Str) → (has_prefix s sub ≡ true) ↔ ((t : Str) × (s ≡ sub ++ t))
unfolding has_prefix find_from
has_prefix_lem s sub = (
  (λ e. elim (Option-cases (find_bytes s sub)) [
    | inl lost ↦ absurd (ground arith)
    | inr (k, found) ↦
        let zero_k : k ≡ 0 = ground arith in
        (drop (k + length sub) s, (find-OccursAt s sub k found).1 ∙ rw zero_k)
  ]),
  λ (t, e). let (k, found, le) = find-append [] sub t in rw e (ground (arith, found, le)),
)

pub bytes_eq_sound : (s t : Str) → bytes_eq s t ≡ true → s ≡ t
unfolding bytes_eq
bytes_eq_sound [] [] e = refl
bytes_eq_sound [] (y ∷ t) e = cc
bytes_eq_sound (x ∷ s) [] e = cc
bytes_eq_sound (x ∷ s) (y ∷ t) e = ground (arith, bytes_eq_sound s t)

pub bytes_eq_refl : (s : Str) → bytes_eq s s ≡ true
unfolding bytes_eq
bytes_eq_refl [] = refl
bytes_eq_refl (x ∷ s) = ground (arith, bytes_eq_refl s)

-- `has_suffix` holds exactly of the texts that end in `sub`.
pub has_suffix_lem : (s sub : Str) → (has_suffix s sub ≡ true) ↔ ((t : Str) × (s ≡ t ++ sub))
unfolding has_suffix
has_suffix_lem s sub = (
  (λ e.
      let tail : drop (length s - length sub) s ≡ sub =
        bytes_eq_sound (drop (length s - length sub) s) sub (ground arith) in
      (
        take (length s - length sub) s,
        sym (take-append-drop (length s - length sub) s)
            ∙ ap (λ (r : Str). take (length s - length sub) s ++ r) tail,
      )),
  λ (t, e).
      let front : length (t ++ sub) - length sub ≡ length t = omega (arith, length-append t sub) in
      let fits = le→leb (length sub) (length (t ++ sub)) (omega (arith, length-append t sub)) in
      rw (e, fits, front, drop_front t sub) (bytes_eq_refl sub),
)
