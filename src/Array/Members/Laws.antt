-- ===== src/Array/Members/Laws.antt =====
-- Reads and writes of items of an api/array.hpp array, its constructor, and its comparison.
use julelang.Prelude.{
  ℕ, zero, suc, ◌<◌, ◌≡◌, ◌⊎◌, inl, inr, refl, ap, ◌∙◌, List, [], ◌∷◌, ◌++◌, length, drop,
  replicate, set, get_or, arith, none, some, length-set, length-append, length-drop,
  length-replicate, dec_lt, ◌==◌, if◌then◌else◌,
}
use julelang.Prelude.Int.{ℤ, pos, negsuc}
use julelang.Panic
use julelang.Panic.{index_out_of_range, ◌>>=◌}
use julelang.Array.{item}
use julelang.Array.Members.{array_of, new_array, empty, set_item}

module _ {A : Type 0} where
  front_of-drop :
      (fill : A) (buffer : List A) (k : ℕ)
      → elim (drop k buffer) as (λ l. Panic.Result A) [ [] ↦ Panic.ok fill | x ∷ xs ↦ Panic.ok x ]
        ≡ Panic.ok (get_or buffer k fill)
  front_of-drop fill [] zero = refl
  front_of-drop fill [] (suc k) = refl
  front_of-drop fill (x ∷ xs) zero = refl
  front_of-drop fill (x ∷ xs) (suc k) = front_of-drop fill xs k

  item_in :
      (fill : A) (buffer : List A) (k : ℕ)
      → k < length buffer
      → item fill buffer (pos k) ≡ Panic.ok (get_or buffer k fill)
  unfolding item
  item_in fill buffer k below = ground (arith, front_of-drop fill buffer k)

  get_or-set :
      (fill v : A) (xs : List A) (k j : ℕ)
      → j < length xs
      → get_or (set xs k v) j fill ≡ (if k == j then v else get_or xs j fill)
  get_or-set fill v [] k j below = absurd (omega (arith, below))
  get_or-set fill v (x ∷ xs) zero zero below = refl
  get_or-set fill v (x ∷ xs) zero (suc j) below = ground arith
  get_or-set fill v (x ∷ xs) (suc k) zero below = ground arith
  get_or-set fill v (x ∷ xs) (suc k) (suc j) below =
      ground (arith, get_or-set fill v xs k j (omega (arith, below)))

  get_or-drop : (fill : A) (n m j : ℕ) → get_or (drop m (replicate n fill)) j fill ≡ fill
  get_or-drop fill zero zero j = refl
  get_or-drop fill zero (suc m) j = refl
  get_or-drop fill (suc n) zero zero = refl
  get_or-drop fill (suc n) zero (suc j) = get_or-drop fill n zero j
  get_or-drop fill (suc n) (suc m) j = get_or-drop fill n m j

  get_or-append :
      (fill : A) (src t : List A) (j : ℕ)
      → ((i : ℕ) → get_or t i fill ≡ fill)
      → get_or (src ++ t) j fill ≡ get_or src j fill
  get_or-append fill [] t j default = default j
  get_or-append fill (x ∷ src) t zero default = refl
  get_or-append fill (x ∷ src) t (suc j) default = get_or-append fill src t j default

  -- A write is read back at its index, and leaves every other item; an index outside the array makes
  -- both panic.
  pub item-set_item :
      (fill v : A) (buffer : List A) (i : ℤ)
      → ((k : ℕ) × (i ≡ pos k)
          × (buffer' : List A) × (set_item buffer i v ≡ Panic.ok buffer')
          × (length buffer' ≡ length buffer)
          × ((j : ℕ)
              → j < length buffer
              → item fill buffer' (pos j)
                ≡ (if k == j then Panic.ok v else item fill buffer (pos j))))
        ⊎ ((set_item buffer i v ≡ Panic.panic (index_out_of_range i))
            × (item fill buffer i ≡ Panic.panic (index_out_of_range i)))
  unfolding set_item empty item
  item-set_item fill v buffer (negsuc n) = inr (ground arith, ground arith)
  item-set_item fill v buffer (pos k) = elim (dec_lt k (length buffer)) [
    | no out ↦ inr (ground arith, ground arith)
    | yes inside ↦
        let buffer' = set buffer k v in
        inl (
          k,
          refl,
          buffer',
          ground arith,
          length-set buffer k v,
          λ j below.
              item_in fill buffer' j (omega (arith, below, length-set buffer k v))
              ∙ ap Panic.ok (get_or-set fill v buffer k j below)
              ∙ ground (arith, item_in fill buffer j below),
        )
  ]

  -- An array has its items whatever the number of initial ones, unless there are too many of them.
  pub array_of-length :
      (fill : A) (n : ℕ) (src : List A)
      → ((buffer : List A) × (array_of fill n src ≡ some buffer)
          × (length buffer ≡ n)
          × ((j : ℕ) → j < n → get_or buffer j fill ≡ get_or src j fill))
        ⊎ ((n < length src) × (array_of fill n src ≡ none))
  unfolding array_of new_array
  array_of-length fill n src = elim (dec_lt n (length src)) [
    | yes many ↦ inr (many, ground arith)
    | no few ↦
        let behind = drop (length src) (replicate n fill) in
        inl (
          src ++ behind,
          ground arith,
          omega (
            arith,
            length-append src behind,
            length-drop (length src) (replicate n fill),
            length-replicate n fill,
          ),
          λ j below. get_or-append fill src behind j (get_or-drop fill n (length src)),
        )
  ]
