-- ===== src/Slice/Members/Laws.antt =====
-- What the iterators, `slice` with fewer arguments and the comparison of api/slice.hpp do on slices
-- that hold items.
use julelang.Prelude.{
  ◌+◌, ◌-◌, ◌≡◌, ◌↔◌, refl, ap, ap₂, inl, inr, sym, ◌∙◌, subst, Bool, true, false, not, List, [],
  ◌∷◌, length, arith, Bool-cases, ℕ_discrete,
}
use julelang.Heap.{Heap, ok}
use julelang.Slice.{Slice, read_range, slice_eq, same_items}
use julelang.Slice.Memory.{read_range-At}
use julelang.Slice.Items.{Holds}
use julelang.Slice.Members.{begin, end, slice_ne}

module _ {A : Type 0} where
  read_whole :
      (h : Heap A) (s : Slice) (xs : List A)
      → Holds h s xs
      → read_range s.base s.off s.len h ≡ ok xs h
  read_whole h s xs holds =
      subst (λ n. read_range s.base s.off n h ≡ ok xs h) holds.len
        (read_range-At h s.base s.off xs holds.here)

  -- Between `begin` and `end` stand the items.
  pub begin-end :
      (h : Heap A) (s : Slice) (xs : List A)
      → Holds h s xs
      → ((begin s).0 ≡ (end s).0)
        × (read_range (begin s).0 (begin s).1 ((end s).1 - (begin s).1) h ≡ ok xs h)
  unfolding begin end
  begin-end h s xs holds =
      let span : s.off + s.len - s.off ≡ s.len = omega arith in
      (refl, rw span (read_whole h s xs holds))

  abbrev head : A → List A → A
  head x [] = x
  head x (y ∷ ys) = y

  abbrev tail : List A → List A
  tail [] = []
  tail (y ∷ ys) = ys

  -- The items are equal, pairwise, where `ne` tells different items apart.
  same_items_iff :
      (ne : A → A → Bool)
      → ((x y : A) → (ne x y ≡ false) ↔ (x ≡ y))
      → (xs ys : List A) → length xs ≡ length ys
      → (same_items ne xs ys ≡ true) ↔ (xs ≡ ys)
  unfolding same_items
  same_items_iff ne tells [] [] e = (λ _. refl, λ _. refl)
  same_items_iff ne tells [] (y ∷ ys) e = absurd (omega (arith, e))
  same_items_iff ne tells (x ∷ xs) [] e = absurd (omega (arith, e))
  same_items_iff ne tells (x ∷ xs) (y ∷ ys) e =
      let (sound, complete) = same_items_iff ne tells xs ys (omega (arith, e)) in
      let (alike, told) = tells x y in
      elim (Bool-cases (ne x y)) [
        | inl differ ↦ (
          λ run. ground (arith, differ, run),
          λ same. ground (arith, differ, told (ap (head x) same)),
        )
        | inr same ↦ (
          λ run.
              ap₂ (λ (z : A) (zs : List A). z ∷ zs) (alike same)
                (sound (ground (arith, same, run))),
          λ both. ground (arith, same, complete (ap tail both)),
        )
      ]

  -- `==` and `!=` of slices that hold items tell whether they hold the same items, wherever those
  -- stand in memory, and leave memory alone.
  pub slice_eq-Holds :
      (ne : A → A → Bool) (h : Heap A) (s t : Slice) (xs ys : List A)
      → ((x y : A) → (ne x y ≡ false) ↔ (x ≡ y))
      → Holds h s xs
      → Holds h t ys
      → (same : Bool) × (slice_eq ne s t h ≡ ok same h)
        × (slice_ne ne s t h ≡ ok (not same) h)
        × ((same ≡ true) ↔ (xs ≡ ys))
  unfolding slice_eq slice_ne
  slice_eq-Holds ne h s t xs ys tells holds holds' =
      let read = read_whole h s xs holds in
      let read' = read_whole h t ys holds' in
      elim (ℕ_discrete s.len t.len) [
        | yes e ↦ (
          same_items ne xs ys,
          ground (arith, e, read, read'),
          ground (arith, e, read, read'),
          same_items_iff ne tells xs ys (holds.len ∙ e ∙ sym holds'.len),
        )
        | no other ↦ (
          false,
          ground (arith, other),
          ground (arith, other),
          (
            λ none. ground (arith, none),
            λ e. absurd (other (sym holds.len ∙ ap length e ∙ holds'.len)),
          ),
        )
      ]
